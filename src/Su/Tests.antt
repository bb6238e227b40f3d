-- ===== src/Su/Tests.antt =====
-- One user that may become root, and the theorems of the Su modules at it.
use kpm_syscall_backtrace.Base.{
  ℕ, zero, suc, ◌≡◌, refl, arith, true, false, [], ◌∷◌, some, get_or, length,
}
use kpm_syscall_backtrace.Kstorage.{Storage, Rc, ok, group}
use kpm_syscall_backtrace.Kstorage.Groups.{Unique}
use kpm_syscall_backtrace.Kstorage.Invariant.{IsWf}
use kpm_syscall_backtrace.Su.{is_su_allow_uid, su_add_allow_uid, su_allow_uid_profile}
use kpm_syscall_backtrace.Su.Allowed.{Added, su_add_allow_uid-Added}

abbrev no_users : Storage
no_users = record {
  used_groups = 2;
  groups = [] ∷ [] ∷ [] ∷ [] ∷ [];
  group_sizes = 0 ∷ 0 ∷ 0 ∷ 0 ∷ [];
}

no_sizes : (gid : ℕ) → get_or no_users.group_sizes gid 0 ≡ length (group no_users gid)
no_sizes zero = refl
no_sizes (suc zero) = refl
no_sizes (suc (suc zero)) = refl
no_sizes (suc (suc (suc zero))) = refl
no_sizes (suc (suc (suc (suc gid)))) = refl

no_users-Unique : (gid : ℕ) → Unique (group no_users gid)
no_users-Unique zero = tt
no_users-Unique (suc zero) = tt
no_users-Unique (suc (suc zero)) = tt
no_users-Unique (suc (suc (suc zero))) = tt
no_users-Unique (suc (suc (suc (suc gid)))) = tt

no_users-IsWf : IsWf no_users
no_users-IsWf = record {
  groups_num = refl;
  sizes_num = refl;
  sizes = no_sizes;
  unique = no_users-Unique;
}

abbrev shell_added : Rc × Storage
shell_added = su_add_allow_uid (λ n. true) 1 no_users 2000 0 (117 ∷ 58 ∷ [])

shell_allowed :
    (shell_added.0 ≡ ok)
    × (is_su_allow_uid 1 shell_added.1 2000 ≡ true)
    × (is_su_allow_uid 1 shell_added.1 2001 ≡ false)
    × (su_allow_uid_profile 1 shell_added.1 2000 ≡ some (2000, 0))
unfolding su_add_allow_uid is_su_allow_uid su_allow_uid_profile
shell_allowed = (refl, refl, refl, refl)

su_add_allow_uid-Added_example :
    Added (λ n. true) 1 no_users 2000 0 (117 ∷ 58 ∷ []) 2001 shell_added
su_add_allow_uid-Added_example =
    su_add_allow_uid-Added (λ n. true) 1 no_users 2000 0 (117 ∷ 58 ∷ []) 2001 no_users-IsWf
      (omega arith) (omega arith)

-- Two users are listed where there is room for three.
abbrev two_added : Rc × Storage
two_added = su_add_allow_uid (λ n. true) 1 shell_added.1 10086 0 []

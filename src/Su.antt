-- ===== src/Su.antt =====
-- kernel/patch/common/sucompat.c: the list of the users that may become another user, in a group of the
-- key-value storage. A uid is a number below 2 ^ 32, and memory holds its bytes lowest first.
pub mod Allowed
pub mod Listed
mod Tests
use kpm_syscall_backtrace.Base.{
  ℕ, zero, suc, ◌+◌, ◌*◌, ◌/◌, ◌%◌, ◌==◌, if◌then◌else◌, Bool, true, false, Option, none, some, ◌⊎◌,
  inl, inr, List, [], ◌∷◌, get_or, ◌++◌, leb,
}
use kpm_syscall_backtrace.Kstorage.{
  Record, Storage, Rc, ok, enoent, write_kstorage, get_kstorage, remove_kstorage,
  kstorage_group_size, on_each_kstorage_elem,
}

-- `struct su_profile`
pub record SuProfile : Type 0 where
  pub uid : ℕ
  pub to_uid : ℕ
  pub scontext : List ℕ

-- The size of a profile: two uids and SUPERCALL_SCONTEXT_LEN bytes.
abbrev pub profile_size : ℕ
profile_size = 104

-- The bytes of a profile in memory.
unfoldable pub profile_bytes : SuProfile → List ℕ
profile_bytes p =
    p.uid % 256
    ∷ p.uid / 256 % 256
    ∷ p.uid / 65536 % 256
    ∷ p.uid / 16777216 % 256
    ∷ p.to_uid % 256
    ∷ p.to_uid / 256 % 256
    ∷ p.to_uid / 65536 % 256
    ∷ p.to_uid / 16777216 % 256
    ∷ p.scontext

-- A uid at a place of some bytes.
abbrev pub uid_at : List ℕ → ℕ → ℕ
uid_at bytes i =
    get_or bytes i 0
    + get_or bytes (suc i) 0 * 256
    + get_or bytes (suc (suc i)) 0 * 65536
    + get_or bytes (suc (suc (suc i))) 0 * 16777216

-- `gid` is `su_kstorage_gid`.
unfoldable pub is_su_allow_uid : ℕ → Storage → ℕ → Bool
unfolding get_kstorage
is_su_allow_uid gid s uid = elim (get_kstorage s gid uid) [
  | none ↦ false
  | some ks ↦ if ks.dlen == 0 then false else uid_at ks.bytes 0 == uid
]

-- `vmalloc` is whether there is memory for so many bytes; `scontext` is the bytes from its argument on.
unfoldable pub su_add_allow_uid : (ℕ → Bool) → ℕ → Storage → ℕ → ℕ → List ℕ → Rc × Storage
unfolding write_kstorage profile_bytes
su_add_allow_uid vmalloc gid s uid to_uid scontext =
    let profile : SuProfile = record { uid = uid; to_uid = to_uid; scontext = scontext } in
    write_kstorage vmalloc (λ addr len. inl 14) (λ a. get_or (profile_bytes profile) a 0) s gid uid
      0 0 profile_size false

unfoldable pub su_remove_allow_uid : ℕ → Storage → ℕ → Rc × Storage
unfolding remove_kstorage
su_remove_allow_uid gid s uid = remove_kstorage s gid uid

unfoldable pub su_allow_uid_nums : ℕ → Storage → Rc ⊎ ℕ
unfolding kstorage_group_size
su_allow_uid_nums gid s = kstorage_group_size s gid

-- `su_allow_uid_profile` with a pointer of the kernel; `none` is -ENOENT.
unfoldable pub su_allow_uid_profile : ℕ → Storage → ℕ → Option (ℕ × ℕ)
unfolding get_kstorage
su_allow_uid_profile gid s uid = elim (get_kstorage s gid uid) [
  | none ↦ none
  | some ks ↦ some (uid_at ks.bytes 0, uid_at ks.bytes 4)
]

-- The state of the loop: the number of the uids written, and the uids. `copy_to_user` takes the place of
-- the uid: a value that is not positive, negated, or the number of bytes.
module _ (copy_to_user : ℕ → ℕ → ℕ ⊎ ℕ) (is_user : Bool) (out_num : ℕ) where
  abbrev pub uid_copied : ℕ → ℕ → ℕ ⊎ ℕ
  uid_copied idx uid = if is_user then copy_to_user idx uid else inr 4

  -- 105 is ENOBUFS.
  unfoldable pub allow_uids_cb : Record → ℕ × List ℕ → ℕ × (ℕ × List ℕ)
  allow_uids_cb ks (idx, out_uids) =
      if leb out_num idx
      then (105, (idx, out_uids))
      else (elim (uid_copied idx (uid_at ks.bytes 0)) [
        | inl e ↦ (e, (idx, out_uids))
        | inr n ↦ (0, (suc idx, out_uids ++ uid_at ks.bytes 0 ∷ []))
      ])

  unfoldable pub su_allow_uids : ℕ → Storage → ℕ × List ℕ
  unfolding on_each_kstorage_elem allow_uids_cb
  su_allow_uids gid s = (on_each_kstorage_elem s gid allow_uids_cb (0, [])).1

-- ===== src/Kstorage/Tests.antt =====
-- A storage with one record, and the theorems of the Kstorage modules at it.
use kpm_syscall_backtrace.Base.{
  ℕ, zero, suc, ◌-◌, ◌^◌, ◌==◌, if◌then◌else◌, ◌≡◌, refl, arith, true, false, inl, inr, some, [],
  ◌∷◌, length, get_or,
}
use kpm_syscall_backtrace.Kstorage.{
  Record, Storage, Rc, group, find_did, ok, get_kstorage, write_kstorage,
}
use kpm_syscall_backtrace.Kstorage.Groups.{Unique}
use kpm_syscall_backtrace.Kstorage.Invariant.{IsWf}
use kpm_syscall_backtrace.Kstorage.Ids.{list_kstorage_ids}
use kpm_syscall_backtrace.Kstorage.Laws.{Written, write_kstorage-get}

abbrev stored : Record
stored = record { gid = 1; did = 7; dlen = 2; bytes = 5 ∷ 6 ∷ [] }

abbrev one_record : Storage
one_record = record {
  used_groups = 2;
  groups = [] ∷ (stored ∷ []) ∷ [] ∷ [] ∷ [];
  group_sizes = 0 ∷ 1 ∷ 0 ∷ 0 ∷ [];
}

sizes_of : (gid : ℕ) → get_or one_record.group_sizes gid 0 ≡ length (group one_record gid)
sizes_of zero = refl
sizes_of (suc zero) = refl
sizes_of (suc (suc zero)) = refl
sizes_of (suc (suc (suc zero))) = refl
sizes_of (suc (suc (suc (suc gid)))) = refl

one_record-Unique : (gid : ℕ) → Unique (group one_record gid)
unfolding find_did
one_record-Unique zero = tt
one_record-Unique (suc zero) = (refl, tt)
one_record-Unique (suc (suc zero)) = tt
one_record-Unique (suc (suc (suc zero))) = tt
one_record-Unique (suc (suc (suc (suc gid)))) = tt

one_record-IsWf : IsWf one_record
one_record-IsWf = record {
  groups_num = refl;
  sizes_num = refl;
  sizes = sizes_of;
  unique = one_record-Unique;
}

-- Memory without bound, whose byte at an address is the address, and no user space.
abbrev write_nine : Rc × Storage
write_nine = write_kstorage (λ n. true) (λ a n. inl 14) (λ a. a) one_record 1 9 100 4 2 false

writes_nine :
    (write_nine.0 ≡ ok)
    × (get_kstorage write_nine.1 1 9
        ≡ some (record { gid = 1; did = 9; dlen = 2; bytes = 104 ∷ 105 ∷ [] }))
unfolding write_kstorage get_kstorage
writes_nine = (refl, refl)

write_kstorage-get_example :
    Written (λ n. true) (λ a n. inl 14) (λ a. a) one_record 1 9 100 4 2 false 1 7 write_nine
write_kstorage-get_example =
    write_kstorage-get (λ n. true) (λ a n. inl 14) (λ a. a) one_record 1 9 100 4 2 false 1 7
      one_record-IsWf (inr (omega arith))

-- A first copy that fails with -EFAULT makes the count negative: the next key goes to a place before `ids`.
after_fault :
    list_kstorage_ids
      (λ cnt did. if cnt == 0 then inl 14 else inr 8)
      8
      true
      (record one_record { groups = [] ∷ (stored ∷ stored ∷ []) ∷ [] ∷ [] ∷ [] })
      1
    ≡ (2 ^ 32 - 12, (2 ^ 32 - 13, 7) ∷ [])
unfolding list_kstorage_ids
after_fault = refl

-- ===== src/Kstorage.antt =====
-- kernel/patch/common/kstorage.c: records under a group and a key. A group is the list of its records,
-- newest first. The locks and RCU sections order the operations and have no effect of their own; a
-- negative group number is refused as one that is too large is, so a group number is a natural number.
pub mod Groups
pub mod Ids
pub mod Invariant
pub mod Laws
mod Tests
use kpm_syscall_backtrace.Base.{
  ℕ, zero, suc, ◌+◌, ◌-◌, ◌==◌, ltb, leb, if◌then◌else◌, Bool, true, false, not, ◌⊎◌, inl, inr,
  Option, none, some, List, [], ◌∷◌, get_or, set, take, drop, replicate,
}

abbrev pub max_group_num : ℕ
max_group_num = 4

-- `struct kstorage`; `bytes` is its `data`, of `dlen` bytes.
pub record Record : Type 0 where
  pub gid : ℕ
  pub did : ℕ
  pub dlen : ℕ
  pub bytes : List ℕ

-- The file's variables. `used_groups` is `used_max_group + 1`.
pub record Storage : Type 0 where
  pub used_groups : ℕ
  pub groups : List (List Record)
  pub group_sizes : List ℕ

-- The values that the functions return: 0, -ENOENT, -ENOMEM, or a negative one that they pass on from
-- the function that copies from or to user space.
pub data Rc : Type 0 where
  ok enoent enomem : Rc
  passed_on : ℕ → Rc

unfoldable pub kstorage_init : Storage
kstorage_init = record {
  used_groups = 0;
  groups = replicate max_group_num [];
  group_sizes = replicate max_group_num 0;
}

-- `none` is -1.
unfoldable pub try_alloc_kstroage_group : Storage → Option ℕ × Storage
try_alloc_kstroage_group s =
    if leb max_group_num s.used_groups
    then (none, s)
    else (some s.used_groups, record s { used_groups = suc s.used_groups })

unfoldable pub kstorage_group_size : Storage → ℕ → Rc ⊎ ℕ
kstorage_group_size s gid =
    if leb max_group_num gid then inl enoent else inr (get_or s.group_sizes gid 0)

-- The loop `list_for_each_entry` for the first record of a key.
unfoldable pub find_did : List Record → ℕ → Option Record
find_did [] did = none
find_did (r ∷ rs) did = let rest = find_did rs did in if r.did == did then some r else rest

-- `list_replace_rcu` at the record that the loop stopped at.
unfoldable pub replace_did : List Record → ℕ → Record → List Record
replace_did [] did new = []
replace_did (r ∷ rs) did new =
    let rest = replace_did rs did new in if r.did == did then new ∷ rs else r ∷ rest

-- `list_del_rcu` at the record that the loop stopped at.
unfoldable pub delete_did : List Record → ℕ → List Record
delete_did [] did = []
delete_did (r ∷ rs) did = let rest = delete_did rs did in if r.did == did then rs else r ∷ rest

abbrev pub group : Storage → ℕ → List Record
group s gid = get_or s.groups gid []

-- The two ways of `write_kstorage` to link the new record.
unfoldable pub link_record : Storage → ℕ → ℕ → Record → Storage
unfolding find_did replace_did
link_record s gid did new = elim (find_did (group s gid) did) [
  | some old ↦ record s { groups = set s.groups gid (replace_did (group s gid) did new) }
  | none ↦ record s {
    groups = set s.groups gid (new ∷ group s gid);
    group_sizes = set s.group_sizes gid (suc (get_or s.group_sizes gid 0));
  }
]

-- `memcpy` from kernel memory.
abbrev pub read_bytes : (ℕ → ℕ) → ℕ → ℕ → List ℕ
read_bytes mem addr zero = []
read_bytes mem addr (suc n) = mem addr ∷ read_bytes mem (suc addr) n

-- Whether `vmalloc` has memory for `len` bytes of data, the copy from user space (the error that it
-- returns, negated, or the bytes), and the memory of the kernel.
module _ (vmalloc : ℕ → Bool) (memdup_user : ℕ → ℕ → ℕ ⊎ List ℕ) (mem : ℕ → ℕ) where
  unfoldable pub source_bytes : ℕ → ℕ → Bool → ℕ ⊎ List ℕ
  source_bytes addr len data_is_user =
      if data_is_user then memdup_user addr len else inr (read_bytes mem addr len)

  unfoldable pub write_kstorage : Storage → ℕ → ℕ → ℕ → ℕ → ℕ → Bool → Rc × Storage
  unfolding source_bytes link_record
  write_kstorage s gid did addr offset len data_is_user =
      if leb max_group_num gid
      then (enoent, s)
      else if not (vmalloc len)
      then (enomem, s)
      else (elim (source_bytes (addr + offset) len data_is_user) [
        | inl e ↦ (passed_on e, s)
        | inr bytes ↦
            (ok, link_record s gid did (record { gid = gid; did = did; dlen = len; bytes = bytes }))
      ])

-- `none` is ERR_PTR(-ENOENT), which both refusals return.
unfoldable pub get_kstorage : Storage → ℕ → ℕ → Option Record
unfolding find_did
get_kstorage s gid did = if leb max_group_num gid then none else find_did (group s gid) did

-- `cb` returns 0 or another value; the loop ends behind a record for which it is another. The value is
-- bound to a variable of the loop, so the function returns 0 whatever it was.
unfoldable pub on_each_from {ℓ} : {W : Type ℓ} → (Record → W → ℕ × W) → List Record → W → W
on_each_from cb [] w = w
on_each_from cb (r ∷ rs) w =
    let (rc, w') = cb r w in let rest = on_each_from cb rs w' in if rc == 0 then rest else w'

unfoldable pub on_each_kstorage_elem {ℓ} :
    {W : Type ℓ} → Storage → ℕ → (Record → W → ℕ × W) → W → Rc × W
unfolding on_each_from
on_each_kstorage_elem s gid cb w =
    if leb max_group_num gid then (enoent, w) else (ok, on_each_from cb (group s gid) w)

abbrev pub min_len : ℕ → ℕ → ℕ → ℕ
min_len dlen offset len = if ltb len (dlen - offset) then len else dlen - offset

-- The copy to user space: a value that is not positive, negated, or the number of bytes.
module _ (copy_to_user : List ℕ → ℕ ⊎ ℕ) where
  abbrev pub copied : List ℕ → Bool → Rc
  copied bytes false = ok
  copied bytes true = elim (copy_to_user bytes) [ inl e ↦ passed_on e | inr n ↦ ok ]

  -- The value and the bytes that are copied. `none` is a copy of a negative number of bytes, where the
  -- offset lies behind the data.
  unfoldable pub read_kstorage : Storage → ℕ → ℕ → ℕ → ℕ → Bool → Option (Rc × List ℕ)
  unfolding get_kstorage
  read_kstorage s gid did offset len data_is_user = elim (get_kstorage s gid did) [
    | none ↦ some (enoent, [])
    | some r ↦
        let bytes = take (min_len r.dlen offset len) (drop offset r.bytes) in
        if ltb r.dlen offset then none else some (copied bytes data_is_user, bytes)
  ]

-- The function returns 0 for a key that no record has, too.
unfoldable pub remove_kstorage : Storage → ℕ → ℕ → Rc × Storage
unfolding find_did delete_did
remove_kstorage s gid did =
    if leb max_group_num gid then (enoent, s) else (elim (find_did (group s gid) did) [
      | none ↦ (ok, s)
      | some r ↦ (
        ok,
        record s {
          groups = set s.groups gid (delete_did (group s gid) did);
          group_sizes = set s.group_sizes gid (get_or s.group_sizes gid 0 - 1);
        },
      )
    ])

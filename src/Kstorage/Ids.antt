-- ===== src/Kstorage/Ids.antt =====
-- list_kstorage_ids of kernel/patch/common/kstorage.c: the keys of a group. An `int` is a number below
-- 2 ^ 32 that wraps, negative from 2 ^ 31 on.
use kpm_syscall_backtrace.Base.{
  ℕ, zero, suc, ◌+◌, ◌-◌, ◌%◌, ◌^◌, ◌<◌, ◌≡◌, refl, ◌∙◌, arith, Bool, true, false, ◌⊎◌, inl, inr,
  List, [], ◌∷◌, take, leb, if◌then◌else◌, length,
}
use kpm_syscall_backtrace.Kstorage.{Record, Storage, group, max_group_num}

-- `cnt >= idslen` for two values of `int`.
abbrev pub at_least : ℕ → ℕ → Bool
at_least cnt idslen = leb ((idslen + 2 ^ 31) % 2 ^ 32) ((cnt + 2 ^ 31) % 2 ^ 32)

-- `copy_to_user` has the place in `ids` and the key: a value that is not positive, negated, or the number
-- of bytes. The functions give the count and the writes, each a place in `ids` and a key, in order.
module _ (copy_to_user : ℕ → ℕ → ℕ ⊎ ℕ) (idslen : ℕ) (data_is_user : Bool) where
  abbrev pub id_copied : ℕ → ℕ → ℕ ⊎ ℕ
  id_copied cnt did = if data_is_user then copy_to_user cnt did else inr 8

  -- An error becomes the count.
  abbrev pub next_cnt : ℕ → ℕ ⊎ ℕ → ℕ
  next_cnt cnt (inl e) = (2 ^ 32 - e + 1) % 2 ^ 32
  next_cnt cnt (inr n) = (cnt + 1) % 2 ^ 32

  abbrev pub id_written : ℕ → ℕ → ℕ ⊎ ℕ → List (ℕ × ℕ) → List (ℕ × ℕ)
  id_written cnt did (inl e) rest = rest
  id_written cnt did (inr n) rest = (cnt, did) ∷ rest

  unfoldable pub list_ids_from : List Record → ℕ → ℕ × List (ℕ × ℕ)
  list_ids_from [] cnt = (cnt, [])
  list_ids_from (r ∷ rs) cnt =
      let rest = list_ids_from rs (next_cnt cnt (id_copied cnt r.did)) in
      if at_least cnt idslen
      then (cnt, [])
      else (rest.0, id_written cnt r.did (id_copied cnt r.did) rest.1)

  -- 2 ^ 32 - 2 is -ENOENT.
  unfoldable pub list_kstorage_ids : Storage → ℕ → ℕ × List (ℕ × ℕ)
  unfolding list_ids_from
  list_kstorage_ids s gid =
      if leb max_group_num gid then (2 ^ 32 - 2, []) else list_ids_from (group s gid) 0

unfoldable pub dids_of : List Record → List ℕ
dids_of [] = []
dids_of (r ∷ rs) = r.did ∷ dids_of rs

-- Each key with its place, from a place on.
unfoldable pub numbered : ℕ → List ℕ → List (ℕ × ℕ)
numbered i [] = []
numbered i (x ∷ xs) = (i, x) ∷ numbered (suc i) xs

writes_eq :
    {m n : ℕ} {a b : List (ℕ × ℕ)} → m ≡ n → a ≡ b → ◌≡◌ {A = ℕ × List (ℕ × ℕ)} (m, a) (n, b)
writes_eq e e' = rw (e, e') refl

module _ (copy_to_user : ℕ → ℕ → ℕ ⊎ ℕ) (idslen : ℕ) (small : idslen < 2 ^ 31) where
  ids_loop :
      (rs : List Record) (room idx : ℕ)
      → idslen ≡ room + idx
      → list_ids_from copy_to_user idslen false rs idx
        ≡ (length (take room (dids_of rs)) + idx, numbered idx (take room (dids_of rs)))
  unfolding list_ids_from dids_of numbered
  ids_loop [] zero idx e = writes_eq (omega arith) refl
  ids_loop [] (suc room) idx e = writes_eq (omega arith) refl
  ids_loop (r ∷ rs) zero idx e =
      let full : at_least idx idslen ≡ true = ground (arith, e, small) in
      rw (full) (writes_eq (omega arith) refl)
  ids_loop (r ∷ rs) (suc room) idx e =
      let more : at_least idx idslen ≡ false = ground (arith, e, small) in
      let next : (idx + 1) % 2 ^ 32 ≡ suc idx = omega (arith, e, small) in
      let rest = ids_loop rs room (suc idx) (omega (arith, e)) in
      rw (more, next, rest) (writes_eq (omega arith) refl)

  -- For a caller in the kernel, room for fewer than 2 ^ 31 keys and a group of the storage,
  -- `list_kstorage_ids` writes the keys of the group's records in their order from the first place on, as
  -- many as there is room for, and returns their number.
  pub list_kstorage_ids-Lists :
      (s : Storage) (gid : ℕ)
      → gid < max_group_num
      → list_kstorage_ids copy_to_user idslen false s gid ≡ (
        length (take idslen (dids_of (group s gid))),
        numbered 0 (take idslen (dids_of (group s gid))),
      )
  unfolding list_kstorage_ids
  list_kstorage_ids-Lists s gid in_range =
      let known : leb max_group_num gid ≡ false = ground (arith, in_range) in
      rw (list_kstorage_ids, known)
        (ids_loop (group s gid) idslen 0 (omega arith) ∙ writes_eq (omega arith) refl)

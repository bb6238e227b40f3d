-- ===== src/Su/Listed.antt =====
-- The users that `su_allow_uids` of kernel/patch/common/sucompat.c lists.
use kpm_syscall_backtrace.Base.{
  ℕ, zero, suc, ◌+◌, ◌<◌, ◌≡◌, refl, ap, sym, ◌∙◌, arith, true, false, ◌⊎◌, List, [], ◌∷◌, ◌++◌,
  take, leb, length,
}
use kpm_syscall_backtrace.Kstorage.{
  Record, Storage, group, on_each_from, on_each_kstorage_elem, max_group_num,
}
use kpm_syscall_backtrace.Su.{uid_at, allow_uids_cb, su_allow_uids}

-- The uids in the records of a list.
unfoldable pub uids_of : List Record → List ℕ
uids_of [] = []
uids_of (r ∷ rs) = uid_at r.bytes 0 ∷ uids_of rs

append_one : (a : List ℕ) (x : ℕ) (b : List ℕ) → (a ++ (x ∷ [])) ++ b ≡ a ++ (x ∷ b)
append_one [] x b = refl
append_one (y ∷ a) x b = ap (λ l. y ∷ l) (append_one a x b)

append_nil : (a : List ℕ) → a ++ [] ≡ a
append_nil [] = refl
append_nil (x ∷ a) = ap (λ y. x ∷ y) (append_nil a)

pair_eq : {m n : ℕ} {a b : List ℕ} → m ≡ n → a ≡ b → ◌≡◌ {A = ℕ × List ℕ} (m, a) (n, b)
pair_eq e e' = rw (e, e') refl

module _ (copy_to_user : ℕ → ℕ → ℕ ⊎ ℕ) where
  cb_full :
      (out_num idx : ℕ) (r : Record) (out_uids : List ℕ)
      → leb out_num idx ≡ true
      → allow_uids_cb copy_to_user false out_num r (idx, out_uids) ≡ (105, (idx, out_uids))
  unfolding allow_uids_cb
  cb_full out_num idx r out_uids e = rw (e) refl

  cb_room :
      (out_num idx : ℕ) (r : Record) (out_uids : List ℕ)
      → leb out_num idx ≡ false
      → allow_uids_cb copy_to_user false out_num r (idx, out_uids)
        ≡ (0, (suc idx, out_uids ++ uid_at r.bytes 0 ∷ []))
  unfolding allow_uids_cb
  cb_room out_num idx r out_uids e = rw (e) refl

  loop_lem :
      (rs : List Record) (out_num room idx : ℕ) (out_uids : List ℕ)
      → out_num ≡ room + idx
      → on_each_from (allow_uids_cb copy_to_user false out_num) rs (idx, out_uids)
        ≡ (length (take room (uids_of rs)) + idx, out_uids ++ take room (uids_of rs))
  unfolding on_each_from uids_of
  loop_lem [] out_num zero idx out_uids e = pair_eq (omega arith) (sym (append_nil out_uids))
  loop_lem [] out_num (suc room) idx out_uids e = pair_eq (omega arith) (sym (append_nil out_uids))
  loop_lem (r ∷ rs) out_num zero idx out_uids e =
      rw (cb_full out_num idx r out_uids (ground (arith, e)))
        (pair_eq (omega arith) (sym (append_nil out_uids)))
  loop_lem (r ∷ rs) out_num (suc room) idx out_uids e =
      rw (cb_room out_num idx r out_uids (ground (arith, e))) (
        loop_lem rs out_num room (suc idx) (out_uids ++ uid_at r.bytes 0 ∷ []) (omega (arith, e))
        ∙ pair_eq (omega arith) (append_one out_uids (uid_at r.bytes 0) (take room (uids_of rs))))

  -- For a caller in the kernel and a group of the storage, `su_allow_uids` writes the uids of the group's
  -- records in their order, as many as there is room for, and returns their number.
  pub su_allow_uids-Lists :
      (out_num gid : ℕ) (s : Storage)
      → gid < max_group_num
      → su_allow_uids copy_to_user false out_num gid s
        ≡ (length (take out_num (uids_of (group s gid))), take out_num (uids_of (group s gid)))
  unfolding su_allow_uids on_each_kstorage_elem
  su_allow_uids-Lists out_num gid s small =
      let in_range : leb max_group_num gid ≡ false = ground (arith, small) in
      rw (su_allow_uids, on_each_kstorage_elem, in_range)
        (loop_lem (group s gid) out_num out_num 0 [] (omega arith) ∙ pair_eq (omega arith) refl)

-- ===== src/Kstorage/Groups.antt =====
-- The list operations of kernel/patch/common/kstorage.c on one group.
use kpm_syscall_backtrace.Base.{ℕ, suc, ◌≡◌, ◌≢◌, refl, arith, none, some, List, [], ◌∷◌, length}
use kpm_syscall_backtrace.Kstorage.{Record, find_did, replace_did, delete_did}

-- No two records of a group have one key.
abbrev pub Unique : List Record → Type 0
Unique [] = Unit {0}
Unique (r ∷ rs) = (find_did rs r.did ≡ none) × Unique rs

module _ (did : ℕ) where
  pub find_did-replace_did :
      (rs : List Record) (old new : Record)
      → find_did rs did ≡ some old
      → new.did ≡ did
      → find_did (replace_did rs did new) did ≡ some new
  unfolding find_did replace_did
  find_did-replace_did [] old new e d = cc
  find_did-replace_did (r ∷ rs) old new e d = ground (arith, find_did-replace_did rs old new)

  pub find_did-replace_did_ne :
      (rs : List Record) (new : Record) (other : ℕ)
      → new.did ≡ did
      → other ≢ did
      → find_did (replace_did rs did new) other ≡ find_did rs other
  unfolding find_did replace_did
  find_did-replace_did_ne [] new other d ne = refl
  find_did-replace_did_ne (r ∷ rs) new other d ne =
      ground (arith, find_did-replace_did_ne rs new other)

  pub length-replace_did :
      (rs : List Record) (new : Record) → length (replace_did rs did new) ≡ length rs
  unfolding replace_did
  length-replace_did [] new = refl
  length-replace_did (r ∷ rs) new = ground (arith, length-replace_did rs new)

  pub replace_did-Unique :
      (rs : List Record) (new : Record)
      → new.did ≡ did
      → Unique rs
      → Unique (replace_did rs did new)
  unfolding find_did replace_did
  replace_did-Unique [] new d u = tt
  replace_did-Unique (r ∷ rs) new d u =
      ground (arith, replace_did-Unique rs new, find_did-replace_did_ne rs new r.did)

  pub find_did-delete_did : (rs : List Record) → Unique rs → find_did (delete_did rs did) did ≡ none
  unfolding find_did delete_did
  find_did-delete_did [] u = refl
  find_did-delete_did (r ∷ rs) u = ground (arith, find_did-delete_did rs)

  pub find_did-delete_did_ne :
      (rs : List Record) (other : ℕ)
      → other ≢ did
      → find_did (delete_did rs did) other ≡ find_did rs other
  unfolding find_did delete_did
  find_did-delete_did_ne [] other ne = refl
  find_did-delete_did_ne (r ∷ rs) other ne = ground (arith, find_did-delete_did_ne rs other)

  pub length-delete_did :
      (rs : List Record) (old : Record)
      → find_did rs did ≡ some old
      → suc (length (delete_did rs did)) ≡ length rs
  unfolding find_did delete_did
  length-delete_did [] old e = cc
  length-delete_did (r ∷ rs) old e = ground (arith, length-delete_did rs old)

  pub delete_did-Unique : (rs : List Record) → Unique rs → Unique (delete_did rs did)
  unfolding find_did delete_did
  delete_did-Unique [] u = tt
  delete_did-Unique (r ∷ rs) u =
      ground (arith, delete_did-Unique rs, find_did-delete_did_ne rs r.did)

-- ===== src/Kallsym/Index.antt =====
-- What the token index that tools/kallsym.c finds says.
use mathlib.Core.Path.{subst}
use mathlib.Core.Option.{some-injective}
use kpm_syscall_backtrace.Base.{
  ℕ, zero, suc, ◌-◌, ◌%◌, ◌^◌, ◌≡◌, arith, Bool, Bool-cases, true, false, Option-cases, some, List,
  [], ◌∷◌, inl, inr,
}
use kpm_syscall_backtrace.Order.{bytes_at}
use kpm_syscall_backtrace.Order.Unpack.{number_of}
use kpm_syscall_backtrace.Kallsym.{Info, ksym_token_nums}
use kpm_syscall_backtrace.Kallsym.Table.{Holds}
use kpm_syscall_backtrace.Kallsym.Search.{
  fits, first_fit, memmem, index_bytes, token_places, find_token_index,
}

module _ (img : ℕ → ℕ) where
  fits-Holds : (bs : List ℕ) (pos : ℕ) → fits img pos bs ≡ true → Holds img pos bs
  fits-Holds [] pos e = tt
  fits-Holds (b ∷ bs) pos e = (ground arith, fits-Holds bs (suc pos) (ground arith))

  first_fit-Holds :
      (needle : List ℕ) (n pos found : ℕ)
      → first_fit img needle pos n ≡ some found
      → Holds img found needle
  first_fit-Holds needle zero pos found e = cc
  first_fit-Holds needle (suc n) pos found e = elim (Bool-cases (fits img pos needle)) [
    | inl here ↦
        subst (λ p. Holds img p needle) (some-injective _ _ (rw here at e))
          (fits-Holds needle pos here)
    | inr not_here ↦ first_fit-Holds needle n (suc pos) found (rw not_here at e)
  ]

  memmem-Holds :
      (pos len found : ℕ) (needle : List ℕ)
      → memmem img pos len needle ≡ some found
      → Holds img found needle
  unfolding memmem
  memmem-Holds pos len found needle e = first_fit-Holds needle _ pos found e

  -- The index at a place gives the places of the tokens behind the start.
  abbrev pub Indexes : Bool → ℕ → ℕ → List ℕ → Type 0
  Indexes is_be start pos [] = Unit {0}
  Indexes is_be start pos (place ∷ places) =
      (number_of is_be (bytes_at img pos 2) ≡ (place - start) % 2 ^ 16)
      × Indexes is_be start (suc (suc pos)) places

  Holds-Indexes :
      (is_be : Bool) (start pos : ℕ) (places : List ℕ)
      → Holds img pos (index_bytes is_be start places)
      → Indexes is_be start pos places
  Holds-Indexes is_be start pos [] h = tt
  Holds-Indexes true start pos (place ∷ places) (high, (low, h)) =
      (omega (arith, high, low), Holds-Indexes true start (suc (suc pos)) places h)
  Holds-Indexes false start pos (place ∷ places) (low, (high, h)) =
      (omega (arith, high, low), Holds-Indexes false start (suc (suc pos)) places h)

  -- When `find_token_index` succeeds, the 256 elements of 16 bits at the place it gives are, in the byte
  -- order it gives, the distances of the tokens from the start of their table.
  pub find_token_index-Indexes :
      (imglen : ℕ) (info info' : Info)
      → find_token_index img imglen info ≡ some info'
      → Indexes info'.is_be info.token_table_offset info'.token_index_offset
          (token_places img imglen ksym_token_nums info.token_table_offset)
  unfolding find_token_index
  find_token_index-Indexes imglen info info' e =
      let start : ℕ = info.token_table_offset in
      let places : List ℕ = token_places img imglen ksym_token_nums start in
      elim (Option-cases (memmem img 0 imglen (index_bytes false start places))) [
        | inr (pos, le) ↦
            subst (λ (i : Info). Indexes i.is_be start i.token_index_offset places)
              (some-injective _ _ (rw (find_token_index, le) at e))
              (Holds-Indexes false start pos places (memmem-Holds 0 imglen pos _ le))
        | inl not_le ↦ elim (Option-cases (memmem img 0 imglen (index_bytes true start places))) [
          | inr (pos, be) ↦
              subst (λ (i : Info). Indexes i.is_be start i.token_index_offset places)
                (some-injective _ _ (rw (find_token_index, not_le, be) at e))
                (Holds-Indexes true start pos places (memmem-Holds 0 imglen pos _ be))
          | inl not_be ↦ (let e' = rw (find_token_index, not_le, not_be) at e in cc e')
        ]
      ]

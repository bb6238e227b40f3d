-- ===== src/Kallsym/Finds.antt =====
-- What `get_symbol_offset` of tools/kallsym.c finds in a table of names.
use kpm_syscall_backtrace.Base.{
  ℕ, suc, ◌+◌, ◌-◌, ◌*◌, ◌%◌, if◌then◌else◌, ◌^◌, ◌<◌, ◌≡◌, ◌≢◌, ==_self, refl, ap, ◌∙◌, arith,
  Bool, Bool-cases, true, false, Option, none, some, ◌⊎◌, inl, inr, List, [], ◌∷◌, ◌++◌, length,
  same,
}
use kpm_syscall_backtrace.Order.{bytes_at}
use kpm_syscall_backtrace.Order.Unpack.{number_of, IsWidth, uint_unpack-reads}
use kpm_syscall_backtrace.Kallsym.Names.{FitsBuffer}
use kpm_syscall_backtrace.Kallsym.{Info}
use kpm_syscall_backtrace.Kallsym.Lookup.{
  next_name, index_from, get_symbol_index_offset, get_symbol_offset,
}
use kpm_syscall_backtrace.Kallsym.Table.{encoded, Holds, expanded, decompress-encoded}

-- The image holds a table of names: each is one to 511 tokens, behind its length, and what the tokens spell
-- fits the buffer of the code that reads it.
abbrev pub HoldsNames : (ℕ → ℕ) → ℕ → Info → ℕ → List (List ℕ) → Type 0
HoldsNames img imglen info pos [] = Unit {0}
HoldsNames img imglen info pos (name ∷ names) =
    (0 < length name)
    × (length name < 512)
    × FitsBuffer (expanded img imglen info name)
    × Holds img pos (encoded name)
    × HoldsNames img imglen info (pos + length (encoded name)) names

abbrev pub All {ℓ κ} : {A : Type ℓ} → (A → Type κ) → List A → Type κ
All P [] = Unit
All P (x ∷ xs) = P x × All P xs

same_eq : (xs ys : List ℕ) → same xs ys ≡ true → xs ≡ ys
same_eq [] [] e = refl
same_eq [] (d ∷ ys) e = cc
same_eq (c ∷ xs) [] e = cc
same_eq (c ∷ xs) (d ∷ ys) e = ground (arith, same_eq xs ys)

same_self : (xs : List ℕ) → same xs xs ≡ true
same_self [] = refl
same_self (c ∷ xs) = rw (==_self c) (same_self xs)

module _ (host_is_be : Bool) (img : ℕ → ℕ) (imglen : ℕ) (info : Info) (symbol : List ℕ) where
  -- What the search gives for a table of names: nothing, and no name is the symbol; or the place in the
  -- table of the first name that is.
  abbrev pub Finds : ℕ → List (List ℕ) → Option ℕ → Type 0
  Finds i names r =
      ((r ≡ none) × All (λ name. expanded img imglen info name ≢ symbol) names)
      ⊎ ((before : List (List ℕ)) × (name : List ℕ) × (after : List (List ℕ)) × (names
            ≡ before ++ (name ∷ after))
          × All (λ name. expanded img imglen info name ≢ symbol) before
          × (expanded img imglen info name ≡ symbol)
          × (r ≡ some (i + length before)))

  Finds-later :
      (i : ℕ) (name : List ℕ) (names : List (List ℕ)) (r : Option ℕ)
      → expanded img imglen info name ≢ symbol
      → Finds (suc i) names r
      → Finds i (name ∷ names) r
  Finds-later i name names r other (inl (e, all)) = inl (e, (other, all))
  Finds-later i name names r other (inr (before, found, after, e, all, is, place)) = inr (
    name ∷ before,
    found,
    after,
    ap (λ l. name ∷ l) e,
    (other, all),
    is,
    place ∙ ap some (omega arith),
  )

  next_name-encoded :
      (pos type : ℕ) (name : List ℕ)
      → 0 < length name
      → length name < 512
      → Holds img pos (encoded name)
      → (type' : ℕ) × (next_name host_is_be img imglen info pos type
          ≡ (pos + length (encoded name), type', expanded img imglen info name))
  next_name-encoded pos type name some_tokens small here =
      let (type', e) = decompress-encoded img imglen info pos name some_tokens small here in
      (type', rw (next_name, e) refl)

  not-same : (xs : List ℕ) → same xs symbol ≡ false → xs ≢ symbol
  not-same xs e is = let e' = rw is at e in cc (e', same_self symbol)

  index_from-Finds :
      (names : List (List ℕ)) (i pos type : ℕ)
      → HoldsNames img imglen info pos names
      → Finds i names (index_from host_is_be img imglen info symbol (length names) i pos type)
  unfolding index_from
  index_from-Finds [] i pos type h = inl (refl, tt)
  index_from-Finds (name ∷ names) i pos type (some_tokens, small, fits, here, rest) =
      let (type', e) = next_name-encoded pos type name some_tokens small here in
      elim (Bool-cases (same (expanded img imglen info name) symbol)) [
        | inl is ↦
            rw (e, is) (inr ([], name, names, refl, tt, same_eq _ _ is, ap some (omega arith)))
        | inr not_is ↦
            rw (e, not_is)
              (Finds-later i name names _ (not-same _ not_is)
                (index_from-Finds names (suc i) _ type' rest))
      ]

  -- The offset of a symbol: the number at its index in the table of offsets, or, without a relative base,
  -- the distance of the number there in the table of addresses from the base of the kernel.
  abbrev pub offset_at : ℕ → ℕ
  offset_at index =
      if info.has_relative_base
      then number_of info.is_be
          (bytes_at img (info.offsets_offset + index * info.asm_long_size) info.asm_long_size)
        % 2 ^ 32
      else (number_of info.is_be
            (bytes_at img (info.addresses_offset + index * info.asm_ptr_size) info.asm_ptr_size)
          + (2 ^ 64 - info.kernel_base))
        % 2 ^ 32

  get_symbol_index_offset-offset_at :
      ((p : ℕ) → img p < 256)
      → IsWidth info.asm_long_size
      → IsWidth info.asm_ptr_size
      → (index : ℕ) → get_symbol_index_offset host_is_be img imglen info index ≡ offset_at index
  unfolding get_symbol_index_offset
  get_symbol_index_offset-offset_at bytes long ptr index =
      elim (Bool-cases info.has_relative_base) [
        | inl e ↦
            rw (e, uint_unpack-reads img bytes _ host_is_be info.is_be info.asm_long_size long) refl
        | inr e ↦
            rw (e, uint_unpack-reads img bytes _ host_is_be info.is_be info.asm_ptr_size ptr) refl
      ]

  -- The offset of the first name that is the symbol, or -1, and then no name is the symbol.
  abbrev pub FindsOffset : List (List ℕ) → ℕ → Type 0
  FindsOffset names offset =
      ((offset ≡ 2 ^ 32 - 1) × All (λ name. expanded img imglen info name ≢ symbol) names)
      ⊎ ((before : List (List ℕ)) × (name : List ℕ) × (after : List (List ℕ)) × (names
            ≡ before ++ (name ∷ after))
          × All (λ name. expanded img imglen info name ≢ symbol) before
          × (expanded img imglen info name ≡ symbol)
          × (offset ≡ offset_at (length before)))

  -- Where an image of bytes holds a table of as many names as `num_syms` says, none longer than 511
  -- characters, and the elements of the tables are 1, 2, 4 or 8 bytes wide, `get_symbol_offset` gives the
  -- offset that the tables hold at the index of the first name whose tokens spell the symbol, or -1, and then
  -- no name spells it.
  pub get_symbol_offset-Finds :
      (names : List (List ℕ))
      → ((p : ℕ) → img p < 256)
      → IsWidth info.asm_long_size
      → IsWidth info.asm_ptr_size
      → info.num_syms ≡ length names
      → HoldsNames img imglen info info.names_offset names
      → FindsOffset names (get_symbol_offset host_is_be img imglen info symbol)
  unfolding get_symbol_offset
  get_symbol_offset-Finds names bytes long ptr num holds =
      rw (get_symbol_offset, num)
        (elim (index_from-Finds names 0 info.names_offset 0 holds) [
          | inl (e, all) ↦ inl (rw e refl, all)
          | inr (before, name, after, split, all, is, e) ↦ inr (
            before,
            name,
            after,
            split,
            all,
            is,
            rw e (
                ap (get_symbol_index_offset host_is_be img imglen info) (omega arith)
                ∙ get_symbol_index_offset-offset_at bytes long ptr (length before)),
          )
        ])

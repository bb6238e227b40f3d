-- ===== src/Symbol/Lookup.antt =====
-- A lookup in the table of kernel/base/symbol.c finds what a search by name alone finds.
use kpm_syscall_backtrace.Base.{
  ℕ, ◌+◌, ◌-◌, ◌%◌, ◌^◌, ◌<◌, ◌==◌, ◌≡◌, ◌≢◌, ◌⊎◌, refl, ap, arith, inl, inr, true, false, ◌&&◌,
  List, [], ◌∷◌,
}
use kpm_syscall_backtrace.Symbol.{KpSymbol, sym_hash, local_strcmp, symbol_lookup_name, symbol_init}

-- Bytes that are not 0.
abbrev pub IsText : List ℕ → Type 0
IsText [] = Unit {0}
IsText (c ∷ text) = (c ≢ 0) × (c < 256) × IsText text

abbrev pub AreNamed : List KpSymbol → Type 0
AreNamed [] = Unit {0}
AreNamed (s ∷ symbols) = IsText s.name × AreNamed symbols

-- The address is that of the first entry with the name, or 0 when there is none.
pub data ByName (name : List ℕ) (moved : ℕ → ℕ) : List KpSymbol → ℕ → Type 0 where
  absent : ByName name moved [] 0
  here :
      {s : KpSymbol} {symbols : List KpSymbol}
      → s.name ≡ name
      → ByName name moved (s ∷ symbols) (moved s.addr)
  later :
      {s : KpSymbol} {symbols : List KpSymbol} {addr : ℕ}
      → ¬ (s.name ≡ name)
      → ByName name moved symbols addr
      → ByName name moved (s ∷ symbols) addr

local_strcmp-equal :
    (s1 s2 : List ℕ)
    → IsText s1
    → IsText s2
    → ((local_strcmp s1 s2 ≡ 0) × (s2 ≡ s1)) ⊎ ((local_strcmp s1 s2 ≢ 0) × ¬ (s2 ≡ s1))
unfolding local_strcmp
local_strcmp-equal [] [] t1 t2 = inl (refl, refl)
local_strcmp-equal [] (d ∷ s2) t1 t2 = inr (ground (arith, t2), λ e. cc e)
local_strcmp-equal (c ∷ s1) [] t1 t2 = inr (ground (arith, t1), λ e. cc e)
local_strcmp-equal (c ∷ s1) (d ∷ s2) t1 t2 =
    ground (arith, t1.0, t1.1, t2.0, t2.1, local_strcmp-equal s1 s2 t1.2 t2.2)

-- The hashes that symbol_init computes only save comparisons: in the table that it leaves, whose names are
-- texts, the lookup of a text gives the moved address of the first entry with that name, or 0 when none has
-- it.
pub lookup-ByName :
    (link runtime : ℕ) (symbols : List KpSymbol) (name : List ℕ)
    → AreNamed symbols
    → IsText name
    → ByName name
        (λ addr. (addr + 2 ^ 64 - link + runtime) % 2 ^ 64)
        symbols
        (symbol_lookup_name (symbol_init link runtime symbols) name)
unfolding symbol_lookup_name symbol_init
lookup-ByName link runtime [] name named text = absent
lookup-ByName link runtime (s ∷ symbols) name named text =
    elim (local_strcmp-equal name s.name text named.0) [
      | inl (zero_is, same) ↦
          let hash : (sym_hash name == sym_hash s.name && local_strcmp name s.name == 0) ≡ true =
            ground (arith, zero_is, ap sym_hash same) in
          rw (hash, symbol_lookup_name) (here same)
      | inr (differ, other) ↦
          let hash : (sym_hash name == sym_hash s.name && local_strcmp name s.name == 0) ≡ false =
            ground (arith, differ) in
          rw (hash, symbol_lookup_name)
            (later other (lookup-ByName link runtime symbols name named.1 text))
    ]

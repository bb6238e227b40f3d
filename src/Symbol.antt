-- ===== src/Symbol.antt =====
-- kernel/base/symbol.c: the table of the names that the kernel patch exports. A string is the list of its
-- bytes before the terminator, and the table is the list of its entries.
pub mod Lookup
mod Tests
use kpm_syscall_backtrace.Base.{
  ℕ, ◌+◌, ◌-◌, ◌*◌, ◌%◌, ◌^◌, ◌==◌, if◌then◌else◌, Bool, true, false, not, ◌&&◌, List, [], ◌∷◌, map,
}
use kpm_syscall_backtrace.BaseLib.Strings.{difference}

-- `kp_symbol_t`
pub record KpSymbol : Type 0 where
  pub addr : ℕ
  pub name : List ℕ
  pub hash : ℕ

-- The loop of `sym_hash`: `(hash << 5) + hash` is 33 times the hash.
unfoldable pub hash_from : ℕ → List ℕ → ℕ
hash_from hash [] = hash
hash_from hash (c ∷ str) = hash_from ((hash * 33 + c) % 2 ^ 64) str

unfoldable pub sym_hash : List ℕ → ℕ
unfolding hash_from
sym_hash str = hash_from 5381 str

-- The end of a string is a 0.
unfoldable pub local_strcmp : List ℕ → List ℕ → ℕ
local_strcmp [] [] = 0
local_strcmp [] (d ∷ s2) = difference 0 d
local_strcmp (c ∷ s1) [] = difference c 0
local_strcmp (c ∷ s1) (d ∷ s2) =
    let rest = local_strcmp s1 s2 in if not (difference c d == 0) then difference c d else rest

-- The address, or 0.
unfoldable pub symbol_lookup_name : List KpSymbol → List ℕ → ℕ
unfolding sym_hash local_strcmp
symbol_lookup_name [] name = 0
symbol_lookup_name (s ∷ symbols) name =
    let rest = symbol_lookup_name symbols name in
    if sym_hash name == s.hash && local_strcmp name s.name == 0 then s.addr else rest

-- An entry after `symbol_init`, which moves the addresses from where the patch was linked to where it runs.
unfoldable pub init_symbol : ℕ → ℕ → KpSymbol → KpSymbol
unfolding sym_hash
init_symbol link_base_addr runtime_base_addr s = record s {
  addr = (s.addr + 2 ^ 64 - link_base_addr + runtime_base_addr) % 2 ^ 64;
  hash = sym_hash s.name;
}

unfoldable pub symbol_init : ℕ → ℕ → List KpSymbol → List KpSymbol
unfolding init_symbol
symbol_init link_base_addr runtime_base_addr symbols =
    map (init_symbol link_base_addr runtime_base_addr) symbols

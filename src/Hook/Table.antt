-- ===== src/Hook/Table.antt =====
-- What the searches through the instruction table of kernel/base/hook.c find.
use kpm_syscall_backtrace.Base.{ℕ, ◌≤◌, ◌≡◌, ◌==◌, bit_and, arith, true, List, [], ◌∷◌}
use kpm_syscall_backtrace.Base.Bits.{bit_and-zero}
use kpm_syscall_backtrace.Hook.Insn.{
  InstType, inst_bc, inst_bl, inst_adr, inst_adrp, inst_prfm_lit, inst_ldr_simd_32,
  inst_ldr_simd_64, inst_ldr_simd_128, inst_ignore, Pattern, patterns, match_pattern, match_len,
}

-- The relocated length by type, as the table gives it.
abbrev pub len_of : InstType → ℕ
len_of inst_adr = 4
len_of inst_adrp = 4
len_of inst_ignore = 2
len_of inst_bc = 8
len_of inst_bl = 8
len_of inst_prfm_lit = 8
len_of inst_ldr_simd_32 = 8
len_of inst_ldr_simd_64 = 8
len_of inst_ldr_simd_128 = 8
len_of _ = 6

pub len_of-le : (t : InstType) → len_of t ≤ 8
len_of-le inst_ignore = omega arith
len_of-le _ = omega arith

-- Tables whose rows agree with `len_of`, and whose last row fits every instruction.
abbrev Agrees : List Pattern → Type 0
Agrees [] = Unit {0}
Agrees (p ∷ ps) = (p.len ≡ len_of p.kind) × Agrees ps

abbrev EndsInCatchAll : Pattern → List Pattern → Type 0
EndsInCatchAll p [] = (p.mask ≡ 0) × (p.bits ≡ 0)
EndsInCatchAll p (q ∷ ps) = EndsInCatchAll q ps

catch_all-matches :
    (p : Pattern) (inst : ℕ) → p.mask ≡ 0 → p.bits ≡ 0 → (bit_and inst p.mask == p.bits) ≡ true
catch_all-matches p inst m b = ground (arith, bit_and-zero inst)

match_pattern-len_of :
    (p : Pattern) (ps : List Pattern) (inst : ℕ)
    → EndsInCatchAll p ps
    → Agrees (p ∷ ps)
    → (match_pattern (p ∷ ps) inst).1 ≡ len_of (match_pattern (p ∷ ps) inst).0
unfolding match_pattern
match_pattern-len_of p [] inst e a = ground (arith, catch_all-matches p inst)
match_pattern-len_of p (q ∷ ps) inst e a = ground (arith, match_pattern-len_of q ps inst e a.1)

match_len-eq :
    (p : Pattern) (ps : List Pattern) (inst : ℕ)
    → EndsInCatchAll p ps
    → match_len (p ∷ ps) inst ≡ (match_pattern (p ∷ ps) inst).1
unfolding match_pattern match_len
match_len-eq p [] inst e = ground (arith, catch_all-matches p inst)
match_len-eq p (q ∷ ps) inst e = ground (arith, match_len-eq q ps inst e)

-- Some row of the table fits, so both searches find the length of the type found.
pub match_pattern-patterns :
    (inst : ℕ) → (match_pattern patterns inst).1 ≡ len_of (match_pattern patterns inst).0
unfolding patterns
match_pattern-patterns inst = match_pattern-len_of _ _ inst (omega arith) (omega arith)

pub match_len-patterns : (inst : ℕ) → match_len patterns inst ≡ (match_pattern patterns inst).1
unfolding patterns
match_len-patterns inst = match_len-eq _ _ inst (omega arith)

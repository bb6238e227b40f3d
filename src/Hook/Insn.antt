-- ===== src/Hook/Insn.antt =====
-- The instruction table of kernel/base/hook.c: the masks, the types and the relocated lengths, and
-- the macros that take an immediate out of an instruction.
use kpm_syscall_backtrace.Base.{
  ℕ, ◌+◌, ◌-◌, ◌*◌, ◌/◌, ◌%◌, ◌^◌, ◌==◌, bit_and, bit_or, if◌then◌else◌, List, [], ◌∷◌,
}

-- `inst_type_t`, a constructor for each INST_* value.
pub data InstType : Type 0 where
  inst_b inst_bc inst_bl inst_adr inst_adrp inst_ldr_32 inst_ldr_64 inst_ldrsw_lit : InstType
  inst_prfm_lit inst_ldr_simd_32 inst_ldr_simd_64 inst_ldr_simd_128 : InstType
  inst_cbz inst_cbnz inst_tbz inst_tbnz inst_ignore : InstType

-- A row of the parallel arrays `masks`, `types` and `relo_len`.
pub record Pattern : Type 0 where
  pub mask : ℕ
  pub bits : ℕ
  pub kind : InstType
  pub len : ℕ

abbrev pattern_of : ℕ → ℕ → InstType → ℕ → Pattern
pattern_of m b k n = record { mask = m; bits = b; kind = k; len = n }

unfoldable pub patterns : List Pattern
patterns =
    pattern_of 0xFC000000 0x14000000 inst_b 6
    ∷ pattern_of 0xFF000010 0x54000000 inst_bc 8
    ∷ pattern_of 0xFC000000 0x94000000 inst_bl 8
    ∷ pattern_of 0x9F000000 0x10000000 inst_adr 4
    ∷ pattern_of 0x9F000000 0x90000000 inst_adrp 4
    ∷ pattern_of 0xFF000000 0x18000000 inst_ldr_32 6
    ∷ pattern_of 0xFF000000 0x58000000 inst_ldr_64 6
    ∷ pattern_of 0xFF000000 0x98000000 inst_ldrsw_lit 6
    ∷ pattern_of 0xFF000000 0xD8000000 inst_prfm_lit 8
    ∷ pattern_of 0xFF000000 0x1C000000 inst_ldr_simd_32 8
    ∷ pattern_of 0xFF000000 0x5C000000 inst_ldr_simd_64 8
    ∷ pattern_of 0xFF000000 0x9C000000 inst_ldr_simd_128 8
    ∷ pattern_of 0x7F000000 0x34000000 inst_cbz 6
    ∷ pattern_of 0x7F000000 0x35000000 inst_cbnz 6
    ∷ pattern_of 0x7F000000 0x36000000 inst_tbz 6
    ∷ pattern_of 0x7F000000 0x37000000 inst_tbnz 6
    ∷ pattern_of 0 0 inst_ignore 2
    ∷ []

-- The search of `relocate_inst` through the arrays, with its initial `it` and `len`.
unfoldable pub match_pattern : List Pattern → ℕ → InstType × ℕ
match_pattern [] inst = (inst_ignore, 1)
match_pattern (p ∷ ps) inst =
    if bit_and inst p.mask == p.bits then (p.kind, p.len) else match_pattern ps inst

-- The search of `relo_in_tramp`, which adds nothing if no pattern fits.
unfoldable pub match_len : List Pattern → ℕ → ℕ
match_len [] inst = 0
match_len (p ∷ ps) inst = if bit_and inst p.mask == p.bits then p.len else match_len ps inst

-- `bits32(n, high, low)`: a shift left in 32 bits, then a shift right.
unfoldable pub bits32 : ℕ → ℕ → ℕ → ℕ
bits32 n high low = n * 2 ^ (31 - high) % 2 ^ 32 / 2 ^ (31 - high + low)

-- `sign64_extend(n, len)`
unfoldable pub sign64_extend : ℕ → ℕ → ℕ
sign64_extend n len =
    if n * 2 ^ (63 - (len - 1)) % 2 ^ 64 / 2 ^ 63 == 0
    then n
    else bit_or n (0xFFFFFFFFFFFFFFFF * 2 ^ len % 2 ^ 64)

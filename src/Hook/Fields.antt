-- ===== src/Hook/Fields.antt =====
-- The macros and masks of kernel/base/hook.c as arithmetic on an instruction.
use kpm_syscall_backtrace.Base.{
  ℕ, ◌+◌, ◌-◌, ◌*◌, ◌/◌, ◌%◌, ◌^◌, ◌<◌, ◌≡◌, arith, ltb, if◌then◌else◌, bit_and, bit_or,
}
use kpm_syscall_backtrace.Base.Bits.{
  bit_and_split, bit_and-mask, bit_and-zero, bit_or_join, bit_or-zero, bit_or-disjoint',
}
use kpm_syscall_backtrace.Hook.Insn.{bits32, sign64_extend}

pub bits32_imm26 : (inst : ℕ) → bits32 inst 25 0 ≡ inst % 2 ^ 26
unfolding bits32
bits32_imm26 inst = omega arith

pub bits32_imm19 : (inst : ℕ) → bits32 inst 23 5 ≡ inst / 2 ^ 5 % 2 ^ 19
unfolding bits32
bits32_imm19 inst = omega arith

pub bits32_imm14 : (inst : ℕ) → bits32 inst 18 5 ≡ inst / 2 ^ 5 % 2 ^ 14
unfolding bits32
bits32_imm14 inst = omega arith

pub bits32_reg : (inst : ℕ) → bits32 inst 4 0 ≡ inst % 2 ^ 5
unfolding bits32
bits32_reg inst = omega arith

pub bits32_immlo : (inst : ℕ) → bits32 inst 30 29 ≡ inst / 2 ^ 29 % 2 ^ 2
unfolding bits32
bits32_immlo inst = omega arith

-- The 64-bit pattern of a signed number of `len` bits.
abbrev pub twos_complement : ℕ → ℕ → ℕ
twos_complement n len = if ltb n (2 ^ (len - 1)) then n else n + (2 ^ 64 - 2 ^ len)

pub sign64_extend_16 : (n : ℕ) → n < 2 ^ 16 → sign64_extend n 16 ≡ twos_complement n 16
unfolding sign64_extend
sign64_extend_16 n h = ground (arith, bit_or-disjoint' 16 (2 ^ 48 - 1) n)

pub sign64_extend_21 : (n : ℕ) → n < 2 ^ 21 → sign64_extend n 21 ≡ twos_complement n 21
unfolding sign64_extend
sign64_extend_21 n h = ground (arith, bit_or-disjoint' 21 (2 ^ 43 - 1) n)

pub sign64_extend_28 : (n : ℕ) → n < 2 ^ 28 → sign64_extend n 28 ≡ twos_complement n 28
unfolding sign64_extend
sign64_extend_28 n h = ground (arith, bit_or-disjoint' 28 (2 ^ 36 - 1) n)

pub sign64_extend_33 : (n : ℕ) → n < 2 ^ 33 → sign64_extend n 33 ≡ twos_complement n 33
unfolding sign64_extend
sign64_extend_33 n h = ground (arith, bit_or-disjoint' 33 (2 ^ 31 - 1) n)

-- `inst & 0xFF00001F`
pub keep_test19 :
    (inst : ℕ) → inst < 2 ^ 32 → bit_and inst 0xFF00001F ≡ inst / 2 ^ 24 * 2 ^ 24 + inst % 2 ^ 5
keep_test19 inst h = ground (
  arith,
  bit_and_split 24 inst 0xFF 0x1F,
  bit_and-mask 8 (inst / 2 ^ 24),
  bit_and-mask 5 (inst % 2 ^ 24),
)

-- `inst & 0xFFF8001F`
pub keep_test14 :
    (inst : ℕ) → inst < 2 ^ 32 → bit_and inst 0xFFF8001F ≡ inst / 2 ^ 19 * 2 ^ 19 + inst % 2 ^ 5
keep_test14 inst h = ground (
  arith,
  bit_and_split 19 inst 0x1FFF 0x1F,
  bit_and-mask 13 (inst / 2 ^ 19),
  bit_and-mask 5 (inst % 2 ^ 19),
)

-- `| 0x40` sets the offset of two words.
pub set_offset : (q r : ℕ) → r < 2 ^ 5 → bit_or (q * 2 ^ 19 + r) 0x40 ≡ q * 2 ^ 19 + 0x40 + r
set_offset q r h = ground (arith, bit_or_join 19 q r 0 0x40, bit_or-zero q, bit_or-disjoint' 6 1 r)

-- What the masks of the conditional branches say.
pub mask_bc :
    (inst : ℕ)
    → inst < 2 ^ 32
    → bit_and inst 0xFF000010 ≡ 0x54000000
    → (inst / 2 ^ 24 ≡ 0x54) × (inst / 2 ^ 4 % 2 ≡ 0)
mask_bc inst h e = ground (
  arith,
  bit_and_split 24 inst 0xFF 0x10,
  bit_and-mask 8 (inst / 2 ^ 24),
  bit_and_split 4 (inst % 2 ^ 24) 1 0,
  bit_and-mask 1 (inst % 2 ^ 24 / 2 ^ 4),
  bit_and-zero (inst % 2 ^ 24 % 2 ^ 4),
)

pub mask_7F :
    (inst bits : ℕ)
    → inst < 2 ^ 32
    → bit_and inst 0x7F000000 ≡ bits * 2 ^ 24
    → inst / 2 ^ 24 % 2 ^ 7 ≡ bits
mask_7F inst bits h e = ground (
  arith,
  bit_and_split 24 inst 0x7F 0,
  bit_and-mask 7 (inst / 2 ^ 24),
  bit_and-zero (inst % 2 ^ 24),
)

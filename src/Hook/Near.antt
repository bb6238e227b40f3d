-- ===== src/Hook/Near.antt =====
-- The first words of relocated conditional branches, and the immediates of branches, as arithmetic.
use kpm_syscall_backtrace.Base.{
  ℕ, ◌+◌, ◌*◌, ◌/◌, ◌%◌, ◌^◌, ◌<◌, ◌≡◌, ◌≢◌, ◌∙◌, ap, arith, bit_and, bit_or, ◌⊎◌, inl, inr,
}
use mathlib.Core.Path.{ap₂}
use kpm_syscall_backtrace.Arm.{decode, branch_if, test19, test14}
use kpm_syscall_backtrace.Hook.Types.{add64, lo32, hi32}
use kpm_syscall_backtrace.Hook.Insn.{
  inst_bc, inst_cbz, inst_cbnz, inst_tbz, inst_tbnz, patterns, match_pattern, bits32, sign64_extend,
}
use kpm_syscall_backtrace.Hook.Words.{type_of}
use kpm_syscall_backtrace.Hook.Fields.{
  keep_test19, keep_test14, set_offset, mask_bc, mask_7F, twos_complement, bits32_imm26,
  bits32_imm19, bits32_imm14, sign64_extend_28, sign64_extend_21, sign64_extend_16,
}

pub row_bc : (inst : ℕ) → type_of inst ≡ inst_bc → bit_and inst 0xFF000010 ≡ 0x54000000
unfolding match_pattern patterns
row_bc inst e = ground arith

pub row_cbz : (inst : ℕ) → type_of inst ≡ inst_cbz → bit_and inst 0x7F000000 ≡ 0x34 * 2 ^ 24
unfolding match_pattern patterns
row_cbz inst e = ground arith

pub row_cbnz : (inst : ℕ) → type_of inst ≡ inst_cbnz → bit_and inst 0x7F000000 ≡ 0x35 * 2 ^ 24
unfolding match_pattern patterns
row_cbnz inst e = ground arith

pub row_tbz : (inst : ℕ) → type_of inst ≡ inst_tbz → bit_and inst 0x7F000000 ≡ 0x36 * 2 ^ 24
unfolding match_pattern patterns
row_tbz inst e = ground arith

pub row_tbnz : (inst : ℕ) → type_of inst ≡ inst_tbnz → bit_and inst 0x7F000000 ≡ 0x37 * 2 ^ 24
unfolding match_pattern patterns
row_tbnz inst e = ground arith

-- The first relocated word is the branch itself, two words far.
abbrev pub near19 : ℕ → ℕ
near19 inst = bit_or (bit_and inst 0xFF00001F) 0x40

abbrev pub near14 : ℕ → ℕ
near14 inst = bit_or (bit_and inst 0xFFF8001F) 0x40

pub near19_lem :
    (inst : ℕ) → inst < 2 ^ 32 → near19 inst ≡ inst / 2 ^ 24 * 2 ^ 24 + 0x40 + inst % 2 ^ 5
near19_lem inst h =
    ground (arith, keep_test19 inst h, set_offset (inst / 2 ^ 24 * 2 ^ 5) (inst % 2 ^ 5))

pub near14_lem :
    (inst : ℕ) → inst < 2 ^ 32 → near14 inst ≡ inst / 2 ^ 19 * 2 ^ 19 + 0x40 + inst % 2 ^ 5
near14_lem inst h = ground (arith, keep_test14 inst h, set_offset (inst / 2 ^ 19) (inst % 2 ^ 5))

pub decode-near19_bc :
    (inst : ℕ)
    → inst < 2 ^ 32
    → type_of inst ≡ inst_bc
    → decode (near19 inst) ≡ branch_if (test19 inst) 2
unfolding decode
decode-near19_bc inst h e = ground (arith, near19_lem inst h, mask_bc inst h (row_bc inst e))

pub decode-near19 :
    (inst : ℕ)
    → inst < 2 ^ 32
    → (type_of inst ≡ inst_cbz) ⊎ (type_of inst ≡ inst_cbnz)
    → decode (near19 inst) ≡ branch_if (test19 inst) 2
unfolding decode
decode-near19 inst h (inl e) =
    ground (arith, near19_lem inst h, mask_7F inst 0x34 h (row_cbz inst e))
decode-near19 inst h (inr e) =
    ground (arith, near19_lem inst h, mask_7F inst 0x35 h (row_cbnz inst e))

decode_tb :
    (v : ℕ) → v / 2 ^ 25 % 2 ^ 6 ≡ 0x1B → decode v ≡ branch_if (test14 v) (v / 2 ^ 5 % 2 ^ 14)
unfolding decode
decode_tb v e = ground (arith, out)
  where
    out : (v / 2 ^ 26 ≢ 0x05) × (v / 2 ^ 24 ≢ 0x54)
    out = (omega arith, omega arith)

near14_fields :
    (inst : ℕ)
    → inst < 2 ^ 32
    → (near14 inst / 2 ^ 25 ≡ inst / 2 ^ 25)
      × (near14 inst / 2 ^ 5 % 2 ^ 14 ≡ 2)
      × (test14 (near14 inst) ≡ test14 inst)
near14_fields inst h = rw near14_lem (omega arith)

is_tb :
    (inst : ℕ)
    → inst < 2 ^ 32
    → (type_of inst ≡ inst_tbz) ⊎ (type_of inst ≡ inst_tbnz)
    → inst / 2 ^ 25 % 2 ^ 6 ≡ 0x1B
is_tb inst h (inl e) = omega (arith, mask_7F inst 0x36 h (row_tbz inst e))
is_tb inst h (inr e) = omega (arith, mask_7F inst 0x37 h (row_tbnz inst e))

pub decode-near14 :
    (inst : ℕ)
    → inst < 2 ^ 32
    → (type_of inst ≡ inst_tbz) ⊎ (type_of inst ≡ inst_tbnz)
    → decode (near14 inst) ≡ branch_if (test14 inst) 2
decode-near14 inst h t =
    let f = near14_fields inst h in
    decode_tb (near14 inst) (ap (λ q. q % 2 ^ 6) f.0 ∙ is_tb inst h t) ∙ ap₂ branch_if f.2 f.1

pub halves : (addr : ℕ) → lo32 addr + hi32 addr * 2 ^ 32 ≡ addr
halves addr = omega arith

-- The addresses that branches with 26, 19 and 14 bits of offset name.
abbrev pub target26 : ℕ → ℕ → ℕ
target26 inst_addr inst = add64 inst_addr (twos_complement (inst % 2 ^ 26 * 4) 28)

abbrev pub target19 : ℕ → ℕ → ℕ
target19 inst_addr inst = add64 inst_addr (twos_complement (inst / 2 ^ 5 % 2 ^ 19 * 4) 21)

abbrev pub target14 : ℕ → ℕ → ℕ
target14 inst_addr inst = add64 inst_addr (twos_complement (inst / 2 ^ 5 % 2 ^ 14 * 4) 16)

pub imm26_lem :
    (inst : ℕ) → sign64_extend (bits32 inst 25 0 * 4) 28 ≡ twos_complement (inst % 2 ^ 26 * 4) 28
imm26_lem inst = rw bits32_imm26 (sign64_extend_28 (inst % 2 ^ 26 * 4) (omega arith))

pub imm19_lem :
    (inst : ℕ)
    → sign64_extend (bits32 inst 23 5 * 4) 21 ≡ twos_complement (inst / 2 ^ 5 % 2 ^ 19 * 4) 21
imm19_lem inst = rw bits32_imm19 (sign64_extend_21 (inst / 2 ^ 5 % 2 ^ 19 * 4) (omega arith))

pub imm14_lem :
    (inst : ℕ)
    → sign64_extend (bits32 inst 18 5 * 4) 16 ≡ twos_complement (inst / 2 ^ 5 % 2 ^ 14 * 4) 16
imm14_lem inst = rw bits32_imm14 (sign64_extend_16 (inst / 2 ^ 5 % 2 ^ 14 * 4) (omega arith))

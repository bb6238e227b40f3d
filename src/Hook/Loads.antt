-- ===== src/Hook/Loads.antt =====
-- What relocated ADR, ADRP and literal loads do on the machine of Arm.antt.
use kpm_syscall_backtrace.Base.{
  ℕ, ◌+◌, ◌-◌, ◌*◌, ◌/◌, ◌%◌, ◌^◌, ◌<◌, ◌≡◌, ◌≢◌, refl, ◌∙◌, ap, arith, Bool, true, false,
  Bool-cases, bit_and, bit_or, ◌⊎◌, inl, inr, get_elem?, some, List, [], ◌∷◌,
}
use kpm_syscall_backtrace.Base.Bits.{
  bit_or-disjoint, bit_and_split, bit_and-mask, bit_and-zero, bit_or_join, bit_or-zero,
}
use kpm_syscall_backtrace.Arm.{
  Regs, write, write_self, fell, exec, step, run, run_goes, decode, Insn, load_literal, load,
}
use kpm_syscall_backtrace.Hook.Types.{Hook, no_err, bad_relo, add64, lo32, hi32, arm64_nop}
use kpm_syscall_backtrace.Hook.Insn.{
  InstType, inst_adr, inst_adrp, inst_ldr_32, inst_ldr_64, inst_ldrsw_lit,
}
use kpm_syscall_backtrace.Hook.Emit.{
  relo_adr, relo_ldr, adr_target, is_in_tramp, ldr_target, ldr_words, load_literal as literal_words,
  relo_in_tramp,
}
use kpm_syscall_backtrace.Hook.Fields.{
  twos_complement, bits32_imm19, bits32_immlo, bits32_reg, sign64_extend_21, sign64_extend_33,
}
use kpm_syscall_backtrace.Hook.Near.{halves, target19, imm19_lem}

-- The target of ADR, and of ADRP, as the architecture defines them.
abbrev pub adr_address : ℕ → ℕ → ℕ
adr_address inst_addr inst =
    add64 inst_addr (twos_complement (inst / 2 ^ 5 % 2 ^ 19 * 4 + inst / 2 ^ 29 % 4) 21)

abbrev pub adrp_address : ℕ → ℕ → ℕ
adrp_address inst_addr inst =
    add64 inst_addr
      (twos_complement (inst / 2 ^ 5 % 2 ^ 19 * 2 ^ 14 + inst / 2 ^ 29 % 4 * 2 ^ 12) 33)
    / 2 ^ 12
    * 2 ^ 12

adr_target_lem :
    (inst_addr inst : ℕ) → adr_target inst_addr inst inst_adr ≡ adr_address inst_addr inst
unfolding adr_target
adr_target_lem inst_addr inst =
    rw
      (
        bits32_imm19,
        bits32_immlo,
        bit_or-disjoint 2 (inst / 2 ^ 5 % 2 ^ 19) (inst / 2 ^ 29 % 2 ^ 2) (omega arith),
      )
      (ap (add64 inst_addr) (sign64_extend_21 _ (omega arith)))

keep_page : (x : ℕ) → x < 2 ^ 64 → bit_and x 0xFFFFFFFFFFFFF000 ≡ x / 2 ^ 12 * 2 ^ 12
keep_page x h = ground (
  arith,
  bit_and_split 12 x (2 ^ 52 - 1) 0,
  bit_and-mask 52 (x / 2 ^ 12),
  bit_and-zero (x % 2 ^ 12),
)

adrp_target_lem :
    (inst_addr inst : ℕ) → adr_target inst_addr inst inst_adrp ≡ adrp_address inst_addr inst
unfolding adr_target
adrp_target_lem inst_addr inst =
    rw
      (
        bits32_imm19,
        bits32_immlo,
        bit_or-disjoint 14 (inst / 2 ^ 5 % 2 ^ 19) (inst / 2 ^ 29 % 2 ^ 2 * 2 ^ 12) (omega arith),
        sign64_extend_33 (inst / 2 ^ 5 % 2 ^ 19 * 2 ^ 14 + inst / 2 ^ 29 % 2 ^ 2 * 2 ^ 12)
            (omega arith),
      )
      (keep_page _ (omega arith))

decode-load_address : (xd : ℕ) → xd < 2 ^ 5 → decode (bit_or 0x58000040 xd) ≡ load_literal xd 2
unfolding decode
decode-load_address xd h = ground (arith, bit_or-disjoint 5 (0x58000040 / 2 ^ 5) xd)

decode-load_literal : (rt : ℕ) → rt < 2 ^ 5 → decode (bit_or 0x58000060 rt) ≡ load_literal rt 3
unfolding decode
decode-load_literal rt h = ground (arith, bit_or-disjoint 5 (0x58000060 / 2 ^ 5) rt)

-- `op | rt | (rt << 5)`
both_regs :
    (q rt : ℕ)
    → rt < 2 ^ 5
    → bit_or (bit_or (q * 2 ^ 10) rt) (rt * 2 ^ 5) ≡ q * 2 ^ 10 + rt * 2 ^ 5 + rt
both_regs q rt h = ground (
  arith,
  bit_or-disjoint 10 q rt,
  bit_or_join 5 (q * 2 ^ 5) rt rt 0,
  bit_or-disjoint 5 q rt,
  bit_or-zero rt,
)

-- The load that each type makes.
abbrev pub load_kind : InstType → ℕ
load_kind inst_ldr_32 = 0xB9400000 / 2 ^ 10
load_kind inst_ldr_64 = 0xF9400000 / 2 ^ 10
load_kind _ = 0xB9800000 / 2 ^ 10

decode-load :
    (it : InstType) (rt : ℕ)
    → rt < 2 ^ 5
    → decode (bit_or (bit_or (load_kind it * 2 ^ 10) rt) (rt * 2 ^ 5)) ≡ load (load_kind it) rt rt
unfolding decode
decode-load inst_ldr_32 rt h = ground (arith, both_regs (0xB9400000 / 2 ^ 10) rt h)
decode-load inst_ldr_64 rt h = ground (arith, both_regs (0xF9400000 / 2 ^ 10) rt h)
decode-load _ rt h = ground (arith, both_regs (0xB9800000 / 2 ^ 10) rt h)

-- The address that a relocated literal load reads from: its offset of 12 bytes names the word
-- before the address that the code stores, so it takes a NOP for the low half.
abbrev pub misread : ℕ → ℕ
misread addr = arm64_nop + lo32 addr * 2 ^ 32

target19_aligned : (inst_addr inst : ℕ) → inst_addr % 4 ≡ 0 → target19 inst_addr inst % 4 ≡ 0
target19_aligned inst_addr inst h = ground arith

misread-ne :
    (inst_addr inst : ℕ)
    → inst_addr % 4 ≡ 0
    → misread (target19 inst_addr inst) ≢ target19 inst_addr inst
misread-ne inst_addr inst h = omega (arith, target19_aligned inst_addr inst h)

module _ (holds : ℕ → Bool) (mem : ℕ → ℕ → ℕ) (base : ℕ) (regs : Regs) where
  step_at :
      (code : List ℕ) (k w : ℕ) (i : Insn) (now : Regs)
      → get_elem? code k ≡ some w
      → decode w ≡ i
      → step holds mem base code k now ≡ exec holds mem base code i k now
  unfolding step
  step_at code k w i now e d = rw (e, step) (rw d refl)

  run-load_address :
      (w xd addr : ℕ)
      → decode w ≡ load_literal xd 2
      → run holds mem base (w ∷ 0x14000003 ∷ lo32 addr ∷ hi32 addr ∷ []) 8 0 regs
        ≡ fell (write regs xd addr)
  unfolding run step exec decode
  run-load_address w xd addr d =
      let code = w ∷ 0x14000003 ∷ lo32 addr ∷ hi32 addr ∷ [] in
      run_goes holds mem base code 7 0 1 regs (write regs xd (lo32 addr + hi32 addr * 2 ^ 32))
        (step_at code 0 w (load_literal xd 2) regs refl d)
      ∙ ap (λ v. fell (write regs xd v)) (halves addr)

  run-literal :
      (w v rt kind addr : ℕ)
      → decode w ≡ load_literal rt 3
      → decode v ≡ load kind rt rt
      → run holds mem base (w ∷ v ∷ 0x14000004 ∷ arm64_nop ∷ lo32 addr ∷ hi32 addr ∷ []) 8 0 regs
        ≡ fell (write (write regs rt (misread addr)) rt (mem kind (misread addr)))
  unfolding run step exec decode
  run-literal w v rt kind addr d e =
      let code = w ∷ v ∷ 0x14000004 ∷ arm64_nop ∷ lo32 addr ∷ hi32 addr ∷ [] in
      let now = write regs rt (misread addr) in
      run_goes holds mem base code 7 0 1 regs now (step_at code 0 w (load_literal rt 3) regs refl d)
      ∙ run_goes holds mem base code 6 1 2 now (write now rt (mem kind (now rt)))
          (step_at code 1 v (load kind rt rt) now refl e)
      ∙ ap (λ a. fell (write now rt (mem kind a))) (write_self regs rt (misread addr))

-- The literal loads into a general register.
abbrev pub IsLiteral : InstType → Type 0
IsLiteral it = (it ≡ inst_ldr_32) ⊎ (it ≡ inst_ldr_64) ⊎ (it ≡ inst_ldrsw_lit)

ldr_words-IsLiteral :
    (rt addr : ℕ) (it : InstType)
    → IsLiteral it
    → ldr_words rt addr it ≡ literal_words rt addr (load_kind it * 2 ^ 10)
unfolding ldr_words
ldr_words-IsLiteral rt addr it (inl e) = rw e
ldr_words-IsLiteral rt addr it (inr (inl e)) = rw e
ldr_words-IsLiteral rt addr it (inr (inr e)) = rw e

relo_in_tramp-out : (h : Hook) (addr : ℕ) → is_in_tramp h addr ≡ false → relo_in_tramp h addr ≡ addr
unfolding relo_in_tramp
relo_in_tramp-out h addr e = ground arith

relo_ldr-out :
    (h : Hook) (inst_addr inst : ℕ) (it : InstType)
    → is_in_tramp h (target19 inst_addr inst) ≡ false
    → relo_ldr h inst_addr inst it ≡ (no_err, ldr_words (inst % 2 ^ 5) (target19 inst_addr inst) it)
unfolding relo_ldr ldr_target
relo_ldr-out h inst_addr inst it out =
    rw (imm19_lem, bits32_reg) (rw (out, relo_in_tramp-out h (target19 inst_addr inst) out))

module _ (holds : ℕ → Bool) (mem : ℕ → ℕ → ℕ) (base : ℕ) (h : Hook) (inst_addr inst : ℕ)
    (regs : Regs) where
  -- A relocated ADR puts the address that the original computes into its register.
  relocated_adr :
      run holds mem base (relo_adr h inst_addr inst inst_adr).1 8 0 regs
      ≡ fell (write regs (inst % 2 ^ 5) (adr_address inst_addr inst))
  unfolding relo_adr
  relocated_adr =
      rw (bits32_reg, adr_target_lem)
        (run-load_address holds mem base regs _ (inst % 2 ^ 5) (adr_address inst_addr inst)
          (decode-load_address (inst % 2 ^ 5) (omega arith)))

  -- So does an ADRP, unless the page lies in the trampoline: then it is refused.
  relocated_adrp :
      ((is_in_tramp h (adrp_address inst_addr inst) ≡ true)
        × (relo_adr h inst_addr inst inst_adrp ≡ (bad_relo, [])))
      ⊎ ((is_in_tramp h (adrp_address inst_addr inst) ≡ false)
          × (run holds mem base (relo_adr h inst_addr inst inst_adrp).1 8 0 regs
              ≡ fell (write regs (inst % 2 ^ 5) (adrp_address inst_addr inst))))
  unfolding relo_adr
  relocated_adrp =
      rw (bits32_reg, adrp_target_lem)
        (elim (Bool-cases (is_in_tramp h (adrp_address inst_addr inst))) [
          | inl e ↦ inl (e, rw e refl)
          | inr e ↦ inr (
            e,
            rw e (
                run-load_address holds mem base regs (bit_or 0x58000040 (inst % 2 ^ 5))
                  (inst % 2 ^ 5) (adrp_address inst_addr inst)
                  (decode-load_address (inst % 2 ^ 5) (omega arith))),
          )
        ])

  -- The words that `relo_adr` writes for an ADR put the address that the original computes into the
  -- register that the original names, and change no other register. An ADRP whose page lies in the
  -- trampoline is refused with HOOK_BAD_RELO and no words; for any other the words do as for an ADR.
  pub relocated_adr_computes :
      (run holds mem base (relo_adr h inst_addr inst inst_adr).1 8 0 regs
        ≡ fell (write regs (inst % 2 ^ 5) (adr_address inst_addr inst)))
      × (((is_in_tramp h (adrp_address inst_addr inst) ≡ true)
            × (relo_adr h inst_addr inst inst_adrp ≡ (bad_relo, [])))
          ⊎ ((is_in_tramp h (adrp_address inst_addr inst) ≡ false)
              × (run holds mem base (relo_adr h inst_addr inst inst_adrp).1 8 0 regs
                  ≡ fell (write regs (inst % 2 ^ 5) (adrp_address inst_addr inst)))))
  relocated_adr_computes = (relocated_adr, relocated_adrp)

  -- For an LDR or LDRSW of a literal at an instruction address that is a multiple of 4, with the
  -- literal outside of the trampoline, the words that `relo_ldr` writes do not read the literal: they
  -- load from `misread` of its address, a NOP and the low half, which is never the literal's address.
  pub relocated_ldr_misreads :
      (it : InstType)
      → IsLiteral it
      → inst_addr % 4 ≡ 0
      → is_in_tramp h (target19 inst_addr inst) ≡ false
      → let target = target19 inst_addr inst in
        let rt = inst % 2 ^ 5 in
        (run holds mem base (relo_ldr h inst_addr inst it).1 8 0 regs
          ≡ fell (write (write regs rt (misread target)) rt (mem (load_kind it) (misread target))))
        × (misread target ≢ target)
  unfolding literal_words
  relocated_ldr_misreads it kinds aligned out = (
    rw
        (
          relo_ldr-out h inst_addr inst it out,
          ldr_words-IsLiteral (inst % 2 ^ 5) (target19 inst_addr inst) it kinds,
        )
        (run-literal holds mem base regs _ _ (inst % 2 ^ 5) (load_kind it) (target19 inst_addr inst)
          (decode-load_literal (inst % 2 ^ 5) (omega arith))
          (decode-load it (inst % 2 ^ 5) (omega arith))),
    misread-ne inst_addr inst aligned,
  )

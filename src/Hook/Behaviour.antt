-- ===== src/Hook/Behaviour.antt =====
-- What the relocated words do on the machine of Arm.antt, against the instruction that they stand for.
use kpm_syscall_backtrace.Base.{
  ℕ, ◌+◌, ◌*◌, ◌%◌, ◌^◌, ◌<◌, ◌≡◌, refl, ◌∙◌, ap, arith, Bool, if◌then◌else◌, ◌⊎◌, inl, inr,
  Bool-cases, get_elem?, some, List, [], ◌∷◌,
}
use kpm_syscall_backtrace.Arm.{
  Regs, write, Outcome, fell, jumped, goes, exec, step, run, run_goes, decode, branch_if, test19,
  test14,
}
use kpm_syscall_backtrace.Hook.Types.{Hook, lo32, hi32, arm64_nop}
use kpm_syscall_backtrace.Hook.Insn.{
  inst_b, inst_bc, inst_bl, inst_cbz, inst_cbnz, inst_tbz, inst_tbnz,
}
use kpm_syscall_backtrace.Hook.Emit.{relo_b, relo_cb, relo_tb, relo_in_tramp}
use kpm_syscall_backtrace.Hook.Words.{type_of}
use kpm_syscall_backtrace.Hook.Near.{
  near19, near14, decode-near19_bc, decode-near19, decode-near14, halves, target26, target19,
  target14, imm26_lem, imm19_lem, imm14_lem,
}

-- A jump through X17, and a branch that jumps or falls through.
abbrev pub through_x17 : Regs → ℕ → Outcome
through_x17 regs addr = jumped addr (write regs 17 addr)

abbrev pub jumped_if : Bool → Regs → ℕ → Outcome
jumped_if test regs addr = if test then through_x17 regs addr else fell regs

module _ (holds : ℕ → Bool) (mem : ℕ → ℕ → ℕ) (base w t lo hi : ℕ) (regs : Regs) where
  -- The two layouts of a conditional branch, whatever the branch tests.
  abbrev long_layout : List ℕ
  long_layout = w ∷ 0x14000006 ∷ 0x58000051 ∷ 0x14000003 ∷ lo ∷ hi ∷ 0xD65F0220 ∷ arm64_nop ∷ []

  abbrev short_layout : ℕ → List ℕ
  short_layout exit = w ∷ 0x14000005 ∷ 0x58000051 ∷ exit ∷ lo ∷ hi ∷ []

  first_step :
      (code : List ℕ)
      → get_elem? code 0 ≡ some w
      → decode w ≡ branch_if t 2
      → step holds mem base code 0 regs ≡ (if holds t then goes 2 regs else goes 1 regs)
  unfolding step exec
  first_step code e d = rw (e, step) (rw (d, exec) refl)

  run_conditional :
      (code : List ℕ) (addr : ℕ)
      → get_elem? code 0 ≡ some w
      → decode w ≡ branch_if t 2
      → run holds mem base code 7 2 regs ≡ through_x17 regs addr
      → run holds mem base code 7 1 regs ≡ fell regs
      → run holds mem base code 8 0 regs ≡ jumped_if (holds t) regs addr
  run_conditional code addr at d taken passed = elim (Bool-cases (holds t)) [
    | inl e ↦
        rw e (run_goes holds mem base code 7 0 2 regs regs (first_step code at d ∙ if_eq e) ∙ taken)
    | inr e ↦
        rw e
          (run_goes holds mem base code 7 0 1 regs regs (first_step code at d ∙ if_eq e) ∙ passed)
  ]
    where
      if_eq :
          {b : Bool}
          → holds t ≡ b
          → (if holds t then goes 2 regs else goes 1 regs)
            ≡ (if b then goes 2 regs else goes 1 regs)
      if_eq e = ap (λ b. if b then goes 2 regs else goes 1 regs) e

  run-long_layout :
      decode w ≡ branch_if t 2
      → run holds mem base long_layout 8 0 regs ≡ jumped_if (holds t) regs (lo + hi * 2 ^ 32)
  unfolding run step exec decode
  run-long_layout d = run_conditional long_layout (lo + hi * 2 ^ 32) refl d refl refl

  run-ret_layout :
      decode w ≡ branch_if t 2
      → run holds mem base (short_layout 0xD65F0220) 8 0 regs
        ≡ jumped_if (holds t) regs (lo + hi * 2 ^ 32)
  unfolding run step exec decode
  run-ret_layout d = run_conditional (short_layout 0xD65F0220) (lo + hi * 2 ^ 32) refl d refl refl

  run-br_layout :
      decode w ≡ branch_if t 2
      → run holds mem base (short_layout 0xd61f0220) 8 0 regs
        ≡ jumped_if (holds t) regs (lo + hi * 2 ^ 32)
  unfolding run step exec decode
  run-br_layout d = run_conditional (short_layout 0xd61f0220) (lo + hi * 2 ^ 32) refl d refl refl

module _ (holds : ℕ → Bool) (mem : ℕ → ℕ → ℕ) (base : ℕ) (h : Hook) (inst_addr inst : ℕ)
    (regs : Regs) where
  -- The words that `relo_b` writes for a B, run on the A64 machine, jump to where `relo_in_tramp`
  -- sends the target of the original, and change no register but X17.
  pub relocated_b_jumps :
      run holds mem base (relo_b h inst_addr inst inst_b).1 8 0 regs
      ≡ through_x17 regs (relo_in_tramp h (target26 inst_addr inst))
  unfolding run step exec decode relo_b
  relocated_b_jumps =
      ground (arith, imm26_lem inst, halves (relo_in_tramp h (target26 inst_addr inst)))

  -- The words that `relo_b` writes for a BL, run on the A64 machine, jump to where `relo_in_tramp`
  -- sends the target of the original and change no register but X17 and X30; X30 is left at their
  -- last word, and a run from that word falls through behind the words and changes no register.
  pub relocated_bl_calls :
      let target = relo_in_tramp h (target26 inst_addr inst) in
      let words = (relo_b h inst_addr inst inst_bl).1 in
      let back = (base + 28) % 2 ^ 64 in
      (run holds mem base words 8 0 regs
        ≡ jumped target (write (write (write regs 17 target) 30 ((base + 16) % 2 ^ 64)) 30 back))
      × (run holds mem base words 8 7 regs ≡ fell regs)
  unfolding run step exec decode relo_b
  relocated_bl_calls =
      ground (arith, imm26_lem inst, halves (relo_in_tramp h (target26 inst_addr inst)))

  -- The words that `relo_b` writes for a 32-bit word that the table takes for a B.cond test what the
  -- original tests. If the test holds they jump to where `relo_in_tramp` sends the target of the
  -- original and change no register but X17; else they fall through and change no register.
  pub relocated_bc_branches :
      inst < 2 ^ 32
      → type_of inst ≡ inst_bc
      → run holds mem base (relo_b h inst_addr inst inst_bc).1 8 0 regs
        ≡ jumped_if (holds (test19 inst)) regs (relo_in_tramp h (target19 inst_addr inst))
  unfolding relo_b
  relocated_bc_branches small e =
      let target = relo_in_tramp h (target19 inst_addr inst) in
      rw imm19_lem (
        run-long_layout holds mem base (near19 inst) (test19 inst) (lo32 target) (hi32 target) regs
          (decode-near19_bc inst small e)
        ∙ ap (jumped_if (holds (test19 inst)) regs) (halves target))

  -- The words that `relo_cb` writes for a 32-bit word that the table takes for a CBZ or a CBNZ test
  -- what the original tests. If the test holds they jump to where `relo_in_tramp` sends the target of
  -- the original and change no register but X17; else they fall through and change no register.
  pub relocated_cb_branches :
      inst < 2 ^ 32
      → (type_of inst ≡ inst_cbz) ⊎ (type_of inst ≡ inst_cbnz)
      → run holds mem base (relo_cb h inst_addr inst (type_of inst)).1 8 0 regs
        ≡ jumped_if (holds (test19 inst)) regs (relo_in_tramp h (target19 inst_addr inst))
  unfolding relo_cb
  relocated_cb_branches small e =
      let target = relo_in_tramp h (target19 inst_addr inst) in
      rw imm19_lem (
        run-ret_layout holds mem base (near19 inst) (test19 inst) (lo32 target) (hi32 target) regs
          (decode-near19 inst small e)
        ∙ ap (jumped_if (holds (test19 inst)) regs) (halves target))

  -- The words that `relo_tb` writes for a 32-bit word that the table takes for a TBZ or a TBNZ test
  -- what the original tests. If the test holds they jump to where `relo_in_tramp` sends the target of
  -- the original and change no register but X17; else they fall through and change no register.
  pub relocated_tb_branches :
      inst < 2 ^ 32
      → (type_of inst ≡ inst_tbz) ⊎ (type_of inst ≡ inst_tbnz)
      → run holds mem base (relo_tb h inst_addr inst (type_of inst)).1 8 0 regs
        ≡ jumped_if (holds (test14 inst)) regs (relo_in_tramp h (target14 inst_addr inst))
  unfolding relo_tb
  relocated_tb_branches small e =
      let target = relo_in_tramp h (target14 inst_addr inst) in
      rw imm14_lem (
        run-br_layout holds mem base (near14 inst) (test14 inst) (lo32 target) (hi32 target) regs
          (decode-near14 inst small e)
        ∙ ap (jumped_if (holds (test14 inst)) regs) (halves target))

-- ===== src/Hook/Tests.antt =====
-- Runs of the relocation on concrete functions, and the theorems of the Hook modules at them.
use kpm_syscall_backtrace.Base.{
  ℕ, ◌+◌, ◌*◌, ◌/◌, ◌-◌, ◌≡◌, ◌≢◌, refl, arith, true, false, ◌⊎◌, inl, some, List, [], ◌∷◌,
  replicate, get_or, ◌==◌,
}
use kpm_syscall_backtrace.Arm.{Regs, write, fell, jumped, run}
use kpm_syscall_backtrace.Hook.Types.{
  Hook, HookErr, no_err, bad_relo, add64, arm64_nop, arm64_paciasp, is_bad_address,
}
use kpm_syscall_backtrace.Hook.Insn.{
  inst_b, inst_bc, inst_bl, inst_adr, inst_adrp, patterns, match_pattern, match_len,
}
use kpm_syscall_backtrace.Hook.Emit.{
  relo_b, relo_adr, relo_cb, relo_in_tramp, is_in_tramp, skip_insts,
}
use kpm_syscall_backtrace.Hook.Relocate.{read_words, relocate_from, hook_prepare}
use kpm_syscall_backtrace.Hook.Words.{type_of}
use kpm_syscall_backtrace.Hook.Prepare.{IsFresh, Prepared, hook_prepare_in_bounds}
use kpm_syscall_backtrace.Hook.Success.{GoodAddresses, hook_prepare_succeeds}
use kpm_syscall_backtrace.Hook.Places.{IsPlaced, relo_in_tramp-copy}
use kpm_syscall_backtrace.Hook.Behaviour.{
  relocated_b_jumps, relocated_bl_calls, relocated_bc_branches, relocated_cb_branches, through_x17,
}
use kpm_syscall_backtrace.Hook.Near.{target26, target19}
use kpm_syscall_backtrace.Hook.Loads.{relocated_adr_computes, adr_address, adrp_address}

abbrev origin : ℕ
origin = 0xffffff8000080000

-- A hook as `hook_mem_zalloc` clears it, with its addresses filled in.
abbrev fresh_hook : Hook
fresh_hook = record {
  func_addr = origin;
  origin_addr = origin;
  replace_addr = 0xffffff8000090000;
  relo_addr = 0xffffff80000a0058;
  tramp_insts_num = 0;
  relo_insts_num = 0;
  origin_insts = replicate 6 0;
  tramp_insts = replicate 6 0;
  relo_insts = replicate 36 0;
}

abbrev function_of : List ℕ → ℕ → ℕ
function_of words addr = get_or words ((addr - origin) / 4) arm64_nop

-- A short function: STP, MOV, B.EQ, CBZ, RET.
abbrev plain : ℕ → ℕ
plain = function_of (0xa9bf7bfd ∷ 0x910003fd ∷ 0x54000080 ∷ 0x34000060 ∷ 0xd65f03c0 ∷ [])

-- PACIASP and four calls.
abbrev signed : ℕ → ℕ
signed =
    function_of
      (arm64_paciasp ∷ 0x94000010 ∷ 0x94000020 ∷ 0x94000030 ∷ 0x94000040 ∷ 0xd65f03c0 ∷ [])

fresh : IsFresh fresh_hook
fresh = record { tramp_room = refl; empty = refl }

good : GoodAddresses fresh_hook
unfolding is_bad_address
good = record { func = refl; origin = refl; replace = refl; relo = refl }

hook_prepare_in_bounds_example :
    (r : HookErr × Hook) × (hook_prepare plain fresh_hook ≡ some r)
    × ((r.0 ≢ no_err) ⊎ Prepared plain fresh_hook r.1)
hook_prepare_in_bounds_example = hook_prepare_in_bounds plain fresh_hook fresh refl

hook_prepare_succeeds_example :
    (h' : Hook) × (hook_prepare plain fresh_hook ≡ some (no_err, h')) × Prepared plain fresh_hook h'
unfolding match_pattern patterns read_words
hook_prepare_succeeds_example =
    hook_prepare_succeeds plain fresh_hook fresh good (omega arith)
      (refl, (refl, (refl, (refl, tt))))

-- The hook when its loop begins, and after the two instructions that it copies as they are.
abbrev backed : Hook
backed = record fresh_hook {
  origin_insts = 0xa9bf7bfd ∷ 0x910003fd ∷ 0x54000080 ∷ 0x34000060 ∷ 0xd65f03c0 ∷ arm64_nop ∷ [];
  tramp_insts_num = 4;
}

abbrev copied : Hook
copied = record backed {
  relo_insts = 0xa9bf7bfd ∷ arm64_nop ∷ 0x910003fd ∷ arm64_nop ∷ replicate 32 0;
  relo_insts_num = 4;
}

placed : IsPlaced backed
placed = omega arith

copies_two : relocate_from 2 0 backed ≡ some (no_err, copied)
unfolding relocate_from
copies_two = refl

relo_in_tramp-copy_example : relo_in_tramp backed (origin + 2 * 4) ≡ add64 backed.relo_addr (4 * 4)
unfolding match_pattern patterns
relo_in_tramp-copy_example =
    relo_in_tramp-copy backed copied 2 placed refl (omega arith) (omega arith) copies_two

abbrev no_memory : ℕ → ℕ → ℕ
no_memory kind addr = 0

abbrev zeros : Regs
zeros r = 0

-- A branch to the third instruction of the trampoline goes to its relocated copy.
relocated_b_jumps_example :
    run (λ t. true) no_memory 0 (relo_b backed origin 0x14000002 inst_b).1 8 0 zeros
    ≡ through_x17 zeros (relo_in_tramp backed (target26 origin 0x14000002))
relocated_b_jumps_example = relocated_b_jumps (λ t. true) no_memory 0 backed origin 0x14000002 zeros

jumps_to_copy : relo_in_tramp backed (target26 origin 0x14000002) ≡ backed.relo_addr + 16
unfolding relo_in_tramp is_in_tramp skip_insts match_len patterns
jumps_to_copy = refl

abbrev bl_words : List ℕ
bl_words = (relo_b backed origin 0x94000010 inst_bl).1

abbrev bl_target : ℕ
bl_target = relo_in_tramp backed (target26 origin 0x94000010)

relocated_bl_calls_example :
    (run (λ t. true) no_memory 64 bl_words 8 0 zeros
      ≡ jumped bl_target (write (write (write zeros 17 bl_target) 30 80) 30 92))
    × (run (λ t. true) no_memory 64 bl_words 8 7 zeros ≡ fell zeros)
relocated_bl_calls_example =
    relocated_bl_calls (λ t. true) no_memory 64 backed origin 0x94000010 zeros

relocated_bc_branches_example :
    run (λ t. t == 0x54000000) no_memory 0 (relo_b backed origin 0x54000080 inst_bc).1 8 0 zeros
    ≡ through_x17 zeros (relo_in_tramp backed (target19 origin 0x54000080))
unfolding match_pattern patterns
relocated_bc_branches_example =
    relocated_bc_branches (λ t. t == 0x54000000) no_memory 0 backed origin 0x54000080 zeros
      (omega arith) refl

relocated_cb_branches_example :
    run (λ t. false) no_memory 0 (relo_cb backed origin 0x34000060 (type_of 0x34000060)).1 8 0 zeros
    ≡ fell zeros
unfolding match_pattern patterns
relocated_cb_branches_example =
    relocated_cb_branches (λ t. false) no_memory 0 backed origin 0x34000060 zeros (omega arith)
      (inl refl)

relocated_adr_computes_example :
    (run (λ t. true) no_memory 0 (relo_adr backed origin 0xB0000003 inst_adr).1 8 0 zeros
      ≡ fell (write zeros 3 (adr_address origin 0xB0000003)))
    × (((is_in_tramp backed (adrp_address origin 0xB0000003) ≡ true)
          × (relo_adr backed origin 0xB0000003 inst_adrp ≡ (bad_relo, [])))
        ⊎ ((is_in_tramp backed (adrp_address origin 0xB0000003) ≡ false)
            × (run (λ t. true) no_memory 0 (relo_adr backed origin 0xB0000003 inst_adrp).1 8 0 zeros
                ≡ fell (write zeros 3 (adrp_address origin 0xB0000003)))))
relocated_adr_computes_example =
    relocated_adr_computes (λ t. true) no_memory 0 backed origin 0xB0000003 zeros

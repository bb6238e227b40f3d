-- ===== src/Hook/Relocate.antt =====
-- kernel/base/hook.c, relocate_inst and hook_prepare.
use kpm_syscall_backtrace.Base.{
  ℕ, zero, suc, ◌+◌, ◌*◌, ltb, ◌==◌, if◌then◌else◌, ◌||◌, Option, none, some, List, [], ◌∷◌, length,
  get_or, set, replicate,
}
use kpm_syscall_backtrace.Hook.Types.{
  Hook, HookErr, no_err, bad_address, bad_relo, add64, arm64_nop, arm64_bti_jc, arm64_paciasp,
  arm64_pacibsp, relocate_inst_num, trampoline_max_num, is_bad_address,
}
use kpm_syscall_backtrace.Hook.Insn.{
  InstType, inst_b, inst_bc, inst_bl, inst_adr, inst_adrp, inst_ldr_32, inst_ldr_64, inst_ldrsw_lit,
  inst_prfm_lit, inst_ldr_simd_32, inst_ldr_simd_64, inst_ldr_simd_128, inst_cbz, inst_cbnz,
  inst_tbz, inst_tbnz, inst_ignore, patterns, match_pattern,
}
use kpm_syscall_backtrace.Hook.Emit.{
  relo_b, relo_adr, relo_ldr, ldr_words, load_literal, load_simd, relo_cb, relo_tb, relo_ignore,
  branch_from_to,
}

-- Writes into an array; `none` is a write past its end, which the code does not check.
unfoldable pub write_words : List ℕ → ℕ → List ℕ → Option (List ℕ)
write_words buf i [] = some buf
write_words buf i (w ∷ ws) =
    let rest = write_words (set buf i w) (suc i) ws in if ltb i (length buf) then rest else none

-- The switch of `relocate_inst`.
unfoldable pub dispatch : Hook → ℕ → ℕ → InstType → HookErr × List ℕ
unfolding relo_b relo_adr relo_ldr ldr_words load_literal load_simd relo_cb relo_tb relo_ignore
dispatch h inst_addr inst inst_b = relo_b h inst_addr inst inst_b
dispatch h inst_addr inst inst_bc = relo_b h inst_addr inst inst_bc
dispatch h inst_addr inst inst_bl = relo_b h inst_addr inst inst_bl
dispatch h inst_addr inst inst_adr = relo_adr h inst_addr inst inst_adr
dispatch h inst_addr inst inst_adrp = relo_adr h inst_addr inst inst_adrp
dispatch h inst_addr inst inst_ldr_32 = relo_ldr h inst_addr inst inst_ldr_32
dispatch h inst_addr inst inst_ldr_64 = relo_ldr h inst_addr inst inst_ldr_64
dispatch h inst_addr inst inst_ldrsw_lit = relo_ldr h inst_addr inst inst_ldrsw_lit
dispatch h inst_addr inst inst_prfm_lit = relo_ldr h inst_addr inst inst_prfm_lit
dispatch h inst_addr inst inst_ldr_simd_32 = relo_ldr h inst_addr inst inst_ldr_simd_32
dispatch h inst_addr inst inst_ldr_simd_64 = relo_ldr h inst_addr inst inst_ldr_simd_64
dispatch h inst_addr inst inst_ldr_simd_128 = relo_ldr h inst_addr inst inst_ldr_simd_128
dispatch h inst_addr inst inst_cbz = relo_cb h inst_addr inst inst_cbz
dispatch h inst_addr inst inst_cbnz = relo_cb h inst_addr inst inst_cbnz
dispatch h inst_addr inst inst_tbz = relo_tb h inst_addr inst inst_tbz
dispatch h inst_addr inst inst_tbnz = relo_tb h inst_addr inst inst_tbnz
dispatch h inst_addr inst inst_ignore = relo_ignore h inst_addr inst inst_ignore

-- The hook with its words written, if they fit.
unfoldable pub put_words : Hook → List ℕ → ℕ → HookErr → Option (HookErr × Hook)
unfolding write_words
put_words h words len rc = elim (write_words h.relo_insts h.relo_insts_num words) [
  | none ↦ none
  | some buf ↦ some (rc, record h { relo_insts = buf; relo_insts_num = h.relo_insts_num + len })
]

unfoldable pub relocate_inst : Hook → ℕ → ℕ → Option (HookErr × Hook)
unfolding match_pattern patterns dispatch put_words
relocate_inst h inst_addr inst =
    let (it, len) = match_pattern patterns inst in
    let (rc, words) = dispatch h inst_addr inst it in put_words h words len rc

-- The code goes on if the relocation succeeded, and returns HOOK_BAD_RELO if not.
abbrev pub on_success :
    Option (HookErr × Hook) → (Hook → Option (HookErr × Hook)) → Option (HookErr × Hook)
on_success none k = none
on_success (some (no_err, h)) k = k h
on_success (some (_, h)) k = some (bad_relo, h)

-- The loop of `hook_prepare` from instruction `i`, for the `n` that are left.
unfoldable pub relocate_from : ℕ → ℕ → Hook → Option (HookErr × Hook)
unfolding relocate_inst
relocate_from zero i h = some (no_err, h)
relocate_from (suc n) i h =
    on_success (relocate_inst h (add64 h.origin_addr (i * 4)) (get_or h.origin_insts i 0))
      (relocate_from n (suc i))

-- The words at an address, as `*((uint32_t *)addr + i)` reads them.
unfoldable pub read_words : (ℕ → ℕ) → ℕ → ℕ → List ℕ
read_words text addr zero = []
read_words text addr (suc n) = text addr ∷ read_words text (add64 addr 4) n

-- The trampoline, behind a landing pad where the function begins with one.
unfoldable pub tramp_words : Hook → List ℕ → List ℕ
unfolding branch_from_to
tramp_words h origin_insts =
    let first = get_or origin_insts 0 0 in
    let jump = branch_from_to h.origin_addr h.replace_addr in
    if first == arm64_paciasp || first == arm64_pacibsp then arm64_bti_jc ∷ jump else jump

-- The back-up of the first instructions, the trampoline and the cleared buffer. The words of
-- `tramp_insts` past the trampoline keep what they held.
unfoldable pub set_up : (ℕ → ℕ) → Hook → Option Hook
unfolding read_words tramp_words write_words
set_up text h =
    let origin_insts = read_words text h.origin_addr trampoline_max_num in
    let tramp = tramp_words h origin_insts in
    elim (write_words h.tramp_insts 0 tramp) [
      | none ↦ none
      | some tramp_insts ↦ some (record h {
        origin_insts = origin_insts;
        tramp_insts = tramp_insts;
        tramp_insts_num = length tramp;
        relo_insts = replicate relocate_inst_num arm64_nop;
      })
    ]

-- The jump back behind the relocated instructions.
unfoldable pub jump_back : Hook → Option (HookErr × Hook)
unfolding put_words branch_from_to
jump_back h =
    let back_src_addr = add64 h.relo_addr (h.relo_insts_num * 4) in
    let back_dst_addr = add64 h.origin_addr (h.tramp_insts_num * 4) in
    let words = branch_from_to back_src_addr back_dst_addr in
    put_words h words (length words) no_err

-- What follows the back-up: the relocation, and the jump back if it succeeds.
unfoldable pub relocate_all : Hook → Option (HookErr × Hook)
unfolding relocate_from jump_back
relocate_all h = on_success (relocate_from h.tramp_insts_num 0 h) jump_back

-- `none` is a write past the end of an array.
unfoldable pub hook_prepare : (ℕ → ℕ) → Hook → Option (HookErr × Hook)
hook_prepare text h =
    if is_bad_address h.func_addr
      || is_bad_address h.origin_addr
      || is_bad_address h.replace_addr
      || is_bad_address h.relo_addr
    then some (bad_address, h)
    else (elim (set_up text h) [ none ↦ none | some h' ↦ relocate_all h' ])

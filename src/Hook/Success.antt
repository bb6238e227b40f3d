-- ===== src/Hook/Success.antt =====
-- `hook_prepare` on instructions that are never refused: when it succeeds, and when it writes past
-- the end of `relo_insts`.
use kpm_syscall_backtrace.Base.{
  ℕ, zero, suc, ◌+◌, ◌*◌, ◌≤◌, ◌<◌, ◌≡◌, refl, ◌∙◌, arith, Bool, true, false, none, some, List,
  length, get_or,
}
use kpm_syscall_backtrace.Hook.Types.{
  Hook, no_err, add64, relocate_inst_num, trampoline_max_num, is_bad_address,
}
use kpm_syscall_backtrace.Hook.Insn.{
  InstType, inst_adrp, inst_ldr_32, inst_ldr_64, inst_ldrsw_lit, inst_prfm_lit, inst_ldr_simd_32,
  inst_ldr_simd_64, inst_ldr_simd_128,
}
use kpm_syscall_backtrace.Hook.Emit.{branch_from_to}
use kpm_syscall_backtrace.Hook.Relocate.{
  dispatch, read_words, jump_back, on_success, relocate_from, relocate_all, hook_prepare,
  tramp_words,
}
use kpm_syscall_backtrace.Hook.Table.{len_of}
use kpm_syscall_backtrace.Hook.Words.{type_of, relocated, relocate_inst-fits}
use kpm_syscall_backtrace.Hook.Writes.{extended, length-written, write_words-overflow}
use kpm_syscall_backtrace.Hook.Bounds.{
  Frame-trans, total_len, Relocates, Frame, Relocates-suc, Relocates-zero, relocate_from_step,
}
use kpm_syscall_backtrace.Hook.Prepare.{
  tramp_num, backed_up, IsFresh, Prepared, relocated_total, set_up_lem, backed_up-num,
  jump_back_lem, Done-Prepared,
}

-- The types that no relocation refuses: neither ADRP nor a literal load.
abbrev pub never_refused : InstType → Bool
never_refused inst_adrp = false
never_refused inst_ldr_32 = false
never_refused inst_ldr_64 = false
never_refused inst_ldrsw_lit = false
never_refused inst_prfm_lit = false
never_refused inst_ldr_simd_32 = false
never_refused inst_ldr_simd_64 = false
never_refused inst_ldr_simd_128 = false
never_refused _ = true

dispatch-no_err :
    (h : Hook) (inst_addr inst : ℕ) (it : InstType)
    → never_refused it ≡ true
    → (dispatch h inst_addr inst it).0 ≡ no_err
unfolding dispatch
dispatch-no_err h inst_addr inst inst_adrp e = cc
dispatch-no_err h inst_addr inst inst_ldr_32 e = cc
dispatch-no_err h inst_addr inst inst_ldr_64 e = cc
dispatch-no_err h inst_addr inst inst_ldrsw_lit e = cc
dispatch-no_err h inst_addr inst inst_prfm_lit e = cc
dispatch-no_err h inst_addr inst inst_ldr_simd_32 e = cc
dispatch-no_err h inst_addr inst inst_ldr_simd_64 e = cc
dispatch-no_err h inst_addr inst inst_ldr_simd_128 e = cc
dispatch-no_err h inst_addr inst _ e = refl

abbrev pub NeverRefused : List ℕ → ℕ → ℕ → Type 0
NeverRefused insts i zero = Unit {0}
NeverRefused insts i (suc n) =
    (never_refused (type_of (get_or insts i 0)) ≡ true) × NeverRefused insts (suc i) n

pub relocate_from-succeeds :
    (n i : ℕ) (h : Hook)
    → h.relo_insts_num + total_len h.origin_insts i n ≤ length h.relo_insts
    → NeverRefused h.origin_insts i n
    → (h' : Hook) × (relocate_from n i h ≡ some (no_err, h')) × Relocates h i n (no_err, h')
unfolding relocate_from
relocate_from-succeeds zero i h fits k = (h, refl, Relocates-zero i h)
relocate_from-succeeds (suc n) i h fits k =
    let inst = get_or h.origin_insts i 0 in
    let addr = add64 h.origin_addr (i * 4) in
    let words = (relocated h addr inst).1 in
    let h₁ = extended h words (len_of (type_of inst)) in
    let (h', e, s) =
      relocate_from-succeeds n (suc i) h₁
        (omega (arith, length-written h.relo_insts h.relo_insts_num words)) k.1 in
    (
      h',
      rw
          (
            relocate_from_step,
            relocate_inst-fits h addr inst (omega arith),
            dispatch-no_err h addr inst (type_of inst) k.0,
          )
          e,
      Relocates-suc n i h words (no_err, h') s,
    )

-- None of the four addresses is refused.
pub record GoodAddresses (h : Hook) : Type 0 where
  pub func : is_bad_address h.func_addr ≡ false
  pub origin : is_bad_address h.origin_addr ≡ false
  pub replace : is_bad_address h.replace_addr ≡ false
  pub relo : is_bad_address h.relo_addr ≡ false

hook_prepare-good :
    (text : ℕ → ℕ) (h : Hook)
    → length h.tramp_insts ≡ trampoline_max_num
    → GoodAddresses h
    → hook_prepare text h ≡ relocate_all (backed_up text h)
unfolding hook_prepare
hook_prepare-good text h room g = ground (arith, set_up_lem text h room)

relocate_all_step :
    (h : Hook) → relocate_all h ≡ on_success (relocate_from h.tramp_insts_num 0 h) jump_back
unfolding relocate_all
relocate_all_step h = refl

jump_back-overflow :
    (h : Hook)
    → h.relo_insts_num ≤ length h.relo_insts
    → length h.relo_insts < h.relo_insts_num + 4
    → jump_back h ≡ none
unfolding jump_back
jump_back-overflow h inside over = ground (
  arith,
  write_words-overflow h.relo_insts h.relo_insts_num (
      branch_from_to (add64 h.relo_addr (h.relo_insts_num * 4))
        (add64 h.origin_addr (h.tramp_insts_num * 4))),
)

module _ (text : ℕ → ℕ) (h : Hook) (fresh : IsFresh h) (good : GoodAddresses h) where
  abbrev insts : List ℕ
  insts = read_words text h.origin_addr trampoline_max_num

  abbrev num : ℕ
  num = length (tramp_words h insts)

  relocated_start :
      relocated_total text h ≤ relocate_inst_num
      → NeverRefused insts 0 (tramp_num (text h.origin_addr))
      → (h' : Hook) × (hook_prepare text h ≡ jump_back h')
        × Frame (backed_up text h) h'
        × (h'.relo_insts_num ≡ relocated_total text h)
  relocated_start fits k =
      let room : total_len insts 0 num ≤ relocate_inst_num = rw (backed_up-num text h) fits in
      let (h', e, s) =
        relocate_from-succeeds num 0 (backed_up text h) (omega (arith, room))
          (rw (backed_up-num text h) k) in
      let total : total_len insts 0 num ≡ relocated_total text h = rw (backed_up-num text h) in
      (
        h',
        rw (hook_prepare-good text h fresh.tramp_room good, relocate_all_step, e),
        s.0,
        omega (arith, s.2 refl, total, fresh.empty),
      )

  -- On a fresh hook with good addresses, with no ADRP, literal load or PRFM among the
  -- instructions that the trampoline overwrites, and with room for the relocated words and the jump
  -- back in `relo_insts`, `hook_prepare` returns no error and the hook is `Prepared`.
  pub hook_prepare_succeeds :
      relocated_total text h + 4 ≤ relocate_inst_num
      → NeverRefused insts 0 (tramp_num (text h.origin_addr))
      → (h' : Hook) × (hook_prepare text h ≡ some (no_err, h')) × Prepared text h h'
  hook_prepare_succeeds fits k =
      let (h₁, e, f, n) = relocated_start (omega arith) k in
      let (h₂, e', f', n') = jump_back_lem h₁ (omega (arith, n, f.room)) in
      let total : total_len insts 0 num ≡ relocated_total text h = rw (backed_up-num text h) in
      (
        h₂,
        e ∙ e',
        Done-Prepared text h (no_err, h₂) fresh
            (λ _. (Frame-trans f f', omega (arith, n, n', total, fresh.empty))) refl,
      )

  -- On a fresh hook with good addresses, with no ADRP, literal load or PRFM among the
  -- instructions that the trampoline overwrites, if the relocated words fit `relo_insts` and the jump
  -- back behind them does not, `hook_prepare` writes past the end of the array.
  pub hook_prepare_overflows :
      relocated_total text h ≤ relocate_inst_num
      → relocate_inst_num < relocated_total text h + 4
      → NeverRefused insts 0 (tramp_num (text h.origin_addr))
      → hook_prepare text h ≡ none
  hook_prepare_overflows fits over k =
      let (h₁, e, f, n) = relocated_start fits k in
      e ∙ jump_back-overflow h₁ (omega (arith, n, f.room)) (omega (arith, n, f.room))

-- ===== src/Inline/Unhook.antt =====
-- unhook of kernel/base/hook.c after hook: the kernel's code is as it was.
use kpm_syscall_backtrace.Base.{
  ℕ, ◌*◌, ◌^◌, ◌<◌, ◌≡◌, refl, sym, ◌∙◌, ap, arith, false, inl, inr, some, List, get_or, replicate,
}
use mathlib.Core.Option.{some-injective}
use mathlib.Core.Path.{subst}
use kpm_syscall_backtrace.Hook.Types.{Hook, HookErr, no_err, add64, trampoline_max_num}
use kpm_syscall_backtrace.Hook.Emit.{branch_from_to}
use kpm_syscall_backtrace.Hook.Relocate.{hook_prepare, read_words, tramp_words}
use kpm_syscall_backtrace.Hook.Writes.{written}
use kpm_syscall_backtrace.Hook.Prepare.{has_pac, Prepared, IsFresh, hook_prepare_in_bounds}
use kpm_syscall_backtrace.Inline.{Kernel, branch_func_addr_once}
use kpm_syscall_backtrace.Inline.Text.{get_or-read_words}

-- What `hook_prepare` leaves in a hook, for a function that does not sign its return address first.
pub prepared_lem :
    (text : ℕ → ℕ) (h h' : Hook)
    → IsFresh h
    → has_pac (text h.origin_addr) ≡ false
    → hook_prepare text h ≡ some (no_err, h')
    → Prepared text h h'
prepared_lem text h h' fresh plain e =
    let (r, q, outcome) = hook_prepare_in_bounds text h fresh plain in
    let same = some-injective _ _ (sym q ∙ e) in
    elim outcome [
      | inl bad ↦ absurd (bad (ap (λ (r : HookErr × Hook). r.0) same))
      | inr good ↦ subst (Prepared text h) (ap (λ (r : HookErr × Hook). r.1) same) good
    ]

tramp_words-plain :
    (h : Hook) (insts : List ℕ)
    → has_pac (get_or insts 0 0) ≡ false
    → tramp_words h insts ≡ branch_from_to h.origin_addr h.replace_addr
unfolding tramp_words
tramp_words-plain h insts plain = rw plain refl

-- The first word of the trampoline, LDR X17.
pub trampoline_head :
    (text : ℕ → ℕ) (h h' : Hook)
    → Prepared text h h'
    → h.tramp_insts ≡ replicate trampoline_max_num 0
    → has_pac (text h.origin_addr) ≡ false
    → get_or h'.tramp_insts 0 0 ≡ 0x58000051
unfolding branch_from_to read_words
trampoline_head text h h' pr room plain =
    let insts = read_words text h.origin_addr trampoline_max_num in
    ap (λ ws. get_or ws 0 0) pr.tramp_words
    ∙ ap (λ ws. get_or (written h.tramp_insts 0 ws) 0 0) (tramp_words-plain h insts plain)
    ∙ ap (λ buf. get_or (written buf 0 (branch_from_to h.origin_addr h.replace_addr)) 0 0) room

pub Prepared-num :
    (text : ℕ → ℕ) (h h' : Hook)
    → Prepared text h h'
    → has_pac (text h.origin_addr) ≡ false
    → h'.tramp_insts_num ≡ 4
Prepared-num text h h' pr plain = ground arith

-- The hook has saved the words that its trampoline overwrites.
pub Prepared-saved :
    (text : ℕ → ℕ) (h h' : Hook) (i : ℕ)
    → Prepared text h h'
    → h.origin_addr < 2 ^ 64
    → i < trampoline_max_num
    → get_or h'.origin_insts i 0 ≡ text (add64 h'.origin_addr (i * 4))
Prepared-saved text h h' i pr small lt =
    ap (λ ws. get_or ws i 0) pr.insts
    ∙ get_or-read_words text h.origin_addr trampoline_max_num i small lt
    ∙ ap (λ a. text (add64 a (i * 4))) (sym pr.origin)

-- A function that begins with the trampoline's first word is followed no further.
pub once-trampoline :
    (k : Kernel) (addr : ℕ) → k.text addr ≡ 0x58000051 → branch_func_addr_once k addr ≡ addr
unfolding branch_func_addr_once
once-trampoline k addr e = ground arith

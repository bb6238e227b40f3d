-- ===== src/Inline/Restore.antt =====
-- hook and then unhook of kernel/base/hook.c: the kernel's code is as it was.
use kpm_syscall_backtrace.Base.{
  ℕ, suc, ◌*◌, ◌^◌, ◌<◌, ◌≡◌, refl, sym, ◌∙◌, ap, arith, true, false, Option, some, get_or,
}
use mathlib.Core.Option.{some-injective}
use mathlib.Core.Path.{subst}
use kpm_syscall_backtrace.Hook.Types.{Hook, HookErr, no_err, add64}
use kpm_syscall_backtrace.Hook.Relocate.{hook_prepare}
use kpm_syscall_backtrace.Hook.Prepare.{has_pac}
use kpm_syscall_backtrace.Memory.{find_free}
use kpm_syscall_backtrace.Memory.Laws.{IsAligned}
use kpm_syscall_backtrace.PageTable.{Paging}
use kpm_syscall_backtrace.Inline.{
  Kernel, branch_func_addr, branch_func_addr_once, new_hook, hook_install, hook_slot, hook,
  patch_text,
}
use kpm_syscall_backtrace.Inline.Laws.{IsMapped, code_written, hook_install_lem}
use kpm_syscall_backtrace.Inline.Text.{patch_text-word}
use kpm_syscall_backtrace.Inline.Errors.{
  kept, Ends, faults, refuses, installs, hook_slot-Ends, allocated, Starts, refused, circles,
  allocates, hook-Starts,
}
use kpm_syscall_backtrace.Inline.Resolve.{branch_func_addr_self}
use kpm_syscall_backtrace.Inline.Unhook.{
  prepared_lem, trampoline_head, Prepared-num, Prepared-saved,
}

module _ (p : Paging) (k : Kernel) (func : ℕ) where
  -- What a hook of a function in slot `i` leaves: the hook `h`, in the kernel `k'`.
  pub record Installed (i : ℕ) (h : Hook) (k' : Kernel) : Type 0 where
    pub free : find_free k.mem.warps ≡ some i
    pub mem : k'.mem ≡ (kept (allocated k i func) i h).mem
    pub num : h.tramp_insts_num ≡ 4
    pub origin : h.origin_addr ≡ func
    pub saved : (j : ℕ) → j < 4 → get_or h.origin_insts j 0 ≡ k.text (add64 h.origin_addr (j * 4))
    pub installed : hook_install p (kept (allocated k i func) i h) h ≡ some k'
    pub head : k'.text func ≡ 0x58000051

  module _ (small : func < 2 ^ 64) (mapped : IsMapped p k func)
      (plain : has_pac (k.text func) ≡ false) where
    install-Installed :
        (i replace : ℕ) (h : Hook) (k' : Kernel)
        → find_free k.mem.warps ≡ some i
        → hook_prepare k.text (new_hook (allocated k i func).mem i func func replace)
          ≡ some (no_err, h)
        → hook_install p (kept (allocated k i func) i h) h ≡ some k'
        → Installed i h k'
    install-Installed i replace h k' free prepared done =
        let fresh = new_hook (allocated k i func).mem i func func replace in
        let pr =
          prepared_lem k.text fresh h (record { tramp_room = refl; empty = refl }) plain prepared in
        let num = Prepared-num k.text fresh h pr plain in
        let there : IsMapped p (kept (allocated k i func) i h) h.origin_addr =
          subst (λ a. IsMapped p k a) (sym pr.origin) mapped in
        let same : code_written p (kept (allocated k i func) i h) h h.tramp_insts ≡ k' =
          some-injective _ _ (sym (hook_install_lem p _ h there) ∙ done) in
        let at : add64 h.origin_addr (0 * 4) ≡ func = omega (arith, pr.origin, small) in
        let first : patch_text k.text h.origin_addr h.tramp_insts h.tramp_insts_num
              (add64 h.origin_addr (0 * 4))
            ≡ get_or h.tramp_insts 0 0 =
          patch_text-word h.origin_addr k.text h.tramp_insts 0 h.tramp_insts_num
            (omega (arith, pr.origin, small)) (omega (arith, num)) (omega (arith, num)) in
        record {
          free = free;
          mem = ap (λ (t : Kernel). t.mem) (sym same);
          num = num;
          origin = pr.origin;
          saved = λ j lt. Prepared-saved k.text fresh h j pr small (omega arith);
          installed = done;
          head =
              ap (λ (t : Kernel). t.text func) (sym same)
              ∙ ap (patch_text k.text h.origin_addr h.tramp_insts h.tramp_insts_num) (sym at)
              ∙ first
              ∙ trampoline_head k.text fresh h pr refl plain;
        }

    Ends-Installed :
        (i replace backup : ℕ) (k' : Kernel) (r : Option (HookErr × ℕ × Kernel))
        → find_free k.mem.warps ≡ some i
        → Ends p (allocated k i func) i (new_hook (allocated k i func).mem i func func replace) r
        → r ≡ some (no_err, backup, k')
        → (h : Hook) × Installed i h k'
    Ends-Installed i replace backup k' _ free faults e = cc
    Ends-Installed i replace backup k' _ free (refuses err h' ne q) e =
        absurd (ne (ap (λ (r : HookErr × ℕ × Kernel). r.0) (some-injective _ _ e)))
    Ends-Installed i replace backup k' _ free (installs h k₁ q done) e =
        let same = ap (λ (r : HookErr × ℕ × Kernel). r.2) (some-injective _ _ e) in
        (h, subst (Installed i h) same (install-Installed i replace h k₁ free q done))

    abbrev slot_result : ℕ → ℕ → ℕ → Option (HookErr × ℕ × Kernel)
    slot_result i replace origin =
        hook_slot p (allocated k i origin) i
          (new_hook (allocated k i origin).mem i func origin replace)

    Starts-Installed :
        (fuel replace backup : ℕ) (k' : Kernel) (r : Option (HookErr × ℕ × Kernel))
        → branch_func_addr fuel k func ≡ some func
        → Starts fuel p k func replace r
        → r ≡ some (no_err, backup, k')
        → (i : ℕ) × (h : Hook) × Installed i h k'
    Starts-Installed fuel replace backup k' _ self (refused err ne) e =
        absurd (ne (ap (λ (r : HookErr × ℕ × Kernel). r.0) (some-injective _ _ e)))
    Starts-Installed fuel replace backup k' _ self (circles q) e = cc
    Starts-Installed fuel replace backup k' _ self (allocates origin i q free) e =
        let here : origin ≡ func = some-injective _ _ (sym q ∙ self) in
        let at_func = subst (λ o. slot_result i replace o ≡ some (no_err, backup, k')) here e in
        let (h, s) =
          Ends-Installed i replace backup k' _ free (hook_slot-Ends p (allocated k i func) i _)
            at_func in
        (i, h, s)

    pub hook-Installed :
        (fuel replace backup : ℕ) (k' : Kernel)
        → IsAligned k.mem
        → branch_func_addr_once k func ≡ func
        → hook (suc fuel) p k func replace true ≡ some (no_err, backup, k')
        → (i : ℕ) × (h : Hook) × Installed i h k'
    hook-Installed fuel replace backup k' aligned self e =
        Starts-Installed (suc fuel) replace backup k' _ (branch_func_addr_self k fuel func self)
          (hook-Starts (suc fuel) p k func replace true aligned) e

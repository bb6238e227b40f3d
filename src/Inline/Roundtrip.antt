-- ===== src/Inline/Roundtrip.antt =====
-- hook and then unhook of kernel/base/hook.c: the kernel's code is as it was.
use kpm_syscall_backtrace.Base.{
  ℕ, suc, ◌^◌, ◌<◌, ◌≡◌, refl, sym, ◌∙◌, ap, arith, true, false, none, some, get_elem?,
}
use mathlib.Core.Path.{subst}
use kpm_syscall_backtrace.Hook.Types.{Hook, no_err}
use kpm_syscall_backtrace.Hook.Prepare.{has_pac}
use kpm_syscall_backtrace.Memory.{
  Warp, inline, hook_mem_free, find_origin, hook_get_mem_from_origin,
}
use kpm_syscall_backtrace.Memory.Laws.{IsAligned, Unique, find_origin-taken, taken-Unique, free-get}
use kpm_syscall_backtrace.PageTable.{Paging}
use kpm_syscall_backtrace.Inline.{
  Entry, Kernel, branch_func_addr, branch_func_addr_once, hook_uninstall, uninstall_slot, hook,
  unhook,
}
use kpm_syscall_backtrace.Inline.Laws.{IsMapped, uninstall-install}
use kpm_syscall_backtrace.Inline.Errors.{entry_of, kept, allocated}
use kpm_syscall_backtrace.Inline.Hooked.{hooked, kept-warps, kept-get}
use kpm_syscall_backtrace.Inline.Resolve.{branch_func_addr_self}
use kpm_syscall_backtrace.Inline.Unhook.{once-trampoline}
use kpm_syscall_backtrace.Inline.Restore.{Installed, hook-Installed}

unhook_steps :
    (fuel : ℕ) (p : Paging) (k k' : Kernel) (func origin i : ℕ) (w : Warp Entry)
    → branch_func_addr fuel k func ≡ some origin
    → hook_get_mem_from_origin k.mem origin ≡ some i
    → get_elem? k.mem.warps i ≡ some w
    → hook_uninstall p k w.chain.hook ≡ some k'
    → unhook fuel p k func ≡ some (record k' { mem = hook_mem_free k'.mem i })
unfolding unhook uninstall_slot
unhook_steps fuel p k k' func origin i w resolved found slot done =
    rw (resolved, unhook) (rw (found, unhook) (rw (slot, unhook) (rw (done, uninstall_slot) refl)))

module _ (p : Paging) (k k' : Kernel) (func i : ℕ) (h : Hook) (s : Installed p k func i h k') where
  installed-found :
      hook_get_mem_from_origin k.mem func ≡ none → hook_get_mem_from_origin k'.mem func ≡ some i
  unfolding hook_get_mem_from_origin
  installed-found fresh =
      ap (λ m. hook_get_mem_from_origin m func) s.mem
      ∙ ap (λ ws. find_origin ws func) (kept-warps k i func h s.free)
      ∙ find_origin-taken (entry_of h) func inline k.mem.warps i s.free fresh

  installed-Unique :
      hook_get_mem_from_origin k.mem func ≡ none → Unique k.mem.warps → Unique k'.mem.warps
  unfolding hook_get_mem_from_origin
  installed-Unique fresh u =
      subst Unique (sym (kept-warps k i func h s.free) ∙ ap (λ m. m.warps) (sym s.mem))
        (taken-Unique (entry_of h) func inline k.mem.warps i s.free fresh u)

  installed-get : get_elem? k'.mem.warps i ≡ some (hooked func h)
  installed-get = ap (λ m. get_elem? m.warps i) s.mem ∙ kept-get k i func h s.free

-- For a function at which `branch_func_addr` stops at once, which so begins with no branch B and no landing
-- pad BTI, and which does not begin with PACIASP or PACIBSP either, has no slot yet in an aligned hook memory without two slots for one address, and is mapped by the page table
-- before and after `hook`: if `hook` succeeds, `unhook` after it succeeds, gives back every word of the
-- kernel's code as it was before, and leaves no slot for the function.
pub unhook-hook :
    (fuel fuel' : ℕ) (p : Paging) (k k' : Kernel) (func replace backup : ℕ)
    → func < 2 ^ 64
    → branch_func_addr_once k func ≡ func
    → has_pac (k.text func) ≡ false
    → IsAligned k.mem
    → Unique k.mem.warps
    → hook_get_mem_from_origin k.mem func ≡ none
    → IsMapped p k func
    → hook (suc fuel) p k func replace true ≡ some (no_err, backup, k')
    → IsMapped p k' func
    → (k'' : Kernel) × (unhook (suc fuel') p k' func ≡ some k'')
      × ((x : ℕ) → k''.text x ≡ k.text x)
      × (hook_get_mem_from_origin k''.mem func ≡ none)
unhook-hook fuel fuel' p k k' func replace backup small self plain aligned u fresh mapped e
      mapped' =
    let (i, h, s) =
      hook-Installed p k func small mapped plain fuel replace backup k' aligned self e in
    let (k₁, done, text, mem) =
      uninstall-install p (kept (allocated k i func) i h) k' h
        (subst (λ a. IsMapped p k a) (sym s.origin) mapped)
        (λ j lt. s.saved j (omega (arith, s.num))) s.installed
        (subst (λ a. IsMapped p k' a) (sym s.origin) mapped') in
    let found = installed-found p k k' func i h s fresh in
    let released =
      free-get k'.mem func (suc func) i (installed-Unique p k k' func i h s fresh u) found
        (omega arith) in
    (
      record k₁ { mem = hook_mem_free k₁.mem i },
      unhook_steps (suc fuel') p k' k₁ func func i (hooked func h)
          (branch_func_addr_self k' fuel' func (once-trampoline k' func s.head)) found
          (installed-get p k k' func i h s) done,
      text,
      ap (λ m. hook_get_mem_from_origin (hook_mem_free m i) func) mem ∙ released.0,
    )

-- ===== src/Control/Lifecycle.antt =====
-- The loading and the unloading of the module of accessOffstinlineHook.c: what is hooked is unhooked, and
-- what is registered is released.
use kpm_syscall_backtrace.Base.{
  ℕ, ◌==◌, ◌≡◌, ◌≢◌, refl, arith, if◌then◌else◌, inl, inr, Option-cases, List, [], ◌∷◌, ◌++◌,
}
use kpm_syscall_backtrace.Breakpoint.{
  Slot, Api, Call, hw_breakpoint_init, hw_breakpoint_clear_all, clear_slot,
}
use kpm_syscall_backtrace.Breakpoint.Steps.{clears_all, next, registered, released, held}
use kpm_syscall_backtrace.Breakpoint.Events.{Reach-accounted}
use kpm_syscall_backtrace.Unwind.{stack_unwind_init}
use kpm_syscall_backtrace.Process.{process_memory_init}
use kpm_syscall_backtrace.Control.Reply.{Module}
use kpm_syscall_backtrace.Control.Module.{
  Kernel, Wrap, Installed, Init, minus_one, hook_error, loaded, try_wrap, hook_openat, hook_kill,
  install, kpm_init, unhook_if_set, kpm_exit,
}
use kpm_syscall_backtrace.Control.Runs.{Run, Run-Reach}

-- The functions that calls have hooked.
abbrev pub hooked : List Wrap → List ℕ
hooked [] = []
hooked (w ∷ calls) = if w.err == 0 then w.func ∷ hooked calls else hooked calls

hooked-append : (xs ys : List Wrap) → hooked (xs ++ ys) ≡ hooked xs ++ hooked ys
hooked-append [] ys = refl
hooked-append (w ∷ xs) ys = ground (arith, hooked-append xs ys)

-- The functions hooked are none, when the load fails, and else those that the end unhooks.
abbrev pub Leaves : Api → Module → Init × List Wrap → Type 0
Leaves api n (minus_one, calls) = hooked calls ≡ []
Leaves api n (hook_error err, calls) = hooked calls ≡ []
Leaves api n (loaded m i, calls) = hooked calls ≡ (kpm_exit api n i).1

module _ (wrap : ℕ → ℕ → ℕ) where
  try_wrap-hooked :
      (argno func : ℕ)
      → hooked (try_wrap wrap argno func).1 ≡ unhook_if_set (try_wrap wrap argno func).0
  unfolding try_wrap
  try_wrap-hooked argno func = ground arith

  hook_openat-hooked :
      (kernel : Kernel)
      → hooked (hook_openat wrap kernel).1 ≡ unhook_if_set (hook_openat wrap kernel).0
  unfolding hook_openat
  hook_openat-hooked kernel = ground (
    arith,
    try_wrap-hooked 4 kernel.do_sys_openat2,
    try_wrap-hooked 4 kernel.do_sys_open,
    hooked-append (try_wrap wrap 4 kernel.do_sys_openat2).1 (try_wrap wrap 4 kernel.do_sys_open).1,
  )

  hook_kill-hooked :
      (kernel : Kernel) → hooked (hook_kill wrap kernel).1 ≡ unhook_if_set (hook_kill wrap kernel).0
  unfolding hook_kill
  hook_kill-hooked kernel = ground (
    arith,
    try_wrap-hooked 1 kernel.arm64_sys_kill,
    try_wrap-hooked 1 kernel.inner_sys_kill,
    try_wrap-hooked 1 kernel.sys_kill,
  )

  install-Leaves :
      (api : Api) (n : Module) (kernel : Kernel) (slots : List Slot)
      → Leaves api n (install wrap kernel slots)
  unfolding install kpm_exit
  install-Leaves api n kernel slots = ground (
    arith,
    hook_openat-hooked kernel,
    hook_kill-hooked kernel,
    hooked-append (hook_openat wrap kernel).1 (hook_kill wrap kernel).1,
  )

  -- A load that fails has hooked no function, whichever step of it fails. One that succeeds has hooked the
  -- functions that the unloading unhooks, in the same order, whatever has become of the module.
  pub kpm_init-Leaves :
      (api : Api) (n : Module) (kernel : Kernel) → Leaves api n (kpm_init wrap kernel)
  unfolding kpm_init
  kpm_init-Leaves api n kernel = elim (Option-cases (stack_unwind_init kernel.symbols)) [
    | inl e ↦ rw (e, kpm_init) refl
    | inr (f, e) ↦ elim (Option-cases (hw_breakpoint_init kernel.api)) [
      | inl e' ↦ rw (e, e', kpm_init) refl
      | inr (slots, e') ↦ elim (Option-cases (process_memory_init kernel.functions)) [
        | inl e'' ↦ rw (e, e', e'', kpm_init) refl
        | inr (g, e'') ↦ rw (e, e', e'', kpm_init) (install-Leaves api n kernel slots)
      ]
    ]
  ]

module _ (api : Api) (event : ℕ) where
  clear_all-held : (slots : List Slot) → held event (hw_breakpoint_clear_all api slots).0 ≡ 0
  unfolding hw_breakpoint_clear_all clear_slot
  clear_all-held [] = refl
  clear_all-held (s ∷ slots) = ground (arith, clear_all-held slots)

  -- Once the module is unloaded, after any run, every event that is no null pointer has been released as
  -- often as it was registered.
  pub kpm_exit-releases :
      (m : Module) (calls : List Call) (i : Installed)
      → event ≢ 0
      → Run api m calls
      → let all = calls ++ (kpm_exit api m i).2 in registered event all ≡ released event all
  unfolding kpm_exit
  kpm_exit-releases m calls i real r =
      let end = Reach-accounted event real api (next (Run-Reach r).1 (clears_all refl)) in
      omega (arith, end, clear_all-held m.slots)

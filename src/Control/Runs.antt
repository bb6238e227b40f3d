-- ===== src/Control/Runs.antt =====
-- Every run of the module of accessOffstinlineHook.c: commands of the user, calls of the hooked functions
-- and hits of breakpoints, in any order.
use kpm_syscall_backtrace.Base.{
  ℕ, ◌+◌, ◌≡◌, ◌≢◌, refl, ap, arith, Bool, false, inl, inr, some, List, [], ◌∷◌, ◌++◌,
}
use mathlib.Core.Path.{subst}
use kpm_syscall_backtrace.Breakpoint.{Slot, Api, Call, hw_breakpoint_init}
use kpm_syscall_backtrace.Breakpoint.Hit.{hw_bp_handler}
use kpm_syscall_backtrace.Breakpoint.Steps.{hits, Reach, starts, next, registered, released, held}
use kpm_syscall_backtrace.Breakpoint.Events.{Reach-accounted}
use kpm_syscall_backtrace.Process.Info.{Task}
use kpm_syscall_backtrace.Control.{module_state}
use kpm_syscall_backtrace.Control.Before.{
  UserText, missing, before_do_faccessat, before_do_sys_openat2, before_sys_kill,
}
use kpm_syscall_backtrace.Control.Command.{command_of}
use kpm_syscall_backtrace.Control.Reply.{Module, World, with_state}
use kpm_syscall_backtrace.Control.Run.{run}
use kpm_syscall_backtrace.Control.Invariant.{IsWf}
use kpm_syscall_backtrace.Control.Preserve.{run-IsWf, callback-IsWf}
use kpm_syscall_backtrace.Control.System.{Moves, run-Moves}

-- The module after a run, and the calls of the breakpoint functions of the kernel in it.
pub data Run (api : Api) : Module → List Call → Type 0 where
  loaded :
      {slots : List Slot}
      → hw_breakpoint_init api ≡ some slots
      → Run api (record { state = module_state; slots = slots; verbose = false }) []
  commands :
      {m : Module} {calls : List Call} (w : World) (ctl_args : List ℕ)
      → w.api ≡ api
      → Run api m calls
      → Run api (run w m (command_of ctl_args)).0 (calls ++ (run w m (command_of ctl_args)).3)
  accesses :
      {m : Module} {calls : List Call} (task : Task) (filename : UserText) (mode : ℕ)
      → Run api m calls
      → Run api (with_state m (before_do_faccessat m.state task filename mode).0) calls
  opens :
      {m : Module} {calls : List Call} (task : Task) (filename : UserText) (dfd : ℕ)
      → Run api m calls
      → Run api (with_state m (before_do_sys_openat2 m.state task filename dfd).0) calls
  kills :
      {m : Module} {calls : List Call} (task : Task) (x0 x1 : ℕ)
      → Run api m calls
      → Run api (with_state m (before_sys_kill m.state task x0 x1).0) calls
  breaks :
      {m : Module} {calls : List Call} (bp pc : ℕ) (modified : Bool)
      → Run api m calls
      → Run api
          (record m { slots = (hw_bp_handler api m.slots bp pc modified).0 })
          (calls ++ (hw_bp_handler api m.slots bp pc modified).1)

append_nil : (calls : List Call) → calls ++ [] ≡ calls
append_nil [] = refl
append_nil (c ∷ calls) = ap (λ cs. c ∷ cs) (append_nil calls)

Reach-Moves :
    {api : Api} {slots slots' : List Slot} {calls new : List Call}
    → Reach api slots calls
    → Moves api slots slots' new
    → Reach api slots' (calls ++ new)
Reach-Moves {calls} r (inl (same, silent)) = rw (same, silent, append_nil calls) r
Reach-Moves r (inr step) = next r step

module_state-IsWf : IsWf module_state
module_state-IsWf = (refl, ground arith)

-- After every run the filters are well formed, and the breakpoints are where a run of hw_breakpoint.c alone
-- leads to, with the same calls of the kernel.
pub Run-Reach :
    {api : Api} {m : Module} {calls : List Call}
    → Run api m calls
    → IsWf m.state × Reach api m.slots calls
Run-Reach (loaded e) = (module_state-IsWf, starts e)
Run-Reach (commands {m} w ctl_args same r) =
    let before = Run-Reach r in
    (
      run-IsWf w m (command_of ctl_args) before.0,
      Reach-Moves before.1 (
          subst
            (λ a.
              Moves a m.slots (run w m (command_of ctl_args)).0.slots
                (run w m (command_of ctl_args)).3)
            same (run-Moves w m (command_of ctl_args))),
    )
Run-Reach (accesses {m} task filename mode r) =
    let before = Run-Reach r in ((callback-IsWf m.state task filename mode 0 before.0).0, before.1)
Run-Reach (opens {m} task filename dfd r) =
    let before = Run-Reach r in ((callback-IsWf m.state task filename dfd 0 before.0).1, before.1)
Run-Reach (kills {m} task x0 x1 r) =
    let before = Run-Reach r in ((callback-IsWf m.state task missing x0 x1 before.0).2, before.1)
Run-Reach (breaks {m} bp pc modified r) =
    let before = Run-Reach r in (before.0, next before.1 (hits bp pc modified refl))

-- After every run, an event that is no null pointer has been registered as often as it has been released
-- and is held by an enabled breakpoint together.
pub Run-accounted :
    {api : Api} {m : Module} {calls : List Call} (event : ℕ)
    → event ≢ 0
    → Run api m calls
    → registered event calls ≡ released event calls + held event m.slots
Run-accounted {api} event real r = Reach-accounted event real api (Run-Reach r).1

-- ===== src/Breakpoint/Events.antt =====
-- The events of hw_breakpoint.c over every sequence of steps: none is lost, none released twice.
use kpm_syscall_backtrace.Base.{ℕ, ◌+◌, ◌≡◌, ◌≢◌, arith, true, List}
use kpm_syscall_backtrace.Breakpoint.{Slot, Api, Call, hw_breakpoint_init}
use kpm_syscall_backtrace.Breakpoint.Steps.{
  Step, sets, clears, clears_all, hits, Reach, starts, next, registered, released, held,
}
use kpm_syscall_backtrace.Breakpoint.Balance.{
  Balanced, set-Balanced, clear-Balanced, clear_all-Balanced, handler-Balanced, registered-append,
  released-append,
}

module _ (event : ℕ) (real : event ≢ 0) (api : Api) where
  Step-Balanced :
      {slots slots' : List Slot} {calls : List Call}
      → api.unregister_wide ≡ true
      → Step api slots slots' calls
      → Balanced event slots slots' calls
  Step-Balanced {slots} wide (sets addr type size pid desc pid_struct task bp r e) =
      ground (
        arith,
        set-Balanced event api wide real slots addr type size pid desc pid_struct task bp,
        e,
      )
  Step-Balanced {slots} wide (clears i r e) =
      ground (arith, clear-Balanced event api wide real slots i, e)
  Step-Balanced {slots} wide (clears_all e) =
      ground (arith, clear_all-Balanced event api wide real slots, e)
  Step-Balanced {slots} wide (hits bp pc modified e) =
      ground (arith, handler-Balanced event api wide real slots bp pc modified, e)

  Reach-wide :
      {slots : List Slot} {calls : List Call} → Reach api slots calls → api.unregister_wide ≡ true
  unfolding hw_breakpoint_init
  Reach-wide (starts e) = ground (arith, e)
  Reach-wide (next r s) = Reach-wide r

  -- Whatever requests, refusals of the kernel and hits the module goes through, an event that is no null
  -- pointer has been registered as often as it has been released and is held by an enabled slot together:
  -- no event is lost, and none is released twice.
  pub Reach-accounted :
      {slots : List Slot} {calls : List Call}
      → Reach api slots calls
      → registered event calls ≡ released event calls + held event slots
  unfolding hw_breakpoint_init
  Reach-accounted (starts e) = ground (arith, e)
  Reach-accounted (next {slots} {slots'} {calls} {new} r s) = omega (
    arith,
    Reach-accounted r,
    Step-Balanced (Reach-wide r) s,
    registered-append event calls new,
    released-append event calls new,
  )

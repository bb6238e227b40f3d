-- ===== src/Control/System.antt =====
-- The module as a whole: the commands of the user to accessOffstinlineHook.c, the calls of the hooked
-- functions and the hits of the breakpoints of hw_breakpoint.c, in any order.
use kpm_syscall_backtrace.Base.{ℕ, ◌≡◌, ◌⊎◌, refl, ap, arith, Bool-cases, inl, inr, ◌==◌, List, []}
use kpm_syscall_backtrace.Breakpoint.{Slot, Api, Call, Result}
use kpm_syscall_backtrace.Breakpoint.Set.{is_positive, hw_breakpoint_set}
use kpm_syscall_backtrace.Breakpoint.Steps.{Step, sets, clears, clears_all}
use kpm_syscall_backtrace.Control.Parse.{parse_decimal}
use kpm_syscall_backtrace.Control.Command.{
  Command, get_status, enable, disable, enable_access, disable_access, enable_openat,
  disable_openat, enable_kill, disable_kill, reset_counters, set_whitelist, set_blacklist,
  clear_filters, add_filter, bp_set, bp_clear, bp_clear_all, bp_verbose_on, bp_verbose_off, bp_list,
  mem_read, help, unknown,
}
use kpm_syscall_backtrace.Control.Reply.{Module, World}
use kpm_syscall_backtrace.Control.Args.{BpSpec, parse_bp}
use kpm_syscall_backtrace.Control.Actions.{
  run_add_filter, run_bp_set, run_bp_clear, set_request, finish_set, finish_clear,
}
use kpm_syscall_backtrace.Control.Run.{run}
use kpm_syscall_backtrace.Control.Failures.{mem_read-Keeps}

-- A step of the breakpoints, or none.
abbrev pub Moves : Api → List Slot → List Slot → List Call → Type 0
Moves api slots slots' calls = ((slots' ≡ slots) × (calls ≡ [])) ⊎ Step api slots slots' calls

set_request-Moves :
    (w : World) (slots : List Slot) (spec : BpSpec)
    → let r = set_request w slots spec in Step w.api slots r.1 r.2
unfolding set_request hw_breakpoint_set
set_request-Moves w slots spec = elim (Bool-cases (is_positive spec.pid)) [
  | inl e ↦
      rw e (sets spec.addr spec.type spec.size spec.pid spec.desc w.pid_struct w.task w.bp _ refl)
  | inr e ↦ rw e (sets spec.addr spec.type spec.size 0 spec.desc 0 0 w.bp _ refl)
]

finish_set-slots :
    (m : Module) (spec : BpSpec) (r : Result × List Slot × List Call)
    → ((finish_set m spec r).0.slots ≡ r.1) × ((finish_set m spec r).3 ≡ r.2)
unfolding finish_set
finish_set-slots m spec (r, slots, calls) = (refl, refl)

bp_set-Moves :
    (w : World) (m : Module) (text : List ℕ)
    → let d = run_bp_set w m text in Moves w.api m.slots d.0.slots d.3
unfolding run_bp_set finish_set
bp_set-Moves w m text =
    let spec = parse_bp text in
    elim (Bool-cases (spec.addr == 0)) [
      | inl e ↦ rw (e, run_bp_set) (inl (refl, refl))
      | inr e ↦ rw (e, run_bp_set) (inr (set_request-Moves w m.slots spec))
    ]

bp_clear-Moves :
    (w : World) (m : Module) (text : List ℕ)
    → let d = run_bp_clear w m text in Moves w.api m.slots d.0.slots d.3
unfolding run_bp_clear finish_clear
bp_clear-Moves w m text = inr (clears (parse_decimal 0 text).0 _ refl)

add_filter-slots :
    (m : Module) (spec : List ℕ)
    → let d = run_add_filter m spec in (d.0.slots ≡ m.slots) × (d.3 ≡ [])
unfolding run_add_filter
add_filter-slots m spec = ground arith

-- What a command does to the breakpoints is a step of hw_breakpoint.c, or nothing.
pub run-Moves :
    (w : World) (m : Module) (c : Command) → let d = run w m c in Moves w.api m.slots d.0.slots d.3
unfolding run
run-Moves w m get_status = inl (refl, refl)
run-Moves w m enable = inl (refl, refl)
run-Moves w m disable = inl (refl, refl)
run-Moves w m enable_access = inl (refl, refl)
run-Moves w m disable_access = inl (refl, refl)
run-Moves w m enable_openat = inl (refl, refl)
run-Moves w m disable_openat = inl (refl, refl)
run-Moves w m enable_kill = inl (refl, refl)
run-Moves w m disable_kill = inl (refl, refl)
run-Moves w m reset_counters = inl (refl, refl)
run-Moves w m set_whitelist = inl (refl, refl)
run-Moves w m set_blacklist = inl (refl, refl)
run-Moves w m clear_filters = inl (refl, refl)
run-Moves w m (add_filter spec) = inl (add_filter-slots m spec)
run-Moves w m (bp_set spec) = bp_set-Moves w m spec
run-Moves w m (bp_clear idx) = bp_clear-Moves w m idx
run-Moves w m bp_clear_all = inr (clears_all refl)
run-Moves w m bp_verbose_on = inl (refl, refl)
run-Moves w m bp_verbose_off = inl (refl, refl)
run-Moves w m bp_list = inl (refl, refl)
run-Moves w m (mem_read spec) =
    let same = mem_read-Keeps w m spec in inl (ap (λ n. n.slots) same.0, same.1)
run-Moves w m help = inl (refl, refl)
run-Moves w m (unknown text) = inl (refl, refl)

-- ===== src/Control/Preserve.antt =====
-- The operations of accessOffstinlineHook.c keep its state well formed.
use kpm_syscall_backtrace.Base.{ℕ, ◌∙◌, arith}
use kpm_syscall_backtrace.Process.Info.{Task}
use kpm_syscall_backtrace.Control.{State}
use kpm_syscall_backtrace.Control.Before.{
  UserText, before_do_faccessat, before_do_sys_openat2, before_sys_kill,
}
use kpm_syscall_backtrace.Control.Command.{
  Command, get_status, enable, disable, enable_access, disable_access, enable_openat,
  disable_openat, enable_kill, disable_kill, reset_counters, set_whitelist, set_blacklist,
  clear_filters, add_filter, bp_set, bp_clear, bp_clear_all, bp_verbose_on, bp_verbose_off, bp_list,
  mem_read, help, unknown,
}
use kpm_syscall_backtrace.Control.Reply.{Module, World}
use kpm_syscall_backtrace.Control.Run.{run}
use kpm_syscall_backtrace.Control.Invariant.{IsWf, Entries-clear, length-clear, add_filter-IsWf}

-- A well-formed state stays so under every command.
pub run-IsWf : (w : World) (m : Module) (c : Command) → IsWf m.state → IsWf (run w m c).0.state
unfolding run
run-IsWf w m get_status wf = wf
run-IsWf w m enable wf = wf
run-IsWf w m disable wf = wf
run-IsWf w m enable_access wf = wf
run-IsWf w m disable_access wf = wf
run-IsWf w m enable_openat wf = wf
run-IsWf w m disable_openat wf = wf
run-IsWf w m enable_kill wf = wf
run-IsWf w m disable_kill wf = wf
run-IsWf w m reset_counters wf = wf
run-IsWf w m set_whitelist wf = wf
run-IsWf w m set_blacklist wf = wf
run-IsWf w m clear_filters wf = (length-clear m.state.filters ∙ wf.0, Entries-clear m.state.filters)
run-IsWf w m (add_filter spec) wf = add_filter-IsWf m spec wf
run-IsWf w m (bp_set spec) wf = ground (arith, wf)
run-IsWf w m (bp_clear idx) wf = wf
run-IsWf w m bp_clear_all wf = wf
run-IsWf w m bp_verbose_on wf = wf
run-IsWf w m bp_verbose_off wf = wf
run-IsWf w m bp_list wf = wf
run-IsWf w m (mem_read spec) wf = ground (arith, wf)
run-IsWf w m help wf = wf
run-IsWf w m (unknown text) wf = wf

-- A callback changes a counter, or nothing.
pub callback-IsWf :
    (s : State) (task : Task) (filename : UserText) (x y : ℕ)
    → IsWf s
    → IsWf (before_do_faccessat s task filename x).0
      × IsWf (before_do_sys_openat2 s task filename x).0
      × IsWf (before_sys_kill s task x y).0
unfolding before_do_faccessat before_do_sys_openat2 before_sys_kill
callback-IsWf s task filename x y wf = ground (arith, wf)

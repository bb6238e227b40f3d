-- ===== src/Control/Failures.antt =====
-- A command of accessOffstinlineHook.c that fails changes nothing.
use kpm_syscall_backtrace.Base.{ℕ, ◌≡◌, arith, List, []}
use kpm_syscall_backtrace.Breakpoint.{Errno, index, fails}
use kpm_syscall_backtrace.Control.Command.{Command}
use kpm_syscall_backtrace.Control.Reply.{Module, World, Done}
use kpm_syscall_backtrace.Control.Actions.{run_mem_read}

-- The command returned an error, changed nothing and called nothing.
abbrev pub Untouched : Module → Done → Type 0
Untouched m d = (d.0 ≡ m) × ((e : Errno) × (d.2 ≡ fails e)) × (d.3 ≡ [])

abbrev pub Succeeds : Done → Type 0
Succeeds d = d.2 ≡ index 0

pub mem_read-Keeps :
    (w : World) (m : Module) (spec : List ℕ)
    → let d = run_mem_read w m spec in (d.0 ≡ m) × (d.3 ≡ [])
unfolding run_mem_read
mem_read-Keeps w m spec = ground arith

-- ===== src/Control/Reply.antt =====
-- The state that kpm_control of accessOffstinlineHook.c works on, and what it answers.
use kpm_syscall_backtrace.Base.{ℕ, Bool, List, []}
use kpm_syscall_backtrace.Breakpoint.{Slot, Api, Call, Errno, Result, index, fails}
use kpm_syscall_backtrace.Process.{Functions, Answers}
use kpm_syscall_backtrace.Control.{State}

-- What is written to `kernel_out`: a text without numbers, or what a format is filled with.
pub data Reply : Type 0 where
  says : List ℕ → Reply
  status : State → Reply
  added_name : List ℕ → Reply
  added_pid : ℕ → Reply
  set_for_pid : ℕ → ℕ → ℕ → Reply
  set_system_wide : ℕ → ℕ → Reply
  not_set : Errno → Reply
  cleared : ℕ → Reply
  not_cleared : ℕ → Errno → Reply
  breakpoints : List Slot → Reply
  memory : ℕ → ℕ → ℕ → (ℕ → ℕ) → Reply
  no_memory : ℕ → ℕ → Errno → Reply
  no_command : List ℕ → Reply
  help_text : Reply

-- The state of the module and that of hw_breakpoint.c.
pub record Module : Type 0 where
  pub state : State
  pub slots : List Slot
  pub verbose : Bool

-- What the kernel answers: to a registration of a breakpoint, and to the reading of memory, with the
-- bytes read and the memory of `hex_buf` before.
pub record World : Type 0 where
  pub api : Api
  pub pid_struct : ℕ
  pub task : ℕ
  pub bp : ℕ
  pub memory : Functions
  pub answers : Answers
  pub bytes : List ℕ
  pub hex_buf : ℕ → ℕ

-- The module after a command, the reply, the value returned, the calls of the breakpoint functions.
abbrev pub Done : Type 0
Done = Module × Reply × Result × List Call

abbrev pub says_only : Module → Reply → Done
says_only m reply = (m, reply, index 0, [])

abbrev pub refuses : Module → Reply → Errno → Done
refuses m reply e = (m, reply, fails e, [])

abbrev pub with_state : Module → State → Module
with_state m s = record m { state = s }

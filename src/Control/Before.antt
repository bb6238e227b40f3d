-- ===== src/Control/Before.antt =====
-- The callbacks of accessOffstinlineHook.c: before_do_faccessat, before_do_sys_openat2, before_sys_kill.
-- An output is what is logged before the stack of the caller is unwound, or nothing.
use kpm_syscall_backtrace.Base.{
  c_string, ℕ, ◌+◌, ◌-◌, ◌%◌, ◌^◌, leb, ltb, if◌then◌else◌, Bool, not, ◌&&◌, ◌||◌, Option, none,
  some, List, take, codes,
}
use kpm_syscall_backtrace.Process.Info.{Task, get_process_id, get_process_cmdline}
use kpm_syscall_backtrace.Control.{State}
use kpm_syscall_backtrace.Control.Filter.{should_hook_process}

-- What was called, with the values that are printed.
pub data Traced : Type 0 where
  access openat : List ℕ → ℕ → Traced
  kill : ℕ → ℕ → Traced

-- A line of the log, which the stack follows.
pub record Log : Type 0 where
  pub pkg_name : List ℕ
  pub pid : ℕ
  pub call : Traced

-- What `strncpy_from_user` does: it is missing, it fails, or it copies a string.
pub data UserText : Type 0 where
  missing unreadable : UserText
  copied : List ℕ → UserText

unfoldable pub path_of : UserText → List ℕ
path_of missing = codes "<symbol_missing>"
path_of unreadable = codes "<read_error>"
path_of (copied text) = take 255 text

unfoldable pub log_of : Task → Traced → Log
unfolding get_process_cmdline get_process_id
log_of task call = record {
  pkg_name = c_string (get_process_cmdline task 256);
  pid = get_process_id task;
  call = call;
}

abbrev pub next_count : ℕ → ℕ
next_count n = (n + 1) % 2 ^ 32

unfoldable pub before_do_faccessat : State → Task → UserText → ℕ → State × Option Log
unfolding should_hook_process path_of log_of
before_do_faccessat s task filename mode =
    if not s.hook_enabled || not s.hook_access_enabled
    then (s, none)
    else if not (should_hook_process s task)
    then (s, none)
    else (
      record s { access_hook_count = next_count s.access_hook_count },
      some (log_of task (access (path_of filename) (mode % 2 ^ 32))),
    )

unfoldable pub before_do_sys_openat2 : State → Task → UserText → ℕ → State × Option Log
unfolding should_hook_process path_of log_of
before_do_sys_openat2 s task filename dfd =
    if not s.hook_enabled || not s.hook_openat_enabled
    then (s, none)
    else if not (should_hook_process s task)
    then (s, none)
    else (
      record s { openat_hook_count = next_count s.openat_hook_count },
      some (log_of task (openat (path_of filename) (dfd % 2 ^ 32))),
    )

-- `target_pid < -1 || target_pid > 99999` and `sig < 0 || sig > 64`, on an `int`.
abbrev pub is_plausible : ℕ → ℕ → Bool
is_plausible target_pid sig =
    not (
      (leb (2 ^ 31) target_pid && ltb target_pid (2 ^ 32 - 1))
      || (ltb target_pid (2 ^ 31) && ltb 99999 target_pid))
    && not (leb (2 ^ 31) sig || ltb 64 sig)

-- `x0` and `x1` are regs->regs[0] and regs->regs[1].
unfoldable pub before_sys_kill : State → Task → ℕ → ℕ → State × Option Log
unfolding should_hook_process log_of
before_sys_kill s task x0 x1 =
    let target_pid = x0 % 2 ^ 32 in
    let sig = x1 % 2 ^ 32 in
    if not s.hook_enabled || not s.hook_kill_enabled
    then (s, none)
    else if not (should_hook_process s task)
    then (s, none)
    else if not (is_plausible target_pid sig)
    then (s, none)
    else (
      record s { kill_hook_count = next_count s.kill_hook_count },
      some (log_of task (kill target_pid sig)),
    )

-- ===== src/Process.antt =====
-- kpms/demo_accessOffstinlineHook/process_memory.c and process_info.c: the memory and the names of other
-- processes. What the kernel answers are arguments; an `int` is a number below 2 ^ 32.
pub mod Info
pub mod Hex
pub mod Bounds
pub mod Digits
mod Tests
use kpm_syscall_backtrace.Base.{
  ℕ, ◌-◌, ◌^◌, ◌==◌, leb, ltb, if◌then◌else◌, Bool, true, false, not, ◌&&◌, ◌||◌, Option, none,
  some, List, [], ◌∷◌,
}
use kpm_syscall_backtrace.Breakpoint.{
  Errno, enosys, einval, esrch, efault, returned, Result, index, fails,
}

-- The function pointers: false is NULL.
pub record Functions : Type 0 where
  pub g_find_vpid : Bool
  pub g_pid_task : Bool
  pub g_access_process_vm : Bool
  pub g_get_task_mm : Bool
  pub g_mmput : Bool

-- `process_memory_init`, with what `kallsyms_lookup_name` finds; `none` is -1.
unfoldable pub process_memory_init : Functions → Option Functions
process_memory_init f =
    if f.g_find_vpid && f.g_pid_task && f.g_access_process_vm then some f else none

-- What `find_vpid`, `pid_task`, `get_task_mm` and `access_process_vm` return.
pub record Answers : Type 0 where
  pub pid_struct : ℕ
  pub task : ℕ
  pub mm : ℕ
  pub count : ℕ

pub data Event : Type 0 where
  gets_mm puts_mm : ℕ → Event
  reads : ℕ → ℕ → Event

abbrev pub max_read_size : ℕ
max_read_size = 4096

-- The return value for what `access_process_vm` has returned.
unfoldable pub result_of : ℕ → Result
result_of count =
    if leb (2 ^ 31) count
    then fails (returned (2 ^ 32 - count))
    else if count == 0
    then fails efault
    else index count

unfoldable pub read_task : Functions → Answers → ℕ → ℕ → Result × List Event
unfolding result_of
read_task f a addr size =
    if f.g_get_task_mm
    then if a.mm == 0 then (fails einval, gets_mm a.mm ∷ []) else (
      result_of a.count,
      gets_mm a.mm ∷ reads addr size ∷ (if f.g_mmput then puts_mm a.mm ∷ [] else []),
    )
    else (result_of a.count, reads addr size ∷ [])

-- `buf` is whether the buffer is there.
unfoldable pub process_memory_read : Functions → Answers → ℕ → Bool → ℕ → Result × List Event
unfolding read_task
process_memory_read f a addr buf size =
    if not (f.g_find_vpid && f.g_pid_task && f.g_access_process_vm)
    then (fails enosys, [])
    else if not buf || size == 0 || ltb max_read_size size
    then (fails einval, [])
    else if a.pid_struct == 0 || a.task == 0
    then (fails esrch, [])
    else read_task f a addr size

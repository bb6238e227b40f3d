-- ===== src/Process/Tests.antt =====
-- process_memory.c and process_info.c on small inputs, and the theorems about them there.
use kpm_syscall_backtrace.Base.{c_string, ℕ, ◌≡◌, refl, true, some, [], ◌∷◌, codes}
use kpm_syscall_backtrace.Breakpoint.{index}
use kpm_syscall_backtrace.Process.{Functions, Answers, process_memory_read, gets_mm, puts_mm, reads}
use kpm_syscall_backtrace.Process.Info.{get_process_cmdline}
use kpm_syscall_backtrace.Process.Hex.{process_memory_read_hex}

abbrev functions : Functions
functions = record {
  g_find_vpid = true;
  g_pid_task = true;
  g_access_process_vm = true;
  g_get_task_mm = true;
  g_mmput = true;
}

abbrev answers : Answers
answers = record { pid_struct = 5; task = 6; mm = 7; count = 2 }

abbrev blank : ℕ → ℕ
blank x = 255

read_two :
    process_memory_read functions answers 4096 true 2
    ≡ (index 2, gets_mm 7 ∷ reads 4096 2 ∷ puts_mm 7 ∷ [])
unfolding process_memory_read
read_two = refl

-- An output of one byte, and the third byte of the memory after it changes.
overrun :
    (process_memory_read_hex functions answers 4096 true blank 1 2 (0xab ∷ 0xcd ∷ [])).1 3 ≡ b'c'
unfolding process_memory_read_hex
overrun = refl

named_by_comm :
    c_string (
      get_process_cmdline
        (record { tgid = some 4; cmdline = some (0, []); comm = some (codes "sh") })
        16)
    ≡ codes "sh"
unfolding get_process_cmdline
named_by_comm = refl

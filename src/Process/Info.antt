-- ===== src/Process/Info.antt =====
-- process_info.c: the number and the name of a process.
use kpm_syscall_backtrace.Base.{
  ℕ, ◌-◌, ◌^◌, if◌then◌else◌, Option, none, some, List, ◌++◌, replicate, take, codes,
}
use kpm_syscall_backtrace.Breakpoint.Set.{is_positive}

-- What the kernel knows of a task: its number, what `get_cmdline` returns and copies, and its command.
-- `none` stands for a function that was not found.
pub record Task : Type 0 where
  pub tgid : Option ℕ
  pub cmdline : Option (ℕ × List ℕ)
  pub comm : Option (List ℕ)

-- -1 without the function.
unfoldable pub get_process_id : Task → ℕ
get_process_id task = elim task.tgid [ some pid ↦ pid | none ↦ 2 ^ 32 - 1 ]

-- The bytes of a buffer that `memset` has cleared, after a copy to its beginning.
abbrev pub filled : ℕ → List ℕ → List ℕ
filled buf_len bytes = take buf_len (bytes ++ replicate buf_len 0)

-- The command line, or else the command, or else "[Unknown]".
unfoldable pub get_process_cmdline : Task → ℕ → List ℕ
get_process_cmdline task buf_len =
    let comm : List ℕ = elim task.comm [ some name ↦ name | none ↦ codes "[Unknown]" ] in
    elim task.cmdline [
      | none ↦ filled buf_len comm
      | some (n, bytes) ↦ if is_positive n then filled buf_len bytes else filled buf_len comm
    ]

-- ===== src/Unwind/Standard.antt =====
-- unwind_user_stack_standard of stack_unwind.c: the entries of a stack and the lines printed for them.
use kpm_syscall_backtrace.Base.{
  ℕ, suc, ◌/◌, ◌%◌, ◌==◌, if◌then◌else◌, Bool, false, not, Option, none, some, List, [], ◌∷◌, ◌++◌,
}
use kpm_syscall_backtrace.Unwind.{Functions, Info, Event}
use kpm_syscall_backtrace.Unwind.Vma.{Answers, get_vma_info_str}
use kpm_syscall_backtrace.Unwind.Compat.{Regs, StackFrame32, my_unwind_compat}

-- A line of the trace: the number of the entry, its address, and what is known of it.
pub record Line : Type 0 where
  pub number : ℕ
  pub pc : ℕ
  pub info : Option Info

abbrev pub reverse_onto : List ℕ → List ℕ → List ℕ
reverse_onto [] ys = ys
reverse_onto (x ∷ xs) ys = reverse_onto xs (x ∷ ys)

-- The loop that prints, from entry `i` on. `answers` is what the kernel answers for each entry.
unfoldable pub print_entries : Functions → (ℕ → Answers) → ℕ → List ℕ → List Line × List Event
unfolding get_vma_info_str
print_entries f answers i [] = ([], [])
print_entries f answers i (ip ∷ entries) =
    let (info, events) = get_vma_info_str f (answers i) ip in
    let (lines, rest) = print_entries f answers (suc i) entries in
    (record { number = i; pc = ip; info = info } ∷ lines, events ++ rest)

-- What `regs` and the bit PSR_MODE32_BIT say.
abbrev pub is_32bit : Option Regs → Bool
is_32bit none = false
is_32bit (some regs) = not (regs.pstate / 16 % 2 == 0)

-- `saved` is the trace that `save_stack_trace_user` leaves for a 64-bit process, the first entry first.
unfoldable pub unwind_user_stack_standard :
    Functions
    → (ℕ → Option StackFrame32)
    → Option Regs
    → List ℕ
    → (ℕ → Answers)
    → List Line × List Event
unfolding print_entries my_unwind_compat
unwind_user_stack_standard f copy regs saved answers =
    let compat = reverse_onto (my_unwind_compat copy f.g_arch_copy_from_user regs []) [] in
    if f.g_save_stack_trace_user
    then print_entries f answers 0 (if is_32bit regs then compat else saved)
    else ([], [])

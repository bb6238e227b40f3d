-- ===== src/Unwind/Locks.antt =====
-- The lock and the pages of unwind_user_stack_standard of stack_unwind.c.
use kpm_syscall_backtrace.Base.{
  ℕ, suc, ◌==◌, ◌≡◌, refl, arith, if◌then◌else◌, Bool-cases, Option, none, some, List, [], ◌∷◌,
  ◌++◌, inl, inr,
}
use kpm_syscall_backtrace.Unwind.{Functions, Event, down_read, up_read, gets_page, frees_page}
use kpm_syscall_backtrace.Unwind.Vma.{
  Answers, info_of_file, info_of_area, info_under_lock, get_vma_info_str,
}
use kpm_syscall_backtrace.Unwind.Compat.{Regs, StackFrame32}
use kpm_syscall_backtrace.Unwind.Standard.{print_entries, unwind_user_stack_standard}

-- The state of the lock and the page: the lock is not held, it is, or a page is, under the lock.
pub data Held : Type 0 where
  nothing lock : Held
  page : ℕ → Held

-- The rules of the lock and the page, as an automaton that refuses what breaks them. A page 0 is none.
abbrev pub after : Held → List Event → Option Held
after held [] = some held
after nothing (down_read ∷ events) = after lock events
after nothing (up_read ∷ events) = none
after nothing (gets_page p ∷ events) = none
after nothing (frees_page p ∷ events) = none
after lock (down_read ∷ events) = none
after lock (up_read ∷ events) = after nothing events
after lock (gets_page p ∷ events) =
    let got = after (page p) events in
    let failed = after lock events in if p == 0 then failed else got
after lock (frees_page p ∷ events) = none
after (page q) (down_read ∷ events) = none
after (page q) (up_read ∷ events) = none
after (page q) (gets_page p ∷ events) = none
after (page q) (frees_page p ∷ events) =
    let rest = after lock events in if p == q then rest else none

after-append :
    (held : Held) (xs ys : List Event)
    → after held (xs ++ ys) ≡ elim (after held xs) [ none ↦ none | some h ↦ after h ys ]
after-append held [] ys = refl
after-append nothing (down_read ∷ xs) ys = after-append lock xs ys
after-append nothing (up_read ∷ xs) ys = refl
after-append nothing (gets_page p ∷ xs) ys = refl
after-append nothing (frees_page p ∷ xs) ys = refl
after-append lock (down_read ∷ xs) ys = refl
after-append lock (up_read ∷ xs) ys = after-append nothing xs ys
after-append lock (gets_page p ∷ xs) ys = elim (Bool-cases (p == 0)) [
  | inl e ↦ rw e (after-append lock xs ys)
  | inr e ↦ rw e (after-append (page p) xs ys)
]
after-append lock (frees_page p ∷ xs) ys = refl
after-append (page q) (down_read ∷ xs) ys = refl
after-append (page q) (up_read ∷ xs) ys = refl
after-append (page q) (gets_page p ∷ xs) ys = refl
after-append (page q) (frees_page p ∷ xs) ys = elim (Bool-cases (p == q)) [
  | inl e ↦ rw e (after-append lock xs ys)
  | inr e ↦ rw e refl
]

info_of_file-after :
    (f : Functions) (a : Answers) (offset : ℕ) → after lock (info_of_file f a offset).1 ≡ some lock
unfolding info_of_file
info_of_file-after f a offset = ground arith

info_of_area-after :
    (f : Functions) (a : Answers) (file offset : ℕ)
    → after lock (info_of_area f a file offset).1 ≡ some lock
unfolding info_of_area
info_of_area-after f a file offset = ground (arith, info_of_file-after f a offset)

info_under_lock-after :
    (f : Functions) (a : Answers) (ip : ℕ) → after lock (info_under_lock f a ip).1 ≡ some lock
unfolding info_under_lock
info_under_lock-after f a ip = ground (arith, info_of_area-after f a)

get_vma_info_str-after :
    (f : Functions) (a : Answers) (ip : ℕ)
    → after nothing (get_vma_info_str f a ip).1 ≡ some nothing
unfolding get_vma_info_str
get_vma_info_str-after f a ip = ground (
  arith,
  info_under_lock-after f a ip,
  after-append lock (info_under_lock f a ip).1 (up_read ∷ []),
)

print_entries-after :
    (f : Functions) (answers : ℕ → Answers) (i : ℕ) (entries : List ℕ)
    → after nothing (print_entries f answers i entries).1 ≡ some nothing
unfolding print_entries
print_entries-after f answers i [] = refl
print_entries-after f answers i (ip ∷ entries) = ground (
  arith,
  get_vma_info_str-after f (answers i) ip,
  print_entries-after f answers (suc i) entries,
  after-append nothing (get_vma_info_str f (answers i) ip).1
      (print_entries f answers (suc i) entries).1,
)

-- Whatever the kernel answers on the way, printing the stack of a process takes the lock of its memory
-- only when it does not hold it, gives back every page that it got before it gives back the lock, and
-- ends with neither held.
pub unwind-after :
    (f : Functions) (copy : ℕ → Option StackFrame32) (regs : Option Regs) (saved : List ℕ)
    (answers : ℕ → Answers)
    → after nothing (unwind_user_stack_standard f copy regs saved answers).1 ≡ some nothing
unfolding unwind_user_stack_standard
unwind-after f copy regs saved answers = elim (Bool-cases f.g_save_stack_trace_user) [
  | inl e ↦ rw e (print_entries-after f answers 0 _)
  | inr e ↦ rw e refl
]

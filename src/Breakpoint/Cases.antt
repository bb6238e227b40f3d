-- ===== src/Breakpoint/Cases.antt =====
-- The ways through hw_breakpoint_set_for_pid of hw_breakpoint.c.
use kpm_syscall_backtrace.Base.{
  ℕ, ◌≡◌, refl, Sum-cases, ◌⊎◌, inl, inr, Option-cases, some, List, [],
}
use kpm_syscall_backtrace.Breakpoint.{Slot, Api, Call, Errno, enomem, Result, fails}
use kpm_syscall_backtrace.Breakpoint.Set.{
  find_free, register_slot, hw_breakpoint_set_for_pid, bad_arguments, target_task,
}

module _ (api : Api) (slots : List Slot) (addr type size pid : ℕ) (desc : List ℕ)
    (pid_struct task bp : ℕ) where
  abbrev pub answer : Result × List Slot × List Call
  answer = hw_breakpoint_set_for_pid api slots addr type size pid desc pid_struct task bp

  pub set_for_pid-cases :
      ((e : Errno) × (answer ≡ (fails e, slots, [])))
      ⊎ ((i : ℕ) × (target : ℕ) × (find_free slots ≡ some i)
          × (answer ≡ register_slot slots i addr type size desc target bp))
  unfolding hw_breakpoint_set_for_pid
  set_for_pid-cases = elim (Option-cases (bad_arguments api addr type size)) [
    | inr (e, bad) ↦ rw (bad, hw_breakpoint_set_for_pid) (inl (e, refl))
    | inl fine ↦ elim (Sum-cases (target_task api pid pid_struct task)) [
      | inl (e, none_there) ↦ rw (fine, none_there, hw_breakpoint_set_for_pid) (inl (e, refl))
      | inr (target, there) ↦ elim (Option-cases (find_free slots)) [
        | inl full ↦ rw (fine, there, full, hw_breakpoint_set_for_pid) (inl (enomem, refl))
        | inr (i, free) ↦
            inr (i, target, free, rw (fine, there, free, hw_breakpoint_set_for_pid) refl)
      ]
    ]
  ]

-- ===== src/Breakpoint/Steps.antt =====
-- The breakpoint slots of hw_breakpoint.c as a state machine: the requests of the user, which the kernel
-- answers as it likes, and the hits of breakpoints, in any order.
use kpm_syscall_backtrace.Base.{ℕ, Bool, List, [], ◌++◌, ◌==◌, if◌then◌else◌, suc, ◌∷◌, ◌≡◌, some}
use kpm_syscall_backtrace.Breakpoint.{
  Slot, Api, Result, Call, registers, unregisters_user, unregisters_wide, modifies,
  hw_breakpoint_init, hw_breakpoint_clear, hw_breakpoint_clear_all,
}
use kpm_syscall_backtrace.Breakpoint.Set.{hw_breakpoint_set_for_pid}
use kpm_syscall_backtrace.Breakpoint.Hit.{hw_bp_handler}

-- A step goes from slots to slots, and makes calls.
pub data Step (api : Api) (slots : List Slot) (slots' : List Slot) (calls : List Call)
    : Type 0 where
  sets :
      (addr type size pid : ℕ) (desc : List ℕ) (pid_struct task bp : ℕ) (r : Result)
      → hw_breakpoint_set_for_pid api slots addr type size pid desc pid_struct task bp
        ≡ (r, slots', calls)
      → Step api slots slots' calls
  clears :
      (i : ℕ) (r : Result)
      → hw_breakpoint_clear api slots i ≡ (r, slots', calls)
      → Step api slots slots' calls
  clears_all : hw_breakpoint_clear_all api slots ≡ (slots', calls) → Step api slots slots' calls
  hits :
      (bp pc : ℕ) (modified : Bool)
      → hw_bp_handler api slots bp pc modified ≡ (slots', calls)
      → Step api slots slots' calls

-- What the module can come to after its initialisation, with all the calls that it has made.
pub data Reach (api : Api) : List Slot → List Call → Type 0 where
  starts : {slots : List Slot} → hw_breakpoint_init api ≡ some slots → Reach api slots []
  next :
      {slots slots' : List Slot} {calls new : List Call}
      → Reach api slots calls
      → Step api slots slots' new
      → Reach api slots' (calls ++ new)

module _ (event : ℕ) where
  -- How often the event was registered, and how often it was released.
  abbrev pub registered : List Call → ℕ
  registered [] = 0
  registered (registers bp task attr ∷ calls) =
      if bp == event then suc (registered calls) else registered calls
  registered (unregisters_user bp ∷ calls) = registered calls
  registered (unregisters_wide bp ∷ calls) = registered calls
  registered (modifies bp attr ∷ calls) = registered calls

  abbrev pub released : List Call → ℕ
  released [] = 0
  released (registers bp task attr ∷ calls) = released calls
  released (unregisters_user bp ∷ calls) =
      if bp == event then suc (released calls) else released calls
  released (unregisters_wide bp ∷ calls) =
      if bp == event then suc (released calls) else released calls
  released (modifies bp attr ∷ calls) = released calls

  -- How many enabled slots hold the event.
  abbrev pub held : List Slot → ℕ
  held [] = 0
  held (s ∷ slots) =
      if s.enabled then (if s.event == event then suc (held slots) else held slots) else held slots

-- ===== src/Breakpoint/Laws.antt =====
-- What the setting and the hits of hw_breakpoint.c do to the slots.
use kpm_syscall_backtrace.Base.{
  ℕ, zero, suc, ◌+◌, ◌%◌, ◌^◌, ◌-◌, leb, ◌==◌, ◌&&◌, ◌≡◌, ◌≢◌, refl, arith, Bool, Bool-cases, true,
  false, ◌⊎◌, inl, inr, some, List, [], ◌∷◌, ◌++◌, get_elem?, set,
}
use kpm_syscall_backtrace.Breakpoint.{
  Slot, Api, Call, modifies, Errno, Result, index, fails, returned, hw_breakpoint_get_count,
}
use kpm_syscall_backtrace.Breakpoint.Set.{
  find_free, stored_slot, register_slot, hw_breakpoint_set_for_pid,
}
use kpm_syscall_backtrace.Breakpoint.Cases.{set_for_pid-cases}
use kpm_syscall_backtrace.Breakpoint.Hit.{hit_slot, first_hit, second_hit, exec_attr, hw_bp_handler}

-- The slots before the one that is hit: none of them answers to the event.
abbrev pub Unanswered : ℕ → List Slot → Type 0
Unanswered bp [] = zero ≡ zero
Unanswered bp (x ∷ slots) = ((x.event == bp && x.enabled) ≡ false) × Unanswered bp slots

module _ (api : Api) (bp pc : ℕ) (s : Slot) (rest : List Slot) where
  pub handler-append :
      (before : List Slot) (modified : Bool)
      → Unanswered bp before
      → s.event ≡ bp
      → s.enabled ≡ true
      → hw_bp_handler api (before ++ s ∷ rest) bp pc modified
        ≡ (before ++ (hit_slot api s pc modified).0 ∷ rest, (hit_slot api s pc modified).1)
  unfolding hw_bp_handler
  handler-append [] modified quiet answers on = ground (arith, answers, on)
  handler-append (x ∷ before) modified quiet answers on =
      rw (handler-append before modified quiet.1 answers on, hw_bp_handler)
        (rw (quiet.0, hw_bp_handler) refl)

module _ (api : Api) (bp pc pc' : ℕ) (s : Slot) (before rest : List Slot) where
  -- Two hits of an enabled breakpoint at its original address, when `modify_user_hw_breakpoint` is there
  -- and succeeds, leave the slots as they were but for the count and the address of the next instruction
  -- of the first enabled slot with the event: the breakpoint went to pc + 4 and back to its original
  -- address. Both times it was made an execution breakpoint of 4 bytes, whatever its type.
  pub two_hits_return :
      Unanswered bp before
      → s.event ≡ bp
      → bp ≢ 0
      → s.enabled ≡ true
      → s.at_next ≡ false
      → api.modify_user ≡ true
      → let first = hw_bp_handler api (before ++ s ∷ rest) bp pc true in
        let second = hw_bp_handler api first.0 bp pc' true in
        let next = (pc + 4) % 2 ^ 64 in
        let s' = record s {
          hit_count = (s.hit_count + 1) % 2 ^ 32;
          next_addr = next;
          at_next = false;
        } in
        (second.0 ≡ before ++ s' ∷ rest)
        × (first.1 ++ second.1
            ≡ modifies bp (exec_attr next) ∷ modifies bp (exec_attr s.original_addr) ∷ [])
  unfolding hit_slot first_hit second_hit
  two_hits_return quiet answers real on home can =
      let next = (pc + 4) % 2 ^ 64 in
      let moved : Slot = record s {
        hit_count = (s.hit_count + 1) % 2 ^ 32;
        next_addr = next;
        at_next = true;
      } in
      let first : hit_slot api s pc true ≡ (moved, modifies bp (exec_attr next) ∷ []) =
        ground (arith, answers, real, home, can) in
      let second : hit_slot api moved pc' true
          ≡ (record moved { at_next = false }, modifies bp (exec_attr s.original_addr) ∷ []) =
        ground (arith, answers, real, can) in
      rw
        (
          handler-append api bp pc s rest before true quiet answers on,
          first,
          handler-append api bp pc' moved rest before true quiet answers on,
          second,
        )
        (refl, refl)

find_free-free :
    (slots : List Slot) (i : ℕ) (v : Slot)
    → find_free slots ≡ some i
    → v.enabled ≡ true
    → (hw_breakpoint_get_count (set slots i v) ≡ suc (hw_breakpoint_get_count slots))
      × (get_elem? (set slots i v) i ≡ some v)
unfolding find_free hw_breakpoint_get_count
find_free-free [] i v e on = cc
find_free-free (s ∷ slots) zero v e on = ground arith
find_free-free (s ∷ slots) (suc i) v e on = ground (arith, find_free-free slots i v)

-- What a request comes to: nothing changes, or one more slot is taken, and only that one changes.
abbrev pub Outcome : List Slot → ℕ → ℕ → Result × List Slot × List Call → Type 0
Outcome slots addr bp (r, slots', calls) =
    ((e : Errno) × (r ≡ fails e) × (slots' ≡ slots) × (calls ≡ []))
    ⊎ ((i : ℕ) × (v : Slot) × (r ≡ index i)
        × (slots' ≡ set slots i v)
        × (get_elem? slots' i ≡ some v)
        × (hw_breakpoint_get_count slots' ≡ suc (hw_breakpoint_get_count slots))
        × (v.enabled ≡ true)
        × (v.event ≡ bp)
        × (v.original_addr ≡ addr)
        × (v.at_next ≡ false))

module _ (api : Api) (slots : List Slot) (addr type size : ℕ) (desc : List ℕ) where
  register_slot-Outcome :
      (i task bp : ℕ)
      → find_free slots ≡ some i
      → Outcome slots addr bp (register_slot slots i addr type size desc task bp)
  unfolding register_slot
  register_slot-Outcome i task bp free = elim (Bool-cases (leb (2 ^ 64 - 4095) bp)) [
    | inl e ↦ rw (e, register_slot) (inl (returned (2 ^ 64 - bp), refl, refl, refl))
    | inr e ↦
        let v = stored_slot addr type size desc i bp task in
        let taken = find_free-free slots i v free refl in
        rw (e, register_slot) (inr (i, v, refl, refl, taken.1, taken.0, refl, refl, refl, refl))
  ]

  -- Setting a breakpoint fails, changes no slot and registers nothing, or it takes one slot that was not
  -- enabled, changes no other, and returns its index: the slot is enabled, holds the event that the
  -- kernel has returned, and waits at the address asked for.
  pub set_for_pid-Outcome :
      (pid pid_struct task bp : ℕ)
      → Outcome slots addr bp
          (hw_breakpoint_set_for_pid api slots addr type size pid desc pid_struct task bp)
  set_for_pid-Outcome pid pid_struct task bp =
      elim (set_for_pid-cases api slots addr type size pid desc pid_struct task bp) [
        | inl (e, answer) ↦ rw answer (inl (e, refl, refl, refl))
        | inr (i, target, free, answer) ↦ rw answer (register_slot-Outcome i target bp free)
      ]

-- ===== src/Breakpoint/Balance.antt =====
-- The events of hw_breakpoint.c: what was registered is held by a slot or was released.
use kpm_syscall_backtrace.Base.{
  ℕ, zero, suc, ◌+◌, ◌≡◌, ◌≢◌, refl, arith, Bool, ◌==◌, true, inl, inr, Option-cases, some, List,
  [], ◌∷◌, ◌++◌, get_elem?, set, if◌then◌else◌,
}
use kpm_syscall_backtrace.Breakpoint.{
  Slot, Api, Call, registers, unregisters_user, unregisters_wide, modifies, clear_slot, unregister,
  hw_breakpoint_clear, hw_breakpoint_clear_all,
}
use kpm_syscall_backtrace.Breakpoint.Set.{
  find_free, stored_slot, register_slot, hw_breakpoint_set_for_pid,
}
use kpm_syscall_backtrace.Breakpoint.Cases.{set_for_pid-cases}
use kpm_syscall_backtrace.Breakpoint.Hit.{hit_slot, first_hit, second_hit, give_up, hw_bp_handler}
use kpm_syscall_backtrace.Breakpoint.Steps.{registered, released, held}

module _ (event : ℕ) where
  pub registered-append :
      (xs ys : List Call) → registered event (xs ++ ys) ≡ registered event xs + registered event ys
  registered-append [] ys = omega arith
  registered-append (registers bp task attr ∷ xs) ys = ground (arith, registered-append xs ys)
  registered-append (unregisters_user bp ∷ xs) ys = registered-append xs ys
  registered-append (unregisters_wide bp ∷ xs) ys = registered-append xs ys
  registered-append (modifies bp attr ∷ xs) ys = registered-append xs ys

  pub released-append :
      (xs ys : List Call) → released event (xs ++ ys) ≡ released event xs + released event ys
  released-append [] ys = omega arith
  released-append (registers bp task attr ∷ xs) ys = released-append xs ys
  released-append (unregisters_user bp ∷ xs) ys = ground (arith, released-append xs ys)
  released-append (unregisters_wide bp ∷ xs) ys = ground (arith, released-append xs ys)
  released-append (modifies bp attr ∷ xs) ys = released-append xs ys

  -- What a slot adds to the events held.
  abbrev pub held_by : Slot → ℕ
  held_by s = held event (s ∷ [])

  held-cons : (s : Slot) (slots : List Slot) → held event (s ∷ slots) ≡ held_by s + held event slots
  held-cons s slots = ground arith

  -- The calls of a change from slots to slots account for the change of what is held.
  abbrev pub Balanced : List Slot → List Slot → List Call → Type 0
  Balanced slots slots' calls =
      held event slots + registered event calls ≡ held event slots' + released event calls

  module _ (api : Api) (wide : api.unregister_wide ≡ true) (real : event ≢ 0) where
    unregister-released :
        (s : Slot)
        → (released event (unregister api s) ≡ (if s.event == event then 1 else 0))
          × (registered event (unregister api s) ≡ 0)
    unfolding unregister
    unregister-released s = ground arith

    clear_slot-Balanced :
        (s : Slot)
        → s.enabled ≡ true
        → Balanced (s ∷ []) ((clear_slot api s).0 ∷ []) (clear_slot api s).1
    unfolding clear_slot
    clear_slot-Balanced s on = ground (arith, unregister-released s)

    hit_slot-Balanced :
        (s : Slot) (pc : ℕ) (modified : Bool)
        → s.enabled ≡ true
        → Balanced (s ∷ []) ((hit_slot api s pc modified).0 ∷ []) (hit_slot api s pc modified).1
    unfolding hit_slot first_hit second_hit give_up
    hit_slot-Balanced s pc modified on = ground (arith, unregister-released s)

    pub clear_all-Balanced :
        (slots : List Slot)
        → Balanced slots (hw_breakpoint_clear_all api slots).0 (hw_breakpoint_clear_all api slots).1
    unfolding hw_breakpoint_clear_all
    clear_all-Balanced [] = refl
    clear_all-Balanced (s ∷ slots) =
        let calls = (clear_slot api s).1 in
        let rest = (hw_breakpoint_clear_all api slots).1 in
        ground (
          arith,
          clear_all-Balanced slots,
          clear_slot-Balanced s,
          registered-append calls rest,
          released-append calls rest,
          held-cons s slots,
          held-cons (clear_slot api s).0 (hw_breakpoint_clear_all api slots).0,
        )

    pub handler-Balanced :
        (slots : List Slot) (bp pc : ℕ) (modified : Bool)
        → Balanced slots
            (hw_bp_handler api slots bp pc modified).0
            (hw_bp_handler api slots bp pc modified).1
    unfolding hw_bp_handler
    handler-Balanced [] bp pc modified = refl
    handler-Balanced (s ∷ slots) bp pc modified = ground (
      arith,
      handler-Balanced slots bp pc modified,
      hit_slot-Balanced s pc modified,
      held-cons s slots,
      held-cons s (hw_bp_handler api slots bp pc modified).0,
      held-cons (hit_slot api s pc modified).0 slots,
    )

    held-set :
        (slots : List Slot) (i : ℕ) (s v : Slot)
        → get_elem? slots i ≡ some s
        → held event (set slots i v) + held_by s ≡ held event slots + held_by v
    held-set [] i s v e = cc
    held-set (x ∷ slots) zero s v e = ground (arith, held-cons s slots, held-cons v slots)
    held-set (x ∷ slots) (suc i) s v e =
        ground (arith, held-set slots i s v, held-cons x slots, held-cons x (set slots i v))

    pub clear-Balanced :
        (slots : List Slot) (i : ℕ)
        → let r = hw_breakpoint_clear api slots i in Balanced slots r.1 r.2
    unfolding hw_breakpoint_clear
    clear-Balanced slots i = elim (Option-cases (get_elem? slots i)) [
      | inl e ↦ rw (e, hw_breakpoint_clear) refl
      | inr (s, e) ↦
          rw (e, hw_breakpoint_clear)
            (ground (arith, clear_slot-Balanced s, held-set slots i s (clear_slot api s).0 e))
    ]

    find_free-held :
        (slots : List Slot) (i : ℕ) (v : Slot)
        → find_free slots ≡ some i
        → held event (set slots i v) ≡ held event slots + held_by v
    unfolding find_free
    find_free-held [] i v e = cc
    find_free-held (s ∷ slots) zero v e = ground (arith, held-cons s slots, held-cons v slots)
    find_free-held (s ∷ slots) (suc i) v e =
        ground (arith, find_free-held slots i v, held-cons s slots, held-cons s (set slots i v))

    register_slot-Balanced :
        (slots : List Slot) (i addr type size : ℕ) (desc : List ℕ) (task bp : ℕ)
        → find_free slots ≡ some i
        → let r = register_slot slots i addr type size desc task bp in Balanced slots r.1 r.2
    unfolding register_slot
    register_slot-Balanced slots i addr type size desc task bp e =
        ground (arith, find_free-held slots i (stored_slot addr type size desc i bp task) e)

    pub set-Balanced :
        (slots : List Slot) (addr type size pid : ℕ) (desc : List ℕ) (pid_struct task bp : ℕ)
        → let r = hw_breakpoint_set_for_pid api slots addr type size pid desc pid_struct task bp in
          Balanced slots r.1 r.2
    set-Balanced slots addr type size pid desc pid_struct task bp =
        elim (set_for_pid-cases api slots addr type size pid desc pid_struct task bp) [
          | inl (e, answer) ↦ rw answer refl
          | inr (i, target, free, answer) ↦
              rw answer (register_slot-Balanced slots i addr type size desc target bp free)
        ]

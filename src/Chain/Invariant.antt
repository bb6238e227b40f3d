-- ===== src/Chain/Invariant.antt =====
-- The invariant of a hook chain, which every operation of kernel/base/hook.c on it keeps.
use kpm_syscall_backtrace.Base.{
  ℕ, suc, ◌+◌, ◌≤◌, ◌<◌, ◌≡◌, refl, arith, ltb, if◌then◌else◌, true, false, ◌⊎◌, inl, inr,
  Bool-cases, List, [], ◌∷◌, length,
}
use kpm_syscall_backtrace.Hook.Types.{HookErr, no_err, duplicated}
use kpm_syscall_backtrace.Chain.Items.{
  ready, Slot, Chain, hook_chain_num, empty_slot, is_empty, matches, add_from, hook_chain_add,
  remove_from, hook_chain_remove,
}

-- A slot is cleared, or ready and below the bound that the transit functions read.
abbrev pub SlotWf : ℕ → ℕ → Slot → Type 0
SlotWf i items_max s = (s ≡ empty_slot) ⊎ ((s.state ≡ ready) × (i < items_max))

abbrev pub SlotsWf : ℕ → ℕ → List Slot → Type 0
SlotsWf i items_max [] = Unit {0}
SlotsWf i items_max (s ∷ slots) = SlotWf i items_max s × SlotsWf (suc i) items_max slots

pub record IsWf (c : Chain) : Type 0 where
  pub size : length c.slots ≡ hook_chain_num
  pub bound : c.chain_items_max ≤ hook_chain_num
  pub slots_wf : SlotsWf 0 c.chain_items_max c.slots

SlotWf-mono : (i m n : ℕ) (s : Slot) → m ≤ n → SlotWf i m s → SlotWf i n s
SlotWf-mono i m n s h (inl e) = inl e
SlotWf-mono i m n s h (inr (r, b)) = inr (r, omega arith)

SlotsWf-mono : (i m n : ℕ) (slots : List Slot) → m ≤ n → SlotsWf i m slots → SlotsWf i n slots
SlotsWf-mono i m n [] h w = tt
SlotsWf-mono i m n (s ∷ slots) h w =
    (SlotWf-mono i m n s h w.0, SlotsWf-mono (suc i) m n slots h w.1)

module _ (before after udata : ℕ) where
  abbrev pub filled : Slot
  filled = record { state = ready; udata = udata; before = before; after = after }

  abbrev pub raised : ℕ → ℕ → ℕ
  raised items_max i = if ltb items_max (i + 1) then i + 1 else items_max

  abbrev pub kept : Slot → HookErr × List Slot × ℕ → HookErr × List Slot × ℕ
  kept s (rc, slots, items_max) = (rc, s ∷ slots, items_max)

  -- The three ways in which a round of the loop of `hook_chain_add` ends.
  pub add_from-cases :
      (i items_max : ℕ) (s : Slot) (slots : List Slot)
      → let r = add_from before after udata i items_max (s ∷ slots) in
        ((matches before after s ≡ true) × (r ≡ (duplicated, s ∷ slots, items_max)))
        ⊎ ((matches before after s ≡ false)
            × (is_empty s.state ≡ true)
            × (r ≡ (no_err, filled ∷ slots, raised items_max i)))
        ⊎ ((matches before after s ≡ false)
            × (is_empty s.state ≡ false)
            × (r ≡ kept s (add_from before after udata (suc i) items_max slots)))
  unfolding add_from
  add_from-cases i items_max s slots = elim (Bool-cases (matches before after s)) [
    | inl m ↦ inl (m, rw (m, add_from))
    | inr m ↦ elim (Bool-cases (is_empty s.state)) [
      | inl e ↦ inr (inl (m, e, rw (m, add_from) (rw (e, add_from))))
      | inr e ↦ inr (inr (m, e, rw (m, add_from) (rw (e, add_from))))
    ]
  ]

  -- What the loop of `hook_chain_add` returns keeps the invariant, and the bound only grows.
  abbrev AddWf : ℕ → ℕ → List Slot → HookErr × List Slot × ℕ → Type 0
  AddWf i items_max slots (rc, slots', items_max') =
      SlotsWf i items_max' slots'
      × (length slots' ≡ length slots)
      × (items_max ≤ items_max')
      × ((items_max' ≡ items_max) ⊎ (items_max' ≤ i + length slots))

  AddWf-kept :
      (i items_max : ℕ) (s : Slot) (slots : List Slot) (r : HookErr × List Slot × ℕ)
      → SlotWf i items_max s
      → AddWf (suc i) items_max slots r
      → AddWf i items_max (s ∷ slots) (kept s r)
  AddWf-kept i items_max s slots (rc, slots', items_max') w a =
      ((SlotWf-mono i items_max items_max' s a.2 w, a.0), omega arith, a.2, omega arith)

  AddWf-filled :
      (i items_max : ℕ) (s : Slot) (slots : List Slot)
      → SlotsWf (suc i) items_max slots
      → AddWf i items_max (s ∷ slots) (no_err, filled ∷ slots, raised items_max i)
  AddWf-filled i items_max s slots w =
      let grows : items_max ≤ raised items_max i = ground arith in
      (
        (
          inr (refl, ground arith),
          SlotsWf-mono (suc i) items_max (raised items_max i) slots grows w,
        ),
        refl,
        grows,
        ground arith,
      )

  add_from-AddWf :
      (i items_max : ℕ) (slots : List Slot)
      → SlotsWf i items_max slots
      → AddWf i items_max slots (add_from before after udata i items_max slots)
  unfolding add_from
  add_from-AddWf i items_max [] w = (tt, refl, omega arith, inl refl)
  add_from-AddWf i items_max (s ∷ slots) w = elim (add_from-cases i items_max s slots) [
    | inl (_, e) ↦ rw e (w, refl, omega arith, inl refl)
    | inr (inl (_, _, e)) ↦ rw e (AddWf-filled i items_max s slots w.1)
    | inr (inr (_, _, e)) ↦ rw e (
        AddWf-kept i items_max s slots (add_from before after udata (suc i) items_max slots) w.0
          (add_from-AddWf (suc i) items_max slots w.1))
  ]

  -- `hook_chain_add` keeps the invariant, whatever it returns.
  pub hook_chain_add-IsWf : (c : Chain) → IsWf c → IsWf (hook_chain_add c before after udata).1
  unfolding hook_chain_add
  hook_chain_add-IsWf c w =
      let a = add_from-AddWf 0 c.chain_items_max c.slots w.slots_wf in
      record { size = omega arith; bound = ground arith; slots_wf = a.0 }

module _ (before after : ℕ) where
  remove_from-SlotsWf :
      (i items_max : ℕ) (slots : List Slot)
      → SlotsWf i items_max slots
      → SlotsWf i items_max (remove_from before after slots)
        × (length (remove_from before after slots) ≡ length slots)
  unfolding remove_from
  remove_from-SlotsWf i items_max [] w = (tt, refl)
  remove_from-SlotsWf i items_max (s ∷ slots) w =
      ground (arith, remove_from-SlotsWf (suc i) items_max slots w.1)

  -- `hook_chain_remove` keeps the invariant: it clears the slot that it finds.
  pub hook_chain_remove-IsWf : (c : Chain) → IsWf c → IsWf (hook_chain_remove c before after)
  unfolding hook_chain_remove
  hook_chain_remove-IsWf c w =
      let r = remove_from-SlotsWf 0 c.chain_items_max c.slots w.slots_wf in
      record { size = omega arith; bound = w.bound; slots_wf = r.0 }

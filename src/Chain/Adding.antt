-- ===== src/Chain/Adding.antt =====
-- What `hook_chain_add` and `hook_chain_remove` of kernel/base/hook.c do to the slots.
use kpm_syscall_backtrace.Base.{
  ℕ, suc, ◌≡◌, ◌≢◌, refl, ap, arith, true, false, ◌⊎◌, inl, inr, List, [], ◌∷◌, ◌++◌,
}
use kpm_syscall_backtrace.Hook.Types.{HookErr, no_err, duplicated, chain_full}
use kpm_syscall_backtrace.Chain.Items.{
  Slot, Chain, empty_slot, is_empty, is_ready, matches, add_from, hook_chain_add, remove_from,
  hook_chain_remove,
}
use kpm_syscall_backtrace.Chain.Invariant.{SlotWf, SlotsWf, IsWf, filled, add_from-cases}

module _ (before after : ℕ) where
  -- No slot of the list has either callback.
  abbrev pub NoMatch : List Slot → Type 0
  NoMatch [] = Unit {0}
  NoMatch (s ∷ slots) = (matches before after s ≡ false) × NoMatch slots

  abbrev pub NoEmpty : List Slot → Type 0
  NoEmpty [] = Unit {0}
  NoEmpty (s ∷ slots) = (is_empty s.state ≡ false) × NoEmpty slots

  -- What an addition may do: refuse a callback that a slot has up to the first empty one, refuse for
  -- want of an empty slot, or fill the first empty slot. Only the last changes the slots.
  pub data Adds (udata : ℕ) (slots : List Slot) (rc : HookErr) (slots' : List Slot) : Type 0 where
    refuses :
        (pre : List Slot) (s : Slot) (post : List Slot)
        → rc ≡ duplicated
        → slots' ≡ slots
        → slots ≡ pre ++ s ∷ post
        → NoEmpty pre
        → matches before after s ≡ true
        → Adds udata slots rc slots'
    no_room :
        rc ≡ chain_full
        → slots' ≡ slots
        → NoEmpty slots
        → NoMatch slots
        → Adds udata slots rc slots'
    fills :
        (pre post : List Slot)
        → rc ≡ no_err
        → slots ≡ pre ++ empty_slot ∷ post
        → slots' ≡ pre ++ filled before after udata ∷ post
        → NoEmpty pre
        → NoMatch pre
        → Adds udata slots rc slots'

  empty-SlotWf :
      (i items_max : ℕ) (s : Slot) → SlotWf i items_max s → is_empty s.state ≡ true → s ≡ empty_slot
  empty-SlotWf i items_max s (inl e) h = e
  empty-SlotWf i items_max s (inr (r, b)) h = ground arith

  Adds-kept :
      (udata : ℕ) (s : Slot) (slots : List Slot) (rc : HookErr) (slots' : List Slot)
      → matches before after s ≡ false
      → is_empty s.state ≡ false
      → Adds udata slots rc slots'
      → Adds udata (s ∷ slots) rc (s ∷ slots')
  Adds-kept udata s slots rc slots' m e (refuses pre t post r same split ne hit) =
      refuses (s ∷ pre) t post r (ap (◌∷◌ s) same) (ap (◌∷◌ s) split) (e, ne) hit
  Adds-kept udata s slots rc slots' m e (no_room r same ne nm) =
      no_room r (ap (◌∷◌ s) same) (e, ne) (m, nm)
  Adds-kept udata s slots rc slots' m e (fills pre post r split split' ne nm) =
      fills (s ∷ pre) post r (ap (◌∷◌ s) split) (ap (◌∷◌ s) split') (e, ne) (m, nm)

  add_from-Adds :
      (udata i items_max : ℕ) (slots : List Slot)
      → SlotsWf i items_max slots
      → let r = add_from before after udata i items_max slots in Adds udata slots r.0 r.1
  unfolding add_from
  add_from-Adds udata i items_max [] w = no_room refl refl tt tt
  add_from-Adds udata i items_max (s ∷ slots) w =
      elim (add_from-cases before after udata i items_max s slots) [
        | inl (m, e) ↦ rw e (refuses [] s slots refl refl refl tt m)
        | inr (inl (m, h, e)) ↦ rw e (
            fills [] slots refl (ap (λ t. t ∷ slots) (empty-SlotWf i items_max s w.0 h)) refl tt tt)
        | inr (inr (m, h, e)) ↦ rw e (
            Adds-kept udata s slots (add_from before after udata (suc i) items_max slots).0
              (add_from before after udata (suc i) items_max slots).1 m h
              (add_from-Adds udata (suc i) items_max slots w.1))
      ]

  -- On a well-formed chain, `hook_chain_add` does one of three things. It returns HOOK_DUPLICATED and
  -- leaves the slots, and then some slot with no empty one before it has one of the callbacks. It
  -- returns HOOK_CHAIN_FULL and leaves the slots, and then none is empty and none has a callback. Or it
  -- succeeds and fills the first empty slot, and then no slot before that one has either callback.
  pub hook_chain_add-Adds :
      (c : Chain) (udata : ℕ)
      → IsWf c
      → let r = hook_chain_add c before after udata in Adds udata c.slots r.0 r.1.slots
  unfolding hook_chain_add
  hook_chain_add-Adds c udata w = add_from-Adds udata 0 c.chain_items_max c.slots w.slots_wf

  remove_from-first :
      (pre : List Slot) (s : Slot) (post : List Slot)
      → NoMatch pre
      → is_ready s.state ≡ true
      → matches before after s ≡ true
      → remove_from before after (pre ++ s ∷ post) ≡ pre ++ empty_slot ∷ post
  unfolding remove_from
  remove_from-first [] s post nm r m = ground arith
  remove_from-first (t ∷ pre) s post nm r m = ground (arith, remove_from-first pre s post nm.1 r m)

  filled-matches :
      (udata : ℕ)
      → (before ≢ 0) ⊎ (after ≢ 0)
      → matches before after (filled before after udata) ≡ true
  filled-matches udata h = ground arith

  remove_from-Adds :
      (udata : ℕ) (slots slots' : List Slot) (rc : HookErr)
      → (before ≢ 0) ⊎ (after ≢ 0)
      → rc ≡ no_err
      → Adds udata slots rc slots'
      → remove_from before after slots' ≡ slots
  remove_from-Adds udata slots slots' rc h e (refuses pre t post r same split ne hit) = cc
  remove_from-Adds udata slots slots' rc h e (no_room r same ne nm) = cc
  remove_from-Adds udata slots slots' rc h e (fills pre post r split split' ne nm) =
      rw (split, split')
        (remove_from-first pre (filled before after udata) post nm refl (filled-matches udata h))

  -- On a well-formed chain, the removal of callbacks that were just added, not both null, gives back
  -- every slot as it was before the addition.
  pub remove-add :
      (c : Chain) (udata : ℕ)
      → IsWf c
      → (before ≢ 0) ⊎ (after ≢ 0)
      → (hook_chain_add c before after udata).0 ≡ no_err
      → (hook_chain_remove (hook_chain_add c before after udata).1 before after).slots ≡ c.slots
  unfolding hook_chain_remove
  remove-add c udata w h e =
      let r = hook_chain_add c before after udata in
      remove_from-Adds udata c.slots r.1.slots r.0 h e (hook_chain_add-Adds c udata w)

  add_from-fills :
      (udata i items_max : ℕ) (pre post : List Slot)
      → NoEmpty pre
      → NoMatch pre
      → matches before after empty_slot ≡ false
      → let r = add_from before after udata i items_max (pre ++ empty_slot ∷ post) in
        (r.0 ≡ no_err) × (r.1 ≡ pre ++ filled before after udata ∷ post)
  unfolding add_from
  add_from-fills udata i items_max [] post ne nm m = ground arith
  add_from-fills udata i items_max (s ∷ pre) post ne nm m =
      ground (arith, add_from-fills udata (suc i) items_max pre post ne.1 nm.1 m)

  empty-no_match : matches before after empty_slot ≡ false
  empty-no_match = ground arith

  -- If the slots hold an empty one, no slot before it is empty or has either callback, and one behind
  -- it has one of them, an addition succeeds and fills the empty slot: two slots then have the callback.
  pub add_misses_duplicate :
      (c : Chain) (udata : ℕ) (pre mid : List Slot) (t : Slot) (post : List Slot)
      → c.slots ≡ pre ++ empty_slot ∷ (mid ++ t ∷ post)
      → NoEmpty pre
      → NoMatch pre
      → matches before after t ≡ true
      → let r = hook_chain_add c before after udata in
        (r.0 ≡ no_err)
        × (r.1.slots ≡ pre ++ filled before after udata ∷ (mid ++ t ∷ post))
        × (matches before after (filled before after udata) ≡ true)
  unfolding hook_chain_add
  add_misses_duplicate c udata pre mid t post split ne nm hit =
      let done =
        add_from-fills udata 0 c.chain_items_max pre (mid ++ t ∷ post) ne nm empty-no_match in
      (rw split done.0, rw split done.1, ground arith)

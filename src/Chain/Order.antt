-- ===== src/Chain/Order.antt =====
-- Which callbacks the transit functions of kernel/base/hook.c run, and in which order.
use mathlib.Core.List.{reverse, reverse-cons}
use kpm_syscall_backtrace.Base.{
  ℕ, zero, suc, ◌+◌, ◌≤◌, ◌≡◌, refl, arith, ◌==◌, if◌then◌else◌, Bool, true, false, not, inl, inr,
  Bool-cases, List, [], ◌∷◌, ◌++◌, take,
}
use kpm_syscall_backtrace.Chain.Items.{Slot, Chain, is_ready}
use kpm_syscall_backtrace.Chain.Transit.{
  Fargs, call_before, call_after, befores, call_origin, afters, transit,
}
use kpm_syscall_backtrace.Chain.Invariant.{SlotsWf, IsWf}

-- The abstract chain: its ready slots, in order.
abbrev pub ready_slots : List Slot → List Slot
ready_slots [] = []
ready_slots (s ∷ slots) = if is_ready s.state then s ∷ ready_slots slots else ready_slots slots

-- No ready slot lies at the bound or behind it.
ready_slots-take :
    (i n items_max : ℕ) (slots : List Slot)
    → SlotsWf i items_max slots
    → items_max ≤ i + n
    → ready_slots (take n slots) ≡ ready_slots slots
ready_slots-take i zero items_max [] w h = refl
ready_slots-take i zero items_max (s ∷ slots) w h =
    ground (arith, ready_slots-take (suc i) zero items_max slots w.1)
ready_slots-take i (suc n) items_max [] w h = refl
ready_slots-take i (suc n) items_max (s ∷ slots) w h =
    ground (arith, ready_slots-take (suc i) n items_max slots w.1)

if_not {ℓ} : {A : Type ℓ} (b : Bool) (x y : A) → (if not b then x else y) ≡ (if b then y else x)
if_not true x y = refl
if_not false x y = refl

module _ {ℓ} {W : Type ℓ} (call : ℕ → ℕ → Fargs × W → Fargs × W) (origin : List ℕ → W → ℕ × W) where
  -- The callbacks that `pick` names, one after the other, a null one passed over.
  abbrev pub calls : (Slot → ℕ) → List Slot → Fargs × W → Fargs × W
  calls pick [] w = w
  calls pick (s ∷ slots) w = calls pick slots (if pick s == 0 then w else call (pick s) s.udata w)

  -- What the original makes of the arguments and the return value: with `skip_origin` set it is not
  -- called; otherwise its value is the return value.
  abbrev pub original : Fargs × W → Fargs × W
  original (f, w) =
      let (ret, w') = origin f.args w in
      if f.skip_origin then (f, w) else (record f { ret = ret }, w')

  call_origin-original : (w : Fargs × W) → call_origin call origin w ≡ original w
  unfolding call_origin
  call_origin-original (f, w) = refl

  call_before-ready :
      (s : Slot) (w : Fargs × W)
      → is_ready s.state ≡ true
      → call_before call origin s w ≡ calls (λ t. t.before) (s ∷ []) w
  unfolding call_before
  call_before-ready s w e = rw (e, call_before) (if_not (s.before == 0) _ _)

  call_before-passed :
      (s : Slot) (w : Fargs × W) → is_ready s.state ≡ false → call_before call origin s w ≡ w
  unfolding call_before
  call_before-passed s w e = rw (e, call_before) refl

  call_after-ready :
      (s : Slot) (w : Fargs × W)
      → is_ready s.state ≡ true
      → call_after call origin s w ≡ calls (λ t. t.after) (s ∷ []) w
  unfolding call_after
  call_after-ready s w e = rw (e, call_after) (if_not (s.after == 0) _ _)

  call_after-passed :
      (s : Slot) (w : Fargs × W) → is_ready s.state ≡ false → call_after call origin s w ≡ w
  unfolding call_after
  call_after-passed s w e = rw (e, call_after) refl

  calls-append :
      (pick : Slot → ℕ) (xs ys : List Slot) (w : Fargs × W)
      → calls pick (xs ++ ys) w ≡ calls pick ys (calls pick xs w)
  calls-append pick [] ys w = refl
  calls-append pick (x ∷ xs) ys w = calls-append pick xs ys _

  befores-ready :
      (slots : List Slot) (w : Fargs × W)
      → befores call origin slots w ≡ calls (λ t. t.before) (ready_slots slots) w
  unfolding befores
  befores-ready [] w = refl
  befores-ready (s ∷ slots) w = elim (Bool-cases (is_ready s.state)) [
    | inl e ↦
        rw (call_before-ready s w e, e) (befores-ready slots (calls (λ t. t.before) (s ∷ []) w))
    | inr e ↦ rw (call_before-passed s w e, e) (befores-ready slots w)
  ]

  afters-ready :
      (slots : List Slot) (w : Fargs × W)
      → afters call origin slots w ≡ calls (λ t. t.after) (reverse (ready_slots slots)) w
  unfolding afters
  afters-ready [] w = refl
  afters-ready (s ∷ slots) w = elim (Bool-cases (is_ready s.state)) [
    | inl e ↦ rw (
      call_after-ready s (afters call origin slots w) e,
      e,
      afters-ready slots w,
      reverse-cons,
      calls-append,
    )
    | inr e ↦ rw (call_after-passed s (afters call origin slots w) e, e) (afters-ready slots w)
  ]

  -- A transit function on a well-formed chain runs the `before` callbacks of the ready slots in order,
  -- then the original unless a callback has asked to skip it, then the `after` callbacks of the ready
  -- slots in reverse order, and returns what is then the return value: the bound that its loops read
  -- leaves no ready slot out.
  pub transit-ready_slots :
      (c : Chain) (f : Fargs) (w : W)
      → IsWf c
      → let items = ready_slots c.slots in
        let (f', w') =
          calls (λ t. t.after) (reverse items) (original (calls (λ t. t.before) items (f, w))) in
        transit call origin c f w ≡ (f'.ret, w')
  unfolding transit
  transit-ready_slots c f w wf = rw (
    befores-ready,
    call_origin-original,
    afters-ready,
    ready_slots-take 0 c.chain_items_max c.chain_items_max c.slots wf.slots_wf (omega arith),
  )

-- ===== src/Chain/Transit.antt =====
-- kernel/base/hook.c, _transit0 to _transit12: the function that a hooked function is replaced by.
-- It runs the `before` callbacks of the ready slots in order, the original, and the `after` callbacks in
-- reverse order.
use kpm_syscall_backtrace.Base.{ℕ, ◌==◌, if◌then◌else◌, Bool, false, not, ◌&&◌, List, [], ◌∷◌, take}
use kpm_syscall_backtrace.Chain.Items.{Slot, Chain, is_ready}

-- `hook_fargs0_t` to `hook_fargs12_t`, without the pointer to the chain: the arguments, the return
-- value, the flag and the local data, which the callbacks may change.
pub record Fargs : Type 0 where
  pub skip_origin : Bool
  pub args : List ℕ
  pub ret : ℕ
  pub local : List ℕ

-- The callbacks and the original function are code outside of the chain: `call` runs the callback at an
-- address with its datum on the arguments, in a world `W` that it may change, and `origin` the
-- relocated original on its arguments.
module _ {ℓ} {W : Type ℓ} (call : ℕ → ℕ → Fargs × W → Fargs × W) (origin : List ℕ → W → ℕ × W) where
  -- The body of the loops: a slot that is not ready, or has no such callback, is passed over.
  unfoldable pub call_before : Slot → Fargs × W → Fargs × W
  call_before s w = if is_ready s.state && not (s.before == 0) then call s.before s.udata w else w

  unfoldable pub call_after : Slot → Fargs × W → Fargs × W
  call_after s w = if is_ready s.state && not (s.after == 0) then call s.after s.udata w else w

  -- `for (i = 0; i < chain_items_max; i++)`
  unfoldable pub befores : List Slot → Fargs × W → Fargs × W
  befores [] w = w
  befores (s ∷ slots) w = befores slots (call_before s w)

  -- `for (i = chain_items_max - 1; i >= 0; i--)`
  unfoldable pub afters : List Slot → Fargs × W → Fargs × W
  afters [] w = w
  afters (s ∷ slots) w = call_after s (afters slots w)

  -- The call of the original between the loops.
  unfoldable pub call_origin : Fargs × W → Fargs × W
  call_origin (f, w) =
      if f.skip_origin
      then (f, w)
      else (let (ret, w') = origin f.args w in (record f { ret = ret }, w'))

  -- What the four functions share. The original reads as many arguments as `args` holds.
  unfoldable pub transit : Chain → Fargs → W → ℕ × W
  transit chain fargs w =
      let slots = take chain.chain_items_max chain.slots in
      let (f, w') = afters slots (call_origin (befores slots (fargs, w))) in (f.ret, w')

  -- The four functions, with what the fields that they do not set hold on the stack.
  unfoldable pub transit0 : Chain → ℕ → List ℕ → W → ℕ × W
  unfolding transit
  transit0 chain ret local w =
      transit chain (record { skip_origin = false; args = []; ret = ret; local = local }) w

  unfoldable pub transit4 : Chain → ℕ → ℕ → ℕ → ℕ → ℕ → List ℕ → W → ℕ × W
  unfolding transit
  transit4 chain arg0 arg1 arg2 arg3 ret local w =
      let args = arg0 ∷ arg1 ∷ arg2 ∷ arg3 ∷ [] in
      transit chain (record { skip_origin = false; args = args; ret = ret; local = local }) w

  unfoldable pub transit8 : Chain → ℕ → ℕ → ℕ → ℕ → ℕ → ℕ → ℕ → ℕ → ℕ → List ℕ → W → ℕ × W
  unfolding transit
  transit8 chain arg0 arg1 arg2 arg3 arg4 arg5 arg6 arg7 ret local w =
      let args = arg0 ∷ arg1 ∷ arg2 ∷ arg3 ∷ arg4 ∷ arg5 ∷ arg6 ∷ arg7 ∷ [] in
      transit chain (record { skip_origin = false; args = args; ret = ret; local = local }) w

  unfoldable pub transit12 :
      Chain → ℕ → ℕ → ℕ → ℕ → ℕ → ℕ → ℕ → ℕ → ℕ → ℕ → ℕ → ℕ → ℕ → List ℕ → W → ℕ × W
  unfolding transit
  transit12 chain arg0 arg1 arg2 arg3 arg4 arg5 arg6 arg7 arg8 arg9 arg10 arg11 ret local w =
      let args =
        arg0 ∷ arg1 ∷ arg2 ∷ arg3 ∷ arg4 ∷ arg5 ∷ arg6 ∷ arg7 ∷ arg8 ∷ arg9 ∷ arg10 ∷ arg11 ∷ [] in
      transit chain (record { skip_origin = false; args = args; ret = ret; local = local }) w

-- ===== src/Breakpoint/Hit.antt =====
-- hw_bp_handler of hw_breakpoint.c, the callback of a breakpoint: a first hit moves the breakpoint to the
-- next instruction, a second one moves it back.
use kpm_syscall_backtrace.Base.{
  ℕ, ◌+◌, ◌%◌, ◌^◌, ◌==◌, if◌then◌else◌, Bool, true, false, not, ◌&&◌, List, [], ◌∷◌,
}
use kpm_syscall_backtrace.Breakpoint.{Slot, Api, Attr, Call, modifies, bp_x, unregister}

-- The attributes that the handler gives a moved breakpoint.
abbrev pub exec_attr : ℕ → Attr
exec_attr addr = record { bp_addr = addr; bp_type = bp_x; bp_len = 4 }

-- The fallback: the breakpoint is given up, if there is a function for it.
unfoldable pub give_up : Api → Slot → Slot × List Call
unfolding unregister
give_up api s =
    if api.unregister_wide
    then (record s { enabled = false; event = 0; task = 0 }, unregister api s)
    else (s, [])

-- `modified` is whether `modify_user_hw_breakpoint` returns 0. The count is an `int`.
unfoldable pub first_hit : Api → Slot → ℕ → Bool → Slot × List Call
unfolding give_up
first_hit api s pc modified =
    let counted = record s { hit_count = (s.hit_count + 1) % 2 ^ 32 } in
    let next = (pc + 4) % 2 ^ 64 in
    let moved = record counted { next_addr = next } in
    let given_up = give_up api moved in
    let call = modifies s.event (exec_attr next) in
    if api.modify_user && not (s.event == 0)
    then if modified
      then (record moved { at_next = true }, call ∷ [])
      else (given_up.0, call ∷ given_up.1)
    else if s.event == 0
    then (counted, [])
    else give_up api counted

unfoldable pub second_hit : Api → Slot → Bool → Slot × List Call
second_hit api s modified =
    if api.modify_user && not (s.event == 0)
    then (
      if modified then record s { at_next = false } else s,
      modifies s.event (exec_attr s.original_addr) ∷ [],
    )
    else (s, [])

unfoldable pub hit_slot : Api → Slot → ℕ → Bool → Slot × List Call
unfolding first_hit second_hit
hit_slot api s pc modified =
    if s.at_next then second_hit api s modified else first_hit api s pc modified

-- The loop for the first enabled slot with the event.
unfoldable pub hw_bp_handler : Api → List Slot → ℕ → ℕ → Bool → List Slot × List Call
unfolding hit_slot
hw_bp_handler api [] bp pc modified = ([], [])
hw_bp_handler api (s ∷ slots) bp pc modified =
    let (s', calls) = hit_slot api s pc modified in
    let (slots', rest) = hw_bp_handler api slots bp pc modified in
    if s.event == bp && s.enabled then (s' ∷ slots, calls) else (s ∷ slots', rest)

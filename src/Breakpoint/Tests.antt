-- ===== src/Breakpoint/Tests.antt =====
-- hw_breakpoint.c on small inputs, and the theorems about it there.
use kpm_syscall_backtrace.Base.{◌+◌, ◌≡◌, refl, arith, true, List, [], ◌∷◌, ◌++◌, replicate}
use kpm_syscall_backtrace.Breakpoint.{
  Slot, Api, Attr, registers, modifies, einval, index, fails, init_slot, hw_breakpoint_init,
  max_hw_breakpoints, hw_breakpoint_clear_all, unregisters_user,
}
use kpm_syscall_backtrace.Breakpoint.Set.{stored_slot, hw_breakpoint_set_for_pid}
use kpm_syscall_backtrace.Breakpoint.Hit.{exec_attr, hw_bp_handler}
use kpm_syscall_backtrace.Breakpoint.Steps.{
  sets, clears_all, hits, Reach, starts, next, registered, released, held,
}
use kpm_syscall_backtrace.Breakpoint.Events.{Reach-accounted}

abbrev api : Api
api = record {
  register_wide = true;
  register_user = true;
  unregister_wide = true;
  unregister_user = true;
  modify_user = true;
  find_vpid = true;
  pid_task = true;
}

-- A breakpoint on the execution at 4096, for a task, with the event 77.
abbrev armed : Slot
armed = stored_slot 4096 0 2 (104 ∷ 105 ∷ []) 0 77 9

abbrev empty : List Slot
empty = replicate max_hw_breakpoints init_slot

abbrev one_set : List Slot
one_set = armed ∷ replicate 3 init_slot

abbrev attr_4096 : Attr
attr_4096 = record { bp_addr = 4096; bp_type = 4; bp_len = 4 }

set_first :
    hw_breakpoint_set_for_pid api empty 4096 0 2 1234 (104 ∷ 105 ∷ []) 5 9 77
    ≡ (index 0, one_set, registers 77 9 attr_4096 ∷ [])
unfolding hw_breakpoint_set_for_pid
set_first = refl

set_null_is_refused :
    hw_breakpoint_set_for_pid api empty 0 0 2 0 [] 0 0 77 ≡ (fails einval, empty, [])
unfolding hw_breakpoint_set_for_pid
set_null_is_refused = refl

abbrev moved : Slot
moved = record armed { hit_count = 1; next_addr = 4100; at_next = true }

two_hits :
    (hw_bp_handler api one_set 77 4096 true
      ≡ (moved ∷ replicate 3 init_slot, modifies 77 (exec_attr 4100) ∷ []))
    × ((hw_bp_handler api (moved ∷ replicate 3 init_slot) 77 4100 true).0
        ≡ record armed { hit_count = 1; next_addr = 4100 } ∷ replicate 3 init_slot)
unfolding hw_bp_handler
two_hits = (refl, refl)

cleared : (hw_breakpoint_clear_all api one_set).1 ≡ unregisters_user 77 ∷ []
unfolding hw_breakpoint_clear_all
cleared = refl

-- A run: a breakpoint is set, hit, and cleared.
run : Reach api (hw_breakpoint_clear_all api (moved ∷ replicate 3 init_slot)).0 (
    (([] ++ registers 77 9 attr_4096 ∷ []) ++ modifies 77 (exec_attr 4100) ∷ [])
    ++ (hw_breakpoint_clear_all api (moved ∷ replicate 3 init_slot)).1)
unfolding hw_breakpoint_init
run =
    next
      (next (next (starts refl) (sets 4096 0 2 1234 (104 ∷ 105 ∷ []) 5 9 77 (index 0) set_first))
        (hits 77 4096 true two_hits.0))
      (clears_all refl)

Reach-accounted_example :
    let slots = moved ∷ replicate 3 init_slot in
    let calls =
      (([] ++ registers 77 9 attr_4096 ∷ []) ++ modifies 77 (exec_attr 4100) ∷ [])
      ++ (hw_breakpoint_clear_all api slots).1 in
    registered 77 calls ≡ released 77 calls + held 77 (hw_breakpoint_clear_all api slots).0
Reach-accounted_example = Reach-accounted 77 (ground arith) api run

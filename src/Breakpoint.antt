-- ===== src/Breakpoint.antt =====
-- kpms/demo_accessOffstinlineHook/hw_breakpoint.c and hw_breakpoint.h: the breakpoint slots of the
-- module. The parallel arrays are one list of slots; NULL is 0. What a function of the kernel answers is
-- an argument, and the calls of it are the operation's output. An `int` is a number below 2 ^ 32, so a
-- negative one is larger than every bound that it is compared with.
pub mod Set
pub mod Hit
pub mod Cases
pub mod Steps
pub mod Balance
pub mod Events
pub mod Laws
mod Tests
use kpm_syscall_backtrace.Base.{
  ℕ, zero, suc, ◌+◌, ◌*◌, ◌%◌, ◌^◌, ◌==◌, leb, if◌then◌else◌, Bool, true, false, not, ◌&&◌, Option,
  none, some, List, [], ◌∷◌, ◌++◌, get_elem?, set, replicate,
}

abbrev pub max_hw_breakpoints : ℕ
max_hw_breakpoints = 4

-- `struct hw_breakpoint`, with the entries of `bp_events`, `bp_tasks`, `bp_hw_slot`,
-- `bp_at_next_instruction`, `bp_original_addr` and `bp_next_addr` for it. `none` is -1.
pub record Slot : Type 0 where
  pub addr : ℕ
  pub type : ℕ
  pub size : ℕ
  pub enabled : Bool
  pub hit_count : ℕ
  pub description : List ℕ
  pub event : ℕ
  pub task : ℕ
  pub hw_slot : Option ℕ
  pub at_next : Bool
  pub original_addr : ℕ
  pub next_addr : ℕ

-- The functions that `hw_breakpoint_init` has found: false is a null pointer.
pub record Api : Type 0 where
  pub register_wide : Bool
  pub register_user : Bool
  pub unregister_wide : Bool
  pub unregister_user : Bool
  pub modify_user : Bool
  pub find_vpid : Bool
  pub pid_task : Bool

-- The fields of `perf_event_attr` that the calls differ in.
pub record Attr : Type 0 where
  pub bp_addr : ℕ
  pub bp_type : ℕ
  pub bp_len : ℕ

-- A registration carries the event that the kernel has returned, and the task, 0 for all.
pub data Call : Type 0 where
  registers : ℕ → ℕ → Attr → Call
  unregisters_user unregisters_wide : ℕ → Call
  modifies : ℕ → Attr → Call

pub data Errno : Type 0 where
  enosys einval esrch enomem enoent efault : Errno
  returned : ℕ → Errno

-- A value that is not negative, or an error.
pub data Result : Type 0 where
  index : ℕ → Result
  fails : Errno → Result

abbrev pub bp_x : ℕ
bp_x = 4

-- A slot as `hw_breakpoint_init` leaves it: HW_BP_TYPE_EXEC and HW_BP_SIZE_4.
abbrev pub init_slot : Slot
init_slot = record {
  addr = 0;
  type = 0;
  size = 2;
  enabled = false;
  hit_count = 0;
  description = [];
  event = 0;
  task = 0;
  hw_slot = none;
  at_next = false;
  original_addr = 0;
  next_addr = 0;
}

-- `hw_breakpoint_init`, with the functions that the kernel has; `none` is -1.
unfoldable pub hw_breakpoint_init : Api → Option (List Slot)
hw_breakpoint_init api =
    if api.register_wide && api.unregister_wide
    then some (replicate max_hw_breakpoints init_slot)
    else none

-- The call that releases the event of a slot. Without `unregister_wide` there is none for an event of
-- all tasks.
unfoldable pub unregister : Api → Slot → List Call
unregister api s =
    if not (s.task == 0) && api.unregister_user
    then unregisters_user s.event ∷ []
    else if api.unregister_wide
    then unregisters_wide s.event ∷ []
    else []

-- `hw_breakpoint_clear` on its slot.
unfoldable pub clear_slot : Api → Slot → Slot × List Call
unfolding unregister
clear_slot api s =
    let cleared = record s { enabled = false; addr = 0; hit_count = 0 } in
    if s.event == 0
    then (cleared, [])
    else (record cleared { event = 0; task = 0 }, unregister api s)

-- `hw_breakpoint_clear`: 0, or an error.
unfoldable pub hw_breakpoint_clear : Api → List Slot → ℕ → Result × List Slot × List Call
unfolding clear_slot
hw_breakpoint_clear api slots i = elim (get_elem? slots i) [
  | none ↦ (fails einval, slots, [])
  | some s ↦
      let (s', calls) = clear_slot api s in
      if s.enabled then (index 0, set slots i s', calls) else (fails enoent, slots, [])
]

unfoldable pub hw_breakpoint_clear_all : Api → List Slot → List Slot × List Call
unfolding clear_slot
hw_breakpoint_clear_all api [] = ([], [])
hw_breakpoint_clear_all api (s ∷ slots) =
    let (s', calls) = clear_slot api s in
    let (slots', rest) = hw_breakpoint_clear_all api slots in
    if s.enabled then (s' ∷ slots', calls ++ rest) else (s ∷ slots', rest)

unfoldable pub hw_breakpoint_get : List Slot → ℕ → Option Slot
hw_breakpoint_get slots i = get_elem? slots i

unfoldable pub hw_breakpoint_get_count : List Slot → ℕ
hw_breakpoint_get_count [] = 0
hw_breakpoint_get_count (s ∷ slots) =
    let rest = hw_breakpoint_get_count slots in if s.enabled then suc rest else rest

-- ===== src/Breakpoint/Set.antt =====
-- hw_breakpoint_set_for_pid of hw_breakpoint.c: the registration of a breakpoint.
use kpm_syscall_backtrace.Base.{
  ℕ, zero, suc, ◌-◌, ◌^◌, ◌==◌, leb, ltb, if◌then◌else◌, Bool, true, false, not, ◌&&◌, ◌||◌, Option,
  none, some, List, [], ◌∷◌, set, take, ◌⊎◌, inl, inr,
}
use kpm_syscall_backtrace.Breakpoint.{
  Slot, Api, Attr, Call, registers, Errno, enosys, einval, esrch, enomem, returned, Result, index,
  fails,
}

-- HW_BREAKPOINT_X, HW_BREAKPOINT_W, HW_BREAKPOINT_R and HW_BREAKPOINT_RW
unfoldable pub convert_type : ℕ → ℕ
convert_type type = if type == 0 then 4 else if type == 1 then 2 else if type == 2 then 1 else 3

unfoldable pub convert_size : ℕ → ℕ
convert_size size = if size == 0 then 1 else if size == 1 then 2 else if size == 2 then 4 else 8

-- An `int` that is greater than 0.
abbrev pub is_positive : ℕ → Bool
is_positive n = not (n == 0) && ltb n (2 ^ 31)

-- The task for a pid, from what `find_vpid` and `pid_task` return; 0 for all tasks.
unfoldable pub target_task : Api → ℕ → ℕ → ℕ → Errno ⊎ ℕ
target_task api pid pid_struct task =
    if not (is_positive pid)
    then inr 0
    else if not api.register_user || not (api.find_vpid && api.pid_task)
    then inl enosys
    else if pid_struct == 0 || task == 0
    then inl esrch
    else inr task

-- The loop that looks for a slot that is not enabled.
unfoldable pub find_free : List Slot → Option ℕ
find_free [] = none
find_free (s ∷ slots) =
    let rest = find_free slots in
    if s.enabled then (elim rest [ none ↦ none | some i ↦ some (suc i) ]) else some zero

-- The slot as it is stored. `strncpy` keeps the first 127 bytes of a description.
abbrev pub stored_slot : ℕ → ℕ → ℕ → List ℕ → ℕ → ℕ → ℕ → Slot
stored_slot addr type size desc i event task = record {
  addr = addr;
  type = type;
  size = size;
  enabled = true;
  hit_count = 0;
  description = take 127 desc;
  event = event;
  task = task;
  hw_slot = some i;
  at_next = false;
  original_addr = addr;
  next_addr = 0;
}

-- What `(unsigned long)bp >= (unsigned long)-4095` tests.
abbrev pub is_err : ℕ → Bool
is_err bp = leb (2 ^ 64 - 4095) bp

-- The registration in slot `i`, which the kernel answers with `bp`.
unfoldable pub register_slot :
    List Slot → ℕ → ℕ → ℕ → ℕ → List ℕ → ℕ → ℕ → Result × List Slot × List Call
unfolding convert_type convert_size
register_slot slots i addr type size desc task bp =
    let attr : Attr = record {
      bp_addr = addr;
      bp_type = convert_type type;
      bp_len = convert_size size;
    } in
    if is_err bp then (fails (returned (2 ^ 64 - bp)), slots, []) else (
      index i,
      set slots i (stored_slot addr type size desc i bp task),
      registers bp task attr ∷ [],
    )

-- The checks of the arguments.
unfoldable pub bad_arguments : Api → ℕ → ℕ → ℕ → Option Errno
bad_arguments api addr type size =
    if not api.register_wide && not api.register_user
    then some enosys
    else if ltb 3 type || ltb 3 size || addr == 0
    then some einval
    else none

-- `pid_struct`, `task` and `bp` are what `find_vpid`, `pid_task` and the registration return. A
-- registration that the kernel refuses is no call of the output.
unfoldable pub hw_breakpoint_set_for_pid :
    Api → List Slot → ℕ → ℕ → ℕ → ℕ → List ℕ → ℕ → ℕ → ℕ → Result × List Slot × List Call
unfolding bad_arguments target_task find_free register_slot
hw_breakpoint_set_for_pid api slots addr type size pid desc pid_struct task bp =
    elim (bad_arguments api addr type size) [
      | some e ↦ (fails e, slots, [])
      | none ↦ elim (target_task api pid pid_struct task) [
        | inl e ↦ (fails e, slots, [])
        | inr target ↦ elim (find_free slots) [
          | none ↦ (fails enomem, slots, [])
          | some i ↦ register_slot slots i addr type size desc target bp
        ]
      ]
    ]

unfoldable pub hw_breakpoint_set :
    Api → List Slot → ℕ → ℕ → ℕ → List ℕ → ℕ → Result × List Slot × List Call
unfolding hw_breakpoint_set_for_pid
hw_breakpoint_set api slots addr type size desc bp =
    hw_breakpoint_set_for_pid api slots addr type size 0 desc 0 0 bp

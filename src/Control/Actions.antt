-- ===== src/Control/Actions.antt =====
-- The commands of accessOffstinlineHook.c that have an argument.
use kpm_syscall_backtrace.Base.{
  c_string, ℕ, suc, ◌-◌, ◌==◌, leb, ltb, if◌then◌else◌, true, not, ◌||◌, List, [], set, take, drop,
  codes,
}
use kpm_syscall_backtrace.Breakpoint.{
  Slot, Call, einval, enomem, Result, index, fails, hw_breakpoint_clear,
}
use kpm_syscall_backtrace.Breakpoint.Set.{is_positive, hw_breakpoint_set, hw_breakpoint_set_for_pid}
use kpm_syscall_backtrace.Process.Hex.{process_memory_read_hex}
use kpm_syscall_backtrace.Control.{FilterEntry, State, max_filters, max_name_len}
use kpm_syscall_backtrace.Control.Parse.{parse_decimal}
use kpm_syscall_backtrace.Control.Filter.{begins}
use kpm_syscall_backtrace.Control.Reply.{
  Reply, says, added_name, added_pid, set_for_pid, set_system_wide, not_set, cleared, not_cleared,
  memory, no_memory, Module, World, Done, says_only, refuses, with_state,
}
use kpm_syscall_backtrace.Control.Args.{BpSpec, parse_bp, parse_mem}

-- A filter goes to the first entry that is not counted.
abbrev pub append_filter : State → FilterEntry → State
append_filter s f = record s {
  filters = set s.filters s.filter_count f;
  filter_count = suc s.filter_count;
}

unfoldable pub run_add_filter : Module → List ℕ → Done
unfolding parse_decimal begins
run_add_filter m filter_spec =
    let s = m.state in
    let name = c_string (drop 5 filter_spec) in
    let pid = (parse_decimal 0 (drop 4 filter_spec)).0 in
    let named : FilterEntry = record {
      name = take (max_name_len - 1) name;
      pid = 0;
      active = true;
    } in
    let numbered : FilterEntry = record { name = []; pid = pid; active = true } in
    if leb max_filters s.filter_count
    then refuses m (says (codes "Error: Maximum filters reached")) enomem
    else if begins filter_spec (codes "name:")
    then says_only (with_state m (append_filter s named)) (added_name name)
    else if begins filter_spec (codes "pid:")
    then if is_positive pid
      then says_only (with_state m (append_filter s numbered)) (added_pid pid)
      else refuses m (says (codes "Error: Invalid PID")) einval
    else refuses m (says (codes "Error: Invalid filter format")) einval

-- The reply to what setting a breakpoint returned.
unfoldable pub bp_set_reply : BpSpec → Result → Reply
bp_set_reply spec (index i) =
    if is_positive spec.pid then set_for_pid i spec.addr spec.pid else set_system_wide i spec.addr
bp_set_reply spec (fails e) = not_set e

-- `ret` stays 0 unless the breakpoint was not set.
abbrev pub ret_of : Result → Result
ret_of (index i) = index 0
ret_of (fails e) = fails e

-- The call that sets the breakpoint: for a process, or system-wide.
unfoldable pub set_request : World → List Slot → BpSpec → Result × List Slot × List Call
unfolding hw_breakpoint_set
set_request w slots spec =
    if is_positive spec.pid
    then hw_breakpoint_set_for_pid w.api slots spec.addr spec.type spec.size spec.pid spec.desc
        w.pid_struct w.task w.bp
    else hw_breakpoint_set w.api slots spec.addr spec.type spec.size spec.desc w.bp

unfoldable pub finish_set : Module → BpSpec → Result × List Slot × List Call → Done
unfolding bp_set_reply
finish_set m spec (r, slots, calls) =
    (record m { slots = slots }, bp_set_reply spec r, ret_of r, calls)

unfoldable pub run_bp_set : World → Module → List ℕ → Done
unfolding parse_bp set_request finish_set
run_bp_set w m bp_spec =
    let spec = parse_bp bp_spec in
    if spec.addr == 0
    then refuses m (says (codes "Error: Invalid address")) einval
    else finish_set m spec (set_request w m.slots spec)

unfoldable pub bp_clear_reply : ℕ → Result → Reply
bp_clear_reply idx (index i) = cleared idx
bp_clear_reply idx (fails e) = not_cleared idx e

unfoldable pub finish_clear : Module → ℕ → Result × List Slot × List Call → Done
unfolding bp_clear_reply
finish_clear m idx (r, slots, calls) =
    (record m { slots = slots }, bp_clear_reply idx r, ret_of r, calls)

unfoldable pub run_bp_clear : World → Module → List ℕ → Done
unfolding parse_decimal finish_clear hw_breakpoint_clear
run_bp_clear w m idx_str =
    let idx = (parse_decimal 0 idx_str).0 in
    finish_clear m idx (hw_breakpoint_clear w.api m.slots idx)

unfoldable pub mem_read_reply : ℕ → ℕ → Result × (ℕ → ℕ) → Reply × Result
mem_read_reply pid addr (index n, hex) = (memory n pid addr hex, index 0)
mem_read_reply pid addr (fails e, hex) = (no_memory pid addr e, fails e)

unfoldable pub run_mem_read : World → Module → List ℕ → Done
unfolding parse_mem mem_read_reply process_memory_read_hex
run_mem_read w m mem_spec =
    let (pid, addr, size) = parse_mem mem_spec in
    let (reply, ret) =
      mem_read_reply pid addr
        (process_memory_read_hex w.memory w.answers addr true w.hex_buf 1024 size w.bytes) in
    if not (is_positive pid) || addr == 0
    then refuses m (says (codes "Error: Invalid PID or address")) einval
    else if not (is_positive size) || ltb 256 size
    then refuses m (says (codes "Error: Invalid size (1-256)")) einval
    else (m, reply, ret, [])

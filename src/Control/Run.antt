-- ===== src/Control/Run.antt =====
-- kpm_control of accessOffstinlineHook.c: what the commands do, and what is copied to the user.
use kpm_syscall_backtrace.Base.{
  ℕ, if◌then◌else◌, Bool, true, false, ◌&&◌, Option, none, some, List, [], ◌∷◌, ◌++◌, map, take,
  codes,
}
use kpm_syscall_backtrace.Breakpoint.{
  Call, einval, efault, Result, index, fails, hw_breakpoint_clear_all,
}
use kpm_syscall_backtrace.Breakpoint.Set.{is_positive}
use kpm_syscall_backtrace.Control.{FilterEntry}
use kpm_syscall_backtrace.Control.Command.{
  Command, get_status, enable, disable, enable_access, disable_access, enable_openat,
  disable_openat, enable_kill, disable_kill, reset_counters, set_whitelist, set_blacklist,
  clear_filters, add_filter, bp_set, bp_clear, bp_clear_all, bp_verbose_on, bp_verbose_off, bp_list,
  mem_read, help, unknown, command_of,
}
use kpm_syscall_backtrace.Control.Reply.{
  Reply, says, status, breakpoints, no_command, help_text, Module, World, Done, says_only, refuses,
  with_state,
}
use kpm_syscall_backtrace.Control.Actions.{run_add_filter, run_bp_set, run_bp_clear, run_mem_read}

-- The entries of clear_filters.
abbrev pub clear_entry : FilterEntry → FilterEntry
clear_entry f = record { name = []; pid = 0; active = false }

-- What a command does.
unfoldable pub run : World → Module → Command → Done
unfolding run_add_filter run_bp_set run_bp_clear run_mem_read hw_breakpoint_clear_all
run w m get_status = says_only m (status m.state)
run w m enable =
    says_only (with_state m (record m.state { hook_enabled = true })) (says (codes "Hooks enabled"))
run w m disable =
    says_only (with_state m (record m.state { hook_enabled = false }))
      (says (codes "Hooks disabled"))
run w m enable_access =
    says_only (with_state m (record m.state { hook_access_enabled = true }))
      (says (codes "Access hook enabled"))
run w m disable_access =
    says_only (with_state m (record m.state { hook_access_enabled = false }))
      (says (codes "Access hook disabled"))
run w m enable_openat =
    says_only (with_state m (record m.state { hook_openat_enabled = true }))
      (says (codes "Openat hook enabled"))
run w m disable_openat =
    says_only (with_state m (record m.state { hook_openat_enabled = false }))
      (says (codes "Openat hook disabled"))
run w m enable_kill =
    says_only (with_state m (record m.state { hook_kill_enabled = true }))
      (says (codes "Kill hook enabled"))
run w m disable_kill =
    says_only (with_state m (record m.state { hook_kill_enabled = false }))
      (says (codes "Kill hook disabled"))
run w m reset_counters =
    says_only
      (with_state m
        (record m.state { access_hook_count = 0; openat_hook_count = 0; kill_hook_count = 0 }))
      (says (codes "Counters reset"))
run w m set_whitelist =
    says_only (with_state m (record m.state { filter_mode = 0 }))
      (says (codes "Filter mode: whitelist"))
run w m set_blacklist =
    says_only (with_state m (record m.state { filter_mode = 1 }))
      (says (codes "Filter mode: blacklist"))
run w m clear_filters =
    says_only
      (with_state m
        (record m.state { filter_count = 0; filters = map clear_entry m.state.filters }))
      (says (codes "All filters cleared"))
run w m (add_filter filter_spec) = run_add_filter m filter_spec
run w m (bp_set bp_spec) = run_bp_set w m bp_spec
run w m (bp_clear idx_str) = run_bp_clear w m idx_str
run w m bp_clear_all =
    let (slots, calls) = hw_breakpoint_clear_all w.api m.slots in
    (record m { slots = slots }, says (codes "All breakpoints cleared"), index 0, calls)
run w m bp_verbose_on =
    says_only (record m { verbose = true }) (says (codes "Breakpoint verbose mode enabled"))
run w m bp_verbose_off =
    says_only (record m { verbose = false }) (says (codes "Breakpoint verbose mode disabled"))
run w m bp_list = says_only m (breakpoints m.slots)
run w m (mem_read mem_spec) = run_mem_read w m mem_spec
run w m help = says_only m help_text
run w m (unknown text) = refuses m (no_command text) einval

-- Where the reply goes: whether there is a place for it, its length, an `int`, whether
-- `__arch_copy_to_user` was found, and whether it copies all.
pub record Out : Type 0 where
  pub out_msg : Bool
  pub outlen : ℕ
  pub g_arch_copy_to_user : Bool
  pub copies : Bool

-- `render` puts a reply together, as snprintf does: a string that fits into `kernel_out`.
module _ (render : Reply → List ℕ) where
  -- The end of the function: the bytes given to the copy, and the value returned.
  unfoldable pub copy_result : Out → Reply → Result → Option (List ℕ) × Result
  copy_result out reply ret =
      let text = render reply ++ 0 ∷ [] in
      if out.out_msg && is_positive out.outlen && out.g_arch_copy_to_user
      then (some (take out.outlen text), if out.copies then ret else fails efault)
      else (none, ret)

  unfoldable pub kpm_control :
      World → Out → Module → List ℕ → Module × Option (List ℕ) × Result × List Call
  unfolding run command_of copy_result
  kpm_control w out m ctl_args =
      let (m', reply, ret, calls) = run w m (command_of ctl_args) in
      let (copied, ret') = copy_result out reply ret in (m', copied, ret', calls)

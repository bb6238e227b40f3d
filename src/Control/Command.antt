-- ===== src/Control/Command.antt =====
-- The commands of kpm_control of accessOffstinlineHook.c.
use kpm_syscall_backtrace.Base.{c_string, same, ℕ, if◌then◌else◌, List, drop, codes}
use kpm_syscall_backtrace.Control.Filter.{begins}

-- A command with an argument carries what lies in memory after its name.
pub data Command : Type 0 where
  get_status enable disable enable_access disable_access enable_openat disable_openat : Command
  enable_kill disable_kill reset_counters set_whitelist set_blacklist clear_filters : Command
  add_filter bp_set bp_clear : List ℕ → Command
  bp_clear_all bp_verbose_on bp_verbose_off bp_list : Command
  mem_read : List ℕ → Command
  help : Command
  unknown : List ℕ → Command

-- The chain of tests on the memory from `ctl_args` on.
unfoldable pub command_of : List ℕ → Command
unfolding begins
command_of ctl =
    let text = c_string ctl in
    if same text (codes "get_status")
    then get_status
    else if same text (codes "enable")
    then enable
    else if same text (codes "disable")
    then disable
    else if same text (codes "enable_access")
    then enable_access
    else if same text (codes "disable_access")
    then disable_access
    else if same text (codes "enable_openat")
    then enable_openat
    else if same text (codes "disable_openat")
    then disable_openat
    else if same text (codes "enable_kill")
    then enable_kill
    else if same text (codes "disable_kill")
    then disable_kill
    else if same text (codes "reset_counters")
    then reset_counters
    else if same text (codes "set_whitelist")
    then set_whitelist
    else if same text (codes "set_blacklist")
    then set_blacklist
    else if same text (codes "clear_filters")
    then clear_filters
    else if begins ctl (codes "add_filter:")
    then add_filter (drop 11 ctl)
    else if begins ctl (codes "bp_set:")
    then bp_set (drop 7 ctl)
    else if begins ctl (codes "bp_clear:")
    then bp_clear (drop 9 ctl)
    else if same text (codes "bp_clear_all")
    then bp_clear_all
    else if same text (codes "bp_verbose_on")
    then bp_verbose_on
    else if same text (codes "bp_verbose_off")
    then bp_verbose_off
    else if same text (codes "bp_list")
    then bp_list
    else if begins ctl (codes "mem_read:")
    then mem_read (drop 9 ctl)
    else if same text (codes "help")
    then help
    else unknown text

-- ===== src/Control/Words.antt =====
-- The words of the commands of accessOffstinlineHook.c.
use kpm_syscall_backtrace.Base.{ℕ, ◌≡◌, refl, Bool, true, false, List, ◌∷◌, ◌++◌, codes}
use kpm_syscall_backtrace.Control.Command.{
  Command, get_status, enable, disable, enable_access, disable_access, enable_openat,
  disable_openat, enable_kill, disable_kill, reset_counters, set_whitelist, set_blacklist,
  clear_filters, add_filter, bp_set, bp_clear, bp_clear_all, bp_verbose_on, bp_verbose_off, bp_list,
  mem_read, help, unknown, command_of,
}

-- How a user writes a command: what help lists, and for an unknown command its text.
abbrev pub word : Command → List ℕ
word get_status = codes "get_status"
word enable = codes "enable"
word disable = codes "disable"
word enable_access = codes "enable_access"
word disable_access = codes "disable_access"
word enable_openat = codes "enable_openat"
word disable_openat = codes "disable_openat"
word enable_kill = codes "enable_kill"
word disable_kill = codes "disable_kill"
word reset_counters = codes "reset_counters"
word set_whitelist = codes "set_whitelist"
word set_blacklist = codes "set_blacklist"
word clear_filters = codes "clear_filters"
word (add_filter spec) = codes "add_filter:" ++ spec
word (bp_set spec) = codes "bp_set:" ++ spec
word (bp_clear spec) = codes "bp_clear:" ++ spec
word bp_clear_all = codes "bp_clear_all"
word bp_verbose_on = codes "bp_verbose_on"
word bp_verbose_off = codes "bp_verbose_off"
word bp_list = codes "bp_list"
word (mem_read spec) = codes "mem_read:" ++ spec
word help = codes "help"
word (unknown text) = text

-- What stands in memory for a command: an argument carries its own terminator and what follows it.
abbrev pub written : Command → List ℕ → List ℕ
written (add_filter spec) rest = word (add_filter spec)
written (bp_set spec) rest = word (bp_set spec)
written (bp_clear spec) rest = word (bp_clear spec)
written (mem_read spec) rest = word (mem_read spec)
written c rest = word c ++ 0 ∷ rest

abbrev pub is_known : Command → Bool
is_known (unknown text) = false
is_known c = true

-- Each command is understood from its word, whatever follows its terminator, and each argument is the text
-- behind the word.
pub command_of-written :
    (c : Command) (rest : List ℕ) → is_known c ≡ true → command_of (written c rest) ≡ c
unfolding command_of
command_of-written get_status rest known = refl
command_of-written enable rest known = refl
command_of-written disable rest known = refl
command_of-written enable_access rest known = refl
command_of-written disable_access rest known = refl
command_of-written enable_openat rest known = refl
command_of-written disable_openat rest known = refl
command_of-written enable_kill rest known = refl
command_of-written disable_kill rest known = refl
command_of-written reset_counters rest known = refl
command_of-written set_whitelist rest known = refl
command_of-written set_blacklist rest known = refl
command_of-written clear_filters rest known = refl
command_of-written (add_filter spec) rest known = refl
command_of-written (bp_set spec) rest known = refl
command_of-written (bp_clear spec) rest known = refl
command_of-written bp_clear_all rest known = refl
command_of-written bp_verbose_on rest known = refl
command_of-written bp_verbose_off rest known = refl
command_of-written bp_list rest known = refl
command_of-written (mem_read spec) rest known = refl
command_of-written help rest known = refl
command_of-written (unknown text) rest known = cc known

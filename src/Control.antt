-- ===== src/Control.antt =====
-- kpms/demo_accessOffstinlineHook/accessOffstinlineHook.c: the module that logs the calls of three system
-- calls with the stacks of the callers, and that the user controls by commands. An `int` is a number
-- below 2 ^ 32, an `unsigned long` one below 2 ^ 64, and a string the list of its bytes.
pub mod Parse
pub mod Filter
pub mod Before
pub mod Command
pub mod Reply
pub mod Args
pub mod Actions
pub mod Run
pub mod Module
pub mod Filtering
pub mod Invariant
pub mod Preserve
pub mod Failures
pub mod System
pub mod Runs
pub mod Words
pub mod Numbers
pub mod Lifecycle
mod Tests
use kpm_syscall_backtrace.Base.{ℕ, Bool, true, false, List, [], ◌∷◌, replicate}

abbrev pub max_filters : ℕ
max_filters = 16

abbrev pub max_name_len : ℕ
max_name_len = 256

-- `struct filter_entry`
pub record FilterEntry : Type 0 where
  pub name : List ℕ
  pub pid : ℕ
  pub active : Bool

-- `module_state`. The flags are 0 or 1.
pub record State : Type 0 where
  pub hook_enabled : Bool
  pub access_hook_count : ℕ
  pub openat_hook_count : ℕ
  pub kill_hook_count : ℕ
  pub filter_mode : ℕ
  pub hook_access_enabled : Bool
  pub hook_openat_enabled : Bool
  pub hook_kill_enabled : Bool
  pub filters : List FilterEntry
  pub filter_count : ℕ

-- An entry that is not in use.
abbrev pub no_filter : FilterEntry
no_filter = record { name = []; pid = 0; active = false }

-- The state that the module is loaded with.
abbrev pub module_state : State
module_state = record {
  hook_enabled = false;
  access_hook_count = 0;
  openat_hook_count = 0;
  kill_hook_count = 0;
  filter_mode = 0;
  hook_access_enabled = false;
  hook_openat_enabled = false;
  hook_kill_enabled = false;
  filters = replicate max_filters no_filter;
  filter_count = 0;
}

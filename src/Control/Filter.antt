-- ===== src/Control/Filter.antt =====
-- should_hook_process of accessOffstinlineHook.c.
use kpm_syscall_backtrace.Base.{
  c_string, ℕ, ◌==◌, if◌then◌else◌, Bool, true, false, not, ◌&&◌, ◌||◌, List, [], ◌∷◌, take,
}
use kpm_syscall_backtrace.Breakpoint.Set.{is_positive}
use kpm_syscall_backtrace.Process.Info.{Task, get_process_id, get_process_cmdline}
use kpm_syscall_backtrace.Control.{FilterEntry, State, max_name_len}

-- Whether a text begins with another one.
unfoldable pub begins : List ℕ → List ℕ → Bool
begins text [] = true
begins [] (c ∷ name) = false
begins (d ∷ text) (c ∷ name) = d == c && begins text name

-- `strstr` finds something.
unfoldable pub strstr : List ℕ → List ℕ → Bool
unfolding begins
strstr [] name = begins [] name
strstr (c ∷ text) name = begins (c ∷ text) name || strstr text name

abbrev pub is_empty : List ℕ → Bool
is_empty [] = true
is_empty (c ∷ name) = false

-- The loop over the filters. Mode 0 is the whitelist.
unfoldable pub check_filters : ℕ → ℕ → List ℕ → List FilterEntry → Bool
unfolding strstr
check_filters mode pid pkg_name [] = not (mode == 0)
check_filters mode pid pkg_name (f ∷ filters) =
    let rest = check_filters mode pid pkg_name filters in
    if not f.active
    then rest
    else if is_positive f.pid && f.pid == pid
    then mode == 0
    else if not (is_empty f.name) && strstr pkg_name f.name
    then mode == 0
    else rest

unfoldable pub should_hook_process : State → Task → Bool
unfolding check_filters get_process_id get_process_cmdline
should_hook_process s task =
    if s.filter_count == 0
    then true
    else check_filters s.filter_mode (get_process_id task)
        (c_string (get_process_cmdline task max_name_len)) (take s.filter_count s.filters)

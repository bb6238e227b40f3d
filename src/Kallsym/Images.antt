-- ===== src/Kallsym/Images.antt =====
-- Images in which the searches of tools/kallsym.c succeed, and the theorems on the searches at them.
use kpm_syscall_backtrace.Base.{
  ℕ, ◌-◌, ◌*◌, ◌/◌, ◌%◌, ◌==◌, ltb, if◌then◌else◌, ◌≤◌, refl, arith, ◌&&◌, true, false,
}
use kpm_syscall_backtrace.Order.{int_unpack}
use kpm_syscall_backtrace.Kallsym.{Info, ksym_token_nums}
use kpm_syscall_backtrace.Kallsym.Search.{memmem, token_places, find_token_index}
use kpm_syscall_backtrace.Kallsym.Markers.{find_markers_internal, markers_down, ksym_min_marker}
use kpm_syscall_backtrace.Kallsym.Analyze.{init_info}
use kpm_syscall_backtrace.Kallsym.Index.{Indexes, find_token_index-Indexes}
use kpm_syscall_backtrace.Kallsym.Ascending.{EndsAt, find_markers_internal-Ascends}

abbrev blank : Info
blank = init_info true true

-- 256 empty tokens from 1000 on, and their index at 0.
abbrev indexed : ℕ → ℕ
indexed i = if ltb i 512 && i % 2 == 0 then i / 2 else 0

abbrev with_table : Info
with_table = record blank { token_table_offset = 1000 }

find_token_index-Indexes_example :
    Indexes indexed false 1000 0 (token_places indexed 1300 ksym_token_nums 1000)
unfolding find_token_index memmem token_places
find_token_index-Indexes_example =
    find_token_index-Indexes indexed 1300 with_table
      (record with_table { token_index_offset = 0; is_be = false }) refl

-- Markers from 0x10100 on, which count up from 0.
abbrev counting : ℕ → ℕ
counting i = if i % 4 == 0 then (i - 0x10100) / 4 % 256 else 0

abbrev above : Info
above = record blank { token_table_offset = 0x102e0 }

find_markers_internal-Ascends_example :
    (ksym_min_marker ≤ 121) × EndsAt false counting 0x20000 above 4 (0x10100, 121)
unfolding find_markers_internal markers_down int_unpack init_info
find_markers_internal-Ascends_example =
    find_markers_internal-Ascends false counting 0x20000 above 4 (omega arith) (omega arith)
      (record above { markers_offset = 0x10100; marker_num = 121; markers_elem_size = 4 }) refl

-- Names of one token from 0 on, and markers at 0x5000 for every 256 of them.
abbrev named : ℕ → ℕ
named i = if ltb i 0x5000 then 1 else if i % 4 == 1 then 2 * ((i - 0x5000) / 4) % 256 else 0

abbrev marked : Info
marked = record blank { markers_offset = 0x5000; markers_elem_size = 4 }

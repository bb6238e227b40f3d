-- ===== src/Kallsym.antt =====
-- tools/kallsym.c: the tables of kernel symbols in a kernel image. An image is its byte at each place; a
-- place is a natural number, below 2 ^ 31 in the code. An `int32_t` that a function returns is its pattern.
-- What is read stays inside the image wherever the code does not check it.
pub mod Names
pub mod Lookup
pub mod Table
pub mod Finds
pub mod Search
pub mod Markers
pub mod Found
pub mod Named
pub mod Ascending
pub mod Approx
pub mod Correct
pub mod Relo
pub mod Analyze
pub mod Index
pub mod Analyzed
pub mod Attempts
mod Tests
mod Images
use kpm_syscall_backtrace.Base.{
  ℕ, zero, suc, ◌+◌, ◌-◌, ◌*◌, ◌%◌, ◌^◌, ◌==◌, ltb, if◌then◌else◌, Bool, true, false, ◌&&◌, ◌||◌,
  List, [], ◌∷◌, replicate,
}

abbrev pub ksym_token_nums : ℕ
ksym_token_nums = 256

abbrev pub ksym_symbol_len : ℕ
ksym_symbol_len = 512

pub data CurrentType : Type 0 where
  sp_el0 sp : CurrentType

-- `kallsym_t`. `tokens` is `kallsyms_token_table`, the place of each token, and
-- `banner_num` is the length of `linux_banner_offset`. `symbol_banner_idx` is the pattern of an int32_t.
pub record Info : Type 0 where
  pub is_be : Bool
  pub major : ℕ
  pub minor : ℕ
  pub patch : ℕ
  pub linux_banner_offset : List ℕ
  pub tokens : List ℕ
  pub asm_long_size : ℕ
  pub asm_ptr_size : ℕ
  pub markers_elem_size : ℕ
  pub num_syms : ℕ
  pub has_relative_base : Bool
  pub addresses_offset : ℕ
  pub offsets_offset : ℕ
  pub num_syms_offset : ℕ
  pub names_offset : ℕ
  pub markers_offset : ℕ
  pub token_table_offset : ℕ
  pub token_index_offset : ℕ
  pub approx_offset : ℕ
  pub approx_end : ℕ
  pub approx_num : ℕ
  pub marker_num : ℕ
  pub kernel_base : ℕ
  pub try_relo : Bool
  pub relo_applied : Bool
  pub symbol_banner_idx : ℕ
  pub all_yes : Bool
  pub current_type : CurrentType

unfoldable pub get_markers_elem_size : Info → ℕ
get_markers_elem_size info =
    if info.markers_elem_size == 0
    then (if ltb info.major 4 || info.major == 4 && ltb info.minor 20
        then info.asm_ptr_size
        else info.asm_long_size)
    else info.markers_elem_size

unfoldable pub get_num_syms_elem_size : Info → ℕ
get_num_syms_elem_size info =
    if ltb info.major 4 || info.major == 4 && ltb info.minor 20
    then info.asm_ptr_size
    else info.asm_long_size

abbrev pub get_addresses_elem_size : Info → ℕ
get_addresses_elem_size info = info.asm_ptr_size

abbrev pub get_offsets_elem_size : Info → ℕ
get_offsets_elem_size info = info.asm_long_size

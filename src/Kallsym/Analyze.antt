-- ===== src/Kallsym/Analyze.antt =====
-- The order of the searches in tools/kallsym.c, and the attempts of `analyze_kallsym_info`.
use kpm_syscall_backtrace.Base.{ℕ, ◌==◌, if◌then◌else◌, Bool, true, false, Option, none, some, []}
use kpm_syscall_backtrace.Kallsym.{Info, sp_el0}
use kpm_syscall_backtrace.Kallsym.Search.{find_linux_banner, find_token_table, find_token_index}
use kpm_syscall_backtrace.Kallsym.Markers.{find_markers, find_names, find_num_syms}
use kpm_syscall_backtrace.Kallsym.Approx.{find_approx_addresses_or_offset}
use kpm_syscall_backtrace.Kallsym.Correct.{Insns, correct_addresses_or_offsets, elf64_kernel_min_va}
use kpm_syscall_backtrace.Kallsym.Relo.{Worked, try_find_arm64_relo_table}

-- `arch == ARM64` and `is_64`.
unfoldable pub init_info : Bool → Bool → Info
init_info arm64 is_64 = record {
  is_be = false;
  major = 0;
  minor = 0;
  patch = 0;
  linux_banner_offset = [];
  tokens = [];
  asm_long_size = 4;
  asm_ptr_size = if is_64 then 8 else 4;
  markers_elem_size = 0;
  num_syms = 0;
  has_relative_base = false;
  addresses_offset = 0;
  offsets_offset = 0;
  num_syms_offset = 0;
  names_offset = 0;
  markers_offset = 0;
  token_table_offset = 0;
  token_index_offset = 0;
  approx_offset = 0;
  approx_end = 0;
  approx_num = 0;
  marker_num = 0;
  kernel_base = 0;
  try_relo = arm64;
  relo_applied = false;
  symbol_banner_idx = 0;
  all_yes = false;
  current_type = sp_el0;
}

module _ (insns : Insns) (host_is_be : Bool) (imglen : ℕ) where
  -- The searches behind the relocation, each with what the ones before it have found; a search that fails
  -- leaves the state and ends the row.
  unfoldable pub searches : Info → (ℕ → ℕ) → Bool × Info
  searches info img = elim (find_markers host_is_be img imglen info) [
    | none ↦ (false, info)
    | some marked ↦ elim (find_approx_addresses_or_offset host_is_be img imglen marked) [
      | none ↦ (false, marked)
      | some near ↦ elim (find_names host_is_be img imglen near) [
        | none ↦ (false, near)
        | some named ↦
            correct_addresses_or_offsets insns host_is_be img imglen
              (find_num_syms host_is_be img imglen named)
      ]
    ]
  ]

  unfoldable pub retry_relo : Info → (ℕ → ℕ) → Option Worked
  retry_relo info img = elim (try_find_arm64_relo_table host_is_be imglen info img) [
    | none ↦ none
    | some (good, info', img') ↦
        if good
        then (let (done, info'') = searches info' img' in some (done, info'', img'))
        else some (false, info', img')
  ]

  -- The second attempt, if the first has found a bad relocation, and the third, at the lowest base. Each
  -- works on a copy of the image, and `img` gets the last copy.
  unfoldable pub third : Info → (ℕ → ℕ) → (ℕ → ℕ) → Option Worked
  third info img copied =
      if info.kernel_base == elf64_kernel_min_va
      then some (false, info, copied)
      else retry_relo (record info { kernel_base = elf64_kernel_min_va }) img

  unfoldable pub again : Info → (ℕ → ℕ) → Option Worked
  again info img = elim (retry_relo info img) [
    | none ↦ none
    | some (done, info', copied) ↦
        if done then some (true, info', copied) else third info' img copied
  ]

  unfoldable pub second : Info → (ℕ → ℕ) → (ℕ → ℕ) → Option Worked
  second info img copied = if info.try_relo then third info img copied else again info img

  unfoldable pub attempts : Info → (ℕ → ℕ) → Option Worked
  attempts info img = elim (retry_relo info img) [
    | none ↦ none
    | some (done, info', copied) ↦
        if done then some (true, info', copied) else second info' img copied
  ]

  -- `none` is a read before the image or before the banners, which the code does not guard against.
  unfoldable pub analyze_kallsym_info : Bool → Bool → (ℕ → ℕ) → Option Worked
  analyze_kallsym_info arm64 is_64 img =
      elim (find_linux_banner img imglen (init_info arm64 is_64)) [
        | none ↦ none
        | some info ↦ elim (find_token_table img imglen info) [
          | none ↦ some (false, info, img)
          | some with_table ↦ elim (find_token_index img imglen with_table) [
            | none ↦ some (false, with_table, img)
            | some with_index ↦ attempts with_index img
          ]
        ]
      ]

-- ===== src/Kallsym/Markers.antt =====
-- The searches of tools/kallsym.c for the markers, the names and the number of the symbols. A signed
-- number of 64 bits is its pattern.
use kpm_syscall_backtrace.Base.{
  ℕ, zero, suc, ◌+◌, ◌-◌, ◌*◌, ◌/◌, ◌%◌, ◌^◌, ◌==◌, ltb, leb, if◌then◌else◌, Bool, true, false,
  ◌&&◌, ◌||◌, not, Option, none, some,
}
use kpm_syscall_backtrace.Order.{int_unpack}
use kpm_syscall_backtrace.Kallsym.{Info, ksym_symbol_len, get_markers_elem_size}
use kpm_syscall_backtrace.Kallsym.Names.{name_len}

abbrev pub ksym_min_marker : ℕ
ksym_min_marker = 100

-- `a < b` of two numbers of 64 bits with a sign.
abbrev pub lt_signed : ℕ → ℕ → Bool
lt_signed a b = ltb ((a + 2 ^ 63) % 2 ^ 64) ((b + 2 ^ 63) % 2 ^ 64)

module _ (host_is_be : Bool) (img : ℕ → ℕ) (imglen : ℕ) where
  module _ (info : Info) (elem_size : ℕ) where
    abbrev pub marker_at : ℕ → ℕ
    marker_at cand = int_unpack host_is_be img cand elem_size info.is_be

    -- The loop downwards: the place where it ends, and the count.
    unfoldable pub markers_down : ℕ → ℕ → ℕ → ℕ → ℕ × ℕ
    markers_down zero cand last count = (cand, count)
    markers_down (suc fuel) cand last count =
        let marker : ℕ = marker_at cand in
        let falls : Bool = lt_signed marker last in
        let count' : ℕ = if falls then suc count else 0 in
        let rest = markers_down fuel (cand - elem_size) marker count' in
        if leb cand 0x10000
        then (cand, count)
        else if falls && marker == 0 && ltb ksym_min_marker count'
        then (cand, count')
        else rest

    -- `none` is -1.
    unfoldable pub find_markers_internal : Option Info
    find_markers_internal =
        let (cand, count) =
          markers_down (suc info.token_table_offset) info.token_table_offset imglen 0 in
        if ltb count ksym_min_marker
        then none
        else some (record info {
          markers_offset = cand;
          marker_num = count;
          markers_elem_size = elem_size;
        })

  unfoldable pub find_markers : Info → Option Info
  unfolding find_markers_internal get_markers_elem_size
  find_markers info =
      let elem_size : ℕ = get_markers_elem_size info in
      elim (find_markers_internal info elem_size) [
        | some info' ↦ some info'
        | none ↦ if elem_size == 8 then find_markers_internal info 4 else none
      ]

  module _ (info : Info) where
    -- `KSYM_FIND_NAMES_USED_MARKER` markers, one for every 256 names.
    abbrev pub marker_of : ℕ → ℕ
    marker_of i =
        let elem_size : ℕ = get_markers_elem_size info in
        int_unpack host_is_be img (info.markers_offset + (i / 256 + 1) * elem_size) elem_size
          info.is_be
        % 2 ^ 32

    -- The names from `cand` on: whether the markers that are left agree with their places.
    unfoldable pub names_agree : ℕ → ℕ → ℕ → ℕ → ℕ → Bool
    names_agree zero cand i pos left = false
    names_agree (suc fuel) cand i pos left =
        let (len, pos') = name_len img pos in
        let next : ℕ = pos' + len in
        let on = names_agree fuel cand (suc i) next left in
        let checked = names_agree fuel cand (suc i) next (left - 1) in
        if len == 0 || leb ksym_symbol_len len || leb info.markers_offset next
        then false
        else if not (i % 256 == 255)
        then on
        else if not (next - cand == marker_of i)
        then false
        else if left == 1
        then true
        else checked

    abbrev pub is_names : ℕ → Bool
    is_names cand = names_agree imglen cand 0 cand 5

    unfoldable pub names_from : ℕ → ℕ → Option ℕ
    names_from zero cand = none
    names_from (suc n) cand =
        let rest = names_from n (suc cand) in if is_names cand then some cand else rest

    unfoldable pub find_names : Option Info
    find_names = elim (names_from (info.markers_offset - 0x4000) 0x4000) [
      | none ↦ none
      | some cand ↦ some (record info { names_offset = cand })
    ]

    -- The values of `nsyms` that are near enough, as an `int`.
    abbrev pub near : ℕ → Bool
    near nsyms =
        let a : ℕ = info.approx_num + 2 ^ 31 in
        let b : ℕ = (nsyms + 2 ^ 31) % 2 ^ 32 in
        not (nsyms == 0) && leb a (b + 10) && leb b (a + 10)

    -- 1024 places downwards from the names; a search that goes on before the image stays at 0.
    unfoldable pub num_syms_from : ℕ → ℕ → Option (ℕ × ℕ)
    unfolding int_unpack
    num_syms_from zero cand = none
    num_syms_from (suc n) cand =
        let nsyms : ℕ = int_unpack host_is_be img cand 4 info.is_be % 2 ^ 32 in
        let rest = num_syms_from n (cand - 4) in if near nsyms then some (cand, nsyms) else rest

    -- The values of an earlier attempt stay where this one finds nothing.
    unfoldable pub find_num_syms : Info
    find_num_syms =
        let info' : Info = elim (num_syms_from 1024 info.names_offset) [
          | none ↦ info
          | some (cand, nsyms) ↦ record info { num_syms_offset = cand; num_syms = nsyms }
        ] in
        if info'.num_syms_offset == 0 || info'.num_syms == 0
        then record info' { num_syms = info.approx_num - 10 }
        else info'

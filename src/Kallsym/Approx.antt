-- ===== src/Kallsym/Approx.antt =====
-- The search of tools/kallsym.c for about where the addresses or the offsets of the symbols stand. A
-- search downwards that goes on before the image gives `none`, as one does that finds nothing.
use kpm_syscall_backtrace.Base.{
  ℕ, zero, suc, ◌+◌, ◌-◌, ◌*◌, ◌/◌, ◌==◌, ltb, leb, if◌then◌else◌, bit_and, Bool, true, false, ◌&&◌,
  ◌||◌, not, Option, none, some,
}
use kpm_syscall_backtrace.Order.{int_unpack, uint_unpack}
use kpm_syscall_backtrace.Kallsym.{Info}
use kpm_syscall_backtrace.Kallsym.Markers.{lt_signed}

abbrev pub ksym_min_neq_syms : ℕ
ksym_min_neq_syms = 25600

module _ (host_is_be : Bool) (img : ℕ → ℕ) (imglen : ℕ) (info : Info) where
  module _ (elem_size : ℕ) where
    abbrev pub uint_at : ℕ → ℕ
    uint_at cand = uint_unpack host_is_be img cand elem_size info.is_be

    abbrev pub int_at : ℕ → ℕ
    int_at cand = int_unpack host_is_be img cand elem_size info.is_be

    abbrev pub search_end : ℕ
    search_end = imglen - ksym_min_neq_syms * elem_size

    -- Whether an address can be the first.
    abbrev pub may_be_first : ℕ → Bool
    may_be_first address =
        bit_and address 0xff == 0
        && not (elem_size == 4 && not (bit_and address 0xff800000 == 0xff800000))
        && not (elem_size == 8 && not (bit_and address 0xffff000000000000 == 0xffff000000000000))

    -- The place where the loop ends, and the number of addresses that do not fall.
    unfoldable pub rising_from : ℕ → ℕ → ℕ → ℕ → ℕ × ℕ
    rising_from zero cand prev sym_num = (cand, sym_num)
    rising_from (suc fuel) cand prev sym_num =
        let address : ℕ = uint_at cand in
        let first : Bool = may_be_first address in
        let rises : Bool = leb prev address in
        let prev' : ℕ =
          if sym_num == 0
          then (if first then address else prev)
          else if rises
          then address
          else 0 in
        let sym_num' : ℕ =
          if sym_num == 0 then (if first then 1 else 0) else if rises then suc sym_num else 0 in
        let rest = rising_from fuel (cand + elem_size) prev' sym_num' in
        if leb search_end cand
        then (cand, sym_num)
        else if not (sym_num == 0) && rises && leb ksym_min_neq_syms sym_num
        then (cand, sym_num')
        else rest

    -- The end of the part that does not fall.
    unfoldable pub rising_end : ℕ → ℕ → ℕ → ℕ
    rising_end zero cand prev = cand
    rising_end (suc fuel) cand prev =
        let offset : ℕ = uint_at cand in
        let rest = rising_end fuel (cand + elem_size) offset in
        if leb imglen cand || ltb offset prev then cand else rest

    -- The same loops for offsets, which have a sign; equal ones are not counted.
    unfoldable pub offsets_from : ℕ → ℕ → ℕ → ℕ → ℕ × ℕ
    offsets_from zero cand prev sym_num = (cand, sym_num)
    offsets_from (suc fuel) cand prev sym_num =
        let offset : ℕ = int_at cand in
        let same : Bool = offset == prev in
        let rises : Bool = lt_signed prev offset in
        let prev' : ℕ = if same || rises then offset else 0 in
        let sym_num' : ℕ = if same then sym_num else if rises then suc sym_num else 0 in
        let rest = offsets_from fuel (cand + elem_size) prev' sym_num' in
        if leb search_end cand
        then (cand, sym_num)
        else if rises && leb ksym_min_neq_syms sym_num
        then (cand, sym_num')
        else rest

    unfoldable pub offsets_end : ℕ → ℕ → ℕ → ℕ
    offsets_end zero cand prev = cand
    offsets_end (suc fuel) cand prev =
        let offset : ℕ = int_at cand in
        let rest = offsets_end fuel (cand + elem_size) offset in
        if leb imglen cand || lt_signed offset prev then cand else rest

    -- Down to an offset that is 0.
    unfoldable pub down_to_zero : ℕ → ℕ → Option ℕ
    down_to_zero zero cand = none
    down_to_zero (suc fuel) cand =
        let rest = if ltb cand elem_size then none else down_to_zero fuel (cand - elem_size) in
        if int_at cand == 0 then some cand else rest

    -- Down over the zeros, eleven at most.
    unfoldable pub over_zeros : ℕ → ℕ → ℕ → Option ℕ
    over_zeros zero cand passed = none
    over_zeros (suc fuel) cand passed =
        let rest =
          if ltb cand elem_size then none else over_zeros fuel (cand - elem_size) (suc passed) in
        if not (int_at cand == 0) || leb 10 passed then some cand else rest

  abbrev pub approximated : Bool → ℕ → ℕ → ℕ → Info
  approximated relative elem_size start end = record info {
    approx_offset = start;
    approx_end = end;
    has_relative_base = relative;
    approx_num = (end - start) / elem_size;
  }

  unfoldable pub find_approx_addresses : Option Info
  find_approx_addresses =
      let elem_size : ℕ = info.asm_ptr_size in
      let (cand, sym_num) = rising_from elem_size (suc imglen) 0 0 0 in
      let start : ℕ = cand - ksym_min_neq_syms * elem_size in
      if ltb sym_num ksym_min_neq_syms
      then none
      else some (approximated false elem_size start (rising_end elem_size (suc imglen) start 0))

  unfoldable pub find_approx_offsets : Option Info
  find_approx_offsets =
      let elem_size : ℕ = info.asm_long_size in
      let (cand, sym_num) = offsets_from elem_size (suc imglen) 0 0 0 in
      if ltb sym_num ksym_min_neq_syms
      then none
      else (elim (down_to_zero elem_size (suc imglen) (cand - ksym_min_neq_syms * elem_size)) [
        | none ↦ none
        | some zero_at ↦ elim (over_zeros elem_size (suc imglen) zero_at 0) [
          | none ↦ none
          | some before ↦
              let start : ℕ = before + elem_size in
              some (approximated true elem_size start (offsets_end elem_size (suc imglen) start 0))
        ]
      ])

  unfoldable pub find_approx_addresses_or_offset : Option Info
  find_approx_addresses_or_offset =
      if ltb 4 info.major || info.major == 4 && leb 6 info.minor
      then (elim find_approx_offsets [ none ↦ find_approx_addresses | some info' ↦ some info' ])
      else find_approx_addresses

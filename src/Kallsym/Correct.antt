-- ===== src/Kallsym/Correct.antt =====
-- How tools/kallsym.c finds where exactly the addresses or the offsets begin, by the place of the banner
-- or of the vectors.
use kpm_syscall_backtrace.Base.{
  ℕ, zero, suc, ◌+◌, ◌-◌, ◌*◌, ◌/◌, ◌%◌, ◌^◌, ◌==◌, ltb, leb, if◌then◌else◌, Bool, true, false,
  ◌&&◌, not, Option, none, some, List, [], ◌∷◌, ◌++◌, codes, same,
}
use kpm_syscall_backtrace.Order.{uint_unpack}
use kpm_syscall_backtrace.Kallsym.{
  Info, CurrentType, sp_el0, sp, get_addresses_elem_size, get_offsets_elem_size,
}
use kpm_syscall_backtrace.Kallsym.Names.{decompress_symbol_name}
use kpm_syscall_backtrace.Kallsym.Lookup.{get_symbol_offset}

-- What tools/insn.c says of an instruction: whether it is of the class of system instructions and names
-- SP_EL0, and whether it is data processing with an immediate whose Rn is SP.
pub record Insns : Type 0 where
  pub is_br_sys : ℕ → Bool
  pub is_sp_el0 : ℕ → Bool
  pub is_dp_imm : ℕ → Bool
  pub rn_is_sp : ℕ → Bool

abbrev pub elf64_kernel_min_va : ℕ
elf64_kernel_min_va = 0xffffff8008080000

module _ (insns : Insns) (host_is_be : Bool) (img : ℕ → ℕ) (imglen : ℕ) where
  -- What the instructions show that are left; `none` is -1.
  unfoldable pub current_from : ℕ → ℕ → Option CurrentType
  unfolding uint_unpack
  current_from zero pos = none
  current_from (suc n) pos =
      let insn : ℕ = uint_unpack host_is_be img pos 4 false in
      let rest = current_from n (pos + 4) in
      if insns.is_br_sys insn
      then (if insns.is_sp_el0 insn then some sp_el0 else rest)
      else if insns.is_dp_imm insn && insns.rn_is_sp insn
      then some sp
      else rest

  unfoldable pub arm64_verify_pid_vnr : Info → ℕ → Option Info
  arm64_verify_pid_vnr info offset = elim (current_from 6 offset) [
    | none ↦ none
    | some current ↦ some (record info { current_type = current })
  ]

  abbrev pub elem_size_of : Info → ℕ
  elem_size_of info =
      if info.has_relative_base then get_offsets_elem_size info else get_addresses_elem_size info

  -- The index of the name, and the place behind it; `none` is a name that cannot be decompressed, or
  -- none of the names.
  unfoldable pub banner_name_from : Info → ℕ → ℕ → ℕ → Option (ℕ × ℕ)
  unfolding decompress_symbol_name
  banner_name_from info zero pos index = none
  banner_name_from info (suc fuel) pos index =
      if leb info.markers_offset pos
      then none
      else (elim (decompress_symbol_name img imglen info pos) [
        | none ↦ none
        | some (pos', type, symbol) ↦
            let rest = banner_name_from info fuel pos' (suc index) in
            if same symbol (codes "linux_banner") then some (index, pos') else rest
      ])

  -- The difference of two elements of a table, as an int32_t.
  abbrev pub distance : Info → ℕ → ℕ → ℕ
  distance info pos base =
      (uint_unpack host_is_be img pos (elem_size_of info) info.is_be % 2 ^ 32
        + 2 ^ 32
        - base % 2 ^ 32)
      % 2 ^ 32

  -- The first of the places that are left where the banner would stand at the target.
  unfoldable pub base_from : Info → ℕ → ℕ → ℕ → ℕ → Option ℕ
  unfolding uint_unpack
  base_from info index target zero pos = none
  base_from info index target (suc n) pos =
      let elem_size : ℕ = elem_size_of info in
      let base : ℕ = uint_unpack host_is_be img pos elem_size info.is_be in
      let rest = base_from info index target n (pos + elem_size) in
      if distance info (pos + index * elem_size) base == target then some pos else rest

  -- The index of the banner for which there is such a place, and the place.
  unfoldable pub banner_base_from : Info → ℕ → ℕ → List ℕ → Option (ℕ × ℕ)
  unfolding base_from
  banner_base_from info index i [] = none
  banner_base_from info index i (target ∷ targets) =
      let rounds : ℕ = (4096 + elem_size_of info + (elem_size_of info - 1)) / elem_size_of info in
      elim (base_from info index target rounds info.approx_offset) [
        | some pos ↦ some (i, pos)
        | none ↦ banner_base_from info index (suc i) targets
      ]

  -- A failed verification is only logged.
  abbrev pub or_else : Info → Option Info → Info
  or_else info none = info
  or_else info (some info') = info'

  -- The state with the base that is found for a banner.
  unfoldable pub placed : Info → ℕ → ℕ → Info
  unfolding uint_unpack
  placed info i start =
      if info.has_relative_base
      then record info { symbol_banner_idx = i; offsets_offset = start }
      else record info {
        symbol_banner_idx = i;
        addresses_offset = start;
        kernel_base = uint_unpack host_is_be img start (elem_size_of info) info.is_be;
      }

  -- With the instructions of `pid_vnr` looked at.
  unfoldable pub verified : Info → Info
  verified info =
      or_else info
        (arm64_verify_pid_vnr info (get_symbol_offset host_is_be img imglen info (codes "pid_vnr")))

  -- The value is whether it is 0, and the state is changed either way.
  unfoldable pub correct_addresses_or_offsets_by_banner : Info → Bool × Info
  correct_addresses_or_offsets_by_banner info =
      elim (banner_name_from info (suc info.markers_offset) info.names_offset 0) [
        | none ↦ (false, info)
        | some (index, pos) ↦
            if leb info.markers_offset pos
            then (false, info)
            else (elim (banner_base_from info index 0 info.linux_banner_offset) [
              | none ↦ (false, record info { symbol_banner_idx = 2 ^ 32 - 1 })
              | some (i, start) ↦ (true, verified (placed info i start))
            ])
      ]

  -- The indices of `vectors` and of `pid_vnr`, 0 as long as none is found, and the place behind the last
  -- name that is read.
  unfoldable pub vector_names_from : Info → ℕ → ℕ → ℕ → ℕ → ℕ → Option (ℕ × ℕ × ℕ)
  unfolding decompress_symbol_name
  vector_names_from info zero pos index vector pid_vnr = none
  vector_names_from info (suc fuel) pos index vector pid_vnr =
      if leb info.markers_offset pos
      then some (vector, pid_vnr, pos)
      else (elim (decompress_symbol_name img imglen info pos) [
        | none ↦ none
        | some (pos', type, symbol) ↦
            let is_vector : Bool = vector == 0 && same symbol (codes "vectors") in
            let vector' : ℕ = if is_vector then index else vector in
            let is_pid_vnr : Bool =
              not is_vector && pid_vnr == 0 && same symbol (codes "pid_vnr") in
            let pid_vnr' : ℕ = if is_pid_vnr then index else pid_vnr in
            let rest = vector_names_from info fuel pos' (suc index) vector' pid_vnr' in
            if not (vector' == 0) && not (pid_vnr' == 0)
            then some (vector', pid_vnr', pos')
            else rest
      ])

  -- The bases that are tried, in order.
  abbrev pub base_candidates : Info → List ℕ
  base_candidates info =
      if info.has_relative_base
      then 0 ∷ []
      else uint_unpack host_is_be img info.approx_offset (elem_size_of info) info.is_be
        ∷ ((if info.kernel_base == 0 then [] else info.kernel_base ∷ [])
            ++ (if info.kernel_base == elf64_kernel_min_va then [] else elf64_kernel_min_va ∷ []))

  -- `vector_next_offset - vector_offset >= 0x600` of two values of int32_t, and an offset of 2K.
  abbrev pub is_vectors : Info → ℕ → ℕ → ℕ → Bool
  is_vectors info pos vector base =
      let at : ℕ = distance info (pos + vector * elem_size_of info) base in
      let next : ℕ = distance info (pos + vector * elem_size_of info + elem_size_of info) base in
      let room : ℕ = (next + 2 ^ 32 - at) % 2 ^ 32 in
      leb 0x600 room && ltb room (2 ^ 31) && at % 2 ^ 11 == 0

  -- The first place below the end where the vectors and `pid_vnr` are right.
  unfoldable pub vectors_from : Info → ℕ → ℕ → ℕ → ℕ → ℕ → ℕ → Option (ℕ × Info)
  unfolding uint_unpack
  vectors_from info vector pid_vnr base end zero pos = none
  vectors_from info vector pid_vnr base end (suc fuel) pos =
      let rest = vectors_from info vector pid_vnr base end fuel (pos + elem_size_of info) in
      if leb end pos
      then none
      else if is_vectors info pos vector base
      then (elim (arm64_verify_pid_vnr info
          (distance info (pos + pid_vnr * elem_size_of info) base)) [
            | some info' ↦ some (pos, record info' { kernel_base = base })
            | none ↦ rest
          ])
      else rest

  unfoldable pub any_base : Info → ℕ → ℕ → ℕ → List ℕ → Option (ℕ × Info)
  any_base info vector pid_vnr end [] = none
  any_base info vector pid_vnr end (base ∷ bases) =
      elim (vectors_from info vector pid_vnr base end (suc end) info.approx_offset) [
        | some found ↦ some found
        | none ↦ any_base info vector pid_vnr end bases
      ]

  unfoldable pub correct_addresses_or_offsets_by_vectors : Info → Bool × Info
  correct_addresses_or_offsets_by_vectors info =
      elim (vector_names_from info (suc info.markers_offset) info.names_offset 0 0 0) [
        | none ↦ (false, info)
        | some (vector, pid_vnr, pos) ↦
            if leb info.markers_offset pos
            then (false, info)
            else (elim (any_base info vector pid_vnr (info.approx_end - pid_vnr * elem_size_of info)
                (base_candidates info)) [
                  | none ↦ (false, info)
                  | some (start, found) ↦ (
                    true,
                    if info.has_relative_base
                        then record found { offsets_offset = start }
                        else record found { addresses_offset = start },
                  )
                ])
      ]

  -- The flag for all symbols is set before the value is looked at, and taken back.
  unfoldable pub correct_addresses_or_offsets : Info → Bool × Info
  correct_addresses_or_offsets info =
      let (done, info') = correct_addresses_or_offsets_by_banner info in
      if done
      then (true, record info' { all_yes = true })
      else correct_addresses_or_offsets_by_vectors (record info' { all_yes = false })

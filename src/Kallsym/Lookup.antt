-- ===== src/Kallsym/Lookup.antt =====
-- The functions of tools/kallsym.c that go through the names: a symbol's offset and size, and the visit of
-- every symbol.
use kpm_syscall_backtrace.Base.{
  ℕ, zero, suc, ◌+◌, ◌-◌, ◌*◌, ◌%◌, ◌^◌, ◌==◌, if◌then◌else◌, Bool, Option, none, some, List, [],
  ◌∷◌, same,
}
use kpm_syscall_backtrace.Order.{uint_unpack}
use kpm_syscall_backtrace.Kallsym.{Info, get_addresses_elem_size, get_offsets_elem_size}
use kpm_syscall_backtrace.Kallsym.Names.{decompress_symbol_name}

module _ (host_is_be : Bool) (img : ℕ → ℕ) (imglen : ℕ) (info : Info) where
  unfoldable pub get_symbol_index_offset : ℕ → ℕ
  unfolding uint_unpack
  get_symbol_index_offset index =
      if info.has_relative_base
      then uint_unpack host_is_be img (info.offsets_offset + index * get_offsets_elem_size info)
          (get_offsets_elem_size info) info.is_be
        % 2 ^ 32
      else (uint_unpack host_is_be img
            (info.addresses_offset + index * get_addresses_elem_size info)
            (get_addresses_elem_size info) info.is_be
          + (2 ^ 64 - info.kernel_base))
        % 2 ^ 32

  -- One round of the loops: the next place, the type and the name. After a failed decompression the place
  -- and the type stay, and the name is empty.
  abbrev pub next_name : ℕ → ℕ → ℕ × ℕ × List ℕ
  next_name pos type = elim (decompress_symbol_name img imglen info pos) [
    | none ↦ (pos, type, [])
    | some found ↦ found
  ]

  -- The loop over the names that are left: the index of the first that is the symbol.
  unfoldable pub index_from : List ℕ → ℕ → ℕ → ℕ → ℕ → Option ℕ
  index_from symbol zero i pos type = none
  index_from symbol (suc n) i pos type =
      let (pos', type', decomp) = next_name pos type in
      let rest = index_from symbol n (suc i) pos' type' in
      if same decomp symbol then some i else rest

  -- 2 ^ 32 - 1 is -1.
  unfoldable pub get_symbol_offset : List ℕ → ℕ
  unfolding index_from get_symbol_index_offset
  get_symbol_offset symbol = elim (index_from symbol info.num_syms 0 info.names_offset 0) [
    | none ↦ 2 ^ 32 - 1
    | some i ↦ get_symbol_index_offset i
  ]

  -- The difference of the first offset behind `j` that is another one.
  unfoldable pub size_from : ℕ → ℕ → ℕ → ℕ
  unfolding get_symbol_index_offset
  size_from offset zero j = 0
  size_from offset (suc n) j =
      let rest = size_from offset n (suc j) in
      if get_symbol_index_offset j == offset
      then rest
      else (get_symbol_index_offset j + 2 ^ 32 - offset) % 2 ^ 32

  -- The offset and `*size`.
  unfoldable pub get_symbol_offset_and_size : List ℕ → ℕ × ℕ
  unfolding index_from size_from
  get_symbol_offset_and_size symbol = elim (index_from symbol info.num_syms 0 info.names_offset 0) [
    | none ↦ (2 ^ 32 - 1, 0)
    | some i ↦
        let offset = get_symbol_index_offset i in
        (offset, size_from offset (info.num_syms - suc i) (suc i))
  ]

  -- `fn` is a step on the user's data, with the value that it returns.
  module _ {ℓ} {W : Type ℓ} (fn : ℕ → ℕ → List ℕ → ℕ → W → ℕ × W) where
    unfoldable pub each_from : ℕ → ℕ → ℕ → ℕ → W → ℕ × W
    unfolding get_symbol_index_offset
    each_from zero i pos type w = (0, w)
    each_from (suc n) i pos type w =
        let (pos', type', symbol) = next_name pos type in
        let (rc, w') = fn i type' symbol (get_symbol_index_offset i) w in
        let rest = each_from n (suc i) pos' type' w' in if rc == 0 then rest else (rc, w')

    unfoldable pub on_each_symbol : W → ℕ × W
    unfolding each_from
    on_each_symbol w = each_from info.num_syms 0 info.names_offset 0 w

  -- The lines that `dump_all_symbols` prints: an offset, a type and a name.
  unfoldable pub lines_from : ℕ → ℕ → ℕ → ℕ → List (ℕ × ℕ × List ℕ)
  unfolding get_symbol_index_offset
  lines_from zero i pos type = []
  lines_from (suc n) i pos type =
      let (pos', type', symbol) = next_name pos type in
      (get_symbol_index_offset i, type', symbol) ∷ lines_from n (suc i) pos' type'

  unfoldable pub dump_all_symbols : List (ℕ × ℕ × List ℕ)
  unfolding lines_from
  dump_all_symbols = lines_from info.num_syms 0 info.names_offset 0

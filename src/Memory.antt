-- ===== src/Memory.antt =====
-- kernel/base/hmem.c: the memory of the hooks, a region cut into slots of one size. A pointer to the
-- `chain` of a slot is the slot's index. `A` is the union `chain`, and `zeroed` the union cleared.
pub mod Laws
pub mod Region
mod Tests
use kpm_syscall_backtrace.Base.{
  ℕ, zero, suc, ◌+◌, ◌-◌, ◌*◌, ◌/◌, ◌%◌, ◌^◌, ◌==◌, replicate, ltb, if◌then◌else◌, Bool, true,
  false, not, ◌&&◌, Option, none, some, List, [], ◌∷◌, get_elem?, set,
}

-- `enum hook_type`
pub data HookType : Type 0 where
  untyped inline inline_chain function_pointer_chain : HookType

-- `hook_mem_warp_t`
pub record Warp {ℓ} (A : Type ℓ) : Type ℓ where
  pub in_use : Bool
  pub type : HookType
  pub addr : ℕ
  pub chain : A

-- sizeof(hook_mem_warp_t) and offsetof(hook_mem_warp_t, chain) for AArch64: the largest member of the
-- union is `fp_hook_chain_t` with 1216 bytes.
abbrev pub warp_size : ℕ
warp_size = 1232

abbrev pub chain_offset : ℕ
chain_offset = 16

-- `mem_region_start`, and the slots up to `mem_region_end`.
pub record HookMem {ℓ} (A : Type ℓ) : Type ℓ where
  pub start : ℕ
  pub warps : List (Warp A)

-- HOOK_ALLOC_SIZE of kernel/include/preset.h, the size that kernel/base/start.c gives the region.
abbrev pub hook_alloc_size : ℕ
hook_alloc_size = 2 ^ 20

-- The slots that the loops `for (addr = start; addr < end; addr += sizeof(hook_mem_warp_t))` visit.
unfoldable pub slot_count : ℕ → ℕ
slot_count size = (size + warp_size - 1) / warp_size

abbrev pub chain_addr : ℕ → ℕ → ℕ
chain_addr start i = start + i * warp_size + chain_offset

module _ {ℓ} {A : Type ℓ} where
  -- The cleared region: every slot is free.
  unfoldable pub hook_mem_add : A → ℕ → ℕ → HookMem A
  unfolding slot_count
  hook_mem_add zeroed start size = record {
    start = start;
    warps =
        replicate (slot_count size)
          (record { in_use = false; type = untyped; addr = 0; chain = zeroed });
  }

  -- The loop of `hook_mem_zalloc`: the index of the first free slot.
  unfoldable pub find_free : List (Warp A) → Option ℕ
  find_free [] = none
  find_free (w ∷ ws) =
      let rest = find_free ws in
      if w.in_use then (elim rest [ none ↦ none | some i ↦ some (suc i) ]) else some zero

  abbrev pub taken : A → ℕ → HookType → Warp A
  taken zeroed origin_addr type = record {
    in_use = true;
    type = type;
    addr = origin_addr;
    chain = zeroed;
  }

  -- The slot is taken before the alignment is tested, so a misaligned one is lost.
  unfoldable pub hook_mem_zalloc : A → HookMem A → ℕ → HookType → Option ℕ × HookMem A
  unfolding find_free
  hook_mem_zalloc zeroed m origin_addr type = elim (find_free m.warps) [
    | none ↦ (none, m)
    | some i ↦
        let m' = record m { warps = set m.warps i (taken zeroed origin_addr type) } in
        (if chain_addr m.start i % 8 == 0 then some i else none, m')
  ]

  abbrev pub freed : Warp A → Warp A
  freed w = record w { in_use = false }

  unfoldable pub hook_mem_free : HookMem A → ℕ → HookMem A
  hook_mem_free m i = elim (get_elem? m.warps i) [
    | none ↦ m
    | some w ↦ record m { warps = set m.warps i (freed w) }
  ]

  unfoldable pub find_origin : List (Warp A) → ℕ → Option ℕ
  find_origin [] origin_addr = none
  find_origin (w ∷ ws) origin_addr =
      let rest = find_origin ws origin_addr in
      if w.in_use && w.addr == origin_addr
      then some zero
      else (elim rest [ none ↦ none | some i ↦ some (suc i) ])

  unfoldable pub hook_get_mem_from_origin : HookMem A → ℕ → Option ℕ
  unfolding find_origin
  hook_get_mem_from_origin m origin_addr = find_origin m.warps origin_addr

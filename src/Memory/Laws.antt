-- ===== src/Memory/Laws.antt =====
-- Allocation, search and release in the hook memory of kernel/base/hmem.c.
use kpm_syscall_backtrace.Base.{
  ℕ, zero, suc, ◌%◌, ◌≡◌, ◌≢◌, refl, arith, ◌==◌, true, ◌⊎◌, inl, inr, Option-cases, none, some,
  List, [], ◌∷◌, get_elem?, set,
}
use kpm_syscall_backtrace.Memory.{
  HookType, Warp, HookMem, chain_addr, find_free, taken, freed, hook_mem_zalloc, hook_mem_free,
  find_origin, hook_get_mem_from_origin,
}

module _ {ℓ} {A : Type ℓ} where
  -- No two slots in use hold the hook of one address.
  abbrev pub Unique : List (Warp A) → Type 0
  Unique [] = Unit {0}
  Unique (w ∷ ws) = (w.in_use ≡ true → find_origin ws w.addr ≡ none) × Unique ws

  module _ (zeroed : A) (origin : ℕ) (type : HookType) where
    pub find_origin-taken :
        (ws : List (Warp A)) (i : ℕ)
        → find_free ws ≡ some i
        → find_origin ws origin ≡ none
        → find_origin (set ws i (taken zeroed origin type)) origin ≡ some i
    unfolding find_free find_origin
    find_origin-taken [] i e n = cc
    find_origin-taken (w ∷ ws) zero e n = ground arith
    find_origin-taken (w ∷ ws) (suc i) e n = ground (arith, find_origin-taken ws i)

    pub find_origin-taken_ne :
        (ws : List (Warp A)) (i other : ℕ)
        → find_free ws ≡ some i
        → origin ≢ other
        → find_origin (set ws i (taken zeroed origin type)) other ≡ find_origin ws other
    unfolding find_free find_origin
    find_origin-taken_ne [] i other e n = cc
    find_origin-taken_ne (w ∷ ws) zero other e n = ground arith
    find_origin-taken_ne (w ∷ ws) (suc i) other e n =
        ground (arith, find_origin-taken_ne ws i other)

    pub taken-Unique :
        (ws : List (Warp A)) (i : ℕ)
        → find_free ws ≡ some i
        → find_origin ws origin ≡ none
        → Unique ws
        → Unique (set ws i (taken zeroed origin type))
    unfolding find_free find_origin
    taken-Unique [] i e n u = tt
    taken-Unique (w ∷ ws) zero e n u = ground arith
    taken-Unique (w ∷ ws) (suc i) e n u =
        ground (arith, taken-Unique ws i, find_origin-taken_ne ws i w.addr)

  module _ (origin : ℕ) where
    find_origin-freed :
        (ws : List (Warp A)) (i : ℕ) (w : Warp A)
        → Unique ws
        → find_origin ws origin ≡ some i
        → get_elem? ws i ≡ some w
        → find_origin (set ws i (freed w)) origin ≡ none
    unfolding find_origin
    find_origin-freed [] i w u e g = cc
    find_origin-freed (v ∷ ws) zero w u e g = ground arith
    find_origin-freed (v ∷ ws) (suc i) w u e g = ground (arith, find_origin-freed ws i w u.1)

    find_origin-freed_ne :
        (ws : List (Warp A)) (i other : ℕ) (w : Warp A)
        → find_origin ws origin ≡ some i
        → get_elem? ws i ≡ some w
        → origin ≢ other
        → find_origin (set ws i (freed w)) other ≡ find_origin ws other
    unfolding find_origin
    find_origin-freed_ne [] i other w e g n = cc
    find_origin-freed_ne (v ∷ ws) zero other w e g n = ground arith
    find_origin-freed_ne (v ∷ ws) (suc i) other w e g n =
        ground (arith, find_origin-freed_ne ws i other w)

    freed-Unique :
        (ws : List (Warp A)) (i : ℕ) (w : Warp A)
        → find_origin ws origin ≡ some i
        → get_elem? ws i ≡ some w
        → Unique ws
        → Unique (set ws i (freed w))
    unfolding find_origin
    freed-Unique [] i w e g u = tt
    freed-Unique (v ∷ ws) zero w e g u = ground arith
    freed-Unique (v ∷ ws) (suc i) w e g u =
        ground (arith, freed-Unique ws i w, find_origin-freed_ne ws i v.addr w)

    -- The slot that the search finds is in use, for the address sought.
    find_origin-get :
        (ws : List (Warp A)) (i : ℕ)
        → find_origin ws origin ≡ some i
        → (w : Warp A) × (get_elem? ws i ≡ some w) × (w.in_use ≡ true) × (w.addr ≡ origin)
    unfolding find_origin
    find_origin-get [] i e = cc
    find_origin-get (v ∷ ws) zero e = (v, refl, ground arith, ground arith)
    find_origin-get (v ∷ ws) (suc i) e = find_origin-get ws i (ground arith)

  -- `start` is the start of a page, so each `chain` is aligned to 8 bytes.
  abbrev pub IsAligned : HookMem A → Type 0
  IsAligned m = m.start % 8 ≡ 0

  abbrev pub AllInUse : List (Warp A) → Type 0
  AllInUse [] = Unit {0}
  AllInUse (w ∷ ws) = (w.in_use ≡ true) × AllInUse ws

  find_free-none : (ws : List (Warp A)) → find_free ws ≡ none → AllInUse ws
  unfolding find_free
  find_free-none [] e = tt
  find_free-none (w ∷ ws) e = ground (arith, find_free-none ws)

  pub zalloc_cases :
      (zeroed : A) (m : HookMem A) (origin : ℕ) (type : HookType)
      → IsAligned m
      → ((hook_mem_zalloc zeroed m origin type ≡ (none, m)) × AllInUse m.warps)
        ⊎ ((i : ℕ) × (find_free m.warps ≡ some i)
            × (hook_mem_zalloc zeroed m origin type
                ≡ (some i, record m { warps = set m.warps i (taken zeroed origin type) })))
  unfolding hook_mem_zalloc
  zalloc_cases zeroed m origin type aligned = elim (Option-cases (find_free m.warps)) [
    | inl e ↦ inl (rw (e, hook_mem_zalloc), find_free-none m.warps e)
    | inr (i, e) ↦
        let fits : (chain_addr m.start i % 8 == 0) ≡ true = ground arith in
        inr (i, e, rw (e, hook_mem_zalloc) (rw fits refl))
  ]

  -- With the region aligned, no two slots for one address, and none for `origin`, an allocation either
  -- finds every slot in use and changes nothing, or returns a slot that the search for `origin` then
  -- finds, changes the search for no other address, and leaves no two slots for one address.
  pub zalloc-get :
      (zeroed : A) (m : HookMem A) (origin other : ℕ) (type : HookType)
      → IsAligned m
      → Unique m.warps
      → hook_get_mem_from_origin m origin ≡ none
      → origin ≢ other
      → let (r, m') = hook_mem_zalloc zeroed m origin type in
        ((r ≡ none) × (m' ≡ m) × AllInUse m.warps)
        ⊎ ((i : ℕ) × (r ≡ some i)
            × (hook_get_mem_from_origin m' origin ≡ some i)
            × (hook_get_mem_from_origin m' other ≡ hook_get_mem_from_origin m other)
            × Unique m'.warps)
  unfolding hook_get_mem_from_origin
  zalloc-get zeroed m origin other type aligned u fresh ne =
      elim (zalloc_cases zeroed m origin type aligned) [
        | inl (e, full) ↦ rw e (inl (refl, refl, full))
        | inr (i, e, z) ↦ rw z (
            inr (
              i,
              refl,
              find_origin-taken zeroed origin type m.warps i e fresh,
              find_origin-taken_ne zeroed origin type m.warps i other e ne,
              taken-Unique zeroed origin type m.warps i e fresh u,
            ))
      ]

  -- With no two slots for one address, the release of the slot of `origin` makes the search for it fail,
  -- changes the search for no other address, and leaves no two slots for one address.
  pub free-get :
      (m : HookMem A) (origin other i : ℕ)
      → Unique m.warps
      → hook_get_mem_from_origin m origin ≡ some i
      → origin ≢ other
      → let m' = hook_mem_free m i in
        (hook_get_mem_from_origin m' origin ≡ none)
        × (hook_get_mem_from_origin m' other ≡ hook_get_mem_from_origin m other)
        × Unique m'.warps
  unfolding hook_get_mem_from_origin hook_mem_free
  free-get m origin other i u e ne =
      let (w, g, _, _) = find_origin-get origin m.warps i e in
      rw (g, hook_mem_free)
        (
          find_origin-freed origin m.warps i w u e g,
          find_origin-freed_ne origin m.warps i other w e g ne,
          freed-Unique origin m.warps i w e g u,
        )

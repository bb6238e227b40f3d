-- ===== src/Unwind/File.antt =====
-- The base address and the offset that get_vma_info_str of stack_unwind.c prints.
use kpm_syscall_backtrace.Base.{
  ℕ, zero, suc, ◌+◌, ◌-◌, ◌%◌, ◌^◌, ◌≤◌, ◌<◌, ◌==◌, ◌≡◌, ◌≢◌, refl, ap, ◌∙◌, arith, leb, ltb,
  Bool-cases, false, not, ◌&&◌, ◌||◌, ◌⊎◌, inl, inr, Option-cases, none, some,
}
use kpm_syscall_backtrace.Unwind.{Functions, Area, Info, named, unnamed, anonymous}
use kpm_syscall_backtrace.Unwind.Name.{my_kbasename}
use kpm_syscall_backtrace.Unwind.Vma.{
  Answers, base_back, base_address, info_of_file, info_of_area, info_under_lock, get_vma_info_str,
}

module _ (areas : ℕ → Area) where
  -- The area `k` places before.
  abbrev pub before : ℕ → ℕ → ℕ
  before zero vma = vma
  before (suc k) vma = before k (areas vma).vm_prev

  -- The `k` areas before are there and of the file.
  abbrev pub Same : ℕ → ℕ → ℕ → Type 0
  Same file zero vma = Unit {0}
  Same file (suc k) vma =
      let prev = (areas vma).vm_prev in
      (prev ≢ 0) × ((areas prev).vm_file ≡ file) × Same file k prev

  -- No area of the file comes directly before.
  abbrev pub IsFirst : ℕ → ℕ → Type 0
  IsFirst file vma = let prev = (areas vma).vm_prev in (prev ≡ 0) ⊎ ((areas prev).vm_file ≢ file)

  -- `base` is the start of the first of the areas of the file that follow each other, or of that
  -- `n` places before, if there are so many.
  abbrev pub IsBase : ℕ → ℕ → ℕ → ℕ → Type 0
  IsBase file n vma base =
      (k : ℕ) × (k ≤ n)
      × Same file k vma
      × (base ≡ (areas (before k vma)).vm_start)
      × ((k ≡ n) ⊎ IsFirst file (before k vma))

  base_back-IsBase :
      (file n curr : ℕ) → IsBase file n curr (base_back areas file n curr (areas curr).vm_start)
  unfolding base_back
  base_back-IsBase file zero curr = (0, omega arith, tt, refl, inl refl)
  base_back-IsBase file (suc n) curr =
      let prev = (areas curr).vm_prev in
      elim (Bool-cases (prev == 0)) [
        | inl e ↦ rw (e, base_back) (0, omega arith, tt, refl, inr (inl (ground (arith, e))))
        | inr e ↦ elim (Bool-cases ((areas prev).vm_file == file)) [
          | inr e' ↦
              rw (e, e', base_back) (0, omega arith, tt, refl, inr (inr (ground (arith, e'))))
          | inl e' ↦
              rw (e, e', base_back)
                (further file n curr (ground (arith, e)) (ground (arith, e'))
                  (base_back-IsBase file n prev))
        ]
      ]
    where
      further :
          (file n curr : ℕ) {base : ℕ}
          → (areas curr).vm_prev ≢ 0
          → (areas (areas curr).vm_prev).vm_file ≡ file
          → IsBase file n (areas curr).vm_prev base
          → IsBase file (suc n) curr base
      further file n curr real same (k, few, rest, e, end) = (
        suc k,
        omega (arith, few),
        (real, same, rest),
        e,
        elim end [ inl all ↦ inl (ground (arith, all)) | inr first ↦ inr first ],
      )

  -- The base of an address in a mapped file is the start of an area of that file, reached from the area of
  -- the address over areas of the file only. No area of the file comes before it, or it is 10 areas back.
  pub base_address-IsBase :
      (vma : ℕ)
      → (areas vma).vm_file ≢ 0
      → IsBase (areas vma).vm_file 10 vma (base_address areas vma)
  unfolding base_address
  base_address-IsBase vma mapped =
      let file : ((areas vma).vm_file == 0) ≡ false = ground (arith, mapped) in
      rw (file, base_address) (base_back-IsBase (areas vma).vm_file 10 vma)

base_address-of :
    (areas : ℕ → Area) (vma : ℕ)
    → (((areas vma).vm_file ≡ 0) × (base_address areas vma ≡ (areas vma).vm_start))
      ⊎ (((areas vma).vm_file ≢ 0)
          × IsBase areas (areas vma).vm_file 10 vma (base_address areas vma))
unfolding base_address
base_address-of areas vma = elim (Bool-cases ((areas vma).vm_file == 0)) [
  | inl e ↦ inl (ground (arith, e), rw (e, base_address) refl)
  | inr e ↦
      let mapped : (areas vma).vm_file ≢ 0 = ground (arith, e) in
      inr (mapped, base_address-IsBase areas vma mapped)
]

abbrev pub offset_of : Info → ℕ
offset_of (named name offset) = offset
offset_of (unnamed offset) = offset
offset_of (anonymous offset) = offset

-- The areas of a process are in the order of their addresses, below 2 ^ 64.
abbrev pub IsOrdered : (ℕ → Area) → Type 0
IsOrdered areas =
    (vma : ℕ)
    → ((areas (areas vma).vm_prev).vm_start ≤ (areas vma).vm_start) × ((areas vma).vm_end ≤ 2 ^ 64)

module _ (areas : ℕ → Area) (ordered : IsOrdered areas) where
  base_back-le :
      (file n curr : ℕ) → base_back areas file n curr (areas curr).vm_start ≤ (areas curr).vm_start
  unfolding base_back
  base_back-le file zero curr = omega arith
  base_back-le file (suc n) curr =
      ground (arith, base_back-le file n (areas curr).vm_prev, (ordered curr).0)

  base_address-le : (vma : ℕ) → base_address areas vma ≤ (areas vma).vm_start
  unfolding base_address
  base_address-le vma = ground (arith, base_back-le (areas vma).vm_file 10 vma)

info_of_file-offset :
    (f : Functions) (a : Answers) (offset : ℕ)
    → (i : Info) × ((info_of_file f a offset).0 ≡ some i) × (offset_of i ≡ offset)
unfolding info_of_file
info_of_file-offset f a offset =
    elim (Bool-cases (f.g_file_path && f.g_get_free_page && f.g_free_page)) [
      | inr e ↦ rw (e, info_of_file) (unnamed offset, refl, refl)
      | inl e ↦ elim (Bool-cases (a.page == 0)) [
        | inl e' ↦ rw (e, e', info_of_file) (unnamed offset, refl, refl)
        | inr e' ↦ elim (Option-cases a.path) [
          | inl p ↦ rw (e, e', p, info_of_file) (unnamed offset, refl, refl)
          | inr (name, p) ↦
              rw (e, e', p, info_of_file) (named (my_kbasename name) offset, refl, refl)
        ]
      ]
    ]

info_of_area-offset :
    (f : Functions) (a : Answers) (file offset : ℕ)
    → (i : Info) × ((info_of_area f a file offset).0 ≡ some i) × (offset_of i ≡ offset)
unfolding info_of_area
info_of_area-offset f a file offset = elim (Bool-cases (file == 0)) [
  | inl e ↦ rw (e, info_of_area) (anonymous offset, refl, refl)
  | inr e ↦ rw (e, info_of_area) (info_of_file-offset f a offset)
]

module _ (f : Functions) (a : Answers) (ip : ℕ) where
  -- The address lies in the area that was found, and is what is printed on the base.
  abbrev pub Located : Info → Type 0
  Located i =
      let area = a.areas a.found in
      (area.vm_start ≤ ip)
      × (ip < area.vm_end)
      × ((base : ℕ) × (((area.vm_file ≡ 0) × (base ≡ area.vm_start))
            ⊎ ((area.vm_file ≢ 0) × IsBase a.areas area.vm_file 10 a.found base))
          × (base + offset_of i ≡ ip))

  info_under_lock-Located :
      IsOrdered a.areas
      → ((info_under_lock f a ip).0 ≡ none)
        ⊎ ((i : Info) × ((info_under_lock f a ip).0 ≡ some i) × Located i)
  unfolding info_under_lock
  info_under_lock-Located ordered =
      let area = a.areas a.found in
      let base = base_address a.areas a.found in
      let offset = (ip + 2 ^ 64 - base) % 2 ^ 64 in
      let low = base_address-le a.areas ordered a.found in
      let high = (ordered a.found).1 in
      elim (Bool-cases (a.found == 0)) [
        | inl e ↦ rw (e, info_under_lock) (inl refl)
        | inr e ↦ elim (Bool-cases (ltb ip area.vm_start || leb area.vm_end ip)) [
          | inl out ↦ rw (e, out, info_under_lock) (inl refl)
          | inr there ↦
              let inside : (area.vm_start ≤ ip) × (ip < area.vm_end) = ground (arith, there) in
              let sum : base + offset ≡ ip = omega (arith, low, high, inside) in
              let (i, is, has) = info_of_area-offset f a area.vm_file offset in
              rw (e, there, info_under_lock)
                (inr (
                  i,
                  is,
                  (
                    inside.0,
                    inside.1,
                    (base, base_address-of a.areas a.found, ap (λ o. base + o) has ∙ sum),
                  ),
                ))
        ]
      ]

  -- When the memory areas of the process are in the order of their addresses, an address is printed with
  -- nothing, or it lies in the area that `find_vma` returned and is the sum of a base and the offset that is
  -- printed. The base is the start of the area if that is of no file. Otherwise it is the start of the first of
  -- the areas of the file that follow each other up to that area, or of the one 10 areas before it.
  pub get_vma_info_str-Located :
      IsOrdered a.areas
      → ((get_vma_info_str f a ip).0 ≡ none)
        ⊎ ((i : Info) × ((get_vma_info_str f a ip).0 ≡ some i) × Located i)
  unfolding get_vma_info_str
  get_vma_info_str-Located ordered =
      elim (Bool-cases
        (a.mm == 0 || not (f.g_find_vma && f.g_down_read_trylock && f.g_up_read && f.g_snprintf))) [
          | inl e ↦ rw (e, get_vma_info_str) (inl refl)
          | inr e ↦ elim (Bool-cases a.locked) [
            | inl l ↦ rw (e, l, get_vma_info_str) (info_under_lock-Located ordered)
            | inr l ↦ rw (e, l, get_vma_info_str) (inl refl)
          ]
        ]

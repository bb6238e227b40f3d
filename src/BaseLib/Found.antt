-- ===== src/BaseLib/Found.antt =====
-- The search of lib_memmem of kernel/base/baselib.c, which leaves places out, finds what a search of every
-- place finds.
use kpm_syscall_backtrace.Base.{
  ℕ, zero, suc, ◌+◌, ◌-◌, ◌<◌, ◌≤◌, ◌==◌, ◌≡◌, ◌≢◌, ◌⊎◌, refl, sym, ◌∙◌, arith, ltb, if◌then◌else◌,
  Eq-cases, true, false, ◌||◌, inl, inr, Option, none, some,
}
use mathlib.Core.Path.{subst}
use kpm_syscall_backtrace.BaseLib.Search.{lib_memcmp, search_from, search_byte, lib_memmem}

module _ (mem : ℕ → ℕ) where
  -- The `n` bytes from `a` on are those from `b` on.
  abbrev pub Agree : ℕ → ℕ → ℕ → Type 0
  Agree a b zero = Unit {0}
  Agree a b (suc n) = (mem a ≡ mem b) × Agree (suc a) (suc b) n

  -- The string at `x` of length `m` stands at none of the `count` places from `y` on.
  abbrev pub Nowhere : ℕ → ℕ → ℕ → ℕ → Type 0
  Nowhere x m y zero = Unit {0}
  Nowhere x m y (suc count) = (¬ Agree x y m) × Nowhere x m (suc y) count

  -- The first of the `count` places from `y` on where the string stands, or none.
  abbrev pub First : ℕ → ℕ → ℕ → ℕ → Option ℕ → Type 0
  First x m y count r =
      ((d : ℕ) × (r ≡ some (y + d)) × (d < count) × Agree x (y + d) m × Nowhere x m y d)
      ⊎ ((r ≡ none) × Nowhere x m y count)

  First-here :
      (x m y count : ℕ) (r : Option ℕ) → r ≡ some y → Agree x y m → First x m y (suc count) r
  First-here x m y count r e here =
      let place : y + 0 ≡ y = omega arith in inl (0, rw place e, omega arith, rw place here, tt)

  First-later :
      (x m y count : ℕ) (r : Option ℕ)
      → ¬ Agree x y m
      → First x m (suc y) count r
      → First x m y (suc count) r
  First-later x m y count r not_here (inl (d, e, less, there, before)) =
      let place : y + suc d ≡ suc y + d = omega arith in
      inl (suc d, rw place e, omega (arith, less), rw place there, (not_here, before))
  First-later x m y count r not_here (inr (e, nowhere)) = inr (e, (not_here, nowhere))

-- Memory holds bytes.
abbrev pub HoldsBytes : (ℕ → ℕ) → Type 0
HoldsBytes mem = (a : ℕ) → mem a < 256

module _ (mem : ℕ → ℕ) (bytes : HoldsBytes mem) where
  lib_memcmp-Agree :
      (a b n : ℕ)
      → ((lib_memcmp mem a b n ≡ 0) × Agree mem a b n)
        ⊎ ((lib_memcmp mem a b n ≢ 0) × ¬ Agree mem a b n)
  unfolding lib_memcmp
  lib_memcmp-Agree a b zero = inl (refl, tt)
  lib_memcmp-Agree a b (suc n) =
      ground (arith, bytes a, bytes b, lib_memcmp-Agree (suc a) (suc b) n)

  search_byte-First : (x y n : ℕ) → First mem x 1 y n (search_byte mem y x n)
  unfolding search_byte
  search_byte-First x y zero = inr (refl, tt)
  search_byte-First x y (suc n) = elim (Eq-cases (mem y) (mem x)) [
    | inl e ↦
        let found : (mem y == mem x) ≡ true = ground (arith, e) in
        rw (found, search_byte) (First-here mem x 1 y n _ refl (sym e, tt))
    | inr ne ↦
        let other : (mem y == mem x) ≡ false = ground (arith, ne) in
        rw (other, search_byte)
          (First-later mem x 1 y n _ (λ a. ne (sym a.0)) (search_byte-First x (suc y) n))
  ]

  module _ (x y last m k l : ℕ) where
    abbrev from : ℕ → ℕ → Option ℕ
    from fuel j = search_from mem y x last m k l fuel j

    -- Past the last place there is nothing.
    search_from-past : (fuel j : ℕ) → last < j → from fuel j ≡ none
    unfolding search_from
    search_from-past zero j past = refl
    search_from-past (suc fuel) j past = ground (arith, past)

    -- What one iteration tells of its place.
    search_from-step :
        (fuel j : ℕ)
        → j ≤ last
        → ((from (suc fuel) j ≡ some (y + j)) × Agree mem x (y + j) (suc (suc m)))
          ⊎ ((from (suc fuel) j ≡ from fuel (j + l))
              × (¬ Agree mem x (y + j) (suc (suc m)))
              × (mem (suc x) ≡ mem (suc (y + j))))
          ⊎ ((from (suc fuel) j ≡ from fuel (j + k))
              × (¬ Agree mem x (y + j) (suc (suc m)))
              × (mem (suc x) ≢ mem (suc (y + j))))
    unfolding search_from
    search_from-step fuel j inside =
        ground (arith, inside, lib_memcmp-Agree (suc (suc x)) (suc (suc (y + j))) m)

    -- The steps that the first two bytes of the string allow.
    abbrev pub Steps : Type 0
    Steps =
        ((mem x ≡ mem (suc x)) × (k ≡ 2) × (l ≡ 1)) ⊎ ((mem x ≢ mem (suc x)) × (k ≡ 1) × (l ≡ 2))

    abbrev Result : ℕ → ℕ → Option ℕ → Type 0
    Result j count r = First mem x (suc (suc m)) (y + j) count r

    after_one :
        (j s count : ℕ) (r : Option ℕ)
        → s ≡ 1
        → ¬ Agree mem x (y + j) (suc (suc m))
        → Result (j + s) count r
        → Result j (suc count) r
    after_one j s count r one not_here later =
        let place : suc (y + j) ≡ y + (j + s) = omega (arith, one) in
        First-later mem x (suc (suc m)) (y + j) count r not_here (rw place later)

    after_two :
        (j s count : ℕ) (r : Option ℕ)
        → s ≡ 2
        → ¬ Agree mem x (y + j) (suc (suc m))
        → mem x ≢ mem (suc (y + j))
        → Result (j + s) count r
        → Result j (suc (suc count)) r
    after_two j s count r two not_here differ later =
        let place : suc (suc (y + j)) ≡ y + (j + s) = omega (arith, two) in
        First-later mem x (suc (suc m)) (y + j) (suc count) r not_here
          (First-later mem x (suc (suc m)) (suc (y + j)) count r (λ a. differ a.0) (rw place later))

    search_from-First :
        (count fuel j : ℕ)
        → Steps
        → count ≤ fuel
        → j + count ≡ suc last
        → Result j count (from fuel j)
    search_from-First zero fuel j steps enough at =
        inr (search_from-past fuel j (omega (arith, at)), tt)
    search_from-First (suc count) zero j steps enough at = absurd (omega (arith, enough))
    search_from-First (suc zero) (suc fuel) j steps enough at =
        elim (search_from-step fuel j (omega (arith, at))) [
          | inl (found, here) ↦ First-here mem x (suc (suc m)) (y + j) 0 _ found here
          | inr (inl (goes, not_here, second)) ↦
              inr (goes ∙ search_from-past fuel (j + l) (past_l steps), (not_here, tt))
          | inr (inr (goes, not_here, second)) ↦
              inr (goes ∙ search_from-past fuel (j + k) (past_k steps), (not_here, tt))
        ]
      where
        past_l : Steps → last < j + l
        past_l steps = ground (arith, at)

        past_k : Steps → last < j + k
        past_k steps = ground (arith, at)
    search_from-First (suc (suc count)) (suc fuel) j steps enough at =
        elim (search_from-step fuel j (omega (arith, at))) [
          | inl (found, here) ↦ First-here mem x (suc (suc m)) (y + j) (suc count) _ found here
          | inr (inl (goes, not_here, second)) ↦ elim steps [
            | inl (same, two, one) ↦ rw goes (
                after_one j l (suc count) (from fuel (j + l)) one not_here (
                  search_from-First (suc count) fuel (j + l) (inl (same, two, one))
                    (omega (arith, enough)) (omega (arith, at, one))))
            | inr (differ, one, two) ↦ rw goes (
                after_two j l count (from fuel (j + l)) two not_here (λ e. differ (e ∙ sym second))
                  (search_from-First count fuel (j + l) (inr (differ, one, two))
                    (omega (arith, enough)) (omega (arith, at, two))))
          ]
          | inr (inr (goes, not_here, second)) ↦ elim steps [
            | inr (differ, one, two) ↦ rw goes (
                after_one j k (suc count) (from fuel (j + k)) one not_here (
                  search_from-First (suc count) fuel (j + k) (inr (differ, one, two))
                    (omega (arith, enough)) (omega (arith, at, one))))
            | inl (same, two, one) ↦ rw goes (
                after_two j k count (from fuel (j + k)) two not_here (λ e. second (sym same ∙ e))
                  (search_from-First count fuel (j + k) (inl (same, two, one))
                    (omega (arith, enough)) (omega (arith, at, two))))
          ]
        ]

  -- The steps that lib_memmem takes.
  abbrev step_k : ℕ → ℕ
  step_k x = if mem x == mem (suc x) then 2 else 1

  abbrev step_l : ℕ → ℕ
  step_l x = if mem x == mem (suc x) then 1 else 2

  lib_memmem-byte : (y n x : ℕ) → 1 ≤ n → lib_memmem mem y n x 1 ≡ search_byte mem y x n
  unfolding lib_memmem
  lib_memmem-byte y n x fits =
      let there : (n == 0) ≡ false = ground (arith, fits) in rw (there, lib_memmem) refl

  lib_memmem-search :
      (y n x m : ℕ)
      → suc (suc m) ≤ n
      → let last = n - suc (suc m) in
        lib_memmem mem y n x (suc (suc m))
        ≡ search_from mem y x last m (step_k x) (step_l x) (suc last) 0
  unfolding lib_memmem
  lib_memmem-search y n x m fits =
      let long : (ltb n (suc (suc m)) || n == 0) ≡ false = ground (arith, fits) in
      rw (long, lib_memmem) refl

  -- On a memory of bytes, the search returns the first place in the text where a string that is not empty
  -- and no longer than the text stands, or null when it stands at none: the places that its steps leave
  -- out are none of those, and its loop ends.
  pub lib_memmem-First :
      (haystack n needle m : ℕ)
      → 0 < m
      → m ≤ n
      → First mem needle m haystack (suc n - m) (lib_memmem mem haystack n needle m)
  lib_memmem-First haystack n needle zero some_byte fits = absurd (omega (arith, some_byte))
  lib_memmem-First haystack n needle (suc zero) some_byte fits =
      let places : suc n - 1 ≡ n = omega arith in
      rw (places, lib_memmem-byte haystack n needle fits) (search_byte-First needle haystack n)
  lib_memmem-First haystack n needle (suc (suc m)) some_byte fits =
      let last = n - suc (suc m) in
      let places : suc n - suc (suc m) ≡ suc last = omega (arith, fits) in
      let start : haystack + 0 ≡ haystack = omega arith in
      let steps : Steps needle haystack last m (step_k needle) (step_l needle) = ground arith in
      rw (places, lib_memmem-search haystack n needle m fits)
        (subst
          (λ h.
            First mem needle (suc (suc m)) h (suc last)
              (search_from mem haystack needle last m (step_k needle) (step_l needle) (suc last) 0))
          start
          (search_from-First needle haystack last m (step_k needle) (step_l needle) (suc last)
            (suc last) 0 steps (omega arith) (omega arith)))

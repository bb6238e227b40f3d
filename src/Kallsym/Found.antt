-- ===== src/Kallsym/Found.antt =====
-- What the searches of tools/kallsym.c for the names and the markers have found when they succeed.
use mathlib.Core.Path.{subst}
use mathlib.Core.Option.{some-injective}
use kpm_syscall_backtrace.Base.{
  ℕ, zero, suc, ◌+◌, ◌-◌, ◌*◌, ◌/◌, ◌%◌, ◌<◌, ◌≤◌, ◌≡◌, ◌≢◌, refl, ap, arith, Bool, Bool-cases,
  Eq-cases, true, ◌⊎◌, inl, inr, Option-cases, some,
}
use kpm_syscall_backtrace.Kallsym.{Info}
use kpm_syscall_backtrace.Kallsym.Names.{name_len}
use kpm_syscall_backtrace.Kallsym.Markers.{marker_of, names_agree, is_names, names_from, find_names}

module _ (img : ℕ → ℕ) where
  -- The place behind a name, and the place of the `n`-th name from a place on.
  abbrev pub behind_name : ℕ → ℕ
  behind_name pos = let (len, pos') = name_len img pos in pos' + len

  abbrev pub name_place : ℕ → ℕ → ℕ
  name_place cand zero = cand
  name_place cand (suc n) = behind_name (name_place cand n)

module _ (host_is_be : Bool) (img : ℕ → ℕ) (imglen : ℕ) (info : Info) where
  -- A marker gives the distance of its name from the first.
  abbrev pub MarksName : ℕ → ℕ → Type 0
  MarksName cand i = name_place img cand (suc i) - cand ≡ marker_of host_is_be img imglen info i

  pub agree_step :
      (fuel cand i pos left : ℕ)
      → names_agree host_is_be img imglen info (suc fuel) cand i pos left ≡ true
      → ((i % 256 ≢ 255)
          × (names_agree host_is_be img imglen info fuel cand (suc i) (behind_name img pos) left
              ≡ true))
        ⊎ ((i % 256 ≡ 255)
            × (behind_name img pos - cand ≡ marker_of host_is_be img imglen info i)
            × ((left ≡ 1)
                ⊎ (names_agree host_is_be img imglen info fuel cand
                      (suc i)
                      (behind_name img pos)
                      (left - 1)
                    ≡ true)))
  unfolding names_agree
  agree_step fuel cand i pos left h = elim (Eq-cases (i % 256) 255) [
    | inl e ↦ inr (
      e,
      ground arith,
      elim (Eq-cases left 1) [ inl last ↦ inl last | inr more ↦ inr (ground arith) ],
    )
    | inr e ↦ inl (e, ground arith)
  ]

  agree-MarksName :
      (fuel cand i pos left : ℕ)
      → pos ≡ name_place img cand i
      → 0 < left
      → names_agree host_is_be img imglen info fuel cand i pos left ≡ true
      → (m : ℕ) → i ≤ 256 * m + 255
      → m < i / 256 + left
      → MarksName cand (256 * m + 255)
  unfolding names_agree
  agree-MarksName zero cand i pos left place some_left h m low high = cc
  agree-MarksName (suc fuel) cand i pos left place some_left h m low high =
      let place' : behind_name img pos ≡ name_place img cand (suc i) = ap (behind_name img) place in
      elim (agree_step fuel cand i pos left h) [
        | inl (e, on) ↦
            agree-MarksName fuel cand (suc i) _ left place' some_left on m (omega (arith, e))
              (omega (arith, e))
        | inr (e, here, more) ↦ elim (Eq-cases i (256 * m + 255)) [
          | inl is ↦ subst (MarksName cand) is (rw (← place') here)
          | inr other ↦ elim more [
            | inl last ↦ absurd (omega (arith, e))
            | inr on ↦
                agree-MarksName fuel cand (suc i) _ (left - 1) place' (omega (arith, e)) on m
                  (omega (arith, e)) (omega (arith, e))
          ]
        ]
      ]

  pub names_from-is_names :
      (n cand found : ℕ)
      → names_from host_is_be img imglen info n cand ≡ some found
      → is_names host_is_be img imglen info found ≡ true
  unfolding names_from
  names_from-is_names zero cand found e = cc
  names_from-is_names (suc n) cand found e =
      elim (Bool-cases (is_names host_is_be img imglen info cand)) [
        | inl yes_it_is ↦
            subst (λ c. is_names host_is_be img imglen info c ≡ true)
              (some-injective _ _ (rw yes_it_is at e)) yes_it_is
        | inr not_it ↦ names_from-is_names n (suc cand) found (rw not_it at e)
      ]

  -- When `find_names` succeeds, the place it gives is one from which the first five markers agree: the
  -- marker behind 256 names, and those behind each further 256, give the distance of the next name.
  pub find_names-marks :
      (info' : Info)
      → find_names host_is_be img imglen info ≡ some info'
      → (m : ℕ) → m < 5
      → MarksName info'.names_offset (256 * m + 255)
  unfolding find_names
  find_names-marks info' e m few =
      elim (Option-cases
        (names_from host_is_be img imglen info (info.markers_offset - 0x4000) 0x4000)) [
          | inl absent ↦ (let e' = rw (find_names, absent) at e in cc e')
          | inr (cand, found) ↦
              let is : cand ≡ info'.names_offset =
                ap (λ (i : Info). i.names_offset)
                  (some-injective _ _ (rw (find_names, found) at e)) in
              subst (λ c. MarksName c (256 * m + 255)) is
                (agree-MarksName imglen cand 0 cand 5 refl (omega arith)
                  (names_from-is_names _ _ _ found) m (omega arith) (omega arith))
        ]

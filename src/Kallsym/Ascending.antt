-- ===== src/Kallsym/Ascending.antt =====
-- The table of markers that tools/kallsym.c finds.
use mathlib.Core.Path.{subst}
use mathlib.Core.Option.{some-injective}
use kpm_syscall_backtrace.Base.{
  ℕ, zero, suc, ◌+◌, ◌-◌, ◌<◌, ◌≤◌, ◌≡◌, ◌==◌, refl, ap, sym, ◌∙◌, arith, ltb, leb, Bool,
  Bool-cases, true, ◌&&◌, ◌⊎◌, inl, inr, some,
}
use kpm_syscall_backtrace.Kallsym.{Info}
use kpm_syscall_backtrace.Kallsym.Markers.{
  ksym_min_marker, lt_signed, marker_at, markers_down, find_markers_internal,
}

module _ (host_is_be : Bool) (img : ℕ → ℕ) (imglen : ℕ) (info : Info) (elem_size : ℕ) where
  abbrev pub marker : ℕ → ℕ
  marker cand = marker_at host_is_be img imglen info elem_size cand

  -- `n` markers from a place on, each below the next.
  abbrev pub Ascending : ℕ → ℕ → Type 0
  Ascending start zero = Unit {0}
  Ascending start (suc zero) = Unit {0}
  Ascending start (suc (suc n)) =
      (lt_signed (marker start) (marker (start + elem_size)) ≡ true)
      × Ascending (start + elem_size) (suc n)

  one_more :
      (count cand last : ℕ)
      → (count ≡ 0) ⊎ (last ≡ marker (cand + elem_size))
      → Ascending (cand + elem_size) count
      → lt_signed (marker cand) last ≡ true
      → Ascending cand (suc count)
  one_more zero cand last known asc less = tt
  one_more (suc n) cand last (inl e) asc less = absurd (omega arith)
  one_more (suc n) cand last (inr e) asc less = (ap (lt_signed (marker cand)) (sym e) ∙ less, asc)

  -- Where the loop ends: at a marker that is 0 and the first of the table, or below the table.
  abbrev pub EndsAt : ℕ × ℕ → Type 0
  EndsAt (cand, count) =
      ((marker cand ≡ 0) × Ascending cand count)
      ⊎ ((cand ≤ 0x10000) × Ascending (cand + elem_size) count)

  module _ (narrow : elem_size ≤ 8) (wide : 0 < elem_size) where
    markers_down-EndsAt :
        (fuel cand last count : ℕ)
        → cand < fuel
        → (count ≡ 0) ⊎ (last ≡ marker (cand + elem_size))
        → Ascending (cand + elem_size) count
        → EndsAt (markers_down host_is_be img imglen info elem_size fuel cand last count)
    unfolding markers_down
    markers_down-EndsAt zero cand last count enough known asc = absurd (omega (arith, enough))
    markers_down-EndsAt (suc fuel) cand last count enough known asc =
        elim (Bool-cases (leb cand 0x10000)) [
          | inl low ↦ rw low (inr (ground arith, asc))
          | inr high ↦
              let above : 0x10000 < cand = ground arith in
              let back : cand ≡ cand - elem_size + elem_size = omega (arith, above, narrow) in
              elim (Bool-cases (lt_signed (marker cand) last)) [
                | inl less ↦
                    let more = one_more count cand last known asc less in
                    elim (Bool-cases (marker cand == 0 && ltb ksym_min_marker (suc count))) [
                      | inl stop ↦ rw (high, less, stop) (inl (ground arith, more))
                      | inr on ↦
                          rw (high, less, on)
                            (markers_down-EndsAt fuel (cand - elem_size) (marker cand) (suc count)
                              (omega (arith, above, enough, wide)) (inr (ap marker back))
                              (subst (λ c. Ascending c (suc count)) back more))
                    ]
                | inr not_less ↦
                    rw (high, not_less)
                      (markers_down-EndsAt fuel (cand - elem_size) (marker cand) 0
                        (omega (arith, above, enough, wide)) (inl refl) tt)
              ]
        ]

    -- For elements of one to eight bytes: when `find_markers_internal` succeeds, the table has 100 markers
    -- at least, they ascend with their places, and the first is 0, or the search has come down to 0x10000.
    pub find_markers_internal-Ascends :
        (info' : Info)
        → find_markers_internal host_is_be img imglen info elem_size ≡ some info'
        → (ksym_min_marker ≤ info'.marker_num) × EndsAt (info'.markers_offset, info'.marker_num)
    unfolding find_markers_internal
    find_markers_internal-Ascends info' e =
        let start : ℕ = info.token_table_offset in
        let r : ℕ × ℕ =
          markers_down host_is_be img imglen info elem_size (suc start) start imglen 0 in
        let ends : EndsAt r =
          markers_down-EndsAt (suc start) start imglen 0 (omega arith) (inl refl) tt in
        elim (Bool-cases (ltb r.1 ksym_min_marker)) [
          | inl few ↦ (let e' = rw (find_markers_internal, few) at e in cc e')
          | inr enough ↦
              let same = some-injective _ _ (rw (find_markers_internal, enough) at e) in
              let place : r.0 ≡ info'.markers_offset = ap (λ (i : Info). i.markers_offset) same in
              let num : r.1 ≡ info'.marker_num = ap (λ (i : Info). i.marker_num) same in
              (rw (← num) (ground arith), rw (← place, ← num) ends)
        ]

-- ===== src/Kallsym/Analyzed.antt =====
-- What holds of the state that `analyze_kallsym_info` of tools/kallsym.c returns when it succeeds.
use mathlib.Core.Option.{some-injective}
use kpm_syscall_backtrace.Base.{
  ℕ, zero, suc, ◌+◌, ◌-◌, ◌*◌, ◌≡◌, refl, ap, sym, ◌∙◌, if◌then◌else◌, Bool, Bool-cases,
  Option-cases, true, false, Option, none, some, inl, inr, codes, leb, List, [], ◌∷◌,
}
use kpm_syscall_backtrace.Kallsym.{Info, get_markers_elem_size}
use kpm_syscall_backtrace.Kallsym.Markers.{find_num_syms, num_syms_from}
use kpm_syscall_backtrace.Kallsym.Correct.{
  Insns, or_else, placed, verified, vectors_from, is_vectors, distance, elem_size_of,
  base_candidates, current_from, arm64_verify_pid_vnr, banner_name_from, banner_base_from,
  vector_names_from, any_base, correct_addresses_or_offsets, correct_addresses_or_offsets_by_banner,
  correct_addresses_or_offsets_by_vectors,
}
use kpm_syscall_backtrace.Kallsym.Lookup.{get_symbol_offset}

-- What a state says of the names and the markers.
abbrev pub view : Info → Bool × ℕ × ℕ × ℕ
view info = (info.is_be, get_markers_elem_size info, info.markers_offset, info.names_offset)

if_view :
    (c : Bool) (a b : Info) (v : Bool × ℕ × ℕ × ℕ)
    → view a ≡ v
    → view b ≡ v
    → view (if c then a else b) ≡ v
if_view true a b v e e' = e
if_view false a b v e e' = e'

module _ (insns : Insns) (host_is_be : Bool) (img : ℕ → ℕ) (imglen : ℕ) where
  pub num_syms-view : (info : Info) → view (find_num_syms host_is_be img imglen info) ≡ view info
  unfolding find_num_syms get_markers_elem_size
  num_syms-view info =
      elim (Option-cases (num_syms_from host_is_be img imglen info 1024 info.names_offset)) [
        | inl e ↦ rw (find_num_syms, e) (if_view _ _ _ _ refl refl)
        | inr (found, e) ↦ rw (find_num_syms, e) (if_view _ _ _ _ refl refl)
      ]

  verify-view :
      (info info' : Info) (offset : ℕ)
      → arm64_verify_pid_vnr insns host_is_be img imglen info offset ≡ some info'
      → view info' ≡ view info
  unfolding arm64_verify_pid_vnr get_markers_elem_size
  verify-view info info' offset e =
      elim (Option-cases (current_from insns host_is_be img imglen 6 offset)) [
        | inl none_found ↦ (let e' = rw (arm64_verify_pid_vnr, none_found) at e in cc e')
        | inr (current, found) ↦
            sym (ap view (some-injective _ _ (rw (arm64_verify_pid_vnr, found) at e)))
      ]

  or_else-view :
      (info : Info) (r : Option Info) (v : Bool × ℕ × ℕ × ℕ)
      → view info ≡ v
      → ((info' : Info) → r ≡ some info' → view info' ≡ v)
      → view (or_else insns host_is_be img imglen info r) ≡ v
  or_else-view info none v e found = e
  or_else-view info (some info') v e found = found info' refl

  placed-view :
      (info : Info) (i start : ℕ)
      → view (placed insns host_is_be img imglen info i start) ≡ view info
  unfolding placed get_markers_elem_size
  placed-view info i start = elim (Bool-cases info.has_relative_base) [
    | inl relative ↦ simp (relative, placed)
    | inr absolute ↦ simp (absolute, placed)
  ]

  verified-view : (info : Info) → view (verified insns host_is_be img imglen info) ≡ view info
  unfolding verified
  verified-view info =
      let pid_vnr : ℕ = get_symbol_offset host_is_be img imglen info (codes "pid_vnr") in
      or_else-view info (arm64_verify_pid_vnr insns host_is_be img imglen info pid_vnr) (view info)
        refl (λ info' e. verify-view info info' pid_vnr e)

  banner-view :
      (info : Info)
      → view (correct_addresses_or_offsets_by_banner insns host_is_be img imglen info).1 ≡ view info
  unfolding correct_addresses_or_offsets_by_banner get_markers_elem_size
  banner-view info =
      elim (Option-cases (
        banner_name_from insns host_is_be img imglen info (suc info.markers_offset)
          info.names_offset 0)) [
            | inl absent ↦ rw (correct_addresses_or_offsets_by_banner, absent) refl
            | inr ((index, pos), named) ↦ elim (Bool-cases (leb info.markers_offset pos)) [
              | inl past ↦ rw (correct_addresses_or_offsets_by_banner, named, past) refl
              | inr inside ↦
                  elim (Option-cases (
                    banner_base_from insns host_is_be img imglen info index 0
                      info.linux_banner_offset)) [
                        | inl no_base ↦
                            rw (correct_addresses_or_offsets_by_banner, named, inside, no_base) refl
                        | inr ((i, start), based) ↦
                            rw (correct_addresses_or_offsets_by_banner, named, inside, based)
                              (verified-view (placed insns host_is_be img imglen info i start)
                                ∙ placed-view info i start)
                      ]
            ]
          ]

  vectors-view :
      (info : Info) (vector pid_vnr base end fuel pos : ℕ) (found : ℕ × Info)
      → vectors_from insns host_is_be img imglen info vector pid_vnr base end fuel pos ≡ some found
      → view found.1 ≡ view info
  unfolding vectors_from get_markers_elem_size
  vectors-view info vector pid_vnr base end zero pos found e = cc
  vectors-view info vector pid_vnr base end (suc fuel) pos found e =
      elim (Bool-cases (leb end pos)) [
        | inl past ↦ (let e' = rw past at e in cc e')
        | inr inside ↦
            elim (Bool-cases (is_vectors insns host_is_be img imglen info pos vector base)) [
              | inr other ↦
                  vectors-view info vector pid_vnr base end fuel _ found (rw (inside, other) at e)
              | inl is ↦
                  elim (Option-cases (
                    arm64_verify_pid_vnr insns host_is_be img imglen info (
                      distance insns host_is_be img imglen info
                        (pos + pid_vnr * elem_size_of insns host_is_be img imglen info) base))) [
                          | inl not_verified ↦
                              vectors-view info vector pid_vnr base end fuel _ found
                                (rw (inside, is, not_verified) at e)
                          | inr (info', shown) ↦
                              ap (λ (r : ℕ × Info). view r.1)
                                (sym (some-injective _ _ (rw (inside, is, shown) at e)))
                              ∙ verify-view info info' _ shown
                        ]
            ]
      ]

  bases-view :
      (info : Info) (vector pid_vnr end : ℕ) (bases : List ℕ) (found : ℕ × Info)
      → any_base insns host_is_be img imglen info vector pid_vnr end bases ≡ some found
      → view found.1 ≡ view info
  unfolding any_base
  bases-view info vector pid_vnr end [] found e = cc
  bases-view info vector pid_vnr end (base ∷ bases) found e =
      elim (Option-cases (
        vectors_from insns host_is_be img imglen info vector pid_vnr base end (suc end)
          info.approx_offset)) [
            | inl absent ↦
                bases-view info vector pid_vnr end bases found (rw (any_base, absent) at e)
            | inr (first, is) ↦
                vectors-view info vector pid_vnr base end _ _ found (is ∙ (rw (any_base, is) at e))
          ]

  vectors_found-view :
      (info : Info)
      → view (correct_addresses_or_offsets_by_vectors insns host_is_be img imglen info).1
        ≡ view info
  unfolding correct_addresses_or_offsets_by_vectors get_markers_elem_size
  vectors_found-view info =
      elim (Option-cases (
        vector_names_from insns host_is_be img imglen info (suc info.markers_offset)
          info.names_offset 0 0 0)) [
            | inl absent ↦ rw (correct_addresses_or_offsets_by_vectors, absent) refl
            | inr ((vector, pid_vnr, pos), named) ↦
                elim (Bool-cases (leb info.markers_offset pos)) [
                  | inl past ↦ rw (correct_addresses_or_offsets_by_vectors, named, past) refl
                  | inr inside ↦
                      let end : ℕ =
                        info.approx_end - pid_vnr * elem_size_of insns host_is_be img imglen info in
                      elim (Option-cases (
                        any_base insns host_is_be img imglen info vector pid_vnr end
                          (base_candidates insns host_is_be img imglen info))) [
                            | inl no_base ↦
                                rw (correct_addresses_or_offsets_by_vectors, named, inside, no_base)
                                  refl
                            | inr ((start, found), based) ↦
                                let same = bases-view info vector pid_vnr end _ _ based in
                                rw (correct_addresses_or_offsets_by_vectors, named, inside, based)
                                  (elim (Bool-cases info.has_relative_base) [
                                    | inl relative ↦ rw relative same
                                    | inr absolute ↦ rw absolute same
                                  ])
                          ]
                ]
          ]

  pub correct-view :
      (info : Info)
      → view (correct_addresses_or_offsets insns host_is_be img imglen info).1 ≡ view info
  unfolding correct_addresses_or_offsets get_markers_elem_size
  correct-view info =
      elim (Bool-cases
        (correct_addresses_or_offsets_by_banner insns host_is_be img imglen info).0) [
          | inl done ↦ rw (correct_addresses_or_offsets, done) (banner-view info)
          | inr failed ↦
              rw (correct_addresses_or_offsets, failed) (vectors_found-view _ ∙ banner-view info)
        ]

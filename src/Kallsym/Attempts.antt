-- ===== src/Kallsym/Attempts.antt =====
-- What holds of the state and the image that `analyze_kallsym_info` of tools/kallsym.c returns when it
-- succeeds, whichever attempt has.
use mathlib.Core.Path.{subst}
use mathlib.Core.Option.{some-injective}
use kpm_syscall_backtrace.Base.{
  ℕ, suc, ◌+◌, ◌-◌, ◌*◌, ◌/◌, ◌%◌, ◌^◌, ◌<◌, ◌≡◌, ◌==◌, refl, sym, ◌∙◌, if◌then◌else◌, Bool,
  Bool-cases, Option-cases, true, false, Option, none, some, inl, inr,
}
use kpm_syscall_backtrace.Order.{int_unpack}
use kpm_syscall_backtrace.Kallsym.{Info, get_markers_elem_size}
use kpm_syscall_backtrace.Kallsym.Search.{find_linux_banner, find_token_table, find_token_index}
use kpm_syscall_backtrace.Kallsym.Markers.{find_markers, find_names, find_num_syms, names_from}
use kpm_syscall_backtrace.Kallsym.Approx.{find_approx_addresses_or_offset}
use kpm_syscall_backtrace.Kallsym.Correct.{Insns, correct_addresses_or_offsets, elf64_kernel_min_va}
use kpm_syscall_backtrace.Kallsym.Relo.{Worked, try_find_arm64_relo_table}
use kpm_syscall_backtrace.Kallsym.Analyze.{
  init_info, searches, retry_relo, third, again, second, attempts, analyze_kallsym_info,
}
use kpm_syscall_backtrace.Kallsym.Found.{name_place, find_names-marks}
use kpm_syscall_backtrace.Kallsym.Analyzed.{view, num_syms-view, correct-view}

module _ (host_is_be : Bool) where
  -- The first five markers of an image give the distances of the names behind 256, 512, ... names.
  abbrev pub Marked : (ℕ → ℕ) → Bool × ℕ × ℕ × ℕ → Type 0
  Marked img (is_be, elem_size, markers, names) =
      (m : ℕ)
      → m < 5
      → name_place img names (suc (256 * m + 255)) - names
        ≡ int_unpack host_is_be img (markers + ((256 * m + 255) / 256 + 1) * elem_size) elem_size
            is_be
          % 2 ^ 32

  names-view :
      (img : ℕ → ℕ) (imglen : ℕ) (info info' : Info)
      → find_names host_is_be img imglen info ≡ some info'
      → view info'
        ≡ (info.is_be, get_markers_elem_size info, info.markers_offset, info'.names_offset)
  unfolding find_names get_markers_elem_size
  names-view img imglen info info' e =
      elim (Option-cases
        (names_from host_is_be img imglen info (info.markers_offset - 0x4000) 0x4000)) [
          | inl absent ↦ (let e' = rw (find_names, absent) at e in cc e')
          | inr (cand, found) ↦
              let same = some-injective _ _ (rw (find_names, found) at e) in
              subst
                (λ (i : Info).
                  view i
                  ≡ (info.is_be, get_markers_elem_size info, info.markers_offset, i.names_offset))
                same refl
        ]

  -- Of a result: if it is a success, its image is marked as its state says.
  abbrev pub MarkedIfDone : (ℕ → ℕ) → Bool × Info → Type 0
  MarkedIfDone img (done, info) = done ≡ true → Marked img (view info)

  abbrev pub IfDone : Option Worked → Type 0
  IfDone none = Unit {0}
  IfDone (some (done, info, img)) = MarkedIfDone img (done, info)

  module _ (insns : Insns) (imglen : ℕ) where
    searches-marked :
        (info : Info) (img : ℕ → ℕ) → MarkedIfDone img (searches insns host_is_be imglen info img)
    unfolding searches
    searches-marked info img = elim (Option-cases (find_markers host_is_be img imglen info)) [
      | inl absent ↦ rw (searches, absent) (λ e. cc e)
      | inr (marked, e) ↦
          elim (Option-cases (find_approx_addresses_or_offset host_is_be img imglen marked)) [
            | inl absent ↦ rw (searches, e, absent) (λ e'. cc e')
            | inr (near, e') ↦ elim (Option-cases (find_names host_is_be img imglen near)) [
              | inl absent ↦ rw (searches, e, e', absent) (λ e''. cc e'')
              | inr (named, e'') ↦
                  let known : Info = find_num_syms host_is_be img imglen named in
                  let last : searches insns host_is_be imglen info img
                      ≡ correct_addresses_or_offsets insns host_is_be img imglen known =
                    rw (searches, e, e', e'') refl in
                  let same =
                    correct-view insns host_is_be img imglen known
                    ∙ num_syms-view insns host_is_be img imglen named
                    ∙ names-view img imglen near named e'' in
                  subst (MarkedIfDone img) (sym last) (λ done.
                    subst (Marked img) (sym same)
                      (find_names-marks host_is_be img imglen near named e''))
            ]
          ]
    ]

    retry_relo-marked :
        (info : Info) (img : ℕ → ℕ) → IfDone (retry_relo insns host_is_be imglen info img)
    unfolding retry_relo
    retry_relo-marked info img =
        elim (Option-cases (try_find_arm64_relo_table host_is_be imglen info img)) [
          | inl absent ↦ rw (retry_relo, absent) tt
          | inr ((good, info', img'), e) ↦ elim (Bool-cases good) [
            | inl is ↦ rw (retry_relo, e, is) (searches-marked info' img')
            | inr not_good ↦ rw (retry_relo, e, not_good) (λ e'. cc e')
          ]
        ]

    third-marked :
        (info : Info) (img copied : ℕ → ℕ) → IfDone (third insns host_is_be imglen info img copied)
    unfolding third
    third-marked info img copied = elim (Bool-cases (info.kernel_base == elf64_kernel_min_va)) [
      | inl lowest ↦ rw (third, lowest) (λ e. cc e)
      | inr other ↦
          rw (third, other)
            (retry_relo-marked (record info { kernel_base = elf64_kernel_min_va }) img)
    ]

    -- A later attempt counts if an earlier one fails.
    next-marked :
        (done : Bool) (info : Info) (img : ℕ → ℕ) (later : Option Worked)
        → MarkedIfDone img (done, info)
        → IfDone later
        → IfDone (if done then some (true, info, img) else later)
    next-marked true info img later now after = now
    next-marked false info img later now after = after

    again-marked : (info : Info) (img : ℕ → ℕ) → IfDone (again insns host_is_be imglen info img)
    unfolding again
    again-marked info img = elim (Option-cases (retry_relo insns host_is_be imglen info img)) [
      | inl absent ↦ rw (again, absent) tt
      | inr ((done, info', copied), e) ↦
          rw (again, e)
            (next-marked done info' copied _ (subst IfDone e (retry_relo-marked info img))
              (third-marked info' img copied))
    ]

    either-IfDone :
        (c : Bool) (r r' : Option Worked) → IfDone r → IfDone r' → IfDone (if c then r else r')
    either-IfDone true r r' h h' = h
    either-IfDone false r r' h h' = h'

    second-marked :
        (info : Info) (img copied : ℕ → ℕ) → IfDone (second insns host_is_be imglen info img copied)
    unfolding second
    second-marked info img copied =
        either-IfDone info.try_relo _ _ (third-marked info img copied) (again-marked info img)

    attempts-marked :
        (info : Info) (img : ℕ → ℕ) → IfDone (attempts insns host_is_be imglen info img)
    unfolding attempts
    attempts-marked info img = elim (Option-cases (retry_relo insns host_is_be imglen info img)) [
      | inl absent ↦ rw (attempts, absent) tt
      | inr ((done, info', copied), e) ↦
          rw (attempts, e)
            (next-marked done info' copied _ (subst IfDone e (retry_relo-marked info img))
              (second-marked info' img copied))
    ]

    analyze-IfDone :
        (arm64 is_64 : Bool) (img : ℕ → ℕ)
        → IfDone (analyze_kallsym_info insns host_is_be imglen arm64 is_64 img)
    unfolding analyze_kallsym_info
    analyze-IfDone arm64 is_64 img =
        elim (Option-cases (find_linux_banner img imglen (init_info arm64 is_64))) [
          | inl absent ↦ rw (analyze_kallsym_info, absent) tt
          | inr (info, e) ↦ elim (Option-cases (find_token_table img imglen info)) [
            | inl absent ↦ rw (analyze_kallsym_info, e, absent) (λ e'. cc e')
            | inr (with_table, e') ↦ elim (Option-cases (find_token_index img imglen with_table)) [
              | inl absent ↦ rw (analyze_kallsym_info, e, e', absent) (λ e''. cc e'')
              | inr (with_index, e'') ↦
                  rw (analyze_kallsym_info, e, e', e'') (attempts-marked with_index img)
            ]
          ]
        ]

    -- Whenever `analyze_kallsym_info` succeeds, whichever attempt has and whatever it has written to the
    -- image: in the image that it leaves, the first five markers of the table that the state gives are the
    -- distances of the names behind 256, 512 and so on from the first name that the state gives.
    pub analyze_kallsym_info-Marked :
        (arm64 is_64 : Bool) (img : ℕ → ℕ) (info : Info) (img' : ℕ → ℕ)
        → analyze_kallsym_info insns host_is_be imglen arm64 is_64 img ≡ some (true, info, img')
        → Marked img' (view info)
    analyze_kallsym_info-Marked arm64 is_64 img info img' e =
        subst IfDone e (analyze-IfDone arm64 is_64 img) refl

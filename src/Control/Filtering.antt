-- ===== src/Control/Filtering.antt =====
-- Which processes should_hook_process of accessOffstinlineHook.c lets the callbacks log.
use kpm_syscall_backtrace.Base.{
  c_string, ℕ, ◌==◌, ◌≡◌, ◌≢◌, ◌⊎◌, refl, ap, ◌∙◌, arith, inl, inr, if◌then◌else◌, Bool, Bool-cases,
  true, false, not, ◌&&◌, List, [], ◌∷◌, ◌++◌, take,
}
use kpm_syscall_backtrace.Breakpoint.Set.{is_positive}
use kpm_syscall_backtrace.Process.Info.{Task, get_process_id, get_process_cmdline}
use kpm_syscall_backtrace.Control.{FilterEntry, State, max_name_len}
use kpm_syscall_backtrace.Control.Filter.{
  begins, strstr, is_empty, check_filters, should_hook_process,
}

-- The text begins with the name.
abbrev pub HasPrefix : List ℕ → List ℕ → Type 0
HasPrefix text name = (post : List ℕ) × (text ≡ name ++ post)

-- The name stands somewhere in the text.
abbrev pub Contains : List ℕ → List ℕ → Type 0
Contains text name = (pre : List ℕ) × (post : List ℕ) × (text ≡ pre ++ name ++ post)

begins-HasPrefix :
    (text name : List ℕ)
    → ((begins text name ≡ true) × HasPrefix text name)
      ⊎ ((begins text name ≡ false) × ¬ HasPrefix text name)
unfolding begins
begins-HasPrefix text [] = inl (refl, (text, refl))
begins-HasPrefix [] (c ∷ name) = inr (refl, λ h. cc (h.1))
begins-HasPrefix (d ∷ text) (c ∷ name) = elim (Bool-cases (d == c)) [
  | inr e ↦ rw e (inr (refl, λ h. ground (arith, e, h.1)))
  | inl e ↦ elim (begins-HasPrefix text name) [
    | inl (b, h) ↦ rw (e, b) (inl (refl, (h.0, ground (arith, e, h.1))))
    | inr (b, h) ↦ rw (e, b) (inr (refl, λ g. h (g.0, ground (arith, g.1))))
  ]
]

Contains-nil : (name : List ℕ) → Contains [] name → HasPrefix [] name
Contains-nil name ([], post, e) = (post, e)
Contains-nil name (c ∷ pre, post, e) = absurd (cc e)

Contains-cons :
    (c : ℕ) (text name : List ℕ)
    → Contains (c ∷ text) name
    → HasPrefix (c ∷ text) name ⊎ Contains text name
Contains-cons c text name ([], post, e) = inl (post, e)
Contains-cons c text name (d ∷ pre, post, e) = inr (pre, post, ground (arith, e))

strstr-Contains :
    (text name : List ℕ)
    → ((strstr text name ≡ true) × Contains text name)
      ⊎ ((strstr text name ≡ false) × ¬ Contains text name)
unfolding strstr
strstr-Contains [] name = elim (begins-HasPrefix [] name) [
  | inl (b, h) ↦ inl (b, ([], h.0, h.1))
  | inr (b, h) ↦ inr (b, λ g. h (Contains-nil name g))
]
strstr-Contains (c ∷ text) name = elim (begins-HasPrefix (c ∷ text) name) [
  | inl (b, h) ↦ rw b (inl (refl, ([], h.0, h.1)))
  | inr (b, h) ↦ elim (strstr-Contains text name) [
    | inl (s, g) ↦ rw (b, s) (inl (refl, (c ∷ g.0, g.1, ap (λ t. c ∷ t) g.2)))
    | inr (s, absent) ↦
        rw (b, s)
          (inr (
            refl,
            λ g. elim (Contains-cons c text name g) [
              | inl first ↦ h first
              | inr later ↦ absent later
            ],
          ))
  ]
]

module _ (pid : ℕ) (pkg_name : List ℕ) where
  -- The filter is active and is for the pid, or for a part of the name that is not empty.
  abbrev pub Matches : FilterEntry → Type 0
  Matches f =
      (f.active ≡ true)
      × (((is_positive f.pid ≡ true) × (f.pid ≡ pid))
          ⊎ ((is_empty f.name ≡ false) × Contains pkg_name f.name))

  abbrev pub AnyMatch : List FilterEntry → Type 0
  AnyMatch [] = ⊥
  AnyMatch (f ∷ filters) = Matches f ⊎ AnyMatch filters

  -- What a filter that is looked at comes to.
  Matches-decided :
      (mode : ℕ) (f : FilterEntry) (rest : Bool)
      → let step =
          if not f.active
          then rest
          else if is_positive f.pid && f.pid == pid
          then mode == 0
          else if not (is_empty f.name) && strstr pkg_name f.name
          then mode == 0
          else rest in
        (Matches f × (step ≡ (mode == 0))) ⊎ ((¬ Matches f) × (step ≡ rest))
  Matches-decided mode f rest = elim (strstr-Contains pkg_name f.name) [
    | inl (s, c) ↦ ground (arith, s, c)
    | inr (s, c) ↦ ground (arith, s, c)
  ]

  check_filters-decided :
      (mode : ℕ) (filters : List FilterEntry)
      → (AnyMatch filters × (check_filters mode pid pkg_name filters ≡ (mode == 0)))
        ⊎ ((¬ AnyMatch filters) × (check_filters mode pid pkg_name filters ≡ not (mode == 0)))
  unfolding check_filters
  check_filters-decided mode [] = inr (λ none. none, refl)
  check_filters-decided mode (f ∷ filters) =
      elim (Matches-decided mode f (check_filters mode pid pkg_name filters)) [
        | inl (m, step) ↦ inl (inl m, step)
        | inr (n, step) ↦ elim (check_filters-decided mode filters) [
          | inl (m, rest) ↦ inl (inr m, step ∙ rest)
          | inr (n', rest) ↦ inr (λ either. elim either [ inl m ↦ n m | inr m ↦ n' m ], step ∙ rest)
        ]
      ]

-- With no filter, every process is logged. With filters, in the whitelist mode the processes are logged
-- that some active filter is for, and in the blacklist mode the others: a filter is for a process with
-- its pid, or for one with its name as a part of its command line, wherever it stands in the list.
pub should_hook_process-Selects :
    (s : State) (task : Task)
    → let Selected =
        AnyMatch
          (get_process_id task)
          (c_string (get_process_cmdline task max_name_len))
          (take s.filter_count s.filters) in
      let answer = should_hook_process s task in
      ((s.filter_count ≡ 0) × (answer ≡ true))
      ⊎ ((s.filter_count ≢ 0) × Selected × (answer ≡ (s.filter_mode == 0)))
      ⊎ ((s.filter_count ≢ 0) × (¬ Selected) × (answer ≡ not (s.filter_mode == 0)))
unfolding should_hook_process
should_hook_process-Selects s task = elim (Bool-cases (s.filter_count == 0)) [
  | inl e ↦ rw (e, should_hook_process) (inl (ground (arith, e), refl))
  | inr e ↦
      let some_filter : s.filter_count ≢ 0 = ground (arith, e) in
      rw (e, should_hook_process)
        (elim (check_filters-decided (get_process_id task)
          (c_string (get_process_cmdline task max_name_len)) s.filter_mode
          (take s.filter_count s.filters)) [
            | inl (m, a) ↦ inr (inl (some_filter, m, a))
            | inr (n, a) ↦ inr (inr (some_filter, n, a))
          ])
]

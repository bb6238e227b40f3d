-- ===== src/Control/Invariant.antt =====
-- The filters of accessOffstinlineHook.c: what holds of them after every command and every call.
use kpm_syscall_backtrace.Base.{
  c_string, ℕ, zero, suc, ◌<◌, ◌≤◌, ◌==◌, ◌≡◌, ◌≢◌, ◌⊎◌, refl, ◌∙◌, arith, inl, inr, leb,
  Bool-cases, true, false, List, [], ◌∷◌, map, set, take, drop, length, length-set, codes,
}
use kpm_syscall_backtrace.Breakpoint.Set.{is_positive}
use kpm_syscall_backtrace.Control.{FilterEntry, State, max_filters, max_name_len}
use kpm_syscall_backtrace.Control.Parse.{parse_decimal}
use kpm_syscall_backtrace.Control.Filter.{begins}
use kpm_syscall_backtrace.Control.Reply.{Module}
use kpm_syscall_backtrace.Control.Actions.{append_filter, run_add_filter}
use kpm_syscall_backtrace.Control.Run.{clear_entry}

-- No terminator inside a string.
abbrev pub NoNul : List ℕ → Type 0
NoNul [] = Unit {0}
NoNul (c ∷ text) = (c ≢ 0) × NoNul text

-- A filter in use is active, is for a pid or for a name, and its name fits with its terminator.
abbrev pub IsFilter : FilterEntry → Type 0
IsFilter f =
    (f.active ≡ true)
    × (length f.name < max_name_len)
    × NoNul f.name
    × (((is_positive f.pid ≡ true) × (f.name ≡ [])) ⊎ (f.pid ≡ 0))

-- The first `n` entries are in use, and the others are not.
abbrev pub Entries : ℕ → List FilterEntry → Type 0
Entries zero [] = Unit {0}
Entries (suc n) [] = ⊥
Entries zero (f ∷ filters) = (f.active ≡ false) × Entries zero filters
Entries (suc n) (f ∷ filters) = IsFilter f × Entries n filters

-- There are 16 entries, and those counted are the ones in use.
abbrev pub IsWf : State → Type 0
IsWf s = (length s.filters ≡ max_filters) × Entries s.filter_count s.filters

Entries-set :
    (n : ℕ) (filters : List FilterEntry) (f : FilterEntry)
    → Entries n filters
    → n < length filters
    → IsFilter f
    → Entries (suc n) (set filters n f)
Entries-set n [] f es less is = absurd (omega (arith, less))
Entries-set zero (g ∷ filters) f es less is = (is, es.1)
Entries-set (suc n) (g ∷ filters) f es less is =
    (es.0, Entries-set n filters f es.1 (omega (arith, less)) is)

pub Entries-clear : (filters : List FilterEntry) → Entries 0 (map clear_entry filters)
Entries-clear [] = tt
Entries-clear (f ∷ filters) = (refl, Entries-clear filters)

pub length-clear : (filters : List FilterEntry) → length (map clear_entry filters) ≡ length filters
length-clear [] = refl
length-clear (f ∷ filters) = omega (arith, length-clear filters)

c_string-NoNul : (text : List ℕ) → NoNul (c_string text)
c_string-NoNul [] = tt
c_string-NoNul (c ∷ text) = elim (Bool-cases (c == 0)) [
  | inl e ↦ rw e tt
  | inr e ↦ rw e (ground (arith, e), c_string-NoNul text)
]

take-NoNul : (n : ℕ) (text : List ℕ) → NoNul text → NoNul (take n text)
take-NoNul zero text plain = tt
take-NoNul (suc n) [] plain = tt
take-NoNul (suc n) (c ∷ text) plain = (plain.0, take-NoNul n text plain.1)

length-take-le : (n : ℕ) (text : List ℕ) → length (take n text) ≤ n
length-take-le zero text = omega arith
length-take-le (suc n) [] = omega arith
length-take-le (suc n) (c ∷ text) = omega (arith, length-take-le n text)

append_filter-IsWf :
    (s : State) (f : FilterEntry)
    → IsWf s
    → s.filter_count < max_filters
    → IsFilter f
    → IsWf (append_filter s f)
append_filter-IsWf s f wf room is = (
  length-set s.filters s.filter_count f ∙ wf.0,
  Entries-set s.filter_count s.filters f wf.1 (omega (arith, wf.0, room)) is,
)

pub add_filter-IsWf :
    (m : Module) (spec : List ℕ) → IsWf m.state → IsWf (run_add_filter m spec).0.state
unfolding run_add_filter
add_filter-IsWf m spec wf =
    let name = c_string (drop 5 spec) in
    let named = take-NoNul 255 name (c_string-NoNul (drop 5 spec)) in
    let short : length (take 255 name) < 256 = omega (arith, length-take-le 255 name) in
    elim (Bool-cases (leb max_filters m.state.filter_count)) [
      | inl e ↦ rw (e, run_add_filter) wf
      | inr e ↦
          let room : m.state.filter_count < max_filters = ground (arith, e) in
          elim (Bool-cases (begins spec (codes "name:"))) [
            | inl n ↦
                rw (e, n, run_add_filter)
                  (append_filter-IsWf m.state _ wf room (refl, short, named, inr refl))
            | inr n ↦ elim (Bool-cases (begins spec (codes "pid:"))) [
              | inr p ↦ rw (e, n, p, run_add_filter) wf
              | inl p ↦ elim (Bool-cases (is_positive (parse_decimal 0 (drop 4 spec)).0)) [
                | inr z ↦ rw (e, n, p, z, run_add_filter) wf
                | inl z ↦
                    rw (e, n, p, z, run_add_filter)
                      (append_filter-IsWf m.state _ wf room (refl, omega arith, tt, inl (z, refl)))
              ]
            ]
          ]
    ]

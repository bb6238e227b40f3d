-- ===== src/BaseLib/Sets.antt =====
-- kernel/base/baselib.c, the routines on strings that ignore the case or look for characters of a set, and
-- toupper of kernel/include/ctype.h. A loop that ends at the terminator runs on fuel, and `none` is a lack
-- of fuel.
use kpm_syscall_backtrace.Base.{
  ℕ, zero, suc, ◌-◌, ◌==◌, leb, if◌then◌else◌, Bool, true, false, not, ◌&&◌, ◌||◌, Option, none,
  some,
}
use kpm_syscall_backtrace.PageTable.{store}
use kpm_syscall_backtrace.BaseLib.Strings.{difference}

abbrev pub islower : ℕ → Bool
islower c = leb b'a' c && leb c b'z'

-- `c & ~32` clears a bit that a small letter has.
unfoldable pub toupper : ℕ → ℕ
toupper c = if islower c then c - 32 else c

unfoldable pub lib_strcasecmp : (ℕ → ℕ) → ℕ → ℕ → ℕ → Option ℕ
unfolding toupper
lib_strcasecmp mem zero c1 c2 = none
lib_strcasecmp mem (suc fuel) c1 c2 =
    let d = difference (toupper (mem c1)) (toupper (mem c2)) in
    let rest = lib_strcasecmp mem fuel (suc c1) (suc c2) in
    if not (d == 0) || mem c1 == 0 then some d else rest

unfoldable pub lib_strncasecmp : (ℕ → ℕ) → ℕ → ℕ → ℕ → ℕ
unfolding toupper
lib_strncasecmp mem c1 c2 zero = 0
lib_strncasecmp mem c1 c2 (suc n) =
    let d = difference (toupper (mem c1)) (toupper (mem c2)) in
    let rest = lib_strncasecmp mem (suc c1) (suc c2) n in
    if not (d == 0) || mem c1 == 0 then d else rest

-- The inner loop: whether the character is one of the string at `c`.
unfoldable pub is_one_of : (ℕ → ℕ) → ℕ → ℕ → ℕ → Option Bool
is_one_of mem zero ch c = none
is_one_of mem (suc fuel) ch c =
    let rest = is_one_of mem fuel ch (suc c) in
    if mem c == 0 then some false else if ch == mem c then some true else rest

unfoldable pub lib_strpbrk : (ℕ → ℕ) → ℕ → ℕ → ℕ → Option (Option ℕ)
unfolding is_one_of
lib_strpbrk mem zero s1 s2 = none
lib_strpbrk mem (suc fuel) s1 s2 =
    let rest = lib_strpbrk mem fuel (suc s1) s2 in
    if mem s1 == 0 then some none else elim (is_one_of mem fuel (mem s1) s2) [
      | none ↦ none
      | some true ↦ some (some s1)
      | some false ↦ rest
    ]

-- The loop of `lib_strspn`: where the first character is that is not of the set.
unfoldable pub span_end : (ℕ → ℕ) → ℕ → ℕ → ℕ → Option ℕ
unfolding is_one_of
span_end mem zero s1 s2 = none
span_end mem (suc fuel) s1 s2 =
    let rest = span_end mem fuel (suc s1) s2 in
    if mem s1 == 0 then some s1 else elim (is_one_of mem fuel (mem s1) s2) [
      | none ↦ none
      | some true ↦ rest
      | some false ↦ some s1
    ]

unfoldable pub lib_strspn : (ℕ → ℕ) → ℕ → ℕ → ℕ → Option ℕ
unfolding span_end
lib_strspn mem fuel s1 s2 = elim (span_end mem fuel s1 s2) [ none ↦ none | some s ↦ some (s - s1) ]

-- The memory and what `*stringp` becomes; the value returned is `*stringp` as it was. 0 is a null pointer.
unfoldable pub lib_strsep : (ℕ → ℕ) → ℕ → ℕ → ℕ → Option ((ℕ → ℕ) × ℕ)
unfolding lib_strpbrk store
lib_strsep mem fuel s delim =
    let found = lib_strpbrk mem fuel s delim in
    if s == 0 then some (mem, 0) else elim found [
      | none ↦ none
      | some none ↦ some (mem, 0)
      | some (some e) ↦ some (store mem e 0, suc e)
    ]

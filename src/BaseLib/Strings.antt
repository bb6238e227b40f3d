-- ===== src/BaseLib/Strings.antt =====
-- kernel/base/baselib.c, the routines on strings. A loop that ends at the terminator runs on fuel, one
-- unit for each byte it reads; `none` is a lack of fuel.
use kpm_syscall_backtrace.Base.{
  ℕ, zero, suc, ◌+◌, ◌-◌, ◌%◌, ◌^◌, ◌==◌, ltb, if◌then◌else◌, not, ◌||◌, Option, none, some,
}
use kpm_syscall_backtrace.PageTable.{store}
use kpm_syscall_backtrace.BaseLib.Search.{lib_memmem}

-- The loop of `lib_strlen`: where the terminator is.
unfoldable pub end_of : (ℕ → ℕ) → ℕ → ℕ → Option ℕ
end_of mem zero ss = none
end_of mem (suc fuel) ss =
    let rest = end_of mem fuel (suc ss) in if mem ss == 0 then some ss else rest

unfoldable pub lib_strlen : (ℕ → ℕ) → ℕ → ℕ → Option ℕ
unfolding end_of
lib_strlen mem fuel s = elim (end_of mem fuel s) [ none ↦ none | some ss ↦ some (ss - s) ]

unfoldable pub lib_strnlen : (ℕ → ℕ) → ℕ → ℕ → ℕ
lib_strnlen mem s zero = 0
lib_strnlen mem s (suc maxlen) =
    let rest = lib_strnlen mem (suc s) maxlen in if mem s == 0 then 0 else suc rest

-- The difference of two bytes, as an `int` below 2 ^ 32.
abbrev pub difference : ℕ → ℕ → ℕ
difference a b = (a + 2 ^ 32 - b) % 2 ^ 32

unfoldable pub lib_strcmp : (ℕ → ℕ) → ℕ → ℕ → ℕ → Option ℕ
lib_strcmp mem zero c1 c2 = none
lib_strcmp mem (suc fuel) c1 c2 =
    let d = difference (mem c1) (mem c2) in
    let rest = lib_strcmp mem fuel (suc c1) (suc c2) in
    if not (d == 0) || mem c1 == 0 then some d else rest

unfoldable pub lib_strncmp : (ℕ → ℕ) → ℕ → ℕ → ℕ → ℕ
lib_strncmp mem c1 c2 zero = 0
lib_strncmp mem c1 c2 (suc n) =
    let d = difference (mem c1) (mem c2) in
    let rest = lib_strncmp mem (suc c1) (suc c2) n in
    if not (d == 0) || mem c1 == 0 then d else rest

-- The place of the character, or a null pointer, the inner `none`.
unfoldable pub lib_strchr : (ℕ → ℕ) → ℕ → ℕ → ℕ → Option (Option ℕ)
lib_strchr mem zero s c = none
lib_strchr mem (suc fuel) s c =
    let rest = lib_strchr mem fuel (suc s) c in
    if mem s == c % 256 then some (some s) else if mem s == 0 then some none else rest

unfoldable pub strrchr_from : (ℕ → ℕ) → ℕ → ℕ → ℕ → Option ℕ → Option (Option ℕ)
strrchr_from mem zero s c found = none
strrchr_from mem (suc fuel) s c found =
    let rest = strrchr_from mem fuel (suc s) c (if mem s == c % 256 then some s else found) in
    if mem s == 0 then some found else rest

unfoldable pub lib_strrchr : (ℕ → ℕ) → ℕ → ℕ → ℕ → Option (Option ℕ)
unfolding strrchr_from
lib_strrchr mem fuel s c = strrchr_from mem fuel s c none

unfoldable pub lib_strcpy : (ℕ → ℕ) → ℕ → ℕ → ℕ → Option (ℕ → ℕ)
unfolding store
lib_strcpy mem zero q p = none
lib_strcpy mem (suc fuel) q p =
    let mem' = store mem q (mem p) in
    let rest = lib_strcpy mem' fuel (suc q) (suc p) in if mem p == 0 then some mem' else rest

-- The loop of `lib_strlcpy`: the memory, where the copy ends, and the bytes that were read.
unfoldable pub strlcpy_from : (ℕ → ℕ) → ℕ → ℕ → ℕ → ℕ → ℕ → Option ((ℕ → ℕ) × ℕ × ℕ)
unfolding store
strlcpy_from mem zero q p size bytes = none
strlcpy_from mem (suc fuel) q p size bytes =
    let copied = strlcpy_from (store mem q (mem p)) fuel (suc q) (suc p) size (suc bytes) in
    let dropped = strlcpy_from mem fuel q (suc p) size (suc bytes) in
    if mem p == 0 then some (mem, q, bytes) else if ltb (bytes + 1) size then copied else dropped

unfoldable pub lib_strlcpy : (ℕ → ℕ) → ℕ → ℕ → ℕ → ℕ → Option ((ℕ → ℕ) × ℕ)
unfolding strlcpy_from
lib_strlcpy mem fuel dst src size = elim (strlcpy_from mem fuel dst src size 0) [
  | none ↦ none
  | some (mem', q, bytes) ↦ some (if size == 0 then mem' else store mem' q 0, bytes)
]

unfoldable pub lib_strncpy : (ℕ → ℕ) → ℕ → ℕ → ℕ → ℕ → ℕ
unfolding store
lib_strncpy mem q p zero = mem
lib_strncpy mem q p (suc n) =
    let mem' = store mem q (mem p) in
    let rest = lib_strncpy mem' (suc q) (suc p) n in if mem p == 0 then mem' else rest

-- The text of the loop of `lib_strncat` is that of `lib_strncpy`.
unfoldable pub lib_strncat : (ℕ → ℕ) → ℕ → ℕ → ℕ → ℕ → Option (ℕ → ℕ)
unfolding end_of lib_strncpy
lib_strncat mem fuel dst src n = elim (end_of mem fuel dst) [
  | none ↦ none
  | some q ↦ some (lib_strncpy mem q src n)
]

unfoldable pub lib_strcat : (ℕ → ℕ) → ℕ → ℕ → ℕ → Option (ℕ → ℕ)
unfolding end_of lib_strcpy
lib_strcat mem fuel dst src = elim (end_of mem fuel dst) [
  | none ↦ none
  | some q ↦ lib_strcpy mem fuel q src
]

-- The place behind the character copied, or a null pointer.
unfoldable pub lib_memccpy : (ℕ → ℕ) → ℕ → ℕ → ℕ → ℕ → (ℕ → ℕ) × Option ℕ
unfolding store
lib_memccpy mem q p c zero = (mem, none)
lib_memccpy mem q p c (suc n) =
    let mem' = store mem q (mem p) in
    let rest = lib_memccpy mem' (suc q) (suc p) c n in
    if mem p == c % 256 then (mem', some (suc q)) else rest

unfoldable pub lib_strstr : (ℕ → ℕ) → ℕ → ℕ → ℕ → Option (Option ℕ)
unfolding lib_strlen lib_memmem
lib_strstr mem fuel haystack needle = elim (lib_strlen mem fuel haystack) [
  | none ↦ none
  | some n ↦ elim (lib_strlen mem fuel needle) [
    | none ↦ none
    | some m ↦ some (lib_memmem mem haystack n needle m)
  ]
]

-- ===== src/BaseLib/Search.antt =====
-- lib_memcmp and lib_memmem of kernel/base/baselib.c: the comparison and the search of byte strings.
use kpm_syscall_backtrace.Base.{
  ℕ, zero, suc, ◌+◌, ◌-◌, ◌%◌, ◌^◌, ◌==◌, leb, ltb, if◌then◌else◌, not, ◌&&◌, ◌||◌, Option, none,
  some,
}

-- An `int` below 2 ^ 32: 0, or the difference of the first bytes that differ.
unfoldable pub lib_memcmp : (ℕ → ℕ) → ℕ → ℕ → ℕ → ℕ
lib_memcmp mem c1 c2 zero = 0
lib_memcmp mem c1 c2 (suc n) =
    let d = (mem c1 + 2 ^ 32 - mem c2) % 2 ^ 32 in
    let rest = lib_memcmp mem (suc c1) (suc c2) n in if d == 0 then rest else d

-- The loop over the places `j` up to `last`, with the steps `k` and `l`; `m` is the length of `x` less 2.
-- The number of iterations is bounded by the places.
unfoldable pub search_from : (ℕ → ℕ) → ℕ → ℕ → ℕ → ℕ → ℕ → ℕ → ℕ → ℕ → Option ℕ
unfolding lib_memcmp
search_from mem y x last m k l zero j = none
search_from mem y x last m k l (suc fuel) j =
    let at_k = search_from mem y x last m k l fuel (j + k) in
    let at_l = search_from mem y x last m k l fuel (j + l) in
    if leb j last
    then if not (mem (suc x) == mem (suc (y + j)))
      then at_k
      else if lib_memcmp mem (suc (suc x)) (suc (suc (y + j))) m == 0 && mem x == mem (y + j)
      then some (y + j)
      else at_l
    else none

-- The loop for a single byte.
unfoldable pub search_byte : (ℕ → ℕ) → ℕ → ℕ → ℕ → Option ℕ
search_byte mem y x zero = none
search_byte mem y x (suc n) =
    let rest = search_byte mem (suc y) x n in if mem y == mem x then some y else rest

-- `none` is a null pointer.
unfoldable pub lib_memmem : (ℕ → ℕ) → ℕ → ℕ → ℕ → ℕ → Option ℕ
unfolding search_from search_byte
lib_memmem mem haystack n needle zero = none
lib_memmem mem haystack n needle (suc zero) =
    if n == 0 then none else search_byte mem haystack needle n
lib_memmem mem haystack n needle (suc (suc m)) =
    let last = n - suc (suc m) in
    let equal = mem needle == mem (suc needle) in
    let k = if equal then 2 else 1 in
    let l = if equal then 1 else 2 in
    if ltb n (suc (suc m)) || n == 0
    then none
    else search_from mem haystack needle last m k l (suc last) 0

-- ===== src/BaseLib/Copies.antt =====
-- The copies of strings of kernel/base/baselib.c are copies of memory.
use kpm_syscall_backtrace.Base.{
  ℕ, zero, suc, ◌+◌, ◌-◌, ◌<◌, ◌≤◌, ◌==◌, ◌≡◌, ◌≢◌, ◌⊎◌, refl, sym, ◌∙◌, arith, ltb, if◌then◌else◌,
  true, false, some,
}
use kpm_syscall_backtrace.PageTable.{store}
use kpm_syscall_backtrace.PageTable.Laws.{store_other}
use kpm_syscall_backtrace.BaseLib.{lib_memcpy}
use kpm_syscall_backtrace.BaseLib.Search.{lib_memmem}
use kpm_syscall_backtrace.BaseLib.Strings.{
  end_of, lib_strlen, lib_strcpy, strlcpy_from, lib_strlcpy, lib_strstr,
}

-- A string of `len` bytes and its terminator stand at `s`.
abbrev pub IsString : (ℕ → ℕ) → ℕ → ℕ → Type 0
IsString mem s zero = mem s ≡ 0
IsString mem s (suc len) = (mem s ≢ 0) × IsString mem (suc s) len

-- A write outside the string leaves it.
store-IsString :
    (mem : ℕ → ℕ) (q v s len : ℕ)
    → (q < s) ⊎ (s + len < q)
    → IsString mem s len
    → IsString (store mem q v) s len
store-IsString mem q v s zero out is = store_other mem q v s (λ e. omega (arith, out)) ∙ is
store-IsString mem q v s (suc len) out is = (
  λ e. is.0 (sym (store_other mem q v s (λ same. omega (arith, out))) ∙ e),
  store-IsString mem q v (suc s) len (omega (arith, out)) is.1,
)

end_of-IsString :
    (mem : ℕ → ℕ) (fuel s len : ℕ)
    → IsString mem s len
    → len < fuel
    → end_of mem fuel s ≡ some (s + len)
unfolding end_of
end_of-IsString mem zero s len is enough = absurd (omega (arith, enough))
end_of-IsString mem (suc fuel) s zero is enough =
    let place : s ≡ s + 0 = omega arith in ground (arith, is, place)
end_of-IsString mem (suc fuel) s (suc len) is enough =
    let place : suc s + len ≡ s + suc len = omega arith in
    ground (arith, is.0, place, end_of-IsString mem fuel (suc s) len is.1)

-- With a unit of fuel for each byte of the string and its terminator, the length is found.
pub lib_strlen-IsString :
    (mem : ℕ → ℕ) (fuel s len : ℕ)
    → IsString mem s len
    → len < fuel
    → lib_strlen mem fuel s ≡ some len
unfolding lib_strlen
lib_strlen-IsString mem fuel s len is enough =
    let length : s + len - s ≡ len = omega arith in
    rw (end_of-IsString mem fuel s len is enough, length, lib_strlen) refl

pub lib_strcpy-copies :
    (mem : ℕ → ℕ) (fuel q p len : ℕ)
    → IsString mem p len
    → (q + len < p) ⊎ (p + len < q)
    → len < fuel
    → lib_strcpy mem fuel q p ≡ some (lib_memcpy mem q p (suc len))
unfolding lib_strcpy lib_memcpy
lib_strcpy-copies mem zero q p len is apart enough = absurd (omega (arith, enough))
lib_strcpy-copies mem (suc fuel) q p zero is apart enough = ground (arith, is)
lib_strcpy-copies mem (suc fuel) q p (suc len) is apart enough =
    let more : (mem p == 0) ≡ false = ground (arith, is.0) in
    let rest = store-IsString mem q (mem p) (suc p) len (omega (arith, apart)) is.1 in
    rw (more, lib_strcpy)
      (lib_strcpy-copies (store mem q (mem p)) fuel (suc q) (suc p) len rest (omega (arith, apart))
        (omega (arith, enough)))

strlcpy_from-full :
    (mem : ℕ → ℕ) (fuel q p size bytes len : ℕ)
    → IsString mem p len
    → size ≤ bytes + 1
    → len < fuel
    → strlcpy_from mem fuel q p size bytes ≡ some (mem, q, bytes + len)
unfolding strlcpy_from
strlcpy_from-full mem zero q p size bytes len is full enough = absurd (omega (arith, enough))
strlcpy_from-full mem (suc fuel) q p size bytes zero is full enough =
    let count : bytes ≡ bytes + 0 = omega arith in ground (arith, is, count)
strlcpy_from-full mem (suc fuel) q p size bytes (suc len) is full enough =
    let more : (mem p == 0) ≡ false = ground (arith, is.0) in
    let no_room : ltb (bytes + 1) size ≡ false = ground (arith, full) in
    let count : bytes + suc len ≡ suc bytes + len = omega arith in
    rw (more, no_room, count, strlcpy_from)
      (strlcpy_from-full mem fuel q (suc p) size (suc bytes) len is.1 (omega (arith, full))
        (omega (arith, enough)))

-- How many bytes the loop copies: those of the string, or those that there is room for.
abbrev pub IsCount : ℕ → ℕ → ℕ → ℕ → Type 0
IsCount size bytes len k = ((k ≡ len) × (bytes + k < size)) ⊎ ((bytes + suc k ≡ size) × (k < len))

strlcpy_from-copies :
    (mem : ℕ → ℕ) (fuel q p size bytes len k : ℕ)
    → IsString mem p len
    → (q + k ≤ p) ⊎ (p + len < q)
    → len < fuel
    → IsCount size bytes len k
    → strlcpy_from mem fuel q p size bytes ≡ some (lib_memcpy mem q p k, q + k, bytes + len)
unfolding strlcpy_from lib_memcpy
strlcpy_from-copies mem zero q p size bytes len k is apart enough count =
    absurd (omega (arith, enough))
strlcpy_from-copies mem (suc fuel) q p size bytes zero zero is apart enough count =
    let same : bytes ≡ bytes + 0 = omega arith in
    let place : q ≡ q + 0 = omega arith in ground (arith, is, same, place)
strlcpy_from-copies mem (suc fuel) q p size bytes zero (suc k) is apart enough count =
    absurd (omega (arith, count))
strlcpy_from-copies mem (suc fuel) q p size bytes (suc len) zero is apart enough count =
    let place : q + 0 ≡ q = omega arith in
    rw place
      (strlcpy_from-full mem (suc fuel) q p size bytes (suc len) is (omega (arith, count)) enough)
strlcpy_from-copies mem (suc fuel) q p size bytes (suc len) (suc k) is apart enough count =
    let more : (mem p == 0) ≡ false = ground (arith, is.0) in
    let room : ltb (bytes + 1) size ≡ true = ground (arith, count) in
    let read : bytes + suc len ≡ suc bytes + len = omega arith in
    let place : q + suc k ≡ suc q + k = omega arith in
    let rest = store-IsString mem q (mem p) (suc p) len (omega (arith, apart)) is.1 in
    rw (more, room, read, place, strlcpy_from)
      (strlcpy_from-copies (store mem q (mem p)) fuel (suc q) (suc p) size (suc bytes) len k rest
        (omega (arith, apart)) (omega (arith, enough)) (omega (arith, count)))

-- lib_strlcpy with a size that is not 0, on a string that the destination does not overlap, copies the
-- string, or its first size - 1 bytes when it is not shorter than the size, puts a terminator behind
-- them, and returns the length of the string; a unit of fuel for each byte of the string and its
-- terminator is enough.
pub lib_strlcpy-copies :
    (mem : ℕ → ℕ) (fuel dst src size len : ℕ)
    → IsString mem src len
    → (dst + size ≤ src) ⊎ (src + len < dst)
    → len < fuel
    → 0 < size
    → let k = if ltb len size then len else size - 1 in
      lib_strlcpy mem fuel dst src size ≡ some (store (lib_memcpy mem dst src k) (dst + k) 0, len)
unfolding lib_strlcpy
lib_strlcpy-copies mem fuel dst src size len is apart enough some_room =
    let k = if ltb len size then len else size - 1 in
    let count : IsCount size 0 len k = ground (arith, some_room) in
    let loop =
      strlcpy_from-copies mem fuel dst src size 0 len k is (omega (arith, apart, count)) enough
        count in
    let nonzero : (size == 0) ≡ false = ground (arith, some_room) in
    let read : 0 + len ≡ len = omega arith in rw (loop, nonzero, read, lib_strlcpy) refl

-- lib_strstr on two strings is the search of lib_memmem with their lengths.
pub lib_strstr-searches :
    (mem : ℕ → ℕ) (fuel haystack n needle m : ℕ)
    → IsString mem haystack n
    → IsString mem needle m
    → n < fuel
    → m < fuel
    → lib_strstr mem fuel haystack needle ≡ some (lib_memmem mem haystack n needle m)
unfolding lib_strstr
lib_strstr-searches mem fuel haystack n needle m is_text is_name enough enough' =
    rw
      (
        lib_strlen-IsString mem fuel haystack n is_text enough,
        lib_strlen-IsString mem fuel needle m is_name enough',
        lib_strstr,
      )
      refl

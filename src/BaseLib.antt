-- ===== src/BaseLib.antt =====
-- kernel/base/baselib.c, the memory routines. Memory is a function from addresses to bytes, and a region
-- does not wrap around the end of the address space.
pub mod Move
pub mod Search
pub mod Found
pub mod Strings
pub mod Copies
pub mod Sets
mod Tests
use kpm_syscall_backtrace.Base.{
  ℕ, zero, suc, ◌+◌, ◌%◌, ◌==◌, ltb, if◌then◌else◌, Option, none, some,
}
use kpm_syscall_backtrace.PageTable.{store}

unfoldable pub lib_memcpy : (ℕ → ℕ) → ℕ → ℕ → ℕ → ℕ → ℕ
unfolding store
lib_memcpy mem dst src zero = mem
lib_memcpy mem dst src (suc n) = lib_memcpy (store mem dst (mem src)) (suc dst) (suc src) n

-- The loop of `lib_memmove` from the last byte to the first.
unfoldable pub copy_down : (ℕ → ℕ) → ℕ → ℕ → ℕ → ℕ → ℕ
unfolding store
copy_down mem dst src zero = mem
copy_down mem dst src (suc n) = copy_down (store mem (dst + n) (mem (src + n))) dst src n

-- The other loop of `lib_memmove` is the text of that of `lib_memcpy`.
unfoldable pub lib_memmove : (ℕ → ℕ) → ℕ → ℕ → ℕ → ℕ → ℕ
unfolding lib_memcpy copy_down
lib_memmove mem dst src n =
    if ltb dst src then lib_memcpy mem dst src n else copy_down mem dst src n

unfoldable pub lib_memset : (ℕ → ℕ) → ℕ → ℕ → ℕ → ℕ → ℕ
unfolding store
lib_memset mem dst c zero = mem
lib_memset mem dst c (suc n) = lib_memset (store mem dst (c % 256)) (suc dst) c n

unfoldable pub lib_memswap : (ℕ → ℕ) → ℕ → ℕ → ℕ → ℕ → ℕ
unfolding store
lib_memswap mem m1 m2 zero = mem
lib_memswap mem m1 m2 (suc n) =
    let tmp = mem m1 in
    let mem' = store mem m1 (mem m2) in lib_memswap (store mem' m2 tmp) (suc m1) (suc m2) n

unfoldable pub lib_memchr : (ℕ → ℕ) → ℕ → ℕ → ℕ → Option ℕ
lib_memchr mem s c zero = none
lib_memchr mem s c (suc n) =
    let rest = lib_memchr mem (suc s) c n in if mem s == c % 256 then some s else rest

-- The last byte is tested first.
unfoldable pub lib_memrchr : (ℕ → ℕ) → ℕ → ℕ → ℕ → Option ℕ
lib_memrchr mem s c zero = none
lib_memrchr mem s c (suc n) =
    let rest = lib_memrchr mem s c n in if mem (s + n) == c % 256 then some (s + n) else rest

-- ===== src/BaseLib/Tests.antt =====
-- baselib.c on small inputs, and the theorems about it there.
use kpm_syscall_backtrace.Base.{
  ℕ, suc, ◌+◌, ◌-◌, ◌^◌, ◌==◌, ◌≡◌, arith, refl, inr, if◌then◌else◌, some,
}
use kpm_syscall_backtrace.PageTable.{store}
use kpm_syscall_backtrace.BaseLib.{lib_memmove, lib_memcpy}
use kpm_syscall_backtrace.BaseLib.Move.{lib_memmove-moves}
use kpm_syscall_backtrace.BaseLib.Search.{lib_memmem}
use kpm_syscall_backtrace.BaseLib.Found.{HoldsBytes, First, lib_memmem-First}
use kpm_syscall_backtrace.BaseLib.Strings.{lib_strlcpy, lib_strcmp, lib_strrchr}
use kpm_syscall_backtrace.BaseLib.Copies.{IsString, lib_strlcpy-copies}

lib_memmove-moves_example :
    (lib_memmove (λ a. a) 101 100 4 103 ≡ 102) × (lib_memmove (λ a. a) 101 100 4 105 ≡ 105)
lib_memmove-moves_example =
    lib_memmove-moves (λ a. a) 101 100 4 103 102 105 (omega arith) (omega arith) (omega arith)
      (inr (omega arith))

-- "aab" at 100 and "ab" at 200.
abbrev two_strings : ℕ → ℕ
two_strings a =
    if a == 100
    then b'a'
    else if a == 101
    then b'a'
    else if a == 102
    then b'b'
    else if a == 200
    then b'a'
    else if a == 201
    then b'b'
    else 0

two_strings-HoldsBytes : HoldsBytes two_strings
two_strings-HoldsBytes a = ground arith

found : lib_memmem two_strings 100 3 200 2 ≡ some 101
unfolding lib_memmem
found = refl

lib_memmem-First_example :
    First two_strings 200 2 100 (suc 3 - 2) (lib_memmem two_strings 100 3 200 2)
lib_memmem-First_example =
    lib_memmem-First two_strings two_strings-HoldsBytes 100 3 200 2 (omega arith) (omega arith)

compared : lib_strcmp two_strings 9 100 101 ≡ some (2 ^ 32 - 1)
unfolding lib_strcmp
compared = refl

last_a : lib_strrchr two_strings 9 100 b'a' ≡ some (some 101)
unfolding lib_strrchr
last_a = refl

aab-IsString : IsString two_strings 100 3
aab-IsString = ground arith

lib_strlcpy-copies_example :
    lib_strlcpy two_strings 9 300 100 3
    ≡ some (store (lib_memcpy two_strings 300 100 2) (300 + 2) 0, 3)
lib_strlcpy-copies_example =
    lib_strlcpy-copies two_strings 9 300 100 3 3 aab-IsString (inr (omega arith)) (omega arith)
      (omega arith)

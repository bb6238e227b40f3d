-- ===== src/Order/Tests.antt =====
-- An image whose bytes are their places, and the theorems of Order/Unpack.antt at it.
use kpm_syscall_backtrace.Base.{◌%◌, ◌≡◌, refl, arith, true, false, inl, inr}
use kpm_syscall_backtrace.Order.{uint_unpack, u64swp}
use kpm_syscall_backtrace.Order.Unpack.{uint_unpack-reads}

swapped : u64swp 0x0102030405060708 ≡ 0x0807060504030201
unfolding u64swp
swapped = refl

uint_unpack-reads_example : uint_unpack true (λ i. i % 256) 1 4 false ≡ 0x04030201
uint_unpack-reads_example =
    uint_unpack-reads (λ i. i % 256) (λ i. omega arith) 1 true false 4 (inr (inr (inl refl)))

-- ===== src/FpHook/Tests.antt =====
-- A pointer in a small kernel, and the theorem of FpHook/Laws.antt at it.
use kpm_syscall_backtrace.Base.{ℕ, ◌≡◌, refl, arith, Option, none, some, [], ◌∷◌, false}
use kpm_syscall_backtrace.Memory.{untyped}
use kpm_syscall_backtrace.PageTable.{Paging, pgtable_entry_kernel, modify_entry_kernel}
use kpm_syscall_backtrace.FpHook.{FpKernel, zero_fp_chain, fp_hook, fp_unhook}
use kpm_syscall_backtrace.FpHook.Laws.{IsMapped, fp_unhook-fp_hook}

abbrev paging : Paging
paging = record {
  page_shift = 12;
  page_level = 3;
  pgd_va = 0xffffff8000001000;
  linear_voffset = 0xffffff8000000000;
}

-- Every word holds its address.
abbrev pointers : FpKernel
pointers = record {
  words = λ a. a;
  ptes = λ a. 3;
  mem = record {
    start = 0xffffff8000100000;
    warps = record { in_use = false; type = untyped; addr = 0; chain = zero_fp_chain } ∷ [];
  };
}

abbrev pointer : ℕ
pointer = 0xffffff8000080000

abbrev kernel_or : FpKernel → Option (ℕ × FpKernel) → FpKernel
kernel_or k none = k
kernel_or k (some (backup, k')) = k'

abbrev hooked : FpKernel
hooked = kernel_or pointers (fp_hook paging pointers pointer 77)

pointers-IsMapped : IsMapped paging pointers pointer
unfolding pgtable_entry_kernel
pointers-IsMapped = omega arith

hooked-IsMapped : IsMapped paging hooked pointer
unfolding fp_hook pgtable_entry_kernel modify_entry_kernel
hooked-IsMapped = omega arith

hooks_pointer : fp_hook paging pointers pointer 77 ≡ some (pointer, hooked)
unfolding fp_hook pgtable_entry_kernel
hooks_pointer = refl

fp_unhook-fp_hook_example :
    (hooked.words pointer ≡ 77)
    × ((k'' : FpKernel) × (fp_unhook paging hooked pointer pointer ≡ some k'')
        × ((x : ℕ) → k''.words x ≡ x)
        × (k''.mem ≡ pointers.mem))
fp_unhook-fp_hook_example =
    fp_unhook-fp_hook paging pointers hooked pointer 77 pointer pointers-IsMapped hooks_pointer
      hooked-IsMapped

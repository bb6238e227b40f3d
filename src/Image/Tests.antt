-- ===== src/Image/Tests.antt =====
-- A header of a kernel image, a branch, and the theorems of the Image modules at them.
use kpm_syscall_backtrace.Base.{
  ℕ, ◌≡◌, refl, arith, true, false, some, List, ◌∷◌, ◌++◌, get_or, replicate, codes,
}
use kpm_syscall_backtrace.Image.{KernelInfo, get_kernel_info, kernel_resize, relo_branch_func, b}
use kpm_syscall_backtrace.Image.Branch.{relo_branch_func-b}
use kpm_syscall_backtrace.Image.Resize.{kernel_resize-read}

-- Pages of 4K, a size of 0x20000, and a branch over 0x100 words at place 4.
abbrev header : List ℕ
header =
    codes "MZ"
    ++ ((0 ∷ 0 ∷ 0 ∷ 1 ∷ 0 ∷ 0x14 ∷ replicate 8 0)
        ++ ((0 ∷ 0 ∷ 2 ∷ replicate 5 0) ++ ((2 ∷ replicate 31 0) ++ codes "ARMd")))

abbrev image : ℕ → ℕ
image i = get_or header i 0

abbrev info : KernelInfo
info = record {
  is_be = false;
  uefi = true;
  load_offset = 0;
  kernel_size = 0x20000;
  page_shift = 12;
  b_stext_insn_offset = 4;
  primary_entry_offset = 0x404;
}

kernel_resize-read_example :
    get_kernel_info false (kernel_resize false info image 0x30000)
    ≡ some (record info { kernel_size = 0x30000 })
unfolding get_kernel_info
kernel_resize-read_example = kernel_resize-read false image 0x30000 info (omega arith) refl

relo_branch_func-b_example :
    (b 4 0x404 ≡ some 0x14000100) × (relo_branch_func false image 4 ≡ 0x404)
unfolding b
relo_branch_func-b_example =
    relo_branch_func-b false image 4 0x404 (omega arith) (omega arith) refl (omega arith)
      (omega arith) refl

-- 128M forwards passes the test, and the word branches 128M backwards.
too_far : b 0 0x8000000 ≡ some 0x16000000
unfolding b
too_far = refl

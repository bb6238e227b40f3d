-- ===== src/Unwind/Tests.antt =====
-- stack_unwind.c on small inputs, and the theorems about it there.
use kpm_syscall_backtrace.Base.{
  inl, inr, ℕ, ◌^◌, ◌-◌, ◌==◌, ◌≡◌, refl, arith, if◌then◌else◌, true, ◌⊎◌, Option, none, some, [],
  ◌∷◌, codes,
}
use kpm_syscall_backtrace.Unwind.{
  Functions, Area, Info, named, down_read, up_read, gets_page, frees_page,
}
use kpm_syscall_backtrace.Unwind.Name.{my_kbasename}
use kpm_syscall_backtrace.Unwind.Vma.{Answers, get_vma_info_str}
use kpm_syscall_backtrace.Unwind.Compat.{Regs, StackFrame32, my_unwind_compat}
use kpm_syscall_backtrace.Unwind.Standard.{unwind_user_stack_standard}
use kpm_syscall_backtrace.Unwind.Locks.{nothing, after, unwind-after}
use kpm_syscall_backtrace.Unwind.File.{IsOrdered, Located, get_vma_info_str-Located}
use kpm_syscall_backtrace.Unwind.Frames.{Stack, outermost, calls, my_unwind_compat-Stack}

base_name : my_kbasename (codes "/system/lib/libc.so") ≡ codes "libc.so"
unfolding my_kbasename
base_name = refl

abbrev functions : Functions
functions = record {
  g_save_stack_trace_user = true;
  g_arch_copy_from_user = true;
  g_find_vma = true;
  g_file_path = true;
  g_down_read_trylock = true;
  g_up_read = true;
  g_get_free_page = true;
  g_free_page = true;
  g_snprintf = true;
}

-- Two areas of a file, at 100 and 200, and none elsewhere.
abbrev areas : ℕ → Area
areas vma =
    if vma == 200
    then record { vm_start = 0x2000; vm_end = 0x3000; vm_prev = 100; vm_file = 5 }
    else if vma == 100
    then record { vm_start = 0x1000; vm_end = 0x2000; vm_prev = 0; vm_file = 5 }
    else record { vm_start = 0; vm_end = 0; vm_prev = 0; vm_file = 0 }

abbrev answers : Answers
answers = record {
  mm = 1;
  locked = true;
  found = 200;
  areas = areas;
  page = 7;
  path = some (codes "/lib/libc.so");
}

info :
    get_vma_info_str functions answers 0x2010
    ≡ (some (named (codes "libc.so") 0x1010), down_read ∷ gets_page 7 ∷ frees_page 7 ∷ up_read ∷ [])
unfolding get_vma_info_str
info = refl

areas-IsOrdered : IsOrdered areas
areas-IsOrdered vma = ground arith

get_vma_info_str-Located_example :
    ((get_vma_info_str functions answers 0x2010).0 ≡ none)
    ⊎ ((i : Info) × ((get_vma_info_str functions answers 0x2010).0 ≡ some i)
        × Located functions answers 0x2010 i)
get_vma_info_str-Located_example = get_vma_info_str-Located functions answers 0x2010 areas-IsOrdered

-- Two frames, at 0x8000 and 0x8100.
abbrev copy : ℕ → Option StackFrame32
copy fp =
    if fp == 0x8000
    then some (record { next_fp = 0x8100; ret_addr = 0x5000 })
    else if fp == 0x8100
    then some (record { next_fp = 0; ret_addr = 0x6000 })
    else none

abbrev regs : Regs
regs = record { r7 = 0; r11 = 0x8000; r13 = 0x7ff0; r14 = 0x4000; sp = 0; pc = 0x3000; pstate = 16 }

stored :
    my_unwind_compat copy true (some regs) []
    ≡ (2 ^ 64 - 1) ∷ 0x6000 ∷ 0x5000 ∷ 0x4000 ∷ 0x3000 ∷ []
unfolding my_unwind_compat
stored = refl

two_frames : Stack copy 0x7ff0 0x8000 (0x5000 ∷ 0x6000 ∷ [])
two_frames =
    calls (record { next_fp = 0x8100; ret_addr = 0x5000 })
      (omega arith, omega arith, refl, omega arith) refl (omega arith)
      (outermost (record { next_fp = 0; ret_addr = 0x6000 })
        (omega arith, omega arith, refl, omega arith) refl (omega arith))

my_unwind_compat-Stack_example :
    my_unwind_compat copy true (some regs) []
    ≡ (2 ^ 64 - 1) ∷ 0x6000 ∷ 0x5000 ∷ 0x4000 ∷ 0x3000 ∷ []
my_unwind_compat-Stack_example =
    my_unwind_compat-Stack copy 0x7ff0 regs 0x8000 (0x5000 ∷ 0x6000 ∷ [])
      (inl (omega arith, refl), inr (refl, refl)) two_frames (omega arith) (omega arith)

unwind-after_example :
    after nothing (unwind_user_stack_standard functions copy (some regs) [] (λ i. answers)).1
    ≡ some nothing
unwind-after_example = unwind-after functions copy (some regs) [] (λ i. answers)

-- ===== src/Inline/Tests.antt =====
-- A small kernel whose code is NOPs, and the theorems of the Inline modules at it.
use kpm_syscall_backtrace.Base.{
  inl, ℕ, zero, suc, ◌+◌, ◌<◌, ◌≡◌, refl, arith, true, false, ◌==◌, if◌then◌else◌, Option, none,
  some, [], ◌∷◌, get_or, replicate,
}
use kpm_syscall_backtrace.Hook.Types.{HookErr, no_err, bad_relo, arm64_nop, Hook, is_bad_address}
use kpm_syscall_backtrace.Hook.Insn.{sign64_extend, bits32}
use kpm_syscall_backtrace.Hook.Emit.{adr_target}
use kpm_syscall_backtrace.Hook.Relocate.{hook_prepare, set_up, relocate_all}
use kpm_syscall_backtrace.Memory.{Warp, untyped, hook_mem_zalloc, hook_get_mem_from_origin}
use kpm_syscall_backtrace.Memory.Laws.{Unique}
use kpm_syscall_backtrace.PageTable.{Paging, pgtable_entry_kernel, modify_entry_kernel}
use kpm_syscall_backtrace.Inline.{
  Entry, Kernel, zero_entry, zero_hook, branch_func_addr, branch_func_addr_once, hook_install,
  hook_uninstall, hook, unhook,
}
use kpm_syscall_backtrace.Inline.Laws.{IsMapped, entry, hook_install-text, uninstall-install}
use kpm_syscall_backtrace.Inline.Wrap.{Transits}
use kpm_syscall_backtrace.Inline.Resolve.{arrives, branch, branch_func_addr-Trail}
use kpm_syscall_backtrace.Inline.Hooked.{Unchanged, hook_fails-Unchanged}
use kpm_syscall_backtrace.Inline.Roundtrip.{unhook-hook}

abbrev paging : Paging
paging = record {
  page_shift = 12;
  page_level = 3;
  pgd_va = 0xffffff8000001000;
  linear_voffset = 0xffffff8000000000;
}

abbrev free_slot : Warp Entry
free_slot = record { in_use = false; type = untyped; addr = 0; chain = zero_entry }

abbrev func : ℕ
func = 0xffffff8000080000

abbrev replace : ℕ
replace = 0xffffff8000090000

abbrev kernel_of_code : (ℕ → ℕ) → Kernel
kernel_of_code text = record {
  text = text;
  ptes = λ a. 3;
  mem = record { start = 0xffffff8000100000; warps = free_slot ∷ free_slot ∷ [] };
}

abbrev nops : Kernel
nops = kernel_of_code (λ a. arm64_nop)

abbrev kernel_or : Kernel → Option (HookErr × ℕ × Kernel) → Kernel
kernel_or k none = k
kernel_or k (some (err, backup, k')) = k'

abbrev nops_hooked : Kernel
nops_hooked = kernel_or nops (hook 2 paging nops func replace true)

nops_Unique : Unique nops.mem.warps
nops_Unique = (λ e. cc, (λ e. cc, tt))

hooks_nops : hook 2 paging nops func replace true ≡ some (no_err, 0xffffff8000100068, nops_hooked)
unfolding hook hook_mem_zalloc hook_prepare is_bad_address set_up relocate_all pgtable_entry_kernel
hooks_nops = refl

unhook-hook_example :
    (k'' : Kernel) × (unhook 3 paging nops_hooked func ≡ some k'')
    × ((x : ℕ) → k''.text x ≡ arm64_nop)
    × (hook_get_mem_from_origin k''.mem func ≡ none)
unfolding hook branch_func_addr_once hook_mem_zalloc hook_prepare is_bad_address set_up relocate_all
    pgtable_entry_kernel modify_entry_kernel
unhook-hook_example =
    unhook-hook 1 2 paging nops nops_hooked func replace 0xffffff8000100068 (omega arith) refl refl
      refl nops_Unique refl (omega arith) hooks_nops (omega arith)

-- An ADRP of the function's own page is refused.
abbrev adrps : Kernel
adrps = kernel_of_code (λ a. 0x90000000)

abbrev adrps_after : Kernel
adrps_after = kernel_or adrps (hook 2 paging adrps func replace true)

refuses_adrps :
    hook 2 paging adrps func replace true ≡ some (bad_relo, 0xffffff8000100068, adrps_after)
unfolding hook hook_mem_zalloc hook_prepare is_bad_address set_up relocate_all pgtable_entry_kernel
    adr_target sign64_extend bits32
refuses_adrps = refl

hook_fails-Unchanged_example : Unchanged adrps adrps_after func
hook_fails-Unchanged_example =
    hook_fails-Unchanged 2 paging adrps adrps_after func replace true bad_relo 0xffffff8000100068
      func refl refuses_adrps (λ e. cc)

-- A hook whose trampoline is four words.
abbrev small_hook : Hook
small_hook = record zero_hook {
  origin_addr = func;
  tramp_insts_num = 4;
  origin_insts = replicate 6 arm64_nop;
  tramp_insts = 1 ∷ 2 ∷ 3 ∷ 4 ∷ 0 ∷ 0 ∷ [];
}

nops-IsMapped : IsMapped paging nops func
unfolding pgtable_entry_kernel
nops-IsMapped = omega arith

hook_install-text_example :
    (k' : Kernel) × (hook_install paging nops small_hook ≡ some k')
    × (k'.text (func + 8) ≡ 3)
    × (k'.text (func + 16) ≡ arm64_nop)
    × (k'.ptes (entry paging nops small_hook) ≡ 3)
    × (k'.mem ≡ nops.mem)
hook_install-text_example =
    hook_install-text paging nops small_hook 2 (func + 16) nops-IsMapped (omega arith) (omega arith)
      (omega arith) (omega arith, (omega arith, (omega arith, (omega arith, tt))))

abbrev installed_or : Kernel → Option Kernel → Kernel
installed_or k none = k
installed_or k (some k') = k'

abbrev nops_installed : Kernel
nops_installed = installed_or nops (hook_install paging nops small_hook)

installs_small : hook_install paging nops small_hook ≡ some nops_installed
unfolding hook_install pgtable_entry_kernel
installs_small = refl

saved_nops : (i : ℕ) → i < 4 → get_or (replicate 6 arm64_nop) i 0 ≡ arm64_nop
saved_nops zero lt = refl
saved_nops (suc zero) lt = refl
saved_nops (suc (suc zero)) lt = refl
saved_nops (suc (suc (suc zero))) lt = refl
saved_nops (suc (suc (suc (suc i)))) lt = absurd (omega arith)

nops_installed-IsMapped : IsMapped paging nops_installed func
unfolding hook_install pgtable_entry_kernel modify_entry_kernel
nops_installed-IsMapped = omega arith

uninstall-install_example :
    (k'' : Kernel) × (hook_uninstall paging nops_installed small_hook ≡ some k'')
    × ((x : ℕ) → k''.text x ≡ arm64_nop)
    × (k''.mem ≡ nops_installed.mem)
uninstall-install_example =
    uninstall-install paging nops nops_installed small_hook nops-IsMapped saved_nops installs_small
      nops_installed-IsMapped

-- Transit functions of no word but one of 95.
abbrev transits : Transits
transits = record { words0 = []; words4 = 7 ∷ []; words8 = []; words12 = replicate 95 7 }

-- Two branches to each other, and one to a NOP.
abbrev loop_code : ℕ → ℕ
loop_code a = if a == func then 0x14000001 else if a == func + 4 then 0x17ffffff else arm64_nop

abbrev jump_code : ℕ → ℕ
jump_code a = if a == func then 0x14000001 else arm64_nop

branch_func_addr-Trail_example :
    branch_func_addr 9 (kernel_of_code jump_code) func ≡ some (func + 4)
branch_func_addr-Trail_example =
    branch_func_addr-Trail (kernel_of_code jump_code) 9 func (func + 4) 1
      (branch (refl, inl (omega arith, refl))
        (arrives (omega arith) (omega arith) (omega arith) (omega arith)))
      (omega arith)

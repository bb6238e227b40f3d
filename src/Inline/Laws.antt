-- ===== src/Inline/Laws.antt =====
-- hook_install and hook_uninstall of kernel/base/hook.c: the code and the page table that they leave.
use kpm_syscall_backtrace.Base.{
  ℕ, ◌*◌, ◌^◌, ◌<◌, ◌≤◌, ◌≡◌, ◌≢◌, refl, sym, ◌∙◌, ap, some, get_or, ==_ne, List,
}
use mathlib.Core.Option.{some-injective}
use kpm_syscall_backtrace.Hook.Types.{Hook, add64}
use kpm_syscall_backtrace.PageTable.{Paging, writable, pgtable_entry_kernel, modify_entry_kernel}
use kpm_syscall_backtrace.PageTable.Laws.{modify_entry-entry}
use kpm_syscall_backtrace.Inline.{Kernel, patch_text, write_code, hook_install, hook_uninstall}
use kpm_syscall_backtrace.Inline.Text.{
  Avoids, patch_text-word, patch_text-Avoids, patch_text-restores,
}

-- Some entry of the page table maps the address.
abbrev pub IsMapped : Paging → Kernel → ℕ → Type 0
IsMapped p k va = pgtable_entry_kernel p k.ptes va ≢ 0

module _ (p : Paging) (k : Kernel) (h : Hook) where
  abbrev pub entry : ℕ
  entry = pgtable_entry_kernel p k.ptes h.origin_addr

  abbrev pub code_written : List ℕ → Kernel
  code_written insts = record k {
    text = patch_text k.text h.origin_addr insts h.tramp_insts_num;
    ptes =
        modify_entry_kernel p (modify_entry_kernel p k.ptes entry (writable (k.ptes entry))) entry
          (k.ptes entry);
  }

  write_code_lem :
      (insts : List ℕ)
      → IsMapped p k h.origin_addr
      → write_code p k h insts ≡ some (code_written insts)
  unfolding write_code
  write_code_lem insts mapped = rw (==_ne entry 0 mapped) refl

  pub hook_install_lem :
      IsMapped p k h.origin_addr → hook_install p k h ≡ some (code_written h.tramp_insts)
  unfolding hook_install
  hook_install_lem mapped = write_code_lem h.tramp_insts mapped

  pub hook_uninstall_lem :
      IsMapped p k h.origin_addr → hook_uninstall p k h ≡ some (code_written h.origin_insts)
  unfolding hook_uninstall
  hook_uninstall_lem mapped = write_code_lem h.origin_insts mapped

  -- If an entry of the page table maps the function, `hook_install` succeeds: the words of the
  -- trampoline stand at the function, no other word of the code changes, the page table entry has its
  -- value again, and the hook memory stays.
  pub hook_install-text :
      (i x : ℕ)
      → IsMapped p k h.origin_addr
      → h.origin_addr < 2 ^ 64
      → h.tramp_insts_num ≤ 2 ^ 62
      → i < h.tramp_insts_num
      → Avoids h.origin_addr x h.tramp_insts_num
      → (k' : Kernel) × (hook_install p k h ≡ some k')
        × (k'.text (add64 h.origin_addr (i * 4)) ≡ get_or h.tramp_insts i 0)
        × (k'.text x ≡ k.text x)
        × (k'.ptes entry ≡ k.ptes entry)
        × (k'.mem ≡ k.mem)
  hook_install-text i x mapped small num lt out = (
    code_written h.tramp_insts,
    hook_install_lem mapped,
    patch_text-word h.origin_addr k.text h.tramp_insts i h.tramp_insts_num small lt num,
    patch_text-Avoids h.origin_addr k.text h.tramp_insts x h.tramp_insts_num out,
    modify_entry-entry p (modify_entry_kernel p k.ptes entry (writable (k.ptes entry))) entry
        (k.ptes entry),
    refl,
  )

-- If the hook has saved the words that its trampoline overwrites, and an entry maps the function before
-- and after a successful installation, then `hook_uninstall` after it succeeds, gives back every word of
-- the kernel's code as it was before the installation, and leaves the hook memory.
pub uninstall-install :
    (p : Paging) (k k' : Kernel) (h : Hook)
    → IsMapped p k h.origin_addr
    → ((i : ℕ)
        → i < h.tramp_insts_num
        → get_or h.origin_insts i 0 ≡ k.text (add64 h.origin_addr (i * 4)))
    → hook_install p k h ≡ some k'
    → IsMapped p k' h.origin_addr
    → (k'' : Kernel) × (hook_uninstall p k' h ≡ some k'')
      × ((x : ℕ) → k''.text x ≡ k.text x)
      × (k''.mem ≡ k'.mem)
uninstall-install p k k' h mapped saved e mapped' =
    let same : code_written p k h h.tramp_insts ≡ k' =
      some-injective _ _ (sym (hook_install_lem p k h mapped) ∙ e) in
    (
      code_written p k' h h.origin_insts,
      hook_uninstall_lem p k' h mapped',
      λ x.
          ap (λ (t : Kernel). patch_text t.text h.origin_addr h.origin_insts h.tramp_insts_num x)
            (sym same)
          ∙ patch_text-restores h.origin_addr k.text h.tramp_insts h.origin_insts h.tramp_insts_num
              x saved,
      refl,
    )

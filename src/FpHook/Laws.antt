-- ===== src/FpHook/Laws.antt =====
-- fp_hook and fp_unhook of kernel/base/fphook.c: the kernel's data that they leave.
use kpm_syscall_backtrace.Base.{ℕ, ◌≡◌, ◌≢◌, refl, sym, ◌∙◌, ap, some, ==_ne, Eq-cases, inl, inr}
use mathlib.Core.Option.{some-injective}
use kpm_syscall_backtrace.PageTable.{
  Paging, store, writable, pgtable_entry_kernel, modify_entry_kernel,
}
use kpm_syscall_backtrace.PageTable.Laws.{store_same, store_other}
use kpm_syscall_backtrace.FpHook.{FpKernel, write_pointer, fp_hook, fp_unhook}

-- Some entry of the page table maps the address.
abbrev pub IsMapped : Paging → FpKernel → ℕ → Type 0
IsMapped p k va = pgtable_entry_kernel p k.ptes va ≢ 0

module _ (p : Paging) (k : FpKernel) (fp_addr : ℕ) where
  abbrev pub pointer_written : ℕ → FpKernel
  pointer_written value =
      let entry = pgtable_entry_kernel p k.ptes fp_addr in
      record k {
        words = store k.words fp_addr value;
        ptes =
            modify_entry_kernel p (modify_entry_kernel p k.ptes entry (writable (k.ptes entry)))
              entry (k.ptes entry);
      }

  write_pointer_lem :
      (value : ℕ)
      → IsMapped p k fp_addr
      → write_pointer p k fp_addr value ≡ some (pointer_written value)
  unfolding write_pointer
  write_pointer_lem value mapped = rw (==_ne (pgtable_entry_kernel p k.ptes fp_addr) 0 mapped) refl

  fp_hook_lem :
      (replace : ℕ)
      → IsMapped p k fp_addr
      → fp_hook p k fp_addr replace ≡ some (k.words fp_addr, pointer_written replace)
  unfolding fp_hook
  fp_hook_lem replace mapped = rw (write_pointer_lem replace mapped, fp_hook) refl

store_back : (mem : ℕ → ℕ) (addr v x : ℕ) → store (store mem addr v) addr (mem addr) x ≡ mem x
store_back mem addr v x = elim (Eq-cases x addr) [
  | inl e ↦ rw (e, store_same (store mem addr v) addr (mem addr)) refl
  | inr ne ↦ store_other (store mem addr v) addr (mem addr) x ne ∙ store_other mem addr v x ne
]

-- If an entry maps the pointer before and after a successful `fp_hook`, then the pointer has the new
-- value, and `fp_unhook` with the stored back-up succeeds, gives back every word of the kernel's data as it
-- was before, and leaves the hook memory.
pub fp_unhook-fp_hook :
    (p : Paging) (k k' : FpKernel) (fp_addr replace backup : ℕ)
    → IsMapped p k fp_addr
    → fp_hook p k fp_addr replace ≡ some (backup, k')
    → IsMapped p k' fp_addr
    → (k'.words fp_addr ≡ replace)
      × ((k'' : FpKernel) × (fp_unhook p k' fp_addr backup ≡ some k'')
          × ((x : ℕ) → k''.words x ≡ k.words x)
          × (k''.mem ≡ k.mem))
unfolding fp_unhook
fp_unhook-fp_hook p k k' fp_addr replace backup mapped e mapped' =
    let same = some-injective _ _ (sym (fp_hook_lem p k fp_addr replace mapped) ∙ e) in
    let saved : k.words fp_addr ≡ backup = ap (λ (r : ℕ × FpKernel). r.0) same in
    let words : store k.words fp_addr replace ≡ k'.words =
      ap (λ (r : ℕ × FpKernel). r.1.words) same in
    (
      ap (λ f. f fp_addr) (sym words) ∙ store_same k.words fp_addr replace,
      (
        pointer_written p k' fp_addr backup,
        write_pointer_lem p k' fp_addr backup mapped',
        λ x.
            ap (λ f. store f fp_addr backup x) (sym words)
            ∙ ap (λ b. store (store k.words fp_addr replace) fp_addr b x) (sym saved)
            ∙ store_back k.words fp_addr replace x,
        ap (λ (r : ℕ × FpKernel). r.1.mem) (sym same),
      ),
    )

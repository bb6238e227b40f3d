-- ===== src/PageTable/Laws.antt =====
-- What modify_entry_kernel of kernel/base/start.c leaves in the page table.
use kpm_syscall_backtrace.Base.{ℕ, ◌≡◌, ◌≢◌, refl, arith, ==_self, ==_ne}
use kpm_syscall_backtrace.PageTable.{Paging, store, modify_entry_kernel}

pub store_same : (mem : ℕ → ℕ) (addr v : ℕ) → store mem addr v addr ≡ v
unfolding store
store_same mem addr v = rw (==_self addr) refl

pub store_other : (mem : ℕ → ℕ) (addr v x : ℕ) → x ≢ addr → store mem addr v x ≡ mem x
unfolding store
store_other mem addr v x h = rw (==_ne x addr h) refl

-- The entry itself gets the value, on both branches.
pub modify_entry-entry :
    (p : Paging) (ptes : ℕ → ℕ) (entry value : ℕ)
    → modify_entry_kernel p ptes entry value entry ≡ value
unfolding modify_entry_kernel
modify_entry-entry p ptes entry value = ground arith

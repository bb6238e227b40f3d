-- ===== src/PageTable.antt =====
-- kernel/base/start.c, pgtable_entry and modify_entry_kernel, with kernel/include/pgtable.h: the walk
-- of the kernel's page table, and the update of an entry. The flushes of caches and of the TLB have no
-- effect on the state of the model.
pub mod Laws
use kpm_syscall_backtrace.Base.{
  ℕ, zero, suc, ◌+◌, ◌-◌, ◌*◌, ◌/◌, ◌%◌, ◌^◌, ◌==◌, if◌then◌else◌, Bool, not, ◌&&◌, bit_and, bit_or,
}

-- The paging variables that kernel/base/start.c sets from the running kernel.
pub record Paging : Type 0 where
  pub page_shift : ℕ
  pub page_level : ℕ
  pub pgd_va : ℕ
  pub linear_voffset : ℕ

abbrev pub pte_rdonly : ℕ
pte_rdonly = 2 ^ 7

abbrev pub pte_dbm : ℕ
pte_dbm = 2 ^ 51

abbrev pub valid_cont_bits : ℕ
valid_cont_bits = 2 ^ 52 + 3

-- A word of memory written.
unfoldable pub store : (ℕ → ℕ) → ℕ → ℕ → ℕ → ℕ
store mem addr v x = if x == addr then v else mem x

-- `~x`
abbrev pub complement64 : ℕ → ℕ
complement64 x = 2 ^ 64 - 1 - x

-- `((1ul << (48 - bits)) - 1) << bits`
abbrev pub address_mask : ℕ → ℕ
address_mask bits = (2 ^ (48 - bits) - 1) * 2 ^ bits

unfoldable pub phys_to_virt : Paging → ℕ → ℕ
phys_to_virt p phys = (phys + p.linear_voffset) % 2 ^ 64

-- The loop of `pgtable_entry`, with `left` levels to go: level 4 - left is next. A block that is found
-- at level 0 does not end the loop.
unfoldable pub walk : Paging → (ℕ → ℕ) → ℕ → ℕ → ℕ → ℕ → ℕ
unfolding phys_to_virt
walk p ptes va zero pxd_va entry_va = entry_va
walk p ptes va (suc left) pxd_va _ =
    let pxd_bits = p.page_shift - 3 in
    let pxd_index = bit_and (va / 2 ^ (pxd_bits * suc left + 3)) (2 ^ pxd_bits - 1) in
    let entry_va = (pxd_va + pxd_index * 8) % 2 ^ 64 in
    let desc = ptes entry_va in
    let block_bits = left * pxd_bits + p.page_shift in
    let table =
      walk p ptes va left (phys_to_virt p (bit_and desc (address_mask p.page_shift))) entry_va in
    let block =
      walk p ptes va left (phys_to_virt p (bit_and desc (address_mask block_bits))) entry_va in
    if entry_va == 0
    then 0
    else if desc % 4 == 3
    then table
    else if desc % 4 == 1
    then (if left == 3 then block else entry_va)
    else 0

-- `pgtable_entry_kernel`: the address of the entry that maps `va`, or 0.
unfoldable pub pgtable_entry_kernel : Paging → (ℕ → ℕ) → ℕ → ℕ
unfolding walk
pgtable_entry_kernel p ptes va = walk p ptes va p.page_level p.pgd_va 0

abbrev pub pte_valid_cont : ℕ → Bool
pte_valid_cont pte = bit_and pte valid_cont_bits == valid_cont_bits

-- The loop over the entries of a contiguous group: the first `n` are written.
unfoldable pub write_group : Paging → (ℕ → ℕ) → ℕ → ℕ → ℕ → ℕ → ℕ
unfolding store
write_group p ptes first prot zero = ptes
write_group p ptes first prot (suc n) =
    let rest = write_group p ptes first prot n in
    let addr = first + n * 8 in
    store rest addr (bit_or (bit_and (rest addr) (address_mask p.page_shift)) prot)

unfoldable pub modify_entry_kernel : Paging → (ℕ → ℕ) → ℕ → ℕ → ℕ → ℕ
unfolding store
modify_entry_kernel p ptes entry value =
    if not (pte_valid_cont (ptes entry)) && not (pte_valid_cont value)
    then store ptes entry value
    else let prot = bit_and value (complement64 (address_mask p.page_shift)) in
      let first = bit_and entry (complement64 (8 * 16 - 1)) in
      store (write_group p ptes first prot 16) entry value

-- The value that makes an entry writable: `(ori_prot | PTE_DBM) & ~PTE_RDONLY`.
abbrev pub writable : ℕ → ℕ
writable ori_prot = bit_and (bit_or ori_prot pte_dbm) (complement64 pte_rdonly)

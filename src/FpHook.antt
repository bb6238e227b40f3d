-- ===== src/FpHook.antt =====
-- kernel/base/fphook.c: hooks of function pointers. Their state is the kernel's data, its page table and
-- the hook memory; the operations on the slots of a chain are the text of those of kernel/base/hook.c.
pub mod Laws
pub mod Refused
mod Tests
use kpm_syscall_backtrace.Base.{
  ℕ, ◌+◌, ◌==◌, if◌then◌else◌, Bool, true, false, ◌&&◌, Option, none, some, List, [], ◌∷◌,
  get_elem?, set, replicate,
}
use kpm_syscall_backtrace.Hook.Types.{HookErr, no_err, bad_address, no_mem, is_bad_address}
use kpm_syscall_backtrace.Chain.Items.{Slot, Chain, empty_slot, is_empty, add_from, remove_from}
use kpm_syscall_backtrace.Chain.Transit.{Fargs, transit}
use kpm_syscall_backtrace.Memory.{
  HookMem, function_pointer_chain, chain_addr, hook_mem_zalloc, hook_mem_free,
  hook_get_mem_from_origin,
}
use kpm_syscall_backtrace.PageTable.{
  Paging, store, writable, pgtable_entry_kernel, modify_entry_kernel,
}
use kpm_syscall_backtrace.Inline.{transit_inst_num}
use kpm_syscall_backtrace.Inline.Wrap.{Transits, all_empty, hook_chain_prepare}

abbrev pub fp_hook_chain_num : ℕ
fp_hook_chain_num = 0x20

-- `fp_hook_t`
pub record FpHook : Type 0 where
  pub fp_addr : ℕ
  pub replace_addr : ℕ
  pub origin_fp : ℕ

-- `fp_hook_chain_t`
pub record FpChain : Type 0 where
  pub hook : FpHook
  pub items : Chain
  pub transit_code : List ℕ

-- `words` holds the 64-bit words of the kernel's data.
pub record FpKernel : Type 0 where
  pub words : ℕ → ℕ
  pub ptes : ℕ → ℕ
  pub mem : HookMem FpChain

-- A slot that `hook_mem_zalloc` has cleared.
abbrev pub zero_fp_chain : FpChain
zero_fp_chain = record {
  hook = record { fp_addr = 0; replace_addr = 0; origin_fp = 0 };
  items = record { chain_items_max = 0; slots = replicate fp_hook_chain_num empty_slot };
  transit_code = replicate transit_inst_num 0;
}

-- offsetof(fp_hook_chain_t, transit)
abbrev pub fp_transit_offset : ℕ
fp_transit_offset = 832

-- The shared body of `fp_hook` and `fp_unhook`; `none` if no entry maps the pointer.
unfoldable pub write_pointer : Paging → FpKernel → ℕ → ℕ → Option FpKernel
unfolding store
write_pointer p k fp_addr value =
    let entry = pgtable_entry_kernel p k.ptes fp_addr in
    let ori_prot = k.ptes entry in
    let opened = modify_entry_kernel p k.ptes entry (writable ori_prot) in
    if entry == 0
    then none
    else some (record k {
      words = store k.words fp_addr value;
      ptes = modify_entry_kernel p opened entry ori_prot;
    })

-- `fp_hook`, with what it stores in `*backup`.
unfoldable pub fp_hook : Paging → FpKernel → ℕ → ℕ → Option (ℕ × FpKernel)
unfolding write_pointer
fp_hook p k fp_addr replace = elim (write_pointer p k fp_addr replace) [
  | none ↦ none
  | some k' ↦ some (k.words fp_addr, k')
]

unfoldable pub fp_unhook : Paging → FpKernel → ℕ → ℕ → Option FpKernel
unfolding write_pointer
fp_unhook p k fp_addr backup = write_pointer p k fp_addr backup

unfoldable pub put_chain : HookMem FpChain → ℕ → FpChain → HookMem FpChain
put_chain m i c = elim (get_elem? m.warps i) [
  | none ↦ m
  | some w ↦ record m { warps = set m.warps i (record w { chain = c }) }
]

-- The loop of `fp_hook_wrap` over the items.
unfoldable pub fp_add : FpKernel → ℕ → FpChain → ℕ → ℕ → ℕ → HookErr × FpKernel
unfolding add_from put_chain
fp_add k i c before after udata =
    let (err, slots, items_max) =
      add_from before after udata 0 c.items.chain_items_max c.items.slots in
    let items : Chain = record { chain_items_max = items_max; slots = slots } in
    (err, record k { mem = put_chain k.mem i (record c { items = items }) })

-- `fp_hook_wrap` behind `hook_chain_prepare`, by its result. If that fails the slot stays in use.
unfoldable pub fp_prepared :
    Paging → FpKernel → ℕ → FpChain → ℕ → ℕ → ℕ → HookErr → Option (HookErr × FpKernel)
unfolding fp_hook fp_add put_chain
fp_prepared p k i c before after udata no_err =
    elim (fp_hook p k c.hook.fp_addr c.hook.replace_addr) [
      | none ↦ none
      | some (backup, k') ↦ some (
          fp_add k' i (record c { hook = record c.hook { origin_fp = backup } }) before after udata)
    ]
fp_prepared p k i c before after udata err = some (err, record k { mem = put_chain k.mem i c })

-- `fp_hook_wrap` for a pointer without a chain, by the result of `hook_mem_zalloc`.
unfoldable pub fp_wrap_new :
    Transits
    → Paging
    → FpKernel
    → ℕ
    → ℕ
    → ℕ
    → ℕ
    → ℕ
    → Option ℕ × HookMem FpChain
    → Option (HookErr × FpKernel)
unfolding fp_prepared hook_chain_prepare
fp_wrap_new code p k fp_addr argno before after udata (none, m) =
    some (no_mem, record k { mem = m })
fp_wrap_new code p k fp_addr argno before after udata (some i, m) =
    let replace = chain_addr m.start i + fp_transit_offset in
    let h : FpHook = record { fp_addr = fp_addr; replace_addr = replace; origin_fp = 0 } in
    elim (hook_chain_prepare code zero_fp_chain.transit_code argno) [
      | none ↦ none
      | some (err, words) ↦
          fp_prepared p (record k { mem = m }) i
            (record zero_fp_chain { hook = h; transit_code = words }) before after udata err
    ]

unfoldable pub fp_wrap_found : FpKernel → ℕ → ℕ → ℕ → ℕ → Option (HookErr × FpKernel)
unfolding fp_add
fp_wrap_found k i before after udata = elim (get_elem? k.mem.warps i) [
  | none ↦ none
  | some w ↦ some (fp_add k i w.chain before after udata)
]

unfoldable pub fp_hook_wrap :
    Transits → Paging → FpKernel → ℕ → ℕ → ℕ → ℕ → ℕ → Option (HookErr × FpKernel)
unfolding fp_wrap_new fp_wrap_found hook_get_mem_from_origin
fp_hook_wrap code p k fp_addr argno before after udata =
    if is_bad_address fp_addr
    then some (bad_address, k)
    else (elim (hook_get_mem_from_origin k.mem fp_addr) [
      | some i ↦ fp_wrap_found k i before after udata
      | none ↦
          fp_wrap_new code p k fp_addr argno before after udata
            (hook_mem_zalloc zero_fp_chain k.mem fp_addr function_pointer_chain)
    ])

-- `fp_hook_unwrap` with the chain of slot `i`.
unfoldable pub fp_unwrap_found : Paging → FpKernel → ℕ → FpChain → ℕ → ℕ → Option FpKernel
unfolding fp_unhook remove_from put_chain
fp_unwrap_found p k i c before after =
    let slots = remove_from before after c.items.slots in
    let c' = record c { items = record c.items { slots = slots } } in
    let k' = record k { mem = put_chain k.mem i c' } in
    if all_empty slots
    then (elim (fp_unhook p k' c.hook.fp_addr c.hook.origin_fp) [
      | none ↦ none
      | some k'' ↦ some (record k'' { mem = hook_mem_free k''.mem i })
    ])
    else some k'

unfoldable pub fp_hook_unwrap : Paging → FpKernel → ℕ → ℕ → ℕ → Option FpKernel
unfolding fp_unwrap_found hook_get_mem_from_origin
fp_hook_unwrap p k fp_addr before after =
    if is_bad_address fp_addr then some k else (elim (hook_get_mem_from_origin k.mem fp_addr) [
      | none ↦ some k
      | some i ↦ elim (get_elem? k.mem.warps i) [
        | none ↦ none
        | some w ↦ fp_unwrap_found p k i w.chain before after
      ]
    ])

-- `_fp_transit0` to `_fp_transit12`: the text of the transit functions of kernel/base/hook.c, on the items
-- of this chain and with the pointer's original value as the original function.
module _ {ℓ} {W : Type ℓ} (call : ℕ → ℕ → Fargs × W → Fargs × W)
    (call_fp : ℕ → List ℕ → W → ℕ × W) where
  unfoldable pub fp_transit : FpChain → List ℕ → ℕ → List ℕ → W → ℕ × W
  unfolding transit
  fp_transit c args ret local w =
      transit call (call_fp c.hook.origin_fp) c.items
        (record { skip_origin = false; args = args; ret = ret; local = local }) w

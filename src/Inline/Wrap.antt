-- ===== src/Inline/Wrap.antt =====
-- kernel/base/hook.c, hook_chain_prepare, hook_wrap and hook_unwrap_remove.
use kpm_syscall_backtrace.Base.{
  ℕ, ◌+◌, ◌==◌, leb, if◌then◌else◌, Bool, true, not, ◌&&◌, Option, none, some, List, [], ◌∷◌,
  length, get_elem?,
}
use kpm_syscall_backtrace.Hook.Types.{
  Hook, HookErr, no_err, bad_address, no_mem, transit_no_mem, arm64_nop, arm64_bti_jc,
  is_bad_address,
}
use kpm_syscall_backtrace.Hook.Relocate.{write_words, hook_prepare}
use kpm_syscall_backtrace.Chain.Items.{Slot, is_empty, hook_chain_add, hook_chain_remove}
use kpm_syscall_backtrace.Memory.{
  inline_chain, chain_addr, hook_mem_zalloc, hook_mem_free, hook_get_mem_from_origin,
}
use kpm_syscall_backtrace.PageTable.{Paging}
use kpm_syscall_backtrace.Inline.{
  Entry, Kernel, zero_entry, transit_inst_num, transit_offset, branch_func_addr, hook_install,
  uninstall_slot, put_entry, new_hook,
}

-- The words that the compiler made of `_transit0`, `_transit4`, `_transit8` and `_transit12`.
pub record Transits : Type 0 where
  pub words0 : List ℕ
  pub words4 : List ℕ
  pub words8 : List ℕ
  pub words12 : List ℕ

-- The switch of `hook_chain_prepare`. A negative number of arguments goes to the default, as a large
-- number does.
unfoldable pub transit_words : Transits → ℕ → List ℕ
transit_words code argno =
    if argno == 0
    then code.words0
    else if leb argno 4
    then code.words4
    else if leb argno 8
    then code.words8
    else code.words12

-- `none` is a write past the end of `transit`.
unfoldable pub hook_chain_prepare : Transits → List ℕ → ℕ → Option (HookErr × List ℕ)
unfolding transit_words write_words
hook_chain_prepare code transit argno =
    let words = transit_words code argno in
    let written = write_words transit 0 (arm64_bti_jc ∷ arm64_nop ∷ words) in
    if leb transit_inst_num (length words)
    then some (transit_no_mem, transit)
    else (elim written [ none ↦ none | some transit' ↦ some (no_err, transit') ])

abbrev pub release : Kernel → ℕ → Entry → Kernel
release k i e = record k { mem = hook_mem_free (put_entry k.mem i e) i }

module _ (code : Transits) (p : Paging) where
  -- The end of `hook_wrap`, by the error of `hook_chain_add`.
  unfoldable pub wrap_added : Kernel → ℕ → Entry → HookErr → Option (HookErr × Kernel)
  unfolding hook_install put_entry
  wrap_added k i e no_err = elim (hook_install p (record k { mem = put_entry k.mem i e }) e.hook) [
    | none ↦ none
    | some k' ↦ some (no_err, k')
  ]
  wrap_added k i e err = some (err, release k i e)

  -- `hook_wrap` behind `hook_chain_prepare`: the first item, and the installation.
  unfoldable pub wrap_install : Kernel → ℕ → Entry → ℕ → ℕ → ℕ → Option (HookErr × Kernel)
  unfolding wrap_added hook_chain_add
  wrap_install k i e before after udata =
      let (err, chain) = hook_chain_add e.chain before after udata in
      wrap_added k i (record e { chain = chain }) err

  -- `hook_wrap` from the new slot on.
  unfoldable pub wrap_slot : Kernel → ℕ → Hook → ℕ → ℕ → ℕ → ℕ → Option (HookErr × Kernel)
  unfolding wrap_install hook_chain_prepare
  wrap_slot k i h argno before after udata = elim (hook_prepare k.text h) [
    | none ↦ none
    | some (no_err, h') ↦
        let e = record zero_entry { hook = h' } in
        (elim (hook_chain_prepare code e.transit argno) [
          | none ↦ none
          | some (no_err, transit) ↦
              wrap_install k i (record e { transit = transit }) before after udata
          | some (err, transit) ↦ some (err, release k i e)
        ])
    | some (err, h') ↦ some (err, release k i (record zero_entry { hook = h' }))
  ]

  -- The addition of an item to the chain of slot `i`.
  unfoldable pub wrap_found : Kernel → ℕ → ℕ → ℕ → ℕ → Option (HookErr × Kernel)
  unfolding hook_chain_add put_entry
  wrap_found k i before after udata = elim (get_elem? k.mem.warps i) [
    | none ↦ none
    | some w ↦
        let (err, chain) = hook_chain_add w.chain.chain before after udata in
        some (err, record k { mem = put_entry k.mem i (record w.chain { chain = chain }) })
  ]

  -- `hook_wrap` without a chain for `origin`. The replacement is the chain's own `transit`.
  unfoldable pub wrap_new : Kernel → ℕ → ℕ → ℕ → ℕ → ℕ → ℕ → Option (HookErr × Kernel)
  unfolding wrap_slot hook_mem_zalloc
  wrap_new k func origin argno before after udata =
      let (slot, m) = hook_mem_zalloc zero_entry k.mem origin inline_chain in
      elim slot [
        | none ↦ some (no_mem, record k { mem = m })
        | some i ↦
            let replace = chain_addr m.start i + transit_offset in
            wrap_slot (record k { mem = m }) i (new_hook m i func origin replace) argno before after
              udata
      ]

  unfoldable pub wrap_origin : Kernel → ℕ → ℕ → ℕ → ℕ → ℕ → ℕ → Option (HookErr × Kernel)
  unfolding wrap_found wrap_new hook_get_mem_from_origin
  wrap_origin k func origin argno before after udata =
      elim (hook_get_mem_from_origin k.mem origin) [
        | some i ↦ wrap_found k i before after udata
        | none ↦ wrap_new k func origin argno before after udata
      ]

  -- `hook_wrap`, with `fuel` rounds for `branch_func_addr`.
  unfoldable pub hook_wrap : ℕ → Kernel → ℕ → ℕ → ℕ → ℕ → ℕ → Option (HookErr × Kernel)
  unfolding wrap_origin branch_func_addr
  hook_wrap fuel k func argno before after udata =
      if is_bad_address func then some (bad_address, k) else (elim (branch_func_addr fuel k func) [
        | none ↦ none
        | some origin ↦ wrap_origin k func origin argno before after udata
      ])

abbrev pub all_empty : List Slot → Bool
all_empty [] = true
all_empty (s ∷ slots) = is_empty s.state && all_empty slots

-- `hook_unwrap_remove` with the chain of slot `i`.
unfoldable pub unwrap_found : Paging → Kernel → ℕ → ℕ → ℕ → Bool → Option Kernel
unfolding uninstall_slot hook_chain_remove put_entry
unwrap_found p k i before after remove = elim (get_elem? k.mem.warps i) [
  | none ↦ none
  | some w ↦
      let chain = hook_chain_remove w.chain.chain before after in
      let k' = record k { mem = put_entry k.mem i (record w.chain { chain = chain }) } in
      if not remove
      then some k'
      else if all_empty chain.slots
      then uninstall_slot p k' w.chain.hook i
      else some k'
]

unfoldable pub unwrap_origin : Paging → Kernel → ℕ → ℕ → ℕ → Bool → Option Kernel
unfolding unwrap_found hook_get_mem_from_origin
unwrap_origin p k origin before after remove = elim (hook_get_mem_from_origin k.mem origin) [
  | none ↦ some k
  | some i ↦ unwrap_found p k i before after remove
]

-- `hook_unwrap_remove`, with `fuel` rounds for `branch_func_addr`.
unfoldable pub hook_unwrap_remove : ℕ → Paging → Kernel → ℕ → ℕ → ℕ → Bool → Option Kernel
unfolding unwrap_origin branch_func_addr
hook_unwrap_remove fuel p k func before after remove =
    if is_bad_address func then some k else (elim (branch_func_addr fuel k func) [
      | none ↦ none
      | some origin ↦ unwrap_origin p k origin before after remove
    ])

-- ===== src/FpHook/Refused.antt =====
-- fp_hook_wrap of kernel/base/fphook.c where the transit function does not fit.
use kpm_syscall_backtrace.Base.{
  ℕ, zero, suc, ◌+◌, [], ◌∷◌, ◌≤◌, ◌≡◌, ◌≢◌, refl, sym, ◌∙◌, ap, arith, false, inl, inr, none, some,
  List, length, set,
}
use mathlib.Core.Option.{some-injective}
use kpm_syscall_backtrace.Hook.Types.{transit_no_mem, is_bad_address}
use kpm_syscall_backtrace.Memory.{
  Warp, HookMem, function_pointer_chain, chain_addr, taken, find_free, find_origin,
  hook_get_mem_from_origin,
}
use kpm_syscall_backtrace.Memory.Laws.{IsAligned, AllInUse, zalloc_cases, find_origin-taken}
use kpm_syscall_backtrace.PageTable.{Paging}
use kpm_syscall_backtrace.Inline.{transit_inst_num}
use kpm_syscall_backtrace.Inline.Errors.{find_free-get, set-set, get-set}
use kpm_syscall_backtrace.Inline.Wrap.{Transits, transit_words, hook_chain_prepare}
use kpm_syscall_backtrace.FpHook.{
  FpChain, FpKernel, zero_fp_chain, fp_transit_offset, put_chain, fp_prepared, fp_wrap_new,
  fp_hook_wrap,
}

-- The chain of a slot, and the memory in which the slot is taken.
abbrev pub fresh_chain : HookMem FpChain → ℕ → ℕ → FpChain
fresh_chain m i fp_addr = record zero_fp_chain {
  hook = record {
    fp_addr = fp_addr;
    replace_addr = chain_addr m.start i + fp_transit_offset;
    origin_fp = 0;
  };
}

abbrev pub taken_mem : HookMem FpChain → ℕ → ℕ → HookMem FpChain
taken_mem m i fp_addr = record m {
  warps = set m.warps i (taken zero_fp_chain fp_addr function_pointer_chain);
}

full-find_free : (ws : List (Warp FpChain)) (i : ℕ) → AllInUse ws → find_free ws ≢ some i
unfolding find_free
full-find_free [] i full e = cc
full-find_free (w ∷ ws) zero full e = ground arith
full-find_free (w ∷ ws) (suc i) full e = full-find_free ws i full.1 (ground arith)

put_chain-get :
    (m : HookMem FpChain) (i fp_addr : ℕ) (c : FpChain)
    → find_free m.warps ≡ some i
    → hook_get_mem_from_origin m fp_addr ≡ none
    → hook_get_mem_from_origin (put_chain (taken_mem m i fp_addr) i c) fp_addr ≡ some i
unfolding put_chain hook_get_mem_from_origin
put_chain-get m i fp_addr c free fresh =
    let (w, g) = find_free-get m.warps i free in
    let slot = taken zero_fp_chain fp_addr function_pointer_chain in
    rw (get-set m.warps i w slot g, put_chain)
      (ap (λ ws. find_origin ws fp_addr) (set-set m.warps i slot (record slot { chain = c }))
        ∙ find_origin-taken c fp_addr function_pointer_chain m.warps i free fresh)

refused-long :
    (code : Transits) (argno : ℕ)
    → transit_inst_num ≤ length (transit_words code argno)
    → hook_chain_prepare code zero_fp_chain.transit_code argno
      ≡ some (transit_no_mem, zero_fp_chain.transit_code)
unfolding hook_chain_prepare
refused-long code argno long = ground arith

fp_wrap_new-refused :
    (code : Transits) (p : Paging) (k : FpKernel) (fp_addr argno before after udata i : ℕ)
    (m : HookMem FpChain)
    → transit_inst_num ≤ length (transit_words code argno)
    → fp_wrap_new code p k fp_addr argno before after udata (some i, m)
      ≡ some (transit_no_mem, record k { mem = put_chain m i (fresh_chain m i fp_addr) })
unfolding fp_wrap_new fp_prepared
fp_wrap_new-refused code p k fp_addr argno before after udata i m long =
    rw (refused-long code argno long, fp_wrap_new) refl

-- For a good address without a chain in an aligned hook memory with a free slot, if the transit function
-- has 96 words or more, `fp_hook_wrap` returns HOOK_TRANSIT_NO_MEM and leaves the pointer, but the slot
-- stays in use: the search finds it, so that a later `fp_hook_wrap` takes the pointer for hooked.
pub fp_hook_wrap-refused :
    (code : Transits) (p : Paging) (k : FpKernel) (fp_addr argno before after udata i : ℕ)
    → is_bad_address fp_addr ≡ false
    → IsAligned k.mem
    → find_free k.mem.warps ≡ some i
    → hook_get_mem_from_origin k.mem fp_addr ≡ none
    → transit_inst_num ≤ length (transit_words code argno)
    → (k' : FpKernel) × (fp_hook_wrap code p k fp_addr argno before after udata
        ≡ some (transit_no_mem, k'))
      × (k'.words ≡ k.words)
      × (hook_get_mem_from_origin k'.mem fp_addr ≡ some i)
unfolding fp_hook_wrap
fp_hook_wrap-refused code p k fp_addr argno before after udata i good aligned free fresh long =
    elim (zalloc_cases zero_fp_chain k.mem fp_addr function_pointer_chain aligned) [
      | inl (z, full) ↦ absurd (full-find_free k.mem.warps i full free)
      | inr (j, free', z) ↦
          let same : j ≡ i = some-injective _ _ (sym free' ∙ free) in
          let m = taken_mem k.mem j fp_addr in
          (
            record k { mem = put_chain m j (fresh_chain m j fp_addr) },
            rw (good, fresh, z)
                (fp_wrap_new-refused code p k fp_addr argno before after udata j m long),
            refl,
            put_chain-get k.mem j fp_addr (fresh_chain m j fp_addr) free' fresh ∙ ap some same,
          )
    ]

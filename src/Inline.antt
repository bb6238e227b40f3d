-- ===== src/Inline.antt =====
-- kernel/base/hook.c, from branch_func_addr to hook_unwrap_remove: the operations on inline hooks and on
-- wrapped functions. Their state is the kernel's code, its page table and the hook memory.
pub mod Text
pub mod Laws
pub mod Wrap
pub mod Copy
pub mod Errors
pub mod Resolve
pub mod Hooked
pub mod Unhook
pub mod Restore
pub mod Roundtrip
mod Tests
use kpm_syscall_backtrace.Base.{
  ℕ, zero, suc, ◌+◌, ◌-◌, ◌*◌, ◌/◌, ◌==◌, leb, if◌then◌else◌, Bool, not, ◌||◌, ◌&&◌, bit_and,
  Option, none, some, List, [], ◌∷◌, length, get_or, get_elem?, set, replicate, true, false,
}
use kpm_syscall_backtrace.Hook.Types.{
  Hook, HookErr, no_err, bad_address, no_mem, transit_no_mem, trampoline_max_num, relocate_inst_num,
  arm64_nop, arm64_bti_c, arm64_bti_j, arm64_bti_jc, add64, is_bad_address,
}
use kpm_syscall_backtrace.Hook.Insn.{bits32, sign64_extend}
use kpm_syscall_backtrace.Hook.Relocate.{read_words, hook_prepare}
use kpm_syscall_backtrace.Chain.Items.{
  Chain, Slot, is_empty, new_chain, hook_chain_add, hook_chain_remove,
}
use kpm_syscall_backtrace.Memory.{
  inline, inline_chain, HookType, Warp, HookMem, chain_addr, hook_mem_zalloc, hook_mem_free,
  hook_get_mem_from_origin,
}
use kpm_syscall_backtrace.PageTable.{
  Paging, store, writable, pgtable_entry_kernel, modify_entry_kernel,
}

-- The union `chain` of a slot: `hook_t` is the first member of `hook_chain_t`.
pub record Entry : Type 0 where
  pub hook : Hook
  pub chain : Chain
  pub transit : List ℕ

pub record Kernel : Type 0 where
  pub text : ℕ → ℕ
  pub ptes : ℕ → ℕ
  pub mem : HookMem Entry

abbrev pub transit_inst_num : ℕ
transit_inst_num = 0x60

abbrev pub zero_hook : Hook
zero_hook = record {
  func_addr = 0;
  origin_addr = 0;
  replace_addr = 0;
  relo_addr = 0;
  tramp_insts_num = 0;
  relo_insts_num = 0;
  origin_insts = replicate trampoline_max_num 0;
  tramp_insts = replicate trampoline_max_num 0;
  relo_insts = replicate relocate_inst_num 0;
}

-- A slot that `hook_mem_zalloc` has cleared.
abbrev pub zero_entry : Entry
zero_entry = record { hook = zero_hook; chain = new_chain; transit = replicate transit_inst_num 0 }

-- offsetof(hook_t, relo_insts) and offsetof(hook_chain_t, transit)
abbrev pub relo_insts_offset : ℕ
relo_insts_offset = 88

abbrev pub transit_offset : ℕ
transit_offset = 640

abbrev is_found : Option ℕ → Bool
is_found none = false
is_found (some _) = true

-- One step of `branch_func_addr`: behind a B or a landing pad, unless that is a hook's own.
unfoldable pub branch_func_addr_once : Kernel → ℕ → ℕ
unfolding hook_get_mem_from_origin
branch_func_addr_once k addr =
    let inst = k.text addr in
    let own = is_found (hook_get_mem_from_origin k.mem addr) in
    if bit_and inst 0xFC000000 == 0x14000000
    then add64 addr (sign64_extend (bits32 inst 25 0 * 4) 28)
    else if inst == arm64_bti_c || inst == arm64_bti_j || inst == arm64_bti_jc && not own
    then add64 addr 4
    else addr

-- The loop of `branch_func_addr` for `fuel` rounds; `none` if it goes on.
unfoldable pub branch_func_addr : ℕ → Kernel → ℕ → Option ℕ
unfolding branch_func_addr_once
branch_func_addr zero k addr = none
branch_func_addr (suc fuel) k addr =
    let ret = branch_func_addr_once k addr in
    let rest = branch_func_addr fuel k ret in if ret == addr then some ret else rest

-- The loop that writes the first `n` words.
unfoldable pub patch_text : (ℕ → ℕ) → ℕ → List ℕ → ℕ → ℕ → ℕ
unfolding store
patch_text text addr insts zero = text
patch_text text addr insts (suc n) =
    store (patch_text text addr insts n) (add64 addr (n * 4)) (get_or insts n 0)

-- The shared body of `hook_install` and `hook_uninstall`; `none` if no entry maps the address, where the
-- code reads through a null pointer.
unfoldable pub write_code : Paging → Kernel → Hook → List ℕ → Option Kernel
unfolding patch_text
write_code p k h insts =
    let va = h.origin_addr in
    let entry = pgtable_entry_kernel p k.ptes va in
    let ori_prot = k.ptes entry in
    let opened = modify_entry_kernel p k.ptes entry (writable ori_prot) in
    let text = patch_text k.text va insts h.tramp_insts_num in
    if entry == 0
    then none
    else some (record k { text = text; ptes = modify_entry_kernel p opened entry ori_prot })

unfoldable pub hook_install : Paging → Kernel → Hook → Option Kernel
unfolding write_code
hook_install p k h = write_code p k h h.tramp_insts

unfoldable pub hook_uninstall : Paging → Kernel → Hook → Option Kernel
unfolding write_code
hook_uninstall p k h = write_code p k h h.origin_insts

-- The union of slot `i` written.
unfoldable pub put_entry : HookMem Entry → ℕ → Entry → HookMem Entry
put_entry m i e = elim (get_elem? m.warps i) [
  | none ↦ m
  | some w ↦ record m { warps = set m.warps i (record w { chain = e }) }
]

-- The four addresses of a new hook in slot `i`.
abbrev pub new_hook : HookMem Entry → ℕ → ℕ → ℕ → ℕ → Hook
new_hook m i func origin replace = record zero_hook {
  func_addr = func;
  origin_addr = origin;
  replace_addr = replace;
  relo_addr = chain_addr m.start i + relo_insts_offset;
}

-- `hook` from the slot on: on success the hook is installed and kept, else the slot is released. The
-- result is the error, the address for `*backup` and the state.
unfoldable pub hook_slot : Paging → Kernel → ℕ → Hook → Option (HookErr × ℕ × Kernel)
unfolding hook_install put_entry
hook_slot p k i h = elim (hook_prepare k.text h) [
  | none ↦ none
  | some (no_err, h') ↦
      elim (hook_install p (record k { mem = put_entry k.mem i (record zero_entry { hook = h' }) })
        h') [ none ↦ none | some k' ↦ some (no_err, h'.relo_addr, k') ]
  | some (err, h') ↦
      let m = put_entry k.mem i (record zero_entry { hook = h' }) in
      some (err, h.relo_addr, record k { mem = hook_mem_free m i })
]

-- `hook` behind `hook_mem_zalloc`, by its result.
unfoldable pub hook_allocated :
    Paging → Kernel → ℕ → ℕ → ℕ → Option ℕ × HookMem Entry → Option (HookErr × ℕ × Kernel)
unfolding hook_slot
hook_allocated p k func origin_addr replace (none, m) = some (no_mem, 0, record k { mem = m })
hook_allocated p k func origin_addr replace (some i, m) =
    hook_slot p (record k { mem = m }) i (new_hook m i func origin_addr replace)

-- `hook`, with `fuel` rounds for `branch_func_addr`. `*backup` is 0 where the code leaves it.
unfoldable pub hook : ℕ → Paging → Kernel → ℕ → ℕ → Bool → Option (HookErr × ℕ × Kernel)
unfolding hook_allocated branch_func_addr
hook fuel p k func replace has_backup =
    if func == 0 || replace == 0 || not has_backup
    then some (bad_address, 0, k)
    else (elim (branch_func_addr fuel k func) [
      | none ↦ none
      | some origin_addr ↦
          hook_allocated p k func origin_addr replace
            (hook_mem_zalloc zero_entry k.mem origin_addr inline)
    ])

-- `hook_uninstall`, then the release of slot `i`.
unfoldable pub uninstall_slot : Paging → Kernel → Hook → ℕ → Option Kernel
unfolding hook_uninstall
uninstall_slot p k h i = elim (hook_uninstall p k h) [
  | none ↦ none
  | some k' ↦ some (record k' { mem = hook_mem_free k'.mem i })
]

-- `unhook`; the slot's union is read as a hook.
unfoldable pub unhook : ℕ → Paging → Kernel → ℕ → Option Kernel
unfolding uninstall_slot branch_func_addr
unhook fuel p k func = elim (branch_func_addr fuel k func) [
  | none ↦ none
  | some origin ↦ elim (hook_get_mem_from_origin k.mem origin) [
    | none ↦ some k
    | some i ↦ elim (get_elem? k.mem.warps i) [
      | none ↦ none
      | some w ↦ uninstall_slot p k w.chain.hook i
    ]
  ]
]

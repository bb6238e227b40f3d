-- ===== src/Hook/Types.antt =====
-- kernel/include/hook.h: the error codes, the bounds and `hook_t`. A `uint64_t` is a number below
-- 2 ^ 64 with its additions reduced, a `uint32_t` word of code a number below 2 ^ 32.
use kpm_syscall_backtrace.Base.{ℕ, ◌+◌, ◌-◌, ◌*◌, ◌/◌, ◌%◌, ◌^◌, ◌==◌, bit_and, Bool, not, List}

-- `hook_err_t`; the functions return its negative, which is one value for each.
pub data HookErr : Type 0 where
  no_err bad_address duplicated no_mem bad_relo transit_no_mem chain_full : HookErr

abbrev pub trampoline_max_num : ℕ
trampoline_max_num = 6

abbrev pub relocate_inst_num : ℕ
relocate_inst_num = 4 * 8 + 8 - 4

abbrev pub arm64_nop : ℕ
arm64_nop = 0xd503201f

abbrev pub arm64_bti_c : ℕ
arm64_bti_c = 0xd503245f

abbrev pub arm64_bti_j : ℕ
arm64_bti_j = 0xd503249f

abbrev pub arm64_bti_jc : ℕ
arm64_bti_jc = 0xd50324df

abbrev pub arm64_paciasp : ℕ
arm64_paciasp = 0xd503233f

abbrev pub arm64_pacibsp : ℕ
arm64_pacibsp = 0xd503237f

-- Addition of addresses wraps.
abbrev pub add64 : ℕ → ℕ → ℕ
add64 a b = (a + b) % 2 ^ 64

-- `addr & 0xFFFFFFFF` and `addr >> 32u`
abbrev pub lo32 : ℕ → ℕ
lo32 addr = addr % 2 ^ 32

abbrev pub hi32 : ℕ → ℕ
hi32 addr = addr / 2 ^ 32

-- `hook_t`
pub record Hook : Type 0 where
  pub func_addr : ℕ
  pub origin_addr : ℕ
  pub replace_addr : ℕ
  pub relo_addr : ℕ
  pub tramp_insts_num : ℕ
  pub relo_insts_num : ℕ
  pub origin_insts : List ℕ
  pub tramp_insts : List ℕ
  pub relo_insts : List ℕ

unfoldable pub is_bad_address : ℕ → Bool
is_bad_address addr = not (bit_and addr 0x8000000000000000 == 0x8000000000000000)

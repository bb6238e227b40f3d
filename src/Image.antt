-- ===== src/Image.antt =====
-- tools/image.c, the header of a kernel image, and the branches of tools/common.c. An image is its byte at
-- each place, and an int32_t its pattern.
pub mod Branch
pub mod Resize
mod Tests
use kpm_syscall_backtrace.Base.{
  ℕ, zero, suc, ◌+◌, ◌-◌, ◌*◌, ◌/◌, ◌%◌, ◌^◌, ◌==◌, ltb, leb, if◌then◌else◌, bit_and, bit_or, Bool,
  true, false, ◌&&◌, ◌||◌, not, Option, none, some, [], ◌∷◌, codes,
}
use kpm_syscall_backtrace.Hook.Insn.{bits32, sign64_extend}
use kpm_syscall_backtrace.Order.{load, store64, u32le, u64le, u64swp}
use kpm_syscall_backtrace.Kallsym.Search.{fits}

-- `kernel_info_t`
pub record KernelInfo : Type 0 where
  pub is_be : Bool
  pub uefi : Bool
  pub load_offset : ℕ
  pub kernel_size : ℕ
  pub page_shift : ℕ
  pub b_stext_insn_offset : ℕ
  pub primary_entry_offset : ℕ

abbrev pub insn_is_b : ℕ → Bool
insn_is_b inst = bit_and inst 0xFC000000 == 0x14000000

abbrev pub page_shift_of : ℕ → ℕ
page_shift_of size = if size == 2 then 14 else if size == 3 then 16 else 12

-- The places of the header's fields: `b_insn` of either header, `kernel_offset`, `kernel_size_le`,
-- `kernel_flag_le` and `magic`. `none` is an exit of the tool.
module _ (host_is_be : Bool) where
  abbrev pub u64_at : (ℕ → ℕ) → ℕ → ℕ
  u64_at img pos = u64le host_is_be (load host_is_be img pos 8)

  unfoldable pub get_kernel_info : (ℕ → ℕ) → Option KernelInfo
  unfolding u32le u64le
  get_kernel_info img =
      let uefi : Bool = fits img 0 (codes "MZ") in
      let at : ℕ = if uefi then 4 else 0 in
      let b_insn : ℕ = if uefi then load host_is_be img 4 4 else load host_is_be img 0 4 in
      let insn : ℕ = u32le host_is_be b_insn in
      let flag : ℕ = bit_and (u64_at img 24) 0x0f in
      if not (fits img 56 (codes "ARMd")) || not (insn_is_b insn) || not (bit_and flag 1 == 0)
      then none
      else some (record {
        is_be = false;
        uefi = uefi;
        load_offset = u64_at img 8 % 2 ^ 32;
        kernel_size = u64_at img 16 % 2 ^ 32;
        page_shift = page_shift_of (bit_and flag 6 / 2);
        b_stext_insn_offset = at;
        primary_entry_offset = (bit_and insn 0x03ffffff * 4 + at) % 2 ^ 32;
      })

  -- `size` is an int32_t, and its sign is extended.
  unfoldable pub kernel_resize : KernelInfo → (ℕ → ℕ) → ℕ → ℕ → ℕ
  unfolding u64swp
  kernel_resize kinfo img size =
      let ksize : ℕ = if ltb size (2 ^ 31) then size else size + (2 ^ 64 - 2 ^ 32) in
      let other_order : Bool = if kinfo.is_be then not host_is_be else host_is_be in
      store64 host_is_be img 16 (if other_order then u64swp ksize else ksize)

  -- The place that a branch at a function jumps to, or the function.
  unfoldable pub relo_branch_func : (ℕ → ℕ) → ℕ → ℕ
  relo_branch_func img func_offset =
      let inst : ℕ = load host_is_be img func_offset 4 in
      if insn_is_b inst
      then (func_offset + sign64_extend (bits32 inst 25 0 * 4) 28) % 2 ^ 32
      else func_offset

unfoldable pub can_b_imm : ℕ → ℕ → Bool
can_b_imm from to =
    leb from to && leb (to - from) (2 ^ 27) || leb to from && leb (from - to) (2 ^ 27)

-- The word that is written; `none` is 0.
unfoldable pub b : ℕ → ℕ → Option ℕ
unfolding can_b_imm
b from to =
    if can_b_imm from to
    then some (bit_or 0x14000000 (bit_and ((to + 2 ^ 64 - from) % 2 ^ 64) 0x0FFFFFFF / 4))
    else none

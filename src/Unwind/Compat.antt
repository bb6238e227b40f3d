-- ===== src/Unwind/Compat.antt =====
-- my_unwind_compat of stack_unwind.c: the stack of a 32-bit process, along its frame pointers.
use kpm_syscall_backtrace.Base.{
  ℕ, zero, suc, ◌-◌, ◌/◌, ◌%◌, ◌^◌, ◌==◌, leb, ltb, if◌then◌else◌, Bool, not, ◌&&◌, ◌||◌, Option,
  none, some, List, [], ◌∷◌, length,
}

-- The registers of `pt_regs` that the unwinding reads: regs[7], regs[11], regs[13], regs[14].
pub record Regs : Type 0 where
  pub r7 : ℕ
  pub r11 : ℕ
  pub r13 : ℕ
  pub r14 : ℕ
  pub sp : ℕ
  pub pc : ℕ
  pub pstate : ℕ

-- `struct stack_frame_32`
pub record StackFrame32 : Type 0 where
  pub next_fp : ℕ
  pub ret_addr : ℕ

-- `MAX_STACK_DEPTH`
abbrev pub max_stack_depth : ℕ
max_stack_depth = 32

-- The entries of a trace, the last one first. A full trace takes no more.
abbrev pub add_entry : List ℕ → ℕ → List ℕ
add_entry entries x = if ltb (length entries) max_stack_depth then x ∷ entries else entries

-- A return address is stored unless the entry before it is the same.
unfoldable pub add_return : List ℕ → ℕ → List ℕ
add_return [] ret = []
add_return (last ∷ entries) ret =
    if ltb 0x1000 ret && not (last == ret) then ret ∷ last ∷ entries else last ∷ entries

abbrev pub is_bad_fp : ℕ → ℕ → Bool
is_bad_fp sp fp = ltb fp 0x1000 || ltb 0xfffffff0 fp || not (fp % 4 == 0) || ltb fp sp

-- The stack pointer that the unwinding begins with.
abbrev pub start_sp : Regs → ℕ
start_sp regs = let r13 = regs.r13 % 2 ^ 32 in if r13 == 0 then regs.sp % 2 ^ 32 else r13

-- The frame pointer: that of Thumb code if bit 5 of the state is set.
abbrev pub start_fp : Regs → ℕ
start_fp regs =
    let is_thumb = not (regs.pstate / 32 % 2 == 0) in
    if is_thumb then regs.r7 % 2 ^ 32 else regs.r11 % 2 ^ 32

-- `copy` is what `__arch_copy_from_user` reads at an address, `none` when it fails.
module _ (copy : ℕ → Option StackFrame32) where
  -- The loop, with the iterations that `depth` leaves.
  unfoldable pub unwind_frames : ℕ → ℕ → ℕ → List ℕ → List ℕ
  unfolding add_return
  unwind_frames sp zero fp entries = entries
  unwind_frames sp (suc n) fp entries =
      if ltb (length entries) max_stack_depth && not (is_bad_fp sp fp)
      then elim (copy fp) [
        | none ↦ entries
        | some frame ↦
            let entries' = add_return entries frame.ret_addr in
            let rest = unwind_frames sp n frame.next_fp entries' in
            if leb frame.next_fp fp then entries' else rest
      ]
      else entries

  -- `regs` is what `task_pt_regs` returns, `none` for NULL; `can_copy` is whether the pointer
  -- `g_arch_copy_from_user` is set. The entry after the frames is (unsigned long)-1.
  unfoldable pub my_unwind_compat : Bool → Option Regs → List ℕ → List ℕ
  unfolding unwind_frames
  my_unwind_compat can_copy none entries = entries
  my_unwind_compat can_copy (some regs) entries =
      let lr = regs.r14 % 2 ^ 32 in
      let at_pc = add_entry entries (regs.pc % 2 ^ 32) in
      let at_lr = if ltb 0x1000 lr then add_entry at_pc lr else at_pc in
      let frames =
        if can_copy then unwind_frames (start_sp regs) 32 (start_fp regs) at_lr else at_lr in
      add_entry frames (2 ^ 64 - 1)

-- ===== src/Unwind/Frames.antt =====
-- What my_unwind_compat of stack_unwind.c stores: no more than there is room for, and all of a stack that
-- there is room for.
use mathlib.Core.List.{reverse, reverse-cons, append_assoc}
use kpm_syscall_backtrace.Base.{
  ap, ◌++◌, ◌==◌, leb, ◌≢◌, ◌⊎◌, ◌/◌, Bool-cases, ℕ, zero, suc, ◌+◌, ◌%◌, ◌^◌, ◌-◌, ◌≤◌, ◌<◌, ◌≡◌,
  refl, ◌∙◌, arith, ltb, if◌then◌else◌, Bool, true, false, inl, inr, Option, Option-cases, none,
  some, List, [], ◌∷◌, length,
}
use kpm_syscall_backtrace.Unwind.Compat.{
  Regs, StackFrame32, max_stack_depth, add_entry, add_return, is_bad_fp, start_sp, start_fp,
  unwind_frames, my_unwind_compat,
}

module _ (copy : ℕ → Option StackFrame32) where
  add_return-length :
      (entries : List ℕ) (ret : ℕ) → length entries < 32 → length (add_return entries ret) ≤ 32
  unfolding add_return
  add_return-length [] ret room = ground arith
  add_return-length (x ∷ entries) ret room = ground arith

  add_entry-length :
      (entries : List ℕ) (x : ℕ) → length entries ≤ 32 → length (add_entry entries x) ≤ 32
  add_entry-length entries x room = ground arith

  if-length :
      (b : Bool) (xs ys : List ℕ)
      → length xs ≤ 32
      → length ys ≤ 32
      → length (if b then xs else ys) ≤ 32
  if-length b xs ys short_xs short_ys = ground arith

  unwind_frames-length :
      (sp n fp : ℕ) (entries : List ℕ)
      → length entries ≤ 32
      → length (unwind_frames copy sp n fp entries) ≤ 32
  unfolding unwind_frames
  unwind_frames-length sp zero fp entries room = room
  unwind_frames-length sp (suc n) fp entries room = elim (Option-cases (copy fp)) [
    | inl e ↦ rw (e, unwind_frames) (ground arith)
    | inr (frame, e) ↦
        rw (e, unwind_frames)
          (ground (
            arith,
            unwind_frames-length sp n frame.next_fp (add_return entries frame.ret_addr),
            add_return-length entries frame.ret_addr,
          ))
  ]

  -- The unwinding never stores more entries than MAX_STACK_DEPTH, whatever is in the registers and the
  -- memory of the process.
  pub my_unwind_compat-bounded :
      (can_copy : Bool) (regs : Option Regs) (entries : List ℕ)
      → length entries ≤ max_stack_depth
      → length (my_unwind_compat copy can_copy regs entries) ≤ max_stack_depth
  unfolding my_unwind_compat
  my_unwind_compat-bounded can_copy none entries room = room
  my_unwind_compat-bounded can_copy (some regs) entries room =
      let at_pc = add_entry-length entries _ room in
      let at_lr =
        if-length (ltb 0x1000 (regs.r14 % 2 ^ 32)) _ _ (add_entry-length _ _ at_pc) at_pc in
      add_entry-length _ (2 ^ 64 - 1) (
        if-length can_copy _ _ (unwind_frames-length (start_sp regs) 32 (start_fp regs) _ at_lr)
          at_lr)

-- A frame pointer that the unwinding follows: aligned, neither below 0x1000 nor above 0xfffffff0, and not
-- below the stack pointer.
abbrev pub CanBeFrame : ℕ → ℕ → Type 0
CanBeFrame sp fp = (0x1000 ≤ fp) × (fp ≤ 0xfffffff0) × (fp % 4 ≡ 0) × (sp ≤ fp)

CanBeFrame-good : (sp fp : ℕ) → CanBeFrame sp fp → is_bad_fp sp fp ≡ false
CanBeFrame-good sp fp (low, high, aligned, above) = ground arith

-- The stack pointer and the frame pointer of the registers: R13, or SP if R13 is 0; R7 in Thumb code, and
-- R11 otherwise.
abbrev pub StartsAt : Regs → ℕ → ℕ → Type 0
StartsAt regs sp fp =
    (((regs.r13 % 2 ^ 32 ≢ 0) × (sp ≡ regs.r13 % 2 ^ 32))
      ⊎ ((regs.r13 % 2 ^ 32 ≡ 0) × (sp ≡ regs.sp % 2 ^ 32)))
    × (((regs.pstate / 32 % 2 ≡ 1) × (fp ≡ regs.r7 % 2 ^ 32))
        ⊎ ((regs.pstate / 32 % 2 ≡ 0) × (fp ≡ regs.r11 % 2 ^ 32)))

StartsAt-sp : (regs : Regs) (sp fp : ℕ) → StartsAt regs sp fp → start_sp regs ≡ sp
StartsAt-sp regs sp fp ((inl (given, e)), frame) = ground arith
StartsAt-sp regs sp fp ((inr (absent, e)), frame) = ground arith

StartsAt-fp : (regs : Regs) (sp fp : ℕ) → StartsAt regs sp fp → start_fp regs ≡ fp
StartsAt-fp regs sp fp (stack, (inl (thumb, e))) = ground arith
StartsAt-fp regs sp fp (stack, (inr (arm, e))) = ground arith

-- A stack of 32-bit frames from the frame pointer on, with its return addresses: each frame is readable
-- and lies above the one before it, and the last one points to no higher one, or is not there.
pub data Stack (copy : ℕ → Option StackFrame32) (sp : ℕ) : ℕ → List ℕ → Type 0 where
  ends : {fp : ℕ} → copy fp ≡ none → Stack copy sp fp []
  outermost :
      {fp : ℕ} (frame : StackFrame32)
      → CanBeFrame sp fp
      → copy fp ≡ some frame
      → frame.next_fp ≤ fp
      → Stack copy sp fp (frame.ret_addr ∷ [])
  calls :
      {fp : ℕ} (frame : StackFrame32) {rets : List ℕ}
      → CanBeFrame sp fp
      → copy fp ≡ some frame
      → fp < frame.next_fp
      → Stack copy sp frame.next_fp rets
      → Stack copy sp fp (frame.ret_addr ∷ rets)

-- The return addresses that are kept above an address: neither those up to 0x1000, nor those that are the
-- same as the one that was kept before.
abbrev pub kept : ℕ → List ℕ → List ℕ
kept last [] = []
kept last (ret ∷ rets) =
    if leb ret 0x1000
    then kept last rets
    else if ret == last
    then kept last rets
    else ret ∷ kept ret rets

-- The return addresses on top of the entries.
abbrev on_top : List ℕ → List ℕ → List ℕ
on_top [] entries = entries
on_top (ret ∷ rets) entries = on_top rets (add_return entries ret)

on_top-kept :
    (rets : List ℕ) (last : ℕ) (entries : List ℕ)
    → on_top rets (last ∷ entries) ≡ reverse (kept last rets) ++ (last ∷ entries)
unfolding add_return
on_top-kept [] last entries = refl
on_top-kept (ret ∷ rets) last entries = elim (Bool-cases (leb ret 0x1000)) [
  | inl low ↦
      let low' : ltb 0x1000 ret ≡ false = ground arith in
      rw (low, low') (on_top-kept rets last entries)
  | inr high ↦
      let high' : ltb 0x1000 ret ≡ true = ground arith in
      elim (Bool-cases (ret == last)) [
        | inl same ↦
            let same' : (last == ret) ≡ true = ground arith in
            rw (high, high', same, same') (on_top-kept rets last entries)
        | inr other ↦
            let other' : (last == ret) ≡ false = ground arith in
            rw (high, high', other, other', reverse-cons, append_assoc)
              (on_top-kept rets ret (last ∷ entries))
      ]
]

on_top-length :
    (rets entries : List ℕ) → length (on_top rets entries) ≤ length rets + length entries
unfolding add_return
on_top-length [] entries = omega arith
on_top-length (ret ∷ rets) [] = ground (arith, on_top-length rets [])
on_top-length (ret ∷ rets) (x ∷ entries) =
    ground (arith, on_top-length rets (x ∷ entries), on_top-length rets (ret ∷ x ∷ entries))

add_entry-room :
    (entries : List ℕ) (x : ℕ) → length entries < 32 → add_entry entries x ≡ x ∷ entries
add_entry-room entries x room = ground arith

module _ (copy : ℕ → Option StackFrame32) (sp : ℕ) where
  unwind_frames-Stack :
      (n fp : ℕ) (entries rets : List ℕ)
      → Stack copy sp fp rets
      → length rets ≤ n
      → length entries + length rets ≤ max_stack_depth
      → unwind_frames copy sp n fp entries ≡ on_top rets entries
  unfolding unwind_frames
  unwind_frames-Stack zero fp entries [] stack deep room = refl
  unwind_frames-Stack zero fp entries (ret ∷ rets) stack deep room = ground (arith, deep)
  unwind_frames-Stack (suc n) fp entries [] (ends e) deep room =
      rw (e, unwind_frames) (ground arith)
  unwind_frames-Stack (suc n) fp entries [_] (outermost frame good e top) deep room =
      rw (e, unwind_frames) (ground (arith, CanBeFrame-good sp fp good, top))
  unwind_frames-Stack (suc n) fp entries (_ ∷ rets) (calls frame good e up stack) deep room =
      rw (e, unwind_frames)
        (ground (
          arith,
          CanBeFrame-good sp fp good,
          up,
          unwind_frames-Stack n frame.next_fp (add_return entries frame.ret_addr) rets stack,
        ))

  my_unwind_compat-frames :
      (regs : Regs)
      → let lr = regs.r14 % 2 ^ 32 in
        let at_pc = add_entry [] (regs.pc % 2 ^ 32) in
        let at_lr = if ltb 0x1000 lr then add_entry at_pc lr else at_pc in
        my_unwind_compat copy true (some regs) []
        ≡ add_entry (unwind_frames copy (start_sp regs) 32 (start_fp regs) at_lr) (2 ^ 64 - 1)
  unfolding my_unwind_compat
  my_unwind_compat-frames regs = refl

  -- A stack of at most 29 frames that begins at the frame pointer, in the thread's registers, is stored
  -- whole, the last call first, above the program counter and the link register, when the latter is above 0x1000: each return
  -- address but those up to 0x1000 and those that repeat the address stored before, then (unsigned long)-1.
  pub my_unwind_compat-Stack :
      (regs : Regs) (fp : ℕ) (rets : List ℕ)
      → StartsAt regs sp fp
      → Stack copy sp fp rets
      → length rets ≤ 29
      → 0x1000 < regs.r14 % 2 ^ 32
      → my_unwind_compat copy true (some regs) []
        ≡ (2 ^ 64 - 1)
          ∷ (reverse (kept (regs.r14 % 2 ^ 32) rets)
              ++ ((regs.r14 % 2 ^ 32) ∷ (regs.pc % 2 ^ 32) ∷ []))
  my_unwind_compat-Stack regs fp rets e stack short linked =
      let first = (regs.r14 % 2 ^ 32) ∷ (regs.pc % 2 ^ 32) ∷ [] in
      let links : ltb 0x1000 (regs.r14 % 2 ^ 32) ≡ true = ground (arith, linked) in
      let fits : length first + length rets ≤ 32 = omega (arith, short) in
      let deep : length rets ≤ 32 = omega (arith, short) in
      my_unwind_compat-frames regs
      ∙ rw
          (
            links,
            StartsAt-sp regs sp fp e,
            StartsAt-fp regs sp fp e,
            unwind_frames-Stack 32 fp first rets stack deep fits,
          )
          (add_entry-room (on_top rets first) (2 ^ 64 - 1)
              (omega (arith, on_top-length rets first, short))
            ∙ ap (λ l. (2 ^ 64 - 1) ∷ l) (on_top-kept rets _ _))

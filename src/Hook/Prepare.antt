-- ===== src/Hook/Prepare.antt =====
-- `hook_prepare` as a whole: what it leaves in the hook, and when it stays inside the arrays.
use kpm_syscall_backtrace.Base.{
  ℕ, suc, ◌+◌, ◌*◌, ◌≤◌, ◌≡◌, ◌≢◌, refl, arith, Bool, false, ◌||◌, ◌==◌, ◌⊎◌, inl, inr,
  if◌then◌else◌, some, List, length, get_or, replicate,
}
use kpm_syscall_backtrace.Hook.Types.{
  Hook, HookErr, no_err, bad_address, bad_relo, add64, arm64_nop, arm64_paciasp, arm64_pacibsp,
  relocate_inst_num, trampoline_max_num,
}
use kpm_syscall_backtrace.Hook.Emit.{branch_from_to}
use kpm_syscall_backtrace.Hook.Relocate.{
  tramp_words, read_words, set_up, jump_back, on_success, relocate_all, hook_prepare,
}
use kpm_syscall_backtrace.Hook.Writes.{written, write_words-fits, extended, put_words-fits}
use kpm_syscall_backtrace.Hook.Bounds.{
  Frame, Frame-trans, extended-Frame, total_len, total_len-le, Relocates, relocate_from-Relocates,
}

-- The first instruction signs the return address.
abbrev pub has_pac : ℕ → Bool
has_pac first = first == arm64_paciasp || first == arm64_pacibsp

-- The words that the trampoline overwrites.
abbrev pub tramp_num : ℕ → ℕ
tramp_num first = if has_pac first then 5 else 4

pub length-tramp_words :
    (h : Hook) (insts : List ℕ) → length (tramp_words h insts) ≡ tramp_num (get_or insts 0 0)
unfolding tramp_words
length-tramp_words h insts = ground arith

pub read_words-head :
    (text : ℕ → ℕ) (addr n : ℕ) → get_or (read_words text addr (suc n)) 0 0 ≡ text addr
unfolding read_words
read_words-head text addr n = refl

-- The hook after its back-up.
abbrev pub backed_up : (ℕ → ℕ) → Hook → Hook
backed_up text h =
    let insts = read_words text h.origin_addr trampoline_max_num in
    record h {
      origin_insts = insts;
      tramp_insts = written h.tramp_insts 0 (tramp_words h insts);
      tramp_insts_num = length (tramp_words h insts);
      relo_insts = replicate relocate_inst_num arm64_nop;
    }

tramp_num-le : (first : ℕ) → tramp_num first ≤ 5
tramp_num-le first = ground arith

pub set_up_lem :
    (text : ℕ → ℕ) (h : Hook)
    → length h.tramp_insts ≡ trampoline_max_num
    → set_up text h ≡ some (backed_up text h)
unfolding set_up
set_up_lem text h room = ground (
  arith,
  write_words-fits h.tramp_insts 0
      (tramp_words h (read_words text h.origin_addr trampoline_max_num)),
  length-tramp_words h (read_words text h.origin_addr trampoline_max_num),
  tramp_num-le (get_or (read_words text h.origin_addr trampoline_max_num) 0 0),
)

-- The words that the relocated instructions of a function take.
abbrev pub relocated_total : (ℕ → ℕ) → Hook → ℕ
relocated_total text h =
    total_len (read_words text h.origin_addr trampoline_max_num) 0 (tramp_num (text h.origin_addr))

-- What a successful `hook_prepare` leaves in the hook.
pub record Prepared (text : ℕ → ℕ) (h h' : Hook) : Type 0 where
  pub origin : h'.origin_addr ≡ h.origin_addr
  pub relo : h'.relo_addr ≡ h.relo_addr
  pub insts : h'.origin_insts ≡ read_words text h.origin_addr trampoline_max_num
  pub tramp : h'.tramp_insts_num ≡ tramp_num (text h.origin_addr)
  pub tramp_words :
      h'.tramp_insts
      ≡ written h.tramp_insts 0 (tramp_words h (read_words text h.origin_addr trampoline_max_num))
  pub relo_num : h'.relo_insts_num ≡ relocated_total text h + 4

pub jump_back_lem :
    (h : Hook)
    → h.relo_insts_num + 4 ≤ length h.relo_insts
    → (h' : Hook) × (jump_back h ≡ some (no_err, h'))
      × Frame h h'
      × (h'.relo_insts_num ≡ h.relo_insts_num + 4)
unfolding jump_back
jump_back_lem h room = (
  extended h (branch_from_to src dst) 4,
  put_words-fits h (branch_from_to src dst) 4 no_err room,
  extended-Frame h (branch_from_to src dst) 4,
  refl,
)
  where
    src : ℕ
    src = add64 h.relo_addr (h.relo_insts_num * 4)

    dst : ℕ
    dst = add64 h.origin_addr (h.tramp_insts_num * 4)

module _ (h : Hook) where
  -- What `relocate_all` returns where the words and the jump fit.
  abbrev pub Done : HookErr × Hook → Type 0
  Done (rc, h') =
      rc ≡ no_err
      → Frame h h'
        × (h'.relo_insts_num ≡ h.relo_insts_num + total_len h.origin_insts 0 h.tramp_insts_num + 4)

  Done-jump :
      (r : HookErr × Hook)
      → Relocates h 0 h.tramp_insts_num r
      → h.relo_insts_num + total_len h.origin_insts 0 h.tramp_insts_num + 4 ≤ length h.relo_insts
      → (r' : HookErr × Hook) × (on_success (some r) jump_back ≡ some r') × Done r'
  Done-jump (no_err, h') s fits =
      let (h'', e, f, n) = jump_back_lem h' (omega arith) in
      ((no_err, h''), e, λ _. (Frame-trans s.0 f, omega (arith, s.2 refl)))
  Done-jump (_, h') s fits = ((bad_relo, h'), refl, λ e. cc)

  relocate_all_lem :
      h.relo_insts_num + total_len h.origin_insts 0 h.tramp_insts_num + 4 ≤ length h.relo_insts
      → (r : HookErr × Hook) × (relocate_all h ≡ some r) × Done r
  unfolding relocate_all
  relocate_all_lem fits =
      let (r, e, s) = relocate_from-Relocates h.tramp_insts_num 0 h (omega arith) in
      rw e (Done-jump r s fits)

-- The arrays that `hook_mem_zalloc` gives: the trampoline's of its size, and no word relocated.
pub record IsFresh (h : Hook) : Type 0 where
  pub tramp_room : length h.tramp_insts ≡ trampoline_max_num
  pub empty : h.relo_insts_num ≡ 0

err_or : {P : Type 0} (rc : HookErr) → (rc ≡ no_err → P) → (rc ≢ no_err) ⊎ P
err_or no_err f = inr (f refl)
err_or bad_relo f = inl (λ e. cc)
err_or _ f = inl (λ e. cc)

module _ (text : ℕ → ℕ) (h : Hook) where
  abbrev pub insts : List ℕ
  insts = read_words text h.origin_addr trampoline_max_num

  pub backed_up-num : length (tramp_words h insts) ≡ tramp_num (text h.origin_addr)
  backed_up-num = rw (length-tramp_words, read_words-head)

  pub Done-Prepared :
      (r : HookErr × Hook)
      → IsFresh h
      → Done (backed_up text h) r
      → r.0 ≡ no_err
      → Prepared text h r.1
  Done-Prepared r fresh done e = ground (arith, done e, backed_up-num)

  hook_prepare_cases :
      length h.tramp_insts ≡ trampoline_max_num
      → (hook_prepare text h ≡ some (bad_address, h))
        ⊎ (hook_prepare text h ≡ relocate_all (backed_up text h))
  unfolding hook_prepare
  hook_prepare_cases room = ground (arith, set_up_lem text h room)

  -- If the relocated instructions and the jump back fit the buffer, `hook_prepare` makes every
  -- write inside its arrays, whatever it returns; if it returns no error, the hook is `Prepared`.
  pub hook_prepare_fits :
      IsFresh h
      → relocated_total text h + 4 ≤ relocate_inst_num
      → (r : HookErr × Hook) × (hook_prepare text h ≡ some r)
        × ((r.0 ≢ no_err) ⊎ Prepared text h r.1)
  hook_prepare_fits fresh fits = elim (hook_prepare_cases fresh.tramp_room) [
    | inl bad ↦ ((bad_address, h), bad, inl (λ e. cc))
    | inr all ↦
        let room : h.relo_insts_num + total_len insts 0 (length (tramp_words h insts)) + 4
            ≤ length (replicate relocate_inst_num arm64_nop) =
          rw backed_up-num (omega arith) in
        let (r, e, done) = relocate_all_lem (backed_up text h) room in
        (r, rw all e, err_or r.0 (Done-Prepared r fresh done))
  ]

-- On a fresh hook, for a function that does not begin with PACIASP or PACIBSP, `hook_prepare` makes
-- every write inside the arrays of the hook, whatever the instructions and the addresses are, and
-- the hook is `Prepared` if it returns no error.
pub hook_prepare_in_bounds :
    (text : ℕ → ℕ) (h : Hook)
    → IsFresh h
    → has_pac (text h.origin_addr) ≡ false
    → (r : HookErr × Hook) × (hook_prepare text h ≡ some r) × ((r.0 ≢ no_err) ⊎ Prepared text h r.1)
hook_prepare_in_bounds text h fresh plain =
    hook_prepare_fits text h fresh (
      rw plain (omega (arith, total_len-le (read_words text h.origin_addr trampoline_max_num) 0 4)))

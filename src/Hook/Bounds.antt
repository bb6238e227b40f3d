-- ===== src/Hook/Bounds.antt =====
-- How many words the loop of `hook_prepare` writes, and that they stay inside `relo_insts`.
use kpm_syscall_backtrace.Base.{
  ℕ, zero, suc, ◌+◌, ◌*◌, ◌≤◌, ◌≡◌, refl, arith, some, List, length, get_or,
}
use kpm_syscall_backtrace.Hook.Types.{Hook, HookErr, no_err, bad_relo, add64}
use kpm_syscall_backtrace.Hook.Relocate.{on_success, relocate_inst, relocate_from}
use kpm_syscall_backtrace.Hook.Table.{len_of, len_of-le}
use kpm_syscall_backtrace.Hook.Writes.{extended, length-written}
use kpm_syscall_backtrace.Hook.Words.{type_of, relocated, relocate_inst-fits}

-- The loop keeps what it does not write.
pub record Frame (h h' : Hook) : Type 0 where
  pub origin : h'.origin_addr ≡ h.origin_addr
  pub relo : h'.relo_addr ≡ h.relo_addr
  pub tramp : h'.tramp_insts_num ≡ h.tramp_insts_num
  pub insts : h'.origin_insts ≡ h.origin_insts
  pub tramp_words : h'.tramp_insts ≡ h.tramp_insts
  pub room : length h'.relo_insts ≡ length h.relo_insts

pub extended-Frame : (h : Hook) (words : List ℕ) (len : ℕ) → Frame h (extended h words len)
extended-Frame h words len = record {
  origin = refl;
  relo = refl;
  tramp = refl;
  insts = refl;
  tramp_words = refl;
  room = length-written h.relo_insts h.relo_insts_num words;
}

pub Frame-trans : {a b c : Hook} → Frame a b → Frame b c → Frame a c
Frame-trans p q = ground arith

-- What the next `n` instructions from `i` on take, by the table.
abbrev pub total_len : List ℕ → ℕ → ℕ → ℕ
total_len insts i zero = 0
total_len insts i (suc n) = len_of (type_of (get_or insts i 0)) + total_len insts (suc i) n

pub total_len-le : (insts : List ℕ) (i n : ℕ) → total_len insts i n ≤ 8 * n
total_len-le insts i zero = omega arith
total_len-le insts i (suc n) =
    omega (arith, total_len-le insts (suc i) n, len_of-le (type_of (get_or insts i 0)))

-- What the loop returns: with room for the words of every instruction it stays inside the array,
-- and if no instruction is refused it has written what the table says.
abbrev pub Relocates : Hook → ℕ → ℕ → HookErr × Hook → Type 0
Relocates h i n (rc, h') =
    Frame h h'
    × (h'.relo_insts_num ≤ h.relo_insts_num + total_len h.origin_insts i n)
    × (rc ≡ no_err → h'.relo_insts_num ≡ h.relo_insts_num + total_len h.origin_insts i n)

pub relocate_from_step :
    (n i : ℕ) (h : Hook)
    → relocate_from (suc n) i h
      ≡ on_success
          (relocate_inst h (add64 h.origin_addr (i * 4)) (get_or h.origin_insts i 0))
          (relocate_from n (suc i))
unfolding relocate_from
relocate_from_step n i h = refl

pub Relocates-zero : (i : ℕ) (h : Hook) → Relocates h i 0 (no_err, h)
Relocates-zero i h = ground arith

module _ (n i : ℕ) (h : Hook) where
  abbrev pub inst : ℕ
  inst = get_or h.origin_insts i 0

  abbrev pub next : HookErr × List ℕ → Hook
  next (rc, words) = extended h words (len_of (type_of inst))

  -- One round that succeeds, then the rest.
  pub Relocates-suc :
      (words : List ℕ) (r : HookErr × Hook)
      → Relocates (next (no_err, words)) (suc i) n r
      → Relocates h i (suc n) r
  Relocates-suc words (rc, h') s = (
    Frame-trans (extended-Frame h words (len_of (type_of inst))) s.0,
    omega arith,
    λ e. omega (arith, s.2 e),
  )

  abbrev Rest : Type 0
  Rest =
      (h' : Hook)
      → h'.relo_insts_num + total_len h'.origin_insts (suc i) n ≤ length h'.relo_insts
      → (r : HookErr × Hook) × (relocate_from n (suc i) h' ≡ some r) × Relocates h' (suc i) n r

  Relocates-next :
      (d : HookErr × List ℕ)
      → Rest
      → h.relo_insts_num + total_len h.origin_insts i (suc n) ≤ length h.relo_insts
      → (r : HookErr × Hook) × (on_success (some (d.0, next d)) (relocate_from n (suc i)) ≡ some r)
        × Relocates h i (suc n) r
  Relocates-next (no_err, words) rest fits =
      let (r, e, s) =
        rest (next (no_err, words))
          (omega (arith, length-written h.relo_insts h.relo_insts_num words)) in
      (r, e, Relocates-suc words r s)
  Relocates-next (_, words) rest fits = (
    (bad_relo, next (bad_relo, words)),
    refl,
    (extended-Frame h words (len_of (type_of inst)), omega arith, λ e. cc),
  )

pub relocate_from-Relocates :
    (n i : ℕ) (h : Hook)
    → h.relo_insts_num + total_len h.origin_insts i n ≤ length h.relo_insts
    → (r : HookErr × Hook) × (relocate_from n i h ≡ some r) × Relocates h i n r
unfolding relocate_from
relocate_from-Relocates zero i h fits = ((no_err, h), refl, Relocates-zero i h)
relocate_from-Relocates (suc n) i h fits =
    rw
      (
        relocate_from_step,
        relocate_inst-fits h (add64 h.origin_addr (i * 4)) (get_or h.origin_insts i 0)
            (omega arith),
      )
      (Relocates-next n i h (relocated h (add64 h.origin_addr (i * 4)) (get_or h.origin_insts i 0))
        (relocate_from-Relocates n (suc i)) fits)

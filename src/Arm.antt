-- ===== src/Arm.antt =====
-- The part of the A64 instruction set that the relocated code of kernel/base/hook.c is made of, from
-- the encodings of the architecture: an independent description of what the emitted words do. Code is
-- a list of words at the address `base`, run from a word's index until it leaves the list.
use kpm_syscall_backtrace.Base.{
  ℕ, zero, suc, ◌+◌, ◌*◌, ◌/◌, ◌%◌, ◌^◌, ◌==◌, ==_self, if◌then◌else◌, Bool, ◌&&◌, ◌||◌, ◌≡◌, refl,
  none, some, List, get_elem?, get_or, length,
}

-- Offsets are in words and forward; `test` is a conditional branch with its offset cleared.
pub data Insn : Type 0 where
  nop : Insn
  branch : ℕ → Insn
  branch_if : ℕ → ℕ → Insn
  load_literal : ℕ → ℕ → Insn
  address : ℕ → ℕ → Insn
  add_imm : ℕ → ℕ → ℕ → Insn
  jump : ℕ → Insn
  load : ℕ → ℕ → ℕ → Insn
  other : Insn

-- The fields of an instruction.
abbrev field : ℕ → ℕ → ℕ → ℕ
field w low width = w / 2 ^ low % 2 ^ width

-- A branch with a 19-bit or a 14-bit offset, without its offset.
abbrev pub test19 : ℕ → ℕ
test19 w = w / 2 ^ 24 * 2 ^ 24 + w % 2 ^ 5

abbrev pub test14 : ℕ → ℕ
test14 w = w / 2 ^ 19 * 2 ^ 19 + w % 2 ^ 5

-- The loads from a register without offset: LDR Wt, LDR Xt and LDRSW.
decode_load : ℕ → Insn
decode_load w =
    if w / 2 ^ 10 == 0xB9400000 / 2 ^ 10
      || w / 2 ^ 10 == 0xF9400000 / 2 ^ 10
      || w / 2 ^ 10 == 0xB9800000 / 2 ^ 10
    then load (w / 2 ^ 10) (field w 0 5) (field w 5 5)
    else other

decode_data : ℕ → Insn
unfolding decode_load
decode_data w =
    if w == 0xD503201F
    then nop
    else if w / 2 ^ 24 == 0x58
    then load_literal (field w 0 5) (field w 5 19)
    else if w / 2 ^ 24 == 0x10
    then address (field w 0 5) (field w 5 19)
    else if w / 2 ^ 22 == 0x91000000 / 2 ^ 22
    then add_imm (field w 0 5) (field w 5 5) (field w 10 12)
    else decode_load w

unfoldable pub decode : ℕ → Insn
unfolding decode_data
decode w =
    if w / 2 ^ 26 == 0x05
    then branch (field w 0 26)
    else if w / 2 ^ 24 == 0x54 && field w 4 1 == 0
    then branch_if (test19 w) (field w 5 19)
    else if field w 25 6 == 0x1A
    then branch_if (test19 w) (field w 5 19)
    else if field w 25 6 == 0x1B
    then branch_if (test14 w) (field w 5 14)
    else if (w / 2 ^ 10 == 0xD65F0000 / 2 ^ 10 || w / 2 ^ 10 == 0xD61F0000 / 2 ^ 10)
        && field w 0 5 == 0
    then jump (field w 5 5)
    else decode_data w

abbrev pub Regs : Type 0
Regs = ℕ → ℕ

abbrev pub write : Regs → ℕ → ℕ → Regs
write regs r v x = if x == r then v else regs x

pub write_self : (regs : Regs) (r v : ℕ) → write regs r v r ≡ v
write_self regs r v = rw (==_self r)

-- How a run ends: behind the last word, or with a jump to an address. An address literal of zero
-- offset in `ADR` is the instruction's own address.
pub data Outcome : Type 0 where
  fell : Regs → Outcome
  jumped : ℕ → Regs → Outcome
  stuck : Outcome

-- A step goes on at a word, or ends the run.
pub data Next : Type 0 where
  goes : ℕ → Regs → Next
  ends : Outcome → Next

-- `holds` says which tests pass, `mem` what a load of a kind reads at an address.
module _ (holds : ℕ → Bool) (mem : ℕ → ℕ → ℕ) (base : ℕ) (code : List ℕ) where
  unfoldable pub exec : Insn → ℕ → Regs → Next
  exec nop k regs = goes (k + 1) regs
  exec (branch o) k regs = goes (k + o) regs
  exec (branch_if t o) k regs = if holds t then goes (k + o) regs else goes (k + 1) regs
  exec (load_literal r o) k regs =
      goes (k + 1) (write regs r (get_or code (k + o) 0 + get_or code (k + o + 1) 0 * 2 ^ 32))
  exec (address r o) k regs = goes (k + 1) (write regs r ((base + k * 4 + o * 4) % 2 ^ 64))
  exec (add_imm d s i) k regs = goes (k + 1) (write regs d ((regs s + i) % 2 ^ 64))
  exec (jump r) k regs = ends (jumped (regs r) regs)
  exec (load kind r s) k regs = goes (k + 1) (write regs r (mem kind (regs s)))
  exec other k regs = ends stuck

  unfoldable pub step : ℕ → Regs → Next
  step k regs = elim (get_elem? code k) [
    | none ↦ ends (if k == length code then fell regs else stuck)
    | some w ↦ exec (decode w) k regs
  ]

  unfoldable pub run : ℕ → ℕ → Regs → Outcome
  run zero k regs = stuck
  run (suc n) k regs = elim (step k regs) [ goes k' regs' ↦ run n k' regs' | ends o ↦ o ]

  pub run_goes :
      (n k k' : ℕ) (regs regs' : Regs)
      → step k regs ≡ goes k' regs'
      → run (suc n) k regs ≡ run n k' regs'
  unfolding run
  run_goes n k k' regs regs' e = rw (e, run) refl

-- ===== src/Control/Args.antt =====
-- The arguments of the commands bp_set and mem_read of accessOffstinlineHook.c.
use kpm_syscall_backtrace.Base.{
  c_string, ℕ, ◌+◌, ◌-◌, ◌%◌, ◌^◌, ◌==◌, if◌then◌else◌, Option, none, some, List, [], ◌∷◌, take,
  drop,
}
use kpm_syscall_backtrace.Control.Parse.{is_digit, parse_decimal, parse_hex, skip_0x}

-- The arguments of bp_set.
pub record BpSpec : Type 0 where
  pub addr : ℕ
  pub type : ℕ
  pub size : ℕ
  pub pid : ℕ
  pub desc : List ℕ

-- The character at a place, and what comes after a colon there.
abbrev pub char_at : List ℕ → ℕ
char_at [] = 0
char_at (c ∷ text) = c

abbrev pub after_colon : List ℕ → Option (List ℕ)
after_colon [] = none
after_colon (c ∷ text) = if c == b':' then some text else none

-- `*p - '0'`
abbrev pub digit_at : List ℕ → ℕ
digit_at p = (char_at p + 2 ^ 32 - b'0') % 2 ^ 32

abbrev pub description : List ℕ → List ℕ
description p = take 127 (c_string p)

-- The loop over the fields, from the fourth one back to the first.
unfoldable pub field_4 : BpSpec → List ℕ → BpSpec
field_4 spec p = elim (after_colon p) [
  | none ↦ spec
  | some q ↦ record spec { desc = description q }
]

unfoldable pub field_3 : BpSpec → List ℕ → BpSpec
unfolding field_4 parse_decimal
field_3 spec p = elim (after_colon p) [
  | none ↦ spec
  | some q ↦
      let (pid, rest) = parse_decimal spec.pid q in
      if is_digit (char_at q)
      then field_4 (record spec { pid = pid }) rest
      else record spec { desc = description q }
]

unfoldable pub field_2 : BpSpec → List ℕ → BpSpec
unfolding field_3
field_2 spec p = elim (after_colon p) [
  | none ↦ spec
  | some q ↦ field_3 (record spec { size = digit_at q }) (drop 1 q)
]

unfoldable pub field_1 : BpSpec → List ℕ → BpSpec
unfolding field_2
field_1 spec p = elim (after_colon p) [
  | none ↦ spec
  | some q ↦ field_2 (record spec { type = digit_at q }) (drop 1 q)
]

unfoldable pub parse_bp : List ℕ → BpSpec
unfolding field_1 parse_hex skip_0x
parse_bp bp_spec =
    let (addr, rest) = parse_hex 0 (skip_0x bp_spec) in
    field_1 (record { addr = addr; type = 0; size = 2; pid = 0; desc = [] }) rest

-- The arguments of mem_read: the process, the address and the size.
unfoldable pub parse_mem : List ℕ → ℕ × ℕ × ℕ
unfolding parse_decimal parse_hex skip_0x
parse_mem mem_spec =
    let (pid, p) = parse_decimal 0 mem_spec in
    let (addr, q) : ℕ × List ℕ = elim (after_colon p) [
      | none ↦ (0, p)
      | some text ↦ parse_hex 0 (skip_0x text)
    ] in
    let size : ℕ = elim (after_colon q) [ none ↦ 16 | some text ↦ (parse_decimal 0 text).0 ] in
    (pid, addr, size)

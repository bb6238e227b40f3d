-- ===== src/Image/Branch.antt =====
-- What `relo_branch_func` of tools/common.c makes of the branches that `b` writes.
use kpm_syscall_backtrace.Base.{
  ℕ, ◌+◌, ◌-◌, ◌*◌, ◌/◌, ◌%◌, ◌^◌, ◌<◌, ◌≤◌, ◌≡◌, ap, sym, ◌∙◌, arith, bit_and, bit_or, Bool, true,
  some,
}
use kpm_syscall_backtrace.Base.Bits.{bit_and-mask, bit_or-disjoint, bit_and_split, bit_and-zero}
use kpm_syscall_backtrace.Hook.Near.{imm26_lem}
use kpm_syscall_backtrace.Order.{load}
use kpm_syscall_backtrace.Image.{insn_is_b, relo_branch_func, can_b_imm, b}

-- The word of a branch with an immediate of 26 bits.
b_word : (imm : ℕ) → imm < 2 ^ 26 → bit_or 0x14000000 imm ≡ 5 * 2 ^ 26 + imm
b_word imm h = bit_or-disjoint 26 5 imm h

is_b_word : (imm : ℕ) → imm < 2 ^ 26 → insn_is_b (5 * 2 ^ 26 + imm) ≡ true
is_b_word imm h =
    let x : ℕ = 5 * 2 ^ 26 + imm in
    ground (arith, bit_and_split 26 x 0x3F 0, bit_and-zero (x % 2 ^ 26))

module _ (host_is_be : Bool) (img : ℕ → ℕ) (from to : ℕ) where
  -- For two places that differ by words, less than 128M forwards or at most 128M backwards, and an image with the
  -- A64 branch over the distance at the first place: `b` gives that word, and `relo_branch_func` the second
  -- place.
  pub relo_branch_func-b :
      from < 2 ^ 31
      → to < 2 ^ 31
      → from % 4 ≡ to % 4
      → to < from + 2 ^ 27
      → from ≤ to + 2 ^ 27
      → load host_is_be img from 4 ≡ 5 * 2 ^ 26 + (to + 2 ^ 28 - from) / 4 % 2 ^ 26
      → (b from to ≡ some (load host_is_be img from 4))
        × (relo_branch_func host_is_be img from ≡ to)
  unfolding relo_branch_func b
  relo_branch_func-b small small' aligned ahead behind there =
      let word : ℕ = 5 * 2 ^ 26 + (to + 2 ^ 28 - from) / 4 % 2 ^ 26 in
      let imm : ℕ = (to + 2 ^ 64 - from) % 2 ^ 64 % 2 ^ 28 / 4 in
      let near : can_b_imm from to ≡ true = ground (arith, small, small', ahead, behind) in
      let masked : bit_and ((to + 2 ^ 64 - from) % 2 ^ 64) 0x0FFFFFFF
          ≡ (to + 2 ^ 64 - from) % 2 ^ 64 % 2 ^ 28 =
        bit_and-mask 28 ((to + 2 ^ 64 - from) % 2 ^ 64) in
      let is : word ≡ 5 * 2 ^ 26 + imm = omega (arith, small, small', ahead, behind, aligned) in
      let written : b from to ≡ some word =
        rw (b, near, masked) (ap some (b_word imm (omega arith) ∙ sym is)) in
      let branch : insn_is_b word ≡ true = rw is (is_b_word imm (omega arith)) in
      let field : word % 2 ^ 26 * 4 ≡ (to + 2 ^ 64 - from) % 2 ^ 64 % 2 ^ 28 =
        omega (arith, is, aligned, small, small') in
      (
        written ∙ ap some (sym there),
        rw (relo_branch_func, there, branch, imm26_lem word, field)
            (ground (arith, small, small', ahead, behind)),
      )

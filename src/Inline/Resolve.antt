-- ===== src/Inline/Resolve.antt =====
-- branch_func_addr of kernel/base/hook.c: the loop that follows the branches at a function's start.
use kpm_syscall_backtrace.Base.{
  ℕ, zero, suc, ◌<◌, ◌≡◌, ◌≢◌, refl, sym, ◌∙◌, ap, arith, false, ◌==◌, inl, inr, none, some,
  Bool-cases, ==_iff, ◌+◌, ◌-◌, ◌*◌, ◌/◌, ◌%◌, ◌^◌, ◌≤◌, ◌⊎◌, bit_and, true,
}
use kpm_syscall_backtrace.Base.Bits.{bit_and_split, bit_and-zero, bit_and-mask}
use kpm_syscall_backtrace.Hook.Types.{add64}
use kpm_syscall_backtrace.Hook.Insn.{bits32, sign64_extend}
use kpm_syscall_backtrace.Hook.Near.{imm26_lem}
use kpm_syscall_backtrace.Memory.{hook_get_mem_from_origin}
use kpm_syscall_backtrace.Inline.{Kernel, branch_func_addr_once, branch_func_addr}

module _ (k : Kernel) where
  -- An address that `branch_func_addr` returns is one that a further step leaves.
  pub branch_func_addr-fixed :
      (fuel addr ret : ℕ)
      → branch_func_addr fuel k addr ≡ some ret
      → branch_func_addr_once k ret ≡ ret
  unfolding branch_func_addr
  branch_func_addr-fixed zero addr ret e = cc
  branch_func_addr-fixed (suc fuel) addr ret e =
      ground (arith, branch_func_addr-fixed fuel (branch_func_addr_once k addr) ret)

  abbrev pub iterate_once : ℕ → ℕ → ℕ
  iterate_once zero addr = addr
  iterate_once (suc n) addr = iterate_once n (branch_func_addr_once k addr)

  pub branch_func_addr_self :
      (fuel addr : ℕ)
      → branch_func_addr_once k addr ≡ addr
      → branch_func_addr (suc fuel) k addr ≡ some addr
  unfolding branch_func_addr
  branch_func_addr_self fuel addr e = ground arith

  branch_func_addr_step :
      (fuel addr : ℕ)
      → (branch_func_addr_once k addr == addr) ≡ false
      → branch_func_addr (suc fuel) k addr ≡ branch_func_addr fuel k (branch_func_addr_once k addr)
  unfolding branch_func_addr
  branch_func_addr_step fuel addr e = rw e refl

  iterate_once-fixed :
      (n addr : ℕ) → branch_func_addr_once k addr ≡ addr → iterate_once n addr ≡ addr
  iterate_once-fixed zero addr e = refl
  iterate_once-fixed (suc n) addr e = ap (iterate_once n) e ∙ iterate_once-fixed n addr e

  iterate_once-ends :
      (n fuel addr : ℕ)
      → n < fuel
      → branch_func_addr_once k (iterate_once n addr) ≡ iterate_once n addr
      → branch_func_addr fuel k addr ≡ some (iterate_once n addr)
  iterate_once-ends n zero addr lt e = absurd (omega arith)
  iterate_once-ends zero (suc fuel) addr lt e = branch_func_addr_self fuel addr e
  iterate_once-ends (suc n) (suc fuel) addr lt e =
      elim (Bool-cases (branch_func_addr_once k addr == addr)) [
        | inl stays ↦
            let same = (==_iff (branch_func_addr_once k addr) addr).0 stays in
            branch_func_addr_self fuel addr same
            ∙ ap some (sym (iterate_once-fixed (suc n) addr same))
        | inr goes ↦
            branch_func_addr_step fuel addr goes
            ∙ iterate_once-ends n fuel (branch_func_addr_once k addr) (omega arith) e
      ]

  -- If two addresses branch to each other, `branch_func_addr` ends with no number of rounds.
  pub branch_func_addr_diverges :
      (fuel a b : ℕ)
      → a ≢ b
      → branch_func_addr_once k a ≡ b
      → branch_func_addr_once k b ≡ a
      → branch_func_addr fuel k a ≡ none
  unfolding branch_func_addr
  branch_func_addr_diverges zero a b ne ab ba = refl
  branch_func_addr_diverges (suc fuel) a b ne ab ba =
      ground (arith, branch_func_addr_diverges fuel b a)

-- Where a branch of 26 bits goes: a distance of words, forwards or backwards, from its own address.
abbrev pub BranchesTo : ℕ → ℕ → ℕ → Type 0
BranchesTo word addr target =
    (word / 2 ^ 26 % 64 ≡ 5)
    × (((word % 2 ^ 26 < 2 ^ 25) × (target ≡ (addr + 4 * (word % 2 ^ 26)) % 2 ^ 64))
        ⊎ ((2 ^ 25 ≤ word % 2 ^ 26)
            × (target ≡ (addr + 2 ^ 64 - 4 * (2 ^ 26 - word % 2 ^ 26)) % 2 ^ 64)))

-- The way from an address over so many branches and landing pads to an address that has neither: the pads
-- are BTI C, BTI J and, where no hook is at the address, BTI JC.
pub data Trail (k : Kernel) : ℕ → ℕ → ℕ → Type 0 where
  arrives :
      {addr : ℕ}
      → k.text addr / 2 ^ 26 % 64 ≢ 5
      → k.text addr ≢ 0xD503245F
      → k.text addr ≢ 0xD503249F
      → k.text addr ≢ 0xD50324DF
      → Trail k addr addr 0
  own :
      {addr i : ℕ}
      → k.text addr ≡ 0xD50324DF
      → hook_get_mem_from_origin k.mem addr ≡ some i
      → Trail k addr addr 0
  branch :
      {addr target dest n : ℕ}
      → BranchesTo (k.text addr) addr target
      → Trail k target dest n
      → Trail k addr dest (suc n)
  pad :
      {addr dest n : ℕ}
      → (k.text addr ≡ 0xD503245F)
        ⊎ (k.text addr ≡ 0xD503249F)
        ⊎ ((k.text addr ≡ 0xD50324DF) × (hook_get_mem_from_origin k.mem addr ≡ none))
      → Trail k ((addr + 4) % 2 ^ 64) dest n
      → Trail k addr dest (suc n)

top_bits : (word : ℕ) → bit_and word 0xFC000000 ≡ word / 2 ^ 26 % 64 * 2 ^ 26
top_bits word =
    bit_and_split 26 word 0x3F 0 (omega arith)
    ∙ omega (arith, bit_and-zero (word % 2 ^ 26), bit_and-mask 6 (word / 2 ^ 26))

no_branch : (word : ℕ) → word / 2 ^ 26 % 64 ≢ 5 → (bit_and word 0xFC000000 == 0x14000000) ≡ false
no_branch word other = let top = top_bits word in ground (arith, other, top)

BranchesTo-step :
    (word addr target : ℕ)
    → BranchesTo word addr target
    → add64 addr (sign64_extend (bits32 word 25 0 * 4) 28) ≡ target
BranchesTo-step word addr target (top, inl (ahead, e)) =
    rw (imm26_lem word, e) (ground (arith, ahead))
BranchesTo-step word addr target (top, inr (back, e)) =
    rw (imm26_lem word, e) (ground (arith, back))

module _ (k : Kernel) where
  once-branch :
      (addr target : ℕ)
      → BranchesTo (k.text addr) addr target
      → branch_func_addr_once k addr ≡ target
  unfolding branch_func_addr_once
  once-branch addr target to =
      let top = top_bits (k.text addr) in
      let is : (bit_and (k.text addr) 0xFC000000 == 0x14000000) ≡ true =
        ground (arith, top, to.0) in
      rw is (BranchesTo-step (k.text addr) addr target to)

  once-pad :
      (addr : ℕ)
      → (k.text addr ≡ 0xD503245F)
        ⊎ (k.text addr ≡ 0xD503249F)
        ⊎ ((k.text addr ≡ 0xD50324DF) × (hook_get_mem_from_origin k.mem addr ≡ none))
      → branch_func_addr_once k addr ≡ (addr + 4) % 2 ^ 64
  unfolding branch_func_addr_once
  once-pad addr (inl c) = rw c refl
  once-pad addr (inr (inl j)) = rw j refl
  once-pad addr (inr (inr (jc, free))) = rw (jc, free) refl

  once-arrives :
      (addr : ℕ)
      → k.text addr / 2 ^ 26 % 64 ≢ 5
      → k.text addr ≢ 0xD503245F
      → k.text addr ≢ 0xD503249F
      → k.text addr ≢ 0xD50324DF
      → branch_func_addr_once k addr ≡ addr
  unfolding branch_func_addr_once
  once-arrives addr other c j jc =
      let e : (k.text addr == 0xD503245F) ≡ false = ground (arith, c) in
      let e' : (k.text addr == 0xD503249F) ≡ false = ground (arith, j) in
      let e'' : (k.text addr == 0xD50324DF) ≡ false = ground (arith, jc) in
      rw (no_branch (k.text addr) other, e, e', e'') refl

  once-own :
      (addr i : ℕ)
      → k.text addr ≡ 0xD50324DF
      → hook_get_mem_from_origin k.mem addr ≡ some i
      → branch_func_addr_once k addr ≡ addr
  unfolding branch_func_addr_once
  once-own addr i jc hooked = rw (jc, hooked) refl

  Trail-iterate :
      {addr dest n : ℕ}
      → Trail k addr dest n
      → (iterate_once k n addr ≡ dest) × (branch_func_addr_once k dest ≡ dest)
  Trail-iterate (arrives other c j jc) = (refl, once-arrives _ other c j jc)
  Trail-iterate (own jc hooked) = (refl, once-own _ _ jc hooked)
  Trail-iterate (branch {n = n} to trail) =
      let rest = Trail-iterate trail in
      (ap (iterate_once k n) (once-branch _ _ to) ∙ rest.0, rest.1)
  Trail-iterate (pad {n = n} is trail) =
      let rest = Trail-iterate trail in (ap (iterate_once k n) (once-pad _ is) ∙ rest.0, rest.1)

  -- `branch_func_addr` ends at the first address on the way over branches and landing pads that has neither,
  -- or that has a BTI JC and a hook: one round more than there are steps on the way is enough.
  pub branch_func_addr-Trail :
      (fuel addr dest n : ℕ)
      → Trail k addr dest n
      → n < fuel
      → branch_func_addr fuel k addr ≡ some dest
  branch_func_addr-Trail fuel addr dest n trail enough =
      let (e, fixed) = Trail-iterate trail in
      iterate_once-ends k n fuel addr enough (rw e fixed) ∙ ap some e

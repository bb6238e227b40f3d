-- ===== src/Hook/Places.antt =====
-- Where `relo_in_tramp` sends an address: into the relocated code, at the copy of the instruction
-- that the loop of `hook_prepare` makes.
use kpm_syscall_backtrace.Base.{
  ℕ, zero, suc, ◌+◌, ◌*◌, ◌%◌, ◌^◌, ◌≤◌, ◌<◌, ◌≡◌, refl, sym, ◌∙◌, arith, ◌⊎◌, ◌-◌, ◌/◌, some, List,
  [], ◌∷◌, length,
}
use mathlib.Core.Path.{subst}
use mathlib.Core.Option.{some-injective}
use kpm_syscall_backtrace.Hook.Types.{Hook, no_err, add64, trampoline_max_num}
use kpm_syscall_backtrace.Hook.Insn.{patterns, match_len}
use kpm_syscall_backtrace.Hook.Emit.{skip_insts, relo_in_tramp}
use kpm_syscall_backtrace.Hook.Relocate.{relocate_from}
use kpm_syscall_backtrace.Hook.Table.{len_of, match_len-patterns, match_pattern-patterns}
use kpm_syscall_backtrace.Hook.Words.{type_of}
use kpm_syscall_backtrace.Hook.Bounds.{total_len, Relocates, relocate_from-Relocates}

total_len-tail : (x : ℕ) (xs : List ℕ) (i n : ℕ) → total_len (x ∷ xs) (suc i) n ≡ total_len xs i n
total_len-tail x xs i zero = refl
total_len-tail x xs i (suc n) = omega (arith, total_len-tail x xs (suc i) n)

match_len-type : (inst : ℕ) → match_len patterns inst ≡ len_of (type_of inst)
match_len-type inst = omega (arith, match_len-patterns inst, match_pattern-patterns inst)

skip_insts_lem :
    (insts : List ℕ) (n a : ℕ)
    → n ≤ length insts
    → a < 2 ^ 64
    → skip_insts insts n a ≡ add64 a (total_len insts 0 n * 4)
unfolding skip_insts
skip_insts_lem insts zero a h small = omega arith
skip_insts_lem [] (suc n) a h small = absurd (omega arith)
skip_insts_lem (x ∷ xs) (suc n) a h small = omega (
  arith,
  skip_insts_lem xs n (add64 a (match_len patterns x * 4)),
  match_len-type x,
  total_len-tail x xs 0 n,
)

-- The trampoline lies in the address space, and the back-up holds what it overwrites.
pub record IsPlaced (h : Hook) : Type 0 where
  pub no_wrap : h.origin_addr + h.tramp_insts_num * 4 < 2 ^ 64
  pub saved : h.tramp_insts_num ≤ length h.origin_insts
  pub short : h.tramp_insts_num ≤ trampoline_max_num
  pub relo_small : h.relo_addr < 2 ^ 64

-- On a hook that `IsPlaced`, `relo_in_tramp` leaves an address outside of the trampoline as it is.
pub relo_in_tramp-outside :
    (h : Hook) (addr : ℕ)
    → IsPlaced h
    → (addr < h.origin_addr) ⊎ (h.origin_addr + h.tramp_insts_num * 4 ≤ addr)
    → relo_in_tramp h addr ≡ addr
unfolding relo_in_tramp
relo_in_tramp-outside h addr p out = ground arith

relo_in_tramp-inside :
    (h : Hook) (i : ℕ)
    → IsPlaced h
    → i < h.tramp_insts_num
    → relo_in_tramp h (h.origin_addr + i * 4) ≡ skip_insts h.origin_insts i h.relo_addr
unfolding relo_in_tramp
relo_in_tramp-inside h i p inside =
    let index : (h.origin_addr + i * 4 - h.origin_addr) / 4 % 2 ^ 32 ≡ i = omega arith in
    ground (arith, index)

written_num :
    (h h' : Hook) (i : ℕ)
    → h.relo_insts_num + total_len h.origin_insts 0 i ≤ length h.relo_insts
    → relocate_from i 0 h ≡ some (no_err, h')
    → h'.relo_insts_num ≡ h.relo_insts_num + total_len h.origin_insts 0 i
written_num h h' i fits e =
    let (r, e', s) = relocate_from-Relocates i 0 h fits in
    (subst (Relocates h 0 i) (some-injective _ _ (sym e' ∙ e)) s).2 refl

-- On a hook that `IsPlaced` and has no word relocated yet, with room for the words of the first `i`
-- instructions, if the loop of `hook_prepare` has relocated these without an error, then
-- `relo_in_tramp` sends the address of the overwritten instruction `i` to the next word it writes.
pub relo_in_tramp-copy :
    (h h' : Hook) (i : ℕ)
    → IsPlaced h
    → h.relo_insts_num ≡ 0
    → total_len h.origin_insts 0 i ≤ length h.relo_insts
    → i < h.tramp_insts_num
    → relocate_from i 0 h ≡ some (no_err, h')
    → relo_in_tramp h (h.origin_addr + i * 4) ≡ add64 h.relo_addr (h'.relo_insts_num * 4)
relo_in_tramp-copy h h' i p empty fits inside e = omega (
  arith,
  relo_in_tramp-inside h i p inside,
  skip_insts_lem h.origin_insts i h.relo_addr (omega arith) p.relo_small,
  written_num h h' i (omega arith) e,
)

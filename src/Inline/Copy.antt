-- ===== src/Inline/Copy.antt =====
-- hook_chain_prepare of kernel/base/hook.c: the copy of a transit function into a chain.
use kpm_syscall_backtrace.Base.{ℕ, ◌+◌, ◌≤◌, ◌≡◌, arith, ◌⊎◌, none, some, List, ◌∷◌, length}
use kpm_syscall_backtrace.Hook.Types.{no_err, transit_no_mem, arm64_nop, arm64_bti_jc}
use kpm_syscall_backtrace.Hook.Writes.{written, write_words-fits, write_words-overflow}
use kpm_syscall_backtrace.Inline.{transit_inst_num}
use kpm_syscall_backtrace.Inline.Wrap.{Transits, transit_words, hook_chain_prepare}

-- On a chain's array of 96 words, `hook_chain_prepare` does one of three things. It copies a transit
-- function of at most 94 words behind a landing pad and a NOP; it refuses one of at least 96 words and
-- leaves the array; or, for one of 95 words, which passes its check, it writes past the array's end.
pub hook_chain_prepare-cases :
    (code : Transits) (transit : List ℕ) (argno : ℕ)
    → length transit ≡ transit_inst_num
    → let words = transit_words code argno in
      let r = hook_chain_prepare code transit argno in
      ((length words + 2 ≤ transit_inst_num)
        × (r ≡ some (no_err, written transit 0 (arm64_bti_jc ∷ arm64_nop ∷ words))))
      ⊎ (((transit_inst_num ≤ length words) × (r ≡ some (transit_no_mem, transit)))
          ⊎ ((length words + 1 ≡ transit_inst_num) × (r ≡ none)))
unfolding hook_chain_prepare
hook_chain_prepare-cases code transit argno room =
    let words = arm64_bti_jc ∷ arm64_nop ∷ transit_words code argno in
    ground (arith, write_words-fits transit 0 words, write_words-overflow transit 0 words)

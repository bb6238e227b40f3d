-- ===== src/Hook/Words.antt =====
-- The words that `relocate_inst` writes for one instruction.
use kpm_syscall_backtrace.Base.{ℕ, ◌+◌, ◌≤◌, ◌≡◌, refl, arith, some, List, [], length}
use kpm_syscall_backtrace.Hook.Types.{Hook, HookErr, no_err}
use kpm_syscall_backtrace.Hook.Insn.{
  InstType, inst_adrp, inst_ldr_32, inst_ldr_64, inst_ldrsw_lit, inst_prfm_lit, inst_ldr_simd_32,
  inst_ldr_simd_64, inst_ldr_simd_128, patterns, match_pattern,
}
use kpm_syscall_backtrace.Hook.Relocate.{dispatch, put_words, relocate_inst}
use kpm_syscall_backtrace.Hook.Table.{len_of, match_pattern-patterns}
use kpm_syscall_backtrace.Hook.Writes.{extended, put_words-fits}

-- A relocation that succeeds writes as many words as its table row says, one that fails none.
abbrev pub WordsOf : InstType → HookErr × List ℕ → Type 0
WordsOf it (no_err, words) = length words ≡ len_of it
WordsOf it (_, words) = words ≡ []

pub dispatch-WordsOf :
    (h : Hook) (inst_addr inst : ℕ) (it : InstType) → WordsOf it (dispatch h inst_addr inst it)
unfolding dispatch
dispatch-WordsOf h inst_addr inst inst_adrp = ground arith
dispatch-WordsOf h inst_addr inst inst_ldr_32 = ground arith
dispatch-WordsOf h inst_addr inst inst_ldr_64 = ground arith
dispatch-WordsOf h inst_addr inst inst_ldrsw_lit = ground arith
dispatch-WordsOf h inst_addr inst inst_prfm_lit = ground arith
dispatch-WordsOf h inst_addr inst inst_ldr_simd_32 = ground arith
dispatch-WordsOf h inst_addr inst inst_ldr_simd_64 = ground arith
dispatch-WordsOf h inst_addr inst inst_ldr_simd_128 = ground arith
dispatch-WordsOf h inst_addr inst _ = omega arith

abbrev pub type_of : ℕ → InstType
type_of inst = (match_pattern patterns inst).0

abbrev pub relocated : Hook → ℕ → ℕ → HookErr × List ℕ
relocated h inst_addr inst = dispatch h inst_addr inst (type_of inst)

-- `relocate_inst` writes the words of the instruction's type.
pub relocate_inst_lem :
    (h : Hook) (inst_addr inst : ℕ)
    → relocate_inst h inst_addr inst
      ≡ put_words h
          (relocated h inst_addr inst).1
          (match_pattern patterns inst).1
          (relocated h inst_addr inst).0
unfolding relocate_inst
relocate_inst_lem h inst_addr inst = refl

pub WordsOf-le : (it : InstType) (r : HookErr × List ℕ) → WordsOf it r → length r.1 ≤ len_of it
WordsOf-le it (no_err, words) w = omega arith
WordsOf-le it (_, words) w = rw w (omega arith)

pub relocate_inst-fits :
    (h : Hook) (inst_addr inst : ℕ)
    → h.relo_insts_num + len_of (type_of inst) ≤ length h.relo_insts
    → relocate_inst h inst_addr inst
      ≡ some (
        (relocated h inst_addr inst).0,
        extended h (relocated h inst_addr inst).1 (len_of (type_of inst)),
      )
relocate_inst-fits h inst_addr inst fits =
    rw (relocate_inst_lem, match_pattern-patterns)
      (put_words-fits h (relocated h inst_addr inst).1 _ _
        (omega (arith, WordsOf-le _ _ (dispatch-WordsOf h inst_addr inst (type_of inst)))))

-- ===== src/Hook/Emit.antt =====
-- kernel/base/hook.c, relo_in_tramp to ret_absolute: the words that each kind of instruction is
-- relocated to. A function returns its error and the words that it writes from `buf` on.
use kpm_syscall_backtrace.Base.{
  ℕ, zero, suc, ◌-◌, ◌*◌, ◌/◌, ◌%◌, ◌^◌, ltb, leb, if◌then◌else◌, bit_and, bit_or, Bool, true,
  false, not, ◌&&◌, List, [], ◌∷◌,
}
use kpm_syscall_backtrace.Hook.Types.{Hook, HookErr, no_err, bad_relo, add64, lo32, hi32, arm64_nop}
use kpm_syscall_backtrace.Hook.Insn.{
  InstType, inst_bc, inst_bl, inst_adr, inst_ldr_32, inst_ldr_64, inst_ldrsw_lit, inst_prfm_lit,
  inst_ldr_simd_32, inst_ldr_simd_64, patterns, match_len, bits32, sign64_extend,
}

unfoldable pub is_in_tramp : Hook → ℕ → Bool
is_in_tramp h addr =
    let tramp_start = h.origin_addr in
    let tramp_end = add64 tramp_start (h.tramp_insts_num * 4) in
    leb tramp_start addr && ltb addr tramp_end

-- The loop of `relo_in_tramp` over the first instructions.
unfoldable pub skip_insts : List ℕ → ℕ → ℕ → ℕ
skip_insts insts zero fix_addr = fix_addr
skip_insts [] (suc n) fix_addr = fix_addr
skip_insts (inst ∷ insts) (suc n) fix_addr =
    skip_insts insts n (add64 fix_addr (match_len patterns inst * 4))

unfoldable pub relo_in_tramp : Hook → ℕ → ℕ
unfolding is_in_tramp
relo_in_tramp h addr =
    if not (is_in_tramp h addr)
    then addr
    else let addr_inst_index = (addr - h.origin_addr) / 4 % 2 ^ 32 in
      skip_insts h.origin_insts addr_inst_index h.relo_addr

-- The address that a relocated branch jumps to.
unfoldable pub branch_target : Hook → ℕ → ℕ → ℕ
branch_target h inst_addr imm64 = relo_in_tramp h (add64 inst_addr imm64)

-- The two shapes of immediate in `relo_b`.
unfoldable pub branch_imm : ℕ → InstType → ℕ
branch_imm inst inst_bc = sign64_extend (bits32 inst 23 5 * 4) 21
branch_imm inst _ = sign64_extend (bits32 inst 25 0 * 4) 28

unfoldable pub relo_b : Hook → ℕ → ℕ → InstType → HookErr × List ℕ
unfolding branch_imm branch_target
relo_b h inst_addr inst inst_bc =
    let addr = branch_target h inst_addr (branch_imm inst inst_bc) in
    (
      no_err,
      bit_or (bit_and inst 0xFF00001F) 0x40
          ∷ 0x14000006
          ∷ 0x58000051
          ∷ 0x14000003
          ∷ lo32 addr
          ∷ hi32 addr
          ∷ 0xD65F0220
          ∷ arm64_nop
          ∷ [],
    )
relo_b h inst_addr inst inst_bl =
    let addr = branch_target h inst_addr (branch_imm inst inst_bl) in
    (
      no_err,
      0x58000051
          ∷ 0x14000003
          ∷ lo32 addr
          ∷ hi32 addr
          ∷ 0x1000001E
          ∷ 0x910033DE
          ∷ 0xD65F0220
          ∷ arm64_nop
          ∷ [],
    )
relo_b h inst_addr inst type =
    let addr = branch_target h inst_addr (branch_imm inst type) in
    (no_err, 0x58000051 ∷ 0x14000003 ∷ lo32 addr ∷ hi32 addr ∷ 0xD65F0220 ∷ arm64_nop ∷ [])

abbrev load_address : ℕ → ℕ → List ℕ
load_address xd addr = bit_or 0x58000040 xd ∷ 0x14000003 ∷ lo32 addr ∷ hi32 addr ∷ []

unfoldable pub adr_target : ℕ → ℕ → InstType → ℕ
adr_target inst_addr inst inst_adr =
    add64 inst_addr (sign64_extend (bit_or (bits32 inst 23 5 * 2 ^ 2) (bits32 inst 30 29)) 21)
adr_target inst_addr inst _ =
    bit_and
      (add64 inst_addr
        (sign64_extend (bit_or (bits32 inst 23 5 * 2 ^ 14) (bits32 inst 30 29 * 2 ^ 12)) 33))
      0xFFFFFFFFFFFFF000

unfoldable pub relo_adr : Hook → ℕ → ℕ → InstType → HookErr × List ℕ
relo_adr h inst_addr inst inst_adr =
    (no_err, load_address (bits32 inst 4 0) (adr_target inst_addr inst inst_adr))
relo_adr h inst_addr inst type =
    let addr = adr_target inst_addr inst type in
    if is_in_tramp h addr then (bad_relo, []) else (no_err, load_address (bits32 inst 4 0) addr)

unfoldable pub load_literal : ℕ → ℕ → ℕ → List ℕ
load_literal rt addr op =
    bit_or 0x58000060 rt
    ∷ bit_or (bit_or op rt) (rt * 2 ^ 5)
    ∷ 0x14000004
    ∷ arm64_nop
    ∷ lo32 addr
    ∷ hi32 addr
    ∷ []

unfoldable pub load_simd : ℕ → ℕ → ℕ → List ℕ
load_simd rt addr op =
    0xA93F47F0
    ∷ 0x58000091
    ∷ bit_or op rt
    ∷ 0xF85F83F1
    ∷ 0x14000004
    ∷ arm64_nop
    ∷ lo32 addr
    ∷ hi32 addr
    ∷ []

-- The two layouts of `relo_ldr`, by type.
unfoldable pub ldr_words : ℕ → ℕ → InstType → List ℕ
ldr_words rt addr inst_ldr_32 = load_literal rt addr 0xB9400000
ldr_words rt addr inst_ldr_64 = load_literal rt addr 0xF9400000
ldr_words rt addr inst_ldrsw_lit = load_literal rt addr 0xB9800000
ldr_words rt addr inst_prfm_lit = load_simd rt addr 0xF9800220
ldr_words rt addr inst_ldr_simd_32 = load_simd rt addr 0xBD400220
ldr_words rt addr inst_ldr_simd_64 = load_simd rt addr 0xFD400220
ldr_words rt addr _ = load_simd rt addr 0x3DC00220

abbrev is_prfm : InstType → Bool
is_prfm inst_prfm_lit = true
is_prfm _ = false

unfoldable pub ldr_target : ℕ → ℕ → ℕ
ldr_target inst_addr inst = add64 inst_addr (sign64_extend (bits32 inst 23 5 * 4) 21)

unfoldable pub relo_ldr : Hook → ℕ → ℕ → InstType → HookErr × List ℕ
relo_ldr h inst_addr inst type =
    let addr = ldr_target inst_addr inst in
    if is_in_tramp h addr && not (is_prfm type)
    then (bad_relo, [])
    else (no_err, ldr_words (bits32 inst 4 0) (relo_in_tramp h addr) type)

unfoldable pub relo_cb : Hook → ℕ → ℕ → InstType → HookErr × List ℕ
unfolding relo_in_tramp
relo_cb h inst_addr inst type =
    let offset = sign64_extend (bits32 inst 23 5 * 4) 21 in
    let addr = relo_in_tramp h (add64 inst_addr offset) in
    (
      no_err,
      bit_or (bit_and inst 0xFF00001F) 0x40
          ∷ 0x14000005
          ∷ 0x58000051
          ∷ 0xD65F0220
          ∷ lo32 addr
          ∷ hi32 addr
          ∷ [],
    )

unfoldable pub relo_tb : Hook → ℕ → ℕ → InstType → HookErr × List ℕ
unfolding relo_in_tramp
relo_tb h inst_addr inst type =
    let offset = sign64_extend (bits32 inst 18 5 * 4) 16 in
    let addr = relo_in_tramp h (add64 inst_addr offset) in
    (
      no_err,
      bit_or (bit_and inst 0xFFF8001F) 0x40
          ∷ 0x14000005
          ∷ 0x58000051
          ∷ 0xd61f0220
          ∷ lo32 addr
          ∷ hi32 addr
          ∷ [],
    )

unfoldable pub relo_ignore : Hook → ℕ → ℕ → InstType → HookErr × List ℕ
relo_ignore h inst_addr inst type = (no_err, inst ∷ arm64_nop ∷ [])

-- The words of `ret_absolute`, which writes four.
unfoldable pub ret_absolute : ℕ → List ℕ
ret_absolute addr = 0x58000051 ∷ 0xD65F0220 ∷ lo32 addr ∷ hi32 addr ∷ []

unfoldable pub branch_absolute : ℕ → List ℕ
branch_absolute addr = 0x58000051 ∷ 0xd61f0220 ∷ lo32 addr ∷ hi32 addr ∷ []

-- The preprocessor leaves the call of `ret_absolute` alone.
unfoldable pub branch_from_to : ℕ → ℕ → List ℕ
unfolding ret_absolute
branch_from_to src_addr dst_addr = ret_absolute dst_addr

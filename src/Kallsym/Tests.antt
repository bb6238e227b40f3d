-- ===== src/Kallsym/Tests.antt =====
-- A small image with two names, and the theorems of the Kallsym modules at it.
use kpm_syscall_backtrace.Base.{
  ℕ, zero, suc, inl, inr, ◌<◌, ◌≡◌, refl, arith, true, false, some, List, [], ◌∷◌, get_or, codes,
  ◌++◌,
}
use kpm_syscall_backtrace.Kallsym.{Info, sp}
use kpm_syscall_backtrace.Kallsym.Names.{decompress_symbol_name, is_symbol_name_pos}
use kpm_syscall_backtrace.Kallsym.Lookup.{get_symbol_offset, get_symbol_offset_and_size}
use kpm_syscall_backtrace.Kallsym.Finds.{All, FindsOffset, get_symbol_offset-Finds}

-- The names `abcd` and `d` at place 0, the offsets at 8, the tokens at 16.
abbrev bytes : List ℕ
bytes =
    (2 ∷ 0 ∷ 1 ∷ 1 ∷ 1 ∷ 0 ∷ 0 ∷ 0 ∷ [])
    ++ ((16 ∷ 0 ∷ 0 ∷ 0 ∷ 64 ∷ 0 ∷ 0 ∷ 0 ∷ []) ++ (codes "Tab" ++ (0 ∷ codes "cd" ++ (0 ∷ []))))

abbrev image : ℕ → ℕ
image i = get_or bytes i 0

abbrev info : Info
info = record {
  is_be = false;
  major = 5;
  minor = 10;
  patch = 0;
  linux_banner_offset = [];
  tokens = 16 ∷ 20 ∷ [];
  asm_long_size = 4;
  asm_ptr_size = 8;
  markers_elem_size = 4;
  num_syms = 2;
  has_relative_base = true;
  addresses_offset = 0;
  offsets_offset = 8;
  num_syms_offset = 0;
  names_offset = 0;
  markers_offset = 0;
  token_table_offset = 16;
  token_index_offset = 0;
  approx_offset = 0;
  approx_end = 0;
  approx_num = 0;
  marker_num = 0;
  kernel_base = 0;
  try_relo = true;
  relo_applied = false;
  symbol_banner_idx = 0;
  all_yes = false;
  current_type = sp;
}

first_name : decompress_symbol_name image 23 info 0 ≡ some (3, 84, codes "abcd")
unfolding decompress_symbol_name
first_name = refl

-- A name is taken for a shorter symbol that ends with one of its tokens.
shorter_symbol : is_symbol_name_pos image 23 info 0 (codes "ab") ≡ true
unfolding is_symbol_name_pos
shorter_symbol = refl

abcd_found : get_symbol_offset_and_size false image 23 info (codes "abcd") ≡ (16, 48)
unfolding get_symbol_offset_and_size decompress_symbol_name
abcd_found = refl

get_or-byte : (bs : List ℕ) (i : ℕ) → All (λ b. b < 256) bs → get_or bs i 0 < 256
get_or-byte [] i small = omega arith
get_or-byte (b ∷ bs) zero (small, rest) = small
get_or-byte (b ∷ bs) (suc i) (small, rest) = get_or-byte bs i rest

image-byte : (i : ℕ) → image i < 256
image-byte i = get_or-byte bytes i (ground arith)

get_symbol_offset-Finds_example :
    FindsOffset false image 23 info
      (codes "d")
      ((0 ∷ 1 ∷ []) ∷ (1 ∷ []) ∷ [])
      (get_symbol_offset false image 23 info (codes "d"))
get_symbol_offset-Finds_example =
    get_symbol_offset-Finds false image 23 info (codes "d") ((0 ∷ 1 ∷ []) ∷ (1 ∷ []) ∷ [])
      image-byte (inr (inr (inl refl))) (inr (inr (inr refl))) refl (omega arith)

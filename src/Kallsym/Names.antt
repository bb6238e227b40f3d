-- ===== src/Kallsym/Names.antt =====
-- The compressed names of tools/kallsym.c: a name is its number of tokens, in one or two bytes, and a byte
-- for each token.
use kpm_syscall_backtrace.Base.{
  ℕ, zero, suc, ◌+◌, ◌-◌, ◌*◌, ◌^◌, ◌<◌, ◌==◌, ltb, leb, if◌then◌else◌, bit_and, Bool, true, false,
  ◌||◌, Option, none, some, List, [], ◌∷◌, ◌++◌, get_or, drop, length, c_string, ◌&&◌,
}
use kpm_syscall_backtrace.Order.{bytes_at}
use kpm_syscall_backtrace.Kallsym.{Info, ksym_symbol_len}

-- The number of tokens, and the place behind it.
unfoldable pub name_len : (ℕ → ℕ) → ℕ → ℕ × ℕ
name_len img pos =
    let len : ℕ = img pos in
    if ltb 0x7F len
    then (bit_and len 0x7F + img (suc pos) * 2 ^ 7, suc (suc pos))
    else (len, suc pos)

-- `strcat` of each token in turn.
abbrev pub joined : List (List ℕ) → List ℕ
joined [] = []
joined (token ∷ tokens) = token ++ joined tokens

-- `strncmp(symbol, token, strlen(token))` is 0.
abbrev pub begins : List ℕ → List ℕ → Bool
begins [] symbol = true
begins (c ∷ token) [] = false
begins (c ∷ token) (d ∷ symbol) = c == d && begins token symbol

-- `symidx` behind the loop of `is_symbol_name_pos`, counted from the rest of the symbol on.
abbrev pub matched : List (List ℕ) → List ℕ → ℕ
matched [] symbol = 0
matched (token ∷ tokens) symbol =
    let rest = matched tokens (drop (length token) symbol) in
    if begins token symbol then length token + rest else 0

-- The callers' buffer takes the name and its terminator.
abbrev pub FitsBuffer : List ℕ → Type 0
FitsBuffer symbol = length symbol < ksym_symbol_len

-- `img` and `imglen` are the image; a string ends at a 0, or where the image ends.
module _ (img : ℕ → ℕ) (imglen : ℕ) where
  abbrev pub string_at : ℕ → List ℕ
  string_at pos = c_string (bytes_at img pos (imglen - pos))

  module _ (info : Info) where
    -- The place of the token of a byte.
    abbrev pub token_place : ℕ → ℕ
    token_place tokidx = get_or info.tokens tokidx 0

    abbrev pub tokens_from : ℕ → ℕ → List (List ℕ)
    tokens_from pos zero = []
    tokens_from pos (suc n) = string_at (token_place (img pos)) ∷ tokens_from (suc pos) n

    -- The first token without its first letter, which is the type, then the others.
    abbrev pub name_tokens : ℕ → ℕ → List (List ℕ)
    name_tokens pos zero = []
    name_tokens pos (suc n) = string_at (suc (token_place (img pos))) ∷ tokens_from (suc pos) n

    -- `none` is -1, and nothing is changed; otherwise the next place, the type and the name. The code does
    -- not know how large the buffer for the name is, and does not look: a name that is not `FitsBuffer` is
    -- written past the 512 bytes that each caller has, and is here what then lies in memory.
    unfoldable pub decompress_symbol_name : ℕ → Option (ℕ × ℕ × List ℕ)
    unfolding name_len
    decompress_symbol_name pos =
        let (len, pos') = name_len img pos in
        if len == 0 || leb ksym_symbol_len len
        then none
        else some (pos' + len, img (token_place (img pos')), joined (name_tokens pos' len))

    -- The loop leaves its count at the first token that the rest of the symbol does not begin with.
    unfoldable pub is_symbol_name_pos : ℕ → List ℕ → Bool
    unfolding name_len
    is_symbol_name_pos pos symbol =
        let (len, pos') = name_len img pos in
        if len == 0 || leb ksym_symbol_len len
        then false
        else length symbol == matched (name_tokens pos' len) symbol

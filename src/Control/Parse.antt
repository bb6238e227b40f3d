-- ===== src/Control/Parse.antt =====
-- The numbers in the commands of accessOffstinlineHook.c. A text is what lies in memory from a place on;
-- past its end there are terminators.
use kpm_syscall_backtrace.Base.{
  ℕ, ◌+◌, ◌-◌, ◌*◌, ◌%◌, ◌^◌, leb, ◌==◌, if◌then◌else◌, Bool, ◌&&◌, ◌||◌, List, [], ◌∷◌,
}

abbrev pub is_digit : ℕ → Bool
is_digit c = leb b'0' c && leb c b'9'

abbrev pub is_hex : ℕ → Bool
is_hex c = is_digit c || (leb b'a' c && leb c b'f') || (leb b'A' c && leb c b'F')

-- The value of a character that is_hex accepts.
unfoldable pub hex_value : ℕ → ℕ
hex_value c =
    if is_digit c
    then c - b'0'
    else if leb b'a' c && leb c b'f'
    then c - b'a' + 10
    else c - b'A' + 10

-- The loop for a decimal number, an `int`: the number and the text after it.
unfoldable pub parse_decimal : ℕ → List ℕ → ℕ × List ℕ
parse_decimal n [] = (n, [])
parse_decimal n (c ∷ text) =
    let further = parse_decimal ((n * 10 + (c - b'0')) % 2 ^ 32) text in
    if is_digit c then further else (n, c ∷ text)

-- The loop for a hexadecimal number, an `unsigned long`.
unfoldable pub parse_hex : ℕ → List ℕ → ℕ × List ℕ
unfolding hex_value
parse_hex n [] = (n, [])
parse_hex n (c ∷ text) =
    let further = parse_hex ((n * 16 + hex_value c) % 2 ^ 64) text in
    if is_hex c then further else (n, c ∷ text)

-- "0x" and "0X" are passed over.
unfoldable pub skip_0x : List ℕ → List ℕ
skip_0x [] = []
skip_0x (c ∷ []) = c ∷ []
skip_0x (c ∷ d ∷ text) = if c == b'0' && (d == b'x' || d == b'X') then text else c ∷ d ∷ text

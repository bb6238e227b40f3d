-- ===== src/Control/Numbers.antt =====
-- The numbers that the commands of accessOffstinlineHook.c read.
use kpm_syscall_backtrace.Base.{
  ℕ, ◌+◌, ◌-◌, ◌*◌, ◌%◌, ◌^◌, ◌<◌, ◌≡◌, ap, ◌∙◌, arith, Bool, true, false, List, [], ◌∷◌, ◌++◌,
}
use kpm_syscall_backtrace.Control.Parse.{is_digit, is_hex, hex_value, parse_decimal, parse_hex}
use kpm_syscall_backtrace.Control.Args.{char_at}

-- Every character is one that the test accepts.
abbrev pub AreAll : (ℕ → Bool) → List ℕ → Type 0
AreAll test [] = Unit {0}
AreAll test (c ∷ text) = (test c ≡ true) × AreAll test text

-- The number, without a bound, that digits in a base stand for after the number `n`.
abbrev pub value_after : ℕ → (ℕ → ℕ) → ℕ → List ℕ → ℕ
value_after base digit n [] = n
value_after base digit n (c ∷ text) = value_after base digit (n * base + digit c) text

abbrev pub decimal_digit : ℕ → ℕ
decimal_digit c = c - b'0'

decimal_wraps :
    (n : ℕ) (text : List ℕ)
    → value_after 10 decimal_digit (n % 2 ^ 32) text % 2 ^ 32
      ≡ value_after 10 decimal_digit n text % 2 ^ 32
decimal_wraps n [] = omega arith
decimal_wraps n (c ∷ text) = omega (
  arith,
  decimal_wraps (n % 2 ^ 32 * 10 + (c - b'0')) text,
  decimal_wraps (n * 10 + (c - b'0')) text,
  ap (λ m. value_after 10 decimal_digit m text) (same_rest n (c - b'0')),
)
  where
    same_rest : (n d : ℕ) → (n % 2 ^ 32 * 10 + d) % 2 ^ 32 ≡ (n * 10 + d) % 2 ^ 32
    same_rest n d = omega arith

hex_wraps :
    (n : ℕ) (text : List ℕ)
    → value_after 16 hex_value (n % 2 ^ 64) text % 2 ^ 64 ≡ value_after 16 hex_value n text % 2 ^ 64
hex_wraps n [] = omega arith
hex_wraps n (c ∷ text) = omega (
  arith,
  hex_wraps (n % 2 ^ 64 * 16 + hex_value c) text,
  hex_wraps (n * 16 + hex_value c) text,
  ap (λ m. value_after 16 hex_value m text) (same_rest n (hex_value c)),
)
  where
    same_rest : (n d : ℕ) → (n % 2 ^ 64 * 16 + d) % 2 ^ 64 ≡ (n * 16 + d) % 2 ^ 64
    same_rest n d = omega arith

parse_decimal-from :
    (n : ℕ) (digits rest : List ℕ)
    → AreAll is_digit digits
    → is_digit (char_at rest) ≡ false
    → n < 2 ^ 32
    → parse_decimal n (digits ++ rest) ≡ (value_after 10 decimal_digit n digits % 2 ^ 32, rest)
unfolding parse_decimal
parse_decimal-from n [] [] are end small = ap (λ v. (v, [])) (omega (arith, small))
parse_decimal-from n [] (c ∷ rest) are end small =
    rw end (ap (λ v. (v, c ∷ rest)) (omega (arith, small)))
parse_decimal-from n (c ∷ digits) rest are end small = rw are.0 (
    parse_decimal-from ((n * 10 + (c - b'0')) % 2 ^ 32) digits rest are.1 end (omega arith)
    ∙ ap (λ v. (v, rest)) (decimal_wraps (n * 10 + (c - b'0')) digits))

parse_hex-from :
    (n : ℕ) (digits rest : List ℕ)
    → AreAll is_hex digits
    → is_hex (char_at rest) ≡ false
    → n < 2 ^ 64
    → parse_hex n (digits ++ rest) ≡ (value_after 16 hex_value n digits % 2 ^ 64, rest)
unfolding parse_hex
parse_hex-from n [] [] are end small = ap (λ v. (v, [])) (omega (arith, small))
parse_hex-from n [] (c ∷ rest) are end small =
    rw end (ap (λ v. (v, c ∷ rest)) (omega (arith, small)))
parse_hex-from n (c ∷ digits) rest are end small = rw are.0 (
    parse_hex-from ((n * 16 + hex_value c) % 2 ^ 64) digits rest are.1 end (omega arith)
    ∙ ap (λ v. (v, rest)) (hex_wraps (n * 16 + hex_value c) digits))

-- A number ends at the first character that is no digit of its base. It is read as its value, of which an
-- `int` keeps 32 bits and an `unsigned long` 64.
pub parse-value :
    (decimal hex rest : List ℕ)
    → AreAll is_digit decimal
    → AreAll is_hex hex
    → is_hex (char_at rest) ≡ false
    → (parse_decimal 0 (decimal ++ rest) ≡ (value_after 10 decimal_digit 0 decimal % 2 ^ 32, rest))
      × (parse_hex 0 (hex ++ rest) ≡ (value_after 16 hex_value 0 hex % 2 ^ 64, rest))
parse-value decimal hex rest are_digits are_hex end = (
  parse_decimal-from 0 decimal rest are_digits (ground (arith, end)) (omega arith),
  parse_hex-from 0 hex rest are_hex end (omega arith),
)

-- ===== src/Order/Wide.antt =====
-- The 64-bit swaps of tools/order.c reverse the bytes of a number.
use kpm_syscall_backtrace.Base.{
  ℕ, refl, ap, sym, ◌∙◌, ◌+◌, ◌*◌, ◌/◌, ◌%◌, ◌^◌, ◌<◌, ◌≡◌, arith, bit_and, bit_or,
}
use kpm_syscall_backtrace.Base.Bits.{
  bit_and_split, bit_and-mask, bit_or_join, bit_or-disjoint, bit_and-ones, bit_and-zero,
}
use kpm_syscall_backtrace.Order.{sar, swap_bytes64, swap_halves64, u64swp, i64swp}
use kpm_syscall_backtrace.Order.Swap.{upper_bytes32, lower_bytes32, weave32, reversed32}

-- The bytes at the odd places of 32 bits moved up by one place, and those at the even places moved down.
abbrev up32 : ℕ → ℕ
up32 x = x / 2 ^ 16 % 256 * 2 ^ 24 + x % 256 * 256

abbrev down32 : ℕ → ℕ
down32 x = x / 2 ^ 24 * 2 ^ 16 + x / 256 % 256

abbrev pairs32 : ℕ → ℕ
pairs32 x = x / 2 ^ 16 % 256 * 2 ^ 24 + x / 2 ^ 24 * 2 ^ 16 + x % 256 * 256 + x / 256 % 256

upper64 :
    (x : ℕ)
    → x < 2 ^ 64
    → bit_and (x * 2 ^ 8 % 2 ^ 64) 0xFF00FF00FF00FF00
      ≡ up32 (x / 2 ^ 32) * 2 ^ 32 + up32 (x % 2 ^ 32)
upper64 x h =
    let y : ℕ = x * 2 ^ 8 % 2 ^ 64 in
    omega (
      arith,
      bit_and_split 32 y 0xFF00FF00 0xFF00FF00 (omega arith),
      upper_bytes32 (y / 2 ^ 32) (omega arith),
      upper_bytes32 (y % 2 ^ 32) (omega arith),
    )

lower64 :
    (y : ℕ)
    → bit_and y 0x00FF00FF00FF00FF
      ≡ (y / 2 ^ 48 % 256 * 2 ^ 16 + y / 2 ^ 32 % 256) * 2 ^ 32
        + (y / 2 ^ 16 % 256 * 2 ^ 16 + y % 256)
lower64 y = omega (
  arith,
  bit_and_split 32 y 0xFF00FF 0xFF00FF (omega arith),
  lower_bytes32 (y / 2 ^ 32),
  lower_bytes32 (y % 2 ^ 32),
)

weave_pairs : (x : ℕ) → x < 2 ^ 32 → bit_or (up32 x) (down32 x) ≡ pairs32 x
weave_pairs x h =
    weave32 (x / 2 ^ 16 % 256) (x / 2 ^ 24) (x % 256) (x / 256 % 256) (omega arith)
      (omega (arith, h)) (omega arith) (omega arith)

swap_bytes64_lem :
    (x y : ℕ)
    → x < 2 ^ 64
    → bit_and y 0x00FF00FF00FF00FF ≡ down32 (x / 2 ^ 32) * 2 ^ 32 + down32 (x % 2 ^ 32)
    → swap_bytes64 x y ≡ pairs32 (x / 2 ^ 32) * 2 ^ 32 + pairs32 (x % 2 ^ 32)
swap_bytes64_lem x y h e =
    rw (upper64 x h, e)
      (bit_or_join 32 (up32 (x / 2 ^ 32)) (up32 (x % 2 ^ 32)) (down32 (x / 2 ^ 32))
          (down32 (x % 2 ^ 32)) (omega arith) (omega arith)
        ∙ rw (weave_pairs (x / 2 ^ 32) (omega (arith, h)), weave_pairs (x % 2 ^ 32) (omega arith))
            refl)

-- The 16-bit halves of a 32-bit number, exchanged.
abbrev halves32 : ℕ → ℕ
halves32 x = x % 2 ^ 16 * 2 ^ 16 + x / 2 ^ 16

upper_half : (x : ℕ) → x < 2 ^ 32 → bit_and x 0xFFFF0000 ≡ x / 2 ^ 16 * 2 ^ 16
upper_half x h = omega (
  arith,
  bit_and_split 16 x 0xFFFF 0 (omega arith),
  bit_and-ones 16 (x / 2 ^ 16) (omega (arith, h)),
  bit_and-zero (x % 2 ^ 16),
)

upper_halves64 :
    (x : ℕ)
    → x < 2 ^ 64
    → bit_and (x * 2 ^ 16 % 2 ^ 64) 0xFFFF0000FFFF0000
      ≡ x / 2 ^ 32 % 2 ^ 16 * 2 ^ 48 + x % 2 ^ 16 * 2 ^ 16
upper_halves64 x h =
    let y : ℕ = x * 2 ^ 16 % 2 ^ 64 in
    omega (
      arith,
      bit_and_split 32 y 0xFFFF0000 0xFFFF0000 (omega arith),
      upper_half (y / 2 ^ 32) (omega arith),
      upper_half (y % 2 ^ 32) (omega arith),
    )

lower_halves64 : (y : ℕ) → bit_and y 0x0000FFFF0000FFFF ≡ y / 2 ^ 32 % 2 ^ 16 * 2 ^ 32 + y % 2 ^ 16
lower_halves64 y = omega (
  arith,
  bit_and_split 32 y 0xFFFF 0xFFFF (omega arith),
  bit_and-mask 16 (y / 2 ^ 32),
  bit_and-mask 16 (y % 2 ^ 32),
)

join_halves : (x : ℕ) → x < 2 ^ 32 → bit_or (x % 2 ^ 16 * 2 ^ 16) (x / 2 ^ 16) ≡ halves32 x
join_halves x h = bit_or-disjoint 16 (x % 2 ^ 16) (x / 2 ^ 16) (omega (arith, h))

swap_halves64_lem :
    (x y : ℕ)
    → x < 2 ^ 64
    → bit_and y 0x0000FFFF0000FFFF ≡ x / 2 ^ 48 * 2 ^ 32 + x / 2 ^ 16 % 2 ^ 16
    → swap_halves64 x y ≡ halves32 (x / 2 ^ 32) * 2 ^ 32 + halves32 (x % 2 ^ 32)
swap_halves64_lem x y h e =
    let high : ℕ = x / 2 ^ 32 in
    let low : ℕ = x % 2 ^ 32 in
    let upper : bit_and (x * 2 ^ 16 % 2 ^ 64) 0xFFFF0000FFFF0000
        ≡ high % 2 ^ 16 * 2 ^ 16 * 2 ^ 32 + low % 2 ^ 16 * 2 ^ 16 =
      omega (arith, upper_halves64 x h) in
    let lower : bit_and y 0x0000FFFF0000FFFF ≡ high / 2 ^ 16 * 2 ^ 32 + low / 2 ^ 16 =
      omega (arith, e) in
    rw (upper, lower)
      (bit_or_join 32 (high % 2 ^ 16 * 2 ^ 16) (low % 2 ^ 16 * 2 ^ 16) (high / 2 ^ 16)
          (low / 2 ^ 16) (omega arith) (omega arith)
        ∙ rw (join_halves high (omega (arith, h)), join_halves low (omega arith)) refl)

-- The eight bytes of a number, the other way round.
abbrev pub reversed64 : ℕ → ℕ
reversed64 x = reversed32 (x % 2 ^ 32) * 2 ^ 32 + reversed32 (x / 2 ^ 32)

join_words :
    (x y : ℕ)
    → x < 2 ^ 64
    → y ≡ x / 2 ^ 32
    → bit_or (x * 2 ^ 32 % 2 ^ 64) y ≡ x % 2 ^ 32 * 2 ^ 32 + x / 2 ^ 32
join_words x y h e =
    let high : x * 2 ^ 32 % 2 ^ 64 ≡ x % 2 ^ 32 * 2 ^ 32 = omega (arith, h) in
    rw (high, e) (bit_or-disjoint 32 (x % 2 ^ 32) (x / 2 ^ 32) (omega (arith, h)))

-- What the three steps do together.
steps_lem : (x : ℕ) → x < 2 ^ 32 → halves32 (pairs32 x) ≡ reversed32 x
steps_lem x h = omega (arith, h)

pairs-lt : (x : ℕ) → x < 2 ^ 32 → pairs32 x < 2 ^ 32
pairs-lt x h = omega (arith, h)

pub reversed-lt : (x : ℕ) → x < 2 ^ 32 → reversed32 x < 2 ^ 32
reversed-lt x h = omega (arith, h)

-- The steps in a row, for whatever the shifts to the right give.
in_a_row :
    (x y y' y'' : ℕ)
    → x < 2 ^ 64
    → bit_and y 0x00FF00FF00FF00FF ≡ down32 (x / 2 ^ 32) * 2 ^ 32 + down32 (x % 2 ^ 32)
    → ((p : ℕ)
        → p < 2 ^ 64
        → p ≡ swap_bytes64 x y
        → bit_and y' 0x0000FFFF0000FFFF ≡ p / 2 ^ 48 * 2 ^ 32 + p / 2 ^ 16 % 2 ^ 16)
    → ((q : ℕ) → q < 2 ^ 64 → q ≡ swap_halves64 (swap_bytes64 x y) y' → y'' ≡ q / 2 ^ 32)
    → bit_or (swap_halves64 (swap_bytes64 x y) y' * 2 ^ 32 % 2 ^ 64) y'' ≡ reversed64 x
in_a_row x y y' y'' h first second third =
    let p : ℕ = pairs32 (x / 2 ^ 32) * 2 ^ 32 + pairs32 (x % 2 ^ 32) in
    let high = pairs-lt (x / 2 ^ 32) (omega (arith, h)) in
    let low = pairs-lt (x % 2 ^ 32) (omega arith) in
    let small : p < 2 ^ 64 = omega (arith, high, low) in
    let upper : p / 2 ^ 32 ≡ pairs32 (x / 2 ^ 32) = omega (arith, low) in
    let lower : p % 2 ^ 32 ≡ pairs32 (x % 2 ^ 32) = omega (arith, low) in
    let same : swap_bytes64 x y ≡ p = swap_bytes64_lem x y h first in
    let q : ℕ = reversed32 (x / 2 ^ 32) * 2 ^ 32 + reversed32 (x % 2 ^ 32) in
    let same' : swap_halves64 (swap_bytes64 x y) y' ≡ q =
      ap (λ t. swap_halves64 t y') same
      ∙ swap_halves64_lem p y' small (second p small (sym same))
      ∙ rw
          (
            upper,
            lower,
            steps_lem (x / 2 ^ 32) (omega (arith, h)),
            steps_lem (x % 2 ^ 32) (omega arith),
          )
          refl in
    let low' = reversed-lt (x % 2 ^ 32) (omega arith) in
    let high' = reversed-lt (x / 2 ^ 32) (omega (arith, h)) in
    let small' : q < 2 ^ 64 = omega (arith, low', high') in
    rw same' (join_words q y'' small' (third q small' (sym same')) ∙ omega (arith, low'))

pub u64swp_lem : (x : ℕ) → x < 2 ^ 64 → u64swp x ≡ reversed64 x
unfolding u64swp
u64swp_lem x h =
    in_a_row x (x / 2 ^ 8) _ _ h (omega (arith, h, lower64 (x / 2 ^ 8)))
      (λ p small e. rw (← e) (omega (arith, small, lower_halves64 (p / 2 ^ 16))))
      (λ q small e. rw (← e) refl)

-- The sign that the shifts of a signed number copy is masked away.
pub i64swp_lem : (x : ℕ) → x < 2 ^ 64 → i64swp x ≡ reversed64 x
unfolding i64swp
i64swp_lem x h =
    in_a_row x (sar 64 x 8) _ _ h (ground (arith, lower64 (sar 64 x 8)))
      (λ p small e. rw (← e) (ground (arith, lower_halves64 (sar 64 p 16))))
      (λ q small e. rw (← e) (ground (arith, bit_and-mask 32 (sar 64 q 32))))

-- ===== src/Order/Swap.antt =====
-- The swaps of tools/order.c reverse the bytes of a number.
use kpm_syscall_backtrace.Base.{ℕ, ◌∙◌, ◌+◌, ◌*◌, ◌/◌, ◌%◌, ◌^◌, ◌<◌, ◌≡◌, arith, bit_and, bit_or}
use kpm_syscall_backtrace.Base.Bits.{
  bit_and_split, bit_and-ones, bit_and-zero, bit_and-mask, bit_or_join, bit_or-disjoint,
}
use kpm_syscall_backtrace.Order.{sar, i16swp, i32swp, u16swp, u32swp}

upper_byte : (x : ℕ) → x < 2 ^ 16 → bit_and x 0xFF00 ≡ x / 256 * 256
upper_byte x h =
    ground (arith, bit_and_split 8 x 0xFF 0, bit_and-ones 8 (x / 256), bit_and-zero (x % 256))

pub upper_bytes32 :
    (x : ℕ) → x < 2 ^ 32 → bit_and x 0xFF00FF00 ≡ x / 2 ^ 24 * 2 ^ 24 + x / 256 % 256 * 256
upper_bytes32 x h =
    ground
      (arith, bit_and_split 16 x 0xFF00 0xFF00, upper_byte (x / 2 ^ 16), upper_byte (x % 2 ^ 16))

lower_byte : (x : ℕ) → bit_and x 0xFF ≡ x % 256
lower_byte x = bit_and-mask 8 x

pub lower_bytes32 : (x : ℕ) → bit_and x 0xFF00FF ≡ x / 2 ^ 16 % 256 * 2 ^ 16 + x % 256
lower_bytes32 x =
    ground (arith, bit_and_split 16 x 0xFF 0xFF, lower_byte (x / 2 ^ 16), lower_byte (x % 2 ^ 16))

-- Bytes at odd places and bytes at even places do not meet.
weave : (a b : ℕ) → b < 256 → bit_or (a * 256) b ≡ a * 256 + b
weave a b h = bit_or-disjoint 8 a b h

pub weave32 :
    (a b c d : ℕ)
    → a < 256
    → b < 256
    → c < 256
    → d < 256
    → bit_or (a * 2 ^ 24 + c * 256) (b * 2 ^ 16 + d) ≡ a * 2 ^ 24 + b * 2 ^ 16 + c * 256 + d
weave32 a b c d ha hb hc hd =
    ground (arith, bit_or_join 16 (a * 256) (c * 256) b d, weave a b, weave c d)

-- The two bytes of a number in the other order.
pub u16swp_lem : (x : ℕ) → x < 2 ^ 16 → u16swp x ≡ x % 256 * 256 + x / 256
unfolding u16swp
u16swp_lem x h =
    let low : x * 2 ^ 8 % 2 ^ 16 ≡ x % 256 * 256 = omega (arith, h) in
    rw low (weave (x % 256) (x / 256) (omega (arith, h)))

-- The first step of a swap exchanges the bytes of each pair.
swap_pairs32 :
    (x y : ℕ)
    → x < 2 ^ 32
    → bit_and y 0xFF00FF ≡ x / 2 ^ 24 * 2 ^ 16 + x / 256 % 256
    → bit_or (bit_and (x * 2 ^ 8 % 2 ^ 32) 0xFF00FF00) (bit_and y 0xFF00FF)
      ≡ x / 2 ^ 16 % 256 * 2 ^ 24 + x / 2 ^ 24 * 2 ^ 16 + x % 256 * 256 + x / 256 % 256
swap_pairs32 x y h e =
    let upper : bit_and (x * 2 ^ 8 % 2 ^ 32) 0xFF00FF00
        ≡ x / 2 ^ 16 % 256 * 2 ^ 24 + x % 256 * 256 =
      omega (arith, h, upper_bytes32 (x * 2 ^ 8 % 2 ^ 32) (omega arith)) in
    rw (upper, e)
      (weave32 (x / 2 ^ 16 % 256) (x / 2 ^ 24) (x % 256) (x / 256 % 256) (omega arith)
        (omega (arith, h)) (omega arith) (omega arith))

swap_halves32 :
    (x y : ℕ)
    → x < 2 ^ 32
    → y ≡ x / 2 ^ 16
    → bit_or (x * 2 ^ 16 % 2 ^ 32) y ≡ x % 2 ^ 16 * 2 ^ 16 + x / 2 ^ 16
swap_halves32 x y h e =
    let low : x * 2 ^ 16 % 2 ^ 32 ≡ x % 2 ^ 16 * 2 ^ 16 = omega (arith, h) in
    rw (low, e) (bit_or-disjoint 16 (x % 2 ^ 16) (x / 2 ^ 16) (omega (arith, h)))

-- The four bytes of a number, the other way round.
abbrev pub reversed32 : ℕ → ℕ
reversed32 x = x % 256 * 2 ^ 24 + x / 256 % 256 * 2 ^ 16 + x / 2 ^ 16 % 256 * 256 + x / 2 ^ 24

pub u32swp_lem : (x : ℕ) → x < 2 ^ 32 → u32swp x ≡ reversed32 x
unfolding u32swp
u32swp_lem x h =
    let right : bit_and (x / 2 ^ 8) 0xFF00FF ≡ x / 2 ^ 24 * 2 ^ 16 + x / 256 % 256 =
      omega (arith, h, lower_bytes32 (x / 2 ^ 8)) in
    rw (swap_pairs32 x (x / 2 ^ 8) h right)
      (swap_halves32 _ _ (omega (arith, h)) (omega arith) ∙ omega (arith, h))

-- So are those of a signed number, whose sign the shifts copy.
pub i32swp_lem : (x : ℕ) → x < 2 ^ 32 → i32swp x ≡ reversed32 x
unfolding i32swp
i32swp_lem x h =
    let right : bit_and (sar 32 x 8) 0xFF00FF ≡ x / 2 ^ 24 * 2 ^ 16 + x / 256 % 256 =
      ground (arith, lower_bytes32 (sar 32 x 8)) in
    let x' : ℕ = x / 2 ^ 16 % 256 * 2 ^ 24 + x / 2 ^ 24 * 2 ^ 16 + x % 256 * 256 + x / 256 % 256 in
    rw (swap_pairs32 x (sar 32 x 8) h right) (
      swap_halves32 x' _ (omega (arith, h)) (ground (arith, bit_and-mask 16 (sar 32 x' 16)))
      ∙ omega (arith, h))

pub i16swp_lem : (x : ℕ) → x < 2 ^ 16 → i16swp x ≡ x % 256 * 256 + x / 256
unfolding i16swp
i16swp_lem x h =
    let low : x * 2 ^ 8 % 2 ^ 16 ≡ x % 256 * 256 = omega (arith, h) in
    let right : bit_and (sar 16 x 8) 0xFF ≡ x / 256 = ground (arith, lower_byte (sar 16 x 8)) in
    rw (low, right) (weave (x % 256) (x / 256) (omega (arith, h)))

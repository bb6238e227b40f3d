-- ===== src/Base/Bits.antt =====
-- Laws of the native `bit_and` and `bit_or` at variables: one digit, k digits, and the masks of
-- ones and of zeros that the code uses.
use Prim.Native.Nat.{
  ℕ, zero, suc, ◌+◌, ◌-◌, ◌*◌, ◌/◌, ◌%◌, ◌^◌, ◌≤◌, ◌<◌, min, max, bit_and, bit_or, bit_xor, differ,
  digits, bit_and-bitwise, bit_or-bitwise, bit_xor-bitwise,
}
use mathlib.Core.Path.{◌≡◌, refl, ap, ◌∙◌}
use native.Mathlib.Omega.{arith}
use native.Mathlib.Nat.{pow-suc, one-le-pow, div-add-mod, mod-lt}

double_pow : (q k : ℕ) → q * 2 ^ suc k ≡ 2 * (q * 2 ^ k)
double_pow q k = omega (arith, ap (λ (t : ℕ). q * t) (pow-suc 2 k))

-- What both operations share: the digits from `combine`, and `beyond` where the first number ends.
module _ (beyond : ℕ → ℕ) (combine : ℕ → ℕ → ℕ) where
  -- One more step of fuel than the first number needs changes nothing.
  one_spare :
      (a fuel b : ℕ)
      → a ≤ fuel
      → digits beyond combine (suc fuel) a b ≡ digits beyond combine fuel a b
  one_spare zero zero b h = refl
  one_spare zero (suc fuel) b h = refl
  one_spare (suc a) zero b h = absurd (omega arith)
  one_spare (suc a) (suc fuel) b h = rw (one_spare (suc a / 2) fuel (b / 2) (omega arith)) refl

  spare_fuel :
      (spare fuel a b : ℕ)
      → fuel ≡ spare + a
      → digits beyond combine fuel a b ≡ digits beyond combine a a b
  spare_fuel zero fuel a b e =
      let enough : fuel ≡ a = omega arith in ap (λ n. digits beyond combine n a b) enough
  spare_fuel (suc spare) zero a b e = absurd (omega arith)
  spare_fuel (suc spare) (suc fuel) a b e =
      one_spare a fuel b (omega arith) ∙ spare_fuel spare fuel a b (omega arith)

pub zero-bit_and : (b : ℕ) → bit_and 0 b ≡ 0
zero-bit_and b = bit_and-bitwise 0 b

pub zero-bit_or : (b : ℕ) → bit_or 0 b ≡ b
zero-bit_or b = bit_or-bitwise 0 b

pub bit_and_halves : (m n : ℕ) → bit_and m n ≡ min (m % 2) (n % 2) + bit_and (m / 2) (n / 2) * 2
bit_and_halves zero n = omega (arith, zero-bit_and n, zero-bit_and (n / 2))
bit_and_halves (suc m) n =
    let lowest = spare_fuel (λ b. 0) min (m - suc m / 2) m (suc m / 2) (n / 2) (omega arith) in
    ground (arith, lowest, bit_and-bitwise (suc m) n, bit_and-bitwise (suc m / 2) (n / 2))

pub bit_or_halves : (m n : ℕ) → bit_or m n ≡ max (m % 2) (n % 2) + bit_or (m / 2) (n / 2) * 2
bit_or_halves zero n = omega (arith, zero-bit_or n, zero-bit_or (n / 2))
bit_or_halves (suc m) n =
    let lowest = spare_fuel (λ b. b) max (m - suc m / 2) m (suc m / 2) (n / 2) (omega arith) in
    ground (arith, lowest, bit_or-bitwise (suc m) n, bit_or-bitwise (suc m / 2) (n / 2))

-- An operation that works digit by digit works field by field, at every split of the words into high
-- and low bits.
module _ (op combine : ℕ → ℕ → ℕ)
    (step : (a b : ℕ) → op a b ≡ combine (a % 2) (b % 2) + op (a / 2) (b / 2) * 2)
    (nothing : op 0 0 ≡ 0) where
  join_fields :
      (k q r p s : ℕ)
      → r < 2 ^ k
      → s < 2 ^ k
      → op (q * 2 ^ k + r) (p * 2 ^ k + s) ≡ op q p * 2 ^ k + op r s
  join_fields zero q r p s hr hs = ground arith
  join_fields (suc k) q r p s hr hs = ground (
    arith,
    step (q * 2 ^ suc k + r) (p * 2 ^ suc k + s),
    step r s,
    double_pow q k,
    double_pow p k,
    double_pow (op q p) k,
    pow-suc 2 k,
    join_fields k q (r / 2) p (s / 2) (omega (arith, pow-suc 2 k)) (omega (arith, pow-suc 2 k)),
  )

pub bit_and_join :
    (k q r p s : ℕ)
    → r < 2 ^ k
    → s < 2 ^ k
    → bit_and (q * 2 ^ k + r) (p * 2 ^ k + s) ≡ bit_and q p * 2 ^ k + bit_and r s
bit_and_join = join_fields bit_and min bit_and_halves (zero-bit_and 0)

pub bit_or_join :
    (k q r p s : ℕ)
    → r < 2 ^ k
    → s < 2 ^ k
    → bit_or (q * 2 ^ k + r) (p * 2 ^ k + s) ≡ bit_or q p * 2 ^ k + bit_or r s
bit_or_join = join_fields bit_or max bit_or_halves (zero-bit_or 0)

-- Zero on the right, by halving a number below a bound.
below-bit_and-zero : (bound a : ℕ) → a < bound → bit_and a 0 ≡ 0
below-bit_and-zero zero a h = absurd (omega arith)
below-bit_and-zero (suc bound) zero h = zero-bit_and 0
below-bit_and-zero (suc bound) (suc a) h =
    ground (arith, bit_and_halves (suc a) 0, below-bit_and-zero bound (suc a / 2) (omega arith))

pub bit_and-zero : (a : ℕ) → bit_and a 0 ≡ 0
bit_and-zero a = below-bit_and-zero (suc a) a (omega arith)

below-bit_or-zero : (bound a : ℕ) → a < bound → bit_or a 0 ≡ a
below-bit_or-zero zero a h = absurd (omega arith)
below-bit_or-zero (suc bound) zero h = zero-bit_or 0
below-bit_or-zero (suc bound) (suc a) h =
    ground (arith, bit_or_halves (suc a) 0, below-bit_or-zero bound (suc a / 2) (omega arith))

pub bit_or-zero : (a : ℕ) → bit_or a 0 ≡ a
bit_or-zero a = below-bit_or-zero (suc a) a (omega arith)

-- A field under a mask of as many ones stays as it is.
pub bit_and-ones : (k r : ℕ) → r < 2 ^ k → bit_and r (2 ^ k - 1) ≡ r
bit_and-ones zero r h = omega (arith, bit_and-zero r)
bit_and-ones (suc k) r h = ground (
  arith,
  bit_and_halves r (2 ^ suc k - 1),
  pow-suc 2 k,
  one-le-pow k 2,
  bit_and-ones k (r / 2) (omega (arith, pow-suc 2 k)),
)

-- The two fields of a word.
split_word : (k a : ℕ) → a ≡ (a / 2 ^ k) * 2 ^ k + a % 2 ^ k
split_word k a = ground (arith, div-add-mod a (2 ^ k))

-- `a & (p << k | s)`, field by field.
pub bit_and_split :
    (k a p s : ℕ)
    → s < 2 ^ k
    → bit_and a (p * 2 ^ k + s) ≡ bit_and (a / 2 ^ k) p * 2 ^ k + bit_and (a % 2 ^ k) s
bit_and_split k a p s h =
    ap (λ t. bit_and t (p * 2 ^ k + s)) (split_word k a)
    ∙ bit_and_join k (a / 2 ^ k) (a % 2 ^ k) p s (mod-lt a (one-le-pow k 2 (omega arith))) h

-- `a & (2^k - 1)` is the remainder.
pub bit_and-mask : (k a : ℕ) → bit_and a (2 ^ k - 1) ≡ a % 2 ^ k
bit_and-mask k a = ground (
  arith,
  bit_and_split k a 0 (2 ^ k - 1),
  one-le-pow k 2,
  bit_and-zero (a / 2 ^ k),
  bit_and-ones k (a % 2 ^ k),
  mod-lt a (one-le-pow k 2 (omega arith)),
)

-- Disjoint fields add up.
pub bit_or-disjoint : (k q r : ℕ) → r < 2 ^ k → bit_or (q * 2 ^ k) r ≡ q * 2 ^ k + r
bit_or-disjoint k q r h = ground (arith, bit_or_join k q 0 0 r, bit_or-zero q, zero-bit_or r)

pub bit_or-disjoint' : (k q r : ℕ) → r < 2 ^ k → bit_or r (q * 2 ^ k) ≡ q * 2 ^ k + r
bit_or-disjoint' k q r h = ground (arith, bit_or_join k 0 r q 0, zero-bit_or q, bit_or-zero r)

pub zero-bit_xor : (b : ℕ) → bit_xor 0 b ≡ b
zero-bit_xor b = bit_xor-bitwise 0 b

differ_self : (x : ℕ) → differ x x ≡ 0
differ_self zero = refl
differ_self (suc x) = differ_self x

differ_zero : (x y : ℕ) → differ x y ≡ 0 → x ≡ y
differ_zero zero y e = omega (arith, e)
differ_zero (suc x) zero e = absurd (omega (arith, e))
differ_zero (suc x) (suc y) e = ap suc (differ_zero x y e)

bit_xor_halves : (m n : ℕ) → bit_xor m n ≡ differ (m % 2) (n % 2) + bit_xor (m / 2) (n / 2) * 2
bit_xor_halves zero n = omega (arith, zero-bit_xor n, zero-bit_xor (n / 2))
bit_xor_halves (suc m) n =
    let lowest = spare_fuel (λ b. b) differ (m - suc m / 2) m (suc m / 2) (n / 2) (omega arith) in
    omega (arith, lowest, bit_xor-bitwise (suc m) n, bit_xor-bitwise (suc m / 2) (n / 2))

below-bit_xor_zero : (bound a b : ℕ) → a < bound → bit_xor a b ≡ 0 → a ≡ b
below-bit_xor_zero zero a b less e = absurd (omega (arith, less))
below-bit_xor_zero (suc bound) zero b less e = omega (arith, e, zero-bit_xor b)
below-bit_xor_zero (suc bound) (suc a) b less e =
    let halves = bit_xor_halves (suc a) b in
    let low : differ (suc a % 2) (b % 2) ≡ 0 = omega (arith, halves, e) in
    let high : bit_xor (suc a / 2) (b / 2) ≡ 0 = omega (arith, halves, e) in
    let same_low = differ_zero (suc a % 2) (b % 2) low in
    let same_high = below-bit_xor_zero bound (suc a / 2) (b / 2) (omega (arith, less)) high in
    omega (arith, same_low, same_high)

below-bit_xor_self : (bound a : ℕ) → a < bound → bit_xor a a ≡ 0
below-bit_xor_self zero a less = absurd (omega (arith, less))
below-bit_xor_self (suc bound) zero less = zero-bit_xor 0
below-bit_xor_self (suc bound) (suc a) less = omega (
  arith,
  bit_xor_halves (suc a) (suc a),
  differ_self (suc a % 2),
  below-bit_xor_self bound (suc a / 2) (omega (arith, less)),
)

-- The exclusive or tells whether two numbers are the same.
pub bit_xor_zero : (a b : ℕ) → bit_xor a b ≡ 0 → a ≡ b
bit_xor_zero a b e = below-bit_xor_zero (suc a) a b (omega arith) e

pub bit_xor_self : (a : ℕ) → bit_xor a a ≡ 0
bit_xor_self a = below-bit_xor_self (suc a) a (omega arith)

below-bit_or_zero : (bound a b : ℕ) → a < bound → bit_or a b ≡ 0 → (a ≡ 0) × (b ≡ 0)
below-bit_or_zero zero a b less e = absurd (omega (arith, less))
below-bit_or_zero (suc bound) zero b less e = (refl, omega (arith, e, zero-bit_or b))
below-bit_or_zero (suc bound) (suc a) b less e =
    let halves = bit_or_halves (suc a) b in
    let rest =
      below-bit_or_zero bound (suc a / 2) (b / 2) (omega (arith, less))
        (omega (arith, halves, e)) in
    omega (arith, halves, e, rest)

pub bit_or_zero : (a b : ℕ) → bit_or a b ≡ 0 → (a ≡ 0) × (b ≡ 0)
bit_or_zero a b e = below-bit_or_zero (suc a) a b (omega arith) e

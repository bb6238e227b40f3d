-- ===== src/Order/Unpack.antt =====
-- `uint_unpack` and `int_unpack` of tools/common.c give the number that the bytes of an image are, in
-- the order of the image, whichever order the host has.
use kpm_syscall_backtrace.Base.{
  ℕ, suc, ◌+◌, ◌*◌, ◌/◌, ◌%◌, ◌^◌, ◌<◌, ◌≡◌, refl, ap, ◌∙◌, arith, if◌then◌else◌, Bool, true, false,
  List, [], ◌∷◌, ◌⊎◌, inl, inr,
}
use kpm_syscall_backtrace.Order.{
  u16swp, u32swp, u64swp, i16swp, i32swp, i64swp, le_number, be_number, bytes_at, sign_extended,
  differs, uint_unpack, int_unpack,
}
use kpm_syscall_backtrace.Order.Swap.{u16swp_lem, u32swp_lem, i16swp_lem, i32swp_lem, reversed32}
use kpm_syscall_backtrace.Order.Wide.{u64swp_lem, i64swp_lem, reversed64}

-- The number that some bytes are, in either order.
abbrev pub number_of : Bool → List ℕ → ℕ
number_of is_be bs = if is_be then be_number 0 bs else le_number bs

-- The widths that are read.
abbrev pub IsWidth : ℕ → Type 0
IsWidth size = (size ≡ 1) ⊎ (size ≡ 2) ⊎ (size ≡ 4) ⊎ (size ≡ 8)

abbrev four : ℕ → ℕ → ℕ → ℕ → List ℕ
four a b c d = a ∷ b ∷ c ∷ d ∷ []

extended64 : (x : ℕ) → x ≡ sign_extended 64 x
extended64 x = ground arith

reversed_le :
    (a b c d : ℕ)
    → a < 256
    → b < 256
    → c < 256
    → d < 256
    → reversed32 (le_number (four a b c d)) ≡ be_number 0 (four a b c d)
reversed_le a b c d ha hb hc hd = omega (arith, ha, hb, hc, hd)

reversed_be :
    (a b c d : ℕ)
    → a < 256
    → b < 256
    → c < 256
    → d < 256
    → reversed32 (be_number 0 (four a b c d)) ≡ le_number (four a b c d)
reversed_be a b c d ha hb hc hd = omega (arith, ha, hb, hc, hd)

pub reversed_words :
    (x y : ℕ) → x < 2 ^ 32 → reversed64 (y * 2 ^ 32 + x) ≡ reversed32 x * 2 ^ 32 + reversed32 y
reversed_words x y h =
    let low : (y * 2 ^ 32 + x) % 2 ^ 32 ≡ x = omega (arith, h) in
    let high : (y * 2 ^ 32 + x) / 2 ^ 32 ≡ y = omega (arith, h) in rw (low, high) refl

module _ (img : ℕ → ℕ) (byte : (i : ℕ) → img i < 256) (pos : ℕ) where
  abbrev first : List ℕ
  first = bytes_at img pos 4

  abbrev second : List ℕ
  second = bytes_at img (suc (suc (suc (suc pos)))) 4

  small_le : (p : ℕ) → le_number (bytes_at img p 4) < 2 ^ 32
  small_le p = omega (arith, byte p, byte (suc p), byte (suc (suc p)), byte (suc (suc (suc p))))

  small_be : (p : ℕ) → be_number 0 (bytes_at img p 4) < 2 ^ 32
  small_be p = omega (arith, byte p, byte (suc p), byte (suc (suc p)), byte (suc (suc (suc p))))

  swap_le : (p : ℕ) → reversed32 (le_number (bytes_at img p 4)) ≡ be_number 0 (bytes_at img p 4)
  swap_le p =
      reversed_le (img p) (img (suc p)) (img (suc (suc p))) (img (suc (suc (suc p)))) (byte p)
        (byte (suc p)) (byte (suc (suc p))) (byte (suc (suc (suc p))))

  swap_be : (p : ℕ) → reversed32 (be_number 0 (bytes_at img p 4)) ≡ le_number (bytes_at img p 4)
  swap_be p =
      reversed_be (img p) (img (suc p)) (img (suc (suc p))) (img (suc (suc (suc p)))) (byte p)
        (byte (suc p)) (byte (suc (suc p))) (byte (suc (suc (suc p))))

  le_words : le_number (bytes_at img pos 8) ≡ le_number second * 2 ^ 32 + le_number first
  le_words = omega arith

  be_words : be_number 0 (bytes_at img pos 8) ≡ be_number 0 first * 2 ^ 32 + be_number 0 second
  be_words = omega arith

  swap_le64 : reversed64 (le_number (bytes_at img pos 8)) ≡ be_number 0 (bytes_at img pos 8)
  swap_le64 =
      rw (le_words, be_words)
        (reversed_words _ _ (small_le pos)
          ∙ omega (arith, swap_le pos, swap_le (suc (suc (suc (suc pos))))))

  swap_be64 : reversed64 (be_number 0 (bytes_at img pos 8)) ≡ le_number (bytes_at img pos 8)
  swap_be64 =
      rw (le_words, be_words)
        (reversed_words _ _ (small_be (suc (suc (suc (suc pos)))))
          ∙ omega (arith, swap_be pos, swap_be (suc (suc (suc (suc pos))))))

  abbrev bytes64 : List ℕ
  bytes64 = bytes_at img pos 8

  small_le64 : le_number bytes64 < 2 ^ 64
  small_le64 = omega (arith, le_words, small_le pos, small_le (suc (suc (suc (suc pos)))))

  small_be64 : be_number 0 bytes64 < 2 ^ 64
  small_be64 = omega (arith, be_words, small_be pos, small_be (suc (suc (suc (suc pos)))))

  module _ (swap : ℕ → ℕ) where
    -- A swap that turns the two readings of some bytes into each other makes up for the host.
    made_up :
        (bs : List ℕ)
        → swap (le_number bs) ≡ be_number 0 bs
        → swap (be_number 0 bs) ≡ le_number bs
        → (host_is_be is_be : Bool)
        → (if differs host_is_be is_be
            then swap (if host_is_be then be_number 0 bs else le_number bs)
            else (if host_is_be then be_number 0 bs else le_number bs))
          ≡ number_of is_be bs
    made_up bs le be true true = refl
    made_up bs le be true false = be
    made_up bs le be false true = le
    made_up bs le be false false = refl

  swaps2 :
      (p : ℕ) (swap : ℕ → ℕ)
      → ((x : ℕ) → x < 2 ^ 16 → swap x ≡ x % 256 * 256 + x / 256)
      → (swap (le_number (bytes_at img p 2)) ≡ be_number 0 (bytes_at img p 2))
        × (swap (be_number 0 (bytes_at img p 2)) ≡ le_number (bytes_at img p 2))
  swaps2 p swap law =
      let a = byte p in
      let b = byte (suc p) in
      (
        law _ (omega (arith, a, b)) ∙ omega (arith, a, b),
        law _ (omega (arith, a, b)) ∙ omega (arith, a, b),
      )

  one_byte : (is_be : Bool) → img pos ≡ number_of is_be (bytes_at img pos 1)
  one_byte true = omega arith
  one_byte false = omega arith

  module _ (host_is_be is_be : Bool) where
    -- Whatever order the host has, on an image of bytes `uint_unpack` gives the number that the bytes
    -- of a width of 1, 2, 4 or 8 are in the order asked for.
    pub uint_unpack-reads :
        (size : ℕ)
        → IsWidth size
        → uint_unpack host_is_be img pos size is_be ≡ number_of is_be (bytes_at img pos size)
    unfolding uint_unpack
    uint_unpack-reads size (inl e) = rw e (one_byte is_be)
    uint_unpack-reads size (inr (inl e)) =
        let (le, be) = swaps2 pos u16swp u16swp_lem in
        rw e (made_up u16swp (bytes_at img pos 2) le be host_is_be is_be)
    uint_unpack-reads size (inr (inr (inl e))) = rw e (
        made_up u32swp first (u32swp_lem _ (small_le pos) ∙ swap_le pos)
          (u32swp_lem _ (small_be pos) ∙ swap_be pos) host_is_be is_be)
    uint_unpack-reads size (inr (inr (inr e))) = rw e (
        made_up u64swp bytes64 (u64swp_lem _ small_le64 ∙ swap_le64)
          (u64swp_lem _ small_be64 ∙ swap_be64) host_is_be is_be)

    -- On an image of bytes `int_unpack` gives the same number, extended by its sign.
    pub int_unpack-extends :
        (size : ℕ)
        → IsWidth size
        → int_unpack host_is_be img pos size is_be
          ≡ sign_extended (8 * size) (number_of is_be (bytes_at img pos size))
    unfolding int_unpack
    int_unpack-extends size (inl e) = rw e (ap (sign_extended 8) (one_byte is_be))
    int_unpack-extends size (inr (inl e)) =
        let (le, be) = swaps2 pos i16swp i16swp_lem in
        rw e (ap (sign_extended 16) (made_up i16swp (bytes_at img pos 2) le be host_is_be is_be))
    int_unpack-extends size (inr (inr (inl e))) = rw e (
        ap (sign_extended 32) (
          made_up i32swp first (i32swp_lem _ (small_le pos) ∙ swap_le pos)
            (i32swp_lem _ (small_be pos) ∙ swap_be pos) host_is_be is_be))
    int_unpack-extends size (inr (inr (inr e))) = rw e (
        made_up i64swp bytes64 (i64swp_lem _ small_le64 ∙ swap_le64)
          (i64swp_lem _ small_be64 ∙ swap_be64) host_is_be is_be
        ∙ extended64 _)

-- ===== src/Order.antt =====
-- tools/order.c, and the numbers that tools/common.c reads from an image in either byte order. A signed
-- number is its bit pattern, and `int_unpack` gives the pattern of an int64_t.
pub mod Swap
pub mod Wide
pub mod Unpack
mod Tests
use kpm_syscall_backtrace.Base.{
  ℕ, zero, suc, ◌+◌, ◌-◌, ◌*◌, ◌/◌, ◌%◌, ◌^◌, ◌==◌, bit_and, bit_or, ltb, leb, ◌&&◌, if◌then◌else◌,
  Bool, true, false, List, [], ◌∷◌,
}

-- `val >> k` of a signed number of `w` bits: the sign fills the upper bits.
abbrev pub sar : ℕ → ℕ → ℕ → ℕ
sar w val k = val / 2 ^ k + (if ltb val (2 ^ (w - 1)) then 0 else 2 ^ w - 2 ^ (w - k))

unfoldable pub u16swp : ℕ → ℕ
u16swp val = bit_or (val * 2 ^ 8 % 2 ^ 16) (val / 2 ^ 8)

unfoldable pub i16swp : ℕ → ℕ
i16swp val = bit_or (val * 2 ^ 8 % 2 ^ 16) (bit_and (sar 16 val 8) 0xFF)

unfoldable pub u32swp : ℕ → ℕ
u32swp val =
    let val' : ℕ =
      bit_or (bit_and (val * 2 ^ 8 % 2 ^ 32) 0xFF00FF00) (bit_and (val / 2 ^ 8) 0xFF00FF) in
    bit_or (val' * 2 ^ 16 % 2 ^ 32) (val' / 2 ^ 16)

unfoldable pub i32swp : ℕ → ℕ
i32swp val =
    let val' : ℕ =
      bit_or (bit_and (val * 2 ^ 8 % 2 ^ 32) 0xFF00FF00) (bit_and (sar 32 val 8) 0xFF00FF) in
    bit_or (val' * 2 ^ 16 % 2 ^ 32) (bit_and (sar 32 val' 16) 0xFFFF)

-- The two first steps of the swaps of 64 bits, where the number shifted to the right is given.
abbrev pub swap_bytes64 : ℕ → ℕ → ℕ
swap_bytes64 val right =
    bit_or (bit_and (val * 2 ^ 8 % 2 ^ 64) 0xFF00FF00FF00FF00) (bit_and right 0x00FF00FF00FF00FF)

abbrev pub swap_halves64 : ℕ → ℕ → ℕ
swap_halves64 val right =
    bit_or (bit_and (val * 2 ^ 16 % 2 ^ 64) 0xFFFF0000FFFF0000) (bit_and right 0x0000FFFF0000FFFF)

unfoldable pub u64swp : ℕ → ℕ
u64swp val =
    let val' : ℕ = swap_bytes64 val (val / 2 ^ 8) in
    let val'' : ℕ = swap_halves64 val' (val' / 2 ^ 16) in
    bit_or (val'' * 2 ^ 32 % 2 ^ 64) (val'' / 2 ^ 32)

unfoldable pub i64swp : ℕ → ℕ
i64swp val =
    let val' : ℕ = swap_bytes64 val (sar 64 val 8) in
    let val'' : ℕ = swap_halves64 val' (sar 64 val' 16) in
    bit_or (val'' * 2 ^ 32 % 2 ^ 64) (bit_and (sar 64 val'' 32) 0xFFFFFFFF)

-- The number of some bytes, the lowest first.
abbrev pub le_number : List ℕ → ℕ
le_number [] = 0
le_number (b ∷ bs) = b + 256 * le_number bs

-- The number of some bytes, the highest first, behind a number.
abbrev pub be_number : ℕ → List ℕ → ℕ
be_number high [] = high
be_number high (b ∷ bs) = be_number (256 * high + b) bs

-- The bytes of an image from a place on.
abbrev pub bytes_at : (ℕ → ℕ) → ℕ → ℕ → List ℕ
bytes_at img pos zero = []
bytes_at img pos (suc n) = img pos ∷ bytes_at img (suc pos) n

-- A store of 64 bits by the host.
abbrev pub store64 : Bool → (ℕ → ℕ) → ℕ → ℕ → ℕ → ℕ
store64 host_is_be img pos value i =
    if leb pos i && ltb i (pos + 8)
    then value / 256 ^ (if host_is_be then 7 - (i - pos) else i - pos) % 256
    else img i

-- What a value is sign-extended to, from `w` bits to 64.
abbrev pub sign_extended : ℕ → ℕ → ℕ
sign_extended w val = if ltb val (2 ^ (w - 1)) then val else val + (2 ^ 64 - 2 ^ w)

-- `is_be` of tools/order.h is a parameter: whether the host is big-endian.
module _ (host_is_be : Bool) where
  unfoldable pub u16le : ℕ → ℕ
  u16le val = if host_is_be then u16swp val else val

  unfoldable pub u16be : ℕ → ℕ
  u16be val = if host_is_be then val else u16swp val

  unfoldable pub u32le : ℕ → ℕ
  u32le val = if host_is_be then u32swp val else val

  unfoldable pub u32be : ℕ → ℕ
  u32be val = if host_is_be then val else u32swp val

  unfoldable pub u64le : ℕ → ℕ
  u64le val = if host_is_be then u64swp val else val

  unfoldable pub u64be : ℕ → ℕ
  u64be val = if host_is_be then val else u64swp val

  unfoldable pub i16le : ℕ → ℕ
  i16le val = if host_is_be then i16swp val else val

  unfoldable pub i16be : ℕ → ℕ
  i16be val = if host_is_be then val else i16swp val

  unfoldable pub i32le : ℕ → ℕ
  i32le val = if host_is_be then i32swp val else val

  unfoldable pub i32be : ℕ → ℕ
  i32be val = if host_is_be then val else i32swp val

  unfoldable pub i64le : ℕ → ℕ
  i64le val = if host_is_be then i64swp val else val

  unfoldable pub i64be : ℕ → ℕ
  i64be val = if host_is_be then val else i64swp val

  -- A load of the host.
  abbrev pub load : (ℕ → ℕ) → ℕ → ℕ → ℕ
  load img pos size =
      if host_is_be then be_number 0 (bytes_at img pos size) else le_number (bytes_at img pos size)

  abbrev pub differs : Bool → Bool
  differs is_be = if is_be then (if host_is_be then false else true) else host_is_be

  unfoldable pub uint_unpack : (ℕ → ℕ) → ℕ → ℕ → Bool → ℕ
  unfolding u16swp u32swp u64swp
  uint_unpack img pos size is_be =
      if size == 8
      then (if differs is_be then u64swp (load img pos 8) else load img pos 8)
      else if size == 4
      then (if differs is_be then u32swp (load img pos 4) else load img pos 4)
      else if size == 2
      then (if differs is_be then u16swp (load img pos 2) else load img pos 2)
      else img pos

  unfoldable pub int_unpack : (ℕ → ℕ) → ℕ → ℕ → Bool → ℕ
  unfolding i16swp i32swp i64swp
  int_unpack img pos size is_be =
      if size == 8
      then (if differs is_be then i64swp (load img pos 8) else load img pos 8)
      else if size == 4
      then sign_extended 32 (if differs is_be then i32swp (load img pos 4) else load img pos 4)
      else if size == 2
      then sign_extended 16 (if differs is_be then i16swp (load img pos 2) else load img pos 2)
      else sign_extended 8 (img pos)

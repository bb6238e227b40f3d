-- ===== src/Kallsym/Search.antt =====
-- The searches of tools/kallsym.c for the banner, the token table and the token index.
use kpm_syscall_backtrace.Base.{
  ℕ, zero, suc, ◌+◌, ◌-◌, ◌*◌, ◌/◌, ◌%◌, ◌^◌, ◌==◌, ltb, leb, if◌then◌else◌, Bool, true, false,
  ◌&&◌, ◌||◌, not, Option, none, some, List, [], ◌∷◌, length, codes,
}
use kpm_syscall_backtrace.Kallsym.{Info, ksym_token_nums}

-- `memcmp` of the bytes at a place and some bytes is 0.
abbrev pub fits : (ℕ → ℕ) → ℕ → List ℕ → Bool
fits img pos [] = true
fits img pos (b ∷ bs) = img pos == b && fits img (suc pos) bs

-- The first of some places where the bytes stand.
abbrev pub first_fit : (ℕ → ℕ) → List ℕ → ℕ → ℕ → Option ℕ
first_fit img needle pos zero = none
first_fit img needle pos (suc n) =
    let rest = first_fit img needle (suc pos) n in if fits img pos needle then some pos else rest

-- `memmem` of the `len` bytes at a place.
unfoldable pub memmem : (ℕ → ℕ) → ℕ → ℕ → List ℕ → Option ℕ
memmem img pos len needle = first_fit img needle pos (suc len - length needle)

abbrev pub is_digit : ℕ → Bool
is_digit c = leb b'0' c && leb c b'9'

abbrev pub banner_prefix : List ℕ
banner_prefix = codes "Linux version "

abbrev pub ulong_max : ℕ
ulong_max = 2 ^ 64 - 1

-- `patch <= 256 ? patch : 255`, of an int32_t, in a uint8_t.
abbrev pub patch_of : ℕ → ℕ
patch_of value =
    let patch : ℕ = value % 2 ^ 32 in
    if leb patch 256 || leb (2 ^ 31) patch then patch % 256 else 255

abbrev pub last_of : List ℕ → Option ℕ
last_of [] = none
last_of (x ∷ xs) = elim xs [ [] ↦ some x | ◌∷◌ y ys ↦ last_of xs ]

-- `n` letters from `c` on, each before a 0.
abbrev pub letters : ℕ → ℕ → List ℕ
letters zero c = []
letters (suc n) c = c ∷ 0 ∷ letters n (suc c)

abbrev pub align4 : ℕ → ℕ
align4 offset = (offset + 3) / 4 * 4

-- The bytes of the index in either order: 16 bits for each token, its place in the table.
abbrev pub index_bytes : Bool → ℕ → List ℕ → List ℕ
index_bytes is_be start [] = []
index_bytes is_be start (place ∷ places) =
    let low : ℕ = (place - start) % 256 in
    let high : ℕ = (place - start) / 256 % 256 in
    (if is_be then high else low) ∷ (if is_be then low else high) ∷ index_bytes is_be start places

module _ (img : ℕ → ℕ) (imglen : ℕ) where
  -- The places behind one where a banner begins. The array of the code has room for four of them.
  unfoldable pub banners_from : ℕ → ℕ → List ℕ
  unfolding memmem
  banners_from zero banner = []
  banners_from (suc fuel) banner =
      elim (memmem img (suc banner) (imglen - banner - 1) banner_prefix) [
        | none ↦ []
        | some next ↦
            let rest = banners_from fuel next in
            if is_digit (img (next + 14)) && img (next + 15) == b'.' then next ∷ rest else rest
      ]

  -- `strtoul` where digits stand: the number, and the place behind them.
  unfoldable pub number_from : ℕ → ℕ → ℕ → ℕ × ℕ
  number_from zero pos value = (value, pos)
  number_from (suc fuel) pos value =
      let rest = number_from fuel (suc pos) (10 * value + (img pos - b'0')) in
      if is_digit (img pos) then rest else (value, pos)

  unfoldable pub strtoul : ℕ → ℕ × ℕ
  unfolding number_from
  strtoul pos =
      let (value, end) = number_from imglen pos 0 in
      (if ltb ulong_max value then ulong_max else value, end)

  -- The version behind the last banner; `none` is a read before the array, where there is no banner.
  unfoldable pub find_linux_banner : Info → Option Info
  unfolding banners_from strtoul
  find_linux_banner info =
      let banners = banners_from imglen 0 in
      elim (last_of banners) [
        | none ↦ none
        | some banner ↦
            let (major, dot) = strtoul (banner + 14) in
            let (minor, dot') = strtoul (suc dot) in
            let (patch, _) = strtoul (suc dot') in
            some (record info {
              linux_banner_offset = banners;
              major = major % 256;
              minor = minor % 256;
              patch = patch_of patch;
            })
      ]

  unfoldable pub kernel_if_need_patch : Info → Option Bool
  unfolding find_linux_banner
  kernel_if_need_patch info = elim (find_linux_banner info) [
    | none ↦ none
    | some info' ↦ some (not (ltb info'.major 6) && not (ltb info'.minor 7))
  ]

  -- The place behind the `n`-th 0, or the end.
  unfoldable pub behind_zeros : ℕ → ℕ → ℕ → ℕ
  behind_zeros zero n pos = pos
  behind_zeros (suc fuel) n pos =
      let rest = behind_zeros fuel (if img pos == 0 then n - 1 else n) (suc pos) in
      if leb imglen pos || n == 0 then pos else rest

  -- The same backwards, to the place before the `n`-th 0.
  unfoldable pub before_zeros : ℕ → ℕ → ℕ
  before_zeros n zero = 0
  before_zeros n (suc pos) =
      let rest = before_zeros (if img (suc pos) == 0 then n - 1 else n) pos in
      if n == 0 then suc pos else rest

  -- The tests on the place of the digits: two bytes behind them, and the letters 39 zeros later.
  abbrev pub is_token_table : ℕ → Bool
  is_token_table num_start =
      not (img (num_start + 20) == 0)
      && not (img (num_start + 21) == 0)
      && fits img (behind_zeros imglen 39 (num_start + 20)) (letters 10 b'a')

  -- The first place from `pos` on that passes; `none` is -1.
  unfoldable pub digits_from : ℕ → ℕ → Option ℕ
  unfolding memmem behind_zeros
  digits_from zero pos = none
  digits_from (suc fuel) pos = elim (memmem img pos (imglen - pos) (letters 10 b'0')) [
    | none ↦ none
    | some num_start ↦
        let rest = digits_from fuel (suc num_start) in
        if is_token_table num_start then some num_start else rest
  ]

  -- The place behind the string at a place.
  unfoldable pub behind_string : ℕ → ℕ → ℕ
  behind_string zero pos = pos
  behind_string (suc fuel) pos =
      let rest = behind_string fuel (suc pos) in if img pos == 0 then suc pos else rest

  -- The places of `n` strings in a row.
  unfoldable pub token_places : ℕ → ℕ → List ℕ
  unfolding behind_string
  token_places zero pos = []
  token_places (suc n) pos = pos ∷ token_places n (behind_string imglen pos)

  unfoldable pub find_token_table : Info → Option Info
  unfolding digits_from before_zeros token_places
  find_token_table info = elim (digits_from (suc imglen) 0) [
    | none ↦ none
    | some num_start ↦
        let offset = align4 (before_zeros 49 num_start + 2) in
        some (record info {
          token_table_offset = offset;
          tokens = token_places ksym_token_nums offset;
        })
  ]

  -- `token_index`, which the code builds from the table again, is the place of a token behind the start.
  unfoldable pub find_token_index : Info → Option Info
  find_token_index info =
      let start : ℕ = info.token_table_offset in
      let places = token_places ksym_token_nums start in
      elim (memmem img 0 imglen (index_bytes false start places)) [
        | some pos ↦ some (record info { token_index_offset = pos; is_be = false })
        | none ↦ elim (memmem img 0 imglen (index_bytes true start places)) [
          | some pos ↦ some (record info { token_index_offset = pos; is_be = true })
          | none ↦ none
        ]
      ]

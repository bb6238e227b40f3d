-- ===== src/Kallsym/Table.antt =====
-- What the functions of tools/kallsym.c read of a name, where the image holds one.
use kpm_syscall_backtrace.Base.{
  ℕ, suc, ◌+◌, ◌*◌, ◌/◌, ◌%◌, ◌^◌, ◌<◌, ◌≡◌, ◌==◌, refl, arith, if◌then◌else◌, bit_and, ltb, leb,
  Bool-cases, true, false, some, inl, inr, List, [], ◌∷◌, ◌++◌, length, map, ◌||◌,
}
use kpm_syscall_backtrace.Base.Bits.{bit_and-mask}
use kpm_syscall_backtrace.Kallsym.{Info}
use kpm_syscall_backtrace.Kallsym.Names.{
  name_len, string_at, token_place, tokens_from, name_tokens, joined, decompress_symbol_name,
}

-- The bytes of a number of tokens.
abbrev pub len_bytes : ℕ → List ℕ
len_bytes len = if ltb 0x7F len then (128 + len % 128) ∷ (len / 128) ∷ [] else len ∷ []

-- A name is the list of the bytes of its tokens.
abbrev pub encoded : List ℕ → List ℕ
encoded name = len_bytes (length name) ++ name

-- The image holds some bytes from a place on.
abbrev pub Holds : (ℕ → ℕ) → ℕ → List ℕ → Type 0
Holds img pos [] = Unit {0}
Holds img pos (b ∷ bs) = (img pos ≡ b) × Holds img (suc pos) bs

module _ (img : ℕ → ℕ) where
  long_len :
      (pos len : ℕ)
      → 127 < len
      → len < 512
      → img pos ≡ 128 + len % 128
      → img (suc pos) ≡ len / 128
      → name_len img pos ≡ (len, suc (suc pos))
  unfolding name_len
  long_len pos len large small e e' =
      let big : ltb 0x7F (img pos) ≡ true = ground arith in
      let value : bit_and (img pos) 0x7F + img (suc pos) * 2 ^ 7 ≡ len =
        ground (arith, bit_and-mask 7 (img pos)) in
      rw (big, value) refl

  short_len : (pos len : ℕ) → len < 128 → img pos ≡ len → name_len img pos ≡ (len, suc pos)
  unfolding name_len
  short_len pos len small e =
      let not_big : ltb 0x7F (img pos) ≡ false = ground arith in rw (not_big, e) refl

  name_len-encoded :
      (pos : ℕ) (name : List ℕ)
      → length name < 512
      → Holds img pos (encoded name)
      → (p : ℕ) × (name_len img pos ≡ (length name, p))
        × (p + length name ≡ pos + length (encoded name))
        × Holds img p name
  name_len-encoded pos name small holds = elim (Bool-cases (ltb 0x7F (length name))) [
    | inl e ↦
        let h = rw e at holds in
        (
          suc (suc pos),
          long_len pos (length name) (ground arith) small h.0 h.1.0,
          rw e (omega arith),
          h.1.1,
        )
    | inr e ↦
        let h = rw e at holds in
        (suc pos, short_len pos (length name) (ground arith) h.0, rw e (omega arith), h.1)
  ]

module _ (img : ℕ → ℕ) (imglen : ℕ) (info : Info) where
  -- The text of a token.
  abbrev pub token : ℕ → List ℕ
  token b = string_at img imglen (token_place img imglen info b)

  -- The name that some tokens stand for: their texts, the first without its letter for the type.
  abbrev pub expanded : List ℕ → List ℕ
  expanded [] = []
  expanded (b ∷ bs) =
      string_at img imglen (suc (token_place img imglen info b)) ++ joined (map token bs)

  tokens_from-Holds :
      (p : ℕ) (bs : List ℕ)
      → Holds img p bs
      → tokens_from img imglen info p (length bs) ≡ map token bs
  tokens_from-Holds p [] h = refl
  tokens_from-Holds p (b ∷ bs) (here, h) = rw (here, tokens_from-Holds (suc p) bs h) refl

  name_tokens-Holds :
      (p : ℕ) (bs : List ℕ)
      → Holds img p bs
      → joined (name_tokens img imglen info p (length bs)) ≡ expanded bs
  name_tokens-Holds p [] h = refl
  name_tokens-Holds p (b ∷ bs) (here, h) = rw (here, tokens_from-Holds (suc p) bs h) refl

  pub decompress-encoded :
      (pos : ℕ) (name : List ℕ)
      → 0 < length name
      → length name < 512
      → Holds img pos (encoded name)
      → (type : ℕ) × (decompress_symbol_name img imglen info pos
          ≡ some (pos + length (encoded name), type, expanded name))
  unfolding decompress_symbol_name
  decompress-encoded pos name some_tokens small holds =
      let (p, len, place, there) = name_len-encoded img pos name small holds in
      let accepted : (length name == 0 || leb 512 (length name)) ≡ false = ground arith in
      (
        img (token_place img imglen info (img p)),
        rw (len, accepted, place, name_tokens-Holds p name there) refl,
      )

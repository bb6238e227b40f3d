-- ===== src/Predata/Auth.antt =====
-- Which keys auth_superkey of kernel/base/predata.c accepts.
use kpm_syscall_backtrace.Base.{
  c_string, same, ℕ, zero, suc, ◌==◌, ◌≡◌, ◌⊎◌, refl, ap, ◌∙◌, arith, inl, inr, bit_or, Bool-cases,
  true, List, [], ◌∷◌, take,
}
use Prim.Native.Nat.{bit_xor}
use kpm_syscall_backtrace.Base.Bits.{bit_or_zero, bit_xor_zero, bit_xor_self, zero-bit_or}
use kpm_syscall_backtrace.Predata.{
  Keys, super_key_len, byte_of, rest_of, compare_keys, reset_superkey, auth_superkey,
}

-- What lies in memory begins with the bytes of the superkey.
abbrev pub BeginsWith : List ℕ → List ℕ → Type 0
BeginsWith [] key = Unit {0}
BeginsWith (c ∷ superkey) key = (c ≡ byte_of key) × BeginsWith superkey (rest_of key)

compare_keys-sticky :
    (rc : ℕ) (superkey key : List ℕ)
    → compare_keys rc superkey key ≡ 0
    → (rc ≡ 0) × BeginsWith superkey key
unfolding compare_keys
compare_keys-sticky rc [] key e = (e, tt)
compare_keys-sticky rc (c ∷ superkey) key e =
    let rest = compare_keys-sticky (bit_or rc (bit_xor c (byte_of key))) superkey (rest_of key) e in
    let both = bit_or_zero rc (bit_xor c (byte_of key)) rest.0 in
    (both.0, (bit_xor_zero c (byte_of key) both.1, rest.1))

compare_keys-zero :
    (superkey key : List ℕ) → BeginsWith superkey key → compare_keys 0 superkey key ≡ 0
unfolding compare_keys
compare_keys-zero [] key begins = refl
compare_keys-zero (c ∷ superkey) key begins =
    rw (begins.0, bit_xor_self (byte_of key), zero-bit_or 0, compare_keys)
      (compare_keys-zero superkey (rest_of key) begins.1)

-- The hash that is allowed in is the root key's.
abbrev pub IsRoot : (List ℕ → List ℕ) → Keys → List ℕ → Type 0
IsRoot sha256 keys key =
    (keys.enable_root_key ≡ true)
    × (same keys.root_superkey (sha256 (take super_key_len (c_string key))) ≡ true)

module _ (sha256 : List ℕ → List ℕ) (keys : Keys) (key : List ℕ) where
  -- A key is accepted if what lies in memory begins with the superkey, whatever follows, or if root keys
  -- are enabled and its hash is that of the root key; any other is refused, and changes nothing.
  pub auth_superkey-Decides :
      ((((auth_superkey sha256 keys key).0 ≡ 0)
        × (BeginsWith keys.superkey key ⊎ IsRoot sha256 keys key)))
      ⊎ ((auth_superkey sha256 keys key ≡ (1, keys))
          × (¬ BeginsWith keys.superkey key)
          × ¬ IsRoot sha256 keys key)
  unfolding auth_superkey
  auth_superkey-Decides = elim (Bool-cases (compare_keys 0 keys.superkey key == 0)) [
    | inl e ↦
        let begins = compare_keys-sticky 0 keys.superkey key (ground (arith, e)) in
        rw (e, auth_superkey) (inl (refl, inl begins.1))
    | inr e ↦
        let not_begins : ¬ BeginsWith keys.superkey key =
          λ b. ground (arith, e, compare_keys-zero keys.superkey key b) in
        rw (e, auth_superkey) (ground (arith, not_begins))
  ]

  auth_superkey-keeps : BeginsWith keys.superkey key → auth_superkey sha256 keys key ≡ (0, keys)
  unfolding auth_superkey
  auth_superkey-keeps begins = rw (compare_keys-zero keys.superkey key begins, auth_superkey) refl

-- A key begins with its own text, as far as the buffer keeps it.
BeginsWith-text : (n : ℕ) (key : List ℕ) → BeginsWith (take n (c_string key)) key
BeginsWith-text zero key = tt
BeginsWith-text (suc n) [] = tt
BeginsWith-text (suc n) (c ∷ key) = elim (Bool-cases (c == 0)) [
  | inl e ↦ rw e tt
  | inr e ↦ rw e (refl, BeginsWith-text n key)
]

auth_superkey-state :
    (sha256 : List ℕ → List ℕ) (keys : Keys) (key : List ℕ)
    → let keys' = (auth_superkey sha256 keys key).1 in
      (keys' ≡ keys) ⊎ (keys'.superkey ≡ take 63 (c_string key))
unfolding auth_superkey reset_superkey
auth_superkey-state sha256 keys key = elim (Bool-cases (compare_keys 0 keys.superkey key == 0)) [
  | inl e ↦ rw (e, auth_superkey) (inl refl)
  | inr e ↦
      elim (Bool-cases (same keys.root_superkey (sha256 (take super_key_len (c_string key))))) [
        | inl s ↦ rw (e, s, auth_superkey) (ground arith)
        | inr s ↦ rw (e, s, auth_superkey) (ground arith)
      ]
]

-- A key that is accepted is accepted again with the keys that this leaves: also the root key, which becomes
-- the superkey when it is shown for the first time.
pub auth_superkey-again :
    (sha256 : List ℕ → List ℕ) (keys : Keys) (key : List ℕ)
    → (auth_superkey sha256 keys key).0 ≡ 0
    → (auth_superkey sha256 (auth_superkey sha256 keys key).1 key).0 ≡ 0
auth_superkey-again sha256 keys key accepted = elim (auth_superkey-state sha256 keys key) [
  | inl kept ↦ ap (λ k. (auth_superkey sha256 k key).0) kept ∙ accepted
  | inr reset ↦
      let keys' = (auth_superkey sha256 keys key).1 in
      let begins : BeginsWith keys'.superkey key = rw reset (BeginsWith-text 63 key) in
      ap (λ r. r.0) (auth_superkey-keeps sha256 keys' key begins)
]

-- ===== src/Process/Bounds.antt =====
-- process_memory_read_hex of process_memory.c stays inside its output.
use kpm_syscall_backtrace.Base.{
  ℕ, zero, suc, ◌+◌, ◌-◌, ◌%◌, ◌^◌, ◌<◌, ◌≤◌, ◌==◌, ◌≡◌, refl, ◌∙◌, arith, ltb, if◌then◌else◌, Bool,
  Bool-cases, true, false, not, ◌||◌, ◌⊎◌, inl, inr, List, [], ◌∷◌, take,
}
use kpm_syscall_backtrace.Breakpoint.{Errno, Result, index, fails}
use kpm_syscall_backtrace.PageTable.{store}
use kpm_syscall_backtrace.PageTable.Laws.{store_other}
use kpm_syscall_backtrace.Process.{Functions, Answers, max_read_size, process_memory_read}
use kpm_syscall_backtrace.Process.Hex.{
  hex_text, put_string, snprintf, format_hex, end_hex, process_memory_read_hex,
}

-- The number of bytes that snprintf is told, inside the output.
pub room_in :
    (out_size pos : ℕ)
    → pos ≤ out_size
    → out_size < 2 ^ 64
    → (out_size + 2 ^ 64 - pos) % 2 ^ 64 ≡ out_size - pos
room_in out_size pos inside small = omega (arith, inside, small)

take-nil : (n : ℕ) → take {A = ℕ} n [] ≡ []
take-nil zero = refl
take-nil (suc n) = refl

pub Result-cases : (r : Result) → ((e : Errno) × (r ≡ fails e)) ⊎ ((n : ℕ) × (r ≡ index n))
Result-cases (fails e) = inl (e, refl)
Result-cases (index n) = inr (n, refl)

-- The text of a byte and its terminator fit: what the call of snprintf writes.
pub snprintf-hex :
    (mem : ℕ → ℕ) (pos size a b c : ℕ)
    → 4 ≤ size
    → snprintf mem pos size (a ∷ b ∷ c ∷ []) ≡ put_string mem pos (a ∷ b ∷ c ∷ [])
unfolding snprintf
snprintf-hex mem pos zero a b c long = absurd (omega (arith, long))
snprintf-hex mem pos (suc zero) a b c long = absurd (omega (arith, long))
snprintf-hex mem pos (suc (suc zero)) a b c long = absurd (omega (arith, long))
snprintf-hex mem pos (suc (suc (suc zero))) a b c long = absurd (omega (arith, long))
snprintf-hex mem pos (suc (suc (suc (suc n)))) a b c long =
    let some_room : (suc (suc (suc (suc n))) == 0) ≡ false = ground arith in
    let less : suc (suc (suc (suc n))) - 1 ≡ suc (suc (suc n)) = omega arith in
    rw (some_room, less, take-nil n) refl

put_string-outside :
    (mem : ℕ → ℕ) (pos a b c x : ℕ) → pos + 3 < x → put_string mem pos (a ∷ b ∷ c ∷ []) x ≡ mem x
unfolding put_string
put_string-outside mem pos a b c x far = omega (
  arith,
  far,
  store_other (store (store (store mem pos a) (suc pos) b) (suc (suc pos)) c) (suc (suc (suc pos)))
      0 x,
  store_other (store (store mem pos a) (suc pos) b) (suc (suc pos)) c x,
  store_other (store mem pos a) (suc pos) b x,
  store_other mem pos a x,
)

module _ (out_size : ℕ) (enough : 3 ≤ out_size) (small : out_size < 2 ^ 64) where
  -- What the loop does while there is room: it goes on three places further.
  pub format_hex-step :
      (mem : ℕ → ℕ) (pos byte : ℕ) (bytes : List ℕ)
      → pos + 3 < out_size
      → format_hex out_size mem pos (byte ∷ bytes)
        ≡ format_hex out_size (put_string mem pos (hex_text byte)) (pos + 3) bytes
  unfolding format_hex
  format_hex-step mem pos byte bytes room =
      let more : ltb pos ((out_size + 2 ^ 64 - 3) % 2 ^ 64) ≡ true = ground (arith, room, small) in
      let size : (out_size + 2 ^ 64 - pos) % 2 ^ 64 ≡ out_size - pos = omega (arith, room, small) in
      rw (more, size, snprintf-hex mem pos (out_size - pos) _ _ _ (omega (arith, room)), format_hex)
        refl

  format_hex-full :
      (mem : ℕ → ℕ) (pos byte : ℕ) (bytes : List ℕ)
      → out_size ≤ pos + 3
      → format_hex out_size mem pos (byte ∷ bytes) ≡ (mem, pos)
  unfolding format_hex
  format_hex-full mem pos byte bytes full =
      let no_more : ltb pos ((out_size + 2 ^ 64 - 3) % 2 ^ 64) ≡ false =
        ground (arith, full, small, enough) in
      rw (no_more, format_hex) refl

  format_hex-outside :
      (mem : ℕ → ℕ) (pos x : ℕ) (bytes : List ℕ)
      → pos < out_size
      → out_size ≤ x
      → let r = format_hex out_size mem pos bytes in (r.0 x ≡ mem x) × (r.1 < out_size)
  unfolding format_hex
  format_hex-outside mem pos x [] inside out = (refl, inside)
  format_hex-outside mem pos x (byte ∷ bytes) inside out =
      elim (Bool-cases (ltb (pos + 3) out_size)) [
        | inl e ↦
            let room : pos + 3 < out_size = ground (arith, e) in
            let rest =
              format_hex-outside (put_string mem pos (hex_text byte)) (pos + 3) x bytes room out in
            rw (format_hex-step mem pos byte bytes room)
              (rest.0 ∙ put_string-outside mem pos _ _ _ x (omega (arith, room, out)), rest.1)
        | inr e ↦ rw (format_hex-full mem pos byte bytes (ground (arith, e))) (refl, inside)
      ]

  end_hex-outside :
      (mem : ℕ → ℕ) (pos x : ℕ) → pos < out_size → out_size ≤ x → end_hex (mem, pos) x ≡ mem x
  unfolding end_hex
  end_hex-outside mem pos x inside out =
      ground (arith, store_other mem (pos - 1) 0 x, store_other mem pos 0 x)

  -- With an output of at least 3 bytes, the function changes no byte past the output, whatever it reads.
  pub read_hex-outside :
      (f : Functions) (a : Answers) (addr : ℕ) (out : Bool) (mem : ℕ → ℕ) (read_size : ℕ)
      (bytes : List ℕ) (x : ℕ)
      → out_size ≤ x
      → (process_memory_read_hex f a addr out mem out_size read_size bytes).1 x ≡ mem x
  unfolding process_memory_read_hex
  read_hex-outside f a addr out mem read_size bytes x past =
      let size = if ltb max_read_size read_size then max_read_size else read_size in
      elim (Bool-cases (not out || out_size == 0)) [
        | inl e ↦ rw (e, process_memory_read_hex) refl
        | inr e ↦ elim (Result-cases (process_memory_read f a addr true size).0) [
          | inl (err, r) ↦ rw (e, r, process_memory_read_hex) refl
          | inr (n, r) ↦
              let loop = format_hex-outside mem 0 x (take n bytes) (omega (arith, enough)) past in
              rw (e, r, process_memory_read_hex)
                (end_hex-outside (format_hex out_size mem 0 (take n bytes)).0 _ x loop.1 past
                  ∙ loop.0)
        ]
      ]

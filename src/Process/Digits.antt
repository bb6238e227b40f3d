-- ===== src/Process/Digits.antt =====
-- The bytes that process_memory_read_hex of process_memory.c prints, read back.
use kpm_syscall_backtrace.Base.{
  ℕ, zero, suc, ◌+◌, ◌-◌, ◌*◌, ◌/◌, ◌%◌, ◌^◌, ◌<◌, ◌≤◌, ◌==◌, ◌≡◌, refl, sym, ap, ◌∙◌, arith, ltb,
  true, false, some, List, [], ◌∷◌, take, length, get_elem?, get_elem?-lt,
}
use kpm_syscall_backtrace.Breakpoint.{index}
use kpm_syscall_backtrace.PageTable.{store}
use kpm_syscall_backtrace.PageTable.Laws.{store_other}
use kpm_syscall_backtrace.Control.Parse.{hex_value}
use kpm_syscall_backtrace.Process.{Functions, Answers, max_read_size, process_memory_read}
use kpm_syscall_backtrace.Process.Hex.{
  hex_digit, hex_text, put_string, format_hex, end_hex, process_memory_read_hex,
}
use kpm_syscall_backtrace.Process.Bounds.{format_hex-step}

-- The two digits at a place, read as the module reads the numbers of a command.
abbrev pub byte_at : (ℕ → ℕ) → ℕ → ℕ
byte_at mem pos = hex_value (mem pos) * 16 + hex_value (mem (pos + 1))

hex_value-hex_digit : (d : ℕ) → d < 16 → hex_value (hex_digit d) ≡ d
unfolding hex_value hex_digit
hex_value-hex_digit d small = ground arith

put_string-text :
    (mem : ℕ → ℕ) (pos a b c : ℕ)
    → let r = put_string mem pos (a ∷ b ∷ c ∷ []) in
      (r pos ≡ a) × (r (pos + 1) ≡ b) × (r (pos + 2) ≡ c)
unfolding put_string store
put_string-text mem pos a b c = ground arith

put_string-before :
    (mem : ℕ → ℕ) (pos a b c x : ℕ) → x < pos → put_string mem pos (a ∷ b ∷ c ∷ []) x ≡ mem x
unfolding put_string store
put_string-before mem pos a b c x less = ground arith

module _ (out_size : ℕ) (small : out_size < 2 ^ 64) where
  format_hex-before :
      (mem : ℕ → ℕ) (pos : ℕ) (bytes : List ℕ) (x : ℕ)
      → pos + 3 * length bytes < out_size
      → x < pos
      → (format_hex out_size mem pos bytes).0 x ≡ mem x
  unfolding format_hex
  format_hex-before mem pos [] x room less = refl
  format_hex-before mem pos (byte ∷ bytes) x room less =
      let rest =
        format_hex-before (put_string mem pos (hex_text byte)) (pos + 3) bytes x
          (omega (arith, room)) (omega (arith, less)) in
      rw
        (format_hex-step out_size (omega (arith, room)) small mem pos byte bytes
          (omega (arith, room)))
        (rest ∙ put_string-before mem pos _ _ _ x less)

  format_hex-end :
      (mem : ℕ → ℕ) (pos : ℕ) (bytes : List ℕ)
      → pos + 3 * length bytes < out_size
      → (format_hex out_size mem pos bytes).1 ≡ pos + 3 * length bytes
  unfolding format_hex
  format_hex-end mem pos [] room = omega arith
  format_hex-end mem pos (byte ∷ bytes) room =
      let rest =
        format_hex-end (put_string mem pos (hex_text byte)) (pos + 3) bytes (omega (arith, room)) in
      rw
        (format_hex-step out_size (omega (arith, room)) small mem pos byte bytes
          (omega (arith, room)))
        (omega (arith, rest))

  hex_text-byte :
      (mem : ℕ → ℕ) (pos byte : ℕ)
      → byte < 256
      → byte_at (put_string mem pos (hex_text byte)) pos ≡ byte
  unfolding hex_text
  hex_text-byte mem pos byte less =
      let text = put_string-text mem pos (hex_digit (byte / 16)) (hex_digit (byte % 16)) b' ' in
      rw
        (
          text.0,
          text.1,
          hex_value-hex_digit (byte / 16) (omega (arith, less)),
          hex_value-hex_digit (byte % 16) (omega arith),
        )
        (omega arith)

  format_hex-byte :
      (mem : ℕ → ℕ) (pos : ℕ) (bytes : List ℕ) (i byte : ℕ)
      → pos + 3 * length bytes < out_size
      → get_elem? bytes i ≡ some byte
      → byte < 256
      → byte_at (format_hex out_size mem pos bytes).0 (pos + 3 * i) ≡ byte
  format_hex-byte mem pos [] i byte room is less = cc
  format_hex-byte mem pos (b ∷ bytes) zero byte room is less =
      let first = put_string mem pos (hex_text b) in
      let left = format_hex-before first (pos + 3) bytes pos (omega (arith, room)) (omega arith) in
      let right =
        format_hex-before first (pos + 3) bytes (pos + 1) (omega (arith, room)) (omega arith) in
      let place : pos + 3 * 0 ≡ pos = omega arith in
      let same : b ≡ byte = ground (arith, is) in
      rw
        (
          format_hex-step out_size (omega (arith, room)) small mem pos b bytes
              (omega (arith, room)),
          place,
          left,
          right,
          same,
        )
        (hex_text-byte mem pos byte less)
  format_hex-byte mem pos (b ∷ bytes) (suc i) byte room is less =
      let first = put_string mem pos (hex_text b) in
      let rest = format_hex-byte first (pos + 3) bytes i byte (omega (arith, room)) is less in
      let place : pos + 3 * suc i ≡ pos + 3 + 3 * i = omega arith in
      rw
        (
          format_hex-step out_size (omega (arith, room)) small mem pos b bytes
              (omega (arith, room)),
          place,
        )
        rest

  end_hex-other : (mem : ℕ → ℕ) (pos x : ℕ) → x + 1 < pos → end_hex (mem, pos) x ≡ mem x
  unfolding end_hex
  end_hex-other mem pos x less =
      ground (arith, less, store_other mem (pos - 1) 0 x, store_other mem pos 0 x)

  -- When the process is read and the output has more than 3 bytes for each byte read, each byte stands
  -- in the output as two digits, which read back as the byte.
  pub read_hex-byte :
      (f : Functions) (a : Answers) (addr : ℕ) (mem : ℕ → ℕ) (read_size n : ℕ) (bytes : List ℕ)
      (i byte : ℕ)
      → read_size ≤ max_read_size
      → (process_memory_read f a addr true read_size).0 ≡ index n
      → 3 * length (take n bytes) < out_size
      → get_elem? (take n bytes) i ≡ some byte
      → byte < 256
      → let r = process_memory_read_hex f a addr true mem out_size read_size bytes in
        (r.0 ≡ index n) × (byte_at r.1 (3 * i) ≡ byte)
  unfolding process_memory_read_hex
  read_hex-byte f a addr mem read_size n bytes i byte fits read room is less =
      let size : ltb max_read_size read_size ≡ false = ground (arith, fits) in
      let there : (out_size == 0) ≡ false = ground (arith, room) in
      let loop = format_hex out_size mem 0 (take n bytes) in
      let room' : 0 + 3 * length (take n bytes) < out_size = omega (arith, room) in
      let place : 0 + 3 * i ≡ 3 * i = omega arith in
      let at : byte_at loop.0 (3 * i) ≡ byte =
        ap (byte_at loop.0) (sym place)
        ∙ format_hex-byte mem 0 (take n bytes) i byte room' is less in
      let stop = format_hex-end mem 0 (take n bytes) room' in
      let inside = get_elem?-lt (take n bytes) i byte is in
      rw (there, size, read, process_memory_read_hex)
        (
          refl,
          rw
              (
                end_hex-other loop.0 loop.1 (3 * i) (omega (arith, stop, inside)),
                end_hex-other loop.0 loop.1 (3 * i + 1) (omega (arith, stop, inside)),
              )
              at,
        )

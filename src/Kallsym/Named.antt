-- ===== src/Kallsym/Named.antt =====
-- What find_names of tools/kallsym.c has found when it succeeds, in terms of the bytes of the image.
use kpm_syscall_backtrace.Base.{ℕ, zero, suc, ◌+◌, ◌*◌, ◌%◌, ◌^◌, ◌<◌, if◌then◌else◌, ltb, Bool}
use kpm_syscall_backtrace.Order.{bytes_at}
use kpm_syscall_backtrace.Order.Unpack.{number_of}
use kpm_syscall_backtrace.Kallsym.{Info, get_markers_elem_size}

module _ (img : ℕ → ℕ) where
  -- The number of tokens of the name at a place: one byte below 128, or seven bits and the byte behind them;
  -- and the place behind the name.
  abbrev pub tokens_at : ℕ → ℕ
  tokens_at pos = if ltb (img pos) 128 then img pos else img pos % 128 + 128 * img (suc pos)

  abbrev pub end_of : ℕ → ℕ
  end_of pos = if ltb (img pos) 128 then pos + 1 + tokens_at pos else pos + 2 + tokens_at pos

  -- The place of the `n`-th name from a place on.
  abbrev pub place_of : ℕ → ℕ → ℕ
  place_of cand zero = cand
  place_of cand (suc n) = end_of (place_of cand n)

module _ (host_is_be : Bool) (img : ℕ → ℕ) (imglen : ℕ) (info : Info) where
  -- A name of 1 to 511 tokens that ends before the markers.
  abbrev pub IsName : ℕ → Type 0
  IsName pos =
      (0 < tokens_at img pos) × (tokens_at img pos < 512) × (end_of img pos < info.markers_offset)

  -- The marker with a number, as the bytes of the image say.
  abbrev pub marker_at : ℕ → ℕ
  marker_at m =
      let size : ℕ = get_markers_elem_size info in
      number_of info.is_be (bytes_at img (info.markers_offset + m * size) size) % 2 ^ 32

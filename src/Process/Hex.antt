-- ===== src/Process/Hex.antt =====
-- process_memory_read_hex of process_memory.c. The memory from `out` on is a function of the distance
-- from there.
use kpm_syscall_backtrace.Base.{
  ℕ, suc, ◌+◌, ◌-◌, ◌/◌, ◌%◌, ◌^◌, ◌==◌, ltb, if◌then◌else◌, Bool, true, not, ◌&&◌, ◌||◌, List, [],
  ◌∷◌, take,
}
use kpm_syscall_backtrace.Breakpoint.{einval, Result, index, fails}
use kpm_syscall_backtrace.PageTable.{store}
use kpm_syscall_backtrace.Process.{Functions, Answers, max_read_size, process_memory_read}

-- A digit of "%02x".
unfoldable pub hex_digit : ℕ → ℕ
hex_digit d = if ltb d 10 then b'0' + d else b'a' + d - 10

-- A string and its terminator, from a place on.
unfoldable pub put_string : (ℕ → ℕ) → ℕ → List ℕ → ℕ → ℕ
unfolding store
put_string mem pos [] = store mem pos 0
put_string mem pos (c ∷ text) = put_string (store mem pos c) (suc pos) text

-- `snprintf` of a text that is complete: it cuts it to the size.
unfoldable pub snprintf : (ℕ → ℕ) → ℕ → ℕ → List ℕ → ℕ → ℕ
unfolding put_string
snprintf mem pos size text = if size == 0 then mem else put_string mem pos (take (size - 1) text)

-- What "%02x " prints.
unfoldable pub hex_text : ℕ → List ℕ
unfolding hex_digit
hex_text byte = hex_digit (byte / 16) ∷ hex_digit (byte % 16) ∷ b' ' ∷ []

-- The loop; `out_size - 3` and `out_size - pos` are unsigned.
unfoldable pub format_hex : ℕ → (ℕ → ℕ) → ℕ → List ℕ → (ℕ → ℕ) × ℕ
unfolding snprintf hex_text
format_hex out_size mem pos [] = (mem, pos)
format_hex out_size mem pos (byte ∷ bytes) =
    let written = snprintf mem pos ((out_size + 2 ^ 64 - pos) % 2 ^ 64) (hex_text byte) in
    let rest = format_hex out_size written (pos + 3) bytes in
    if ltb pos ((out_size + 2 ^ 64 - 3) % 2 ^ 64) then rest else (mem, pos)

-- The end: the last space becomes the terminator.
unfoldable pub end_hex : (ℕ → ℕ) × ℕ → ℕ → ℕ
unfolding store
end_hex (mem, pos) =
    if ltb 0 pos && mem (pos - 1) == b' ' then store mem (pos - 1) 0 else store mem pos 0

-- `bytes` is what the buffer of the function holds after the reading.
unfoldable pub process_memory_read_hex :
    Functions → Answers → ℕ → Bool → (ℕ → ℕ) → ℕ → ℕ → List ℕ → Result × (ℕ → ℕ)
unfolding format_hex end_hex process_memory_read
process_memory_read_hex f a addr out mem out_size read_size bytes =
    let size = if ltb max_read_size read_size then max_read_size else read_size in
    if not out || out_size == 0
    then (fails einval, mem)
    else elim (process_memory_read f a addr true size).0 [
      | fails e ↦ (fails e, mem)
      | index n ↦ (index n, end_hex (format_hex out_size mem 0 (take n bytes)))
    ]

-- ===== src/Hook/Writes.antt =====
-- Writes into the arrays of `hook_t`: when they stay inside, and what they leave there.
use kpm_syscall_backtrace.Base.{
  ℕ, suc, ◌+◌, ◌≤◌, ◌<◌, ◌≡◌, refl, arith, none, some, List, [], ◌∷◌, length, length-set, set,
}
use kpm_syscall_backtrace.Hook.Types.{Hook, HookErr}
use kpm_syscall_backtrace.Hook.Relocate.{write_words, put_words}

-- What lies at each index after the words are written from `i` on.
abbrev pub written : List ℕ → ℕ → List ℕ → List ℕ
written buf i [] = buf
written buf i (w ∷ ws) = written (set buf i w) (suc i) ws

pub length-written : (buf : List ℕ) (i : ℕ) (ws : List ℕ) → length (written buf i ws) ≡ length buf
length-written buf i [] = refl
length-written buf i (w ∷ ws) =
    omega (arith, length-written (set buf i w) (suc i) ws, length-set buf i w)

pub write_words-fits :
    (buf : List ℕ) (i : ℕ) (ws : List ℕ)
    → i + length ws ≤ length buf
    → write_words buf i ws ≡ some (written buf i ws)
unfolding write_words
write_words-fits buf i [] h = refl
write_words-fits buf i (w ∷ ws) h =
    ground (arith, length-set buf i w, write_words-fits (set buf i w) (suc i) ws)

pub write_words-overflow :
    (buf : List ℕ) (i : ℕ) (ws : List ℕ)
    → i ≤ length buf
    → length buf < i + length ws
    → write_words buf i ws ≡ none
unfolding write_words
write_words-overflow buf i [] h o = absurd (omega arith)
write_words-overflow buf i (w ∷ ws) h o =
    ground (arith, length-set buf i w, write_words-overflow (set buf i w) (suc i) ws)

-- The hook after its words are written.
abbrev pub extended : Hook → List ℕ → ℕ → Hook
extended h words len = record h {
  relo_insts = written h.relo_insts h.relo_insts_num words;
  relo_insts_num = h.relo_insts_num + len;
}

pub put_words-fits :
    (h : Hook) (words : List ℕ) (len : ℕ) (rc : HookErr)
    → h.relo_insts_num + length words ≤ length h.relo_insts
    → put_words h words len rc ≡ some (rc, extended h words len)
unfolding put_words
put_words-fits h words len rc fits =
    ground (arith, write_words-fits h.relo_insts h.relo_insts_num words)

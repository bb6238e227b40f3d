-- ===== src/Base/Text.antt =====
-- Texts as the lists of their bytes.
use Prim.Native.Char.{code}
use Prim.Native.String.{String}
use Prim.Native.Nat.{ℕ}
use mathlib.Core.Bool.{Bool, true, false, ◌&&◌}
use kpm_syscall_backtrace.Base.Tests.{◌==◌, if◌then◌else◌}
use mathlib.Core.List.{List, [], ◌∷◌}

abbrev pub codes : String → List ℕ
codes String.[] = []
codes (String.◌∷◌ c s) = code c ∷ codes s

-- The string that begins at a buffer: its bytes up to the first 0, or to the end of the buffer.
abbrev pub c_string : List ℕ → List ℕ
c_string [] = []
c_string (c ∷ bytes) = let rest = c_string bytes in if c == 0 then [] else c ∷ rest

-- `strcmp` of two strings is 0.
abbrev pub same : List ℕ → List ℕ → Bool
same [] [] = true
same [] (d ∷ ys) = false
same (c ∷ xs) [] = false
same (c ∷ xs) (d ∷ ys) = c == d && same xs ys

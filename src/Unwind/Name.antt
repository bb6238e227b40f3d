-- ===== src/Unwind/Name.antt =====
-- my_kbasename of stack_unwind.c: the last component of a path. A string is the list of its bytes before
-- the terminator.
use kpm_syscall_backtrace.Base.{ℕ, ◌≡◌, ◌≢◌, refl, arith, ◌==◌, if◌then◌else◌, List, [], ◌∷◌, ◌++◌}

-- The loop: `tail` is where the component begins that `p` has come to.
unfoldable pub base_from : List ℕ → List ℕ → List ℕ
base_from tail [] = tail
base_from tail (c ∷ p) = base_from (if c == b'/' then p else tail) p

unfoldable pub my_kbasename : List ℕ → List ℕ
unfolding base_from
my_kbasename path = base_from path path

abbrev pub Slashless : List ℕ → Type 0
Slashless [] = Unit {0}
Slashless (c ∷ p) = (c ≢ b'/') × Slashless p

base_from-Slashless : (tail p : List ℕ) → Slashless p → base_from tail p ≡ tail
unfolding base_from
base_from-Slashless tail [] plain = refl
base_from-Slashless tail (c ∷ p) plain = ground (arith, base_from-Slashless tail p plain.1, plain.0)

base_from-last :
    (tail dir name : List ℕ) → Slashless name → base_from tail (dir ++ b'/' ∷ name) ≡ name
unfolding base_from
base_from-last tail [] name plain = base_from-Slashless name name plain
base_from-last tail (c ∷ dir) name plain =
    base_from-last (if c == b'/' then dir ++ b'/' ∷ name else tail) dir name plain

-- The base name of a path with a directory is what follows its last slash, and that of a path without
-- one is the path.
pub my_kbasename-last :
    (dir name : List ℕ)
    → Slashless name
    → (my_kbasename (dir ++ b'/' ∷ name) ≡ name) × (my_kbasename name ≡ name)
unfolding my_kbasename
my_kbasename-last dir name plain =
    (base_from-last (dir ++ b'/' ∷ name) dir name plain, base_from-Slashless name name plain)

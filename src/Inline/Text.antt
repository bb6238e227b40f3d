-- ===== src/Inline/Text.antt =====
-- What the writes of hook_install and hook_uninstall leave in the kernel's code.
use kpm_syscall_backtrace.Base.{
  ℕ, Eq-cases, zero, suc, ◌+◌, ◌*◌, ◌^◌, ◌<◌, ◌≤◌, ◌≡◌, ◌≢◌, refl, sym, ◌∙◌, ap, arith, ◌⊎◌, inl,
  inr, List, get_or,
}
use kpm_syscall_backtrace.Hook.Types.{add64}
use kpm_syscall_backtrace.Hook.Relocate.{read_words}
use kpm_syscall_backtrace.PageTable.Laws.{store_same, store_other}
use kpm_syscall_backtrace.Inline.{patch_text}

module _ (addr : ℕ) where
  -- None of the first `n` words from `addr` on stands at `x`.
  abbrev pub Avoids : ℕ → ℕ → Type 0
  Avoids x zero = Unit {0}
  Avoids x (suc n) = (x ≢ add64 addr (n * 4)) × Avoids x n

  patch_text-none :
      (text : ℕ → ℕ) (insts : List ℕ) (x : ℕ) → patch_text text addr insts 0 x ≡ text x
  unfolding patch_text
  patch_text-none text insts x = refl

  patch_text-last :
      (text : ℕ → ℕ) (insts : List ℕ) (n : ℕ)
      → patch_text text addr insts (suc n) (add64 addr (n * 4)) ≡ get_or insts n 0
  unfolding patch_text
  patch_text-last text insts n =
      store_same (patch_text text addr insts n) (add64 addr (n * 4)) (get_or insts n 0)

  patch_text-past :
      (text : ℕ → ℕ) (insts : List ℕ) (n x : ℕ)
      → x ≢ add64 addr (n * 4)
      → patch_text text addr insts (suc n) x ≡ patch_text text addr insts n x
  unfolding patch_text
  patch_text-past text insts n x ne =
      store_other (patch_text text addr insts n) (add64 addr (n * 4)) (get_or insts n 0) x ne

  -- A word of the code is one of those written, or as it was.
  pub patch_text-cases :
      (text : ℕ → ℕ) (insts : List ℕ) (x n : ℕ)
      → ((i : ℕ) × (i < n)
          × (x ≡ add64 addr (i * 4))
          × (patch_text text addr insts n x ≡ get_or insts i 0))
        ⊎ (Avoids x n × (patch_text text addr insts n x ≡ text x))
  patch_text-cases text insts x zero = inr (tt, patch_text-none text insts x)
  patch_text-cases text insts x (suc n) = elim (Eq-cases x (add64 addr (n * 4))) [
    | inl e ↦ inl (
      n,
      omega arith,
      e,
      ap (patch_text text addr insts (suc n)) e ∙ patch_text-last text insts n,
    )
    | inr ne ↦
        let past = patch_text-past text insts n x ne in
        (elim (patch_text-cases text insts x n) [
          | inl (i, lt, e, w) ↦ inl (i, omega arith, e, past ∙ w)
          | inr (a, w) ↦ inr ((ne, a), past ∙ w)
        ])
  ]

  pub patch_text-Avoids :
      (text : ℕ → ℕ) (insts : List ℕ) (x n : ℕ)
      → Avoids x n
      → patch_text text addr insts n x ≡ text x
  patch_text-Avoids text insts x zero a = patch_text-none text insts x
  patch_text-Avoids text insts x (suc n) a =
      patch_text-past text insts n x a.0 ∙ patch_text-Avoids text insts x n a.1

  avoids_later :
      (i n : ℕ) → addr < 2 ^ 64 → i < n → n < 2 ^ 62 → add64 addr (i * 4) ≢ add64 addr (n * 4)
  avoids_later i n small lt le e = omega arith

  -- Word `i` of those written, while they do not wrap around to it.
  pub patch_text-word :
      (text : ℕ → ℕ) (insts : List ℕ) (i n : ℕ)
      → addr < 2 ^ 64
      → i < n
      → n ≤ 2 ^ 62
      → patch_text text addr insts n (add64 addr (i * 4)) ≡ get_or insts i 0
  patch_text-word text insts i zero small lt le = absurd (omega arith)
  patch_text-word text insts i (suc n) small lt le = elim (Eq-cases i n) [
    | inl e ↦ rw e (patch_text-last text insts n)
    | inr ne ↦
        let before : i < n = omega arith in
        patch_text-past text insts n (add64 addr (i * 4))
          (avoids_later i n small before (omega arith))
        ∙ patch_text-word text insts i n small before (omega arith)
  ]

  -- Writing back the words that the code had restores it everywhere.
  pub patch_text-restores :
      (text : ℕ → ℕ) (insts saved : List ℕ) (n x : ℕ)
      → ((i : ℕ) → i < n → get_or saved i 0 ≡ text (add64 addr (i * 4)))
      → patch_text (patch_text text addr insts n) addr saved n x ≡ text x
  patch_text-restores text insts saved n x h =
      elim (patch_text-cases (patch_text text addr insts n) saved x n) [
        | inl (i, lt, e, w) ↦ w ∙ h i lt ∙ ap text (sym e)
        | inr (a, w) ↦ w ∙ patch_text-Avoids text insts x n a
      ]

add64-add64 : (a b c : ℕ) → add64 (add64 a b) c ≡ add64 a (b + c)
add64-add64 a b c = omega arith

pub get_or-read_words :
    (text : ℕ → ℕ) (addr n i : ℕ)
    → addr < 2 ^ 64
    → i < n
    → get_or (read_words text addr n) i 0 ≡ text (add64 addr (i * 4))
unfolding read_words
get_or-read_words text addr zero i small lt = absurd (omega arith)
get_or-read_words text addr (suc n) zero small lt =
    let same : addr ≡ add64 addr 0 = omega arith in ap text same
get_or-read_words text addr (suc n) (suc i) small lt =
    let next : add64 (add64 addr 4) (i * 4) ≡ add64 addr (suc i * 4) = omega arith in
    get_or-read_words text (add64 addr 4) n i (omega arith) (omega arith) ∙ ap text next

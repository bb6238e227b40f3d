-- ===== src/BaseLib/Move.antt =====
-- lib_memmove of kernel/base/baselib.c on regions that may overlap.
use kpm_syscall_backtrace.Base.{
  ℕ, zero, suc, ◌+◌, ◌≤◌, ◌<◌, ◌≡◌, refl, ◌∙◌, ap, arith, ◌⊎◌, inl, inr, Eq-cases, Bool-cases, ltb,
}
use kpm_syscall_backtrace.PageTable.{store}
use kpm_syscall_backtrace.PageTable.Laws.{store_same, store_other}
use kpm_syscall_backtrace.BaseLib.{lib_memcpy, copy_down, lib_memmove}

memcpy-outside :
    (mem : ℕ → ℕ) (d s n x : ℕ) → (x < d) ⊎ (d + n ≤ x) → lib_memcpy mem d s n x ≡ mem x
unfolding lib_memcpy
memcpy-outside mem d s zero x out = refl
memcpy-outside mem d s (suc n) x out =
    memcpy-outside (store mem d (mem s)) (suc d) (suc s) n x (omega arith)
    ∙ store_other mem d (mem s) x (λ e. omega arith)

memcpy-inside :
    (mem : ℕ → ℕ) (d s n x y : ℕ)
    → d ≤ s
    → d ≤ x
    → x < d + n
    → x + s ≡ y + d
    → lib_memcpy mem d s n x ≡ mem y
unfolding lib_memcpy
memcpy-inside mem d s zero x y le from to e = absurd (omega arith)
memcpy-inside mem d s (suc n) x y le from to e = elim (Eq-cases x d) [
  | inl first ↦
      let same : s ≡ y = omega arith in
      memcpy-outside (store mem d (mem s)) (suc d) (suc s) n x (omega arith)
      ∙ rw first (store_same mem d (mem s))
      ∙ ap mem same
  | inr later ↦
      memcpy-inside (store mem d (mem s)) (suc d) (suc s) n x y (omega arith) (omega arith)
        (omega arith) (omega arith)
      ∙ store_other mem d (mem s) y (λ q. omega arith)
]

down-outside : (mem : ℕ → ℕ) (d s n x : ℕ) → (x < d) ⊎ (d + n ≤ x) → copy_down mem d s n x ≡ mem x
unfolding copy_down
down-outside mem d s zero x out = refl
down-outside mem d s (suc n) x out =
    down-outside (store mem (d + n) (mem (s + n))) d s n x (omega arith)
    ∙ store_other mem (d + n) (mem (s + n)) x (λ e. omega arith)

down-inside :
    (mem : ℕ → ℕ) (d s n x y : ℕ)
    → s ≤ d
    → d ≤ x
    → x < d + n
    → x + s ≡ y + d
    → copy_down mem d s n x ≡ mem y
unfolding copy_down
down-inside mem d s zero x y le from to e = absurd (omega arith)
down-inside mem d s (suc n) x y le from to e = elim (Eq-cases x (d + n)) [
  | inl last ↦
      let same : s + n ≡ y = omega arith in
      down-outside (store mem (d + n) (mem (s + n))) d s n x (omega arith)
      ∙ ap (store mem (d + n) (mem (s + n))) last
      ∙ store_same mem (d + n) (mem (s + n))
      ∙ ap mem same
  | inr before ↦
      down-inside (store mem (d + n) (mem (s + n))) d s n x y le from (omega arith) e
      ∙ store_other mem (d + n) (mem (s + n)) y (λ q. omega arith)
]

-- Wherever the regions lie, and if they overlap too, after `lib_memmove` each byte of the destination is
-- what the byte of the source at its place was before, and every byte outside the destination is as it was.
pub lib_memmove-moves :
    (mem : ℕ → ℕ) (dst src n x y z : ℕ)
    → dst ≤ x
    → x < dst + n
    → x + src ≡ y + dst
    → (z < dst) ⊎ (dst + n ≤ z)
    → (lib_memmove mem dst src n x ≡ mem y) × (lib_memmove mem dst src n z ≡ mem z)
unfolding lib_memmove
lib_memmove-moves mem dst src n x y z from to e out = elim (Bool-cases (ltb dst src)) [
  | inl up ↦
      rw up (
        memcpy-inside mem dst src n x y (ground arith) from to e,
        memcpy-outside mem dst src n z out,
      )
  | inr down ↦
      rw down
        (down-inside mem dst src n x y (ground arith) from to e, down-outside mem dst src n z out)
]

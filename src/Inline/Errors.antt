-- ===== src/Inline/Errors.antt =====
-- hook of kernel/base/hook.c where it fails: the slot is released, and the kernel is as it was.
use kpm_syscall_backtrace.Base.{
  ℕ, zero, suc, ◌≡◌, ◌≢◌, refl, ap, arith, Bool, false, ◌==◌, ◌||◌, not, Bool-cases, inl, inr,
  Option, Option-cases, none, some, List, [], ◌∷◌, get_elem?, set,
}
use kpm_syscall_backtrace.Hook.Types.{Hook, HookErr, no_err, no_mem, bad_address}
use kpm_syscall_backtrace.Hook.Relocate.{hook_prepare}
use kpm_syscall_backtrace.Memory.{
  inline, Warp, find_free, taken, hook_mem_zalloc, hook_mem_free, find_origin,
}
use kpm_syscall_backtrace.Memory.Laws.{IsAligned, zalloc_cases}
use kpm_syscall_backtrace.PageTable.{Paging}
use kpm_syscall_backtrace.Inline.{
  Entry, Kernel, zero_entry, put_entry, hook_slot, hook_allocated, hook, branch_func_addr,
  hook_install, new_hook,
}

module _ {ℓ} {A : Type ℓ} where
  -- A slot that is free before and after a write changes no search.
  pub find_origin-free :
      (ws : List (Warp A)) (i addr : ℕ) (w : Warp A)
      → find_free ws ≡ some i
      → w.in_use ≡ false
      → find_origin (set ws i w) addr ≡ find_origin ws addr
  unfolding find_free find_origin
  find_origin-free [] i addr w e f = cc
  find_origin-free (v ∷ ws) zero addr w e f = ground arith
  find_origin-free (v ∷ ws) (suc i) addr w e f = ground (arith, find_origin-free ws i addr w)

  pub find_free-get :
      (ws : List (Warp A)) (i : ℕ)
      → find_free ws ≡ some i
      → (w : Warp A) × (get_elem? ws i ≡ some w)
  unfolding find_free
  find_free-get [] i e = cc
  find_free-get (v ∷ ws) zero e = (v, refl)
  find_free-get (v ∷ ws) (suc i) e = find_free-get ws i (ground arith)

  pub set-set : (ws : List (Warp A)) (i : ℕ) (v w : Warp A) → set (set ws i v) i w ≡ set ws i w
  set-set [] i v w = refl
  set-set (x ∷ ws) zero v w = refl
  set-set (x ∷ ws) (suc i) v w = ap (◌∷◌ x) (set-set ws i v w)

  pub get-set :
      (ws : List (Warp A)) (i : ℕ) (v w : Warp A)
      → get_elem? ws i ≡ some v
      → get_elem? (set ws i w) i ≡ some w
  get-set [] i v w e = cc
  get-set (x ∷ ws) zero v w e = refl
  get-set (x ∷ ws) (suc i) v w e = get-set ws i v w e

abbrev pub entry_of : Hook → Entry
entry_of h = record zero_entry { hook = h }

abbrev pub released : Kernel → ℕ → Hook → Kernel
released k i h = record k { mem = hook_mem_free (put_entry k.mem i (entry_of h)) i }

abbrev pub kept : Kernel → ℕ → Hook → Kernel
kept k i h = record k { mem = put_entry k.mem i (entry_of h) }

module _ (p : Paging) (k : Kernel) (i : ℕ) (h : Hook) where
  -- How `hook` ends once it has a slot.
  pub data Ends : Option (HookErr × ℕ × Kernel) → Type 0 where
    faults : Ends none
    refuses :
        (err : HookErr) (h' : Hook)
        → err ≢ no_err
        → hook_prepare k.text h ≡ some (err, h')
        → Ends (some (err, h.relo_addr, released k i h'))
    installs :
        (h' : Hook) (k' : Kernel)
        → hook_prepare k.text h ≡ some (no_err, h')
        → hook_install p (kept k i h') h' ≡ some k'
        → Ends (some (no_err, h'.relo_addr, k'))

  Ends-installed :
      (h' : Hook) → hook_prepare k.text h ≡ some (no_err, h') → Ends (hook_slot p k i h)
  unfolding hook_slot
  Ends-installed h' e = elim (Option-cases (hook_install p (kept k i h') h')) [
    | inl stuck ↦ rw (e, hook_slot) (rw stuck faults)
    | inr (k', done) ↦ rw (e, hook_slot) (rw done (installs h' k' e done))
  ]

  Ends-prepared :
      (err : HookErr) (h' : Hook)
      → hook_prepare k.text h ≡ some (err, h')
      → Ends (hook_slot p k i h)
  unfolding hook_slot
  Ends-prepared no_err h' e = Ends-installed h' e
  Ends-prepared err h' e = rw (e, hook_slot) (refuses _ h' (λ q. cc) e)

  pub hook_slot-Ends : Ends (hook_slot p k i h)
  unfolding hook_slot
  hook_slot-Ends = elim (Option-cases (hook_prepare k.text h)) [
    | inl e ↦ rw (e, hook_slot) faults
    | inr ((err, h'), e) ↦ Ends-prepared err h' e
  ]

abbrev pub allocated : Kernel → ℕ → ℕ → Kernel
allocated k i origin = record k {
  mem = record k.mem { warps = set k.mem.warps i (taken zero_entry origin inline) };
}

module _ (fuel : ℕ) (p : Paging) (k : Kernel) (func replace : ℕ) where
  -- How `hook` comes to have a slot, or returns before.
  pub data Starts : Option (HookErr × ℕ × Kernel) → Type 0 where
    refused : (err : HookErr) → err ≢ no_err → Starts (some (err, 0, k))
    circles : branch_func_addr fuel k func ≡ none → Starts none
    allocates :
        (origin i : ℕ)
        → branch_func_addr fuel k func ≡ some origin
        → find_free k.mem.warps ≡ some i
        → Starts (
            hook_slot p
              (allocated k i origin)
              i
              (new_hook (allocated k i origin).mem i func origin replace))

  Starts-resolved :
      (origin : ℕ)
      → IsAligned k.mem
      → branch_func_addr fuel k func ≡ some origin
      → Starts
          (hook_allocated p k func origin replace (hook_mem_zalloc zero_entry k.mem origin inline))
  unfolding hook_allocated
  Starts-resolved origin aligned e = elim (zalloc_cases zero_entry k.mem origin inline aligned) [
    | inl (z, full) ↦ rw z (refused no_mem (λ q. cc))
    | inr (i, free, z) ↦ rw z (allocates origin i e free)
  ]

  -- The test of the arguments.
  abbrev is_refused : Bool → Bool
  is_refused has_backup = func == 0 || replace == 0 || not has_backup

  pub hook-Starts :
      (has_backup : Bool) → IsAligned k.mem → Starts (hook fuel p k func replace has_backup)
  unfolding hook
  hook-Starts has_backup aligned = elim (Bool-cases (is_refused has_backup)) [
    | inl bad ↦ rw bad (refused bad_address (λ q. cc))
    | inr fine ↦ elim (Option-cases (branch_func_addr fuel k func)) [
      | inl e ↦ rw (fine, e) (circles e)
      | inr (origin, e) ↦ rw (fine, e) (Starts-resolved origin aligned e)
    ]
  ]

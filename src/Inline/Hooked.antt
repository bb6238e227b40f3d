-- ===== src/Inline/Hooked.antt =====
-- hook of kernel/base/hook.c as a whole: what it leaves when it fails, and when it succeeds.
use kpm_syscall_backtrace.Base.{
  ℕ, ◌≡◌, ◌≢◌, refl, sym, ◌∙◌, ap, Bool, Option, some, List, get_elem?, set,
}
use mathlib.Core.Option.{some-injective}
use mathlib.Core.Path.{subst}
use kpm_syscall_backtrace.Hook.Types.{Hook, HookErr, no_err}
use kpm_syscall_backtrace.Memory.{
  inline, Warp, HookMem, find_free, taken, freed, hook_mem_free, hook_get_mem_from_origin,
  find_origin,
}
use kpm_syscall_backtrace.Memory.Laws.{IsAligned}
use kpm_syscall_backtrace.PageTable.{Paging}
use kpm_syscall_backtrace.Inline.{Entry, Kernel, zero_entry, put_entry, hook}
use kpm_syscall_backtrace.Inline.Errors.{
  find_origin-free, find_free-get, set-set, get-set, entry_of, released, kept, Ends, faults,
  refuses, installs, hook_slot-Ends, allocated, Starts, refused, circles, allocates, hook-Starts,
}

put_entry_lem :
    (m : HookMem Entry) (i : ℕ) (w : Warp Entry) (e : Entry)
    → get_elem? m.warps i ≡ some w
    → put_entry m i e ≡ record m { warps = set m.warps i (record w { chain = e }) }
unfolding put_entry
put_entry_lem m i w e g = rw (g, put_entry) refl

pub hook_mem_free_lem :
    (m : HookMem Entry) (i : ℕ) (w : Warp Entry)
    → get_elem? m.warps i ≡ some w
    → hook_mem_free m i ≡ record m { warps = set m.warps i (freed w) }
unfolding hook_mem_free
hook_mem_free_lem m i w g = rw (g, hook_mem_free) refl

-- The slot of a hook whose address is `origin`.
abbrev pub hooked : ℕ → Hook → Warp Entry
hooked origin h = record (taken zero_entry origin inline) { chain = entry_of h }

module _ (k : Kernel) (i origin : ℕ) (h : Hook) (free : find_free k.mem.warps ≡ some i) where
  taken-get : get_elem? (allocated k i origin).mem.warps i ≡ some (taken zero_entry origin inline)
  taken-get =
      let (w, g) = find_free-get k.mem.warps i free in
      get-set k.mem.warps i w (taken zero_entry origin inline) g

  pub kept-warps : (kept (allocated k i origin) i h).mem.warps ≡ set k.mem.warps i (hooked origin h)
  kept-warps =
      rw
        (put_entry_lem (allocated k i origin).mem i (taken zero_entry origin inline) (entry_of h)
          taken-get)
        (set-set k.mem.warps i (taken zero_entry origin inline) (hooked origin h))

  pub kept-get : get_elem? (kept (allocated k i origin) i h).mem.warps i ≡ some (hooked origin h)
  kept-get =
      let (w, g) = find_free-get k.mem.warps i free in
      ap (λ (ws : List (Warp Entry)). get_elem? ws i) kept-warps
      ∙ get-set k.mem.warps i w (hooked origin h) g

  pub released-warps :
      (released (allocated k i origin) i h).mem.warps ≡ set k.mem.warps i (freed (hooked origin h))
  released-warps =
      ap (λ (m : HookMem Entry). m.warps)
        (hook_mem_free_lem (kept (allocated k i origin) i h).mem i (hooked origin h) kept-get)
      ∙ ap (λ (ws : List (Warp Entry)). set ws i (freed (hooked origin h))) kept-warps
      ∙ set-set k.mem.warps i (hooked origin h) (freed (hooked origin h))

-- The code, the page table and the search of the hook memory for `addr` are as before.
abbrev pub Unchanged : Kernel → Kernel → ℕ → Type 0
Unchanged k k' addr =
    (k'.text ≡ k.text)
    × (k'.ptes ≡ k.ptes)
    × (hook_get_mem_from_origin k'.mem addr ≡ hook_get_mem_from_origin k.mem addr)

module _ (err : HookErr) (backup : ℕ) (k' : Kernel) (failed : err ≢ no_err) where
  pub some-fields :
      (r : HookErr × ℕ × Kernel) → some r ≡ some (err, backup, k') → (r.0 ≡ err) × (r.2 ≡ k')
  some-fields r e =
      let same = some-injective _ _ e in
      (ap (λ (r : HookErr × ℕ × Kernel). r.0) same, ap (λ (r : HookErr × ℕ × Kernel). r.2) same)

  Ends-fails :
      (p : Paging) (k : Kernel) (i : ℕ) (h : Hook) (r : Option (HookErr × ℕ × Kernel))
      → Ends p k i h r
      → r ≡ some (err, backup, k')
      → (h' : Hook) × (released k i h' ≡ k')
  Ends-fails p k i h _ faults e = cc
  Ends-fails p k i h _ (refuses err₁ h' ne q) e = (h', (some-fields _ e).1)
  Ends-fails p k i h _ (installs h' k₁ q done) e = absurd (failed (sym (some-fields _ e).0))

  Starts-fails :
      (fuel : ℕ) (p : Paging) (k : Kernel) (func replace addr : ℕ)
      (r : Option (HookErr × ℕ × Kernel))
      → Starts fuel p k func replace r
      → r ≡ some (err, backup, k')
      → Unchanged k k' addr
  unfolding hook_get_mem_from_origin
  Starts-fails fuel p k func replace addr _ (refused err₁ ne) e =
      subst (λ t. Unchanged k t addr) (some-fields _ e).1 (refl, refl, refl)
  Starts-fails fuel p k func replace addr _ (circles q) e = cc
  Starts-fails fuel p k func replace addr _ (allocates origin i q free) e =
      let (h', same) = Ends-fails p (allocated k i origin) i _ _ (hook_slot-Ends p _ i _) e in
      subst (λ t. Unchanged k t addr) same
        (
          refl,
          refl,
          ap (λ ws. find_origin ws addr) (released-warps k i origin h' free)
              ∙ find_origin-free k.mem.warps i addr (freed (hooked origin h')) free refl,
        )

-- If the hook memory is aligned and `hook` returns an error, it leaves the code and the page table of the
-- kernel and finds for every address the slot that the hook memory had for it.
pub hook_fails-Unchanged :
    (fuel : ℕ) (p : Paging) (k k' : Kernel) (func replace : ℕ) (has_backup : Bool) (err : HookErr)
    (backup addr : ℕ)
    → IsAligned k.mem
    → hook fuel p k func replace has_backup ≡ some (err, backup, k')
    → err ≢ no_err
    → Unchanged k k' addr
hook_fails-Unchanged fuel p k k' func replace has_backup err backup addr aligned e failed =
    Starts-fails err backup k' failed fuel p k func replace addr _
      (hook-Starts fuel p k func replace has_backup aligned) e

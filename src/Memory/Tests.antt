-- ===== src/Memory/Tests.antt =====
-- A hook memory with one slot in use, and the theorems of the Memory modules at it.
use kpm_syscall_backtrace.Base.{ℕ, refl, true, false, [], ◌∷◌}
use kpm_syscall_backtrace.Memory.{untyped, inline, HookMem, hook_get_mem_from_origin}
use kpm_syscall_backtrace.Memory.Laws.{Unique}

abbrev one_used : HookMem ℕ
one_used = record {
  start = 0xffffff8000100000;
  warps =
      record { in_use = true; type = inline; addr = 64; chain = 1 }
      ∷ record { in_use = false; type = untyped; addr = 0; chain = 0 }
      ∷ [];
}

one_used-Unique : Unique one_used.warps
unfolding hook_get_mem_from_origin
one_used-Unique = (λ e. refl, (λ e. refl, tt))

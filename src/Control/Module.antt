-- ===== src/Control/Module.antt =====
-- kpm_init and kpm_exit of accessOffstinlineHook.c. What the kernel has, and what the hook functions of
-- kernel/base/hook.c return, are arguments.
use kpm_syscall_backtrace.Base.{
  ℕ, ◌==◌, if◌then◌else◌, Bool, false, not, none, some, List, [], ◌∷◌, ◌++◌,
}
use kpm_syscall_backtrace.Breakpoint.{Slot, Api, Call, hw_breakpoint_init, hw_breakpoint_clear_all}
use kpm_syscall_backtrace.Unwind.{Symbols, stack_unwind_init}
use kpm_syscall_backtrace.Process.{Functions, process_memory_init}
use kpm_syscall_backtrace.Control.{module_state}
use kpm_syscall_backtrace.Control.Reply.{Module}

-- What `kallsyms_lookup_name` finds. The last names are those of functions to hook, 0 for none.
pub record Kernel : Type 0 where
  pub symbols : Symbols
  pub api : Api
  pub functions : Functions
  pub arch_copy_to_user : Bool
  pub do_faccessat : ℕ
  pub do_sys_openat2 : ℕ
  pub do_sys_open : ℕ
  pub arm64_sys_kill : ℕ
  pub inner_sys_kill : ℕ
  pub sys_kill : ℕ

-- A call of `hook_wrap1`, `hook_wrap3` or `hook_wrap4`: the number, the function, and the error or 0.
pub record Wrap : Type 0 where
  pub argno : ℕ
  pub func : ℕ
  pub err : ℕ

-- `g_do_faccessat_addr`, `g_do_sys_openat2_addr` and `g_sys_kill_addr`
pub record Installed : Type 0 where
  pub g_do_faccessat_addr : ℕ
  pub g_do_sys_openat2_addr : ℕ
  pub g_sys_kill_addr : ℕ

-- What `kpm_init` returns: -1, the error of the hook, or 0, and then the module is loaded.
pub data Init : Type 0 where
  minus_one : Init
  hook_error : ℕ → Init
  loaded : Module → Installed → Init

-- `wrap` is what hooking a function returns.
module _ (wrap : ℕ → ℕ → ℕ) where
  -- The function that is hooked then, 0 if it is not there or the hook fails.
  unfoldable pub try_wrap : ℕ → ℕ → ℕ × List Wrap
  try_wrap argno func =
      let err = wrap argno func in
      if func == 0
      then (0, [])
      else (if err == 0 then func else 0, record { argno = argno; func = func; err = err } ∷ [])

  unfoldable pub hook_openat : Kernel → ℕ × List Wrap
  unfolding try_wrap
  hook_openat kernel =
      let (func, calls) = try_wrap 4 kernel.do_sys_openat2 in
      let (func', calls') = try_wrap 4 kernel.do_sys_open in
      if func == 0 then (func', calls ++ calls') else (func, calls)

  unfoldable pub hook_kill : Kernel → ℕ × List Wrap
  unfolding try_wrap
  hook_kill kernel =
      if not (kernel.arm64_sys_kill == 0)
      then try_wrap 1 kernel.arm64_sys_kill
      else if not (kernel.inner_sys_kill == 0)
      then try_wrap 1 kernel.inner_sys_kill
      else try_wrap 1 kernel.sys_kill

  -- The hooks, once everything else is there.
  unfoldable pub install : Kernel → List Slot → Init × List Wrap
  unfolding hook_openat hook_kill
  install kernel slots =
      let err = wrap 3 kernel.do_faccessat in
      let first : Wrap = record { argno = 3; func = kernel.do_faccessat; err = err } in
      let (openat, openat_calls) = hook_openat kernel in
      let (kill, kill_calls) = hook_kill kernel in
      if not kernel.arch_copy_to_user
      then (minus_one, [])
      else if kernel.do_faccessat == 0
      then (minus_one, [])
      else if not (err == 0)
      then (hook_error err, first ∷ [])
      else (
        loaded (record { state = module_state; slots = slots; verbose = false })
            (record {
              g_do_faccessat_addr = kernel.do_faccessat;
              g_do_sys_openat2_addr = openat;
              g_sys_kill_addr = kill;
            }),
        first ∷ openat_calls ++ kill_calls,
      )

  unfoldable pub kpm_init : Kernel → Init × List Wrap
  unfolding install stack_unwind_init hw_breakpoint_init process_memory_init
  kpm_init kernel = elim (stack_unwind_init kernel.symbols) [
    | none ↦ (minus_one, [])
    | some f ↦ elim (hw_breakpoint_init kernel.api) [
      | none ↦ (minus_one, [])
      | some slots ↦ elim (process_memory_init kernel.functions) [
        | none ↦ (minus_one, [])
        | some g ↦ install kernel slots
      ]
    ]
  ]

-- The function that `kpm_exit` unhooks, if it is set.
abbrev pub unhook_if_set : ℕ → List ℕ
unhook_if_set func = if func == 0 then [] else func ∷ []

-- The module after `kpm_exit`, the functions given to `unhook`, and the calls of the breakpoint functions.
unfoldable pub kpm_exit : Api → Module → Installed → Module × List ℕ × List Call
unfolding hw_breakpoint_clear_all
kpm_exit api m i =
    let (slots, calls) = hw_breakpoint_clear_all api m.slots in
    (
      record m { slots = slots },
      unhook_if_set i.g_do_faccessat_addr
          ++ unhook_if_set i.g_do_sys_openat2_addr
          ++ unhook_if_set i.g_sys_kill_addr,
      calls,
    )

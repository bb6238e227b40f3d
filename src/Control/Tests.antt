-- ===== src/Control/Tests.antt =====
-- accessOffstinlineHook.c on small inputs, and the theorems about it there.
use kpm_syscall_backtrace.Base.{
  c_string, ℕ, ◌-◌, ◌^◌, ◌==◌, ◌≡◌, ◌≢◌, ◌⊎◌, refl, arith, if◌then◌else◌, true, false, not, none,
  some, [], ◌∷◌, ◌++◌, replicate, take, codes,
}
use kpm_syscall_backtrace.Breakpoint.{Api, init_slot, max_hw_breakpoints, hw_breakpoint_init}
use kpm_syscall_backtrace.Breakpoint.Steps.{Reach, registered, released}
use kpm_syscall_backtrace.Process.{Functions}
use kpm_syscall_backtrace.Process.Info.{Task, get_process_id, get_process_cmdline}
use kpm_syscall_backtrace.Control.{State, module_state, no_filter, max_name_len}
use kpm_syscall_backtrace.Control.Filter.{should_hook_process}
use kpm_syscall_backtrace.Control.Before.{access, copied, before_do_faccessat}
use kpm_syscall_backtrace.Control.Command.{add_filter, command_of}
use kpm_syscall_backtrace.Control.Reply.{Module, World}
use kpm_syscall_backtrace.Control.Args.{parse_bp, parse_mem}
use kpm_syscall_backtrace.Control.Run.{run, kpm_control}
use kpm_syscall_backtrace.Control.Module.{Kernel, loaded, kpm_init, kpm_exit}
use kpm_syscall_backtrace.Control.Filtering.{AnyMatch, should_hook_process-Selects}
use kpm_syscall_backtrace.Control.Invariant.{IsWf}
use kpm_syscall_backtrace.Control.Runs.{Run, commands, Run-Reach}
use kpm_syscall_backtrace.Control.Runs as Runs
use kpm_syscall_backtrace.Control.Lifecycle.{Leaves, kpm_init-Leaves, kpm_exit-releases}

abbrev api : Api
api = record {
  register_wide = true;
  register_user = true;
  unregister_wide = true;
  unregister_user = true;
  modify_user = true;
  find_vpid = true;
  pid_task = true;
}

abbrev functions : Functions
functions = record {
  g_find_vpid = true;
  g_pid_task = true;
  g_access_process_vm = true;
  g_get_task_mm = true;
  g_mmput = true;
}

abbrev world : World
world = record {
  api = api;
  pid_struct = 5;
  task = 9;
  bp = 77;
  memory = functions;
  answers = record { pid_struct = 5; task = 9; mm = 7; count = 2 };
  bytes = 1 ∷ 2 ∷ [];
  hex_buf = λ x. 0;
}

abbrev fresh : Module
fresh = record {
  state = module_state;
  slots = replicate max_hw_breakpoints init_slot;
  verbose = false;
}

-- A filter for the name "chat", in the whitelist mode.
abbrev filtering : State
filtering = record module_state {
  hook_enabled = true;
  hook_access_enabled = true;
  filter_count = 1;
  filters = record { name = codes "chat"; pid = 0; active = true } ∷ replicate 15 no_filter;
}

abbrev chat : Task
chat = record { tgid = some 40; cmdline = some (12, codes "org.chat.app"); comm = none }

abbrev shell : Task
shell = record { tgid = some 41; cmdline = some (2, codes "sh"); comm = none }

filtered :
    (should_hook_process filtering chat ≡ true) × (should_hook_process filtering shell ≡ false)
unfolding should_hook_process
filtered = (refl, refl)

logged : before_do_faccessat filtering chat (copied (codes "/etc/hosts")) 4 ≡ (
  record filtering { access_hook_count = 1 },
  some (record { pkg_name = codes "org.chat.app"; pid = 40; call = access (codes "/etc/hosts") 4 }),
)
unfolding before_do_faccessat
logged = refl

filter_added : (run world fresh (add_filter (codes "name:chat"))).0.state.filter_count ≡ 1
unfolding run
filter_added = refl

breakpoint_parsed :
    parse_bp (codes "0x7f00:1:3:1234:loop")
    ≡ record { addr = 0x7f00; type = 1; size = 3; pid = 1234; desc = codes "loop" }
unfolding parse_bp
breakpoint_parsed = refl

-- The terminator is taken for the type, and the fields after it are read from what follows the command.
read_past_the_end :
    parse_bp (codes "0x7f00:" ++ 0 ∷ codes ":3")
    ≡ record { addr = 0x7f00; type = 2 ^ 32 - 48; size = 3; pid = 0; desc = [] }
unfolding parse_bp
read_past_the_end = refl

memory_parsed : parse_mem (codes "12:0x1f:8") ≡ (12, 31, 8)
unfolding parse_mem
memory_parsed = refl

-- A reply that is longer than the user's buffer arrives without its terminator.
cut :
    (kpm_control
      (λ r. codes "Hooks enabled")
      world
      (record { out_msg = true; outlen = 5; g_arch_copy_to_user = true; copies = true })
      fresh
      (codes "enable")).1
    ≡ some (codes "Hooks")
unfolding kpm_control
cut = refl

should_hook_process-Selects_example :
    let Selected =
      AnyMatch
        (get_process_id chat)
        (c_string (get_process_cmdline chat max_name_len))
        (take filtering.filter_count filtering.filters) in
    let answer = should_hook_process filtering chat in
    ((filtering.filter_count ≡ 0) × (answer ≡ true))
    ⊎ ((filtering.filter_count ≢ 0) × Selected × (answer ≡ (filtering.filter_mode == 0)))
    ⊎ ((filtering.filter_count ≢ 0) × (¬ Selected) × (answer ≡ not (filtering.filter_mode == 0)))
should_hook_process-Selects_example = should_hook_process-Selects filtering chat

filtering-IsWf : IsWf filtering
filtering-IsWf = (refl, ground arith)

one_set :
    Run api
      (run world fresh (command_of (codes "bp_set:0x7f00:0:2"))).0
      ([] ++ (run world fresh (command_of (codes "bp_set:0x7f00:0:2"))).3)
unfolding hw_breakpoint_init
one_set = commands world (codes "bp_set:0x7f00:0:2") refl (Runs.loaded refl)

kpm_exit-releases_example :
    let d = run world fresh (command_of (codes "bp_set:0x7f00:0:2")) in
    let all =
      ([] ++ d.3)
      ++ (kpm_exit api d.0
          (record { g_do_faccessat_addr = 1; g_do_sys_openat2_addr = 2; g_sys_kill_addr = 3 })).2 in
    registered 77 all ≡ released 77 all
kpm_exit-releases_example =
    let d = run world fresh (command_of (codes "bp_set:0x7f00:0:2")) in
    kpm_exit-releases api 77 d.0 ([] ++ d.3)
      (record { g_do_faccessat_addr = 1; g_do_sys_openat2_addr = 2; g_sys_kill_addr = 3 })
      (ground arith) one_set

abbrev kernel : Kernel
kernel = record {
  symbols = record {
    save_stack_trace_user = true;
    arch_copy_from_user = true;
    find_vma = true;
    file_path = true;
    d_path = true;
    down_read_trylock = true;
    up_read = true;
    get_free_pages = true;
    free_pages = true;
    snprintf = true;
  };
  api = api;
  functions = functions;
  arch_copy_to_user = true;
  do_faccessat = 100;
  do_sys_openat2 = 200;
  do_sys_open = 300;
  arm64_sys_kill = 0;
  inner_sys_kill = 400;
  sys_kill = 500;
}

-- The hook of do_sys_openat2 fails, and that of do_sys_open is taken.
abbrev wrap : ℕ → ℕ → ℕ
wrap argno func = if func == 200 then 4095 else 0

hooks :
    (kpm_init wrap kernel).0
    ≡ loaded fresh
        (record { g_do_faccessat_addr = 100; g_do_sys_openat2_addr = 300; g_sys_kill_addr = 400 })
unfolding kpm_init
hooks = refl

Run-Reach_example :
    let d = run world fresh (command_of (codes "bp_set:0x7f00:0:2")) in
    IsWf d.0.state × Reach api d.0.slots ([] ++ d.3)
Run-Reach_example = Run-Reach one_set

kpm_init-Leaves_example : Leaves api fresh (kpm_init wrap kernel)
kpm_init-Leaves_example = kpm_init-Leaves wrap api fresh kernel

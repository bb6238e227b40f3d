-- ===== src/Unwind.antt =====
-- kpms/demo_accessOffstinlineHook/stack_unwind.c: the user stack of a process that called a hooked
-- function. Pointers are numbers and NULL is 0; an `unsigned long` is below 2 ^ 64 and a `u32` below
-- 2 ^ 32. What the functions of the kernel answer are arguments, and the calls that take or give back a
-- lock or a page are events of the output.
pub mod Name
pub mod Vma
pub mod Compat
pub mod Standard
pub mod Locks
pub mod File
pub mod Frames
mod Tests
use kpm_syscall_backtrace.Base.{
  ℕ, Bool, true, false, ◌&&◌, ◌||◌, if◌then◌else◌, Option, none, some, List,
}

-- What `kallsyms_lookup_name` finds: false is 0.
pub record Symbols : Type 0 where
  pub save_stack_trace_user : Bool
  pub arch_copy_from_user : Bool
  pub find_vma : Bool
  pub file_path : Bool
  pub d_path : Bool
  pub down_read_trylock : Bool
  pub up_read : Bool
  pub get_free_pages : Bool
  pub free_pages : Bool
  pub snprintf : Bool

-- The global function pointers of the file.
pub record Functions : Type 0 where
  pub g_save_stack_trace_user : Bool
  pub g_arch_copy_from_user : Bool
  pub g_find_vma : Bool
  pub g_file_path : Bool
  pub g_down_read_trylock : Bool
  pub g_up_read : Bool
  pub g_get_free_page : Bool
  pub g_free_page : Bool
  pub g_snprintf : Bool

-- `stack_unwind_init`; `none` is -1.
unfoldable pub stack_unwind_init : Symbols → Option Functions
stack_unwind_init symbols =
    if symbols.save_stack_trace_user && symbols.arch_copy_from_user
    then some (record {
      g_save_stack_trace_user = true;
      g_arch_copy_from_user = true;
      g_find_vma = symbols.find_vma;
      g_file_path = symbols.file_path || symbols.d_path;
      g_down_read_trylock = symbols.down_read_trylock;
      g_up_read = symbols.up_read;
      g_get_free_page = symbols.get_free_pages;
      g_free_page = symbols.free_pages;
      g_snprintf = symbols.snprintf;
    })
    else none

-- The fields of a `vm_area_struct` that the offsets of `g_vma_offset` give.
pub record Area : Type 0 where
  pub vm_start : ℕ
  pub vm_end : ℕ
  pub vm_prev : ℕ
  pub vm_file : ℕ

-- What is printed of an address: the texts " %s + 0x%lx", " <file> + 0x%lx" and " [anon] + 0x%lx".
pub data Info : Type 0 where
  named : List ℕ → ℕ → Info
  unnamed anonymous : ℕ → Info

pub data Event : Type 0 where
  down_read up_read : Event
  gets_page frees_page : ℕ → Event

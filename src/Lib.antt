-- ===== src/Lib.antt =====
-- The hooking framework of KernelPatch, as kernel/base and kernel/include hold it: a model of its
-- inline hooks, hook chains and hook memory, and of the key-value storage of kernel/patch, with the
-- properties that make them correct.
--
-- An inline hook overwrites the first instructions of a kernel function with a jump (the trampoline)
-- and keeps a relocated copy of them, behind which it jumps back. `hook_prepare` computes both. A hook
-- chain puts a transit function in the place of the hooked one, which runs the callbacks of up to 16
-- users around the original. The hook memory hands out the slots that hooks and chains live in. The
-- key-value storage keeps byte records under a group and a key for the other parts of the kernel patch.
--
-- The module of kpms/demo_accessOffstinlineHook wraps three functions of the kernel by such hooks. Its
-- callbacks log a call of a process that passes its filters, with the stack of the caller, which they
-- unwind. The user controls it by commands, which also set hardware breakpoints and read the memory of
-- other processes.
--
-- The files:
--   Base.antt: library names, Boolean tests on numbers, lists by native index, laws of the bit
--   operations.
--   Arm.antt: a machine for the A64 instructions that relocated code consists of, written from the
--   architecture and independent of the code. Registers hold 64 bits; a run takes one step of fuel per
--   word, and every layout has at most 8 words and only forward branches, so 8 steps are enough.
--   Hook.antt: kernel/base/hook.c up to hook_prepare. Hook/Types is hook_t and the constants of
--   kernel/include/hook.h, Hook/Insn the instruction table, Hook/Emit relo_in_tramp, the relo_*
--   functions and the absolute jumps, Hook/Relocate relocate_inst and hook_prepare. A function that
--   fills a buffer returns its words; a write past the end of an array, which the code does not check,
--   is `none`. Hook/Table to Hook/Prepare bound the writes, Hook/Success says when hook_prepare
--   succeeds, Hook/Places is about relo_in_tramp, Hook/Fields, Hook/Near, Hook/Behaviour and Hook/Loads
--   run the relocated words on the machine.
--   Chain.antt: hook_chain_add, hook_chain_remove and _transit0 to _transit12 of kernel/base/hook.c.
--   The four parallel arrays of hook_chain_t are a list of slots. The callbacks and the original are
--   parameters, functions on the arguments and an arbitrary world.
--   Memory.antt: kernel/base/hmem.c. A pointer to the union of a slot is the slot's index.
--   PageTable.antt: pgtable_entry and modify_entry_kernel of kernel/base/start.c. The walk is a recursion
--   on the levels that are left.
--   Inline.antt: branch_func_addr to hook_unwrap_remove of kernel/base/hook.c, on a state of the kernel's
--   code, its page table and the hook memory. Inline/Wrap is hook_wrap and hook_unwrap_remove, with the
--   compiled words of the transit functions as a parameter. The loop of branch_func_addr, which need not
--   end, runs on fuel; a result of `none` is a lack of fuel, a null pointer read or a write past the end
--   of an array. Inline/Text, Inline/Laws, Inline/Resolve, Inline/Copy prove what the parts do,
--   Inline/Errors to Inline/Roundtrip what hook and unhook do as a whole.
--   FpHook.antt: kernel/base/fphook.c, on a state of the kernel's data, its page table and the hook memory.
--   Its loops over the items of a chain and its transit functions are the text of kernel/base/hook.c and
--   use the definitions of Chain.antt, on 32 slots.
--   Kstorage.antt: kernel/patch/common/kstorage.c, a group as a list of records, newest first. vmalloc
--   and the copies from and to user space are parameters.
--   Symbol.antt: kernel/base/symbol.c, the table as a list of entries.
--   Predata.antt: the keys of kernel/base/predata.c, Predata/Extra its extra items. SHA-256 is a parameter, and a superkey's buffer that
--   begins with a terminator is taken to hold nothing else.
--   BaseLib.antt: the memory routines of kernel/base/baselib.c, on a memory of bytes, BaseLib/Search
--   lib_memcmp and lib_memmem, BaseLib/Strings and BaseLib/Sets the routines on strings. A loop that ends
--   at a terminator runs on fuel, one unit for each byte it reads.
--   Breakpoint.antt: hw_breakpoint.c of the module, its parallel arrays as one list of slots. Breakpoint/Set
--   is hw_breakpoint_set_for_pid, Breakpoint/Hit hw_bp_handler; what the kernel answers is an argument of
--   each, and its calls are their output. Breakpoint/Steps puts them together to a state machine, and
--   Breakpoint/Balance and Breakpoint/Events count the events over its runs.
--   Unwind.antt: stack_unwind.c. Unwind/Name is my_kbasename, Unwind/Vma get_vma_info_str, Unwind/Compat
--   my_unwind_compat, Unwind/Standard unwind_user_stack_standard. The loop over the frames takes the 32
--   iterations that the code allows.
--   Process.antt: process_memory.c and process_info.c, Process/Hex process_memory_read_hex on a memory of
--   bytes from its output on.
--   Su.antt: the users that su allows, in kernel/patch/common/sucompat.c, over Kstorage.antt. The hooks of
--   execve and the path of su are not modelled.
--   Order.antt: tools/order.c, and the numbers that tools/common.c unpacks. Image.antt: tools/image.c and the
--   branches of tools/common.c.
--   Kallsym.antt: tools/kallsym.c, an image as its byte at each place. Kallsym/Names and Kallsym/Lookup read
--   the compressed names, Kallsym/Search finds the banner, the token table and its index, Kallsym/Markers the
--   markers, the names and their number, Kallsym/Approx and Kallsym/Correct the addresses or offsets,
--   Kallsym/Named is what find_names has found. The
--   512 bytes of the buffer for a name, which the code does not check, are the predicate FitsBuffer.
--   Kallsym/Relo applies the relocations, Kallsym/Analyze puts these in order. What tools/insn.c says of an
--   instruction is a parameter. A loop has as much fuel as the image has bytes, or as there are places below
--   its start.
--   Control.antt: accessOffstinlineHook.c. Control/Parse and Control/Args read the arguments of commands,
--   Control/Command is the chain of tests of kpm_control, Control/Actions and Control/Run what the commands
--   do, Control/Filter should_hook_process, Control/Before the callbacks, Control/Module kpm_init and
--   kpm_exit. A reply is data, and the text that snprintf makes of it is a parameter. Control/Runs is the
--   state machine of the whole module.
--
-- Machine integers: an address is a number below 2 ^ 64 whose additions are reduced, a word of code a
-- number below 2 ^ 32, and so is an `int`, whose arithmetic wraps; shifts to the left are reduced where the code's type is.
--
-- Not modelled: cache and TLB maintenance, the protection that the page table gives to memory, concurrent
-- readers of a chain (the CHAIN_ITEM_STATE_BUSY window), and the parts of the program that no
-- file above names.
pub mod Arm
pub mod Base
pub mod BaseLib
pub mod Breakpoint
pub mod Chain
pub mod Control
pub mod FpHook
pub mod Hook
pub mod Image
pub mod Inline
pub mod Kallsym
pub mod Kstorage
pub mod Memory
pub mod Order
pub mod PageTable
pub mod Predata
pub mod Process
pub mod Su
pub mod Symbol
pub mod Unwind

-- ===== src/Hook.antt =====
-- The inline hook of kernel/base/hook.c, with the types of kernel/include/hook.h: the hook record,
-- the instruction table, the relocation of the instructions that a trampoline overwrites, and the
-- trampoline itself.
pub mod Types
pub mod Insn
pub mod Emit
pub mod Relocate
pub mod Table
pub mod Writes
pub mod Words
pub mod Bounds
pub mod Prepare
pub mod Success
pub mod Places
pub mod Fields
pub mod Near
pub mod Behaviour
pub mod Loads
mod Tests

-- ===== src/Chain.antt =====
-- The hook chain of kernel/base/hook.c (`hook_chain_add`, `hook_chain_remove`, the transit functions,
-- `hook_chain_prepare`) with `hook_chain_t` of kernel/include/hook.h.
pub mod Items
pub mod Transit
pub mod Invariant
pub mod Adding
pub mod Order
mod Tests

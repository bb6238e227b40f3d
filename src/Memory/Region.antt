-- ===== src/Memory/Region.antt =====
-- The slots of the hook memory of kernel/base/hmem.c, and the region that they are cut from.
use kpm_syscall_backtrace.Base.{ℕ, suc, ◌+◌, ◌-◌, ◌*◌, ◌%◌, ◌≤◌, ◌<◌, ◌≢◌, arith}
use kpm_syscall_backtrace.Memory.{warp_size, slot_count}

-- Every slot but the last lies inside the region.
pub slot_bounds : (size i : ℕ) → suc i < slot_count size → suc i * warp_size ≤ size
unfolding slot_count
slot_bounds size i h = omega arith

-- If the size of the region is no multiple of the slot's, the last slot begins inside the region and
-- ends behind it.
pub last_slot_overruns :
    (start size : ℕ)
    → size % warp_size ≢ 0
    → let last = slot_count size - 1 in
      (start + last * warp_size < start + size) × (start + size < start + suc last * warp_size)
unfolding slot_count
last_slot_overruns start size h = omega arith

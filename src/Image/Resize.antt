-- ===== src/Image/Resize.antt =====
-- What `get_kernel_info` of tools/image.c reads after `kernel_resize`.
use mathlib.Core.Option.{some-injective}
use kpm_syscall_backtrace.Base.{
  ℕ, ◌+◌, ◌-◌, ◌/◌, ◌%◌, ◌^◌, ◌<◌, ◌≡◌, refl, ap, sym, ◌∙◌, arith, if◌then◌else◌, ltb, Bool, true,
  false, some, none, Option,
}
use kpm_syscall_backtrace.Order.{load, store64, u64swp, u64le}
use kpm_syscall_backtrace.Order.Swap.{reversed32}
use kpm_syscall_backtrace.Order.Wide.{reversed-lt, reversed64, u64swp_lem}
use kpm_syscall_backtrace.Order.Unpack.{reversed_words}
use kpm_syscall_backtrace.Image.{KernelInfo, get_kernel_info, kernel_resize, u64_at}

-- A number that the host stores is the number that it loads.
load-store64 :
    (host_is_be : Bool) (img : ℕ → ℕ) (value : ℕ)
    → value < 2 ^ 64
    → load host_is_be (store64 host_is_be img 16 value) 16 8 ≡ value
load-store64 true img value h = omega (arith, h)
load-store64 false img value h = omega (arith, h)

reversed32_twice : (x : ℕ) → x < 2 ^ 32 → reversed32 (reversed32 x) ≡ x
reversed32_twice x h = omega (arith, h)

reversed64_twice : (x : ℕ) → x < 2 ^ 64 → reversed64 (reversed64 x) ≡ x
reversed64_twice x h =
    let low : x % 2 ^ 32 < 2 ^ 32 = omega arith in
    let high : x / 2 ^ 32 < 2 ^ 32 = omega (arith, h) in
    reversed_words (reversed32 (x / 2 ^ 32)) (reversed32 (x % 2 ^ 32)) (reversed-lt _ high)
    ∙ rw (reversed32_twice _ high, reversed32_twice _ low) (omega arith)

reversed64-lt : (x : ℕ) → x < 2 ^ 64 → reversed64 x < 2 ^ 64
reversed64-lt x h =
    omega
      (arith, reversed-lt (x % 2 ^ 32) (omega arith), reversed-lt (x / 2 ^ 32) (omega (arith, h)))

-- The size with its sign extended.
abbrev extended : ℕ → ℕ
extended size = if ltb size (2 ^ 31) then size else size + (2 ^ 64 - 2 ^ 32)

extended-lt : (size : ℕ) → size < 2 ^ 32 → extended size < 2 ^ 64
extended-lt size h = ground arith

extended_low : (size : ℕ) → size < 2 ^ 32 → extended size % 2 ^ 32 ≡ size
extended_low size h = ground arith

size_read :
    (host_is_be : Bool) (kinfo : KernelInfo) (img : ℕ → ℕ) (size : ℕ)
    → kinfo.is_be ≡ false
    → size < 2 ^ 32
    → u64_at host_is_be (kernel_resize host_is_be kinfo img size) 16 % 2 ^ 32 ≡ size
unfolding kernel_resize u64le
size_read true kinfo img size little small =
    let big = extended-lt size small in
    let stored : u64swp (extended size) ≡ reversed64 (extended size) = u64swp_lem _ big in
    rw
      (
        little,
        stored,
        load-store64 true img _ (reversed64-lt _ big),
        u64swp_lem _ (reversed64-lt _ big),
        reversed64_twice _ big,
      )
      (extended_low size small)
size_read false kinfo img size little small =
    rw (little, load-store64 false img _ (extended-lt size small)) (extended_low size small)

abbrev pub resized : ℕ → Option KernelInfo → Option KernelInfo
resized size none = none
resized size (some kinfo) = some (record kinfo { kernel_size = size })

guarded :
    (c : Bool) (size size' : ℕ) (kinfo : KernelInfo)
    → size' ≡ size
    → (if c then none else some (record kinfo { kernel_size = size' }))
      ≡ resized size (if c then none else some kinfo)
guarded true size size' kinfo e = refl
guarded false size size' kinfo e = rw e refl

guarded_eq :
    (c : Bool) (k kinfo : KernelInfo) → (if c then none else some k) ≡ some kinfo → k ≡ kinfo
guarded_eq true k kinfo e = cc
guarded_eq false k kinfo e = some-injective _ _ e

little_endian :
    (host_is_be : Bool) (img : ℕ → ℕ) (kinfo : KernelInfo)
    → get_kernel_info host_is_be img ≡ some kinfo
    → kinfo.is_be ≡ false
unfolding get_kernel_info
little_endian host_is_be img kinfo e =
    sym (ap (λ (k : KernelInfo). k.is_be) (guarded_eq _ _ kinfo e))

-- The store reaches no other field of the header.
only_size :
    (host_is_be : Bool) (kinfo : KernelInfo) (img : ℕ → ℕ) (size : ℕ)
    → kinfo.is_be ≡ false
    → size < 2 ^ 32
    → get_kernel_info host_is_be (kernel_resize host_is_be kinfo img size)
      ≡ resized size (get_kernel_info host_is_be img)
unfolding get_kernel_info kernel_resize
only_size host_is_be kinfo img size little small =
    guarded _ size _ _ (size_read host_is_be kinfo img size little small)

-- For a size that is the pattern of an int32_t: after `kernel_resize` with what `get_kernel_info` has
-- read, on a host of either byte order, it reads the new size and all else as before.
pub kernel_resize-read :
    (host_is_be : Bool) (img : ℕ → ℕ) (size : ℕ) (kinfo : KernelInfo)
    → size < 2 ^ 32
    → get_kernel_info host_is_be img ≡ some kinfo
    → get_kernel_info host_is_be (kernel_resize host_is_be kinfo img size)
      ≡ some (record kinfo { kernel_size = size })
kernel_resize-read host_is_be img size kinfo small e =
    only_size host_is_be kinfo img size (little_endian host_is_be img kinfo e) small
    ∙ ap (resized size) e

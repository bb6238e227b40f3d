-- ===== src/Predata.antt =====
-- kernel/base/predata.c: the keys that a caller of the kernel patch shows, and the random numbers. A key is
-- the list of the bytes in memory from its beginning on, past which memory reads as 0; the superkey is the
-- list of the bytes before its terminator.
pub mod Auth
pub mod Extra
mod Tests
use kpm_syscall_backtrace.Base.{
  c_string, same, ℕ, zero, suc, ◌+◌, ◌*◌, ◌%◌, ◌^◌, ◌==◌, bit_or, if◌then◌else◌, Bool, true, false,
  not, ◌&&◌, ◌||◌, List, [], ◌∷◌, ◌++◌, take, length, get_or, codes, ◌-◌,
}
use Prim.Native.Nat.{bit_xor}

abbrev pub super_key_len : ℕ
super_key_len = 64

-- The global variables, and the static `first_time` of `auth_superkey`.
pub record Keys : Type 0 where
  pub superkey : List ℕ
  pub root_superkey : List ℕ
  pub enable_root_key : Bool
  pub first_time : Bool
  pub rand_state : ℕ

-- The byte at the beginning of what lies in memory, and what comes after it.
abbrev pub byte_of : List ℕ → ℕ
byte_of [] = 0
byte_of (c ∷ key) = c

abbrev pub rest_of : List ℕ → List ℕ
rest_of [] = []
rest_of (c ∷ key) = key

-- The loop of `auth_superkey`, over the bytes of the superkey.
unfoldable pub compare_keys : ℕ → List ℕ → List ℕ → ℕ
compare_keys rc [] key = rc
compare_keys rc (c ∷ superkey) key =
    compare_keys (bit_or rc (bit_xor c (byte_of key))) superkey (rest_of key)

-- `lib_strlcpy` to the superkey's buffer.
unfoldable pub reset_superkey : Keys → List ℕ → Keys
reset_superkey keys key = record keys { superkey = take (super_key_len - 1) (c_string key) }

unfoldable pub enable_auth_root_key : Keys → Bool → Keys
enable_auth_root_key keys enable = record keys { enable_root_key = enable }

-- `sha256` is the hash of a text. 0 is success, and 1 is not.
unfoldable pub auth_superkey : (List ℕ → List ℕ) → Keys → List ℕ → ℕ × Keys
unfolding compare_keys reset_superkey
auth_superkey sha256 keys key =
    let hash = sha256 (take super_key_len (c_string key)) in
    let reset = record (reset_superkey keys key) { first_time = false; enable_root_key = false } in
    if compare_keys 0 keys.superkey key == 0
    then (0, keys)
    else if not keys.enable_root_key
    then (1, keys)
    else if same keys.root_superkey hash
    then (0, if keys.first_time then reset else keys)
    else (1, keys)

unfoldable pub rand_next : Keys → ℕ × Keys
rand_next keys =
    let next = (1103515245 * keys.rand_state + 12345) % 2 ^ 64 in
    (next, record keys { rand_state = next })

abbrev pub bstr : List ℕ
bstr = codes "ABCDEFGHIJKLMNOPQRSTUVWXYZabcdefghijklmnopqrstuvwxyz0123456789"

-- The loop of `predata_init` for a random key, and the keys after it.
unfoldable pub random_key : ℕ → Keys → List ℕ × Keys
unfolding rand_next
random_key zero keys = ([], keys)
random_key (suc n) keys =
    let (rand, keys') = rand_next keys in
    let (rest, keys'') = random_key n keys' in (get_or bstr (rand % length bstr) 0 ∷ rest, keys'')

-- What predata_init reads besides the keys: the numbers of the kernel and of the kernel patch, the first
-- eight bytes of the time of compilation as a number, and the words of the patch configuration.
pub record Start : Type 0 where
  pub kernel_va : ℕ
  pub kver : ℕ
  pub kpver : ℕ
  pub kp_region_start : ℕ
  pub kp_region_end : ℕ
  pub compile_time : ℕ
  pub patch_config : List ℕ

-- `*(uint64_t *)` of the bytes of a key.
unfoldable pub word_of : ℕ → List ℕ → ℕ
word_of zero key = 0
word_of (suc n) key = byte_of key + 256 * word_of n (rest_of key)

abbrev pub rand_mul : ℕ → ℕ → ℕ
rand_mul rand by = rand * by % 2 ^ 64

abbrev pub rand_mul_nonzero : ℕ → ℕ → ℕ
rand_mul_nonzero rand by = if by == 0 then rand else rand_mul rand by

unfoldable pub mix_rand : Start → Keys → ℕ
unfolding word_of
mix_rand start keys =
    let rand : ℕ =
      rand_mul (rand_mul (rand_mul keys.rand_state start.kernel_va) start.kver) start.kpver in
    let rand' : ℕ = rand_mul (rand_mul rand start.kp_region_start) start.kp_region_end in
    rand_mul_nonzero
      (rand_mul_nonzero (rand_mul_nonzero rand' start.compile_time) (word_of 8 keys.superkey))
      (word_of 8 keys.root_superkey)

-- The loop over the words of the patch configuration.
unfoldable pub relocate_config : ℕ → List ℕ → List ℕ
relocate_config kernel_va [] = []
relocate_config kernel_va (p ∷ config) =
    (if p == 0 then p else (p + kernel_va) % 2 ^ 64) ∷ relocate_config kernel_va config

-- The keys and the patch configuration.
unfoldable pub predata_init : Start → Keys → Keys × List ℕ
unfolding mix_rand random_key relocate_config
predata_init start keys =
    let mixed : Keys = record keys { rand_state = mix_rand start keys; enable_root_key = false } in
    let config : List ℕ = relocate_config start.kernel_va start.patch_config in
    let (key, keys') = random_key 15 mixed in
    if length keys.superkey == 0
    then (record keys' { superkey = key; enable_root_key = true }, config)
    else (mixed, config)

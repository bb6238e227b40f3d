-- ===== src/Predata/Tests.antt =====
-- predata.c on small keys, and the theorems about it there.
use kpm_syscall_backtrace.Base.{
  ℕ, ◌==◌, if◌then◌else◌, some, ◌≡◌, ◌⊎◌, refl, true, List, [], ◌∷◌, length, codes,
}
use kpm_syscall_backtrace.Predata.{Keys, Start, auth_superkey, predata_init}
use kpm_syscall_backtrace.Predata.Extra.{PatchExtraItem, on_each_extra_item}
use kpm_syscall_backtrace.Predata.Auth.{BeginsWith, IsRoot, auth_superkey-Decides}

abbrev keys : Keys
keys = record {
  superkey = codes "secret";
  root_superkey = codes "toor";
  enable_root_key = true;
  first_time = true;
  rand_state = 1000000007;
}

-- A hash that turns "root" to "toor".
abbrev hash : List ℕ → List ℕ
hash text = elim text [ [] ↦ [] | c ∷ rest ↦ codes "toor" ]

accepted_longer : (auth_superkey hash keys (codes "secretive")).0 ≡ 0
unfolding auth_superkey
accepted_longer = refl

abbrev start : Start
start = record {
  kernel_va = 0xFFFFFFC008000000;
  kver = 0x50A00;
  kpver = 0xA00;
  kp_region_start = 0xFFFFFFC00A000000;
  kp_region_end = 0xFFFFFFC00A100000;
  compile_time = 0x3A3032203A383131;
  patch_config = 0x1000 ∷ 0 ∷ [];
}

random_key_set : length (predata_init start (record keys { superkey = [] })).0.superkey ≡ 15
unfolding predata_init
random_key_set = refl

config_relocated : (predata_init start keys).1 ≡ 0xFFFFFFC008001000 ∷ 0 ∷ []
unfolding predata_init
config_relocated = refl

auth_superkey-Decides_example :
    ((((auth_superkey hash keys (codes "secretive")).0 ≡ 0)
      × (BeginsWith keys.superkey (codes "secretive") ⊎ IsRoot hash keys (codes "secretive"))))
    ⊎ ((auth_superkey hash keys (codes "secretive") ≡ (1, keys))
        × (¬ BeginsWith keys.superkey (codes "secretive"))
        × ¬ IsRoot hash keys (codes "secretive"))
auth_superkey-Decides_example = auth_superkey-Decides hash keys (codes "secretive")

abbrev item_of : ℕ → ℕ → ℕ → PatchExtraItem
item_of args_size con_size extra_type = record {
  magic = codes "kpe";
  priority = 0;
  args_size = args_size;
  con_size = con_size;
  extra_type = extra_type;
  name = codes "item";
  event = codes "pre-kernel-init";
}

-- An item with arguments at 4096, and one without behind it.
abbrev items_at : ℕ → PatchExtraItem
items_at addr =
    if addr == 4096 then item_of 16 32 1 else if addr == 4272 then item_of 0 64 4 else item_of 0 0 0

-- What the callback has been called with, the last first.
abbrev collect : ℕ → PatchExtraItem → ℕ → ℕ → List ℕ → ℕ × List ℕ
collect rc item args con seen = (rc, args ∷ con ∷ seen)

visited_both :
    on_each_extra_item items_at (collect 0) 3 4096 8192 [] ≡ some (0, 0 ∷ 4400 ∷ 4224 ∷ 4240 ∷ [])
unfolding on_each_extra_item
visited_both = refl

stopped_after_first :
    on_each_extra_item items_at (collect 7) 1 4096 8192 [] ≡ some (7, 4224 ∷ 4240 ∷ [])
unfolding on_each_extra_item
stopped_after_first = refl

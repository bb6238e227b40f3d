-- ===== src/Predata/Extra.antt =====
-- on_each_extra_item of kernel/base/predata.c, over the items that lie behind the kernel patch. `read` is
-- the item at an address, an int32_t its pattern, and `S` what `udata` points to.
use kpm_syscall_backtrace.Base.{
  ℕ, zero, suc, ◌+◌, ◌%◌, ◌^◌, ◌<◌, ◌≤◌, ◌==◌, ltb, if◌then◌else◌, true, false, ◌≡◌, ◌⊎◌, inl, inr,
  refl, ap, ◌∙◌, not, ◌&&◌, Bool, Option, none, some, List, [], ◌∷◌, length, arith,
}
use kpm_syscall_backtrace.Order.{sign_extended}

abbrev pub patch_extra_item_len : ℕ
patch_extra_item_len = 128

abbrev pub extra_type_none : ℕ
extra_type_none = 0

pub record PatchExtraItem : Type 0 where
  pub magic : List ℕ
  pub priority : ℕ
  pub args_size : ℕ
  pub con_size : ℕ
  pub extra_type : ℕ
  pub name : List ℕ
  pub event : List ℕ

-- The additions to `item_addr`, whose operands of type int32_t are extended.
unfoldable pub next_item : ℕ → PatchExtraItem → ℕ
next_item item_addr item =
    (item_addr
      + patch_extra_item_len
      + sign_extended 32 item.args_size
      + sign_extended 32 item.con_size)
    % 2 ^ 64

-- The callback has the item, `args`, `con` and `udata`. The `break` of the loop over the magic leaves that
-- loop alone, which so has no effect. The result is `none` when the fuel runs out.
unfoldable pub on_each_extra_item {ℓ} :
    {S : Type ℓ}
    → (ℕ → PatchExtraItem)
    → (PatchExtraItem → ℕ → ℕ → S → ℕ × S)
    → ℕ
    → ℕ
    → ℕ
    → S
    → Option (ℕ × S)
unfolding next_item
on_each_extra_item read callback zero item_addr end udata = none
on_each_extra_item read callback (suc fuel) item_addr end udata =
    let item = read item_addr in
    let args : ℕ =
      if not (item.args_size == 0) && ltb item.args_size (2 ^ 31)
      then (item_addr + patch_extra_item_len) % 2 ^ 64
      else 0 in
    let con : ℕ = (item_addr + patch_extra_item_len + sign_extended 32 item.args_size) % 2 ^ 64 in
    let called = callback item args con udata in
    let rest = on_each_extra_item read callback fuel (next_item item_addr item) end called.1 in
    if not (ltb item_addr end)
    then some (0, udata)
    else if item.extra_type == extra_type_none
    then some (0, udata)
    else if not (called.0 == 0)
    then some called
    else rest

-- The items lie one behind the other from an address on, each with its arguments and its content, up to
-- the end or an item of no type.
abbrev pub LaidOut : (ℕ → PatchExtraItem) → ℕ → ℕ → List PatchExtraItem → Type 0
LaidOut read addr end [] = (end ≤ addr) ⊎ ((read addr).extra_type ≡ 0)
LaidOut read addr end (item ∷ items) =
    (addr < end)
    × (read addr ≡ item)
    × (1 ≤ item.extra_type)
    × (item.args_size < 2 ^ 31)
    × (item.con_size < 2 ^ 31)
    × (addr + 128 + item.args_size + item.con_size < 2 ^ 64)
    × LaidOut read (addr + 128 + item.args_size + item.con_size) end items

-- The calls for a list of items, up to the first that does not return 0.
unfoldable pub visit {ℓ} :
    {S : Type ℓ} → (PatchExtraItem → ℕ → ℕ → S → ℕ × S) → ℕ → List PatchExtraItem → S → ℕ × S
visit callback addr [] udata = (0, udata)
visit callback addr (item ∷ items) udata =
    let args : ℕ = if item.args_size == 0 then 0 else addr + 128 in
    let called = callback item args (addr + 128 + item.args_size) udata in
    let rest = visit callback (addr + 128 + item.args_size + item.con_size) items called.1 in
    if called.0 == 0 then rest else called

args_address :
    (addr size : ℕ)
    → addr + 128 < 2 ^ 64
    → size < 2 ^ 31
    → (if not (size == 0) && ltb size (2 ^ 31) then (addr + 128) % 2 ^ 64 else 0)
      ≡ (if size == 0 then 0 else addr + 128)
args_address addr size fits small = ground arith

extended : (size : ℕ) → size < 2 ^ 31 → sign_extended 32 size ≡ size
extended size small = ground arith

if-same {ℓ} : {A : Type ℓ} → (b : Bool) (x : A) → (if b then x else x) ≡ x
if-same true x = refl
if-same false x = refl

-- The addresses of an item's content and of the next item, where nothing wraps.
con_address :
    (addr args con : ℕ)
    → args < 2 ^ 31
    → addr + 128 + args + con < 2 ^ 64
    → (addr + 128 + sign_extended 32 args) % 2 ^ 64 ≡ addr + 128 + args
con_address addr args con small fits = rw (extended args small) (ground arith)

next_item-adds :
    (addr : ℕ) (item : PatchExtraItem)
    → item.args_size < 2 ^ 31
    → item.con_size < 2 ^ 31
    → addr + 128 + item.args_size + item.con_size < 2 ^ 64
    → next_item addr item ≡ addr + 128 + item.args_size + item.con_size
unfolding next_item
next_item-adds addr item small small_con fits =
    rw (extended item.args_size small, extended item.con_size small_con) (ground arith)

some-if {ℓ} :
    {A : Type ℓ}
    → (b : Bool) (x y : A) → (if not b then some x else some y) ≡ some (if b then y else x)
some-if true x y = refl
some-if false x y = refl

on_each_extra_item-last {ℓ} :
    {S : Type ℓ}
    → (read : ℕ → PatchExtraItem) (callback : PatchExtraItem → ℕ → ℕ → S → ℕ × S)
    → (fuel addr end : ℕ) (udata : S) → LaidOut read addr end []
    → on_each_extra_item read callback (suc fuel) addr end udata ≡ some (0, udata)
unfolding on_each_extra_item
on_each_extra_item-last read callback fuel addr end udata laid = elim laid [
  | inl past ↦ ground arith
  | inr none_type ↦ rw none_type (if-same (not (ltb addr end)) (some (0, udata)))
]

on_each_extra_item-step {ℓ} :
    {S : Type ℓ}
    → (read : ℕ → PatchExtraItem) (callback : PatchExtraItem → ℕ → ℕ → S → ℕ × S)
    → (fuel addr end : ℕ) (item : PatchExtraItem) (items : List PatchExtraItem) (udata : S)
    → LaidOut read addr end (item ∷ items)
    → on_each_extra_item read callback (suc fuel) addr end udata ≡ (
        let args : ℕ = if item.args_size == 0 then 0 else addr + 128 in
        let called = callback item args (addr + 128 + item.args_size) udata in
        let next = addr + 128 + item.args_size + item.con_size in
        if not (called.0 == 0)
        then some called
        else on_each_extra_item read callback fuel next end called.1)
unfolding on_each_extra_item
on_each_extra_item-step read callback fuel addr end item items udata laid =
    let (before, e, typed, small, small_con, fits, rest) = laid in
    let e0 : ltb addr end ≡ true = ground arith in
    let e1 : (item.extra_type == 0) ≡ false = ground arith in
    let room : addr + 128 < 2 ^ 64 = omega (arith, fits) in
    rw
      (
        e,
        e0,
        e1,
        args_address addr item.args_size room small,
        con_address addr item.args_size item.con_size small fits,
        next_item-adds addr item small small_con fits,
      )
      refl

-- The items that are laid out are visited in their order, with the addresses of their arguments and
-- contents, and one step more than there are items is enough.
on_each_extra_item-visit {ℓ} :
    {S : Type ℓ}
    → (read : ℕ → PatchExtraItem) (callback : PatchExtraItem → ℕ → ℕ → S → ℕ × S)
    → (addr end : ℕ) (items : List PatchExtraItem) (udata : S) → LaidOut read addr end items
    → on_each_extra_item read callback (suc (length items)) addr end udata
      ≡ some (visit callback addr items udata)
unfolding visit
on_each_extra_item-visit read callback addr end [] udata laid =
    on_each_extra_item-last read callback 0 addr end udata laid
on_each_extra_item-visit read callback addr end (item ∷ items) udata laid =
    let args : ℕ = if item.args_size == 0 then 0 else addr + 128 in
    let called = callback item args (addr + 128 + item.args_size) udata in
    let later =
      on_each_extra_item-visit read callback (addr + 128 + item.args_size + item.con_size) end items
        called.1 laid.6 in
    on_each_extra_item-step read callback (suc (length items)) addr end item items udata laid
    ∙ ap (λ r. if not (called.0 == 0) then some called else r) later
    ∙ some-if (called.0 == 0) called
        (visit callback (addr + 128 + item.args_size + item.con_size) items called.1)

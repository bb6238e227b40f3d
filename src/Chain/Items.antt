-- ===== src/Chain/Items.antt =====
-- kernel/base/hook.c, hook_chain_add and hook_chain_remove. The four parallel arrays of
-- `hook_chain_t` are one list of slots; a callback or a datum is its address, 0 for none.
use kpm_syscall_backtrace.Base.{
  ℕ, suc, ◌+◌, ◌==◌, ltb, if◌then◌else◌, Bool, true, false, not, ◌&&◌, ◌||◌, List, [], ◌∷◌,
  replicate,
}
use kpm_syscall_backtrace.Hook.Types.{HookErr, no_err, duplicated, chain_full}

-- `chain_item_state`. CHAIN_ITEM_STATE_BUSY is what other processors see during an update.
pub data State : Type 0 where
  empty ready busy : State

pub record Slot : Type 0 where
  pub state : State
  pub udata : ℕ
  pub before : ℕ
  pub after : ℕ

-- The part of `hook_chain_t` that the chain operations use.
pub record Chain : Type 0 where
  pub chain_items_max : ℕ
  pub slots : List Slot

abbrev pub hook_chain_num : ℕ
hook_chain_num = 0x10

abbrev pub empty_slot : Slot
empty_slot = record { state = empty; udata = 0; before = 0; after = 0 }

-- A chain in memory that `hook_mem_zalloc` has cleared.
abbrev pub new_chain : Chain
new_chain = record { chain_items_max = 0; slots = replicate hook_chain_num empty_slot }

abbrev pub is_empty : State → Bool
is_empty empty = true
is_empty _ = false

abbrev pub is_ready : State → Bool
is_ready ready = true
is_ready _ = false

-- `(before && befores[i] == before) || (after && afters[i] == after)`
abbrev pub matches : ℕ → ℕ → Slot → Bool
matches before after s =
    not (before == 0) && s.before == before || not (after == 0) && s.after == after

-- The loop of `hook_chain_add` from slot `i` on: the error, the slots and the bound that it leaves.
unfoldable pub add_from : ℕ → ℕ → ℕ → ℕ → ℕ → List Slot → HookErr × List Slot × ℕ
add_from before after udata i items_max [] = (chain_full, [], items_max)
add_from before after udata i items_max (s ∷ slots) =
    let (rc, slots', items_max') = add_from before after udata (suc i) items_max slots in
    if matches before after s
    then (duplicated, s ∷ slots, items_max)
    else if is_empty s.state
    then (
      no_err,
      record { state = ready; udata = udata; before = before; after = after } ∷ slots,
      if ltb items_max (i + 1) then i + 1 else items_max,
    )
    else (rc, s ∷ slots', items_max')

unfoldable pub hook_chain_add : Chain → ℕ → ℕ → ℕ → HookErr × Chain
unfolding add_from
hook_chain_add chain before after udata =
    let (rc, slots, items_max) = add_from before after udata 0 chain.chain_items_max chain.slots in
    (rc, record { chain_items_max = items_max; slots = slots })

-- The loop of `hook_chain_remove`, which stops at the first slot that it clears.
unfoldable pub remove_from : ℕ → ℕ → List Slot → List Slot
remove_from before after [] = []
remove_from before after (s ∷ slots) =
    let rest = remove_from before after slots in
    if is_ready s.state && matches before after s then empty_slot ∷ slots else s ∷ rest

unfoldable pub hook_chain_remove : Chain → ℕ → ℕ → Chain
unfolding remove_from
hook_chain_remove chain before after = record chain { slots = remove_from before after chain.slots }

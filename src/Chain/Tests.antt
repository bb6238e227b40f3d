-- ===== src/Chain/Tests.antt =====
-- A chain with two callbacks, and the theorems of the Chain modules at it.
use kpm_syscall_backtrace.Base.{ℕ, ◌≡◌, refl, arith, false, inl, inr, List, [], ◌∷◌, replicate}
use kpm_syscall_backtrace.Chain.Items.{Chain, empty_slot, hook_chain_add, hook_chain_remove}
use kpm_syscall_backtrace.Chain.Transit.{Fargs, call_origin, transit}
use kpm_syscall_backtrace.Chain.Invariant.{IsWf, filled, hook_chain_add-IsWf}
use kpm_syscall_backtrace.Chain.Adding.{Adds, hook_chain_add-Adds, remove-add}
use kpm_syscall_backtrace.Chain.Order.{transit-ready_slots}

-- A hole at slot 0, behind it one slot in use.
abbrev holed : Chain
holed = record { chain_items_max = 2; slots = empty_slot ∷ filled 7 9 1 ∷ replicate 14 empty_slot }

holed-IsWf : IsWf holed
holed-IsWf = record {
  size = refl;
  bound = omega arith;
  slots_wf = (
    inl refl,
    (
      inr (refl, omega arith),
      (
        inl refl,
        (
          inl refl,
          (
            inl refl,
            (
              inl refl,
              (
                inl refl,
                (
                  inl refl,
                  (
                    inl refl,
                    (
                      inl refl,
                      (inl refl, (inl refl, (inl refl, (inl refl, (inl refl, (inl refl, tt)))))),
                    ),
                  ),
                ),
              ),
            ),
          ),
        ),
      ),
    ),
  );
}

fills_the_hole :
    (hook_chain_add holed 5 6 2).1.slots ≡ filled 5 6 2 ∷ filled 7 9 1 ∷ replicate 14 empty_slot
unfolding hook_chain_add
fills_the_hole = refl

hook_chain_add-Adds_example :
    Adds 5 6 2 holed.slots (hook_chain_add holed 5 6 2).0 (hook_chain_add holed 5 6 2).1.slots
hook_chain_add-Adds_example = hook_chain_add-Adds 5 6 holed 2 holed-IsWf

remove-add_example : (hook_chain_remove (hook_chain_add holed 5 6 2).1 5 6).slots ≡ holed.slots
unfolding hook_chain_add
remove-add_example = remove-add 5 6 holed 2 holed-IsWf (inl (omega arith)) refl

-- Callbacks that write their address to a log, and an original that returns 40.
abbrev log_call : ℕ → ℕ → Fargs × List ℕ → Fargs × List ℕ
log_call func udata (f, log) = (f, func ∷ log)

abbrev log_origin : List ℕ → List ℕ → ℕ × List ℕ
log_origin args log = (40, 0 ∷ log)

abbrev no_args : Fargs
no_args = record { skip_origin = false; args = []; ret = 0; local = [] }

transit-ready_slots_example :
    transit log_call log_origin (hook_chain_add holed 5 6 2).1 no_args []
    ≡ (40, 6 ∷ 9 ∷ 0 ∷ 7 ∷ 5 ∷ [])
unfolding hook_chain_add call_origin
transit-ready_slots_example =
    transit-ready_slots log_call log_origin (hook_chain_add holed 5 6 2).1 no_args []
      (hook_chain_add-IsWf 5 6 2 holed holed-IsWf)

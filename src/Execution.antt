-- ===== src/Execution.antt =====
-- packages/bundler/src/modules/ExecutionManager.ts: an operation on its way into the mempool, and
-- when a bundle is sent. The calls of the other managers are the fields of an interface; a state of
-- theirs goes through each. `setInterval` and `clearInterval` are a timer that is set or not.
pub mod Laws
pub mod Program
pub mod Admitted
use bundler.Common.{
  ℕ, ◌*◌, Bool, true, false, ◌&&◌, ◌||◌, not, Option, none, some, List, [], ◌∷◌, if◌then◌else◌, leb,
  ltb, ◌==◌, Result, ok, err, zero, suc,
}
use bundler.Common.Text.{Text, same, codes}
use bundler.Types.{Operation, ValidationResult, Error, type_error}

-- An outcome with the state that is left, whether or not there is an exception.
abbrev pub Action : Type 0 → Type 0 → Type 0
Action S A = S → S × Result Error A

-- One action after another, which an exception of the first keeps from running.
abbrev pub then_do : {S A B : Type 0} → Action S A → (A → Action S B) → Action S B
then_do first rest st =
    let (st', outcome) = first st in elim outcome [ err e ↦ (st', err e) | ok a ↦ rest a st' ]

abbrev pub done : {S A : Type 0} → A → Action S A
done a st = (st, ok a)

-- What the manager calls, on the others' state `S`, for bundles of a type `B`.
pub record Managers (S B : Type 0) : Type 1 where
  pub validate_input_parameters : Operation → Text → Action S (Unit {0})
  pub validate_user_op : Operation → Action S ValidationResult
  pub get_operation_hash : Operation → Action S Text
  pub check_paymaster_deposit : Operation → Action S (Unit {0})
  pub add_user_op : Bool → Operation → Text → ValidationResult → Action S (Unit {0})
  pub count : S → ℕ
  pub send_next_bundle : Action S (Option B)
  pub handle_past_events : Action S (Unit {0})
  pub clear_cache : S → S
  -- A transaction of 1 wei, and whether there is a receipt at a poll.
  pub send_wei : Action S Text
  pub mined : Text → ℕ → Bool
  pub empty_validation : ValidationResult

pub record Execution : Type 0 where
  pub reputation_cron : Option ℕ
  pub auto_bundle_interval : Option ℕ
  pub max_mempool_size : ℕ
  pub auto_interval : ℕ
  pub rip7560 : Bool
  pub use_rip7560_mode : Option Text
  pub geth_dev_mode : Bool

unfoldable pub is_mode : Text → Execution → Bool
is_mode mode x = elim x.use_rip7560_mode [ none ↦ false | some m ↦ same m mode ]

unfoldable pub set_reputation_cron : ℕ → Execution → Execution
set_reputation_cron interval x = record x {
  reputation_cron = if interval == 0 then none else some interval;
}

-- The timer of `setAutoBundler` runs in milliseconds.
unfoldable pub set_auto_bundler : ℕ → ℕ → Execution → Execution
set_auto_bundler interval size x = record x {
  auto_bundle_interval = if interval == 0 then none else some (interval * 1000);
  auto_interval = interval;
  max_mempool_size = size;
}

-- The polls from one on, `left` more of them: an exception after the one of number 21.
unfoldable pub wait_mined : {S B : Type 0} → Managers S B → Text → ℕ → ℕ → Bool
wait_mined m hash zero i = m.mined hash i
wait_mined m hash (suc left) i =
    let rest = wait_mined m hash left (suc i) in if m.mined hash i then true else rest

unfoldable pub flush_dev : {S B : Type 0} → Managers S B → Action S (Option B)
unfolding wait_mined
flush_dev m = then_do m.send_wei λ hash.
    if wait_mined m hash 21 0
    then then_do m.handle_past_events (λ _. done none)
    else (λ st. (st, err type_error))

-- The part of `attemptBundle` with a bundle.
unfoldable pub send_now : {S B : Type 0} → Managers S B → Execution → Action S (Option B)
send_now m x = then_do m.send_next_bundle λ ret.
    then_do (if x.max_mempool_size == 0 then m.handle_past_events else done tt)
      λ _ st. (m.clear_cache st, ok ret)

unfoldable pub attempt_bundle :
    {S B : Type 0} → Managers S B → Execution → Bool → Action S (Option B)
unfolding send_now flush_dev is_mode
attempt_bundle m x force st =
    if x.rip7560 && is_mode (codes "PULL") x && x.geth_dev_mode && force
    then flush_dev m st
    else if force || leb x.max_mempool_size (m.count st)
    then send_now m x st
    else (st, ok none)

-- `sendUserOperation` from its end on: each definition is a step and those after it.
unfoldable pub bundle_pending : {S B : Type 0} → Managers S B → Execution → Action S (Unit {0})
unfolding attempt_bundle is_mode
bundle_pending m x =
    if not x.rip7560 || is_mode (codes "PUSH") x
    then then_do (attempt_bundle m x false) (λ _. done tt)
    else done tt

unfoldable pub place_op :
    {S B : Type 0}
    → Managers S B
    → Execution
    → Operation
    → Bool
    → Text
    → ValidationResult
    → Action S (Unit {0})
unfolding bundle_pending
place_op m x op skip hash v = then_do (m.add_user_op skip op hash v) λ _. bundle_pending m x

unfoldable pub pay_op :
    {S B : Type 0}
    → Managers S B
    → Execution
    → Operation
    → Bool
    → ValidationResult
    → Text
    → Action S (Unit {0})
unfolding place_op
pay_op m x op skip v hash = then_do (m.check_paymaster_deposit op) λ _. place_op m x op skip hash v

unfoldable pub name_op :
    {S B : Type 0}
    → Managers S B
    → Execution
    → Operation
    → Bool
    → ValidationResult
    → Action S (Unit {0})
unfolding pay_op
name_op m x op skip v = then_do (m.get_operation_hash op) (pay_op m x op skip v)

abbrev pub check_rules :
    {S B : Type 0} → Managers S B → Operation → Bool → Action S ValidationResult
check_rules m op skip = if skip then done m.empty_validation else m.validate_user_op op

unfoldable pub validate_op :
    {S B : Type 0} → Managers S B → Execution → Operation → Bool → Action S (Unit {0})
unfolding name_op
validate_op m x op skip = then_do (check_rules m op skip) (name_op m x op skip)

unfoldable pub send_user_operation :
    {S B : Type 0} → Managers S B → Execution → Operation → Text → Bool → Action S (Unit {0})
unfolding validate_op
send_user_operation m x op entry_point skip =
    then_do (m.validate_input_parameters op entry_point) λ _. validate_op m x op skip

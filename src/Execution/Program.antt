-- ===== src/Execution/Program.antt =====
-- What packages/bundler/src/modules/initServer.ts puts together for ERC-4337: the other managers of the
-- program behind the interface of ExecutionManager.ts.
use bundler.Common.{ℕ, Bool, true, none, some, Option, Result, ok, err, length}
use bundler.Common.Text.{Text}
use bundler.Common.Dict.{Dict}
use bundler.Doubles.{Doubles}
use bundler.Types.{Operation, ValidationResult, Error}
use bundler.InputCheck.{InputError, validate_input_parameters}
use bundler.Erc7562.{Parser}
use bundler.Validation.{Failure}
use bundler.Validation.Manager.{ValidationManager, validate_user_op}
use bundler.Deposit.{check_paymaster_deposit, clear_cache}
use bundler.Mempool.Defs.{State, add_user_op}
use bundler.Events.{Events, QueryResult, handle_past_events}
use bundler.Bundle.{Node, Settings, SendBundleReturn}
use bundler.Bundle.Loop.{send_next_bundle}
use bundler.Execution.{Action, Managers}

-- The state of all managers: the events manager's with the mempool and the reputation, the cache of
-- deposits, and the parser of the validation manager.
pub record World : Type 0 where
  pub events : Events
  pub deposits : Dict ℕ
  pub parser : Parser

-- What the managers call outside of the program, and how they are set up. An exception of one manager
-- is passed on as one of all; `fields` are the fields of an operation as they are sent.
pub record Services : Type 0 where
  pub fields : Operation → Dict Text
  pub gas_valid : Dict Text → Bool
  pub entry_point : Text
  pub validation : ValidationManager
  pub hash_of : Operation → Result Error Text
  pub balance_of : Text → Result Error ℕ
  pub doubles : Doubles
  pub node : Node
  pub settings : Settings
  pub signer_balance : Text → Result Error ℕ
  pub signer : Text
  pub block_number : ℕ
  pub query : ℕ → QueryResult
  pub send_wei : Result Error Text
  pub mined : Text → ℕ → Bool
  pub input_error : InputError → Error
  pub failure : Failure → Error
  pub message_error : Text → Error
  pub empty_validation : ValidationResult

abbrev pub passed_on : {E A : Type 0} → (E → Error) → Result E A → Result Error A
passed_on f (ok a) = ok a
passed_on f (err e) = err (f e)

module _ (x : Services) where
  unfoldable pub check_input : Operation → Text → Action World (Unit {0})
  unfolding validate_input_parameters
  check_input op input st = (
    st,
    passed_on x.input_error (
        validate_input_parameters x.gas_valid x.entry_point (some (x.fields op)) (some input) true
          true),
  )

  unfoldable pub validate_first : Operation → Action World ValidationResult
  unfolding validate_user_op
  validate_first op st =
      let (parser, outcome) = validate_user_op x.validation op none st.parser in
      (record st { parser = parser }, passed_on x.failure outcome)

  unfoldable pub check_deposit : Operation → Action World (Unit {0})
  unfolding check_paymaster_deposit
  check_deposit op st =
      let (deposits, outcome) =
        check_paymaster_deposit x.balance_of op st.events.managers.pool.mempool st.deposits in
      (record st { deposits = deposits }, outcome)

  abbrev pub with_managers : World → State → World
  with_managers st managers = record st { events = record st.events { managers = managers } }

  unfoldable pub add_to_mempool :
      Bool → Operation → Text → ValidationResult → Action World (Unit {0})
  unfolding add_user_op
  add_to_mempool skip op hash v st =
      elim (add_user_op x.doubles skip op hash v st.events.managers) [
        | err e ↦ (st, err e)
        | ok managers ↦ (with_managers st managers, ok tt)
      ]

  unfoldable pub flush_events : Action World (Unit {0})
  unfolding handle_past_events
  flush_events st =
      let (events, outcome) = handle_past_events x.block_number x.query st.events in
      (record st { events = events }, passed_on x.message_error outcome)

  -- A bundle's entries are validated again by the validation manager, with the hashes of their
  -- contracts; each starts from the parser as it is before the bundle, which requireCompliance
  -- resets.
  abbrev pub validating : World → Node
  validating st = record x.node {
    validate = λ op contracts.
        passed_on x.failure (validate_user_op x.validation op (some contracts) st.parser).1;
  }

  -- The scan of past events comes first.
  unfoldable pub send_pending : Action World (Option SendBundleReturn)
  unfolding send_next_bundle flush_events
  send_pending st =
      let (st', flushed) = flush_events st in
      let (managers, outcome) =
        send_next_bundle (validating st') x.settings (λ _. (st'.events.managers, flushed))
          x.signer_balance x.signer st'.events.managers in
      (with_managers st' managers, outcome)

  unfoldable pub program_managers : Managers World SendBundleReturn
  unfolding check_input validate_first check_deposit add_to_mempool flush_events send_pending
      clear_cache
  program_managers = record {
    validate_input_parameters = check_input;
    validate_user_op = validate_first;
    get_operation_hash = λ op st. (st, x.hash_of op);
    check_paymaster_deposit = check_deposit;
    add_user_op = add_to_mempool;
    count = λ st. length st.events.managers.pool.mempool;
    send_next_bundle = send_pending;
    handle_past_events = flush_events;
    clear_cache = λ st. record st { deposits = clear_cache st.deposits };
    send_wei = λ st. (st, x.send_wei);
    mined = x.mined;
    empty_validation = x.empty_validation;
  }

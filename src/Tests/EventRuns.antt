-- ===== src/Tests/EventRuns.antt =====
-- EventsManager and DepositManager at concrete inputs.
use bundler.Common.{
  ◌≡◌, ◌≤◌, ◌+◌, ◌*◌, ◌↔◌, refl, ℕ, ◌==◌, if◌then◌else◌, inr, none, some, ok, [], ◌∷◌, arith,
}
use bundler.Common.Text.{codes}
use bundler.Utils.{get_user_op_max_cost}
use bundler.Events.{
  Event, Events, user_operation_event, signature_aggregator, handle_events, handle_past_events,
  events, QueryResult,
}
use bundler.Events.Laws.{
  IsSound, IsStart, last_number, handle_events-IsSound, handle_past_events-twice,
}
use bundler.Deposit.{get_cached_deposit, check_paymaster_deposit}
use bundler.Deposit.Laws.{pending_of, check_paymaster_deposit-ok}
use bundler.Tests.Samples.{alice, payer, maker, maker_op, pending_pool, pending_state}
use bundler.Tests.ReputationRuns.{rated-IsWellFormed}
use bundler.Tests.MempoolRuns.{pending_pool-IsCounted, pending_pool-IsUnique}

abbrev included : Event
included = record {
  args = user_operation_event (codes "h2") maker payer;
  block_number = 70;
  transaction_hash = codes "t1";
}

abbrev aggregated : Event
aggregated = record {
  args = signature_aggregator alice;
  block_number = 70;
  transaction_hash = codes "t1";
}

abbrev listening : Events
listening = record {
  last_block = some 60;
  event_aggregator = none;
  event_aggregator_tx_hash = none;
  managers = pending_state;
}

pending_state-IsSound : IsSound pending_state
pending_state-IsSound = record {
  table = rated-IsWellFormed;
  counted = pending_pool-IsCounted;
  unique = pending_pool-IsUnique;
}

handle_events-IsSound_example :
    IsSound (handle_events (aggregated ∷ included ∷ []) listening).managers
handle_events-IsSound_example =
    handle_events-IsSound (aggregated ∷ included ∷ []) listening pending_state-IsSound

-- A listener that has not seen a block, at block 1065.
abbrev starting : Events
starting = record listening { last_block = none }

starting-IsStart : IsStart 1065 starting 65
unfolding IsStart
starting-IsStart = inr (inr (refl, ground arith, refl))

abbrev found_from : ℕ → Event → ℕ → QueryResult
found_from b ev from = if from == b then events (ev ∷ []) else events []

handle_past_events-twice_example :
    handle_past_events 1070
      (found_from 71 aggregated)
      (handle_past_events 1065 (found_from 65 included) starting).0
    ≡ (handle_events (included ∷ aggregated ∷ []) (record starting { last_block = some 65 }), ok tt)
unfolding last_number
handle_past_events-twice_example =
    handle_past_events-twice 1065 1070 65 (found_from 65 included) (found_from 71 aggregated)
      starting (included ∷ []) (aggregated ∷ []) starting-IsStart refl refl

check_paymaster_deposit-ok_example :
    ((check_paymaster_deposit (λ a. ok 90000) maker_op pending_pool.mempool []).1 ≡ ok tt)
    ↔ ((1 + pending_of payer pending_pool.mempool) * get_user_op_max_cost maker_op ≤ 90000)
unfolding get_cached_deposit
check_paymaster_deposit-ok_example =
    check_paymaster_deposit-ok (λ a. ok 90000) maker_op pending_pool.mempool [] payer 90000 refl
      (ground arith) (ground arith) refl

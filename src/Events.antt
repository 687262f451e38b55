-- ===== src/Events.antt =====
-- packages/bundler/src/modules/EventsManager.ts: the entry point's events take operations out of
-- the mempool and count inclusions.
pub mod Laws
use bundler.Common.{
  ℕ, ◌+◌, ◌-◌, max, Bool, true, false, Option, none, some, List, [], ◌∷◌, if◌then◌else◌, leb,
  length, take, Result, ok, err, ◌==◌,
}
use bundler.Common.Text.{Text, same, codes, contains}
use bundler.Reputation.{Reputation, update_included_status}
use bundler.Mempool.Defs.{State, Mempool, remove_hash}

-- The events that `handleEvent` tells apart, with the arguments that it reads.
pub data EventArgs : Type 0 where
  user_operation_event : Text → Text → Text → EventArgs
  account_deployed : Text → EventArgs
  signature_aggregator : Text → EventArgs
  other : EventArgs

pub record Event : Type 0 where
  pub args : EventArgs
  pub block_number : ℕ
  pub transaction_hash : Text

pub record Events : Type 0 where
  pub last_block : Option ℕ
  pub event_aggregator : Option Text
  pub event_aggregator_tx_hash : Option Text
  pub managers : State

-- `_includedAddress`: a text of 42 characters or more starts with an address.
unfoldable pub included_address : Option Text → Events → Events
unfolding update_included_status
included_address none st = st
included_address (some text) st =
    if leb 42 (length text)
    then record st {
      managers = record st.managers {
        reputation = update_included_status (take 42 text) st.managers.reputation;
      };
    }
    else st

abbrev pub same_hash : Option Text → Text → Bool
same_hash none hash = false
same_hash (some h) hash = same hash h

-- `getEventAggregator` forgets an aggregator of another transaction.
unfoldable pub get_event_aggregator : Event → Events → Events × Option Text
get_event_aggregator ev st =
    if same_hash st.event_aggregator_tx_hash ev.transaction_hash
    then (st, st.event_aggregator)
    else (
      record st { event_aggregator = none; event_aggregator_tx_hash = some ev.transaction_hash },
      none,
    )

unfoldable pub handle_user_operation_event : Event → Text → Text → Text → Events → Events
unfolding remove_hash included_address get_event_aggregator
handle_user_operation_event ev hash sender paymaster st =
    let removed = record st {
      managers = record st.managers { pool = remove_hash hash st.managers.pool };
    } in
    let paid = included_address (some paymaster) (included_address (some sender) removed) in
    let (found, aggregator) = get_event_aggregator ev paid in included_address aggregator found

-- The switch of `handleEvent`.
unfoldable pub dispatch : Event → EventArgs → Events → Events
unfolding handle_user_operation_event
dispatch ev (user_operation_event hash sender paymaster) st =
    handle_user_operation_event ev hash sender paymaster st
dispatch ev (account_deployed factory) st = included_address (some factory) st
dispatch ev (signature_aggregator aggregator) st = record st {
  event_aggregator = some aggregator;
  event_aggregator_tx_hash = some ev.transaction_hash;
}
dispatch ev other st = st

unfoldable pub handle_event : Event → Events → Events
unfolding dispatch
handle_event ev st = record (dispatch ev ev.args st) { last_block = some (ev.block_number + 1) }

unfoldable pub handle_events : List Event → Events → Events
unfolding handle_event
handle_events [] st = st
handle_events (ev ∷ evs) st = handle_events evs (handle_event ev st)

-- What `queryFilter` gives from a block on: the events, or an error with its message.
pub data QueryResult : Type 0 where
  events : List Event → QueryResult
  failed : Text → QueryResult

unfoldable pub start_block : ℕ → Events → ℕ
start_block block_number st = elim st.last_block [ none ↦ max 1 (block_number - 1000) | some b ↦ b ]

abbrev pub invalid_block_range : Text
invalid_block_range = codes "invalid block range params"

-- `handlePastEvents`; an error that is thrown on is its message.
unfoldable pub handle_past_events : ℕ → (ℕ → QueryResult) → Events → Events × Result Text (Unit {0})
unfolding handle_events start_block contains
handle_past_events block_number query st =
    let from = start_block block_number st in
    let st' = record st { last_block = some from } in
    elim (query from) [
      | events evs ↦ (handle_events evs st', ok tt)
      | failed message ↦
          if contains invalid_block_range message then (st', ok tt) else (st', err message)
    ]

-- ===== src/Events/Laws.antt =====
-- What handling the entry point's events does to the mempool, the counters and the block number.
use bundler.Common.{
  ℕ, ◌+◌, ◌≡◌, refl, ap, sym, ◌∙◌, true, Option, none, some, List, [], ◌∷◌, Result, ok, arith, leb,
  length, take, ◌++◌, ◌≤◌, ◌<◌, ◌⊎◌, Bool-cases, inl, inr, ◌↔◌, subst,
}
use bundler.Common.Text.{Text, contains}
use bundler.Reputation.{update_included_status}
use bundler.Reputation.WellFormed.{IsWellFormed, includes-IsWellFormed}
use bundler.Mempool.Defs.{State, remove_hash, find_by_hash}
use bundler.Mempool.Counts.{IsCounted, remove_index-IsCounted}
use bundler.Mempool.Lookup.{IsUnique, remove_index-IsUnique}
use bundler.Events.{
  Event, Events, EventArgs, user_operation_event, account_deployed, signature_aggregator, other,
  included_address, get_event_aggregator, handle_user_operation_event, dispatch, handle_event,
  handle_events, handle_past_events, start_block, QueryResult, events, failed, invalid_block_range,
}

-- What holds of both managers throughout.
pub record IsSound (st : State) : Type 0 where
  pub table : IsWellFormed st.reputation
  pub counted : IsCounted st.pool
  pub unique : IsUnique st.pool.mempool

included-IsSound :
    (a : Text) (st : State)
    → IsSound st
    → IsSound (record st { reputation = update_included_status a st.reputation })
included-IsSound a st s = record {
  table = includes-IsWellFormed st.reputation a s.table;
  counted = s.counted;
  unique = s.unique;
}

included_address-IsSound :
    (o : Option Text) (st : Events) → IsSound st.managers → IsSound (included_address o st).managers
included_address-IsSound none st s = unfold included_address in s
included_address-IsSound (some t) st s = elim (Bool-cases (leb 42 (length t))) [
  | inl long ↦ unfold included_address in rw long (included-IsSound (take 42 t) st.managers s)
  | inr short ↦ unfold included_address in rw short s
]

remove_hash-IsSound :
    (hash : Text) (st : State)
    → IsSound st
    → IsSound (record st { pool = remove_hash hash st.pool })
unfolding remove_hash
remove_hash-IsSound hash st s = record {
  table = s.table;
  counted = remove_index-IsCounted (find_by_hash hash st.pool.mempool) st.pool s.counted;
  unique = remove_index-IsUnique (find_by_hash hash st.pool.mempool) st.pool s.unique;
}

get_event_aggregator-managers :
    (ev : Event) (st : Events) → (get_event_aggregator ev st).0.managers ≡ st.managers
unfolding get_event_aggregator
get_event_aggregator-managers ev st = ground arith

handle_user_operation_event-IsSound :
    (ev : Event) (hash sender paymaster : Text) (st : Events)
    → IsSound st.managers
    → IsSound (handle_user_operation_event ev hash sender paymaster st).managers
unfolding handle_user_operation_event
handle_user_operation_event-IsSound ev hash sender paymaster st s =
    let removed = record st {
      managers = record st.managers { pool = remove_hash hash st.managers.pool };
    } in
    let paid = included_address (some paymaster) (included_address (some sender) removed) in
    let paid_sound =
      included_address-IsSound (some paymaster) (included_address (some sender) removed)
        (included_address-IsSound (some sender) removed (remove_hash-IsSound hash st.managers s)) in
    included_address-IsSound (get_event_aggregator ev paid).1 (get_event_aggregator ev paid).0
      (subst IsSound (sym (get_event_aggregator-managers ev paid)) paid_sound)

dispatch-IsSound :
    (ev : Event) (args : EventArgs) (st : Events)
    → IsSound st.managers
    → IsSound (dispatch ev args st).managers
unfolding dispatch
dispatch-IsSound ev (user_operation_event h a p) st s =
    handle_user_operation_event-IsSound ev h a p st s
dispatch-IsSound ev (account_deployed f) st s = included_address-IsSound (some f) st s
dispatch-IsSound ev (signature_aggregator a) st s = s
dispatch-IsSound ev other st s = s

-- Handling any list of events keeps the reputation table well formed, the entry counts right, and
-- sender and nonce unique in the mempool.
pub handle_events-IsSound :
    (evs : List Event) (st : Events) → IsSound st.managers → IsSound (handle_events evs st).managers
unfolding handle_events handle_event
handle_events-IsSound [] st s = s
handle_events-IsSound (ev ∷ evs) st s =
    handle_events-IsSound evs (handle_event ev st) (dispatch-IsSound ev ev.args st s)

-- The number of the last of a list of events' blocks, or else another number.
unfoldable pub last_number : ℕ → List Event → ℕ
last_number n [] = n
last_number n (ev ∷ evs) = last_number (ev.block_number + 1) evs

handle_events-last_block :
    (n : ℕ) (evs : List Event) (st : Events)
    → st.last_block ≡ some n
    → (handle_events evs st).last_block ≡ some (last_number n evs)
unfolding handle_events handle_event last_number
handle_events-last_block n [] st h = h
handle_events-last_block n (ev ∷ evs) st h =
    handle_events-last_block (ev.block_number + 1) evs (handle_event ev st) refl

handle_past_events-events :
    (block_number : ℕ) (query : ℕ → QueryResult) (st : Events) (evs : List Event)
    → query (start_block block_number st) ≡ events evs
    → handle_past_events block_number query st
      ≡ (handle_events evs (record st { last_block = some (start_block block_number st) }), ok tt)
unfolding handle_past_events
handle_past_events-events block_number query st evs h = ground (arith, h)

-- Where a scan starts: at the stored block, or, if none is stored, 1000 blocks back, but not before
-- block 1.
unfoldable pub IsStart : ℕ → Events → ℕ → Type 0
IsStart block_number st start =
    (st.last_block ≡ some start)
    ⊎ ((st.last_block ≡ none) × (block_number ≤ 1000) × (start ≡ 1))
    ⊎ ((st.last_block ≡ none) × (1000 < block_number) × (start + 1000 ≡ block_number))

start_block-IsStart :
    (block_number : ℕ) (st : Events) (start : ℕ)
    → IsStart block_number st start
    → start_block block_number st ≡ start
unfolding start_block IsStart
start_block-IsStart block_number st start (inl h) = rw h refl
start_block-IsStart block_number st start (inr (inl (h, low, one))) = rw h (omega (arith, low, one))
start_block-IsStart block_number st start (inr (inr (h, high, back))) =
    rw h (omega (arith, high, back))

handle_events-append :
    (evs more : List Event) (st : Events)
    → handle_events (evs ++ more) st ≡ handle_events more (handle_events evs st)
unfolding handle_events
handle_events-append [] more st = refl
handle_events-append (ev ∷ evs) more st = handle_events-append evs more (handle_event ev st)

abbrev ended : Events → Events × Result Text (Unit {0})
ended st = (st, ok tt)

-- A scan from a known block on.
scan :
    (block_number start : ℕ) (query : ℕ → QueryResult) (st : Events) (evs : List Event)
    → IsStart block_number st start
    → query start ≡ events evs
    → handle_past_events block_number query st
      ≡ (handle_events evs (record st { last_block = some start }), ok tt)
scan block_number start query st evs begins h =
    let e = start_block-IsStart block_number st start begins in
    handle_past_events-events block_number query st evs (ap query e ∙ h)
    ∙ ap (λ b. ended (handle_events evs (record st { last_block = some b }))) e

-- Two scans with `handlePastEvents`, of which the first starts at the stored block, or 1000 blocks
-- back, but not before block 1, if none is stored: where both queries give events, the second query
-- starts at the block after that of the last event, or where the first one started if there was no
-- event, and both together handle the events of both, in order.
pub handle_past_events-twice :
    (block_number later start : ℕ) (query again : ℕ → QueryResult) (st : Events)
    (evs more : List Event)
    → IsStart block_number st start
    → query start ≡ events evs
    → again (last_number start evs) ≡ events more
    → handle_past_events later again (handle_past_events block_number query st).0
      ≡ (handle_events (evs ++ more) (record st { last_block = some start }), ok tt)
unfolding IsStart
handle_past_events-twice block_number later start query again st evs more begins h k =
    let mid = handle_events evs (record st { last_block = some start }) in
    let stored : mid.last_block ≡ some (last_number start evs) =
      handle_events-last_block start evs (record st { last_block = some start }) refl in
    ap (λ (x : Events × Result Text (Unit {0})). handle_past_events later again x.0)
      (scan block_number start query st evs begins h)
    ∙ scan later (last_number start evs) again mid more (inl stored) k
    ∙ ap (λ b. ended (handle_events more (record mid { last_block = b }))) (sym stored)
    ∙ ap ended (sym (handle_events-append evs more (record st { last_block = some start })))

-- Where the query fails, no event is handled, the next scan starts at the same block, and the error
-- is swallowed exactly if its message contains "invalid block range params".
handle_past_events-failed :
    (block_number : ℕ) (query : ℕ → QueryResult) (st : Events) (message : Text)
    → query (start_block block_number st) ≡ failed message
    → ((handle_past_events block_number query st).0
        ≡ record st { last_block = some (start_block block_number st) })
      × (((handle_past_events block_number query st).1 ≡ ok tt)
          ↔ (contains invalid_block_range message ≡ true))
unfolding handle_past_events
handle_past_events-failed block_number query st message h =
    elim (Bool-cases (contains invalid_block_range message)) [
      | inl found ↦ ground (arith, h, found)
      | inr absent ↦ ground (arith, h, absent)
    ]

included_address-fields :
    (o : Option Text) (st : Events)
    → ((included_address o st).event_aggregator ≡ st.event_aggregator)
      × ((included_address o st).event_aggregator_tx_hash ≡ st.event_aggregator_tx_hash)
unfolding included_address
included_address-fields none st = (refl, refl)
included_address-fields (some t) st = ground arith

-- ===== src/Mempool/Defs.antt =====
-- packages/bundler/src/modules/MempoolManager.ts and MempoolEntry.ts: the pending operations and
-- the number of times that each address is an entity of one. The manager updates the reputation
-- too, so an operation of it takes and returns both.
use mathlib.Core.Option
use mathlib.Core.Option.{get_or}
use mathlib.Core.List.{filter_map}
use bundler.Common.{
  ℕ, zero, suc, ◌+◌, ◌-◌, Bool, false, ◌&&◌, ◌||◌, not, Option, none, some, List, [], ◌∷◌, ◌++◌,
  map, if◌then◌else◌, leb, ltb, ◌==◌, Result, ok, err, ◌>>=◌, ◌>>◌, get_elem?, set, remove_at,
  length,
}
use bundler.Common.Text.{Text, same, to_lower}
use bundler.Common.Dict
use bundler.Common.Dict.{Dict, get, put}
use bundler.Common.Int.{ℤ, pos, negsuc}
use bundler.Doubles.{Doubles}
use bundler.Types.{
  Operation, StakeInfo, ReferencedCodeHashes, ValidationResult, Title, account, paymaster,
  aggregator, deployer, Error, rpc, type_error, require_cond, sender_is_entity, paymaster_is_sender,
  factory_is_sender, low_priority_fee, low_fee, opcode_validation, invalid_fields,
}
use bundler.Reputation.{
  Reputation, has, check_stake, check_banned, check_throttled, update_seen_status,
  calculate_max_allowed, to_number,
}
use bundler.Utils.{packed_nonce, get_packed_nonce}

abbrev pub throttled_entity_mempool_count : ℕ
throttled_entity_mempool_count = 4

pub record MempoolEntry : Type 0 where
  pub user_op : Operation
  pub user_op_hash : Text
  pub prefund : ℕ
  pub referenced_contracts : ReferencedCodeHashes
  pub skip_validation : Bool
  pub aggregator : Option Text
  pub user_op_max_gas : ℕ

-- The constructor of MempoolEntry.
unfoldable pub new_entry :
    Operation → Text → ℕ → ReferencedCodeHashes → Bool → Option Text → MempoolEntry
new_entry op hash prefund contracts skip agg = record {
  user_op = op;
  user_op_hash = hash;
  prefund = prefund;
  referenced_contracts = contracts;
  skip_validation = skip;
  aggregator = agg;
  user_op_max_gas =
      get_or op.pre_verification_gas 0
      + op.call_gas_limit
      + op.verification_gas_limit
      + get_or op.paymaster_verification_gas_limit 0
      + get_or op.paymaster_post_op_gas_limit 0;
}

pub record Mempool : Type 0 where
  pub mempool : List MempoolEntry
  pub counts : Dict ℕ

-- The two objects that the mempool's operations change.
pub record State : Type 0 where
  pub reputation : Reputation
  pub pool : Mempool

unfoldable pub entry_count : Text → Dict ℕ → Option ℕ
unfolding get to_lower
entry_count address counts = get (to_lower address) counts

unfoldable pub increment_entry_count : Option Text → Dict ℕ → Dict ℕ
unfolding get put to_lower
increment_entry_count none counts = counts
increment_entry_count (some address) counts =
    put (to_lower address) (get_or (get (to_lower address) counts) 0 + 1) counts

-- `n - 1` is stored, and deleted again if it is not positive.
unfoldable pub decrement_entry_count : Option Text → Dict ℕ → Dict ℕ
unfolding get put to_lower Dict.remove
decrement_entry_count none counts = counts
decrement_entry_count (some address) counts = elim (get (to_lower address) counts) [
  | none ↦ counts
  | some n ↦
      if leb (n - 1) 0
      then Dict.remove (to_lower address) counts
      else put (to_lower address) (n - 1) counts
]

unfoldable pub count : Mempool → ℕ
count p = length p.mempool

-- The loops of `_findBySenderNonce` and `_findByHash`; -1 is `none`.
unfoldable pub find_by_sender_nonce : Text → ℕ → List MempoolEntry → Option ℕ
unfolding packed_nonce
find_by_sender_nonce sender nonce [] = none
find_by_sender_nonce sender nonce (e ∷ es) =
    if same e.user_op.sender sender && packed_nonce e.user_op == nonce
    then some 0
    else Option.map suc (find_by_sender_nonce sender nonce es)

unfoldable pub find_by_hash : Text → List MempoolEntry → Option ℕ
find_by_hash hash [] = none
find_by_hash hash (e ∷ es) =
    if same e.user_op_hash hash then some 0 else Option.map suc (find_by_hash hash es)

unfoldable pub get_known_senders : Mempool → List Text
unfolding to_lower
get_known_senders p = map (λ e. to_lower e.user_op.sender) p.mempool

unfoldable pub get_known_entities : Mempool → List Text
unfolding to_lower
get_known_entities p = map to_lower (
    filter_map (λ e. e.user_op.paymaster) p.mempool
    ++ filter_map (λ e. e.user_op.factory) p.mempool)

-- The sender's increment does not depend on `val`. An RpcError of `checkStake` is swallowed.
unfoldable pub update_seen :
    Option Text → Operation → StakeInfo → ℤ → Reputation → Result Error Reputation
unfolding check_stake update_seen_status
update_seen agg op sender_info val r =
    let rest = λ (r' : Reputation).
      update_seen_status op.factory val
        (update_seen_status op.paymaster val (update_seen_status agg val r')) in
    elim (check_stake account (some sender_info) r) [
      | ok _ ↦ ok (rest (update_seen_status (some op.sender) (pos 1) r))
      | err (rpc e) ↦ ok (rest r)
      | err e ↦ err e
    ]

unfoldable pub check_reputation_status :
    Doubles → Title → Option StakeInfo → State → Result Error (Unit {0})
unfolding check_banned check_throttled check_stake calculate_max_allowed entry_count
check_reputation_status fl title none st = ok tt
check_reputation_status fl title (some info) st =
    let r = st.reputation in
    let allowed = calculate_max_allowed fl title info.addr r in
    let entries = get_or (entry_count info.addr st.pool.counts) 0 in
    do
      check_banned title info r
      if ltb throttled_entity_mempool_count entries then check_throttled title info r else ok tt
      if leb allowed entries then check_stake title (some info) r else ok tt

unfoldable pub check_reputation : Doubles → ValidationResult → State → Result Error (Unit {0})
unfolding check_reputation_status
check_reputation fl v st = do
  check_reputation_status fl account (some v.sender_info) st
  check_reputation_status fl paymaster v.paymaster_info st
  check_reputation_status fl deployer v.factory_info st
  check_reputation_status fl aggregator v.aggregator_info st

-- `includes(address?.toLowerCase() ?? '')`
abbrev pub includes : List Text → Option Text → Bool
includes known address = has (get_or (Option.map to_lower address) []) known

unfoldable pub check_multiple_roles : Operation → Mempool → Result Error (Unit {0})
unfolding get_known_entities get_known_senders has
check_multiple_roles op p = do
  require_cond (not (has (to_lower op.sender) (get_known_entities p)))
      (sender_is_entity (some op.sender)) opcode_validation
  require_cond (not (includes (get_known_senders p) op.paymaster))
      (paymaster_is_sender op.paymaster) opcode_validation
  require_cond (not (includes (get_known_senders p) op.factory)) (factory_is_sender op.factory)
      opcode_validation

unfoldable pub check_replace : Doubles → MempoolEntry → MempoolEntry → Result Error (Unit {0})
check_replace fl old new = do
  old_priority ← to_number old.user_op.max_priority_fee_per_gas
  new_priority ← to_number new.user_op.max_priority_fee_per_gas
  old_fee ← to_number old.user_op.max_fee_per_gas
  new_fee ← to_number new.user_op.max_fee_per_gas
  require_cond (fl.fee_bumped new_priority old_priority)
      (low_priority_fee old_priority new_priority) invalid_fields
  require_cond (fl.fee_bumped new_fee old_fee) (low_fee old_fee new_fee) invalid_fields

-- The branch of `addUserOp` that replaces the entry at an index.
unfoldable pub replace_entry :
    Doubles → ℕ → MempoolEntry → MempoolEntry → ValidationResult → State → Result Error State
unfolding check_replace update_seen
replace_entry fl index old new v st = do
  check_replace fl old new
  r ← update_seen old.aggregator old.user_op v.sender_info (negsuc 0) st.reputation
  ok (record { reputation = r; pool = record st.pool { mempool = set st.pool.mempool index new } })

-- The entry counts of an operation's sender, paymaster and factory, one more each.
unfoldable pub increment_all : Operation → Dict ℕ → Dict ℕ
unfolding increment_entry_count
increment_all op counts =
    increment_entry_count op.factory
      (increment_entry_count op.paymaster (increment_entry_count (some op.sender) counts))

-- The branch that appends.
unfoldable pub append_entry :
    Doubles → Bool → MempoolEntry → ValidationResult → State → Result Error State
unfolding check_reputation check_multiple_roles increment_all
append_entry fl skip new v st = do
  (if skip then ok tt else (check_reputation fl v st >> check_multiple_roles new.user_op st.pool))
  ok (record st {
    pool = record {
      mempool = st.pool.mempool ++ new ∷ [];
      counts = increment_all new.user_op st.pool.counts;
    };
  })

unfoldable pub place_entry :
    Doubles → Bool → MempoolEntry → ValidationResult → State → ℕ → Result Error State
unfolding find_by_sender_nonce replace_entry append_entry
place_entry fl skip new v st nonce =
    elim (find_by_sender_nonce new.user_op.sender nonce st.pool.mempool) [
      | none ↦ append_entry fl skip new v st
      | some i ↦ elim (get_elem? st.pool.mempool i) [
        | none ↦ err type_error
        | some old ↦ replace_entry fl i old new v st
      ]
    ]

-- `addUserOp`. It throws before it changes anything.
unfoldable pub add_user_op :
    Doubles → Bool → Operation → Text → ValidationResult → State → Result Error State
unfolding new_entry place_entry update_seen get_packed_nonce
add_user_op fl skip op hash v st =
    let agg = Option.map (λ (i : StakeInfo). i.addr) v.aggregator_info in
    let new = new_entry op hash (get_or v.return_info.prefund 0) v.referenced_contracts skip agg in
    do
      nonce ← get_packed_nonce op
      placed ← place_entry fl skip new v st nonce
      r ← update_seen agg op v.sender_info (pos 1) placed.reputation
      ok (record placed { reputation = r })

unfoldable pub decrement_all : Operation → Dict ℕ → Dict ℕ
unfolding decrement_entry_count
decrement_all op counts =
    decrement_entry_count op.factory
      (decrement_entry_count op.paymaster (decrement_entry_count (some op.sender) counts))

-- `removeUserOp`, past the search for the index, which is in range.
unfoldable pub remove_index : Option ℕ → Mempool → Mempool
unfolding decrement_all
remove_index none p = p
remove_index (some i) p = elim (get_elem? p.mempool i) [
  | none ↦ p
  | some e ↦ record { mempool = remove_at p.mempool i; counts = decrement_all e.user_op p.counts }
]

unfoldable pub remove_hash : Text → Mempool → Mempool
unfolding find_by_hash remove_index
remove_hash hash p = remove_index (find_by_hash hash p.mempool) p

unfoldable pub remove_user_op : Operation → Mempool → Mempool
unfolding find_by_sender_nonce remove_index
remove_user_op op p = remove_index (find_by_sender_nonce op.sender (packed_nonce op) p.mempool) p

-- `address === addr`, for an address that may be missing.
abbrev pub is_addr : Option Text → Text → Bool
is_addr none addr = false
is_addr (some a) addr = same a addr

unfoldable pub involves : Text → MempoolEntry → Bool
involves addr e =
    same e.user_op.sender addr || is_addr e.user_op.paymaster addr || is_addr e.user_op.factory addr

-- The loop of `removeBannedAddr`, over the indices from the index below the first argument down to 0.
-- There is an entry at each: a round removes one entry at most.
unfoldable pub remove_banned_from : ℕ → Text → Mempool → Mempool
unfolding remove_hash involves
remove_banned_from zero addr p = p
remove_banned_from (suc i) addr p = elim (get_elem? p.mempool i) [
  | none ↦ remove_banned_from i addr p
  | some e ↦ remove_banned_from i addr (if involves addr e then remove_hash e.user_op_hash p else p)
]

unfoldable pub remove_banned_addr : Text → Mempool → Mempool
unfolding remove_banned_from
remove_banned_addr addr p = remove_banned_from (length p.mempool) addr p

unfoldable pub clear_state : Mempool → Mempool
clear_state p = record { mempool = []; counts = [] }

unfoldable pub dump : Mempool → List Operation
dump p = map (λ e. e.user_op) p.mempool

-- `Array.sort` is stable: an entry goes behind those that cost no more.
unfoldable pub insert_by_cost : MempoolEntry → List MempoolEntry → List MempoolEntry
insert_by_cost e [] = e ∷ []
insert_by_cost e (x ∷ xs) =
    if ltb e.user_op.max_priority_fee_per_gas x.user_op.max_priority_fee_per_gas
    then e ∷ x ∷ xs
    else x ∷ insert_by_cost e xs

unfoldable pub sort_by_cost : List MempoolEntry → List MempoolEntry → List MempoolEntry
unfolding insert_by_cost
sort_by_cost sorted [] = sorted
sort_by_cost sorted (e ∷ es) = sort_by_cost (insert_by_cost e sorted) es

-- The comparator takes the `toNumber` of each cost.
unfoldable pub check_costs : List MempoolEntry → Result Error (Unit {0})
check_costs [] = ok tt
check_costs (e ∷ es) = to_number e.user_op.max_priority_fee_per_gas >>= λ _. check_costs es

unfoldable pub get_sorted_for_inclusion : Mempool → Result Error (List MempoolEntry)
unfolding sort_by_cost check_costs
get_sorted_for_inclusion p = do
  if ltb 1 (length p.mempool) then check_costs p.mempool else ok tt
  ok (sort_by_cost [] p.mempool)

-- ===== src/Reputation.antt =====
-- packages/bundler/src/modules/ReputationManager.ts: the reputation of senders, paymasters,
-- factories and aggregators. A method that changes the object returns the new one.
pub mod Standing
pub mod WellFormed
pub mod Cron
pub mod Dump
pub mod Checks
use bundler.Common.{
  ℕ, ◌+◌, ◌*◌, ◌/◌, min, Bool, true, false, ◌&&◌, not, Option, none, some, List, [], ◌∷◌, ◌++◌, map,
  foldl, ite, if◌then◌else◌, leb, ltb, ◌==◌, Result, ok, err, ◌>>=◌, ◌>>◌,
}
use bundler.Common.Text.{Text, text_dec, to_lower, same}
use bundler.Common.Dict
use bundler.Common.Dict.{Dict, get, put, remove}
use bundler.Common.Int.{ℤ, pos, negsuc, pos_part, ◌+ℤ◌}
use bundler.Doubles.{Doubles}
use bundler.Types.{
  Title, account, StakeInfo, Error, rpc, numeric_fault, require_cond, require_entity, is_banned,
  is_throttled, is_unstaked, stake_too_low, unstake_delay_too_low, reputation, insufficient_stake,
}

abbrev pub ban_ops_seen_penalty : ℕ
ban_ops_seen_penalty = 10000

abbrev pub same_sender_mempool_count : ℕ
same_sender_mempool_count = 4

abbrev pub same_unstaked_entity_mempool_count : ℕ
same_unstaked_entity_mempool_count = 10

pub data Status : Type 0 where
  ok_status throttled banned : Status

pub record Params : Type 0 where
  pub min_inclusion_denominator : ℕ
  pub throttling_slack : ℕ
  pub ban_slack : ℕ

abbrev pub bundler_params : Params
bundler_params = record { min_inclusion_denominator = 10; throttling_slack = 10; ban_slack = 50 }

abbrev pub non_bundler_params : Params
non_bundler_params = record {
  min_inclusion_denominator = 100;
  throttling_slack = 10;
  ban_slack = 10;
}

pub record Entry : Type 0 where
  pub address : Text
  pub ops_seen : ℕ
  pub ops_included : ℕ
  pub status : Option Status

pub record Reputation : Type 0 where
  pub params : Params
  pub min_stake : ℕ
  pub min_unstake_delay : ℕ
  pub entries : Dict Entry
  pub black_list : List Text
  pub whitelist : List Text

-- `Set.has` and `Set.add`, on the elements in insertion order.
unfoldable pub has : Text → List Text → Bool
has a [] = false
has a (b ∷ s) = ite (text_dec b a) true (has a s)

unfoldable pub add : List Text → Text → List Text
unfolding has
add s a = if has a s then s else s ++ a ∷ []

unfoldable pub add_whitelist : List Text → Reputation → Reputation
unfolding add
add_whitelist addrs r = record r { whitelist = foldl add r.whitelist addrs }

unfoldable pub add_blacklist : List Text → Reputation → Reputation
unfolding add
add_blacklist addrs r = record r { black_list = foldl add r.black_list addrs }

-- The comparisons at the end of `getStatus`.
unfoldable pub entry_status : Params → Entry → Status
entry_status p e =
    let min_expected_included = e.ops_seen / p.min_inclusion_denominator in
    if leb min_expected_included (e.ops_included + p.throttling_slack)
    then ok_status
    else if leb min_expected_included (e.ops_included + p.ban_slack)
    then throttled
    else banned

unfoldable pub status_of : Reputation → Text → Status
unfolding has entry_status get
status_of r addr =
    if has addr r.whitelist
    then ok_status
    else if has addr r.black_list
    then banned
    else elim (get addr r.entries) [ none ↦ ok_status | some e ↦ entry_status r.params e ]

unfoldable pub get_status : Option Text → Reputation → Status
unfolding status_of to_lower
get_status none r = ok_status
get_status (some addr) r = status_of r (to_lower addr)

abbrev pub fresh_entry : Text → Entry
fresh_entry addr = record { address = addr; ops_seen = 0; ops_included = 0; status = none }

-- The entry that `_getOrCreate` finds or makes. Its callers write it back under the same key.
unfoldable pub get_or_create : Text → Reputation → Entry
unfolding get
get_or_create key r = mathlib.Core.Option.get_or (get key r.entries) (fresh_entry key)

abbrev pub write : Text → Entry → Reputation → Reputation
write key e r = record r { entries = put key e r.entries }

unfoldable pub update_seen_status : Option Text → ℤ → Reputation → Reputation
unfolding get_or_create put to_lower ◌+ℤ◌
update_seen_status none val r = r
update_seen_status (some addr) val r =
    let key = to_lower addr in
    let e = get_or_create key r in
    write key (record e { ops_seen = pos_part (pos e.ops_seen +ℤ val) }) r

unfoldable pub update_included_status : Text → Reputation → Reputation
unfolding get_or_create put to_lower
update_included_status addr r =
    let key = to_lower addr in
    let e = get_or_create key r in write key (record e { ops_included = e.ops_included + 1 }) r

unfoldable pub crashed_handle_ops : Option Text → Reputation → Reputation
unfolding get_or_create put to_lower
crashed_handle_ops none r = r
crashed_handle_ops (some addr) r =
    let key = to_lower addr in
    let e = get_or_create key r in
    write key (record e { ops_seen = e.ops_seen + ban_ops_seen_penalty; ops_included = 0 }) r

-- The two assignments of `hourlyCron`. The second reads the `opsSeen` that the first has written.
unfoldable pub decay : Entry → Entry
decay e =
    let seen = e.ops_seen * 23 / 24 in record e { ops_seen = seen; ops_included = seen * 23 / 24 }

-- One round of `hourlyCron`.
unfoldable pub decay_at : Dict Entry → Text → Dict Entry
unfolding decay get put remove
decay_at m key = elim (get key m) [
  | none ↦ m
  | some e ↦
      let e' = decay e in
      if e'.ops_included == 0 && e'.ops_seen == 0 then remove key m else put key e' m
]

unfoldable pub hourly_cron : Reputation → Reputation
unfolding decay_at
hourly_cron r = record r { entries = foldl decay_at r.entries (Dict.keys r.entries) }

-- `dump` stores the current status in each entry.
unfoldable pub refresh : Reputation → Dict Entry → Dict Entry
unfolding get_status
refresh r [] = []
refresh r ((k, e) ∷ m) =
    (k, record e { status = some (get_status (some e.address) r) }) ∷ refresh r m

unfoldable pub dump : Reputation → Reputation × List Entry
unfolding refresh
dump r = let m = refresh r r.entries in (record r { entries = m }, Dict.values m)

unfoldable pub clear_state : Reputation → Reputation
clear_state r = record r { entries = [] }

-- `BigNumber.toNumber`
abbrev pub to_number : ℕ → Result Error ℕ
to_number n = if ltb n 9007199254740992 then ok n else err (numeric_fault n)

-- The loop of `setReputation`; entries before the one that throws are kept.
unfoldable pub set_entries : List Entry → Reputation → Reputation × Result Error (Unit {0})
unfolding put to_lower
set_entries [] r = (r, ok tt)
set_entries (e ∷ es) r =
    let key = to_lower e.address in
    let clean = record e { address = key; status = none } in
    let rest = set_entries es (write key clean r) in
    elim (to_number e.ops_seen >>= λ _. to_number e.ops_included) [
      | err x ↦ (r, err x)
      | ok _ ↦ rest
    ]

unfoldable pub set_reputation : List Entry → Reputation → Reputation × Result Error (List Entry)
unfolding set_entries dump
set_reputation es r =
    let (r', outcome) = set_entries es r in
    let (r'', dumped) = dump r' in elim outcome [ err x ↦ (r', err x) | ok _ ↦ (r'', ok dumped) ]

is_ban : Status → Bool
is_ban banned = true
is_ban _ = false

is_throttle : Status → Bool
is_throttle throttled = true
is_throttle _ = false

unfoldable pub check_banned : Title → StakeInfo → Reputation → Result Error (Unit {0})
unfolding is_ban get_status
check_banned title info r =
    require_entity (not (is_ban (get_status (some info.addr) r))) (is_banned title info.addr)
      reputation title info.addr

unfoldable pub check_throttled : Title → StakeInfo → Reputation → Result Error (Unit {0})
unfolding is_throttle get_status
check_throttled title info r =
    require_entity (not (is_throttle (get_status (some info.addr) r)))
      (is_throttled title info.addr) reputation title info.addr

unfoldable pub is_whitelisted : Text → Reputation → Bool
unfolding has
is_whitelisted addr r = has addr r.whitelist

-- The three requirements of `checkStake`, past its early return.
unfoldable pub require_stake : Title → StakeInfo → Reputation → Result Error (Unit {0})
unfolding check_banned
require_stake title info r = do
  check_banned title info r
  require_cond (leb r.min_stake info.stake)
      (if info.stake == 0
        then is_unstaked title info.addr
        else stake_too_low title info.addr info.stake r.min_stake)
      insufficient_stake
  require_cond (leb r.min_unstake_delay info.unstake_delay_sec)
      (unstake_delay_too_low title info.addr info.unstake_delay_sec r.min_unstake_delay)
      insufficient_stake

unfoldable pub check_stake : Title → Option StakeInfo → Reputation → Result Error (Unit {0})
unfolding require_stake is_whitelisted
check_stake title none r = ok tt
check_stake title (some info) r =
    if is_whitelisted info.addr r then ok tt else require_stake title info r

-- `deposit_info` is the entry point's `getDepositInfo`: the stake and the unstake delay.
unfoldable pub get_stake_status :
    (Text → Result Error (ℕ × ℕ)) → Text → Reputation → Result Error (StakeInfo × Bool)
get_stake_status deposit_info address r = do
  info ← deposit_info address
  ok (
    record { addr = address; stake = info.0; unstake_delay_sec = info.1 },
    leb r.min_stake info.0 && leb r.min_unstake_delay info.1,
  )

unfoldable pub calculate_max_allowed : Doubles → Title → Text → Reputation → ℕ
unfolding get to_lower
calculate_max_allowed fl account entity r = same_sender_mempool_count
calculate_max_allowed fl _ entity r = elim (get (to_lower entity) r.entries) [
  | none ↦ same_unstaked_entity_mempool_count
  | some e ↦
      same_unstaked_entity_mempool_count
      + (if e.ops_seen == 0 then 0 else fl.inclusion_tenths e.ops_included e.ops_seen)
      + min e.ops_included 10000
]

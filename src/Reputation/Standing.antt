-- ===== src/Reputation/Standing.antt =====
-- How the operations of ReputationManager move the status of an address.
use native.Mathlib.Nat.{le-div_iff_mul-le, div-mul-le_self}
use bundler.Common.{
  ℕ, zero, suc, if◌then◌else◌, ◌+◌, ◌*◌, ◌/◌, ◌≤◌, ◌<◌, ◌≡◌, ◌≢◌, false, some, List, ite, arith,
}
use bundler.Common.Text.{Text, text_dec, to_lower}
use bundler.Common.Dict.{get-put}
use bundler.Common.Int.{ℤ, pos, negsuc, pos_part, ◌+ℤ◌}
use bundler.Reputation.{
  Status, ok_status, throttled, banned, Params, Entry, Reputation, has, get_status, entry_status,
  status_of, get_or_create, crashed_handle_ops, update_included_status, update_seen_status, write,
  fresh_entry,
}

le-div : (d b n : ℕ) → 0 < d → d * (b + 1) ≤ n → b + 1 ≤ n / d
le-div d b n p h = (le-div_iff_mul-le {k = d} {x = b + 1} {y = n} p).1 (omega (arith, h))

abbrev pub crashed : Entry → Entry
crashed e = record e { ops_seen = e.ops_seen + 10000; ops_included = 0 }

entry_status-crashed :
    (p : Params) (e : Entry)
    → 0 < p.min_inclusion_denominator
    → p.min_inclusion_denominator * (p.ban_slack + 1) ≤ 10000
    → p.throttling_slack ≤ p.ban_slack
    → entry_status p (crashed e) ≡ banned
unfolding entry_status
entry_status-crashed p e pos_d room slacks =
    ground (arith, le-div p.min_inclusion_denominator p.ban_slack (e.ops_seen + 10000))

-- A write touches the status of its own key only, and there the lists go first.
status_of-write_self :
    (r : Reputation) (k : Text) (e : Entry)
    → has k r.whitelist ≡ false
    → entry_status r.params e ≡ banned
    → status_of (write k e r) k ≡ banned
unfolding status_of
status_of-write_self r k e w b = ground (arith, get-put k k e r.entries)

pub status_of-write_ne :
    (r : Reputation) (k a : Text) (e : Entry) → a ≢ k → status_of (write k e r) a ≡ status_of r a
unfolding status_of
status_of-write_ne r k a e n = ground (arith, get-put k a e r.entries)

pub crashed-is_banned :
    (r : Reputation) (addr : Text)
    → has (to_lower addr) r.whitelist ≡ false
    → 0 < r.params.min_inclusion_denominator
    → r.params.min_inclusion_denominator * (r.params.ban_slack + 1) ≤ 10000
    → r.params.throttling_slack ≤ r.params.ban_slack
    → get_status (some addr) (crashed_handle_ops (some addr) r) ≡ banned
unfolding crashed_handle_ops get_status
crashed-is_banned r addr w pos_d room slacks =
    status_of-write_self r (to_lower addr) (crashed (get_or_create (to_lower addr) r)) w
      (entry_status-crashed r.params (get_or_create (to_lower addr) r) pos_d room slacks)

-- An address that is to blame for a reverted bundle is banned at once, unless it is whitelisted;
-- this asks of the parameters that 10000 operations are enough to exceed the ban slack. The status
-- of every other address stays as it was.
pub crashed_handle_ops-banned :
    (r : Reputation) (addr b : Text)
    → has (to_lower addr) r.whitelist ≡ false
    → 0 < r.params.min_inclusion_denominator
    → r.params.min_inclusion_denominator * (r.params.ban_slack + 1) ≤ 10000
    → r.params.throttling_slack ≤ r.params.ban_slack
    → to_lower b ≢ to_lower addr
    → (get_status (some addr) (crashed_handle_ops (some addr) r) ≡ banned)
      × (get_status (some b) (crashed_handle_ops (some addr) r) ≡ get_status (some b) r)
unfolding crashed_handle_ops get_status
crashed_handle_ops-banned r addr b w pos_d room slacks n = (
  crashed-is_banned r addr w pos_d room slacks,
  status_of-write_ne r key (to_lower b) (crashed (get_or_create key r)) n,
)
  where
    key : Text
    key = to_lower addr

abbrev pub severity : Status → ℕ
severity ok_status = 0
severity throttled = 1
severity banned = 2

-- More inclusions and fewer operations seen never make a status worse.
entry_status_mono :
    (p : Params) (e e' : Entry)
    → e'.ops_seen / p.min_inclusion_denominator ≤ e.ops_seen / p.min_inclusion_denominator
    → e.ops_included ≤ e'.ops_included
    → severity (entry_status p e') ≤ severity (entry_status p e)
unfolding entry_status
entry_status_mono p e e' s i = ground arith

fresh_entry-ok_status : (p : Params) (k : Text) → entry_status p (fresh_entry k) ≡ ok_status
unfolding entry_status
fresh_entry-ok_status p k = grind arith

-- The status as a function of the entry that `_getOrCreate` gives.
listed_or : List Text → List Text → Text → Status → Status
listed_or white black a s = if has a white then ok_status else if has a black then banned else s

status_of-listed_or :
    (r : Reputation) (a : Text)
    → status_of r a
      ≡ listed_or r.whitelist r.black_list a (entry_status r.params (get_or_create a r))
unfolding status_of listed_or get_or_create
status_of-listed_or r a = ground (arith, fresh_entry-ok_status r.params a)

get_or_create-write :
    (r : Reputation) (k a : Text) (e : Entry)
    → get_or_create a (write k e r) ≡ ite (text_dec k a) e (get_or_create a r)
unfolding get_or_create
get_or_create-write r k a e = ground (arith, get-put k a e r.entries)

-- Comparing the entry that a write stores with the one that stood there.
module _ (r : Reputation) (k b : Text) (e : Entry) where
  write-le :
      severity (entry_status r.params e) ≤ severity (entry_status r.params (get_or_create k r))
      → severity (status_of (write k e r) b) ≤ severity (status_of r b)
  unfolding listed_or
  write-le h = ground (
    arith,
    status_of-listed_or r b,
    status_of-listed_or (write k e r) b,
    get_or_create-write r k b e,
  )

  write-ge :
      severity (entry_status r.params (get_or_create k r)) ≤ severity (entry_status r.params e)
      → severity (status_of r b) ≤ severity (status_of (write k e r) b)
  unfolding listed_or
  write-ge h = ground (
    arith,
    status_of-listed_or r b,
    status_of-listed_or (write k e r) b,
    get_or_create-write r k b e,
  )

div_mono : (d n m : ℕ) → n ≤ m → n / d ≤ m / d
div_mono zero n m h = grind arith
div_mono (suc d) n m h =
    (le-div_iff_mul-le {k = suc d} {x = n / suc d} {y = m} (omega arith)).1
      (omega (arith, div-mul-le_self n (suc d)))

-- An inclusion never makes the status of any address worse, an operation seen never makes one
-- better, and the withdrawal of an operation seen never makes one worse.
status-monotone :
    (r : Reputation) (a b : Text)
    → (severity (get_status (some b) (update_included_status a r))
        ≤ severity (get_status (some b) r))
      × (severity (get_status (some b) r)
          ≤ severity (get_status (some b) (update_seen_status (some a) (pos 1) r)))
      × (severity (get_status (some b) (update_seen_status (some a) (negsuc 0) r))
          ≤ severity (get_status (some b) r))
unfolding get_status update_included_status update_seen_status
status-monotone r a b =
    let e = get_or_create (to_lower a) r in
    let included = record e { ops_included = e.ops_included + 1 } in
    let seen = λ (val : ℤ). record e { ops_seen = pos_part (pos e.ops_seen +ℤ val) } in
    let d = r.params.min_inclusion_denominator in
    (
      write-le r (to_lower a) (to_lower b) included
          (entry_status_mono r.params e included (omega arith) (omega arith)),
      write-ge r (to_lower a) (to_lower b) (seen (pos 1)) (
          entry_status_mono r.params (seen (pos 1)) e (div_mono d _ _ (ground arith))
            (omega arith)),
      write-le r (to_lower a) (to_lower b) (seen (negsuc 0)) (
          entry_status_mono r.params e (seen (negsuc 0)) (div_mono d _ _ (ground arith))
            (omega arith)),
    )

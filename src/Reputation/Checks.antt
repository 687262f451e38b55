-- ===== src/Reputation/Checks.antt =====
-- The checks that throw, on all their branches.
use bundler.Common.{
  Result-cases, Option, sym, ap, ◌∙◌, Bool, List, [], ◌∷◌, ◌++◌, ◌||◌, inl, inr, ℕ, ◌≤◌, ◌≡◌, ◌≢◌,
  ◌↔◌, ◌⊎◌, refl, arith, some, none, ok, err, false, true, Result,
}
use bundler.Common.Text.{Text, to_lower, same, to_lower_idem}
use bundler.Types.{
  RpcError, rpc, numeric_fault, provider_error, type_error, Title, StakeInfo, Error,
}
use bundler.Reputation.{
  status_of, add, add_whitelist, Reputation, banned, throttled, get_status, has, check_stake,
  check_banned, check_throttled, is_whitelisted, require_stake, is_ban, is_throttle,
  get_stake_status,
}

-- `checkStake` passes exactly for an absent entity, one whose address is whitelisted as it is
-- spelled, and one that is not banned and has the minimal stake and unstake delay.
check_stake-ok :
    (title : Title) (info : StakeInfo) (r : Reputation)
    → (check_stake title (some info) r ≡ ok tt) ↔ (
        (has info.addr r.whitelist ≡ true)
        ⊎ ((get_status (some info.addr) r ≢ banned)
            × (r.min_stake ≤ info.stake)
            × (r.min_unstake_delay ≤ info.unstake_delay_sec)))
unfolding check_stake is_whitelisted require_stake check_banned is_ban
check_stake-ok title info r = ground arith

-- For an address that is neither banned nor whitelisted, `checkStake` accepts the stake info that
-- `getStakeStatus` returns exactly if that reports the address as staked.
get_stake_status-check_stake :
    (deposit_info : Text → Result Error (ℕ × ℕ)) (title : Title) (a : Text) (r : Reputation)
    (info : StakeInfo) (staked : Bool)
    → get_stake_status deposit_info a r ≡ ok (info, staked)
    → get_status (some a) r ≢ banned
    → has a r.whitelist ≡ false
    → (check_stake title (some info) r ≡ ok tt) ↔ (staked ≡ true)
unfolding get_stake_status
get_stake_status-check_stake deposit_info title a r info staked h n w =
    let (to, from) = check_stake-ok title info r in
    elim (Result-cases (deposit_info a)) [
      | inl (d, e) ↦ ground (arith, e, to, from)
      | inr (x, e) ↦ ground (arith, e)
    ]

has-snoc : (x a : Text) (s : List Text) → has x (s ++ a ∷ []) ≡ (has x s || same a x)
unfolding has
has-snoc x a [] = ground arith
has-snoc x a (b ∷ s) = ground (arith, has-snoc x a s)

has-same : (x a : Text) (s : List Text) → has a s ≡ true → a ≡ x → has x s ≡ true
has-same x a s h e = rw (← e) h

has-add : (x a : Text) (s : List Text) → has x (add s a) ≡ (has x s || same a x)
unfolding add
has-add x a s = ground (arith, has-snoc x a s, has-same x a s)

-- The white list is looked up in lower case by `getStatus`, but stores what it is given: listing
-- an address that is not in lower case changes no status.
pub add_whitelist-mixed_case :
    (a : Text) (r : Reputation) (b : Option Text)
    → to_lower a ≢ a
    → get_status b (add_whitelist (a ∷ []) r) ≡ get_status b r
unfolding add_whitelist get_status status_of
add_whitelist-mixed_case a r none n = refl
add_whitelist-mixed_case a r (some b) n =
    let apart : a ≢ to_lower b = λ e. n (ap to_lower e ∙ (to_lower_idem b ∙ sym e)) in
    ground (arith, has-add (to_lower b) a r.whitelist, apart)

pub check_banned-ok :
    (title : Title) (info : StakeInfo) (r : Reputation)
    → (check_banned title info r ≡ ok tt) ↔ (get_status (some info.addr) r ≢ banned)
unfolding check_banned is_ban
check_banned-ok title info r = ground arith

pub check_throttled-ok :
    (title : Title) (info : StakeInfo) (r : Reputation)
    → (check_throttled title info r ≡ ok tt) ↔ (get_status (some info.addr) r ≢ throttled)
unfolding check_throttled is_throttle
check_throttled-ok title info r = ground arith

-- `checkStake` throws RpcErrors only.
pub check_stake-rpc :
    (title : Title) (info : Option StakeInfo) (r : Reputation) (e : Error)
    → check_stake title info r ≡ err e
    → (x : RpcError) × (e ≡ rpc x)
unfolding check_stake require_stake check_banned
check_stake-rpc title none r e h = absurd (cc)
check_stake-rpc title (some info) r (rpc x) h = (x, refl)
check_stake-rpc title (some info) r (numeric_fault n) h = ground arith
check_stake-rpc title (some info) r (provider_error n) h = ground arith
check_stake-rpc title (some info) r type_error h = ground arith

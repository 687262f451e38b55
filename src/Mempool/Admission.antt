-- ===== src/Mempool/Admission.antt =====
-- When `addUserOp` accepts an operation that is new to the mempool.
use mathlib.Core.Option.{get_or}
use bundler.Common.{
  ℕ, ◌≤◌, ◌<◌, ◌≡◌, ◌≢◌, ◌↔◌, refl, ◌∙◌, Bool, true, false, Option, none, some, arith, ltb, leb,
  if◌then◌else◌, inl, inr, Result, ok, err, ◌>>◌, >>=-of-ok, Result-cases, le→leb, leb→le,
}
use bundler.Common.Text.{Text, to_lower}
use bundler.Common.Int.{ℤ, pos}
use bundler.Doubles.{Doubles}
use bundler.Types.{Operation, ValidationResult, StakeInfo, Title, account, deployer, Error}
use bundler.Reputation.{
  Reputation, banned, throttled, get_status, has, check_banned, check_throttled, check_stake,
  calculate_max_allowed,
}
use bundler.Reputation.Checks.{check_banned-ok, check_throttled-ok, check_stake-rpc}
use bundler.Utils.{packed_nonce, nonce_fits, get_packed_nonce}
use bundler.Mempool.Defs.{
  State, Mempool, MempoolEntry, entry_count, check_reputation_status, check_reputation,
  check_multiple_roles, get_known_senders, get_known_entities, includes, update_seen,
  find_by_sender_nonce, add_user_op, append_entry, place_entry, new_entry,
}
use bundler.Mempool.Add.{entry_of, aggregator_of, add_user_op-Added, place_entry-none}

-- The number of places at which the mempool has counted an address.
abbrev pub pending : Text → State → ℕ
pending addr st = get_or (entry_count addr st.pool.counts) 0

-- What the mempool asks of an entity of a new operation.
pub record IsAdmitted (fl : Doubles) (st : State) (title : Title) (info : StakeInfo) : Type 0 where
  pub not_banned : get_status (some info.addr) st.reputation ≢ banned
  pub not_throttled :
      4 < pending info.addr st → get_status (some info.addr) st.reputation ≢ throttled
  pub staked :
      calculate_max_allowed fl title info.addr st.reputation ≤ pending info.addr st
      → check_stake title (some info) st.reputation ≡ ok tt

abbrev pub Admits : Doubles → State → Title → Option StakeInfo → Type 0
Admits fl st title none = Unit
Admits fl st title (some info) = IsAdmitted fl st title info

seq-ok {ℓ} :
    {E : Type ℓ} (a b : Result E (Unit {0})) → ((a >> b) ≡ ok tt) ↔ ((a ≡ ok tt) × (b ≡ ok tt))
seq-ok (ok a) b = (λ h. (refl, h), λ h. h.1)
seq-ok (err e) b = (λ h. absurd (cc), λ h. absurd (cc))

when-ok {ℓ} :
    {E : Type ℓ} (b : Bool) (m : Result E (Unit {0}))
    → ((if b then m else ok tt) ≡ ok tt) ↔ (b ≡ true → m ≡ ok tt)
when-ok true m = (λ h _. h, λ h. h refl)
when-ok false m = (λ h e. absurd (cc), λ h. refl)

check_reputation_status-ok :
    (fl : Doubles) (title : Title) (info : Option StakeInfo) (st : State)
    → (check_reputation_status fl title info st ≡ ok tt) ↔ Admits fl st title info
unfolding check_reputation_status
check_reputation_status-ok fl title none st = (λ _. tt, λ _. refl)
check_reputation_status-ok fl title (some info) st =
    let r = st.reputation in
    let n = pending info.addr st in
    let banned_iff = check_banned-ok title info r in
    let throttled_iff = check_throttled-ok title info r in
    let crowded = when-ok (ltb 4 n) (check_throttled title info r) in
    let full =
      when-ok (leb (calculate_max_allowed fl title info.addr r) n)
        (check_stake title (some info) r) in
    let all = seq-ok (check_banned title info r) _ in
    let rest = seq-ok (if ltb 4 n then check_throttled title info r else ok tt) _ in
    (
      λ h. record {
        not_banned = banned_iff.0 (all.0 h).0;
        not_throttled = λ m. throttled_iff.0 (crowded.0 (rest.0 (all.0 h).1).0 (ground (arith, m)));
        staked = λ m. full.0 (rest.0 (all.0 h).1).1 (le→leb _ _ m);
      },
      λ a. all.1 (
        banned_iff.1 a.not_banned,
        rest.1 (
          crowded.1 (λ m. throttled_iff.1 (a.not_throttled (ground (arith, m)))),
          full.1 (λ m. a.staked (leb→le _ _ m)),
        ),
      ),
    )

-- What `checkReputation` asks of all four entities.
pub record AllAdmitted (fl : Doubles) (st : State) (v : ValidationResult) : Type 0 where
  pub sender : IsAdmitted fl st account v.sender_info
  pub paymaster : Admits fl st Title.paymaster v.paymaster_info
  pub factory : Admits fl st deployer v.factory_info
  pub aggregator : Admits fl st Title.aggregator v.aggregator_info

check_reputation-ok :
    (fl : Doubles) (v : ValidationResult) (st : State)
    → (check_reputation fl v st ≡ ok tt) ↔ AllAdmitted fl st v
unfolding check_reputation
check_reputation-ok fl v st =
    let s = check_reputation_status-ok fl account (some v.sender_info) st in
    let p = check_reputation_status-ok fl Title.paymaster v.paymaster_info st in
    let f = check_reputation_status-ok fl deployer v.factory_info st in
    let a = check_reputation_status-ok fl Title.aggregator v.aggregator_info st in
    let first = seq-ok (check_reputation_status fl account (some v.sender_info) st) _ in
    let second = seq-ok (check_reputation_status fl Title.paymaster v.paymaster_info st) _ in
    let third = seq-ok (check_reputation_status fl deployer v.factory_info st) _ in
    (
      λ h.
          let (h1, h2) = first.0 h in
          let (h3, h4) = second.0 h2 in
          let (h5, h6) = third.0 h4 in
          record { sender = s.0 h1; paymaster = p.0 h3; factory = f.0 h5; aggregator = a.0 h6 },
      λ h.
          first.1
            (s.1 h.sender, second.1 (p.1 h.paymaster, third.1 (f.1 h.factory, a.1 h.aggregator))),
    )

-- No address of the operation has another role in the mempool.
pub record HasSingleRoles (op : Operation) (p : Mempool) : Type 0 where
  pub sender : has (to_lower op.sender) (get_known_entities p) ≡ false
  pub paymaster : includes (get_known_senders p) op.paymaster ≡ false
  pub factory : includes (get_known_senders p) op.factory ≡ false

check_multiple_roles-ok :
    (op : Operation) (p : Mempool) → (check_multiple_roles op p ≡ ok tt) ↔ HasSingleRoles op p
unfolding check_multiple_roles
check_multiple_roles-ok op p = ground arith

update_seen-ne-err :
    (agg : Option Text) (op : Operation) (info : StakeInfo) (val : ℤ) (r : Reputation) (x : Error)
    → update_seen agg op info val r ≢ err x
unfolding update_seen
update_seen-ne-err agg op info val r x h = elim (Result-cases (check_stake account (some info) r)) [
  | inl (y, e) ↦ ground (arith, e)
  | inr (y, e) ↦ ground (arith, e, check_stake-rpc account (some info) r y e)
]

-- The seen counters can always be updated: the only error of `checkStake` is swallowed.
pub update_seen_total :
    (agg : Option Text) (op : Operation) (info : StakeInfo) (val : ℤ) (r : Reputation)
    → (r' : Reputation) × (update_seen agg op info val r ≡ ok r')
update_seen_total agg op info val r = elim (Result-cases (update_seen agg op info val r)) [
  | inl found ↦ found
  | inr (x, e) ↦ absurd (update_seen-ne-err agg op info val r x e)
]

get_packed_nonce-fits :
    (op : Operation) → nonce_fits op ≡ true → get_packed_nonce op ≡ ok (packed_nonce op)
unfolding get_packed_nonce
get_packed_nonce-fits op h = ground (arith, h)

append_entry-ok :
    (fl : Doubles) (new : MempoolEntry) (v : ValidationResult) (st : State)
    → check_reputation fl v st ≡ ok tt
    → check_multiple_roles new.user_op st.pool ≡ ok tt
    → (placed : State) × (append_entry fl false new v st ≡ ok placed)
unfolding append_entry
append_entry-ok fl new v st h k = (_, >>=-of-ok _ _ tt ((seq-ok _ _).1 (h, k)))

add_user_op-steps :
    (fl : Doubles) (op : Operation) (hash : Text) (v : ValidationResult) (st placed : State)
    (r : Reputation)
    → get_packed_nonce op ≡ ok (packed_nonce op)
    → place_entry fl false (entry_of false op hash v) v st (packed_nonce op) ≡ ok placed
    → update_seen (aggregator_of v) op v.sender_info (pos 1) placed.reputation ≡ ok r
    → add_user_op fl false op hash v st ≡ ok (record placed { reputation = r })
unfolding add_user_op
add_user_op-steps fl op hash v st placed r n p u =
    >>=-of-ok _ _ (packed_nonce op) n ∙ (>>=-of-ok _ _ placed p ∙ >>=-of-ok _ _ r u)

-- `addUserOp`, asked to validate an operation whose sender and nonce are new to the mempool and
-- whose nonce can be packed, succeeds exactly if each of its entities is admitted and has no other
-- role in the mempool.
pub add_user_op-ok :
    (fl : Doubles) (op : Operation) (hash : Text) (v : ValidationResult) (st : State)
    → nonce_fits op ≡ true
    → find_by_sender_nonce op.sender (packed_nonce op) st.pool.mempool ≡ none
    → ((st' : State) × (add_user_op fl false op hash v st ≡ ok st'))
      ↔ (AllAdmitted fl st v × HasSingleRoles op st.pool)
unfolding new_entry
add_user_op-ok fl op hash v st fits fresh = (
  λ (st', h).
      let d = add_user_op-Added fl false op hash v st st' h in
      elim d.place [
        | inl p ↦ (
          (check_reputation-ok fl v st).0 (p.checked refl),
          (check_multiple_roles-ok op st.pool).0 (p.single_role refl),
        )
        | inr p ↦ absurd (cc (p.found, fresh))
      ],
  λ a.
      let new = entry_of false op hash v in
      let (placed, p) =
        append_entry-ok fl new v st ((check_reputation-ok fl v st).1 a.0)
          ((check_multiple_roles-ok op st.pool).1 a.1) in
      let (r, u) = update_seen_total (aggregator_of v) op v.sender_info (pos 1) placed.reputation in
      (
        record placed { reputation = r },
        add_user_op-steps fl op hash v st placed r (get_packed_nonce-fits op fits)
            (place_entry-none fl false new v st fresh ∙ p) u,
      ),
)

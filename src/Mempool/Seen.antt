-- ===== src/Mempool/Seen.antt =====
-- The seen counters across `addUserOp`.
use bundler.Common.{
  ℕ, ◌+◌, ◌≤◌, Result-cases, ◌≡◌, ◌≢◌, refl, ap, ◌∙◌, Option, none, some, arith, get_elem?, inl,
  inr, ok, err, ◌⊎◌, Bool, subst,
}
use bundler.Common.Text.{Text, to_lower}
use bundler.Common.Dict.{get-put}
use bundler.Common.Int.{ℤ, pos, negsuc, pos_part, ◌+ℤ◌}
use bundler.Doubles.{Doubles}
use bundler.Types.{Operation, ValidationResult, StakeInfo, Error, account}
use bundler.Reputation.{Reputation, get_or_create, update_seen_status, check_stake}
use bundler.Utils.{packed_nonce}
use bundler.Mempool.Defs.{
  MempoolEntry, State, update_seen, find_by_sender_nonce, add_user_op, new_entry,
}
use bundler.Mempool.Lookup.{find_sound}
use bundler.Mempool.Add.{aggregator_of, add_user_op-Added}

-- The operations seen of an address, 0 where it has no entry.
pub seen : Text → Reputation → ℕ
seen a r = (get_or_create (to_lower a) r).ops_seen

-- The address is not the optional one, whatever the case of their letters.
abbrev pub Other : Text → Option Text → Type 0
Other a none = Unit
Other a (some b) = to_lower b ≢ to_lower a

seen-update_self :
    (a : Text) (val : ℤ) (r : Reputation)
    → seen a (update_seen_status (some a) val r) ≡ pos_part (pos (seen a r) +ℤ val)
unfolding seen update_seen_status get_or_create
seen-update_self a val r =
    let e = get_or_create (to_lower a) r in
    ground (
      arith,
      get-put (to_lower a) (to_lower a) (record e { ops_seen = pos_part (pos e.ops_seen +ℤ val) })
          r.entries,
    )

seen-update-Other :
    (a : Text) (o : Option Text) (val : ℤ) (r : Reputation)
    → Other a o
    → seen a (update_seen_status o val r) ≡ seen a r
unfolding seen update_seen_status get_or_create
seen-update-Other a none val r n = refl
seen-update-Other a (some b) val r n =
    let e = get_or_create (to_lower b) r in
    ground (
      arith,
      get-put (to_lower b) (to_lower a) (record e { ops_seen = pos_part (pos e.ops_seen +ℤ val) })
          r.entries,
    )

-- The sender is none of the operation's other entities.
pub record HasOwnSender (agg : Option Text) (op : Operation) : Type 0 where
  pub aggregator : Other op.sender agg
  pub paymaster : Other op.sender op.paymaster
  pub factory : Other op.sender op.factory

one_more : (n : ℕ) → pos_part (pos n +ℤ pos 1) ≡ n + 1
unfolding ◌+ℤ◌
one_more n = ground arith

abbrev rest : Option Text → Operation → ℤ → Reputation → Reputation
rest agg op val r =
    update_seen_status op.factory val
      (update_seen_status op.paymaster val (update_seen_status agg val r))

-- The two ways in which the counters are updated.
update_seen-cases :
    (agg : Option Text) (op : Operation) (info : StakeInfo) (val : ℤ) (r r' : Reputation)
    → update_seen agg op info val r ≡ ok r'
    → ((check_stake account (some info) r ≡ ok tt)
        × (r' ≡ rest agg op val (update_seen_status (some op.sender) (pos 1) r)))
      ⊎ ((e : Error) × (check_stake account (some info) r ≡ err e) × (r' ≡ rest agg op val r))
unfolding update_seen
update_seen-cases agg op info val r r' h = elim (Result-cases (check_stake account (some info) r)) [
  | inl (x, e) ↦ inl (e, ground (arith, e))
  | inr (x, e) ↦ inr (x, e, ground (arith, e))
]

module _ (agg : Option Text) (op : Operation) (info : StakeInfo) (val : ℤ) (r r' : Reputation)
    (own : HasOwnSender agg op) (done : update_seen agg op info val r ≡ ok r') where
  seen-rest :
      (s : Reputation)
      → seen op.sender (
          update_seen_status op.factory val
            (update_seen_status op.paymaster val (update_seen_status agg val s)))
        ≡ seen op.sender s
  seen-rest s =
      seen-update-Other op.sender op.factory val _ own.factory
      ∙ (seen-update-Other op.sender op.paymaster val _ own.paymaster
          ∙ seen-update-Other op.sender agg val s own.aggregator)

  -- Whatever `val` is, the sender's counter goes up by one where its stake is accepted.
  seen-update_seen :
      check_stake account (some info) r ≡ ok tt → seen op.sender r' ≡ seen op.sender r + 1
  seen-update_seen h = elim (update_seen-cases agg op info val r r' done) [
    | inl (_, e) ↦
        rw e (seen-rest _ ∙ (seen-update_self op.sender (pos 1) r ∙ one_more (seen op.sender r)))
    | inr (x, e, _) ↦ absurd (cc)
  ]

  seen-update_seen-le : seen op.sender r ≤ seen op.sender r'
  seen-update_seen-le = elim (update_seen-cases agg op info val r r' done) [
    | inl (_, e) ↦ omega (
      arith,
      ap (seen op.sender) e,
      seen-rest (update_seen_status (some op.sender) (pos 1) r),
      seen-update_self op.sender (pos 1) r,
      one_more (seen op.sender r),
    )
    | inr (x, _, e) ↦ omega (arith, ap (seen op.sender) e, seen-rest r)
  ]

-- Replacing an operation counts its sender again: after a successful replacement the sender's
-- counter of operations seen is higher by at least one, where `checkStake` accepts the sender's
-- stake info before, and the sender has no other role in the old operation nor in the new one.
pub add_user_op-seen_twice :
    (fl : Doubles) (skip : Bool) (op : Operation) (hash : Text) (v : ValidationResult)
    (st st' : State) (i : ℕ) (old : MempoolEntry)
    → add_user_op fl skip op hash v st ≡ ok st'
    → find_by_sender_nonce op.sender (packed_nonce op) st.pool.mempool ≡ some i
    → get_elem? st.pool.mempool i ≡ some old
    → check_stake account (some v.sender_info) st.reputation ≡ ok tt
    → HasOwnSender (aggregator_of v) op
    → HasOwnSender old.aggregator old.user_op
    → seen op.sender st.reputation + 1 ≤ seen op.sender st'.reputation
unfolding new_entry
add_user_op-seen_twice fl skip op hash v st st' i old h f g staked own own_old =
    let d = add_user_op-Added fl skip op hash v st st' h in
    elim d.place [
      | inl p ↦ absurd (cc (p.fresh, f))
      | inr p ↦
          let same_old : p.old ≡ old = cc (p.found, f, p.there, g) in
          let sender : old.user_op.sender ≡ op.sender =
            (find_sound op.sender (packed_nonce op) st.pool.mempool i old f g).0 in
          let undone : update_seen old.aggregator old.user_op v.sender_info (negsuc 0) st.reputation
              ≡ ok d.placed.reputation =
            subst
              (λ (x : MempoolEntry).
                update_seen x.aggregator x.user_op v.sender_info (negsuc 0) st.reputation
                ≡ ok d.placed.reputation)
              same_old p.undone in
          let first =
            seen-update_seen old.aggregator old.user_op v.sender_info (negsuc 0) st.reputation
              d.placed.reputation own_old undone staked in
          let second =
            seen-update_seen-le (aggregator_of v) op v.sender_info (pos 1) d.placed.reputation
              st'.reputation own d.seen in
          omega (
            arith,
            second,
            subst (λ (a : Text). seen a d.placed.reputation ≡ seen a st.reputation + 1) sender
                first,
          )
    ]

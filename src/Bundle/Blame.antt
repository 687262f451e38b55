-- ===== src/Bundle/Blame.antt =====
-- What becomes of the entity that is to blame for a bundle that reverts, and of an operation that
-- fails its second validation.
use bundler.Common.{
  ℕ, ◌+◌, ◌*◌, ◌≤◌, ◌<◌, ◌≡◌, refl, sym, ◌∙◌, subst, false, Option, none, some, List, [], ◌∷◌, ok,
  Bool-cases, Option-cases, inl, inr, get_elem?, All, All-remove_at,
}
use bundler.Common.Text.{Text, to_lower}
use bundler.Common.Int.{ℤ, negsuc}
use bundler.Types.{Operation, Error}
use bundler.Reputation.{Reputation, banned, has, get_status, update_seen_status}
use bundler.Reputation.Standing.{crashed-is_banned}
use bundler.Utils.{packed_nonce}
use bundler.Mempool.Defs.{
  State, Mempool, MempoolEntry, involves, remove_index, remove_user_op, remove_banned_addr,
  find_by_sender_nonce,
}
use bundler.Mempool.Banned.{HasDistinctHashes, without, remove_banned_addr-mempool}
use bundler.Bundle.{
  Node, parse_failed_op_revert, find_entity_to_blame, undo_seen, punish, send_failed, drop_op,
}

update_seen_status-fixed :
    (o : Option Text) (val : ℤ) (r : Reputation)
    → ((update_seen_status o val r).params ≡ r.params)
      × ((update_seen_status o val r).whitelist ≡ r.whitelist)
unfolding update_seen_status
update_seen_status-fixed none val r = (refl, refl)
update_seen_status-fixed (some a) val r = (refl, refl)

undo_seen-fixed :
    (op : Operation) (r : Reputation)
    → ((undo_seen op r).params ≡ r.params) × ((undo_seen op r).whitelist ≡ r.whitelist)
unfolding undo_seen
undo_seen-fixed op r =
    let r1 = update_seen_status (some op.sender) (negsuc 0) r in
    let r2 = update_seen_status op.paymaster (negsuc 0) r1 in
    let a = update_seen_status-fixed (some op.sender) (negsuc 0) r in
    let b = update_seen_status-fixed op.paymaster (negsuc 0) r1 in
    let c = update_seen_status-fixed op.factory (negsuc 0) r2 in
    (c.0 ∙ (b.0 ∙ a.0), c.1 ∙ (b.1 ∙ a.1))

-- No entry of a list has an address as an entity.
pub IsRidOf : Text → List MempoolEntry → Type 0
IsRidOf addr es = All (λ e. involves addr e ≡ false) es

without-IsRidOf : (addr : Text) (es : List MempoolEntry) → IsRidOf addr (without addr es)
unfolding IsRidOf without
without-IsRidOf addr [] = tt
without-IsRidOf addr (e ∷ es) = elim (Bool-cases (involves addr e)) [
  | inl hit ↦ rw hit (without-IsRidOf addr es)
  | inr miss ↦ rw miss (miss, without-IsRidOf addr es)
]

remove_user_op-IsRidOf :
    (addr : Text) (op : Operation) (p : Mempool)
    → IsRidOf addr p.mempool
    → IsRidOf addr (remove_user_op op p).mempool
unfolding remove_user_op remove_index IsRidOf
remove_user_op-IsRidOf addr op p c =
    elim (Option-cases (find_by_sender_nonce op.sender (packed_nonce op) p.mempool)) [
      | inl f ↦ rw f c
      | inr (i, f) ↦ elim (Option-cases (get_elem? p.mempool i)) [
        | inl g ↦ rw (f, g, remove_index) c
        | inr (e, g) ↦ rw (f, g, remove_index) (All-remove_at _ p.mempool i c)
      ]
    ]

send_failed-blamed :
    (n : Node) (e : Error) (ops : List Operation) (st : State) (index : ℕ) (reason : Text)
    (op : Operation) (addr : Option Text)
    → parse_failed_op_revert n e ≡ some (index, reason)
    → get_elem? ops index ≡ some op
    → find_entity_to_blame n reason op st.reputation ≡ ok addr
    → send_failed n e ops st ≡ (drop_op op (punish addr op st), ok tt)
unfolding send_failed
send_failed-blamed n e ops st index reason op addr h g f = rw (h, g, f, send_failed) refl

-- When a bundle reverts with a FailedOp of an operation, and an address is to blame that is not
-- whitelisted, that address is banned and no pending operation has it as sender, paymaster or
-- factory any more. This asks that no two entries have the same hash, and of the parameters that
-- 10000 operations are enough to exceed the ban slack.
pub send_failed-banned :
    (n : Node) (e : Error) (ops : List Operation) (st : State) (index : ℕ) (reason : Text)
    (op : Operation) (addr : Text)
    → parse_failed_op_revert n e ≡ some (index, reason)
    → get_elem? ops index ≡ some op
    → find_entity_to_blame n reason op st.reputation ≡ ok (some addr)
    → HasDistinctHashes st.pool.mempool
    → has (to_lower addr) st.reputation.whitelist ≡ false
    → 0 < st.reputation.params.min_inclusion_denominator
    → st.reputation.params.min_inclusion_denominator * (st.reputation.params.ban_slack + 1) ≤ 10000
    → st.reputation.params.throttling_slack ≤ st.reputation.params.ban_slack
    → let (st', outcome) = send_failed n e ops st in
      (outcome ≡ ok tt)
      × (get_status (some addr) st'.reputation ≡ banned)
      × IsRidOf addr st'.pool.mempool
unfolding punish
send_failed-banned n e ops st index reason op addr h g f d w pos_d room slacks =
    let undone = undo_seen op st.reputation in
    let (p, q) = undo_seen-fixed op st.reputation in
    rw (send_failed-blamed n e ops st index reason op (some addr) h g f) (
      refl,
      crashed-is_banned undone addr (rw q w) (rw p pos_d) (rw p room) (rw p slacks),
      remove_user_op-IsRidOf addr op (remove_banned_addr addr st.pool) (
          subst (IsRidOf addr) (sym (remove_banned_addr-mempool addr st.pool d))
            (without-IsRidOf addr st.pool.mempool)),
    )

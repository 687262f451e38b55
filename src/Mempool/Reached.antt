-- ===== src/Mempool/Reached.antt =====
-- The mempools that the operations of MempoolManager.ts lead to from the empty one.
use bundler.Common.{
  ℕ, zero, suc, ◌≡◌, ◌≢◌, refl, ap, Bool, All-get_elem?, some, List, [], ◌∷◌, ok, get_elem?, length,
}
use bundler.Common.Text.{Text}
use bundler.Doubles.{Doubles}
use bundler.Types.{Operation, ValidationResult}
use bundler.Utils.{packed_nonce}
use bundler.Mempool.Defs.{
  MempoolEntry, Mempool, State, add_user_op, remove_user_op, remove_hash, remove_banned_addr,
  clear_state, find_by_sender_nonce, find_by_hash,
}
use bundler.Mempool.Lookup.{IsUnique, SameKey, remove_index-IsUnique}
use bundler.Mempool.Kept.{add_user_op-IsUnique}
use bundler.Mempool.Banned.{remove_banned_from-keeps}

-- A call that changes the mempool; an addition may come with any reputations.
pub data Step : Mempool → Mempool → Type 0 where
  adds :
      (fl : Doubles) (skip : Bool) (op : Operation) (hash : Text) (v : ValidationResult)
      (st st' : State)
      → add_user_op fl skip op hash v st ≡ ok st'
      → Step st.pool st'.pool
  removes : (op : Operation) (p : Mempool) → Step p (remove_user_op op p)
  removes_hash : (hash : Text) (p : Mempool) → Step p (remove_hash hash p)
  bans : (addr : Text) (p : Mempool) → Step p (remove_banned_addr addr p)
  clears : (p : Mempool) → Step p (clear_state p)

pub data Reached : Mempool → Type 0 where
  empty : Reached (record { mempool = []; counts = [] })
  after : {p q : Mempool} → Reached p → Step p q → Reached q

Step-IsUnique : {p q : Mempool} → Step p q → IsUnique p.mempool → IsUnique q.mempool
unfolding remove_user_op remove_hash remove_banned_addr clear_state
Step-IsUnique (adds fl skip op hash v st st' e) u =
    add_user_op-IsUnique fl skip op hash v st st' e u
Step-IsUnique (removes op p) u =
    remove_index-IsUnique (find_by_sender_nonce op.sender (packed_nonce op) p.mempool) p u
Step-IsUnique (removes_hash hash p) u = remove_index-IsUnique (find_by_hash hash p.mempool) p u
Step-IsUnique (bans addr p) u =
    remove_banned_from-keeps (λ q. IsUnique q.mempool)
      (λ hash q. remove_index-IsUnique (find_by_hash hash q.mempool) q) (length p.mempool) addr p u
Step-IsUnique (clears p) u = tt

Reached-IsUnique : {p : Mempool} → Reached p → IsUnique p.mempool
Reached-IsUnique empty = tt
Reached-IsUnique (after r s) = Step-IsUnique s (Reached-IsUnique r)

IsUnique-index :
    (es : List MempoolEntry) (i j : ℕ) (e f : MempoolEntry)
    → IsUnique es
    → get_elem? es i ≡ some e
    → get_elem? es j ≡ some f
    → SameKey e f
    → i ≡ j
IsUnique-index [] i j e f u g h k = absurd (cc)
IsUnique-index (x ∷ es) zero zero e f u g h k = refl
IsUnique-index (x ∷ es) zero (suc j) e f u g h k =
    absurd (All-get_elem? (λ y. ¬ SameKey y x) es j f h u.0 (first g k))
  where
    first : some x ≡ some e → SameKey e f → SameKey f x
    first q s = (cc, cc)
IsUnique-index (x ∷ es) (suc i) zero e f u g h k =
    absurd (All-get_elem? (λ y. ¬ SameKey y x) es i e g u.0 (first h k))
  where
    first : some x ≡ some f → SameKey e f → SameKey e x
    first q s = (cc, cc)
IsUnique-index (x ∷ es) (suc i) (suc j) e f u g h k = ap suc (IsUnique-index es i j e f u.1 g h k)

-- In every mempool that any sequence of additions that succeed, removals, bans and clearings leads to
-- from the empty one, two entries of one sender at different places have different packed nonces.
pub Reached-one_entry :
    (p : Mempool) (i j : ℕ) (e f : MempoolEntry)
    → Reached p
    → get_elem? p.mempool i ≡ some e
    → get_elem? p.mempool j ≡ some f
    → i ≢ j
    → e.user_op.sender ≡ f.user_op.sender
    → packed_nonce e.user_op ≢ packed_nonce f.user_op
Reached-one_entry p i j e f r g h apart sender nonce =
    apart (IsUnique-index p.mempool i j e f (Reached-IsUnique r) g h (sender, nonce))

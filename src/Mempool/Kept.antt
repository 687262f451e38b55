-- ===== src/Mempool/Kept.antt =====
-- What `addUserOp` keeps: the entry counts, the uniqueness of sender and nonce, and the other
-- entries.
use mathlib.Core.Path.{ap₂}
use bundler.Common.{
  ℕ, ◌+◌, ◌==◌, ◌&&◌, ◌≡◌, ◌∙◌, Bool, none, some, List, [], ◌∷◌, ◌++◌, arith, get_elem?, set,
  if◌then◌else◌, inl, inr, ok, Option-cases,
}
use bundler.Common.Text.{Text, same}
use bundler.Doubles.{Doubles}
use bundler.Types.{Operation, ValidationResult}
use bundler.Utils.{packed_nonce}
use bundler.Mempool.Defs.{
  MempoolEntry, Mempool, State, new_entry, find_by_sender_nonce, increment_all, add_user_op,
}
use bundler.Mempool.Counts.{
  IsCounted, occurrences, places, count_of, count_of-increment_all, occurrences-append,
  occurrences-set,
}
use bundler.Mempool.Lookup.{
  keyed, lookup, find_none, find_sound, append-IsUnique, set-IsUnique, lookup-append,
  lookup-append_some, lookup-set, IsUnique,
}
use bundler.Mempool.Add.{entry_of, add_user_op-Added}

-- The counts of a pool after an append, and after a replacement.
module _ (p : Mempool) (new : MempoolEntry) (a : Text) where
  counted_append :
      (q : Mempool)
      → IsCounted p
      → q ≡ record { mempool = p.mempool ++ new ∷ []; counts = increment_all new.user_op p.counts }
      → count_of a q.counts ≡ occurrences a q.mempool
  unfolding occurrences
  counted_append q c e = rw e (
      omega (
        arith,
        c a,
        count_of-increment_all a new.user_op p.counts,
        occurrences-append a p.mempool (new ∷ []),
      ))

  counted_set :
      (q : Mempool) (i : ℕ) (old : MempoolEntry)
      → IsCounted p
      → get_elem? p.mempool i ≡ some old
      → q ≡ record p { mempool = set p.mempool i new }
      → occurrences a q.mempool + places a old.user_op ≡ count_of a q.counts + places a new.user_op
  counted_set q i old c g e = rw e (omega (arith, c a, occurrences-set a p.mempool i old new g))

lookup_appended :
    (s : Text) (n : ℕ) (es : List MempoolEntry) (new : MempoolEntry)
    → lookup new.user_op.sender (packed_nonce new.user_op) es ≡ none
    → lookup s n (es ++ new ∷ []) ≡ (
        if same new.user_op.sender s && packed_nonce new.user_op == n
        then some new
        else lookup s n es)
unfolding keyed
lookup_appended s n es new l = elim (Option-cases (lookup s n es)) [
  | inl e ↦ ground (arith, e, lookup-append s n es new e)
  | inr (x, e) ↦
      ground
        (arith, e, lookup-append_some s n es new x e, l, ap₂ (λ (t : Text) (m : ℕ). lookup t m es))
]

lookup_replaced :
    (s : Text) (n : ℕ) (es : List MempoolEntry) (i : ℕ) (old new : MempoolEntry)
    → find_by_sender_nonce new.user_op.sender (packed_nonce new.user_op) es ≡ some i
    → get_elem? es i ≡ some old
    → lookup s n (set es i new) ≡ (
        if same new.user_op.sender s && packed_nonce new.user_op == n
        then some new
        else lookup s n es)
unfolding keyed
lookup_replaced s n es i old new f g =
    let (same_sender, same_nonce) =
      find_sound new.user_op.sender (packed_nonce new.user_op) es i old f g in
    lookup-set s n es i old new g (same_sender, same_nonce) (simp (same_sender, same_nonce) f)

module _ (fl : Doubles) (skip : Bool) (op : Operation) (hash : Text) (v : ValidationResult)
    (st st' : State) (added : add_user_op fl skip op hash v st ≡ ok st') where
  -- A successful `addUserOp` of an operation whose sender and nonce are new to the mempool keeps
  -- the entry count of each address equal to the number of places at which it occurs.
  pub add_user_op-IsCounted :
      IsCounted st.pool
      → find_by_sender_nonce op.sender (packed_nonce op) st.pool.mempool ≡ none
      → IsCounted st'.pool
  unfolding new_entry
  add_user_op-IsCounted c f a =
      let d = add_user_op-Added fl skip op hash v st st' added in
      let new = entry_of skip op hash v in
      elim d.place [
        | inl p ↦ counted_append st.pool new a st'.pool c (d.pool ∙ p.pool)
        | inr p ↦ absurd (cc (p.found, f))
      ]

  -- Where a successful `addUserOp` replaces an entry, the count of an address is off by the
  -- difference between its places in the old and in the new operation.
  pub add_user_op-counts :
      (a : Text) (i : ℕ) (old : MempoolEntry)
      → IsCounted st.pool
      → find_by_sender_nonce op.sender (packed_nonce op) st.pool.mempool ≡ some i
      → get_elem? st.pool.mempool i ≡ some old
      → occurrences a st'.pool.mempool + places a old.user_op
        ≡ count_of a st'.pool.counts + places a op
  unfolding new_entry
  add_user_op-counts a i old c f g =
      let d = add_user_op-Added fl skip op hash v st st' added in
      let new = entry_of skip op hash v in
      elim d.place [
        | inl p ↦ absurd (cc (p.fresh, f))
        | inr p ↦
            let same_old : p.old ≡ old = cc (p.found, f, p.there, g) in
            rw (← same_old)
              (counted_set st.pool new a st'.pool p.index p.old c p.there (d.pool ∙ p.pool))
      ]

  -- After a successful `addUserOp` the sender and nonce of the operation find the new entry, and
  -- every other sender and nonce finds what it found before.
  pub lookup-add_user_op :
      (s : Text) (n : ℕ)
      → lookup s n st'.pool.mempool ≡ (
          if same op.sender s && packed_nonce op == n
          then some (entry_of skip op hash v)
          else lookup s n st.pool.mempool)
  unfolding new_entry
  lookup-add_user_op s n =
      let d = add_user_op-Added fl skip op hash v st st' added in
      let new = entry_of skip op hash v in
      elim d.place [
        | inl p ↦ rw (d.pool ∙ p.pool) (
            lookup_appended s n st.pool.mempool new
              (find_none op.sender (packed_nonce op) st.pool.mempool p.fresh))
        | inr p ↦
            rw (d.pool ∙ p.pool)
              (lookup_replaced s n st.pool.mempool p.index p.old new p.found p.there)
      ]

  -- Adding an operation keeps sender and nonce unique: where no two pending entries have the same
  -- sender and packed nonce, none have after an `addUserOp` that succeeds.
  pub add_user_op-IsUnique : IsUnique st.pool.mempool → IsUnique st'.pool.mempool
  unfolding new_entry
  add_user_op-IsUnique u =
      let d = add_user_op-Added fl skip op hash v st st' added in
      let new = entry_of skip op hash v in
      elim d.place [
        | inl p ↦ rw (d.pool ∙ p.pool) (
            append-IsUnique st.pool.mempool new
              (find_none op.sender (packed_nonce op) st.pool.mempool p.fresh) u)
        | inr p ↦ rw (d.pool ∙ p.pool) (
            set-IsUnique st.pool.mempool p.index p.old new p.there
              (find_sound op.sender (packed_nonce op) st.pool.mempool p.index p.old p.found p.there)
              u)
      ]

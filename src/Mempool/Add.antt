-- ===== src/Mempool/Add.antt =====
-- `addUserOp`: what a success means, and what it keeps.
use mathlib.Core.Option
use mathlib.Core.Option.{get_or}
use bundler.Common.{
  ℕ, ◌≡◌, refl, sym, ap, ◌∙◌, Bool, true, false, Option, none, some, [], ◌∷◌, ◌++◌, arith,
  get_elem?, set, if◌then◌else◌, Bool-cases, inl, inr, ◌⊎◌, Result, ok, err, >>=-eq-ok, ◌>>=◌, ◌>>◌,
}
use bundler.Common.Text.{Text}
use bundler.Common.Int.{pos, negsuc}
use bundler.Doubles.{Doubles}
use bundler.Types.{Error, Operation, ValidationResult, StakeInfo}
use bundler.Reputation.{Reputation}
use bundler.Utils.{packed_nonce, get_packed_nonce, nonce_fits}
use bundler.Mempool.Defs.{
  MempoolEntry, State, new_entry, find_by_sender_nonce, update_seen, check_reputation,
  check_multiple_roles, check_replace, increment_all, replace_entry, append_entry, place_entry,
  add_user_op,
}
use bundler.Mempool.Lookup.{find-lookup}

-- The entry that `addUserOp` makes.
abbrev pub aggregator_of : ValidationResult → Option Text
aggregator_of v = Option.map (λ (i : StakeInfo). i.addr) v.aggregator_info

abbrev pub entry_of : Bool → Operation → Text → ValidationResult → MempoolEntry
entry_of skip op hash v =
    new_entry op hash (get_or v.return_info.prefund 0) v.referenced_contracts skip (aggregator_of v)

-- Inversion of the two shapes of the branches.
append-inv {ℓ κ} :
    {E : Type ℓ} {S : Type κ} (skip : Bool) (a b : Result E (Unit {0})) (s : S) {s' : S}
    → ((if skip then ok tt else (a >> b)) >>= λ _. ok s) ≡ ok s'
    → (skip ≡ false → a ≡ ok tt) × (skip ≡ false → b ≡ ok tt) × (s ≡ s')
append-inv true a b s h = (λ e. absurd (cc), λ e. absurd (cc), cc)
append-inv false (ok a) (ok b) s h = (λ _. refl, λ _. refl, cc)
append-inv false (ok a) (err b) s h = absurd (cc)
append-inv false (err a) b s h = absurd (cc)

replace-inv {ℓ κ μ} :
    {E : Type ℓ} {S : Type κ} {R : Type μ} (a : Result E (Unit {0})) (b : Result E R) (f : R → S)
    {s' : S}
    → (a >>= λ _. b >>= λ r. ok (f r)) ≡ ok s'
    → (a ≡ ok tt) × (r : R) × (b ≡ ok r) × (f r ≡ s')
replace-inv (ok a) (ok r) f h = (refl, r, refl, cc)
replace-inv (ok a) (err r) f h = absurd (cc)
replace-inv (err a) b f h = absurd (cc)

module _ (fl : Doubles) (skip : Bool) (new : MempoolEntry) (v : ValidationResult) (st : State) where
  -- The new entry stands at the end, counted, after the checks that were asked for.
  pub record Appended (st' : State) : Type 0 where
    pub fresh :
        find_by_sender_nonce new.user_op.sender (packed_nonce new.user_op) st.pool.mempool ≡ none
    pub checked : skip ≡ false → check_reputation fl v st ≡ ok tt
    pub single_role : skip ≡ false → check_multiple_roles new.user_op st.pool ≡ ok tt
    pub pool : st'.pool ≡ record {
      mempool = st.pool.mempool ++ new ∷ [];
      counts = increment_all new.user_op st.pool.counts;
    }
    pub kept : st'.reputation ≡ st.reputation

  -- The new entry stands in the place of an old one; the counts are those of before.
  pub record Replaced (st' : State) : Type 0 where
    pub index : ℕ
    pub old : MempoolEntry
    pub found :
        find_by_sender_nonce new.user_op.sender (packed_nonce new.user_op) st.pool.mempool
        ≡ some index
    pub there : get_elem? st.pool.mempool index ≡ some old
    pub higher : check_replace fl old new ≡ ok tt
    pub pool : st'.pool ≡ record st.pool { mempool = set st.pool.mempool index new }
    pub undone :
        update_seen old.aggregator old.user_op v.sender_info (negsuc 0) st.reputation
        ≡ ok st'.reputation

  append_entry-Appended :
      (st' : State)
      → find_by_sender_nonce new.user_op.sender (packed_nonce new.user_op) st.pool.mempool ≡ none
      → append_entry fl skip new v st ≡ ok st'
      → Appended st'
  unfolding append_entry
  append_entry-Appended st' f h =
      let (a, b, e) =
        append-inv skip (check_reputation fl v st) (check_multiple_roles new.user_op st.pool) _ h in
      record { fresh = f; checked = a; single_role = b; pool = cc; kept = cc }

  replace_entry-Replaced :
      (st' : State) (i : ℕ) (old : MempoolEntry)
      → find_by_sender_nonce new.user_op.sender (packed_nonce new.user_op) st.pool.mempool ≡ some i
      → get_elem? st.pool.mempool i ≡ some old
      → replace_entry fl i old new v st ≡ ok st'
      → Replaced st'
  unfolding replace_entry
  replace_entry-Replaced st' i old f g h =
      let (a, r, b, e) =
        replace-inv (check_replace fl old new)
          (update_seen old.aggregator old.user_op v.sender_info (negsuc 0) st.reputation)
          (λ (r' : Reputation). record {
            reputation = r';
            pool = record st.pool { mempool = set st.pool.mempool i new };
          })
          h in
      record {
        index = i;
        old = old;
        found = f;
        there = g;
        higher = a;
        pool = ap (λ (s : State). s.pool) (sym e);
        undone = b ∙ ap (λ (s : State). ok s.reputation) e;
      }

  pub place_entry-none :
      find_by_sender_nonce new.user_op.sender (packed_nonce new.user_op) st.pool.mempool ≡ none
      → place_entry fl skip new v st (packed_nonce new.user_op) ≡ append_entry fl skip new v st
  unfolding place_entry
  place_entry-none f = rw (f, place_entry)

  place_entry-some :
      (i : ℕ) (old : MempoolEntry)
      → find_by_sender_nonce new.user_op.sender (packed_nonce new.user_op) st.pool.mempool ≡ some i
      → get_elem? st.pool.mempool i ≡ some old
      → place_entry fl skip new v st (packed_nonce new.user_op) ≡ replace_entry fl i old new v st
  unfolding place_entry
  place_entry-some i old f g = rw (f, g, place_entry)

  place_entry-cases :
      (st' : State)
      → place_entry fl skip new v st (packed_nonce new.user_op) ≡ ok st'
      → Appended st' ⊎ Replaced st'
  place_entry-cases st' h =
      elim (find-lookup new.user_op.sender (packed_nonce new.user_op) st.pool.mempool) [
        | inl (f, l) ↦ inl (append_entry-Appended st' f (sym (place_entry-none f) ∙ h))
        | inr (i, e, f, g, l, k) ↦
            inr (replace_entry-Replaced st' i e f g (sym (place_entry-some i e f g) ∙ h))
      ]

-- A success of `addUserOp`, taken apart: the new entry is appended or replaces one, and the seen
-- counters are updated last.
pub record Added (fl : Doubles) (skip : Bool) (op : Operation) (hash : Text) (v : ValidationResult)
    (st st' : State) : Type 0 where
  pub placed : State
  pub nonce : nonce_fits op ≡ true
  pub place :
      Appended fl skip (entry_of skip op hash v) v st placed
      ⊎ Replaced fl skip (entry_of skip op hash v) v st placed
  pub seen :
      update_seen (aggregator_of v) op v.sender_info (pos 1) placed.reputation ≡ ok st'.reputation
  pub pool : st'.pool ≡ placed.pool

new_entry-user_op :
    (skip : Bool) (op : Operation) (hash : Text) (v : ValidationResult)
    → (entry_of skip op hash v).user_op ≡ op
unfolding new_entry
new_entry-user_op skip op hash v = refl

get_packed_nonce-ok :
    (op : Operation) (n : ℕ)
    → get_packed_nonce op ≡ ok n
    → (nonce_fits op ≡ true) × (packed_nonce op ≡ n)
unfolding get_packed_nonce
get_packed_nonce-ok op n h = elim (Bool-cases (nonce_fits op)) [
  | inl e ↦ (e, ground (arith, e))
  | inr e ↦ ground (arith, e)
]

ok-pool : {s t : State} → ◌≡◌ {A = Result Error State} (ok s) (ok t) → s.pool ≡ t.pool
ok-pool e = cc

pub add_user_op-Added :
    (fl : Doubles) (skip : Bool) (op : Operation) (hash : Text) (v : ValidationResult)
    (st st' : State)
    → add_user_op fl skip op hash v st ≡ ok st'
    → Added fl skip op hash v st st'
unfolding add_user_op
add_user_op-Added fl skip op hash v st st' h =
    let new = entry_of skip op hash v in
    let (n, p, h1) = >>=-eq-ok (get_packed_nonce op) _ h in
    let (placed, q, h2) = >>=-eq-ok (place_entry fl skip new v st n) _ h1 in
    let (r, u, e) =
      >>=-eq-ok (update_seen (aggregator_of v) op v.sender_info (pos 1) placed.reputation) _ h2 in
    let (fits, same_nonce) = get_packed_nonce-ok op n p in
    record {
      placed = placed;
      nonce = fits;
      place = place_entry-cases fl skip new v st placed (rw same_nonce q);
      seen =
          u ∙ ap (λ (s : Result Error State). elim s [ ok x ↦ ok x.reputation | err x ↦ err x ]) e;
      pool = ok-pool (sym e);
    }

-- A successful `addUserOp` of an operation whose sender and nonce are not yet in the mempool keeps
-- the entry counts right.

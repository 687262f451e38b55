-- ===== src/Bundle/Packed.antt =====
-- What holds of every bundle that `createBundle` returns.
use bundler.Common.{
  ℕ, suc, get_elem?, ◌+◌, ◌≤◌, ◌<◌, ◌≡◌, ◌≢◌, refl, sym, ap, ◌∙◌, subst, true, false, not, ◌&&◌,
  some, List, [], ◌∷◌, ◌++◌, map, leb, ◌==◌, Result, ok, err, arith, inl, inr, length, All, ◌⊎◌,
  Bool-cases, Result-cases,
}
use bundler.Common.Text.{Text}
use bundler.Common.Dict.{Distinct}
use bundler.Types.{Error, ValidationResult}
use bundler.Reputation.{has, to_number}
use bundler.Mempool.Defs.{State, MempoolEntry, get_sorted_for_inclusion, get_known_senders}
use bundler.Bundle.{Node, Settings, Limits}
use bundler.Bundle.Loop.{
  Packing, Round, next, stop, throws, Validated, empty_packing, round, pack, finish, create_bundle,
  revalidate,
}
use bundler.Bundle.Gas.{result, round-adds}

-- The gas that an entry takes: that of its validation, 0 for one that is skipped, and of its call.
pub gas_of : Node → MempoolEntry → ℕ
gas_of n e = elim (revalidate n e) [ ok v ↦ v.pre_op_gas + e.user_op.call_gas_limit | err x ↦ 0 ]

pub total_of : Node → List MempoolEntry → ℕ
total_of n [] = 0
total_of n (e ∷ es) = gas_of n e + total_of n es

-- An entry stands somewhere in a list.
pub IsAmong : List MempoolEntry → MempoolEntry → Type 0
IsAmong all e = (i : ℕ) × (get_elem? all i ≡ some e)

-- The node validates an entry again, unless the entry is marked to skip its validation.
unfoldable pub IsRevalidated : Node → MempoolEntry → Type 0
IsRevalidated n e =
    (e.skip_validation ≡ true)
    ⊎ ((v : ValidationResult) × (n.validate e.user_op e.referenced_contracts ≡ ok v))

-- What is right about a bundle of some entries of a list.
pub record IsPacked (n : Node) (max : ℕ) (all : List MempoolEntry) (p : Packing) : Type 0 where
  pub included : List MempoolEntry
  pub bundle : p.bundle ≡ map (λ e. e.user_op) included
  pub senders : p.senders ≡ map (λ e. e.user_op.sender) included
  pub distinct : Distinct p.senders
  pub total : p.total_gas ≡ total_of n included
  pub fits : p.total_gas ≤ max
  pub pending : All (IsAmong all) included
  pub valid : All (IsRevalidated n) included

total_of-snoc :
    (n : Node) (es : List MempoolEntry) (e : MempoolEntry)
    → total_of n (es ++ e ∷ []) ≡ total_of n es + gas_of n e
unfolding total_of
total_of-snoc n [] e = omega arith
total_of-snoc n (x ∷ es) e = omega (arith, total_of-snoc n es e)

gas_of-valid :
    (n : Node) (e : MempoolEntry) (v : Validated)
    → revalidate n e ≡ ok v
    → gas_of n e ≡ v.pre_op_gas + e.user_op.call_gas_limit
unfolding gas_of
gas_of-valid n e v h = ground (arith, h)

map-snoc {ℓ κ} :
    {A : Type ℓ} {B : Type κ} (f : A → B) (xs : List A) (x : A)
    → map f (xs ++ x ∷ []) ≡ map f xs ++ f x ∷ []
map-snoc f [] x = refl
map-snoc f (y ∷ xs) x = ap (◌∷◌ (f y)) (map-snoc f xs x)

All-imp {ℓ κ μ} :
    {A : Type ℓ} {P : A → Type κ} {Q : A → Type μ} (f : (x : A) → P x → Q x) (xs : List A)
    → All P xs
    → All Q xs
All-imp f [] a = tt
All-imp f (x ∷ xs) a = (f x a.0, All-imp f xs a.1)

All-snoc {ℓ κ} :
    {A : Type ℓ} (P : A → Type κ) (xs : List A) (x : A) → All P xs → P x → All P (xs ++ x ∷ [])
All-snoc P [] x a p = (p, tt)
All-snoc P (y ∷ xs) x a p = (a.0, All-snoc P xs x a.1 p)

Distinct-snoc : (a : Text) (s : List Text) → has a s ≡ false → Distinct s → Distinct (s ++ a ∷ [])
unfolding has
Distinct-snoc a [] h d = (tt, tt)
Distinct-snoc a (b ∷ s) h d =
    (All-snoc (λ j. j ≢ b) s a d.0 (ground (arith, h)), Distinct-snoc a s (ground (arith, h)) d.1)

revalidate-IsRevalidated :
    (n : Node) (e : MempoolEntry) (v : Validated) → revalidate n e ≡ ok v → IsRevalidated n e
unfolding revalidate IsRevalidated
revalidate-IsRevalidated n e v h = elim (Bool-cases e.skip_validation) [
  | inl skips ↦ inl skips
  | inr checked ↦ elim (Result-cases (n.validate e.user_op e.referenced_contracts)) [
    | inl (r, validated) ↦ inr (r, validated)
    | inr (x, failed) ↦ absurd (ground (arith, checked, failed, h))
  ]
]

round-IsPacked :
    (n : Node) (s : Settings) (lim : Limits) (total : ℕ) (known : List Text) (e : MempoolEntry)
    (p : Packing) (all : List MempoolEntry)
    → IsAmong all e
    → IsPacked n s.max_bundle_gas all p
    → IsPacked n s.max_bundle_gas all (result (round n s lim total known e p))
round-IsPacked n s lim total known e p all among i = elim (round-adds n s lim total known e p) [
  | inl k ↦ record {
    included = i.included;
    bundle = k.bundle ∙ i.bundle;
    senders = k.senders ∙ i.senders;
    distinct = subst Distinct (sym k.senders) i.distinct;
    total = k.gas ∙ i.total;
    fits = rw k.gas i.fits;
    pending = i.pending;
    valid = i.valid;
  }
  | inr (c, j) ↦ record {
    included = i.included ++ e ∷ [];
    bundle =
        j.adds.bundle
        ∙ (ap (λ b. b ++ e.user_op ∷ []) i.bundle ∙ sym (map-snoc (λ x. x.user_op) i.included e));
    senders =
        j.adds.senders
        ∙ (ap (λ b. b ++ e.user_op.sender ∷ []) i.senders
            ∙ sym (map-snoc (λ x. x.user_op.sender) i.included e));
    distinct =
        subst Distinct (sym j.adds.senders)
          (Distinct-snoc e.user_op.sender p.senders c.sender i.distinct);
    total = omega (
      arith,
      j.adds.total,
      i.total,
      total_of-snoc n i.included e,
      gas_of-valid n e j.validated j.valid,
    );
    fits = rw j.adds.total j.fits;
    pending = All-snoc _ i.included e i.pending among;
    valid =
        All-snoc (IsRevalidated n) i.included e i.valid
          (revalidate-IsRevalidated n e j.validated j.valid);
  }
]

members : (es : List MempoolEntry) → All (IsAmong es) es
unfolding IsAmong
members [] = tt
members (e ∷ es) = ((0, refl), All-imp (λ x (i, h). (suc i, h)) es (members es))

pack-IsPacked :
    (n : Node) (s : Settings) (lim : Limits) (total : ℕ) (known : List Text)
    (es : List MempoolEntry) (p : Packing) (all : List MempoolEntry)
    → All (IsAmong all) es
    → IsPacked n s.max_bundle_gas all p
    → IsPacked n s.max_bundle_gas all (pack n s lim total known es p).0
unfolding pack
pack-IsPacked n s lim total known [] p all among i = i
pack-IsPacked n s lim total known (e ∷ es) p all among i =
    after (λ p' h. pack-IsPacked n s lim total known es p' all among.1 h)
      (round n s lim total known e p) (round-IsPacked n s lim total known e p all among.0 i)
  where
    after :
        ((p' : Packing)
          → IsPacked n s.max_bundle_gas all p'
          → IsPacked n s.max_bundle_gas all (pack n s lim total known es p').0)
        → (r : Round) → IsPacked n s.max_bundle_gas all (result r)
        → IsPacked n s.max_bundle_gas all
            (elim r as (λ _. Packing × Result Error (Unit {0})) [
              | next p' ↦ pack n s lim total known es p'
              | stop p' ↦ (p', ok tt)
              | throws p' x ↦ (p', err x)
            ]).0
    after rest (next p') h = rest p' h
    after rest (stop p') h = h
    after rest (throws p' x) h = h

finish-ok :
    (out : Packing × Result Error (Unit {0})) (p : Packing) → (finish out).1 ≡ ok p → out.0 ≡ p
unfolding finish
finish-ok (q, ok t) p h = cc
finish-ok (q, err x) p h = absurd (cc)

create_bundle-finish :
    (n : Node) (s : Settings) (lim : Limits) (st : State) (es : List MempoolEntry)
    → get_sorted_for_inclusion st.pool ≡ ok es
    → create_bundle n s lim st
      ≡ finish (pack n s lim (length es) (get_known_senders st.pool) es (empty_packing st))
unfolding create_bundle
create_bundle-finish n s lim st es g = rw (g, create_bundle) refl

-- Where the pending operations, sorted, are `es`, every bundle that `createBundle` returns is of entries
-- of `es`, each of which the node has validated again, unless it is marked to skip its validation. Their
-- senders are different, and are its `senders`. Its total gas is the sum of the gas limits of the
-- entries' calls and of the gas that their validations give, 0 for one that is skipped, and is at most
-- the configured maximum.
pub create_bundle-IsPacked :
    (n : Node) (s : Settings) (lim : Limits) (st : State) (es : List MempoolEntry) (p : Packing)
    → get_sorted_for_inclusion st.pool ≡ ok es
    → (create_bundle n s lim st).1 ≡ ok p
    → IsPacked n s.max_bundle_gas es p
unfolding total_of
create_bundle-IsPacked n s lim st es p g h =
    let out = pack n s lim (length es) (get_known_senders st.pool) es (empty_packing st) in
    subst (IsPacked n s.max_bundle_gas es)
      (finish-ok out p (
        sym (ap (λ (x : State × Result Error Packing). x.1) (create_bundle-finish n s lim st es g))
        ∙ h))
      (pack-IsPacked n s lim (length es) (get_known_senders st.pool) es (empty_packing st) es
        (members es)
        (record {
          included = [];
          bundle = refl;
          senders = refl;
          distinct = tt;
          total = refl;
          fits = omega arith;
          pending = tt;
          valid = tt;
        }))

to_number-ok : (n : ℕ) → n < 9007199254740992 → to_number n ≡ ok n
to_number-ok n b = ground (arith, b)

round-stopped :
    (n : Node) (s : Settings) (lim : Limits) (total : ℕ) (known : List Text) (e : MempoolEntry)
    (p : Packing) (size : ℕ)
    → lim.max_bundle_size ≡ some size
    → to_number size ≡ ok size
    → (not (size == 0) && leb size total) ≡ true
    → round n s lim total known e p ≡ stop p
unfolding round
round-stopped n s lim total known e p size m b t = rw (m, b, t, round) refl

-- A request with a size limit other than 0, of no more than the pending operations, gets an empty
-- bundle, and changes nothing: the loop compares the limit to the mempool, not to the bundle.
pub create_bundle-max_size :
    (n : Node) (s : Settings) (lim : Limits) (st : State) (es : List MempoolEntry) (size : ℕ)
    → get_sorted_for_inclusion st.pool ≡ ok es
    → lim.max_bundle_size ≡ some size
    → 0 < size
    → size ≤ length es
    → size < 9007199254740992
    → create_bundle n s lim st ≡ (st, ok (empty_packing st))
unfolding pack
create_bundle-max_size n s lim st [] size g m z l b = absurd (omega arith)
create_bundle-max_size n s lim st (e ∷ es) size g m z l b =
    create_bundle-finish n s lim st (e ∷ es) g
    ∙ ap finish (limited (length (e ∷ es)) (get_known_senders st.pool) l)
    ∙ unfold finish in refl
  where
    limited :
        (total : ℕ) (known : List Text)
        → size ≤ total
        → pack n s lim total known (e ∷ es) (empty_packing st) ≡ (empty_packing st, ok tt)
    limited total known t =
        rw
          (
            round-stopped n s lim total known e (empty_packing st) size m (to_number-ok size b)
                (ground (arith, z, t)),
            pack,
          )
          refl

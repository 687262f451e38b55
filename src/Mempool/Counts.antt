-- ===== src/Mempool/Counts.antt =====
-- `_entryCount` counts, for each address in lower case, the places of pending operations at which
-- it stands as sender, paymaster or factory.
use mathlib.Core.Option.{get_or}
use bundler.Common.{
  ℕ, zero, suc, ◌+◌, ◌-◌, ◌≡◌, ap, Option, none, some, List, [], ◌∷◌, ◌++◌, arith, ite, get_elem?,
  set, remove_at, Option-cases, inl, inr,
}
use bundler.Common.Text.{Text, text_dec, to_lower}
use bundler.Common.Dict.{Dict, get, get-put, get-remove}
use bundler.Types.{Operation}
use bundler.Mempool.Defs.{
  MempoolEntry, Mempool, increment_entry_count, decrement_entry_count, increment_all, decrement_all,
  remove_index,
}

-- The stored count, where a missing one is 0.
abbrev pub count_of : Text → Dict ℕ → ℕ
count_of a counts = get_or (get a counts) 0

-- 1 if an optional address is `a` in lower case.
unfoldable pub uses : Text → Option Text → ℕ
uses a none = 0
uses a (some b) = ite (text_dec (to_lower b) a) 1 0

unfoldable pub places : Text → Operation → ℕ
unfolding uses
places a op = uses a (some op.sender) + uses a op.paymaster + uses a op.factory

unfoldable pub occurrences : Text → List MempoolEntry → ℕ
unfolding places
occurrences a [] = 0
occurrences a (e ∷ es) = places a e.user_op + occurrences a es

count_of-increment :
    (a : Text) (o : Option Text) (m : Dict ℕ)
    → count_of a (increment_entry_count o m) ≡ count_of a m + uses a o
unfolding increment_entry_count uses
count_of-increment a none m = omega arith
count_of-increment a (some b) m =
    ground
      (arith, get-put (to_lower b) a (count_of (to_lower b) m + 1) m, ap (λ (i : Text). get i m))

count_of-decrement :
    (a : Text) (o : Option Text) (m : Dict ℕ)
    → count_of a (decrement_entry_count o m) ≡ count_of a m - uses a o
unfolding decrement_entry_count uses
count_of-decrement a none m = omega arith
count_of-decrement a (some b) m = elim (Option-cases (get (to_lower b) m)) [
  | inl e ↦ ground (arith, e, ap (λ (i : Text). get i m))
  | inr (n, e) ↦ ground (
    arith,
    e,
    get-put (to_lower b) a (n - 1) m,
    get-remove (to_lower b) a m,
    ap (λ (i : Text). get i m),
  )
]

pub count_of-increment_all :
    (a : Text) (op : Operation) (m : Dict ℕ)
    → count_of a (increment_all op m) ≡ count_of a m + places a op
unfolding increment_all places
count_of-increment_all a op m = omega (arith, count_of-increment)

pub count_of-decrement_all :
    (a : Text) (op : Operation) (m : Dict ℕ)
    → count_of a (decrement_all op m) ≡ count_of a m - places a op
unfolding decrement_all places
count_of-decrement_all a op m = omega (arith, count_of-decrement)

pub occurrences-append :
    (a : Text) (xs ys : List MempoolEntry)
    → occurrences a (xs ++ ys) ≡ occurrences a xs + occurrences a ys
unfolding occurrences
occurrences-append a [] ys = omega arith
occurrences-append a (x ∷ xs) ys = omega (arith, occurrences-append a xs ys)

pub occurrences-remove_at :
    (a : Text) (xs : List MempoolEntry) (i : ℕ) (e : MempoolEntry)
    → get_elem? xs i ≡ some e
    → occurrences a (remove_at xs i) + places a e.user_op ≡ occurrences a xs
unfolding occurrences
occurrences-remove_at a [] i e h = absurd (cc)
occurrences-remove_at a (x ∷ xs) zero e h = ground arith
occurrences-remove_at a (x ∷ xs) (suc i) e h = omega (arith, occurrences-remove_at a xs i e h)

pub occurrences-set :
    (a : Text) (xs : List MempoolEntry) (i : ℕ) (old new : MempoolEntry)
    → get_elem? xs i ≡ some old
    → occurrences a (set xs i new) + places a old.user_op ≡ occurrences a xs + places a new.user_op
unfolding occurrences
occurrences-set a [] i old new h = absurd (cc)
occurrences-set a (x ∷ xs) zero old new h = ground arith
occurrences-set a (x ∷ xs) (suc i) old new h = omega (arith, occurrences-set a xs i old new h)

abbrev pub IsCounted : Mempool → Type 0
IsCounted p = (a : Text) → count_of a p.counts ≡ occurrences a p.mempool

pub remove_index-IsCounted :
    (o : Option ℕ) (p : Mempool) → IsCounted p → IsCounted (remove_index o p)
unfolding remove_index
remove_index-IsCounted none p c = c
remove_index-IsCounted (some i) p c = elim (Option-cases (get_elem? p.mempool i)) [
  | inl e ↦ rw (e, remove_index) c
  | inr (x, e) ↦
      rw (e, remove_index)
        (λ a. omega (
          arith,
          c a,
          count_of-decrement_all a x.user_op p.counts,
          occurrences-remove_at a p.mempool i x e,
        ))
]

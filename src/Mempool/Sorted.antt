-- ===== src/Mempool/Sorted.antt =====
-- The order in which a bundle considers the pending operations.
use mathlib.Core.List.{append_assoc, append-nil}
use bundler.Common.{
  ℕ, ◌≤◌, ◌<◌, ◌≡◌, refl, sym, ap, ◌∙◌, List, [], ◌∷◌, ◌++◌, arith, if◌then◌else◌, All, ok, ◌==◌,
}
use bundler.Mempool.Defs.{
  MempoolEntry, Mempool, insert_by_cost, sort_by_cost, check_costs, get_sorted_for_inclusion,
}

abbrev pub cost : MempoolEntry → ℕ
cost e = e.user_op.max_priority_fee_per_gas

abbrev pub IsSorted : List MempoolEntry → Type 0
IsSorted [] = Unit
IsSorted (e ∷ es) = All (λ f. cost e ≤ cost f) es × IsSorted es

-- The entries of one cost, in their order.
pub with_cost : ℕ → List MempoolEntry → List MempoolEntry
with_cost c [] = []
with_cost c (e ∷ es) = if cost e == c then e ∷ with_cost c es else with_cost c es

All-le :
    (c d : ℕ) (es : List MempoolEntry) → c ≤ d → All (λ f. d ≤ cost f) es → All (λ f. c ≤ cost f) es
All-le c d [] h a = tt
All-le c d (e ∷ es) h a = (omega arith, All-le c d es h a.1)

insert-All :
    (c : ℕ) (e : MempoolEntry) (es : List MempoolEntry)
    → c ≤ cost e
    → All (λ f. c ≤ cost f) es
    → All (λ f. c ≤ cost f) (insert_by_cost e es)
unfolding insert_by_cost
insert-All c e [] h a = (h, tt)
insert-All c e (x ∷ es) h a = ground (arith, insert-All c e es h a.1)

insert_by_cost-IsSorted :
    (e : MempoolEntry) (es : List MempoolEntry) → IsSorted es → IsSorted (insert_by_cost e es)
unfolding insert_by_cost
insert_by_cost-IsSorted e [] s = (tt, tt)
insert_by_cost-IsSorted e (x ∷ es) s =
    ground (
      arith,
      insert_by_cost-IsSorted e es s.1,
      insert-All (cost x) e es,
      All-le (cost e) (cost x) es,
    )

with_cost-none :
    (c d : ℕ) (es : List MempoolEntry) → c < d → All (λ f. d ≤ cost f) es → with_cost c es ≡ []
unfolding with_cost
with_cost-none c d [] h a = refl
with_cost-none c d (e ∷ es) h a = ground (arith, with_cost-none c d es h a.1)

with_cost-append :
    (c : ℕ) (xs ys : List MempoolEntry) → with_cost c (xs ++ ys) ≡ with_cost c xs ++ with_cost c ys
unfolding with_cost
with_cost-append c [] ys = refl
with_cost-append c (x ∷ xs) ys = ground (arith, with_cost-append c xs ys)

with_cost-insert :
    (c : ℕ) (e : MempoolEntry) (es : List MempoolEntry)
    → IsSorted es
    → with_cost c (insert_by_cost e es) ≡ with_cost c es ++ with_cost c (e ∷ [])
unfolding insert_by_cost with_cost
with_cost-insert c e [] s = refl
with_cost-insert c e (x ∷ es) s = ground (
  arith,
  with_cost-insert c e es s.1,
  with_cost-none c (cost x) es,
  append-nil (with_cost c es),
  s.0,
)

sort_by_cost-IsSorted : (acc es : List MempoolEntry) → IsSorted acc → IsSorted (sort_by_cost acc es)
unfolding sort_by_cost
sort_by_cost-IsSorted acc [] s = s
sort_by_cost-IsSorted acc (e ∷ es) s =
    sort_by_cost-IsSorted (insert_by_cost e acc) es (insert_by_cost-IsSorted e acc s)

with_cost-sort_by_cost :
    (c : ℕ) (acc es : List MempoolEntry)
    → IsSorted acc
    → with_cost c (sort_by_cost acc es) ≡ with_cost c acc ++ with_cost c es
unfolding sort_by_cost with_cost
with_cost-sort_by_cost c acc [] s = sym (append-nil _)
with_cost-sort_by_cost c acc (e ∷ es) s =
    with_cost-sort_by_cost c (insert_by_cost e acc) es (insert_by_cost-IsSorted e acc s)
    ∙ (ap (λ (xs : List MempoolEntry). xs ++ with_cost c es) (with_cost-insert c e acc s)
        ∙ (append_assoc (with_cost c acc) (with_cost c (e ∷ [])) (with_cost c es)
            ∙ ap (◌++◌ (with_cost c acc)) (sym (with_cost-append c (e ∷ []) es))))

-- Each priority fee is an integer that `toNumber` accepts.
abbrev pub HasSmallFees : List MempoolEntry → Type 0
HasSmallFees es = All (λ e. cost e < 9007199254740992) es

check_costs-ok : (es : List MempoolEntry) → HasSmallFees es → check_costs es ≡ ok tt
unfolding check_costs
check_costs-ok [] h = refl
check_costs-ok (e ∷ es) h = ground (arith, check_costs-ok es h.1)

-- Where the priority fees are below 2^53, `getSortedForInclusion` succeeds, and its list ascends by
-- priority fee and has, for each fee, the entries of the mempool with that fee in their order. So
-- it is the mempool sorted stably, with the lowest fee first.
pub get_sorted_for_inclusion-IsSorted :
    (p : Mempool)
    → HasSmallFees p.mempool
    → (es : List MempoolEntry) × (get_sorted_for_inclusion p ≡ ok es)
      × IsSorted es
      × ((c : ℕ) → with_cost c es ≡ with_cost c p.mempool)
unfolding get_sorted_for_inclusion
get_sorted_for_inclusion-IsSorted p h = (
  sort_by_cost [] p.mempool,
  ground (arith, check_costs-ok p.mempool h),
  sort_by_cost-IsSorted [] p.mempool tt,
  λ c. with_cost-sort_by_cost c [] p.mempool tt ∙ unfold with_cost in refl,
)

-- ===== src/Common/Lists.antt =====
-- Lists measured and indexed by native numbers, and predicates on them by recursion.
use Prim.Native.Nat.{ℕ, zero, suc, ◌+◌, ◌<◌}
use mathlib.Core.Path.{◌≡◌, refl, ap, subst}
use mathlib.Core.List.{List, [], ◌∷◌, ◌++◌}
use mathlib.Core.Option.{Option, none, some}
use native.Mathlib.Omega.{arith}

module _ {ℓ} {A : Type ℓ} where
  abbrev pub length : List A → ℕ
  length [] = 0
  length (x ∷ xs) = suc (length xs)

  abbrev pub get_elem? : List A → ℕ → Option A
  get_elem? [] i = none
  get_elem? (x ∷ xs) zero = some x
  get_elem? (x ∷ xs) (suc i) = get_elem? xs i

  -- A write out of bounds changes nothing.
  abbrev pub set : List A → ℕ → A → List A
  set [] i v = []
  set (x ∷ xs) zero v = v ∷ xs
  set (x ∷ xs) (suc i) v = x ∷ set xs i v

  -- `splice(i, 1)`
  abbrev pub remove_at : List A → ℕ → List A
  remove_at [] i = []
  remove_at (x ∷ xs) zero = xs
  remove_at (x ∷ xs) (suc i) = x ∷ remove_at xs i

  abbrev pub take : ℕ → List A → List A
  take zero xs = []
  take (suc n) [] = []
  take (suc n) (x ∷ xs) = x ∷ take n xs

  abbrev pub drop : ℕ → List A → List A
  drop zero xs = xs
  drop (suc n) [] = []
  drop (suc n) (x ∷ xs) = drop n xs

  pub take-length : (xs : List A) → take (length xs) xs ≡ xs
  take-length [] = refl
  take-length (x ∷ xs) = ap (◌∷◌ x) (take-length xs)

  pub drop-length : (xs : List A) → drop (length xs) xs ≡ []
  drop-length [] = refl
  drop-length (x ∷ xs) = drop-length xs

  -- The parts of a list of which the first has a given length.
  pub take-append : (n : ℕ) (xs ys : List A) → length xs ≡ n → take n (xs ++ ys) ≡ xs
  take-append n xs ys h = subst (λ m. take m (xs ++ ys) ≡ xs) h (take-parts xs)
    where
      take-parts : (zs : List A) → take (length zs) (zs ++ ys) ≡ zs
      take-parts [] = refl
      take-parts (z ∷ zs) = ap (◌∷◌ z) (take-parts zs)

  pub drop-append : (n : ℕ) (xs ys : List A) → length xs ≡ n → drop n (xs ++ ys) ≡ ys
  drop-append n xs ys h = subst (λ m. drop m (xs ++ ys) ≡ ys) h (drop-parts xs)
    where
      drop-parts : (zs : List A) → drop (length zs) (zs ++ ys) ≡ ys
      drop-parts [] = refl
      drop-parts (z ∷ zs) = drop-parts zs

  pub get_elem?-lt : (xs : List A) (i : ℕ) → i < length xs → (x : A) × (get_elem? xs i ≡ some x)
  get_elem?-lt [] i h = elim h [ ]
  get_elem?-lt (x ∷ xs) zero h = (x, refl)
  get_elem?-lt (x ∷ xs) (suc i) h = get_elem?-lt xs i (omega arith)

  -- An element splits its list.
  pub take-suc :
      (xs : List A) (i : ℕ) (x : A)
      → get_elem? xs i ≡ some x
      → take (suc i) xs ≡ take i xs ++ x ∷ []
  take-suc [] i x h = absurd (cc)
  take-suc (y ∷ xs) zero x h = cc
  take-suc (y ∷ xs) (suc i) x h = ap (◌∷◌ y) (take-suc xs i x h)

  pub drop_at :
      (xs : List A) (i : ℕ) (x : A) → get_elem? xs i ≡ some x → drop i xs ≡ x ∷ drop (suc i) xs
  drop_at [] i x h = absurd (cc)
  drop_at (y ∷ xs) zero x h = cc
  drop_at (y ∷ xs) (suc i) x h = drop_at xs i x h

  pub take-remove_at : (xs : List A) (i : ℕ) → take i (remove_at xs i) ≡ take i xs
  take-remove_at [] zero = refl
  take-remove_at [] (suc i) = refl
  take-remove_at (y ∷ xs) zero = refl
  take-remove_at (y ∷ xs) (suc i) = ap (◌∷◌ y) (take-remove_at xs i)

  pub drop-remove_at : (xs : List A) (i : ℕ) → drop i (remove_at xs i) ≡ drop (suc i) xs
  drop-remove_at [] zero = refl
  drop-remove_at [] (suc i) = refl
  drop-remove_at (y ∷ xs) zero = refl
  drop-remove_at (y ∷ xs) (suc i) = drop-remove_at xs i

  pub length-remove_at :
      (xs : List A) (i : ℕ) → i < length xs → suc (length (remove_at xs i)) ≡ length xs
  length-remove_at [] i h = elim h [ ]
  length-remove_at (y ∷ xs) zero h = refl
  length-remove_at (y ∷ xs) (suc i) h = ap suc (length-remove_at xs i (omega arith))

  pub length-append : (xs ys : List A) → length (xs ++ ys) ≡ length xs + length ys
  length-append [] ys = omega arith
  length-append (x ∷ xs) ys = omega (arith, length-append xs ys)

some-eq {ℓ} : {A : Type ℓ} {a b : A} → ◌≡◌ {A = Option A} (some a) (some b) → a ≡ b
some-eq e = cc

module _ {ℓ κ} {A : Type ℓ} (P : A → Type κ) where
  abbrev pub All : List A → Type κ
  All [] = Unit
  All (x ∷ xs) = P x × All xs

  pub All-append : (xs ys : List A) → All xs → All ys → All (xs ++ ys)
  All-append [] ys h k = k
  All-append (x ∷ xs) ys (p, h) k = (p, All-append xs ys h k)

  pub All-remove_at : (xs : List A) (i : ℕ) → All xs → All (remove_at xs i)
  All-remove_at [] i h = tt
  All-remove_at (x ∷ xs) zero h = h.1
  All-remove_at (x ∷ xs) (suc i) h = (h.0, All-remove_at xs i h.1)

  pub All-get_elem? : (xs : List A) (i : ℕ) (x : A) → get_elem? xs i ≡ some x → All xs → P x
  All-get_elem? [] i x h a = absurd (cc)
  All-get_elem? (y ∷ xs) zero x h a = subst P (some-eq h) a.0
  All-get_elem? (y ∷ xs) (suc i) x h a = All-get_elem? xs i x h a.1

-- ===== src/Common/Dict/Keys.antt =====
-- The keys of a dictionary stay distinct, and what holds of every pair is kept by writes.
use bundler.Common.Lists.{All}
use mathlib.Core.Path.{◌≡◌, refl, subst, sym}
use mathlib.Core.Logic.{ite, ◌≢◌}
use mathlib.Core.Option.{none, some}
use mathlib.Core.List.{[], ◌∷◌, ◌++◌}
use native.Mathlib.Omega.{arith}
use bundler.Common.Text.{Text, text_dec}
use bundler.Common.Dict.{Dict, get, put, remove, keys, Fresh, Distinct}

module _ {ℓ} {V : Type ℓ} where
  Fresh-put :
      (i k : Text) (v : V) (m : Dict V) → k ≢ i → Fresh i (keys m) → Fresh i (keys (put k v m))
  unfolding put
  Fresh-put i k v [] n f = (n, tt)
  Fresh-put i k v ((j, w) ∷ m) n f = ground (arith, Fresh-put i k v m n f.1)

  Fresh-remove : (i k : Text) (m : Dict V) → Fresh i (keys m) → Fresh i (keys (remove k m))
  unfolding remove
  Fresh-remove i k [] f = tt
  Fresh-remove i k ((j, w) ∷ m) f = ground (arith, Fresh-remove i k m f.1)

  pub Distinct-put :
      (k : Text) (v : V) (m : Dict V) → Distinct (keys m) → Distinct (keys (put k v m))
  unfolding put
  Distinct-put k v [] d = (tt, tt)
  Distinct-put k v ((j, w) ∷ m) d =
      elim (text_dec j k) as (λ t. Distinct (keys (ite t ((k, v) ∷ m) ((j, w) ∷ put k v m)))) [
        | yes p ↦ (subst (λ i. Fresh i (keys m)) p d.0, d.1)
        | no n ↦ (Fresh-put j k v m (λ e. n (sym e)) d.0, Distinct-put k v m d.1)
      ]

  pub Distinct-remove : (k : Text) (m : Dict V) → Distinct (keys m) → Distinct (keys (remove k m))
  unfolding remove
  Distinct-remove k [] d = tt
  Distinct-remove k ((j, w) ∷ m) d = ground (arith, Distinct-remove k m d.1, Fresh-remove j k m d.0)

  pub get-Fresh : (k : Text) (m : Dict V) → Fresh k (keys m) → get k m ≡ none
  unfolding get
  get-Fresh k [] f = refl
  get-Fresh k ((j, v) ∷ m) f = ground (arith, get-Fresh k m f.1)

  pub put-Fresh : (k : Text) (v : V) (m : Dict V) → Fresh k (keys m) → put k v m ≡ m ++ (k, v) ∷ []
  unfolding put
  put-Fresh k v [] f = refl
  put-Fresh k v ((j, w) ∷ m) f = ground (arith, put-Fresh k v m f.1)

module _ {ℓ κ} {V : Type ℓ} (P : Text × V → Type κ) where
  pub All-put : (k : Text) (v : V) (m : Dict V) → P (k, v) → All P m → All P (put k v m)
  unfolding put
  All-put k v [] p a = (p, tt)
  All-put k v ((j, w) ∷ m) p a =
      elim (text_dec j k) as (λ t. All P (ite t ((k, v) ∷ m) ((j, w) ∷ put k v m))) [
        | yes e ↦ (p, a.1)
        | no n ↦ (a.0, All-put k v m p a.1)
      ]

  pub All-remove : (k : Text) (m : Dict V) → All P m → All P (remove k m)
  unfolding remove
  All-remove k [] a = tt
  All-remove k ((j, w) ∷ m) a =
      elim (text_dec j k) as (λ t. All P (ite t (remove k m) ((j, w) ∷ remove k m))) [
        | yes e ↦ All-remove k m a.1
        | no n ↦ (a.0, All-remove k m a.1)
      ]

  pub All-get : (k : Text) (v : V) (m : Dict V) → All P m → get k m ≡ some v → P (k, v)
  unfolding get
  All-get k v [] a e = absurd (cc)
  All-get k v ((j, w) ∷ m) a e = elim (text_dec j k) [
    | yes p ↦ subst P (ground arith) a.0
    | no n ↦ All-get k v m a.1 (ground arith)
  ]

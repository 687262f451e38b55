-- ===== src/Common/Dict.antt =====
-- JavaScript objects used as dictionaries: pairs in insertion order, each key at most once.
pub mod Keys
use mathlib.Core.Path.{◌≡◌, refl}
use mathlib.Core.Logic.{ite, ◌≢◌}
use mathlib.Core.Option.{Option, none, some}
use mathlib.Core.List.{List, [], ◌∷◌}
use native.Mathlib.Omega.{arith}
use bundler.Common.Lists.{All}
use bundler.Common.Text.{Text, text_dec}

abbrev pub Dict {ℓ} : Type ℓ → Type ℓ
Dict V = List (Text × V)

-- A key is not among those of a dictionary.
abbrev pub Fresh : Text → List Text → Type 0
Fresh k ks = All (λ j. j ≢ k) ks

abbrev pub Distinct : List Text → Type 0
Distinct [] = Unit
Distinct (k ∷ ks) = Fresh k ks × Distinct ks

module _ {ℓ} {V : Type ℓ} where
  unfoldable pub get : Text → Dict V → Option V
  get k [] = none
  get k ((j, v) ∷ m) = ite (text_dec j k) (some v) (get k m)

  -- `m[k] = v`: an old key keeps its place.
  unfoldable pub put : Text → V → Dict V → Dict V
  put k v [] = (k, v) ∷ []
  put k v ((j, w) ∷ m) = ite (text_dec j k) ((k, v) ∷ m) ((j, w) ∷ put k v m)

  -- `delete m[k]`
  unfoldable pub remove : Text → Dict V → Dict V
  remove k [] = []
  remove k ((j, w) ∷ m) = ite (text_dec j k) (remove k m) ((j, w) ∷ remove k m)

  abbrev pub keys : Dict V → List Text
  keys [] = []
  keys ((k, v) ∷ m) = k ∷ keys m

  abbrev pub values : Dict V → List V
  values [] = []
  values ((k, v) ∷ m) = v ∷ values m

  pub get-put :
      (k j : Text) (v : V) (m : Dict V) → get j (put k v m) ≡ ite (text_dec k j) (some v) (get j m)
  unfolding get put
  get-put k j v [] = refl
  get-put k j v ((i, w) ∷ m) = ground (arith, get-put k j v m)

  pub get-remove :
      (k j : Text) (m : Dict V) → get j (remove k m) ≡ ite (text_dec k j) none (get j m)
  unfolding get remove
  get-remove k j [] = ground arith
  get-remove k j ((i, w) ∷ m) = ground (arith, get-remove k j m)

-- ===== src/Utils.antt =====
-- packages/utils/src/Utils.ts: the helpers on operations and storage maps.
pub mod Storage
use bundler.Common.{
  ℕ, ◌+◌, ◌*◌, ◌^◌, ◌==◌, ltb, Bool, ◌&&◌, Option, none, some, List, [], ◌∷◌, foldl, if◌then◌else◌,
  Result, ok, err,
}
use mathlib.Core.Option.{get_or}
use bundler.Common.Text.{Text, text_dec}
use bundler.Common.Dict.{Dict, get, put}
use bundler.Types.{
  Operation, Authorization, StorageMap, StorageEntry, root, slots, Error, numeric_fault,
}

-- `sum` of a list of values of which some may be null.
unfoldable pub sum : List (Option ℕ) → ℕ
sum [] = 0
sum (x ∷ xs) = get_or x 0 + sum xs

unfoldable pub get_user_op_max_cost : Operation → ℕ
unfolding sum
get_user_op_max_cost op =
    sum (
      some (get_or op.pre_verification_gas 0)
      ∷ some op.verification_gas_limit
      ∷ some op.call_gas_limit
      ∷ some (get_or op.paymaster_verification_gas_limit 0)
      ∷ some (get_or op.paymaster_post_op_gas_limit 0)
      ∷ [])
    * op.max_fee_per_gas

-- The number that `solidityPack(['uint192', 'uint64'], [nonceKey, nonce])` stands for.
abbrev pub packed : ℕ → ℕ → ℕ
packed key nonce = key * 2 ^ 64 + nonce

unfoldable pub packed_nonce : Operation → ℕ
packed_nonce op =
    if get_or op.nonce_key 0 == 0 then op.nonce else packed (get_or op.nonce_key 0) op.nonce

-- Whether `solidityPack` takes the operation's nonce; out of range it throws.
unfoldable pub nonce_fits : Operation → Bool
nonce_fits op = elim (get_or op.nonce_key 0 == 0) [
  | mathlib.Core.Bool.true ↦ mathlib.Core.Bool.true
  | mathlib.Core.Bool.false ↦ ltb (get_or op.nonce_key 0) (2 ^ 192) && ltb op.nonce (2 ^ 64)
]

unfoldable pub get_packed_nonce : Operation → Result Error ℕ
unfolding packed_nonce nonce_fits
get_packed_nonce op = if nonce_fits op then ok (packed_nonce op) else err (numeric_fault op.nonce)

unfoldable pub get_authorization_list : Operation → List Authorization
get_authorization_list op = elim op.eip7702_auth [
  | some auth ↦ auth ∷ []
  | none ↦ get_or op.authorization_list []
]

-- The slots of one address: a value of the second map replaces one of the first.
unfoldable pub merge_slots : Dict Text → Dict Text → Dict Text
unfolding put
merge_slots merged [] = merged
merge_slots merged ((slot, val) ∷ rest) = merge_slots (put slot val merged) rest

-- One round of `mergeStorageMap`.
unfoldable pub merge_entry : StorageMap → Text → StorageEntry → StorageMap
unfolding merge_slots get put
merge_entry merged addr (root hash) = put addr (root hash) merged
merge_entry merged addr (slots entry) = elim (get addr merged) [
  | none ↦ put addr (slots (merge_slots [] entry)) merged
  | some (root hash) ↦ merged
  | some (slots old) ↦ put addr (slots (merge_slots old entry)) merged
]

unfoldable pub merge_storage_map : StorageMap → StorageMap → StorageMap
unfolding merge_entry
merge_storage_map merged [] = merged
merge_storage_map merged ((addr, entry) ∷ rest) =
    merge_storage_map (merge_entry merged addr entry) rest

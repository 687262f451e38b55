-- ===== src/Bundle.antt =====
-- packages/bundler/src/modules/BundleManager.ts: what goes into a bundle, and what happens to the
-- managers when an operation of it fails. Calls of the entry point, of the node, of the validation
-- manager and of ethers are the fields of a Node. `null` and `undefined` are both `none`.
pub mod Blame
pub mod Packed
pub mod Merged
pub mod Loop
pub mod Gas
use mathlib.Core.Option.{get_or}
use bundler.Common.{
  ℕ, ◌+◌, ◌-◌, Bool, true, false, ◌&&◌, ◌||◌, not, Option, none, some, List, [], ◌∷◌, ◌++◌, map,
  if◌then◌else◌, leb, ltb, ◌==◌, Result, ok, err, ◌>>=◌, length, get_elem?,
}
use bundler.Common.Text.{Text, same, codes, starts_with, to_lower}
use bundler.Common.Dict
use bundler.Common.Dict.{Dict, get, put}
use bundler.Common.Int.{ℤ, pos, negsuc}
use bundler.Types.{
  Operation, Authorization, StakeInfo, ReferencedCodeHashes, ValidationResult, Error, type_error,
  StorageMap, root,
}
use bundler.Reputation.{
  Reputation, Status, banned, throttled, ok_status, has, get_status, get_stake_status, to_number,
  update_seen_status, crashed_handle_ops,
}
use bundler.Utils.{get_authorization_list, merge_storage_map}
use bundler.Deposit.{address_zero}
use bundler.Mempool.Defs.{
  State, Mempool, MempoolEntry, get_known_senders, get_sorted_for_inclusion, remove_user_op,
  remove_banned_addr,
}

-- What the manager calls. The first two give the index and the reason of a FailedOp: from the
-- regular expression on an error's message, and from the ABI decoding of its data.
pub record Node : Type 0 where
  pub message_match : Error → Option (ℕ × Text)
  pub decoded : Error → Option (ℕ × Text)
  pub inner_code : Error → Option ℤ
  pub deposit_info : Text → Result Error (ℕ × ℕ)
  pub validate : Operation → ReferencedCodeHashes → Result Error ValidationResult
  pub balance_of : Text → Result Error ℕ
  pub is_address : Text → Bool
  pub storage_hash : Text → Result Error Text
  pub signer_of : Authorization → Result Error Text
  -- The hash of a transaction with `handleOps`, sent and mined.
  pub handle_ops : List Operation → List Authorization → Text → StorageMap → Result Error Text
  pub hashes_of : List Operation → Result Error (List Text)

pub record Settings : Type 0 where
  pub beneficiary : Text
  pub min_signer_balance : ℕ
  pub max_bundle_gas : ℕ
  pub conditional_rpc : Bool
  pub merge_to_account_root_hash : Bool

-- The parameters of `createBundle`.
pub record Limits : Type 0 where
  pub min_base_fee : Option ℕ
  pub max_bundle_gas : Option ℕ
  pub max_bundle_size : Option ℕ

unfoldable pub parse_failed_op_revert : Node → Error → Option (ℕ × Text)
parse_failed_op_revert n e = elim (n.message_match e) [
  | some found ↦ some found
  | none ↦ n.decoded e
]

abbrev is_not_found : Option ℤ → Bool
is_not_found none = false
is_not_found (some (pos c)) = false
is_not_found (some (negsuc c)) = c == 32600

-- `checkFatal` throws an error of code -32601 again.
unfoldable pub check_fatal : Node → Error → Result Error (Unit {0})
check_fatal n e = if is_not_found (n.inner_code e) then err e else ok tt

unfoldable pub is_account_staked : Node → Operation → Reputation → Result Error Bool
unfolding get_stake_status
is_account_staked n op r = do info ← get_stake_status n.deposit_info op.sender r; ok info.1

unfoldable pub is_factory_staked : Node → Operation → Reputation → Result Error Bool
unfolding get_stake_status
is_factory_staked n op r = elim op.factory [
  | none ↦ ok false
  | some factory ↦ do info ← get_stake_status n.deposit_info factory r; ok info.1
]

unfoldable pub find_entity_to_blame :
    Node → Text → Operation → Reputation → Result Error (Option Text)
unfolding is_account_staked is_factory_staked
find_entity_to_blame n reason op r =
    if starts_with (codes "AA3") reason
    then is_account_staked n op r
      >>= (λ staked. ok (if staked then some op.sender else op.paymaster))
    else if starts_with (codes "AA2") reason
    then is_factory_staked n op r >>= (λ staked. ok (if staked then op.factory else some op.sender))
    else if starts_with (codes "AA1") reason
    then ok op.factory
    else ok none

-- The three `updateSeenStatus` that take an operation's entities back.
unfoldable pub undo_seen : Operation → Reputation → Reputation
unfolding update_seen_status
undo_seen op r =
    update_seen_status op.factory (negsuc 0) (
      update_seen_status op.paymaster (negsuc 0) (update_seen_status (some op.sender) (negsuc 0) r))

abbrev pub drop_op : Operation → State → State
drop_op op st = record st { pool = remove_user_op op st.pool }

-- `_handleSecondValidationException`. Its test `addr !== null` holds of `undefined` too.
unfoldable pub handle_second_validation_exception :
    Node → Error → Operation → State → State × Result Error (Unit {0})
unfolding parse_failed_op_revert check_fatal find_entity_to_blame undo_seen remove_user_op
handle_second_validation_exception n e op st = elim (parse_failed_op_revert n e) [
  | none ↦ elim (check_fatal n e) [ err x ↦ (st, err x) | ok _ ↦ (drop_op op st, ok tt) ]
  | some (index, reason) ↦ elim (find_entity_to_blame n reason op st.reputation) [
    | err x ↦ (st, err x)
    | ok addr ↦ (
      record {
        reputation = update_seen_status addr (pos 1) (undo_seen op st.reputation);
        pool = remove_user_op op st.pool;
      },
      ok tt,
    )
  ]
]

-- The blamed entity's part of the `catch` of `sendBundle`.
unfoldable pub punish : Option Text → Operation → State → State
unfolding undo_seen remove_banned_addr crashed_handle_ops
punish none op st = st
punish (some addr) op st = record {
  reputation = crashed_handle_ops (some addr) (undo_seen op st.reputation);
  pool = remove_banned_addr addr st.pool;
}

unfoldable pub send_failed : Node → Error → List Operation → State → State × Result Error (Unit {0})
unfolding parse_failed_op_revert check_fatal find_entity_to_blame punish remove_user_op
send_failed n e ops st = elim (parse_failed_op_revert n e) [
  | none ↦ (st, check_fatal n e)
  | some (index, reason) ↦ elim (get_elem? ops index) [
    | none ↦ (st, err type_error)
    | some op ↦ elim (find_entity_to_blame n reason op st.reputation) [
      | err x ↦ (st, err x)
      | ok addr ↦ (drop_op op (punish addr op st), ok tt)
    ]
  ]
]

pub record SendBundleReturn : Type 0 where
  pub transaction_hash : Text
  pub user_op_hashes : List Text

unfoldable pub send_bundle :
    Node
    → List Operation
    → List Authorization
    → Text
    → StorageMap
    → State
    → State × Result Error (Option SendBundleReturn)
unfolding send_failed
send_bundle n ops auths beneficiary storage st =
    let sent = n.handle_ops ops auths beneficiary storage >>= λ hash. n.hashes_of ops >>= λ hashes.
    ok (record { transaction_hash = hash; user_op_hashes = hashes }) in
    elim sent [
      | ok ret ↦ (st, ok (some ret))
      | err e ↦ let (st', outcome) = send_failed n e ops st in (st', outcome >>= λ _. ok none)
    ]

-- `find` in `mergeEip7702Authorizations`: both signers are recovered for each that it looks at.
unfoldable pub find_authorization :
    Node → Authorization → List Authorization → Result Error (Option Authorization)
find_authorization n a [] = ok none
find_authorization n a (b ∷ auths) =
    let rest = find_authorization n a auths in
    n.signer_of b >>= λ theirs.
    n.signer_of a >>= λ own. if same theirs own then ok (some b) else rest

-- One round of its loop: the list, unless there is a conflict.
unfoldable pub merge_authorization :
    Node → Authorization → List Authorization → Result Error (Option (List Authorization))
unfolding find_authorization to_lower
merge_authorization n a auths = do
  existing ← find_authorization n a auths
  ok (elim existing [
    | none ↦ some (auths ++ a ∷ [])
    | some b ↦ if same (to_lower b.address) (to_lower a.address) then some auths else none
  ])

-- The list as it is left, and whether the merge is done.
unfoldable pub merge_authorizations :
    Node → List Authorization → List Authorization → Result Error (List Authorization × Bool)
unfolding merge_authorization
merge_authorizations n [] auths = ok (auths, true)
merge_authorizations n (a ∷ more) auths = elim (merge_authorization n a auths) [
  | err e ↦ err e
  | ok none ↦ ok (auths, false)
  | ok (some auths') ↦ merge_authorizations n more auths'
]

unfoldable pub merge_eip7702_authorizations :
    Node → Operation → List Authorization → Result Error (List Authorization × Bool)
unfolding merge_authorizations get_authorization_list
merge_eip7702_authorizations n op auths = merge_authorizations n (get_authorization_list op) auths

unfoldable pub select_beneficiary : Settings → (Text → Result Error ℕ) → Text → Result Error Text
select_beneficiary s balance signer = do
  current ← balance signer
  ok (if leb current s.min_signer_balance then signer else s.beneficiary)

-- ===== src/Bundle/Loop.antt =====
-- `createBundle` of packages/bundler/src/modules/BundleManager.ts.
use mathlib.Core.Option.{get_or}
use bundler.Common.{
  ℕ, ◌+◌, ◌-◌, Bool, true, false, ◌&&◌, ◌||◌, not, Option, none, some, List, [], ◌∷◌, ◌++◌,
  if◌then◌else◌, leb, ltb, ◌==◌, Result, ok, err, ◌>>=◌, length,
}
use bundler.Common.Text.{Text, same, to_lower}
use bundler.Common.Dict
use bundler.Common.Dict.{Dict, get, put}
use bundler.Types.{Operation, Authorization, Error, type_error, StorageMap, root}
use bundler.Reputation.{Status, banned, throttled, ok_status, has, get_status, to_number}
use bundler.Utils.{merge_storage_map}
use bundler.Deposit.{address_zero}
use bundler.Mempool.Defs.{
  State, MempoolEntry, get_known_senders, get_sorted_for_inclusion, remove_user_op,
}
use bundler.Bundle.{
  SendBundleReturn, send_bundle, select_beneficiary, Node, Settings, Limits,
  merge_eip7702_authorizations, handle_second_validation_exception, drop_op,
}

-- The local variables of `createBundle`, and the managers.
pub record Packing : Type 0 where
  pub managers : State
  pub bundle : List Operation
  pub authorizations : List Authorization
  pub paymaster_deposit : Dict ℕ
  pub staked_entity_count : Dict ℕ
  pub senders : List Text
  pub storage_map : StorageMap
  pub total_gas : ℕ
  pub bundle_gas : ℕ

abbrev pub empty_packing : State → Packing
empty_packing st = record {
  managers = st;
  bundle = [];
  authorizations = [];
  paymaster_deposit = [];
  staked_entity_count = [];
  senders = [];
  storage_map = [];
  total_gas = 0;
  bundle_gas = 0;
}

-- How a round ends: with `continue` or at its end, with `break`, or with an exception.
pub data Round : Type 0 where
  next stop : Packing → Round
  throws : Packing → Error → Round

-- EmptyValidateUserOpResult, of which the loop reads these fields.
pub record Validated : Type 0 where
  pub pre_op_gas : ℕ
  pub prefund : Option ℕ
  pub accessed : StorageMap

unfoldable pub revalidate : Node → MempoolEntry → Result Error Validated
revalidate n e =
    if e.skip_validation
    then ok (record { pre_op_gas = 0; prefund = some 0; accessed = [] })
    else n.validate e.user_op e.referenced_contracts >>= λ v. ok (record {
      pre_op_gas = v.return_info.pre_op_gas;
      prefund = v.return_info.prefund;
      accessed = v.storage_map;
    })

-- A limit of 0 is no limit.
abbrev pub reaches : ℕ → Option ℕ → Bool
reaches n none = false
reaches n (some limit) = not (limit == 0) && leb limit n

abbrev pub underpriced : Limits → Operation → Bool
underpriced lim op = elim lim.min_base_fee [
  | none ↦ false
  | some fee ↦ not (fee == 0) && ltb op.max_fee_per_gas fee
]

abbrev pub is_banned : Status → Bool
is_banned banned = true
is_banned throttled = false
is_banned ok_status = false

abbrev pub is_throttled : Status → Bool
is_throttled throttled = true
is_throttled banned = false
is_throttled ok_status = false

-- Whether an address that a validation touches is that of another known sender.
unfoldable pub touches_other : Text → List Text → List Text → Bool
unfolding has to_lower
touches_other sender known [] = false
touches_other sender known (a ∷ rest) =
    (not (same (to_lower a) (to_lower sender)) && has (to_lower a) known)
    || touches_other sender known rest

abbrev pub count_entity : Text → Dict ℕ → Dict ℕ
count_entity a counts = put a (get_or (get a counts) 0 + 1) counts

-- A paymaster that the deposits are kept of.
abbrev pub paying : Node → Operation → Option Text
paying n op = elim op.paymaster [
  | none ↦ none
  | some a ↦ if n.is_address a && not (same (to_lower a) address_zero) then some a else none
]

unfoldable pub read_deposit : Node → Text → Dict ℕ → Result Error ℕ
unfolding get
read_deposit n a deposits = elim (get a deposits) [ some d ↦ ok d | none ↦ n.balance_of a ]

-- The paymaster's part of a round: no packing is the `continue` for lack of deposit.
unfoldable pub charge_paymaster :
    Node → Operation → Validated → Packing → Packing × Result Error Bool
unfolding read_deposit get put
charge_paymaster n op v p = elim (paying n op) [
  | none ↦ (p, ok true)
  | some a ↦ elim (read_deposit n a p.paymaster_deposit) [
    | err x ↦ (p, err x)
    | ok d ↦ elim v.prefund [
      | none ↦ (p, err type_error)
      | some prefund ↦
          if ltb d prefund
          then (record p { paymaster_deposit = put a d p.paymaster_deposit }, ok false)
          else (
            record p {
              paymaster_deposit = put a (d - prefund) p.paymaster_deposit;
              staked_entity_count = count_entity a p.staked_entity_count;
            },
            ok true,
          )
    ]
  ]
]

unfoldable pub count_factory : Node → Operation → Packing → Packing
unfolding get put
count_factory n op p = elim op.factory [
  | none ↦ p
  | some a ↦
      if n.is_address a
      then record p { staked_entity_count = count_entity a p.staked_entity_count }
      else p
]

-- The storage map with the sender's root, where the settings ask for it, and with the validation's.
unfoldable pub merge_storage :
    Node → Settings → Operation → StorageMap → StorageMap → Result Error StorageMap
unfolding merge_storage_map put to_lower
merge_storage n s op accessed merged = elim op.factory [
  | some a ↦ ok (merge_storage_map merged accessed)
  | none ↦
      if s.merge_to_account_root_hash && s.conditional_rpc
      then n.storage_hash op.sender
        >>= (λ hash. ok (merge_storage_map (put (to_lower op.sender) (root hash) merged) accessed))
      else ok (merge_storage_map merged accessed)
]

-- The end of a round: the merges, and the operation into the bundle.
unfoldable pub include_op : Node → Settings → MempoolEntry → Validated → ℕ → Packing → Round
unfolding merge_storage merge_eip7702_authorizations
include_op n s e v gas p = elim (merge_storage n s e.user_op v.accessed p.storage_map) [
  | err x ↦ throws p x
  | ok storage ↦ elim (merge_eip7702_authorizations n e.user_op p.authorizations) [
    | err x ↦ throws p x
    | ok (auths, false) ↦ next (record p { storage_map = storage; authorizations = auths })
    | ok (auths, true) ↦ next (record p {
      storage_map = storage;
      authorizations = auths;
      bundle_gas = p.bundle_gas + e.user_op_max_gas;
      senders = p.senders ++ e.user_op.sender ∷ [];
      bundle = p.bundle ++ e.user_op ∷ [];
      total_gas = gas;
    })
  ]
]

unfoldable pub pay : Node → Settings → MempoolEntry → Validated → ℕ → Packing → Round
unfolding charge_paymaster count_factory include_op
pay n s e v gas p =
    let (p', outcome) = charge_paymaster n e.user_op v p in
    elim outcome [
      | err x ↦ throws p' x
      | ok false ↦ next p'
      | ok true ↦ include_op n s e v gas (count_factory n e.user_op p')
    ]

-- The rules on storage and on gas.
unfoldable pub weigh :
    Node → Settings → Limits → List Text → MempoolEntry → Validated → Packing → Round
unfolding touches_other pay
weigh n s lim known e v p =
    let gas = p.total_gas + (v.pre_op_gas + e.user_op.call_gas_limit) in
    if touches_other e.user_op.sender known (Dict.keys v.accessed)
    then next p
    else if ltb s.max_bundle_gas gas
    then stop p
    else if reaches gas lim.max_bundle_gas
    then stop p
    else pay n s e v gas p

unfoldable pub check_again : Node → Settings → Limits → List Text → MempoolEntry → Packing → Round
unfolding revalidate weigh handle_second_validation_exception
check_again n s lim known e p = elim (revalidate n e) [
  | ok v ↦ weigh n s lim known e v p
  | err x ↦
      let (st, outcome) = handle_second_validation_exception n x e.user_op p.managers in
      elim outcome [
        | err y ↦ throws (record p { managers = st }) y
        | ok _ ↦ next (record p { managers = st })
      ]
]

abbrev pub present : Option Text → Bool
present none = false
present (some a) = true

-- The rules on reputation, and a single operation for each sender. The test of a throttled entity
-- is `(status === throttled) ?? ...`, whose right side is never reached.
unfoldable pub screen : Node → Settings → Limits → List Text → MempoolEntry → Packing → Round
unfolding get_status remove_user_op has check_again
screen n s lim known e p =
    let op = e.user_op in
    let paymaster_status = get_status op.paymaster p.managers.reputation in
    let deployer_status = get_status op.factory p.managers.reputation in
    if is_banned paymaster_status || is_banned deployer_status
    then next (record p { managers = drop_op op p.managers })
    else if present op.paymaster && is_throttled paymaster_status
    then next p
    else if present op.factory && is_throttled deployer_status
    then next p
    else if has op.sender p.senders
    then next p
    else check_again n s lim known e p

-- A round, for a mempool of so many entries.
unfoldable pub round : Node → Settings → Limits → ℕ → List Text → MempoolEntry → Packing → Round
unfolding screen
round n s lim total known e p = elim (to_number (get_or lim.max_bundle_size 0)) [
  | err x ↦ throws p x
  | ok size ↦
      if not (size == 0) && leb size total
      then stop p
      else if underpriced lim e.user_op
      then next p
      else screen n s lim known e p
]

unfoldable pub pack :
    Node
    → Settings
    → Limits
    → ℕ
    → List Text
    → List MempoolEntry
    → Packing
    → Packing × Result Error (Unit {0})
unfolding round
pack n s lim total known [] p = (p, ok tt)
pack n s lim total known (e ∷ es) p = elim (round n s lim total known e p) [
  | next p' ↦ pack n s lim total known es p'
  | stop p' ↦ (p', ok tt)
  | throws p' x ↦ (p', err x)
]

-- The managers, and the packing if none of the calls throws.
unfoldable pub finish : Packing × Result Error (Unit {0}) → State × Result Error Packing
finish (p, ok _) = (p.managers, ok p)
finish (p, err x) = (p.managers, err x)

unfoldable pub create_bundle : Node → Settings → Limits → State → State × Result Error Packing
unfolding pack finish get_sorted_for_inclusion get_known_senders
create_bundle n s lim st = elim (get_sorted_for_inclusion st.pool) [
  | err x ↦ (st, err x)
  | ok es ↦ finish (pack n s lim (length es) (get_known_senders st.pool) es (empty_packing st))
]

abbrev pub no_limits : Limits
no_limits = record { min_base_fee = some 0; max_bundle_gas = some 0; max_bundle_size = some 0 }

-- The end of `sendNextBundle`, with what `createBundle` has packed.
unfoldable pub send_packed :
    Node
    → Settings
    → (Text → Result Error ℕ)
    → Text
    → State × Result Error Packing
    → State × Result Error (Option SendBundleReturn)
unfolding send_bundle select_beneficiary
send_packed n s balance signer (st, err e) = (st, err e)
send_packed n s balance signer (st, ok p) = elim p.bundle [
  | [] ↦ (st, ok none)
  | op ∷ ops ↦ elim (select_beneficiary s balance signer) [
    | err e ↦ (st, err e)
    | ok beneficiary ↦ send_bundle n p.bundle p.authorizations beneficiary p.storage_map st
  ]
]

-- `sendNextBundle`; `flush` is the scan of past events, `balance` the node's and `signer` the
-- signer's address.
unfoldable pub send_next_bundle :
    Node
    → Settings
    → (State → State × Result Error (Unit {0}))
    → (Text → Result Error ℕ)
    → Text
    → State
    → State × Result Error (Option SendBundleReturn)
unfolding create_bundle send_packed
send_next_bundle n s flush balance signer st =
    let (st', flushed) = flush st in
    elim flushed [
      | err e ↦ (st', err e)
      | ok _ ↦ send_packed n s balance signer (create_bundle n s no_limits st')
    ]

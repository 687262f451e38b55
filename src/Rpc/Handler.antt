-- ===== src/Rpc/Handler.antt =====
-- packages/bundler/src/MethodHandlerERC4337.ts, but for `_filterLogs`. The node, the execution manager
-- and the calculator are parameters. An operation of a request is the dictionary of its fields' texts.
use bundler.Common.{
  ℕ, ◌^◌, ◌==◌, ltb, leb, Bool, true, ◌&&◌, not, Option, none, some, List, [], ◌∷◌, ◌++◌,
  if◌then◌else◌, Result, ok, err, ◌>>=◌, ◌>>◌,
}
use bundler.Common.Text.{Text, codes, same, to_lower}
use bundler.Common.Dict.{Dict, get, put}
use bundler.Common.Int.{ℤ, sub_ℕ}
use bundler.InputCheck.{
  InputError, no_entry_point, no_operation, unsupported_entry_point, check_fields, required_fields,
  require_address_and_fields, check_factory, is_hex,
}
use bundler.ValidationData.{ValidationData, merge_validation_data_values}
use bundler.PackedOperation.{UserOperation, PackedUserOperation, PackError, unpack_user_op}
use bundler.Rpc.Logs.{Log, Topics, filter_logs}

pub data HandlerError : Type 0 where
  invalid_input : InputError → HandlerError
  eip7702_not_supported missing_hash not_to_entry_point no_operations operation_not_found :
      HandlerError
  not_unpacked : PackError → HandlerError
  no_event : Text → HandlerError
  simulation_failed execution_reverted : Text → HandlerError
  invalid_validation_data : HandlerError
  too_large : ℕ → HandlerError
  not_accepted : ℕ → HandlerError

pub record BundlerConfig : Type 0 where
  pub entry_point : Text
  pub beneficiary : Text
  pub min_balance : ℕ
  pub eip7702_support : Bool
  pub unsafe : Bool
  pub version : Text

unfoldable pub get_supported_entry_points : BundlerConfig → List Text
get_supported_entry_points c = c.entry_point ∷ []

-- For a balance of the signer.
unfoldable pub select_beneficiary : BundlerConfig → Text → ℕ → Text
select_beneficiary c signer balance = if leb balance c.min_balance then signer else c.beneficiary

unfoldable pub client_version : BundlerConfig → Text
client_version c = codes "aa-bundler/" ++ (c.version ++ (if c.unsafe then codes "/unsafe" else []))

-- `_validateParameters`
unfoldable pub validate_parameters :
    BundlerConfig → Option (Dict Text) → Option Text → Bool → Bool → Result InputError (Unit {0})
unfolding check_fields required_fields require_address_and_fields to_lower
validate_parameters c operation entry_point signature gas = elim entry_point [
  | none ↦ err no_entry_point
  | some input ↦
      if not (same (to_lower input) (to_lower c.entry_point))
      then err (unsupported_entry_point input)
      else elim operation [
        | none ↦ err no_operation
        | some op ↦
            check_fields (required_fields signature gas) op
            >> require_address_and_fields op (codes "paymaster")
                (codes "paymasterPostOpGasLimit" ∷ codes "paymasterVerificationGasLimit" ∷ [])
                (codes "paymasterData" ∷ [])
            >> check_factory op
      ]
]

abbrev input_checked : Result InputError (Unit {0}) → Result HandlerError (Unit {0})
input_checked (ok _) = ok tt
input_checked (err e) = err (invalid_input e)

-- An authorization needs support for EIP-7702.
abbrev check_support : BundlerConfig → Dict Text → Result HandlerError (Unit {0})
check_support c op = elim (get (codes "eip7702Auth") op) [
  | none ↦ ok tt
  | some auth ↦ if c.eip7702_support then ok tt else err eip7702_not_supported
]

-- The default values of missing fields, in hexadecimal.
abbrev default_fields : Dict Text
default_fields =
    (codes "maxFeePerGas", codes "0x0")
    ∷ (codes "maxPriorityFeePerGas", codes "0x0")
    ∷ (codes "preVerificationGas", codes "0x0")
    ∷ (codes "verificationGasLimit", codes "0x989680")
    ∷ []

unfoldable pub put_all : Dict Text → Dict Text → Dict Text
unfolding put
put_all [] fields = fields
put_all ((key, value) ∷ rest) fields = put_all rest (put key value fields)

-- What a simulation returns that the estimate reads.
pub record SimulationReturn : Type 0 where
  pub pre_op_gas : ℕ
  pub account_validation_data : ℕ
  pub paymaster_validation_data : ℕ

-- A call that fails gives the reason of its revert, or its message.
pub record Estimator : Type 0 where
  pub simulate_handle_op : Dict Text → Result Text SimulationReturn
  pub estimate_gas : Dict Text → Result Text ℕ
  pub estimate_pre_verification_gas : Dict Text → ℕ

pub record EstimateUserOpGasResult : Type 0 where
  pub pre_verification_gas : ℕ
  pub verification_gas_limit : ℕ
  pub valid_after : ℕ
  pub valid_until : ℕ
  pub call_gas_limit : ℤ

abbrev or_else : {A : Type 0} → (Text → HandlerError) → Result Text A → Result HandlerError A
or_else failed (ok a) = ok a
or_else failed (err reason) = err (failed reason)

abbrev merged : SimulationReturn → Result HandlerError ValidationData
merged r =
    elim (merge_validation_data_values r.account_validation_data r.paymaster_validation_data) [
      | none ↦ err invalid_validation_data
      | some times ↦ ok times
    ]

abbrev number_below_2_53 : ℕ → Result HandlerError ℕ
number_below_2_53 n = if ltb n (2 ^ 53) then ok n else err (too_large n)

-- An estimate that is no number is taken for a revert.
abbrev estimated : Result Text ℕ → Result HandlerError ℕ
estimated (err reason) = err (execution_reverted reason)
estimated (ok gas) =
    if ltb gas (2 ^ 53) then ok gas else err (execution_reverted (codes "execution reverted"))

-- MainnetConfig.transactionGasStipend
abbrev pub stipend : ℕ
stipend = 21000

unfoldable pub estimate_user_operation_gas :
    BundlerConfig
    → Estimator
    → Dict Text
    → Option Text
    → Result HandlerError EstimateUserOpGasResult
unfolding validate_parameters put_all get merge_validation_data_values
estimate_user_operation_gas c node op1 entry_point =
    let op = put_all op1 default_fields in
    check_support c op1
    >> input_checked (validate_parameters c (some op) entry_point true true)
    >> (or_else simulation_failed (node.simulate_handle_op op) >>= λ found.
        merged found >>= λ times. estimated (node.estimate_gas op) >>= λ call_gas.
        number_below_2_53 found.pre_op_gas >>= λ verification_gas. ok (record {
          pre_verification_gas = node.estimate_pre_verification_gas op;
          verification_gas_limit = verification_gas;
          valid_after = times.valid_after;
          valid_until = times.valid_until;
          call_gas_limit = sub_ℕ call_gas stipend;
        }))

-- The managers' state goes through `sendUserOperation` of the execution manager.
pub record ExecutionManager (S : Type 0) : Type 0 where
  pub send_user_operation : Dict Text → Option Text → S → S × Result HandlerError (Unit {0})
  pub user_op_hash : Dict Text → Result HandlerError Text

abbrev sent :
    {S : Type 0}
    → Result HandlerError Text
    → S × Result HandlerError (Unit {0})
    → S × Result HandlerError Text
sent hash (s, ok _) = (s, hash)
sent hash (s, err e) = (s, err e)

unfoldable pub send_user_operation :
    {S : Type 0}
    → BundlerConfig
    → ExecutionManager S
    → Dict Text
    → Option Text
    → S
    → S × Result HandlerError Text
unfolding validate_parameters get
send_user_operation c exec op entry_point s =
    elim (check_support c op
      >> input_checked (validate_parameters c (some op) entry_point true true)) [
        | err e ↦ (s, err e)
        | ok _ ↦ sent (exec.user_op_hash op) (exec.send_user_operation op entry_point s)
      ]

-- A transaction of which the entry point's interface reads the operations.
pub record Transaction : Type 0 where
  pub to : Text
  pub ops : Option (List PackedUserOperation)
  pub hash : Text
  pub block_hash : Text
  pub block_number : ℕ

-- A UserOperationEvent, with its transaction and the logs of its receipt.
pub record UserOperationEvent : Type 0 where
  pub sender : Text
  pub nonce : ℕ
  pub success : Bool
  pub actual_gas_cost : ℕ
  pub actual_gas_used : ℕ
  pub transaction : Transaction
  pub logs : List Log

pub record UserOperationByHashResponse : Type 0 where
  pub user_operation : UserOperation
  pub entry_point : Text
  pub transaction_hash : Text
  pub block_hash : Text
  pub block_number : ℕ

abbrev check_hash : Option Text → Result HandlerError Text
check_hash none = err missing_hash
check_hash (some hash) = if is_hex hash then ok hash else err missing_hash

unfoldable pub find_op : Text → ℕ → List PackedUserOperation → Option PackedUserOperation
find_op sender nonce [] = none
find_op sender nonce (op ∷ ops) =
    if same op.sender sender && op.nonce == nonce then some op else find_op sender nonce ops

abbrev pub respond :
    BundlerConfig
    → Transaction
    → Option PackedUserOperation
    → Result HandlerError UserOperationByHashResponse
respond c tx none = err operation_not_found
respond c tx (some packed) = elim (unpack_user_op packed) [
  | err e ↦ err (not_unpacked e)
  | ok op ↦ ok (record {
    user_operation = op;
    entry_point = c.entry_point;
    transaction_hash = tx.hash;
    block_hash = tx.block_hash;
    block_number = tx.block_number;
  })
]

unfoldable pub response_of :
    BundlerConfig → UserOperationEvent → Result HandlerError UserOperationByHashResponse
unfolding find_op unpack_user_op
response_of c event =
    let tx = event.transaction in
    if not (same tx.to c.entry_point) then err not_to_entry_point else elim tx.ops [
      | none ↦ err no_operations
      | some ops ↦ respond c tx (find_op event.sender event.nonce ops)
    ]

-- `events` is the query for the event of a hash.
unfoldable pub get_user_operation_by_hash :
    BundlerConfig
    → (Text → Option UserOperationEvent)
    → Option Text
    → Result HandlerError (Option UserOperationByHashResponse)
unfolding response_of is_hex
get_user_operation_by_hash c events hash = check_hash hash >>= λ user_op_hash.
    elim (events user_op_hash) [
      | none ↦ ok none
      | some event ↦ response_of c event >>= λ response. ok (some response)
    ]

pub record UserOperationReceipt : Type 0 where
  pub user_op_hash : Text
  pub event : UserOperationEvent
  pub logs : List Log

unfoldable pub get_user_operation_receipt :
    (Text → Topics)
    → (Text → Option UserOperationEvent)
    → Option Text
    → Result HandlerError (Option UserOperationReceipt)
unfolding filter_logs is_hex
get_user_operation_receipt topics events hash = check_hash hash >>= λ user_op_hash.
    elim (events user_op_hash) [
      | none ↦ ok none
      | some event ↦ elim (filter_logs (topics user_op_hash) event.logs) [
        | err e ↦ err (no_event e)
        | ok logs ↦ ok (some (record { user_op_hash = user_op_hash; event = event; logs = logs }))
      ]
    ]

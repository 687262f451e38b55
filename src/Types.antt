-- ===== src/Types.antt =====
-- The types that the packages share: packages/utils/src/Utils.ts (StakeInfo, ValidationErrors,
-- RpcError, requireCond, StorageMap), packages/utils/src/interfaces/*.ts (the operations) and
-- packages/validation-manager/src/IValidationManager.ts (ValidationResult).
-- Numbers in any of the source's forms (BigNumberish) are the numbers that they stand for.
use bundler.Common.{ℕ, Bool, Option, none, some, List, Result, ok, err, if◌then◌else◌}
use bundler.Common.Text.{Text}
use bundler.Common.Dict.{Dict}
use bundler.Common.Int.{ℤ, negsuc}

pub data Title : Type 0 where
  account paymaster aggregator deployer : Title

pub record StakeInfo : Type 0 where
  pub addr : Text
  pub stake : ℕ
  pub unstake_delay_sec : ℕ

pub data ValidationErrors : Type 0 where
  parse_error invalid_request method_not_found invalid_fields : ValidationErrors
  internal_error simulate_validation simulate_paymaster_validation : ValidationErrors
  opcode_validation not_in_time_range reputation insufficient_stake : ValidationErrors
  unsupported_signature_aggregator invalid_signature : ValidationErrors
  paymaster_deposit_too_low user_operation_reverted : ValidationErrors

unfoldable pub error_code : ValidationErrors → ℤ
error_code parse_error = negsuc 32699
error_code invalid_request = negsuc 32599
error_code method_not_found = negsuc 32600
error_code invalid_fields = negsuc 32601
error_code internal_error = negsuc 32602
error_code simulate_validation = negsuc 32499
error_code simulate_paymaster_validation = negsuc 32500
error_code opcode_validation = negsuc 32501
error_code not_in_time_range = negsuc 32502
error_code reputation = negsuc 32503
error_code insufficient_stake = negsuc 32504
error_code unsupported_signature_aggregator = negsuc 32505
error_code invalid_signature = negsuc 32506
error_code paymaster_deposit_too_low = negsuc 32507
error_code user_operation_reverted = negsuc 32520

-- The messages, with the values that the source formats into them.
pub data Message : Type 0 where
  is_banned is_throttled : Title → Text → Message
  is_unstaked : Title → Text → Message
  stake_too_low unstake_delay_too_low : Title → Text → ℕ → ℕ → Message
  sender_is_entity paymaster_is_sender factory_is_sender : Option Text → Message
  low_priority_fee low_fee : ℕ → ℕ → Message
  deposit_too_low : Message
  text : Text → Message

pub record RpcError : Type 0 where
  pub message : Message
  pub code : ValidationErrors
  pub entity : Option (Title × Text)

-- What the code throws: an RpcError, or a plain Error such as ethers' NUMERIC_FAULT from
-- `toNumber` on a number of 2^53 or more, or from a provider.
pub data Error : Type 0 where
  rpc : RpcError → Error
  numeric_fault : ℕ → Error
  provider_error : ℕ → Error
  type_error : Error

-- A throw of an RpcError with no "data" unless `cond` holds.
abbrev pub require_cond : Bool → Message → ValidationErrors → Result Error (Unit {0})
require_cond cond message code =
    if cond then ok tt else err (rpc (record { message = message; code = code; entity = none }))

-- The same with the entity as "data".
abbrev pub require_entity :
    Bool → Message → ValidationErrors → Title → Text → Result Error (Unit {0})
require_entity cond message code title addr =
    if cond
    then ok tt
    else err (rpc (record { message = message; code = code; entity = some (title, addr) }))

pub record Authorization : Type 0 where
  pub chain_id : ℕ
  pub address : Text
  pub nonce : ℕ
  pub y_parity : ℕ
  pub r : ℕ
  pub s : ℕ

-- OperationBase with the fields of UserOperation and OperationRIP7560 that the bundler's modules
-- read through casts; a field that an operation of the other kind lacks is `none`.
pub record Operation : Type 0 where
  pub sender : Text
  pub nonce : ℕ
  pub factory : Option Text
  pub factory_data : Option Text
  pub paymaster : Option Text
  pub paymaster_data : Option Text
  pub max_fee_per_gas : ℕ
  pub max_priority_fee_per_gas : ℕ
  pub call_gas_limit : ℕ
  pub verification_gas_limit : ℕ
  pub paymaster_verification_gas_limit : Option ℕ
  pub paymaster_post_op_gas_limit : Option ℕ
  pub call_data : Text
  pub signature : Text
  pub pre_verification_gas : Option ℕ
  pub eip7702_auth : Option Authorization
  pub nonce_key : Option ℕ
  pub authorization_list : Option (List Authorization)

pub record ReferencedCodeHashes : Type 0 where
  pub addresses : List Text
  pub hash : Text

-- A value of a StorageMap: a storage root, or a map of slots.
pub data StorageEntry : Type 0 where
  root : Text → StorageEntry
  slots : Dict Text → StorageEntry

abbrev pub StorageMap : Type 0
StorageMap = Dict StorageEntry

pub record ReturnInfo : Type 0 where
  pub pre_op_gas : ℕ
  pub prefund : Option ℕ
  pub sig_failed : Bool
  pub valid_after : ℕ
  pub valid_until : ℕ

pub record ValidationResult : Type 0 where
  pub return_info : ReturnInfo
  pub sender_info : StakeInfo
  pub factory_info : Option StakeInfo
  pub paymaster_info : Option StakeInfo
  pub aggregator_info : Option StakeInfo
  pub referenced_contracts : ReferencedCodeHashes
  pub storage_map : StorageMap

-- ===== src/Erc7562.antt =====
-- The data of packages/validation-manager/src/ERC7562Parser.ts: the tree of calls that a tracer
-- returns (ERC7562Call.ts), entities, rules and violations. The record of an object of the tracer is
-- the list of its keys where the parser reads only those; an object that is missing is empty.
pub mod Opcodes
pub mod Actions
pub mod Slots
pub mod Checks
pub mod Walk
pub mod Bail
pub mod Association
pub mod Compliance
pub mod Visits
use bundler.Common.{ℕ, Bool, Option, none, some, List, [], ◌∷◌}
use bundler.Common.Text.{Text, codes}
use bundler.Common.Dict.{Dict}
use bundler.Types.{StakeInfo, StorageMap, ValidationErrors}

-- A name ends in _entity, since the operation's fields are called `paymaster` and so on.
pub data AccountAbstractionEntity : Type 0 where
  account_entity paymaster_entity factory_entity : AccountAbstractionEntity
  aggregator_entity sender_creator_entity entry_point_entity : AccountAbstractionEntity
  native_entry_point_entity native_nonce_manager_entity no_entity : AccountAbstractionEntity

pub data Erc7562Rule : Type 0 where
  op011 op012 op013 op020 op031 op041 op042 op051 op052 op053 op054 op061 op062 op070 : Erc7562Rule
  op080 cod010 sto010 sto021 sto022 sto031 sto032 sto033 sto040 sto041 : Erc7562Rule
  grep010 grep020 grep040 grep050 srep010 srep040 : Erc7562Rule
  erep010 erep015 erep020 erep030 erep040 erep050 : Erc7562Rule

pub data CallFrameType : Type 0 where
  call delegatecall callcode staticcall create create2 : CallFrameType

pub record ContractSize : Type 0 where
  pub contract_size : ℕ
  pub opcode : ℕ

pub record AccessedSlots : Type 0 where
  pub reads : List Text
  pub writes : List Text
  pub transient_reads : List Text
  pub transient_writes : List Text

-- The fields of an Erc7562Call that are read, but its calls.
pub record Frame : Type 0 where
  pub accessed_slots : AccessedSlots
  pub contract_size : Dict ContractSize
  pub ext_code_access_info : List Text
  pub from : Text
  pub to : Text
  pub input : Option Text
  pub output : Option Text
  pub out_of_gas : Bool
  pub frame_type : CallFrameType
  pub used_opcodes : List ℕ
  pub value : Option ℕ
  pub keccak : List Text

-- A list of calls of its own, since a call holds calls.
mutual
  pub data Erc7562Call : Type 0 where
    frame_calls : Frame → Calls → Erc7562Call

  pub data Calls : Type 0 where
    no_calls : Calls
    and_call : Erc7562Call → Calls → Calls

abbrev pub frame_of : Erc7562Call → Frame
frame_of (frame_calls f cs) = f

-- The descriptions of violations, with the values that the source formats into them.
pub data Description : Type 0 where
  uses_banned_opcode : AccountAbstractionEntity → Text → Description
  reverts_on_oog : AccountAbstractionEntity → Description
  accesses_undeployed : AccountAbstractionEntity → Text → ℕ → Description
  illegal_entry_point_call : Text → Description
  accesses_entry_point_code : AccountAbstractionEntity → Text → Description
  call_with_value : Description
  forbidden_precompile : Text → Description
  unstaked_opcode : AccountAbstractionEntity → Text → Description
  unstaked_context : Description
  unstaked_slot : AccountAbstractionEntity → Text → Text → Description
  forbidden_slot : AccountAbstractionEntity → Bool → Bool → Text → Text → Description

pub record Erc7562Violation : Type 0 where
  pub rule : Erc7562Rule
  pub depth : ℕ
  pub entity : AccountAbstractionEntity
  pub address : Text
  pub delegatecall_storage_address : Text
  pub error_code : ValidationErrors
  pub description : Description
  pub call_frame_type : CallFrameType
  pub opcode : Option Text
  pub value : Option ℕ

-- What the parser throws: an RpcError of a violation, one with code 0 for an address that is no
-- entity, and an Error for a trace without calls.
pub data Fault : Type 0 where
  violation_error : Description → ValidationErrors → Fault
  unknown_entity : Text → Fault
  no_calls_from_entry_point : Fault

unfoldable pub to_error : Erc7562Violation → Fault
to_error v = violation_error v.description v.error_code

-- The part of the ValidationResult that the parser reads.
pub record StakeResult : Type 0 where
  pub sender_info : StakeInfo
  pub factory_info : Option StakeInfo
  pub paymaster_info : Option StakeInfo
  pub paymaster_context : Option Text

-- The constructor's fields, in lower case, and the functions that the parser calls on texts in
-- hexadecimal: `keccak256`, `hexZeroPad(_, 32)`, the number of a slot, `parseInt(_, 16)`, and the name
-- of the function of a selector, where the known interfaces have one.
pub record Setting : Type 0 where
  pub entry_point_address : Text
  pub sender_creator_address : Text
  pub nonce_manager_address : Option Text
  pub keccak256 : Text → Text
  pub hex_zero_pad : Text → Text
  pub slot_number : Text → ℕ
  pub parse_int : Text → Option ℕ
  pub function_name : Text → Option Text

-- The fields that the parser writes.
pub record Parser : Type 0 where
  pub keccak : List Text
  pub rule_violations : List Erc7562Violation
  pub current_entity : AccountAbstractionEntity
  pub current_entity_address : Text
  pub contract_addresses : List Text
  pub storage_map : StorageMap
  pub bail_on_violation : Bool

pub record Erc7562ValidationResults : Type 0 where
  pub storage_map : StorageMap
  pub rule_violations : List Erc7562Violation
  pub contract_addresses : List Text

-- ===== src/Tracer.antt =====
-- packages/validation-manager/src/TracerResultParser.ts: the rules on the result of the JavaScript
-- tracer. An object of which only the keys are read is their list; the functions on texts in hexadecimal
-- are those of the other parser's setting.
pub mod Entity
pub mod Passed
use mathlib.Core.Option.{get_or}
use bundler.Common.{
  ℕ, ◌+◌, ◌==◌, leb, Bool, true, false, ◌&&◌, ◌||◌, not, Option, none, some, List, [], ◌∷◌, ◌++◌,
  map, if◌then◌else◌, Result, ok, err, ◌>>=◌, ◌>>◌,
}
use bundler.Common.Text.{Text, codes, same, to_lower, starts_with}
use bundler.Common.Dict
use bundler.Common.Dict.{Dict, get, put}
use bundler.Types.{Operation, StakeInfo, StorageMap, slots}
use bundler.Reputation.{has, add}
use bundler.Deposit.{address_zero}
use bundler.Erc7562.{Setting}
use bundler.Erc7562.Slots.{associated_with}

pub record AccessInfo : Type 0 where
  pub reads : Dict Text
  pub writes : List Text
  pub transient_reads : List Text
  pub transient_writes : List Text

pub record ContractSizeInfo : Type 0 where
  pub opcode : Text
  pub contract_size : ℕ

-- The fields of a TopLevelCallInfo but its calls.
pub record CallInfo : Type 0 where
  pub top_level_target_address : Option Text
  pub opcodes : List Text
  pub access : Dict AccessInfo
  pub contract_size : Dict ContractSizeInfo
  pub ext_code_access_info : Dict Text
  pub oog : Bool
  pub call_type : Option Text
  pub to : Option Text
  pub from : Option Text

mutual
  pub data TracedCall : Type 0 where
    info_calls : CallInfo → TracedCalls → TracedCall

  pub data TracedCalls : Type 0 where
    no_calls : TracedCalls
    and_call : TracedCall → TracedCalls → TracedCalls

abbrev pub info_of : TracedCall → CallInfo
info_of (info_calls f calls) = f

-- A MethodInfo, or an ExitInfo, which has none of these fields.
pub record MethodInfo : Type 0 where
  pub to : Option Text
  pub from : Option Text
  pub method : Option Text
  pub value : Option ℕ

pub record BundlerTracerResult : Type 0 where
  pub calls_from_entry_point : List TracedCall
  pub keccak : List Text
  pub calls : List MethodInfo

pub data BrokenRule : Type 0 where
  no_calls_from_entry_point illegal_entry_point_call call_with_value : BrokenRule
  no_entity_name : Text → BrokenRule
  reverts_on_oog uses_banned_create uses_banned_create2 : Text → BrokenRule
  uses_banned_opcode unstaked_opcode : Text → Text → BrokenRule
  create_from_inner_call : Text → ℕ → BrokenRule
  forbidden_slot : Text → Text → Text → BrokenRule
  unstaked_slot : Text → Text → Text → BrokenRule
  no_stake_info : Text → BrokenRule
  accesses_undeployed : Text → Text → BrokenRule
  accesses_entry_point_code : Text → Text → BrokenRule

abbrev pub Check : Type 0
Check = Result BrokenRule (Unit {0})

abbrev pub require : Bool → BrokenRule → Check
require cond rule = if cond then ok tt else err rule

unfoldable pub for_each : {A : Type 0} → (A → Check) → List A → Check
for_each body [] = ok tt
for_each body (x ∷ xs) = body x >> for_each body xs

abbrev pub tracer_banned_op_codes : List Text
tracer_banned_op_codes =
    codes "GASPRICE"
    ∷ codes "GASLIMIT"
    ∷ codes "DIFFICULTY"
    ∷ codes "TIMESTAMP"
    ∷ codes "BASEFEE"
    ∷ codes "BLOCKHASH"
    ∷ codes "NUMBER"
    ∷ codes "ORIGIN"
    ∷ codes "GAS"
    ∷ codes "COINBASE"
    ∷ codes "SELFDESTRUCT"
    ∷ codes "RANDOM"
    ∷ codes "PREVRANDAO"
    ∷ codes "INVALID"
    ∷ []

abbrev pub staked_op_codes : List Text
staked_op_codes = codes "BALANCE" ∷ codes "SELFBALANCE" ∷ []

abbrev pub is_staked : Option StakeInfo → Bool
is_staked none = false
is_staked (some info) = leb 1 info.stake && leb 1 info.unstake_delay_sec

-- `a?.toLowerCase() === b.toLowerCase()`
abbrev pub is_lower : Option Text → Text → Bool
is_lower none a = false
is_lower (some b) a = same (to_lower b) (to_lower a)

abbrev pub is_text : Option Text → Text → Bool
is_text none t = false
is_text (some u) t = same u t

-- The rules on all calls: OP-052 to OP-054, and OP-061.
abbrev is_illegal_call : Text → MethodInfo → Bool
is_illegal_call entry_point c =
    is_lower c.to entry_point
    && not (is_lower c.from entry_point)
    && not (is_text c.method (codes "0x"))
    && not (is_text c.method (codes "depositTo"))

abbrev has_value : Text → MethodInfo → Bool
has_value entry_point c = not (is_lower c.to entry_point) && not (get_or c.value 0 == 0)

unfoldable pub check_call_stack : Text → List MethodInfo → Check
unfolding for_each to_lower
check_call_stack entry_point calls =
    for_each (λ c. require (not (is_illegal_call entry_point c)) illegal_entry_point_call) calls
    >> for_each (λ c. require (not (has_value entry_point c)) call_with_value) calls

abbrev put_stake :
    Option Text → Option StakeInfo → Dict (Option StakeInfo) → Dict (Option StakeInfo)
put_stake none stake entities = entities
put_stake (some address) stake entities = put (to_lower address) stake entities

-- The stake of each entity, under its address in lower case.
unfoldable pub stake_info_entities :
    Operation → StakeInfo → Option StakeInfo → Option StakeInfo → Dict (Option StakeInfo)
unfolding put to_lower
stake_info_entities op sender factory paymaster =
    put_stake op.paymaster paymaster
      (put_stake op.factory factory ((to_lower op.sender, some sender) ∷ []))

abbrev pub stake_in : Dict (Option StakeInfo) → Text → Option StakeInfo
stake_in entities address = elim (get address entities) [ none ↦ none | some info ↦ info ]

-- One input of keccak, for the entities that have a stake info, by its address.
unfoldable pub add_keccak :
    Setting → Text → Dict (Option StakeInfo) → Dict (List Text) → Dict (List Text)
unfolding get put add starts_with to_lower
add_keccak s input [] found = found
add_keccak s input ((key, none) ∷ rest) found = add_keccak s input rest found
add_keccak s input ((key, some info) ∷ rest) found =
    let addr = to_lower info.addr in
    let known = get_or (get addr found) [] in
    add_keccak s input rest (
      put addr
        (if starts_with (s.hex_zero_pad addr) input then add known (s.keccak256 input) else known)
        found)

unfoldable pub parse_slots :
    Setting → Dict (Option StakeInfo) → List Text → Dict (List Text) → Dict (List Text)
unfolding add_keccak
parse_slots s entities [] found = found
parse_slots s entities (input ∷ inputs) found =
    parse_slots s entities inputs (add_keccak s input entities found)

unfoldable pub get_entity_title : Operation → Text → Result BrokenRule Text
unfolding to_lower
get_entity_title op address =
    if same (to_lower op.sender) (to_lower address)
    then ok (codes "account")
    else if is_lower op.factory address
    then ok (codes "factory")
    else if is_lower op.paymaster address
    then ok (codes "paymaster")
    else err (no_entity_name address)

-- The key of the entity with an address, or the address.
unfoldable pub name_addr : Text → Dict (Option StakeInfo) → Text
unfolding to_lower
name_addr addr [] = addr
name_addr addr ((key, none) ∷ rest) = name_addr addr rest
name_addr addr ((key, some info) ∷ rest) =
    if same (to_lower info.addr) (to_lower addr) then key else name_addr addr rest

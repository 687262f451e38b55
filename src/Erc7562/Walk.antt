-- ===== src/Erc7562/Walk.antt =====
-- The walk over the calls of a trace: packages/validation-manager/src/ERC7562Parser.ts from
-- requireCompliance down to `_checkStorage`.
use bundler.Common.{
  ℕ, ◌+◌, Bool, true, false, ◌&&◌, ◌||◌, not, Option, none, some, List, [], ◌∷◌, ◌++◌,
  if◌then◌else◌, Result, ok, err,
}
use bundler.Common.Text.{Text, same, to_lower}
use bundler.Common.Dict.{Dict, get, put}
use bundler.Types.{Operation, StorageMap, slots}
use bundler.Reputation.{has}
use bundler.Deposit.{address_zero}
use bundler.Erc7562.{
  AccountAbstractionEntity, account_entity, paymaster_entity, factory_entity, sender_creator_entity,
  entry_point_entity, native_nonce_manager_entity, no_entity, aggregator_entity,
  native_entry_point_entity, sto010, delegatecall, AccessedSlots, Frame, Erc7562Call, frame_calls,
  Calls, no_calls, and_call, frame_of, Description, unstaked_slot, forbidden_slot, Erc7562Violation,
  Fault, unknown_entity, no_calls_from_entry_point, StakeResult, Setting, Parser,
  Erc7562ValidationResults,
}
use bundler.Erc7562.Actions.{Action, skip, throws, modify, each, report, ◌>>◌}
use bundler.Erc7562.Checks.{Place, is_lower, is_given, is_entity_staked, violation, check_frame}
use bundler.Erc7562.Slots.{parse_entity_slots, associated_with}

unfoldable pub init : List Text → Parser → Parser
init keccak p = record p {
  keccak = keccak;
  rule_violations = [];
  current_entity = no_entity;
  current_entity_address = [];
  contract_addresses = [];
  storage_map = [];
}

abbrev pub enter : AccountAbstractionEntity → Text → Action
enter entity address =
    modify λ p. record p { current_entity = entity; current_entity_address = address }

-- A call from one of these may be to another entity.
abbrev pub is_from_system : Setting → Frame → Bool
is_from_system s f =
    same (to_lower f.from) address_zero
    || same (to_lower f.from) s.entry_point_address
    || same (to_lower f.from) s.sender_creator_address

-- An address that there is and that is the call's, as it is written.
abbrev pub matching : Option Text → Text → Option Text
matching address to = if is_lower address to then address else none

unfoldable pub detect_system_entity : Setting → Frame → Action
unfolding to_lower
detect_system_entity s f =
    if same s.entry_point_address (to_lower f.to)
    then enter entry_point_entity s.entry_point_address
    else if same s.sender_creator_address (to_lower f.to)
    then enter sender_creator_entity s.sender_creator_address
    else elim (matching s.nonce_manager_address f.to) [
      | some manager ↦ enter native_nonce_manager_entity manager
      | none ↦ throws (unknown_entity f.to)
    ]

unfoldable pub detect_paymaster : Setting → Operation → Frame → Action
unfolding detect_system_entity to_lower
detect_paymaster s op f = elim (matching op.paymaster f.to) [
  | some paymaster ↦ enter paymaster_entity paymaster
  | none ↦ detect_system_entity s f
]

unfoldable pub detect_factory : Setting → Operation → Frame → Action
unfolding detect_paymaster to_lower
detect_factory s op f = elim (matching op.factory f.to) [
  | some factory ↦
      if same (to_lower f.from) s.sender_creator_address
      then enter factory_entity factory
      else detect_paymaster s op f
  | none ↦ detect_paymaster s op f
]

unfoldable pub detect_entity_change : Setting → Operation → Frame → Action
unfolding detect_factory to_lower
detect_entity_change s op f =
    if not (is_from_system s f)
    then skip
    else if same (to_lower op.sender) (to_lower f.to)
    then enter account_entity op.sender
    else detect_factory s op f

abbrev entity_name : AccountAbstractionEntity → Text
entity_name account_entity = bundler.Common.Text.codes "account"
entity_name paymaster_entity = bundler.Common.Text.codes "paymaster"
entity_name factory_entity = bundler.Common.Text.codes "factory"
entity_name aggregator_entity = bundler.Common.Text.codes "aggregator"
entity_name sender_creator_entity = bundler.Common.Text.codes "SenderCreator"
entity_name entry_point_entity = bundler.Common.Text.codes "EntryPoint"
entity_name native_entry_point_entity = bundler.Common.Text.codes "NativeEntryPoint"
entity_name native_nonce_manager_entity = bundler.Common.Text.codes "NativeNonceManager"
entity_name no_entity = bundler.Common.Text.codes "none"

unfoldable pub try_get_address_name : Setting → Operation → Text → Text
unfolding to_lower
try_get_address_name s op address =
    if same (to_lower address) (to_lower op.sender)
    then entity_name account_entity
    else if is_lower op.factory address
    then entity_name factory_entity
    else if is_lower op.paymaster address
    then entity_name paymaster_entity
    else if same s.entry_point_address (to_lower address)
    then entity_name entry_point_entity
    else if same s.sender_creator_address (to_lower address)
    then entity_name sender_creator_entity
    else address

-- The facts about an access to a slot that `_checkStorage` computes before it decides.
pub record Access : Type 0 where
  pub of_sender : Bool
  pub sender_associated : Bool
  pub of_entity : Bool
  pub entity_associated : Bool
  pub read_only : Bool
  pub entity_staked : Bool
  pub factory_staked : Bool
  pub creation : Bool

unfoldable pub access_of :
    Setting → Operation → StakeResult → Place → Text → Dict (List Text) → Text → Access
unfolding associated_with is_entity_staked has to_lower
access_of s op v l entity_address entity_slots slot = record {
  of_sender = same (to_lower l.frame.to) (to_lower op.sender);
  sender_associated = associated_with s slot (to_lower op.sender) entity_slots;
  of_entity = same (to_lower l.frame.to) (to_lower entity_address);
  entity_associated = associated_with s slot (to_lower entity_address) entity_slots;
  read_only =
      not (has slot l.frame.accessed_slots.writes)
      && not (has slot l.frame.accessed_slots.transient_writes);
  entity_staked = is_entity_staked v l.entity;
  factory_staked = is_entity_staked v factory_entity;
  creation = is_given op.factory;
}

abbrev pub if_entity_staked : Access → Bool
if_entity_staked a = a.of_entity || a.entity_associated || a.read_only

abbrev pub if_factory_staked : Access → Bool
if_factory_staked a = a.sender_associated && a.creation

-- The rules STO-010, STO-021, STO-022 and STO-031 to STO-033.
unfoldable pub is_allowed_access : Access → Bool
is_allowed_access a =
    a.of_sender
    || (a.sender_associated && not a.creation)
    || (if_factory_staked a && a.factory_staked)
    || (if_entity_staked a && a.entity_staked)

unfoldable pub describe_access : Setting → Operation → Place → Access → Text → Description
unfolding try_get_address_name has
describe_access s op l a slot =
    let accessed = l.frame.accessed_slots in
    let name = try_get_address_name s op l.frame.to in
    if (if_entity_staked a && not a.entity_staked) || (if_factory_staked a && not a.factory_staked)
    then unstaked_slot l.entity name slot
    else forbidden_slot l.entity (has slot accessed.writes || has slot accessed.transient_writes)
        (has slot accessed.transient_reads || has slot accessed.transient_writes) name slot

unfoldable pub check_access : Setting → Operation → Place → Access → Text → List Erc7562Violation
unfolding is_allowed_access describe_access
check_access s op l a slot =
    if is_allowed_access a
    then []
    else violation l sto010 l.frame.to none none (describe_access s op l a slot) ∷ []

-- `storageMap[address][slot] = ''`; the parser's map has no storage roots.
unfoldable pub touch_slot : Text → Text → StorageMap → StorageMap
unfolding get put
touch_slot address slot map = elim (get address map) [
  | some (slots old) ↦ put address (slots (put slot [] old)) map
  | _ ↦ put address (slots ((slot, []) ∷ [])) map
]

unfoldable pub check_slot :
    Setting → Operation → StakeResult → Place → Text → Dict (List Text) → Text → Action
unfolding touch_slot access_of check_access
check_slot s op v l entity_address entity_slots slot =
    modify (λ p. record p { storage_map = touch_slot l.frame.to slot p.storage_map })
    >> report (check_access s op l (access_of s op v l entity_address entity_slots slot) slot)

abbrev pub is_system_code : Setting → Text → Bool
is_system_code s to =
    same (to_lower to) s.entry_point_address
    || elim s.nonce_manager_address [ none ↦ false | some m ↦ same (to_lower to) m ]

abbrev pub all_slots : AccessedSlots → List Text
all_slots a = a.writes ++ (a.reads ++ (a.transient_writes ++ a.transient_reads))

unfoldable pub check_storage : Setting → Operation → StakeResult → Place → Action
unfolding check_slot parse_entity_slots to_lower
check_storage s op v l p =
    (if is_system_code s l.frame.to
        then skip
        else each (check_slot s op v l p.current_entity_address (parse_entity_slots s op p.keccak))
            (all_slots l.frame.accessed_slots))
      p

abbrev pub place : Frame → ℕ → Text → AccountAbstractionEntity → Place
place f depth storage_address entity = record {
  frame = f;
  depth = depth;
  storage_address = storage_address;
  entity = entity;
}

-- `_innerStepRecursive` on a call, without the calls in it.
unfoldable pub check_call : Setting → Operation → StakeResult → Frame → ℕ → Text → Action
unfolding check_frame check_storage
check_call s op v f depth storage_address p =
    let l = place f depth storage_address p.current_entity in
    (report (check_frame s op v l) >> check_storage s op v l) p

unfoldable pub visit : Setting → Operation → StakeResult → Frame → ℕ → Text → Action
unfolding detect_entity_change check_call
visit s op v f depth storage_address =
    modify (λ p. record p { contract_addresses = p.contract_addresses ++ f.to ∷ [] })
    >> detect_entity_change s op f
    >> check_call s op v f depth storage_address

-- A call of the entry point to itself is not walked.
abbrev pub is_self_call : Setting → Frame → Bool
is_self_call s f = same f.to s.entry_point_address && same f.from s.entry_point_address

abbrev pub context_of : Erc7562Call → Text → Text
context_of (frame_calls f calls) storage_address = elim f.frame_type [
  | delegatecall ↦ storage_address
  | _ ↦ f.to
]

unfoldable mutual
  unfolding visit

  pub inner_step_recursive : Setting → Operation → StakeResult → Erc7562Call → ℕ → Text → Action
  inner_step_recursive s op v (frame_calls f calls) depth storage_address =
      if is_self_call s f
      then skip
      else visit s op v f depth storage_address
        >> inner_steps s op v calls (depth + 1) storage_address

  pub inner_steps : Setting → Operation → StakeResult → Calls → ℕ → Text → Action
  inner_steps s op v no_calls depth storage_address = skip
  inner_steps s op v (and_call c calls) depth storage_address =
      inner_step_recursive s op v c depth (context_of c storage_address)
      >> inner_steps s op v calls depth storage_address

abbrev pub has_calls : Erc7562Call → Bool
has_calls (frame_calls f no_calls) = false
has_calls (frame_calls f (and_call c calls)) = true

-- The results of `parseResults`, read off the parser.
abbrev pub results : Parser → Erc7562ValidationResults
results p = record {
  storage_map = p.storage_map;
  rule_violations = p.rule_violations;
  contract_addresses = p.contract_addresses;
}

unfoldable pub walk : Setting → Operation → Erc7562Call → StakeResult → Action
unfolding inner_step_recursive
walk s op root v =
    if has_calls root
    then inner_step_recursive s op v root 0 (frame_of root).to
    else throws no_calls_from_entry_point

unfoldable pub parse : Setting → Operation → Erc7562Call → StakeResult → Action
unfolding init walk
parse s op root v = modify (init (frame_of root).keccak) >> walk s op root v

abbrev pub returning :
    Parser × Result Fault (Unit {0}) → Parser × Result Fault Erc7562ValidationResults
returning (p, err e) = (p, err e)
returning (p, ok _) = (p, ok (results p))

unfoldable pub parse_results :
    Setting
    → Operation
    → Erc7562Call
    → StakeResult
    → Parser
    → Parser × Result Fault Erc7562ValidationResults
unfolding parse
parse_results s op root v p = returning (parse s op root v p)

abbrev pub set_bail : Bool → Parser → Parser
set_bail b p = record p { bail_on_violation = b }

abbrev pub stop_bailing :
    Parser × Result Fault Erc7562ValidationResults → Parser × Result Fault Erc7562ValidationResults
stop_bailing (p, err e) = (p, err e)
stop_bailing (p, ok r) = (set_bail false p, ok r)

-- The flag is cleared again only if nothing is thrown.
unfoldable pub require_compliance :
    Setting
    → Operation
    → Erc7562Call
    → StakeResult
    → Parser
    → Parser × Result Fault Erc7562ValidationResults
unfolding parse_results
require_compliance s op root v p = stop_bailing (parse_results s op root v (set_bail true p))

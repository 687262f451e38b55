-- ===== src/Tracer/Entity.antt =====
-- `processEntityCall` and `tracerResultParser` of packages/validation-manager/src/TracerResultParser.ts.
use bundler.Common.{
  ℕ, ◌+◌, ◌==◌, leb, Bool, true, false, ◌&&◌, ◌||◌, not, Option, none, some, List, [], ◌∷◌, ◌++◌,
  map, if◌then◌else◌, Result, ok, err, ◌>>=◌, ◌>>◌,
}
use bundler.Common.Text.{Text, codes, same, to_lower}
use bundler.Common.Dict.{Dict, get, put, keys}
use bundler.Types.{Operation, StakeInfo, StorageMap, slots}
use bundler.Reputation.{has}
use bundler.Deposit.{address_zero}
use bundler.Erc7562.{Setting}
use bundler.Erc7562.Slots.{associated_with}
use bundler.Tracer.{
  AccessInfo, ContractSizeInfo, CallInfo, TracedCall, info_calls, TracedCalls, no_calls, and_call,
  info_of, BundlerTracerResult, BrokenRule, no_calls_from_entry_point, reverts_on_oog,
  uses_banned_create, uses_banned_create2, uses_banned_opcode, unstaked_opcode,
  create_from_inner_call, forbidden_slot, unstaked_slot, no_stake_info, accesses_undeployed,
  accesses_entry_point_code, Check, require, for_each, tracer_banned_op_codes, staked_op_codes,
  is_staked, is_lower, is_text, check_call_stack, stake_info_entities, stake_in, parse_slots,
  get_entity_title, name_addr,
}

-- What does not change while an entity's calls are processed.
pub record Entity : Type 0 where
  pub op : Operation
  pub address : Text
  pub title : Text
  pub stake : Option StakeInfo
  pub entities : Dict (Option StakeInfo)
  pub entity_slots : Dict (List Text)

module _ (s : Setting) (x : Entity) where
  unfoldable pub check_opcode : Text → Check
  unfolding has
  check_opcode opcode =
      require (not (has opcode tracer_banned_op_codes)) (uses_banned_opcode x.title opcode)
      >> require (not (has opcode staked_op_codes) || is_staked x.stake)
          (unstaked_opcode x.title opcode)

  abbrev is_account : Bool
  is_account = same x.title (codes "account")

  abbrev is_factory : Bool
  is_factory = same x.title (codes "factory")

  abbrev has_factory : Bool
  has_factory = elim x.op.factory [ none ↦ false | some factory ↦ true ]

  abbrev factory_stake : Option StakeInfo
  factory_stake = elim x.op.factory [
    | none ↦ stake_in x.entities []
    | some factory ↦ stake_in x.entities (to_lower factory)
  ]

  unfoldable pub check_create : CallInfo → ℕ → Check
  check_create f depth =
      if is_text f.call_type (codes "CREATE")
      then (require (depth == 1) (create_from_inner_call x.title depth)
          >> require ((is_account && has_factory) || (is_factory && is_staked x.stake))
              (uses_banned_create x.title))
      else ok tt

  abbrev is_same : Option Text → Option Text → Bool
  is_same none none = true
  is_same (some t) (some u) = same t u
  is_same _ _ = false

  -- The addresses are compared as they are written.
  unfoldable pub check_create2 : CallInfo → Check
  unfolding get to_lower
  check_create2 f =
      if is_text f.call_type (codes "CREATE2")
      then require
          ((is_account && is_staked factory_stake && is_text f.from (to_lower x.op.sender))
            || (is_factory
                && (is_text f.to (to_lower x.op.sender)
                    || (is_same f.from x.op.factory && is_staked x.stake))))
          (uses_banned_create2 x.title)
      else ok tt

  -- What is done about a slot: nothing, a stake is asked for, or it is forbidden.
  pub data SlotRule : Type 0 where
    free needs_stake forbidden : SlotRule

  abbrev is_created : Bool
  is_created = elim x.op.factory [ none ↦ false | some factory ↦ not (same factory address_zero) ]

  unfoldable pub slot_rule : Text → AccessInfo → Text → SlotRule
  unfolding associated_with has get to_lower
  slot_rule addr a slot =
      if associated_with s slot (to_lower x.op.sender) x.entity_slots
      then (if is_created
            && not (same (to_lower x.address) (to_lower x.op.sender) && is_staked factory_stake)
          then needs_stake
          else free)
      else if associated_with s slot x.address x.entity_slots
          || same (to_lower addr) (to_lower x.address)
          || (not (has slot a.writes) && not (has slot a.transient_writes))
      then needs_stake
      else forbidden

  -- The last slot that asks for a stake, after `found`.
  unfoldable pub scan_slots :
      Text → AccessInfo → List Text → Option Text → Result BrokenRule (Option Text)
  unfolding slot_rule name_addr
  scan_slots addr a [] found = ok found
  scan_slots addr a (slot ∷ rest) found = elim (slot_rule addr a slot) [
    | free ↦ scan_slots addr a rest found
    | needs_stake ↦ scan_slots addr a rest (some slot)
    | forbidden ↦ err (forbidden_slot x.title (name_addr addr x.entities) slot)
  ]

  abbrev require_cond_and_stake : Text → Option Text → Check
  require_cond_and_stake addr none = ok tt
  require_cond_and_stake addr (some slot) = elim x.stake [
    | none ↦ err (no_stake_info x.title)
    | some info ↦
        require (is_staked (some info)) (unstaked_slot x.title (name_addr addr x.entities) slot)
  ]

  abbrev accessed : AccessInfo → List Text
  accessed a = a.writes ++ (keys a.reads ++ (a.transient_writes ++ a.transient_reads))

  unfoldable pub check_accesses : Text × AccessInfo → Check
  unfolding scan_slots
  check_accesses (addr, a) =
      if same (to_lower addr) (to_lower x.op.sender)
        || same (to_lower addr) (to_lower s.entry_point_address)
      then ok tt
      else (scan_slots addr a (accessed a) none >>= require_cond_and_stake addr)

  unfoldable pub check_contract_size : Text × ContractSizeInfo → Check
  unfolding to_lower
  check_contract_size (addr, size) =
      require
        (same (to_lower addr) (to_lower x.op.sender)
          || same (to_lower addr) (to_lower s.entry_point_address)
          || not (leb size.contract_size 2))
        (accesses_undeployed x.title addr)

  unfoldable pub check_ext_code : Text × Text → Check
  unfolding to_lower
  check_ext_code (addr, opcode) =
      require (not (same (to_lower addr) (to_lower s.entry_point_address)))
        (accesses_entry_point_code x.title opcode)

  -- The rules on one call.
  unfoldable pub check_info : CallInfo → ℕ → Check
  unfolding check_opcode check_create check_create2 check_accesses check_contract_size
      check_ext_code for_each
  check_info f depth =
      require (not f.oog) (reverts_on_oog x.title)
      >> for_each check_opcode f.opcodes
      >> check_create f depth
      >> check_create2 f
      >> for_each check_accesses f.access
      >> for_each check_contract_size f.contract_size
      >> for_each check_ext_code f.ext_code_access_info

  unfoldable mutual
    unfolding check_info

    pub process_entity_call : TracedCall → ℕ → Check
    process_entity_call (info_calls f calls) depth =
        check_info f depth >> process_calls calls (depth + 1)

    pub process_calls : TracedCalls → ℕ → Check
    process_calls no_calls depth = ok tt
    process_calls (and_call c calls) depth =
        process_entity_call c depth >> process_calls calls depth

-- The top-level calls of one entity.
abbrev pub is_of : Text → TracedCall → Bool
is_of address c = is_lower (info_of c).top_level_target_address address

unfoldable pub process_top : Setting → Entity → List TracedCall → Check
unfolding process_entity_call to_lower
process_top s x [] = ok tt
process_top s x (c ∷ calls) =
    (if is_of x.address c then process_entity_call s x c 0 else ok tt) >> process_top s x calls

abbrev pub entity_for :
    Operation → Dict (Option StakeInfo) → Dict (List Text) → Text → Option StakeInfo → Text → Entity
entity_for op entities entity_slots address stake title = record {
  op = op;
  address = address;
  title = title;
  stake = stake;
  entities = entities;
  entity_slots = entity_slots;
}

unfoldable pub process_entities :
    Setting
    → Operation
    → Dict (Option StakeInfo)
    → Dict (List Text)
    → List TracedCall
    → Dict (Option StakeInfo)
    → Check
unfolding get_entity_title process_top
process_entities s op entities entity_slots calls [] = ok tt
process_entities s op entities entity_slots calls ((address, stake) ∷ rest) =
    get_entity_title op address >>= λ title.
    process_top s (entity_for op entities entity_slots address stake title) calls
    >> process_entities s op entities entity_slots calls rest

abbrev touched_by : Dict AccessInfo → StorageMap → StorageMap
touched_by [] map = map
touched_by ((addr, a) ∷ rest) map = elim (get addr map) [
  | none ↦ touched_by rest (put addr (slots a.reads) map)
  | some known ↦ touched_by rest map
]

unfoldable pub storage_map_of : List TracedCall → StorageMap → StorageMap
unfolding get put
storage_map_of [] map = map
storage_map_of (c ∷ calls) map = storage_map_of calls (touched_by (info_of c).access map)

abbrev pub contracts_of : List TracedCall → List Text
contracts_of [] = []
contracts_of (c ∷ calls) = keys (info_of c).contract_size ++ contracts_of calls

-- There must be a call from the entry point.
unfoldable pub parse_calls :
    Setting
    → Operation
    → BundlerTracerResult
    → Dict (Option StakeInfo)
    → List TracedCall
    → Result BrokenRule (List Text × StorageMap)
unfolding check_call_stack parse_slots process_entities storage_map_of
parse_calls s op r entities [] = err no_calls_from_entry_point
parse_calls s op r entities (c ∷ calls) =
    check_call_stack s.entry_point_address r.calls
    >> process_entities s op entities (parse_slots s entities r.keccak []) (c ∷ calls) entities
    >> ok (contracts_of (c ∷ calls), storage_map_of (c ∷ calls) [])

-- The stakes are those of the validation's result.
unfoldable pub tracer_result_parser :
    Setting
    → Operation
    → BundlerTracerResult
    → StakeInfo
    → Option StakeInfo
    → Option StakeInfo
    → Result BrokenRule (List Text × StorageMap)
unfolding parse_calls stake_info_entities
tracer_result_parser s op r sender factory paymaster =
    parse_calls s op r (stake_info_entities op sender factory paymaster) r.calls_from_entry_point

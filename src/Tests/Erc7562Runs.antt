-- ===== src/Tests/Erc7562Runs.antt =====
-- The parser of traces at a small trace: the entry point calls the sender, which reads a slot of its
-- own and calls a token.
use bundler.Common.{
  ℕ, ◌+◌, ◌≡◌, ◌||◌, refl, true, false, Bool, none, some, Option, ok, err, Result, List, [], ◌∷◌,
  length, ◌>>=◌,
}
use bundler.Common.Text.{Text, codes, same, to_lower}
use bundler.Types.{slots, opcode_validation}
use bundler.Deposit.{address_zero}
use bundler.Erc7562.{
  Erc7562Call, frame_calls, Calls, no_calls, and_call, Frame, Setting, Parser, StakeResult,
  no_entity, call, Erc7562ValidationResults, Fault, violation_error, uses_banned_opcode,
  account_entity,
}
use bundler.Erc7562.Actions.{◌>>◌, each}
use bundler.Erc7562.Slots.{associated_with, parse_entity_slots}
use bundler.Erc7562.Walk.{parse_results, require_compliance, set_bail}
use bundler.Erc7562.Bail.{first_fault, require_compliance-first, parse_results-after_throw}
use bundler.Erc7562.Association.{any_hashes_near, associated_with-hashes_near}
use bundler.Erc7562.Compliance.{complies, addresses}
use bundler.Erc7562.Visits.{require_compliance-complies}
use bundler.Tests.Samples.{alice, staked, alice_op}

abbrev pub entry_point : Text
entry_point = codes "0xee"

abbrev pub token : Text
token = codes "0xd4"

-- A hash adds a digit, padding does nothing, and a text is the number of its digits.
abbrev pub setting : Setting
setting = record {
  entry_point_address = entry_point;
  sender_creator_address = codes "0x5c";
  nonce_manager_address = none;
  keccak256 = λ input. 49 ∷ input;
  hex_zero_pad = λ address. address;
  slot_number = λ slot. length slot;
  parse_int = λ text. none;
  function_name = λ selector. none;
}

abbrev pub frame_from : Text → Text → List ℕ → List Text → Frame
frame_from sender target opcodes reads = record {
  accessed_slots = record {
    reads = reads;
    writes = [];
    transient_reads = [];
    transient_writes = [];
  };
  contract_size = [];
  ext_code_access_info = [];
  from = sender;
  to = target;
  input = none;
  output = none;
  out_of_gas = false;
  frame_type = call;
  used_opcodes = opcodes;
  value = none;
  keccak = [];
}

abbrev trace_of : List ℕ → Erc7562Call
trace_of opcodes = frame_calls (frame_from address_zero entry_point [] []) (
    and_call
      (frame_calls (frame_from entry_point alice [] (codes "7" ∷ []))
        (and_call (frame_calls (frame_from alice token opcodes []) no_calls) no_calls))
      no_calls)

abbrev stakes : StakeResult
stakes = record {
  sender_info = staked alice;
  factory_info = none;
  paymaster_info = none;
  paymaster_context = none;
}

abbrev pub fresh_parser : Parser
fresh_parser = record {
  keccak = [];
  rule_violations = [];
  current_entity = no_entity;
  current_entity_address = [];
  contract_addresses = [];
  storage_map = [];
  bail_on_violation = false;
}

-- What a run of the parser computes with.
parser_code : Unit {0}
unfolding require_compliance parse_results bundler.Common.Text.text_dec ◌>>◌
    bundler.Erc7562.Actions.report
parser_code = tt

-- With an ADD in the token, then with a TIMESTAMP.
abbrev good_run : Parser × Result Fault Erc7562ValidationResults
good_run = require_compliance setting alice_op (trace_of (1 ∷ [])) stakes fresh_parser

abbrev bad_run : Parser × Result Fault Erc7562ValidationResults
bad_run = require_compliance setting alice_op (trace_of (66 ∷ [])) stakes fresh_parser

abbrev good_results : Erc7562ValidationResults
good_results = record {
  storage_map = (alice, slots ((codes "7", []) ∷ [])) ∷ [];
  rule_violations = [];
  contract_addresses = entry_point ∷ alice ∷ token ∷ [];
}

abbrev bad_fault : Fault
bad_fault =
    violation_error (uses_banned_opcode account_entity (codes "TIMESTAMP")) opcode_validation

good_run-ok : good_run.1 ≡ ok good_results
unfolding parser_code
good_run-ok = refl

bad_run-err : bad_run.1 ≡ err bad_fault
unfolding parser_code
bad_run-err = refl

require_compliance-first_example :
    bad_run.1
    ≡ first_fault
        (parse_results setting alice_op (trace_of (66 ∷ [])) stakes (set_bail false fresh_parser))
require_compliance-first_example =
    require_compliance-first setting alice_op (trace_of (66 ∷ [])) stakes fresh_parser

parse_results-after_throw_example :
    (parse_results setting alice_op (trace_of (1 ∷ [])) stakes bad_run.0).1
    ≡ first_fault
        (parse_results setting alice_op (trace_of (1 ∷ [])) stakes (set_bail false bad_run.0))
parse_results-after_throw_example =
    parse_results-after_throw setting alice_op alice_op (trace_of (66 ∷ [])) (trace_of (1 ∷ []))
      stakes stakes fresh_parser bad_fault bad_run-err

require_compliance-complies_example :
    (complies setting alice_op (trace_of (1 ∷ [])) ≡ true)
    × (good_results.rule_violations ≡ [])
    × (good_results.contract_addresses ≡ addresses setting (trace_of (1 ∷ [])))
require_compliance-complies_example =
    require_compliance-complies setting alice_op (trace_of (1 ∷ [])) stakes fresh_parser
      good_results good_run-ok

associated_with-hashes_near_example :
    associated_with setting (49 ∷ alice) alice (parse_entity_slots setting alice_op (alice ∷ []))
    ≡ (same (49 ∷ alice) (to_lower alice)
        || any_hashes_near setting (49 ∷ alice) alice (alice ∷ []))
unfolding parser_code
associated_with-hashes_near_example =
    associated_with-hashes_near setting alice_op (alice ∷ []) (49 ∷ alice) alice refl

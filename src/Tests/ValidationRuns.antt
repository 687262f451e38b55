-- ===== src/Tests/ValidationRuns.antt =====
-- ValidationManager on a small node: two deposits, one trace and one hash of all code.
use bundler.Common.{
  ℕ, ◌+◌, ◌<◌, ◌≡◌, refl, true, false, Bool, none, some, Option, ok, err, Result, List, [], ◌∷◌,
  length, ◌>>=◌, ◌>>◌, arith, ◌++◌,
}
use bundler.Common.Text.{Text, codes, same, to_lower}
use bundler.Types.{StorageMap, slots, Operation, ReferencedCodeHashes, ValidationResult}
use bundler.Utils.{get_authorization_list}
use bundler.Deposit.{address_zero}
use bundler.Erc7562.{Erc7562Call, frame_calls, Calls, no_calls, and_call, Frame, Parser}
use bundler.Erc7562.Compliance.{addresses}
use bundler.Validation.{Failure, Node, Library}
use bundler.Validation.Manager.{ValidationManager, validate_user_op}
use bundler.Validation.Laws.{IsAuthorized, validate_user_op-IsAuthorized}
use bundler.Validation.Timely.{IsTimely, validate_user_op-in_time}
use bundler.Validation.Compliant.{IsTraced, validate_user_op-IsTraced, validate_user_op-unchanged}
use bundler.Tests.Samples.{alice, alice_op, staked, no_contracts}
use bundler.Tests.Erc7562Runs.{entry_point, setting, frame_from, fresh_parser, token}

abbrev trace : Erc7562Call
trace =
    frame_calls (record (frame_from address_zero entry_point [] []) { output = some (codes "0x") })
      (and_call
        (frame_calls
          (record (frame_from entry_point alice [] (codes "7" ∷ [])) {
            input = some (codes "0x19822f7c00");
            output = some (codes "0x00");
          })
          (and_call (frame_calls (frame_from alice token (1 ∷ []) []) no_calls) no_calls))
        (and_call
          (frame_calls
            (record (frame_from entry_point entry_point [] []) {
              input = some (codes "0x0042dc5300");
            })
            no_calls)
          no_calls))

abbrev pub node : Node
node = record {
  deposit_info = λ address. ok (6, 8);
  chain_id = ok 1;
  code_hash = λ contracts. ok (codes "c0de");
  call_handle_ops = λ op. ok tt;
  trace_handle_ops = λ op. ok trace;
  now = 1000;
}

abbrev pub library : Library
library = record {
  validate_user_op = codes "0x19822f7c";
  validate_paymaster_user_op = codes "0x52b7512c";
  inner_handle_op = codes "0x0042dc53";
  data_number = λ bytes. 0;
  decode_paymaster_output = λ bytes. ok ([], []);
  decode_inner_handle_op = λ bytes. ok (60, 160);
  decode_revert_reason = λ bytes. codes "Error(AA90 invalid beneficiary)";
  decode_thrown_reason = λ e. none;
  decode_string = λ bytes. bytes;
  decode_failed_op = λ bytes. bytes;
  signer_of = λ authorization. alice;
}

abbrev pub manager : ValidationManager
manager = record {
  node = node;
  lib = library;
  unsafe = false;
  setting = setting;
  is_pre_verification_gas_valid = λ op used. true;
}

-- An operation that delegates the sender's account.
abbrev pub delegating_op : Operation
delegating_op = record alice_op {
  eip7702_auth =
      some (record { chain_id = 1; address = token; nonce = 0; y_parity = 0; r = 1; s = 1 });
}

-- What a run of the manager computes with.
manager_code : Unit {0}
unfolding validate_user_op bundler.Common.Text.text_dec bundler.Erc7562.Actions.◌>>◌
    bundler.Erc7562.Actions.report bundler.Utils.get_authorization_list
manager_code = tt

abbrev run : Parser × Result Failure ValidationResult
run = validate_user_op manager delegating_op none fresh_parser

abbrev hashes : ReferencedCodeHashes
hashes = record { addresses = entry_point ∷ alice ∷ token ∷ []; hash = codes "c0de" }

abbrev again : Parser × Result Failure ValidationResult
again = validate_user_op manager delegating_op (some hashes) fresh_parser

abbrev given : ReferencedCodeHashes → StorageMap → ValidationResult
given contracts touched = record {
  return_info = record {
    pre_op_gas = 60;
    prefund = some 160;
    sig_failed = false;
    valid_after = 0;
    valid_until = 281474976710655;
  };
  sender_info = staked alice;
  factory_info = none;
  paymaster_info = none;
  aggregator_info = none;
  referenced_contracts = contracts;
  storage_map = touched;
}

abbrev touched : StorageMap
touched = (alice, slots ((codes "7", []) ∷ [])) ∷ []

run-ok : run.1 ≡ ok (given hashes touched)
unfolding manager_code
run-ok = refl

again-ok : again.1 ≡ ok (given no_contracts touched)
unfolding manager_code
again-ok = refl

validate_user_op-in_time_example :
    (root : Erc7562Call) × (node.trace_handle_ops delegating_op ≡ ok root)
    × IsTimely library 1000 delegating_op root
validate_user_op-in_time_example =
    validate_user_op-in_time manager delegating_op none fresh_parser (given hashes touched) refl
      run-ok

validate_user_op-IsAuthorized_example :
    IsAuthorized manager delegating_op (get_authorization_list delegating_op)
validate_user_op-IsAuthorized_example =
    validate_user_op-IsAuthorized manager delegating_op none fresh_parser (given hashes touched)
      run-ok

validate_user_op-IsTraced_example : IsTraced manager delegating_op hashes
validate_user_op-IsTraced_example =
    validate_user_op-IsTraced manager delegating_op fresh_parser (given hashes touched) refl run-ok

validate_user_op-unchanged_example :
    (root : Erc7562Call) × (node.trace_handle_ops delegating_op ≡ ok root)
    × (node.code_hash (addresses setting root) ≡ node.code_hash (addresses setting root))
validate_user_op-unchanged_example =
    validate_user_op-unchanged manager manager delegating_op fresh_parser fresh_parser
      (given hashes touched) (given no_contracts touched) refl run-ok again-ok (ground arith)

-- A payer's operation with a factory: the creation, the two validations and the rest.
abbrev created_op : Operation
created_op = record alice_op { factory = some token; paymaster = some entry_point }

abbrev plain_call : Text → Erc7562Call
plain_call target = frame_calls (frame_from entry_point target [] []) no_calls

-- ===== src/Tests/ExecutionRuns.antt =====
-- ExecutionManager, BundleManagerRIP7560, the gas calculator and the packed numbers at concrete inputs.
use bundler.Common.{
  ℕ, ◌≡◌, ◌+◌, ◌-◌, ◌*◌, ◌/◌, max, ◌++◌, refl, true, false, none, some, ok, List, [], ◌∷◌, map, leb,
  arith,
}
use bundler.Common.Text.{Text, codes, text_dec}
use bundler.Common.{All}
use bundler.Common.Text.{to_lower}
use bundler.Common.Dict.{Dict}
use bundler.InputCheck.{
  HasHex, required_fields, validate_input_parameters, validate_input_parameters-HasHex,
}
use bundler.Execution.{Managers, Execution, send_user_operation}
use bundler.Bundle.Loop.{no_limits, create_bundle}
use bundler.Rip7560
use bundler.Rip7560.{
  BuilderNode, Sent, compute_bundle_hash, send_next_bundle, send_next_bundle-records_twice,
}
use bundler.GasCalculator.{mainnet_config, Numbers, Config, GasOptions, GasOperation}
use bundler.ValidationData.{ValidationData}
use bundler.Tests.Samples.{valid, alice_op, pending_state}
use bundler.Tests.BundleRuns.{node, settings, made, made_ok}

-- The others' state is the number of pending operations.
abbrev counting : Managers ℕ Text
counting = record {
  validate_input_parameters = λ op entry st. (st, ok tt);
  validate_user_op = λ op st. (st, ok (valid op.sender));
  get_operation_hash = λ op st. (st, ok (codes "h"));
  check_paymaster_deposit = λ op st. (st, ok tt);
  add_user_op = λ skip op hash v st. (st + 1, ok tt);
  count = λ st. st;
  send_next_bundle = λ st. (0, ok (some (codes "0x77")));
  handle_past_events = λ st. (st, ok tt);
  clear_cache = λ st. st;
  send_wei = λ st. (st, ok (codes "0x88"));
  mined = λ hash i. leb 3 i;
  empty_validation = valid [];
}

abbrev batching : Execution
batching = record {
  reputation_cron = none;
  auto_bundle_interval = none;
  max_mempool_size = 5;
  auto_interval = 0;
  rip7560 = false;
  use_rip7560_mode = none;
  geth_dev_mode = false;
}

sent_ok : (send_user_operation counting batching alice_op (codes "0xe7") false 1).1 ≡ ok tt
unfolding send_user_operation
sent_ok = refl

abbrev builder : BuilderNode
builder = record {
  has_status = λ h. ok true;
  transaction_hash = λ op. op.sender;
  hash_of_list = λ hs. codes "0x99";
  send_bundle = λ ops. ok (codes "0x77");
}

abbrev nothing_sent : Sent
nothing_sent = record { managers = pending_state; sent_bundles = [] }

handled_ok : (Rip7560.handle_past_events builder nothing_sent).1 ≡ ok tt
unfolding Rip7560.handle_past_events
handled_ok = refl

still_made :
    (create_bundle node settings no_limits
      (Rip7560.handle_past_events builder nothing_sent).0.managers).1
    ≡ ok made
unfolding Rip7560.handle_past_events
still_made = made_ok

send_next_bundle-records_twice_example :
    let hashes = map builder.transaction_hash made.bundle in
    let (sent, outcome) = send_next_bundle builder node settings no_limits nothing_sent in
    (outcome ≡ ok (some (codes "0x77")))
    × (sent.sent_bundles
        ≡ (Rip7560.handle_past_events builder nothing_sent).0.sent_bundles
          ++ record {
            transaction_hash = compute_bundle_hash builder made.bundle;
            user_op_hashes = hashes;
          }
            ∷ record { transaction_hash = codes "0x77"; user_op_hashes = hashes }
            ∷ [])
unfolding create_bundle text_dec
send_next_bundle-records_twice_example =
    send_next_bundle-records_twice builder node settings no_limits nothing_sent made (codes "0x77")
      handled_ok still_made refl refl

-- Natural numbers in place of doubles.
abbrev naturals : Numbers ℕ
naturals = record {
  of_nat = λ n. n;
  add = λ a b. a + b;
  sub = λ a b. a - b;
  mul = λ a b. a * b;
  div = λ a b. a / b;
  max = λ a b. max a b;
  round = λ a. a;
  ceil = λ a. a;
  le = λ a b. leb a b;
}

abbrev mainnet : Config ℕ
mainnet = mainnet_config naturals

abbrev bare_op : GasOperation
bare_op = record {
  call_data = 0 ∷ 1 ∷ [];
  has_auth = false;
  call_gas_limit = some 100;
  paymaster_post_op_gas_limit = none;
  pre_verification_gas = none;
  signature = none;
  paymaster_data = none;
}

abbrev no_options : GasOptions ℕ
no_options = record { verification_gas_used = none; total_gas_used = none }

abbrev encode : GasOperation → List ℕ
encode op = op.call_data

leb_refl : (n : ℕ) → leb n n ≡ true
leb_refl n = ground arith

abbrev until_nine : ValidationData
until_nine = record { aggregator = 1; valid_after = 3; valid_until = 9 }

abbrev input : Dict Text
input =
    (codes "sender", codes "0xA1")
    ∷ (codes "nonce", codes "0x01")
    ∷ (codes "callData", codes "0x")
    ∷ []

input_ok :
    validate_input_parameters
      (λ op. true)
      (codes "0xe7")
      (some input)
      (some (codes "0xE7"))
      false
      false
    ≡ ok tt
unfolding validate_input_parameters text_dec
input_ok = refl

validate_input_parameters-HasHex_example :
    (to_lower (codes "0xE7") ≡ to_lower (codes "0xe7"))
    × All (HasHex input) (required_fields false false)
validate_input_parameters-HasHex_example =
    validate_input_parameters-HasHex (λ op. true) (codes "0xe7") (codes "0xE7") input false false
      input_ok

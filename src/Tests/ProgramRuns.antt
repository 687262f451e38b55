-- ===== src/Tests/ProgramRuns.antt =====
-- An operation that is sent through all managers of the program.
use bundler.Common.{true, false, none, ok, [], ◌∷◌}
use bundler.Common.Text.{Text, codes, text_dec}
use bundler.Common.Dict.{Dict}
use bundler.Types.{type_error}
use bundler.Events.{events}
use bundler.Execution.{Execution, send_user_operation}
use bundler.Execution.Program.{World, Services, program_managers}
use bundler.Tests.Samples.{exact, valid, idle_state}
use bundler.Tests.BundleRuns.{node, settings}
use bundler.Tests.Erc7562Runs.{entry_point, fresh_parser}
use bundler.Tests.ValidationRuns.{manager}

abbrev sent_fields : Dict Text
sent_fields =
    (codes "sender", codes "0xa1")
    ∷ (codes "nonce", codes "0x01")
    ∷ (codes "callData", codes "0x")
    ∷ (codes "signature", codes "0x")
    ∷ (codes "preVerificationGas", codes "0x0a")
    ∷ (codes "verificationGasLimit", codes "0x32")
    ∷ (codes "callGasLimit", codes "0x64")
    ∷ (codes "maxFeePerGas", codes "0x64")
    ∷ (codes "maxPriorityFeePerGas", codes "0x64")
    ∷ []

abbrev services : Services
services = record {
  fields = λ op. sent_fields;
  gas_valid = λ op. true;
  entry_point = entry_point;
  validation = manager;
  hash_of = λ op. ok (codes "h1");
  balance_of = λ a. ok 90000;
  doubles = exact;
  node = node;
  settings = settings;
  signer_balance = λ a. ok 100;
  signer = codes "0x51";
  block_number = 80;
  query = λ from. events [];
  send_wei = ok (codes "0x88");
  mined = λ hash i. true;
  input_error = λ e. type_error;
  failure = λ e. type_error;
  message_error = λ e. type_error;
  empty_validation = valid [];
}

abbrev world : World
world = record {
  events = record {
    last_block = none;
    event_aggregator = none;
    event_aggregator_tx_hash = none;
    managers = idle_state;
  };
  deposits = [];
  parser = fresh_parser;
}

abbrev collecting : Execution
collecting = record {
  reputation_cron = none;
  auto_bundle_interval = none;
  max_mempool_size = 5;
  auto_interval = 0;
  rip7560 = false;
  use_rip7560_mode = none;
  geth_dev_mode = false;
}

-- What a run of the program computes with.
program_code : Unit {0}
unfolding mathlib.Core.List.filter_map send_user_operation program_managers text_dec
    bundler.Erc7562.Actions.◌>>◌ bundler.Erc7562.Actions.report bundler.Utils.get_authorization_list
program_code = tt

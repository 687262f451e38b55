-- ===== src/Tests/RpcRuns.antt =====
-- The RPC server with handlers that count, the filter of logs, and an operation that is packed.
use bundler.Common.{
  ◌*◌, ◌^◌, ℕ, ◌+◌, ◌<◌, ◌≡◌, refl, true, false, Bool, none, some, Option, ok, err, Result, List,
  [], ◌∷◌, map, arith, ◌⊎◌, inl, inr, ◌++◌,
}
use bundler.Common.Text.{Text, codes}
use bundler.Rpc.Logs.{Log, Topics, kind_of, IsPassed, filter_logs, filter_logs-between}
use bundler.Rpc.Server.{
  Handlers, RpcFailure, thrown, Request, handle_rpc_public, handle_rpc_private, handle_batch,
}
use bundler.Rpc.Answers.{tag_of, asked, handle_batch-answers}
use bundler.PackedOperation.{
  UserOperation, PackedUserOperation, pack_user_op, unpack_user_op, marker, padded_marker,
}
use bundler.InputCheck.{is_hex}
use bundler.PackedOperation.Bytes.{to_bytes}
use bundler.Rpc.Handler.{
  BundlerConfig, UserOperationEvent, UserOperationByHashResponse, get_user_operation_by_hash,
}
use bundler.Rpc.Lookup.{get_user_operation_by_hash-packed}
use bundler.PackedOperation.RoundTrip.{HasFactory, HasPaymaster, unpack_user_op-pack_user_op}

abbrev log_with : List Text → Log
log_with topics = record { topics = topics; bytes = [] }

abbrev topics : Topics
topics = record {
  before_execution = codes "before";
  user_operation_event = codes "event";
  user_op_hash = codes "mine";
}

-- Code that the runs compute with.
rpc_code : Unit {0}
unfolding bundler.Common.Text.text_dec kind_of filter_logs handle_rpc_public
rpc_code = tt

abbrev first_logs : List Log
first_logs = log_with (codes "transfer" ∷ []) ∷ log_with (codes "event" ∷ codes "other" ∷ []) ∷ []

passed : bundler.Common.All (IsPassed topics) first_logs
unfolding rpc_code IsPassed
passed = (inl refl, (inr refl, tt))

-- The only log of the second operation is after the two of the first.
filter_logs-between_example :
    filter_logs topics (
      log_with (codes "before" ∷ [])
      ∷ (first_logs ++ log_with (codes "event" ∷ codes "mine" ∷ []) ∷ []))
    ≡ ok first_logs
unfolding rpc_code
filter_logs-between_example =
    filter_logs-between topics [] first_logs [] (log_with (codes "before" ∷ []))
      (log_with (codes "event" ∷ codes "mine" ∷ [])) refl refl passed tt

abbrev broken : RpcFailure Text
broken = record { message = codes "broken"; body = none; code = none }

-- Each call that changes state counts; estimates throw.
abbrev counting : Handlers ℕ Text
counting = record {
  rip7560 = true;
  has_sender = λ param. ok true;
  get_rip7560_bundle = λ param n. (n + 1, ok (codes "bundle"));
  send_rip7560_transaction = λ param skip n. (n + 1, ok (codes "hash"));
  get_rip7560_transaction_receipt = λ param n. (n, ok (codes "receipt"));
  provider_debug_info = λ param n. (n, ok (codes "info"));
  chain_id = λ n. (n, ok (codes "1"));
  get_supported_entry_points = λ n. (n, ok (codes "entry"));
  send_user_operation = λ op entry n. (n + 1, ok (codes "hash"));
  estimate_user_operation_gas = λ op entry override n. (n, err (thrown broken));
  get_user_operation_receipt = λ hash n. (n, ok (codes "receipt"));
  get_user_operation_by_hash = λ hash n. (n, ok (codes "op"));
  client_version = codes "aa-bundler";
  clear_state = λ n. 0;
  dump_mempool = λ n. (n, ok []);
  clear_mempool = λ n. 0;
  set_reputation = λ param n. (n, ok []);
  dump_reputation = λ n. (n, ok []);
  clear_reputation = λ n. n;
  set_bundling_mode = λ mode n. (n, ok []);
  set_bundle_interval = λ interval size n. (n, ok []);
  send_bundle_now = λ n. (n + 1, ok (codes "sent"));
  get_stake_status = λ address entry n. (n, ok []);
  set_configuration = λ config n. (n, ok []);
  set_calculator = λ calculator n. n;
  is_nullish = λ value. false;
  deep_hexlify = λ value. ok value;
  type_error = broken;
  undefined = [];
  empty_text = [];
  ok_result = codes "ok";
  empty_object = codes "{}";
  with_valid_for_block = λ bundle. bundle;
}

abbrev request : Text → Text → Request Text
request method id = record {
  method = method;
  params = some (codes "op" ∷ codes "entry" ∷ []);
  jsonrpc = codes "2.0";
  id = id;
}

abbrev batch : List (Request Text)
batch =
    request (codes "eth_estimateUserOperationGas") (codes "1")
    ∷ request (codes "eth_sendUserOperation") (codes "2")
    ∷ request (codes "aa_getRip7560Bundle") (codes "3")
    ∷ []

-- The first request throws, the second is served, the third is refused.
batch-state : (handle_batch (handle_rpc_public counting) 0 batch).0 ≡ 1
unfolding rpc_code handle_batch
batch-state = refl

handle_batch-answers_example :
    (map tag_of (handle_batch (handle_rpc_public counting) 0 batch).1 ≡ map asked batch)
    × (map tag_of (handle_batch (handle_rpc_private counting) 0 batch).1 ≡ map asked batch)
handle_batch-answers_example = handle_batch-answers counting 0 batch

abbrev sending : Request Text
sending = request (codes "eth_sendUserOperation") (codes "2")

-- An EIP-7702 account with an authorization and a paymaster.
abbrev full_op : UserOperation
full_op = record {
  sender = codes "0xa1";
  nonce = 7;
  factory = some marker;
  factory_data = some (1 ∷ 2 ∷ []);
  call_data = 3 ∷ [];
  call_gas_limit = 100;
  verification_gas_limit = 50;
  pre_verification_gas = 10;
  max_fee_per_gas = 9;
  max_priority_fee_per_gas = 8;
  paymaster = some padded_marker;
  paymaster_verification_gas_limit = some 30;
  paymaster_post_op_gas_limit = some 20;
  paymaster_data = some (4 ∷ []);
  signature = 5 ∷ [];
  eip7702_auth =
      some
        (record { chain_id = 1; address = codes "0xde"; nonce = 2; y_parity = 0; r = 11; s = 12 });
}

full_op-HasFactory : HasFactory full_op
unfolding HasFactory bundler.Common.Text.text_dec
full_op-HasFactory = inr (marker, 1 ∷ 2 ∷ [], refl, refl, refl)

full_op-HasPaymaster : HasPaymaster full_op
unfolding HasPaymaster
full_op-HasPaymaster =
    inr (padded_marker, 30, 20, 4 ∷ [], refl, refl, refl, refl, refl, ground arith, ground arith)

unpack_user_op-pack_user_op_example :
    (packed : PackedUserOperation) × (pack_user_op full_op ≡ ok packed)
    × (unpack_user_op packed
        ≡ ok (record full_op { factory = some padded_marker; eip7702_auth = none }))
unfolding bundler.Common.Text.text_dec
unpack_user_op-pack_user_op_example =
    unpack_user_op-pack_user_op full_op full_op-HasFactory full_op-HasPaymaster (ground arith)
      (ground arith) (ground arith) (ground arith)

-- What `full_op` is packed to, and a transaction with it alone.
abbrev packed_op : PackedUserOperation
packed_op = record {
  sender = codes "0xa1";
  nonce = 7;
  init_code = padded_marker ++ 1 ∷ 2 ∷ [];
  call_data = 3 ∷ [];
  account_gas_limits = 50 * 2 ^ 128 + 100;
  pre_verification_gas = 10;
  gas_fees = 8 * 2 ^ 128 + 9;
  paymaster_and_data = padded_marker ++ (to_bytes 32 (30 * 2 ^ 128 + 20) ++ 4 ∷ []);
  signature = 5 ∷ [];
}

full_op-packed : pack_user_op full_op ≡ ok packed_op
unfolding pack_user_op bundler.Common.Text.text_dec
full_op-packed = refl

abbrev config : BundlerConfig
config = record {
  entry_point = codes "0xee";
  beneficiary = codes "0xbe";
  min_balance = 1;
  eip7702_support = true;
  unsafe = false;
  version = codes "1";
}

abbrev event : UserOperationEvent
event = record {
  sender = codes "0xa1";
  nonce = 7;
  success = true;
  actual_gas_cost = 1;
  actual_gas_used = 1;
  transaction = record {
    to = codes "0xee";
    ops = some (packed_op ∷ []);
    hash = codes "0x77";
    block_hash = codes "0xbb";
    block_number = 3;
  };
  logs = [];
}

get_user_operation_by_hash-packed_example :
    (response : UserOperationByHashResponse) × (get_user_operation_by_hash config
        (λ hash. some event)
        (some (codes "0x01"))
      ≡ ok (some response))
    × (response.user_operation
        ≡ record full_op { factory = some padded_marker; eip7702_auth = none })
unfolding bundler.Common.Text.text_dec is_hex
get_user_operation_by_hash-packed_example =
    get_user_operation_by_hash-packed config (λ hash. some event) (codes "0x01") event full_op
      packed_op [] [] refl refl refl refl tt refl refl full_op-packed full_op-HasFactory
      full_op-HasPaymaster (ground arith) (ground arith) (ground arith) (ground arith)

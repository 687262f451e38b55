-- ===== src/Tests/Samples.antt =====
-- Inputs for the runs: addresses, entries, operations and states.
use bundler.Common.{ℕ, false, none, some, [], ◌∷◌, leb, ◌*◌, ◌/◌}
use bundler.Common.Text.{Text, codes}
use bundler.Doubles.{Doubles}
use bundler.Types.{Operation, StakeInfo, ValidationResult, ReferencedCodeHashes}
use bundler.Reputation.{Reputation, bundler_params}
use bundler.Mempool.Defs.{State, Mempool, MempoolEntry}

abbrev pub alice : Text
alice = codes "0xa1"

abbrev pub payer : Text
payer = codes "0xb2"

abbrev pub maker : Text
maker = codes "0xc3"

-- Exact rationals in place of doubles.
abbrev pub exact : Doubles
exact = record {
  fee_bumped = λ new old. leb (old * 11) (new * 10);
  inclusion_tenths = λ included seen. included * 10 / seen;
}

-- The paymaster has been seen 10050 times and included once.
abbrev pub rated : Reputation
rated = record {
  params = bundler_params;
  min_stake = 5;
  min_unstake_delay = 7;
  entries =
      (payer, record { address = payer; ops_seen = 10050; ops_included = 1; status = none })
      ∷ (alice, record { address = alice; ops_seen = 3; ops_included = 2; status = none })
      ∷ [];
  black_list = [];
  whitelist = [];
}

abbrev pub staked : Text → StakeInfo
staked a = record { addr = a; stake = 6; unstake_delay_sec = 8 }

abbrev pub op_of : Text → ℕ → ℕ → Operation
op_of sender nonce fee = record {
  sender = sender;
  nonce = nonce;
  factory = none;
  factory_data = none;
  paymaster = none;
  paymaster_data = none;
  max_fee_per_gas = fee;
  max_priority_fee_per_gas = fee;
  call_gas_limit = 100;
  verification_gas_limit = 50;
  paymaster_verification_gas_limit = none;
  paymaster_post_op_gas_limit = none;
  call_data = [];
  signature = [];
  pre_verification_gas = some 10;
  eip7702_auth = none;
  nonce_key = none;
  authorization_list = none;
}

abbrev pub no_contracts : ReferencedCodeHashes
no_contracts = record { addresses = []; hash = [] }

abbrev pub valid : Text → ValidationResult
valid a = record {
  return_info = record {
    pre_op_gas = 60;
    prefund = some 160;
    sig_failed = false;
    valid_after = 0;
    valid_until = 0;
  };
  sender_info = staked a;
  factory_info = none;
  paymaster_info = none;
  aggregator_info = none;
  referenced_contracts = no_contracts;
  storage_map = [];
}

abbrev pub entry_for : Operation → Text → MempoolEntry
entry_for op hash = record {
  user_op = op;
  user_op_hash = hash;
  prefund = 160;
  referenced_contracts = no_contracts;
  skip_validation = false;
  aggregator = none;
  user_op_max_gas = 160;
}

-- One pending operation of each of two senders; the second has a paymaster.
abbrev pub alice_op : Operation
alice_op = op_of alice 1 100

abbrev pub maker_op : Operation
maker_op = record (op_of maker 4 90) { paymaster = some payer }

abbrev pub pending_pool : Mempool
pending_pool = record {
  mempool = entry_for alice_op (codes "h1") ∷ entry_for maker_op (codes "h2") ∷ [];
  counts = (alice, 1) ∷ (maker, 1) ∷ (payer, 1) ∷ [];
}

abbrev pub pending_state : State
pending_state = record { reputation = rated; pool = pending_pool }

abbrev pub idle_state : State
idle_state = record { reputation = rated; pool = record { mempool = []; counts = [] } }

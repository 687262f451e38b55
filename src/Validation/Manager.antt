-- ===== src/Validation/Manager.antt =====
-- `validateUserOp` and the checks that it composes.
use mathlib.Core.Option.{get_or}
use bundler.Common.{
  ℕ, ◌+◌, ◌^◌, ◌==◌, ltb, leb, Bool, true, false, ◌||◌, not, Option, none, some, List, [], ◌∷◌,
  if◌then◌else◌, Result, ok, err, ◌>>=◌, ◌>>◌, length,
}
use bundler.Common.Text.{Text, same, to_lower}
use bundler.Common.Int.{ℤ, pos, negsuc, sub_ℕ}
use bundler.Types.{
  Operation, Authorization, ReferencedCodeHashes, StorageMap, ValidationResult, opcode_validation,
  invalid_fields, invalid_signature, not_in_time_range, unsupported_signature_aggregator,
}
use bundler.Utils.{get_authorization_list, sum}
use bundler.Erc7562.{Erc7562ValidationResults, Fault, Parser, Setting}
use bundler.Erc7562.Walk.{require_compliance}
use bundler.Validation.{
  Failure, not_compliant, plain_error, coded_error, require_that, code_modified, one_authorization,
  invalid_chain_id, signer_not_sender, gas_too_low, time_range_in_future, already_expired,
  expires_too_soon, no_aggregator, Node, Library,
}
use bundler.Validation.Decode.{Simulated, stake_result}
use bundler.Validation.Simulate.{simulate_handle_ops, geth_trace_call_simulate_validation}

-- The fields; the calculator is its check of an operation's gas, given the gas used.
pub record ValidationManager : Type 0 where
  pub node : Node
  pub lib : Library
  pub unsafe : Bool
  pub setting : Setting
  pub is_pre_verification_gas_valid : Operation → ℤ → Bool

abbrev pub valid_until_future_seconds : ℕ
valid_until_future_seconds = 30

abbrev safe_number : ℕ → Result Failure ℕ
safe_number n = if ltb n (2 ^ 53) then ok n else err (coded_error n)

abbrev number_of : Option ℕ → Result Failure ℕ
number_of none = err (coded_error 0)
number_of (some n) = ok n

-- A difference of which the size is 2^53 or more is an error.
abbrev to_signed : ℤ → Result Failure ℤ
to_signed (pos n) = if ltb n (2 ^ 53) then ok (pos n) else err (coded_error n)
to_signed (negsuc n) = if ltb (n + 1) (2 ^ 53) then ok (negsuc n) else err (coded_error n)

unfoldable pub get_code_hashes : Node → List Text → Result Failure ReferencedCodeHashes
get_code_hashes n addresses =
    n.code_hash addresses >>= λ hash. ok (record { addresses = addresses; hash = hash })

unfoldable pub check_code_hashes : Node → Option ReferencedCodeHashes → Result Failure (Unit {0})
unfolding get_code_hashes
check_code_hashes n none = ok tt
check_code_hashes n (some previous) =
    if ltb 0 (length previous.addresses)
    then (get_code_hashes n previous.addresses >>= λ current.
        require_that (same current.hash previous.hash) code_modified opcode_validation)
    else ok tt

-- One round of the loop; the signer is always that of the first.
unfoldable pub check_each :
    Library → Text → ℕ → Authorization → List Authorization → Result Failure (Unit {0})
unfolding to_lower
check_each lib sender chain_id first [] = ok tt
check_each lib sender chain_id first (authorization ∷ rest) =
    require_that (authorization.chain_id == 0 || authorization.chain_id == chain_id)
      invalid_chain_id invalid_fields
    >> require_that (same (to_lower (lib.signer_of first)) (to_lower sender)) signer_not_sender
        invalid_fields
    >> check_each lib sender chain_id first rest

unfoldable pub check_authorizations :
    Node → Library → Text → List Authorization → Result Failure (Unit {0})
unfolding check_each
check_authorizations n lib sender [] = ok tt
check_authorizations n lib sender (first ∷ rest) =
    require_that (length (first ∷ rest) == 1) one_authorization invalid_fields
    >> (n.chain_id >>= λ chain_id. check_each lib sender chain_id first (first ∷ rest))

-- What the simulation gives for the rest of the checks.
pub record Examined : Type 0 where
  pub simulated : Simulated
  pub code_hashes : ReferencedCodeHashes
  pub storage_map : StorageMap

abbrev pub no_code_hashes : ReferencedCodeHashes
no_code_hashes = record { addresses = []; hash = [] }

-- The dummy result of the unsafe mode.
abbrev pub unsafe_result : Operation → Simulated
unsafe_result op = record {
  sig_failed = false;
  valid_until = 0;
  valid_after = 0;
  pre_op_gas = some (
      sum (
        op.pre_verification_gas
        ∷ some op.verification_gas_limit
        ∷ op.paymaster_verification_gas_limit
        ∷ []));
  prefund = none;
  sender_info = record { addr = op.sender; stake = 0; unstake_delay_sec = 0 };
  paymaster_info = none;
  paymaster_context = none;
  factory_info = none;
  aggregator_info = none;
}

abbrev pub first_code_hashes :
    Node → Option ReferencedCodeHashes → List Text → Result Failure ReferencedCodeHashes
first_code_hashes n none addresses = get_code_hashes n addresses
first_code_hashes n (some previous) addresses = ok no_code_hashes

abbrev pub compliant :
    Node
    → Option ReferencedCodeHashes
    → Simulated
    → Parser × Result Fault Erc7562ValidationResults
    → Parser × Result Failure Examined
compliant n previous simulated (p, err e) = (p, err (not_compliant e))
compliant n previous simulated (p, ok found) = (
  p,
  first_code_hashes n previous found.contract_addresses >>= λ code_hashes. ok (record {
    simulated = simulated;
    code_hashes = code_hashes;
    storage_map = found.storage_map;
  }),
)

unfoldable pub examine_safely :
    ValidationManager
    → Operation
    → Option ReferencedCodeHashes
    → Parser
    → Parser × Result Failure Examined
unfolding geth_trace_call_simulate_validation require_compliance get_code_hashes
examine_safely m op previous p = elim (geth_trace_call_simulate_validation m.node m.lib op) [
  | err e ↦ (p, err e)
  | ok (simulated, root) ↦
      compliant m.node previous simulated
        (require_compliance m.setting op root (stake_result simulated) p)
]

-- Without a tracer no rule is checked.
unfoldable pub examine_unsafely : ValidationManager → Operation → Result Failure Examined
unfolding simulate_handle_ops sum
examine_unsafely m op =
    simulate_handle_ops m.node m.lib op
    >> ok (record { simulated = unsafe_result op; code_hashes = no_code_hashes; storage_map = [] })

unfoldable pub revalidate_pre_verification_gas :
    ValidationManager → Operation → Simulated → Result Failure (Unit {0})
revalidate_pre_verification_gas m op v =
    number_of op.pre_verification_gas >>= safe_number >>= λ gas.
    number_of v.pre_op_gas >>= λ pre_op_gas. to_signed (sub_ℕ pre_op_gas gas) >>= λ used.
    require_that (m.is_pre_verification_gas_valid op used) gas_too_low invalid_fields

unfoldable pub check_time_range : ℕ → Simulated → Result Failure (Unit {0})
check_time_range now v =
    require_that (leb v.valid_after now) (time_range_in_future v.valid_after now) not_in_time_range
    >> require_that (v.valid_until == 0 || leb now v.valid_until) already_expired not_in_time_range
    >> require_that (v.valid_until == 0 || ltb (now + valid_until_future_seconds) v.valid_until)
        expires_too_soon not_in_time_range

abbrev is_absent {ℓ} : {A : Type ℓ} → Option A → Bool
is_absent none = true
is_absent (some a) = false

-- The checks of what a simulation gives.
unfoldable pub check_result : ValidationManager → Operation → Simulated → Result Failure (Unit {0})
unfolding revalidate_pre_verification_gas check_time_range
check_result m op v =
    revalidate_pre_verification_gas m op v
    >> require_that (not v.sig_failed) bundler.Validation.invalid_signature invalid_signature
    >> check_time_range m.node.now v
    >> require_that (is_absent v.aggregator_info) no_aggregator unsupported_signature_aggregator

-- A result that has passed has its gas.
abbrev pub result_of : Examined → ValidationResult
result_of x = record {
  return_info = record {
    pre_op_gas = get_or x.simulated.pre_op_gas 0;
    prefund = x.simulated.prefund;
    sig_failed = x.simulated.sig_failed;
    valid_after = x.simulated.valid_after;
    valid_until = x.simulated.valid_until;
  };
  sender_info = x.simulated.sender_info;
  factory_info = x.simulated.factory_info;
  paymaster_info = x.simulated.paymaster_info;
  aggregator_info = x.simulated.aggregator_info;
  referenced_contracts = x.code_hashes;
  storage_map = x.storage_map;
}

-- The checks before a simulation.
unfoldable pub check_before :
    ValidationManager → Operation → Option ReferencedCodeHashes → Result Failure (Unit {0})
unfolding check_code_hashes check_authorizations get_authorization_list
check_before m op previous =
    check_code_hashes m.node previous
    >> check_authorizations m.node m.lib op.sender (get_authorization_list op)

abbrev pub checked :
    ValidationManager
    → Operation
    → Parser × Result Failure Examined
    → Parser × Result Failure ValidationResult
checked m op (p, examined) =
    (p, examined >>= λ x. check_result m op x.simulated >> ok (result_of x))

unfoldable pub validate_user_op :
    ValidationManager
    → Operation
    → Option ReferencedCodeHashes
    → Parser
    → Parser × Result Failure ValidationResult
unfolding check_before examine_safely examine_unsafely check_result
validate_user_op m op previous p = elim (check_before m op previous) [
  | err e ↦ (p, err e)
  | ok _ ↦
      checked m op (if m.unsafe then (p, examine_unsafely m op) else examine_safely m op previous p)
]

-- ===== src/Validation.antt =====
-- packages/validation-manager/src/ValidationManager.ts but validateInputParameters, with the tracer of
-- the node (no `providerForTracer`). The node, the ABI library and the recovery of signers are
-- parameters.
pub mod Layout
pub mod Decode
pub mod Simulate
pub mod Manager
pub mod Laws
pub mod Compliant
pub mod Timely
use bundler.Common.{
  ℕ, ◌+◌, ◌==◌, ltb, Bool, true, false, ◌&&◌, ◌||◌, not, Option, none, some, List, [], ◌∷◌, ◌++◌,
  if◌then◌else◌, Result, ok, err, ◌>>=◌, length, get_elem?,
}
use bundler.Common.Text.{Text, codes, same}
use bundler.Types.{Operation, StakeInfo, ValidationErrors, Authorization}
use bundler.Erc7562.{Erc7562Call, frame_calls, Calls, no_calls, and_call, Fault}

-- The messages of the RpcErrors.
pub data Reason : Type 0 where
  code_modified one_authorization invalid_chain_id signer_not_sender : Reason
  user_op_signature paymaster_signature invalid_signature : Reason
  reverted : Text → Reason
  gas_too_low : Reason
  time_range_in_future : ℕ → ℕ → Reason
  already_expired expires_too_soon no_aggregator : Reason

-- What is thrown: an RpcError, one with code -32000, what the parser throws, an Error without a code,
-- by its text, and an error of a library that has one.
pub data Failure : Type 0 where
  rpc_error : Reason → ValidationErrors → Failure
  server_error : Option Text → Failure
  not_compliant : Fault → Failure
  plain_error : Text → Failure
  coded_error : ℕ → Failure

abbrev pub require_that : Bool → Reason → ValidationErrors → Result Failure (Unit {0})
require_that cond reason code = if cond then ok tt else err (rpc_error reason code)

-- The calls of the node: `getDepositInfo` (the stake and the delay), the chain's id, the hash of
-- contracts' code, `handleOps` of the operation by `eth_call` and by `debug_traceCall`, and the time in
-- seconds.
pub record Node : Type 0 where
  pub deposit_info : Text → Result Failure (ℕ × ℕ)
  pub chain_id : Result Failure ℕ
  pub code_hash : List Text → Result Failure Text
  pub call_handle_ops : Operation → Result Failure (Unit {0})
  pub trace_handle_ops : Operation → Result Failure Erc7562Call
  pub now : ℕ

-- The selectors of functions, ABI decoding, and the texts of reverts. A signer is recovered from an
-- authorization.
pub record Library : Type 0 where
  pub validate_user_op : Text
  pub validate_paymaster_user_op : Text
  pub inner_handle_op : Text
  pub data_number : Text → ℕ
  pub decode_paymaster_output : Text → Result Failure (Text × Text)
  pub decode_inner_handle_op : Text → Result Failure (ℕ × ℕ)
  pub decode_revert_reason : Text → Text
  pub decode_thrown_reason : Failure → Option Text
  pub decode_string : Text → Text
  pub decode_failed_op : Text → Text
  pub signer_of : Authorization → Text

pub record Stakes : Type 0 where
  pub sender : StakeInfo
  pub paymaster : Option StakeInfo
  pub factory : Option StakeInfo

-- `factory === EIP_7702_MARKER_INIT_CODE`
abbrev pub is_marker : Option Text → Bool
is_marker none = false
is_marker (some factory) = same factory (codes "0x7702")

abbrev stake_info : Node → Text → Result Failure StakeInfo
stake_info n addr = n.deposit_info addr >>= λ (stake, delay).
    ok (record { addr = addr; stake = stake; unstake_delay_sec = delay })

abbrev optional_stake_info : Node → Option Text → Result Failure (Option StakeInfo)
optional_stake_info n none = ok none
optional_stake_info n (some addr) = stake_info n addr >>= λ info. ok (some info)

-- Of several calls that fail, the first one's error stands for that of `Promise.all`.
unfoldable pub get_stakes : Node → Text → Option Text → Option Text → Result Failure Stakes
get_stakes n sender paymaster factory = stake_info n sender >>= λ sender_info.
    optional_stake_info n paymaster >>= λ paymaster_info.
    optional_stake_info n (if is_marker factory then none else factory) >>= λ factory_info.
    ok (record { sender = sender_info; paymaster = paymaster_info; factory = factory_info })

abbrev pub call_list : Calls → List Erc7562Call
call_list no_calls = []
call_list (and_call c calls) = c ∷ call_list calls

abbrev pub calls_of : Erc7562Call → List Erc7562Call
calls_of (frame_calls f calls) = call_list calls

pub record ValidationCalls : Type 0 where
  pub validation_call : Option Erc7562Call
  pub paymaster_call : Option Erc7562Call
  pub inner_call : Option Erc7562Call

-- A factory that is called, or initialisation data of an EIP-7702 account: those of the text that are
-- there, its prefix included.
unfoldable pub has_init_call : Operation → Bool
has_init_call op = elim op.factory [
  | none ↦ false
  | some factory ↦
      not (is_marker (some factory))
      || elim op.factory_data [ none ↦ false | some text ↦ ltb 0 (length text) ]
]

unfoldable pub get_validation_calls : Operation → List Erc7562Call → ValidationCalls
unfolding has_init_call
get_validation_calls op calls =
    let index = if has_init_call op then 1 else 0 in
    elim op.paymaster [
      | none ↦ record {
        validation_call = get_elem? calls index;
        paymaster_call = none;
        inner_call = get_elem? calls (index + 1);
      }
      | some paymaster ↦ record {
        validation_call = get_elem? calls index;
        paymaster_call = get_elem? calls (index + 1);
        inner_call = get_elem? calls (index + 2);
      }
    ]

-- `flattenCalls`: each call before those in it.
mutual
  flatten_calls : Calls → List Erc7562Call
  flatten_calls no_calls = []
  flatten_calls (and_call c calls) = c ∷ (flatten_call c ++ flatten_calls calls)

  flatten_call : Erc7562Call → List Erc7562Call
  flatten_call (frame_calls f calls) = flatten_calls calls

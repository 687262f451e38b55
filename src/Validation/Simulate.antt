-- ===== src/Validation/Simulate.antt =====
-- The simulation of an operation: `_simulateHandleOps`, by `eth_call`, and
-- `_geth_traceCall_SimulateValidation`, by the tracer of the node.
use bundler.Common.{
  Bool, Option, none, some, List, [], ◌∷◌, ◌++◌, if◌then◌else◌, Result, ok, err, ◌>>=◌, drop,
}
use bundler.Common.Text.{Text, codes, starts_with}
use bundler.Types.{Operation, simulate_validation, invalid_signature}
use bundler.Erc7562.{Erc7562Call, frame_of}
use bundler.Validation.{
  Failure, rpc_error, server_error, plain_error, user_op_signature, paymaster_signature, reverted,
  Node, Library,
}
use bundler.Validation.Decode.{Simulated, generate_validation_result}

-- Reverts of `handleOps` past the validation, which is then a success.
abbrev pub expected_inner_handle_op_failures : List Text
expected_inner_handle_op_failures =
    codes "FailedOp(0,\"AA95 out of gas\")" ∷ codes "Error(AA90 invalid beneficiary)" ∷ []

unfoldable pub is_expected_failure : Text → Bool
is_expected_failure reason = bundler.Reputation.has reason expected_inner_handle_op_failures

-- What the reason of a revert says of the validation.
unfoldable pub check_reason : Text → Result Failure (Unit {0})
unfolding is_expected_failure starts_with
check_reason reason =
    if starts_with (codes "FailedOp(0,\"AA24") reason
    then err (rpc_error user_op_signature invalid_signature)
    else if starts_with (codes "FailedOp(0,\"AA34") reason
    then err (rpc_error paymaster_signature invalid_signature)
    else if is_expected_failure reason
    then ok tt
    else err (rpc_error (reverted reason) simulate_validation)

abbrev reason_of : Library → Failure → Result Failure (Unit {0})
reason_of lib e = elim (lib.decode_thrown_reason e) [
  | none ↦ err e
  | some reason ↦ check_reason reason
]

unfoldable pub simulate_handle_ops : Node → Library → Operation → Result Failure (Unit {0})
unfolding check_reason
simulate_handle_ops n lib op = elim (n.call_handle_ops op) [
  | ok _ ↦ ok tt
  | err e ↦ reason_of lib e
]

-- The message of an error that is the data of a revert.
unfoldable pub decode_error_reason : Library → Text → Option Text
unfolding starts_with
decode_error_reason lib error =
    if starts_with (codes "0x08c379a0") error
    then some (lib.decode_string (drop 10 error))
    else if starts_with (codes "0x220266b6") error
    then some (codes "FailedOp: " ++ lib.decode_failed_op (drop 10 error))
    else none

-- An error with a code is thrown again as it is.
unfoldable pub rethrow : Library → Failure → Failure
unfolding decode_error_reason
rethrow lib (plain_error error) = server_error (decode_error_reason lib error)
rethrow lib e = e

abbrev pub rethrown : {A : Type 0} → Library → Result Failure A → Result Failure A
rethrown lib (ok a) = ok a
rethrown lib (err e) = err (rethrow lib e)

abbrev pub output_reason : Library → Erc7562Call → Result Failure Text
output_reason lib root = elim (frame_of root).output [
  | none ↦ err (plain_error (codes "TypeError"))
  | some output ↦ ok (lib.decode_revert_reason output)
]

unfoldable pub geth_trace_call_simulate_validation :
    Node → Library → Operation → Result Failure (Simulated × Erc7562Call)
unfolding check_reason generate_validation_result rethrow
geth_trace_call_simulate_validation n lib op = n.trace_handle_ops op >>= λ root.
    output_reason lib root >>= λ reason. check_reason reason >>= λ _.
    rethrown lib (generate_validation_result n lib op root) >>= λ simulated. ok (simulated, root)

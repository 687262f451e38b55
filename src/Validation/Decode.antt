-- ===== src/Validation/Decode.antt =====
-- The result of a validation, decoded from the calls of its trace: `generateValidationResult`.
use bundler.Common.{
  ℕ, min, max, Bool, false, Option, none, some, if◌then◌else◌, Result, ok, err, ◌>>=◌,
}
use bundler.Common.Text.{Text, codes, same}
use bundler.Types.{Operation, StakeInfo}
use bundler.ValidationData.{ValidationData, parse_validation_data, max_uint48}
use bundler.Erc7562.{Erc7562Call, Frame, frame_of, StakeResult}
use bundler.Erc7562.Checks.{get4bytes}
use bundler.Validation.{
  Failure, plain_error, coded_error, Node, Library, Stakes, get_stakes, get_validation_calls,
  calls_of,
}

-- A ValidationResult, in which the paymaster's context stands by itself.
pub record Simulated : Type 0 where
  pub sig_failed : Bool
  pub valid_until : ℕ
  pub valid_after : ℕ
  pub pre_op_gas : Option ℕ
  pub prefund : Option ℕ
  pub sender_info : StakeInfo
  pub paymaster_info : Option StakeInfo
  pub paymaster_context : Option Text
  pub factory_info : Option StakeInfo
  pub aggregator_info : Option StakeInfo

-- What the parser reads of it.
abbrev pub stake_result : Simulated → StakeResult
stake_result v = record {
  sender_info = v.sender_info;
  factory_info = v.factory_info;
  paymaster_info = v.paymaster_info;
  paymaster_context = v.paymaster_context;
}

-- The input of a call of a function, or the error that it is no such call.
abbrev pub input_of : Frame → Text → Text → Result Failure Text
input_of f selector message = elim f.input [
  | none ↦ err (plain_error (codes "TypeError"))
  | some input ↦ if same (get4bytes input) selector then ok input else err (plain_error message)
]

abbrev pub output_of : Frame → Text → Result Failure Text
output_of f message = elim f.output [ none ↦ err (plain_error message) | some output ↦ ok output ]

-- Data that do not fit 32 bytes are an error of the library.
abbrev pub parsed : Library → Text → Result Failure ValidationData
parsed lib bytes = elim (parse_validation_data (lib.data_number bytes)) [
  | none ↦ err (coded_error 0)
  | some validation_data ↦ ok validation_data
]

unfoldable pub decode_validate_user_op : Library → Frame → Result Failure ValidationData
unfolding parse_validation_data
decode_validate_user_op lib f =
    input_of f lib.validate_user_op (codes "Not a validateUserOp") >>= λ input.
    output_of f (codes "validateUserOp: No output") >>= λ output. parsed lib output

unfoldable pub decode_validate_paymaster_user_op :
    Library → Frame → Result Failure (Text × ValidationData)
unfolding parse_validation_data
decode_validate_paymaster_user_op lib f =
    input_of f lib.validate_paymaster_user_op (codes "Not a validatePaymasterUserOp") >>= λ input.
    output_of f (codes "validatePaymasterUserOp: No output") >>= λ output.
    lib.decode_paymaster_output output >>= λ (context, bytes).
    parsed lib bytes >>= λ validation_data. ok (context, validation_data)

-- The gas before the operation and the prefund.
unfoldable pub decode_inner_handle_op : Library → Frame → Result Failure (ℕ × ℕ)
decode_inner_handle_op lib f =
    input_of f lib.inner_handle_op (codes "Not a innerHandleOp") >>= lib.decode_inner_handle_op

abbrev pub always_valid : ValidationData
always_valid = record { aggregator = 0; valid_after = 0; valid_until = max_uint48 }

abbrev pub decode_validation : Library → Option Erc7562Call → Result Failure ValidationData
decode_validation lib none = err (plain_error (codes "TypeError"))
decode_validation lib (some c) = decode_validate_user_op lib (frame_of c)

abbrev pub decode_paymaster :
    Library → Option Erc7562Call → Result Failure (Option Text × ValidationData)
decode_paymaster lib none = ok (none, always_valid)
decode_paymaster lib (some c) =
    decode_validate_paymaster_user_op lib (frame_of c) >>= λ (context, values).
    ok (some context, values)

abbrev pub decode_inner : Library → Option Erc7562Call → Result Failure (Option (ℕ × ℕ))
decode_inner lib none = ok none
decode_inner lib (some c) = decode_inner_handle_op lib (frame_of c) >>= λ gas. ok (some gas)

abbrev pub combined :
    ValidationData → Option Text × ValidationData → Option (ℕ × ℕ) → Stakes → Simulated
combined account (context, paymaster) inner stakes = record {
  sig_failed = false;
  valid_until = min account.valid_until paymaster.valid_until;
  valid_after = max account.valid_after paymaster.valid_after;
  pre_op_gas = elim inner [ none ↦ none | some (gas, prefund) ↦ some gas ];
  prefund = elim inner [ none ↦ none | some (gas, prefund) ↦ some prefund ];
  sender_info = stakes.sender;
  paymaster_info = stakes.paymaster;
  paymaster_context = elim stakes.paymaster [ none ↦ none | some info ↦ context ];
  factory_info = stakes.factory;
  aggregator_info = none;
}

unfoldable pub generate_validation_result :
    Node → Library → Operation → Erc7562Call → Result Failure Simulated
unfolding decode_validate_user_op decode_validate_paymaster_user_op decode_inner_handle_op
    get_stakes get_validation_calls
generate_validation_result n lib op root =
    let calls = get_validation_calls op (calls_of root) in
    decode_validation lib calls.validation_call >>= λ account.
    decode_paymaster lib calls.paymaster_call >>= λ paymaster.
    decode_inner lib calls.inner_call >>= λ inner.
    get_stakes n op.sender op.paymaster op.factory >>= λ stakes.
    ok (combined account paymaster inner stakes)

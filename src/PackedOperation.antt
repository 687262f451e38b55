-- ===== src/PackedOperation.antt =====
-- packUserOp, unpackUserOp and unpackPaymasterAndData of packages/utils/src/ERC4337Utils.ts. A text in
-- hexadecimal is the list of its bytes.
pub mod Bytes
pub mod RoundTrip
use bundler.Common.{
  ℕ, ◌+◌, ◌==◌, ltb, Bool, true, false, Option, none, some, List, [], ◌∷◌, ◌++◌, if◌then◌else◌,
  Result, ok, err, ◌>>=◌, length, take, drop,
}
use mathlib.Core.Option.{get_or}
use bundler.Common.Text.{Text, same}
use bundler.Types.{Authorization}
use bundler.ValidationData.{pack_uint, unpack_uint}
use bundler.PackedOperation.Bytes.{to_bytes, of_bytes}

abbrev pub Bytes : Type 0
Bytes = List ℕ

pub record UserOperation : Type 0 where
  pub sender : Text
  pub nonce : ℕ
  pub factory : Option Bytes
  pub factory_data : Option Bytes
  pub call_data : Bytes
  pub call_gas_limit : ℕ
  pub verification_gas_limit : ℕ
  pub pre_verification_gas : ℕ
  pub max_fee_per_gas : ℕ
  pub max_priority_fee_per_gas : ℕ
  pub paymaster : Option Bytes
  pub paymaster_verification_gas_limit : Option ℕ
  pub paymaster_post_op_gas_limit : Option ℕ
  pub paymaster_data : Option Bytes
  pub signature : Bytes
  pub eip7702_auth : Option Authorization

-- The two words are the numbers of their bytes.
pub record PackedUserOperation : Type 0 where
  pub sender : Text
  pub nonce : ℕ
  pub init_code : Bytes
  pub call_data : Bytes
  pub account_gas_limits : ℕ
  pub pre_verification_gas : ℕ
  pub gas_fees : ℕ
  pub paymaster_and_data : Bytes
  pub signature : Bytes

pub data PackError : Type 0 where
  no_gas_limits invalid_paymaster_and_data too_large : PackError

abbrev pub word : ℕ → ℕ → Result PackError ℕ
word high low = elim (pack_uint high low) [ none ↦ err too_large | some n ↦ ok n ]

unfoldable pub pack_paymaster_data : Bytes → ℕ → ℕ → Option Bytes → Result PackError Bytes
unfolding pack_uint to_bytes
pack_paymaster_data paymaster verification post_op bytes =
    word verification post_op >>= λ gas. ok (paymaster ++ (to_bytes 32 gas ++ get_or bytes []))

-- The bytes of a paymaster need both gas limits.
unfoldable pub paymaster_bytes : UserOperation → Result PackError Bytes
unfolding pack_paymaster_data
paymaster_bytes op = elim op.paymaster [
  | none ↦ ok []
  | some paymaster ↦ elim op.paymaster_verification_gas_limit [
    | none ↦ err no_gas_limits
    | some verification ↦ elim op.paymaster_post_op_gas_limit [
      | none ↦ err no_gas_limits
      | some post_op ↦ pack_paymaster_data paymaster verification post_op op.paymaster_data
    ]
  ]
]

-- EIP_7702_MARKER_INIT_CODE, and the same with zeros after it, up to the length of an address.
abbrev pub marker : Bytes
marker = 0x77 ∷ 0x02 ∷ []

abbrev pub padded_marker : Bytes
padded_marker =
    0x77 ∷ 0x02 ∷ 0 ∷ 0 ∷ 0 ∷ 0 ∷ 0 ∷ 0 ∷ 0 ∷ 0 ∷ 0 ∷ 0 ∷ 0 ∷ 0 ∷ 0 ∷ 0 ∷ 0 ∷ 0 ∷ 0 ∷ 0 ∷ []

abbrev pub padded : Bytes → Bytes
padded factory = if same factory marker then padded_marker else factory

unfoldable pub init_code : UserOperation → Bytes
init_code op = elim op.factory [
  | none ↦ []
  | some factory ↦ padded factory ++ get_or op.factory_data []
]

unfoldable pub pack_user_op : UserOperation → Result PackError PackedUserOperation
unfolding paymaster_bytes init_code pack_uint
pack_user_op op = paymaster_bytes op >>= λ paymaster_and_data.
    word op.verification_gas_limit op.call_gas_limit >>= λ account_gas_limits.
    word op.max_priority_fee_per_gas op.max_fee_per_gas >>= λ gas_fees. ok (record {
      sender = op.sender;
      nonce = op.nonce;
      init_code = init_code op;
      call_data = op.call_data;
      account_gas_limits = account_gas_limits;
      pre_verification_gas = op.pre_verification_gas;
      gas_fees = gas_fees;
      paymaster_and_data = paymaster_and_data;
      signature = op.signature;
    })

pub record PaymasterAndData : Type 0 where
  pub paymaster : Bytes
  pub verification_gas : ℕ
  pub post_op_gas_limit : ℕ
  pub paymaster_data : Bytes

-- No bytes are no paymaster; a paymaster comes with its gas limits.
unfoldable pub unpack_paymaster_and_data : Bytes → Result PackError (Option PaymasterAndData)
unfolding unpack_uint of_bytes
unpack_paymaster_and_data bytes =
    if length bytes == 0
    then ok none
    else if ltb (length bytes) 52
    then err invalid_paymaster_and_data
    else let (verification, post_op) = unpack_uint (of_bytes 0 (take 32 (drop 20 bytes))) in
      ok (
        some (record {
          paymaster = take 20 bytes;
          verification_gas = verification;
          post_op_gas_limit = post_op;
          paymaster_data = drop 52 bytes;
        }))

abbrev with_factory : Bytes → UserOperation → UserOperation
with_factory bytes op =
    if length bytes == 0
    then op
    else record op { factory = some (take 20 bytes); factory_data = some (drop 20 bytes) }

abbrev with_paymaster : Option PaymasterAndData → UserOperation → UserOperation
with_paymaster none op = op
with_paymaster (some p) op = record op {
  paymaster = some p.paymaster;
  paymaster_verification_gas_limit = some p.verification_gas;
  paymaster_post_op_gas_limit = some p.post_op_gas_limit;
  paymaster_data = some p.paymaster_data;
}

-- The operation without a factory and a paymaster.
abbrev plain_op : PackedUserOperation → UserOperation
plain_op packed =
    let (verification, call) = unpack_uint packed.account_gas_limits in
    let (priority, fee) = unpack_uint packed.gas_fees in
    record {
      sender = packed.sender;
      nonce = packed.nonce;
      factory = none;
      factory_data = none;
      call_data = packed.call_data;
      call_gas_limit = call;
      verification_gas_limit = verification;
      pre_verification_gas = packed.pre_verification_gas;
      max_fee_per_gas = fee;
      max_priority_fee_per_gas = priority;
      paymaster = none;
      paymaster_verification_gas_limit = none;
      paymaster_post_op_gas_limit = none;
      paymaster_data = none;
      signature = packed.signature;
      eip7702_auth = none;
    }

unfoldable pub unpack_user_op : PackedUserOperation → Result PackError UserOperation
unfolding unpack_paymaster_and_data unpack_uint
unpack_user_op packed = unpack_paymaster_and_data packed.paymaster_and_data >>= λ paymaster.
    ok (with_paymaster paymaster (with_factory packed.init_code (plain_op packed)))

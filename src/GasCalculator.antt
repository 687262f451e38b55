-- ===== src/GasCalculator.antt =====
-- packages/sdk/src/PreVerificationGasCalculator.ts. Its arithmetic is on doubles, some of them
-- fractional: the operations of JavaScript on them are a parameter, Numbers. Bytes are a list of
-- numbers below 256; the ABI encoding of an operation is a parameter as well.
use mathlib.Core.Option.{get_or}
use bundler.Common.{
  ℕ, ◌+◌, ◌/◌, ◌≡◌, refl, Bool, true, Option, none, some, List, [], ◌∷◌, if◌then◌else◌, ◌==◌,
  length,
}
use bundler.Common.Text.{starts_with}

pub record Numbers (D : Type 0) : Type 0 where
  pub of_nat : ℕ → D
  pub add : D → D → D
  pub sub : D → D → D
  pub mul : D → D → D
  pub div : D → D → D
  pub max : D → D → D
  pub round : D → D
  pub ceil : D → D
  pub le : D → D → Bool

pub record Config (D : Type 0) : Type 0 where
  pub transaction_gas_stipend : D
  pub fixed_gas_overhead : D
  pub per_user_op_gas_overhead : D
  pub per_user_op_word_gas_overhead : D
  pub execute_user_op_gas_overhead : D
  pub execute_user_op_per_word_gas_overhead : D
  pub standard_token_gas_cost : D
  pub use_eip7623 : Bool
  pub floor_per_token_gas_cost : D
  pub tokens_per_nonzero_byte : ℕ
  pub eip7702_auth_gas : D
  pub expected_bundle_size : D
  pub estimation_signature_size : ℕ
  pub estimation_paymaster_data_size : ℕ

-- 9.5 and 8.2 are written as tenths.
abbrev pub mainnet_config : {D : Type 0} → Numbers D → Config D
mainnet_config j = record {
  transaction_gas_stipend = j.of_nat 21000;
  fixed_gas_overhead = j.of_nat 9830;
  per_user_op_gas_overhead = j.of_nat 7260;
  execute_user_op_gas_overhead = j.of_nat 1610;
  per_user_op_word_gas_overhead = j.div (j.of_nat 95) (j.of_nat 10);
  execute_user_op_per_word_gas_overhead = j.div (j.of_nat 82) (j.of_nat 10);
  standard_token_gas_cost = j.of_nat 4;
  use_eip7623 = true;
  floor_per_token_gas_cost = j.of_nat 10;
  tokens_per_nonzero_byte = 4;
  eip7702_auth_gas = j.of_nat 25000;
  expected_bundle_size = j.of_nat 1;
  estimation_signature_size = 65;
  estimation_paymaster_data_size = 0;
}

pub record GasOptions (D : Type 0) : Type 0 where
  pub verification_gas_used : Option ℕ
  pub total_gas_used : Option D

-- The fields of a user operation, which may be missing, that the calculator reads or fills.
pub record GasOperation : Type 0 where
  pub call_data : List ℕ
  pub has_auth : Bool
  pub call_gas_limit : Option ℕ
  pub paymaster_post_op_gas_limit : Option ℕ
  pub pre_verification_gas : Option ℕ
  pub signature : Option (List ℕ)
  pub paymaster_data : Option (List ℕ)

abbrev repeat : ℕ → ℕ → List ℕ
repeat Prim.Native.Nat.zero byte = []
repeat (Prim.Native.Nat.suc n) byte = byte ∷ repeat n byte

-- The bytes of EXECUTE_USEROP_METHOD_SIG, and whether call data start with them.
unfoldable pub is_execute_user_op : List ℕ → Bool
unfolding starts_with
is_execute_user_op call_data = starts_with (141 ∷ 215 ∷ 113 ∷ 47 ∷ []) call_data

unfoldable pub count_tokens : ℕ → List ℕ → ℕ
count_tokens per_nonzero [] = 0
count_tokens per_nonzero (x ∷ xs) =
    (if x == 0 then 1 else per_nonzero) + count_tokens per_nonzero xs

module _ {D : Type 0} (j : Numbers D) (c : Config D) where
  -- `totalGasUsed`, or the verification gas used with a tenth of the limits of execution. The
  -- exception of `toNumber` for a sum of 2^53 or more is not modelled.
  unfoldable pub get_user_op_gas_used : GasOperation → GasOptions D → D
  get_user_op_gas_used op options = elim options.total_gas_used [
    | some used ↦ used
    | none ↦ j.of_nat (
        (get_or op.call_gas_limit 0 + get_or op.paymaster_post_op_gas_limit 0) / 10
        + get_or options.verification_gas_used 0)
  ]

  unfoldable pub eip7623_transaction_gas_cost : D → D → D → D
  eip7623_transaction_gas_cost stipend tokens execution = j.round (
      j.add stipend (
        j.max (j.add (j.mul c.standard_token_gas_cost tokens) execution)
          (j.mul c.floor_per_token_gas_cost tokens)))

  -- The overhead of the operation itself; `packed` is the number of its encoded bytes.
  unfoldable pub specific_overhead : GasOperation → ℕ → D
  unfolding is_execute_user_op
  specific_overhead op packed =
      let base =
        if op.has_auth
        then j.add c.per_user_op_gas_overhead c.eip7702_auth_gas
        else c.per_user_op_gas_overhead in
      if is_execute_user_op op.call_data
      then j.add
          (j.add base (
            j.add c.execute_user_op_gas_overhead (
              j.mul c.execute_user_op_per_word_gas_overhead
                (j.div (j.of_nat (packed + 31)) (j.of_nat 32)))))
          (j.of_nat 0)
      else j.add base (
          j.add (j.of_nat 0) (
            j.mul (j.ceil (j.div (j.of_nat (length op.call_data)) (j.of_nat 32)))
              c.per_user_op_word_gas_overhead))

  -- `_calculate`, on the encoding of the operation.
  unfoldable pub calculate : (GasOperation → List ℕ) → GasOperation → GasOptions D → D
  unfolding count_tokens specific_overhead get_user_op_gas_used eip7623_transaction_gas_cost
  calculate encode op options =
      let tokens = j.of_nat (count_tokens c.tokens_per_nonzero_byte (encode op)) in
      let specific = specific_overhead op (length (encode op)) in
      let share = j.div c.fixed_gas_overhead c.expected_bundle_size in
      let stipend = j.div c.transaction_gas_stipend c.expected_bundle_size in
      if c.use_eip7623
      then j.sub
          (eip7623_transaction_gas_cost stipend tokens
            (j.add (j.add share specific) (get_user_op_gas_used op options)))
          (get_user_op_gas_used op options)
      else j.add (j.add (j.add (j.mul c.standard_token_gas_cost tokens) stipend) share) specific

  -- Whether the operation's gas is enough, and the least that is; `none` is the exception for an
  -- operation without the field.
  unfoldable pub validate_pre_verification_gas :
      (GasOperation → List ℕ) → GasOperation → GasOptions D → Option (Bool × D)
  unfolding calculate
  validate_pre_verification_gas encode op options =
      let least = calculate encode op options in
      elim op.pre_verification_gas [
        | none ↦ none
        | some gas ↦ some (j.le least (j.of_nat gas), least)
      ]

  unfoldable pub fill_user_op_with_dummy_data : GasOperation → GasOperation
  fill_user_op_with_dummy_data op = record op {
    pre_verification_gas = some (get_or op.pre_verification_gas 21000);
    signature = some (get_or op.signature (repeat c.estimation_signature_size 255));
    paymaster_data = some (get_or op.paymaster_data (repeat c.estimation_paymaster_data_size 255));
  }

  unfoldable pub estimate_pre_verification_gas :
      (GasOperation → List ℕ) → GasOperation → GasOptions D → D
  unfolding calculate fill_user_op_with_dummy_data
  estimate_pre_verification_gas encode op options =
      calculate encode (fill_user_op_with_dummy_data op) options

  -- The gas that is estimated for an operation is accepted: if `gas` is the estimate, the operation,
  -- filled in and with that gas, is valid, and `gas` is the least that is. This asks that its encoding
  -- is the same with that gas, and of the numbers that each is at most itself.
  validate-estimate :
      (encode : GasOperation → List ℕ) (op : GasOperation) (gas : ℕ) (options : GasOptions D)
      → ((d : D) → j.le d d ≡ true)
      → estimate_pre_verification_gas encode op options ≡ j.of_nat gas
      → encode (record (fill_user_op_with_dummy_data op) { pre_verification_gas = some gas })
        ≡ encode (fill_user_op_with_dummy_data op)
      → validate_pre_verification_gas encode
          (record (fill_user_op_with_dummy_data op) { pre_verification_gas = some gas })
          options
        ≡ some (true, j.of_nat gas)
  unfolding estimate_pre_verification_gas validate_pre_verification_gas calculate specific_overhead
      get_user_op_gas_used
  validate-estimate encode op gas options le_refl h same_bytes =
      rw (same_bytes, h, le_refl (j.of_nat gas)) refl

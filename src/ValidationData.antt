-- ===== src/ValidationData.antt =====
-- packages/utils/src/ERC4337Utils.ts: pairs of numbers packed into 32 bytes, and the validation data
-- of accounts and paymasters. 32 bytes are the number that they spell, below 2^256; `hexZeroPad`
-- throws for a larger one.
use bundler.Common.{
  ℕ, ◌+◌, ◌*◌, ◌/◌, ◌%◌, ◌^◌, ◌≤◌, ◌<◌, min, max, ◌≡◌, ◌↔◌, Option, none, some, if◌then◌else◌, ltb,
  ◌==◌, arith,
}

abbrev bytes_32 : ℕ → Option ℕ
bytes_32 n = if ltb n (2 ^ 256) then some n else none

unfoldable pub pack_uint : ℕ → ℕ → Option ℕ
pack_uint high low = bytes_32 (high * 2 ^ 128 + low)

unfoldable pub unpack_uint : ℕ → ℕ × ℕ
unpack_uint packed = (packed / 2 ^ 128, packed % 2 ^ 128)

pub record AccountGasLimits : Type 0 where
  pub verification_gas_limit : ℕ
  pub call_gas_limit : ℕ

unfoldable pub pack_account_gas_limits : ℕ → ℕ → Option ℕ
unfolding pack_uint
pack_account_gas_limits validation call = pack_uint validation call

unfoldable pub unpack_account_gas_limits : ℕ → AccountGasLimits
unfolding unpack_uint
unpack_account_gas_limits limits =
    let (validation, call) = unpack_uint limits in
    record { verification_gas_limit = validation; call_gas_limit = call }

-- An aggregator is the number of its address.
pub record ValidationData : Type 0 where
  pub aggregator : ℕ
  pub valid_after : ℕ
  pub valid_until : ℕ

abbrev pub max_uint48 : ℕ
max_uint48 = 281474976710655

abbrev pub sig_validation_failed : ℕ
sig_validation_failed = 1

unfoldable pub parse_validation_data : ℕ → Option ValidationData
parse_validation_data n =
    if ltb n (2 ^ 256)
    then some (record {
      aggregator = n % 2 ^ 160;
      valid_after = n / 2 ^ 208;
      valid_until = if (n / 2 ^ 160) % 2 ^ 48 == 0 then max_uint48 else (n / 2 ^ 160) % 2 ^ 48;
    })
    else none

unfoldable pub merge_validation_data : ValidationData → ValidationData → ValidationData
merge_validation_data account paymaster = record {
  aggregator = if paymaster.aggregator == 0 then account.aggregator else sig_validation_failed;
  valid_after = max account.valid_after paymaster.valid_after;
  valid_until = min account.valid_until paymaster.valid_until;
}

unfoldable pub merge_validation_data_values : ℕ → ℕ → Option ValidationData
unfolding parse_validation_data merge_validation_data
merge_validation_data_values account paymaster = elim (parse_validation_data account) [
  | none ↦ none
  | some a ↦ elim (parse_validation_data paymaster) [
    | none ↦ none
    | some p ↦ some (merge_validation_data a p)
  ]
]

unfoldable pub pack_validation_data : ValidationData → ℕ
pack_validation_data d = (d.valid_after * 2 ^ 48 + d.valid_until) * 2 ^ 160 + d.aggregator

-- Two numbers below 2^128 are packed, and unpacked to themselves.
pub unpack_uint-pack_uint :
    (high low : ℕ)
    → high < 2 ^ 128
    → low < 2 ^ 128
    → (packed : ℕ) × (pack_uint high low ≡ some packed) × (unpack_uint packed ≡ (high, low))
unfolding pack_uint unpack_uint
unpack_uint-pack_uint high low h l =
    (high * 2 ^ 128 + low, ground (arith, h, l), ground (arith, h, l))

-- Validation data whose fields fit and that ends, not at 0, is parsed from what it is packed to.
parse_validation_data-pack :
    (d : ValidationData)
    → d.aggregator < 2 ^ 160
    → d.valid_after < 2 ^ 48
    → d.valid_until < 2 ^ 48
    → 0 < d.valid_until
    → parse_validation_data (pack_validation_data d) ≡ some d
unfolding parse_validation_data pack_validation_data
parse_validation_data-pack d g a u z = ground (arith, g, a, u, z)

-- The merged data hold at exactly the times at which both the account's and the paymaster's do.
merge_validation_data-times :
    (account paymaster : ValidationData) (time : ℕ)
    → let merged = merge_validation_data account paymaster in
      ((merged.valid_after ≤ time) × (time ≤ merged.valid_until)) ↔ (
        (account.valid_after ≤ time)
        × (time ≤ account.valid_until)
        × (paymaster.valid_after ≤ time)
        × (time ≤ paymaster.valid_until))
unfolding merge_validation_data
merge_validation_data-times account paymaster time = ground arith

-- ===== src/PackedOperation/RoundTrip.antt =====
-- An operation, packed and unpacked.
use mathlib.Core.List.{append_assoc}
use bundler.Common.{
  ℕ, ◌+◌, ◌*◌, ◌<◌, ◌^◌, ◌≡◌, refl, sym, ap, ◌∙◌, ◌⊎◌, inl, inr, Option, none, some, [], ◌++◌,
  Result, ok, ◌>>=◌, length, length-append, take-append, drop-append, take, drop, arith,
}
use bundler.PackedOperation.{
  Bytes, UserOperation, PackedUserOperation, PackError, word, pack_paymaster_data, paymaster_bytes,
  padded, init_code, pack_user_op, PaymasterAndData, unpack_paymaster_and_data, with_factory,
  with_paymaster, plain_op, unpack_user_op,
}
use bundler.PackedOperation.Bytes.{to_bytes, of_bytes, of_bytes-to_bytes, length-to_bytes}
use bundler.ValidationData.{pack_uint, unpack_uint}

-- No field of a factory, or one of an address's length, or the EIP-7702 marker, and its data.
unfoldable pub HasFactory : UserOperation → Type 0
HasFactory op =
    ((op.factory ≡ none) × (op.factory_data ≡ none))
    ⊎ ((factory : Bytes) × (bytes : Bytes) × (op.factory ≡ some factory)
        × (op.factory_data ≡ some bytes)
        × (length (padded factory) ≡ 20))

-- No field of a paymaster, or all of them, with an address and gas limits that fit.
unfoldable pub HasPaymaster : UserOperation → Type 0
HasPaymaster op =
    ((op.paymaster ≡ none)
      × (op.paymaster_verification_gas_limit ≡ none)
      × (op.paymaster_post_op_gas_limit ≡ none)
      × (op.paymaster_data ≡ none))
    ⊎ ((paymaster : Bytes) × (verification : ℕ) × (post_op : ℕ) × (bytes : Bytes) × (op.paymaster
          ≡ some paymaster)
        × (op.paymaster_verification_gas_limit ≡ some verification)
        × (op.paymaster_post_op_gas_limit ≡ some post_op)
        × (op.paymaster_data ≡ some bytes)
        × (length paymaster ≡ 20)
        × (verification < 2 ^ 128)
        × (post_op < 2 ^ 128))

unpack-parts :
    (all : Bytes) (verification post_op : ℕ)
    → 51 < length all
    → unpack_uint (of_bytes 0 (take 32 (drop 20 all))) ≡ (verification, post_op)
    → unpack_paymaster_and_data all
      ≡ ok (
          some (record {
            paymaster = take 20 all;
            verification_gas = verification;
            post_op_gas_limit = post_op;
            paymaster_data = drop 52 all;
          }))
unfolding unpack_paymaster_and_data
unpack-parts all verification post_op long h = ground (arith, long, h)

-- What the bytes of a paymaster are unpacked to.
unpack-paymaster :
    (paymaster bytes : Bytes) (gas verification post_op : ℕ)
    → length paymaster ≡ 20
    → gas < 2 ^ 256
    → unpack_uint gas ≡ (verification, post_op)
    → unpack_paymaster_and_data (paymaster ++ (to_bytes 32 gas ++ bytes))
      ≡ ok (
          some (record {
            paymaster = paymaster;
            verification_gas = verification;
            post_op_gas_limit = post_op;
            paymaster_data = bytes;
          }))
unpack-paymaster paymaster bytes gas verification post_op address fits h =
    let all = paymaster ++ (to_bytes 32 gas ++ bytes) in
    let long = length-to_bytes 32 gas in
    let rest : drop 20 all ≡ to_bytes 32 gas ++ bytes = drop-append 20 paymaster _ address in
    let read : of_bytes 0 (take 32 (drop 20 all)) ≡ gas =
      ap (λ bs. of_bytes 0 (take 32 bs)) rest
      ∙ ap (of_bytes 0) (take-append 32 (to_bytes 32 gas) bytes long)
      ∙ of_bytes-to_bytes 32 gas fits in
    let split : drop 52 all ≡ bytes =
      ap (drop 52) (sym (append_assoc paymaster (to_bytes 32 gas) bytes))
      ∙ drop-append 52 (paymaster ++ to_bytes 32 gas) bytes
          (length-append paymaster (to_bytes 32 gas) ∙ cc (address, long)) in
    let total : length all ≡ 52 + length bytes =
      length-append paymaster (to_bytes 32 gas ++ bytes)
      ∙ omega (arith, address, long, length-append (to_bytes 32 gas) bytes) in
    unpack-parts all verification post_op (omega (arith, total)) (ap unpack_uint read ∙ h)
    ∙ ap
        (λ (part : Bytes × Bytes). ok (
          some (record {
            paymaster = part.0;
            verification_gas = verification;
            post_op_gas_limit = post_op;
            paymaster_data = part.1;
          })))
        (cc (take-append 20 paymaster (to_bytes 32 gas ++ bytes) address, split))

-- Two numbers below 2^128 fit a word.
word-ok :
    (high low : ℕ)
    → high < 2 ^ 128
    → low < 2 ^ 128
    → (gas : ℕ) × (word high low ≡ ok gas) × (unpack_uint gas ≡ (high, low)) × (gas < 2 ^ 256)
unfolding pack_uint unpack_uint
word-ok high low h l =
    (high * 2 ^ 128 + low, ground (arith, h, l), ground (arith, h, l), omega (arith, h, l))

abbrev pub padded_factory : Option Bytes → Option Bytes
padded_factory none = none
padded_factory (some factory) = some (padded factory)

with_factory-init_code :
    (op q : UserOperation)
    → HasFactory op
    → q.factory ≡ none
    → q.factory_data ≡ none
    → with_factory (init_code op) q
      ≡ record q { factory = padded_factory op.factory; factory_data = op.factory_data }
unfolding init_code HasFactory
with_factory-init_code op q (inl (f, d)) qf qd = rw (f, d) (ground (arith, qf, qd))
with_factory-init_code op q (inr (factory, bytes, f, d, address)) qf qd =
    let code = padded factory ++ bytes in
    let long : length code ≡ 20 + length bytes =
      length-append (padded factory) bytes ∙ ap (λ n. n + length bytes) address in
    rw (f, d)
      (given code q (omega (arith, long))
        ∙ cc (
          take-append 20 (padded factory) bytes address,
          drop-append 20 (padded factory) bytes address,
        ))
  where
    given :
        (code : Bytes) (q : UserOperation)
        → 0 < length code
        → with_factory code q
          ≡ record q { factory = some (take 20 code); factory_data = some (drop 20 code) }
    given code q h = ground (arith, h)

-- The fields of the paymaster of one operation in another.
abbrev with_fields_of : UserOperation → UserOperation → UserOperation
with_fields_of op q = record q {
  paymaster = op.paymaster;
  paymaster_verification_gas_limit = op.paymaster_verification_gas_limit;
  paymaster_post_op_gas_limit = op.paymaster_post_op_gas_limit;
  paymaster_data = op.paymaster_data;
}

-- An operation without a paymaster.
record IsFree (q : UserOperation) : Type 0 where
  paymaster : q.paymaster ≡ none
  verification : q.paymaster_verification_gas_limit ≡ none
  post_op : q.paymaster_post_op_gas_limit ≡ none
  bytes : q.paymaster_data ≡ none

paymaster_bytes-unpacked :
    (op q : UserOperation)
    → HasPaymaster op
    → IsFree q
    → (bytes : Bytes) × (p : Option PaymasterAndData) × (paymaster_bytes op ≡ ok bytes)
      × (unpack_paymaster_and_data bytes ≡ ok p)
      × (with_paymaster p q ≡ with_fields_of op q)
unfolding paymaster_bytes pack_paymaster_data unpack_paymaster_and_data HasPaymaster
paymaster_bytes-unpacked op q (inl (a, v, o, d)) free = (
  [],
  none,
  rw a refl,
  refl,
  rw (a, v, o, d) (cc (free.paymaster, free.verification, free.post_op, free.bytes)),
)
paymaster_bytes-unpacked op q
      (inr (paymaster, verification, post_op, bytes, a, v, o, d, address, vf, pf)) free =
    let (gas, packed, read, fits) = word-ok verification post_op vf pf in
    (
      paymaster ++ (to_bytes 32 gas ++ bytes),
      some (record {
        paymaster = paymaster;
        verification_gas = verification;
        post_op_gas_limit = post_op;
        paymaster_data = bytes;
      }),
      ground (arith, a, v, o, d, packed),
      unpack-paymaster paymaster bytes gas verification post_op address fits read,
      rw (a, v, o, d) refl,
    )

-- The operation as it comes back: a marker is padded, and there is no authorization.
abbrev pub restored : UserOperation → UserOperation
restored op = record op { factory = padded_factory op.factory; eip7702_auth = none }

-- The operation as it comes back, without a paymaster.
abbrev without_paymaster : UserOperation → UserOperation
without_paymaster op = record op {
  factory = padded_factory op.factory;
  paymaster = none;
  paymaster_verification_gas_limit = none;
  paymaster_post_op_gas_limit = none;
  paymaster_data = none;
  eip7702_auth = none;
}

three-ok :
    {A B C D : Type 0} (first : Result PackError A) (second : Result PackError B)
    (third : Result PackError C) (a : A) (b : B) (c : C) (make : A → B → C → D)
    → first ≡ ok a
    → second ≡ ok b
    → third ≡ ok c
    → (first >>= λ x. second >>= λ y. third >>= λ z. ok (make x y z)) ≡ ok (make a b c)
three-ok first second third a b c make h k l = rw (h, k, l) refl

unpacked :
    (packed : PackedUserOperation) (p : Option PaymasterAndData)
    → unpack_paymaster_and_data packed.paymaster_and_data ≡ ok p
    → unpack_user_op packed
      ≡ ok (with_paymaster p (with_factory packed.init_code (plain_op packed)))
unfolding unpack_user_op
unpacked packed p h =
    ap
      (λ (o : Result PackError (Option PaymasterAndData)).
        o >>= λ x. ok (with_paymaster x (with_factory packed.init_code (plain_op packed))))
      h

-- An operation whose fields of a factory and a paymaster are all there or all missing, and whose
-- addresses and gas limits fit, is packed, and unpacked to itself, but for two fields: the EIP-7702
-- marker comes back as an address, with zeros after it, and an EIP-7702 authorization is lost.
pub unpack_user_op-pack_user_op :
    (op : UserOperation)
    → HasFactory op
    → HasPaymaster op
    → op.verification_gas_limit < 2 ^ 128
    → op.call_gas_limit < 2 ^ 128
    → op.max_priority_fee_per_gas < 2 ^ 128
    → op.max_fee_per_gas < 2 ^ 128
    → (packed : PackedUserOperation) × (pack_user_op op ≡ ok packed)
      × (unpack_user_op packed ≡ ok (restored op))
unfolding pack_user_op unpack_user_op
unpack_user_op-pack_user_op op factory paymaster v c p f =
    let (limits, packed_limits, read_limits, _) =
      word-ok op.verification_gas_limit op.call_gas_limit v c in
    let (fees, packed_fees, read_fees, _) =
      word-ok op.max_priority_fee_per_gas op.max_fee_per_gas p f in
    let q = without_paymaster op in
    let free : IsFree q = record {
      paymaster = refl;
      verification = refl;
      post_op = refl;
      bytes = refl;
    } in
    let (bytes, pm, packed_bytes, read_bytes, back) =
      paymaster_bytes-unpacked op q paymaster free in
    let packed : PackedUserOperation = record {
      sender = op.sender;
      nonce = op.nonce;
      init_code = init_code op;
      call_data = op.call_data;
      account_gas_limits = limits;
      pre_verification_gas = op.pre_verification_gas;
      gas_fees = fees;
      paymaster_and_data = bytes;
      signature = op.signature;
    } in
    let plain : with_factory (init_code op) (plain_op packed) ≡ q =
      with_factory-init_code op (plain_op packed) factory refl refl
      ∙ ap
          (λ (gas : (ℕ × ℕ) × (ℕ × ℕ)). record q {
            verification_gas_limit = gas.0.0;
            call_gas_limit = gas.0.1;
            max_priority_fee_per_gas = gas.1.0;
            max_fee_per_gas = gas.1.1;
          })
          (cc (read_limits, read_fees)) in
    (
      packed,
      three-ok (paymaster_bytes op) (word op.verification_gas_limit op.call_gas_limit)
          (word op.max_priority_fee_per_gas op.max_fee_per_gas) bytes limits fees _ packed_bytes
          packed_limits packed_fees,
      unpacked packed pm read_bytes ∙ ap (λ r. ok (with_paymaster pm r)) plain ∙ ap ok back,
    )

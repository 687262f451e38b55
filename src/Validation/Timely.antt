-- ===== src/Validation/Timely.antt =====
-- When an operation is valid that `validateUserOp` lets through, by the validation data that its
-- account and its paymaster return in the trace of the node.
use bundler.Common.{
  ℕ, ◌+◌, ◌<◌, ◌≤◌, min, max, ◌≡◌, refl, sym, ap, ◌∙◌, subst, ◌⊎◌, inl, inr, false, Option, none,
  some, if◌then◌else◌, Result, ok, err, >>=-eq-ok, ok-injective, arith, Result-cases, Option-cases,
}
use bundler.Common.Text.{Text}
use bundler.Types.{Operation, ReferencedCodeHashes, ValidationResult}
use bundler.ValidationData.{ValidationData, parse_validation_data}
use bundler.Erc7562.{Erc7562Call, Erc7562ValidationResults, Fault, Parser, frame_of}
use bundler.Erc7562.Walk.{require_compliance}
use bundler.Validation.{Failure, Node, Library, get_validation_calls, calls_of, get_stakes}
use bundler.Validation.Decode.{
  Simulated, stake_result, parsed, input_of, output_of, decode_validate_user_op,
  decode_validate_paymaster_user_op, decode_validation, decode_paymaster, decode_inner,
  generate_validation_result,
}
use bundler.Validation.Simulate.{
  output_reason, rethrown, check_reason, geth_trace_call_simulate_validation,
}
use bundler.Validation.Manager.{
  ValidationManager, Examined, first_code_hashes, compliant, examine_safely, examine_unsafely,
  validate_user_op, valid_until_future_seconds,
}
use bundler.Validation.Laws.{examine, validate_user_op-passes, check_result-time}

-- The range of some validation data has begun, and does not end within 30 seconds.
pub IsInTime : ℕ → ValidationData → Type 0
IsInTime now d = (d.valid_after ≤ now) × (now + 30 < d.valid_until)

-- The account's call of a trace, with its validation data, and the paymaster's, if there is one.
pub record IsTimely (lib : Library) (now : ℕ) (op : Operation) (root : Erc7562Call) : Type 0 where
  pub call : Erc7562Call
  pub called : (get_validation_calls op (calls_of root)).validation_call ≡ some call
  pub account : ValidationData
  pub decoded : decode_validate_user_op lib (frame_of call) ≡ ok account
  pub account_in_time : IsInTime now account
  pub paymaster_in_time :
      (paymaster_call : Erc7562Call)
      → (get_validation_calls op (calls_of root)).paymaster_call ≡ some paymaster_call
      → (context : Text) × (paymaster : ValidationData) × (decode_validate_paymaster_user_op lib
            (frame_of paymaster_call)
          ≡ ok (context, paymaster))
        × IsInTime now paymaster

parse_validation_data-nonzero :
    (n : ℕ) (d : ValidationData) → parse_validation_data n ≡ some d → 0 < d.valid_until
unfolding parse_validation_data
parse_validation_data-nonzero n d h = ground (arith, h)

parsed-nonzero :
    (lib : Library) (bytes : Text) (d : ValidationData)
    → parsed lib bytes ≡ ok d
    → 0 < d.valid_until
parsed-nonzero lib bytes d h = elim (Option-cases (parse_validation_data (lib.data_number bytes))) [
  | inl n ↦ absurd (ground (arith, n, h))
  | inr (e, s) ↦ parse_validation_data-nonzero (lib.data_number bytes) d (s ∙ ground (arith, s, h))
]

decode_validate_user_op-nonzero :
    (lib : Library) (c : Erc7562Call) (d : ValidationData)
    → decode_validate_user_op lib (frame_of c) ≡ ok d
    → 0 < d.valid_until
unfolding decode_validate_user_op
decode_validate_user_op-nonzero lib c d h =
    let (input, _, h1) = >>=-eq-ok (input_of (frame_of c) lib.validate_user_op _) _ h in
    let (output, _, h2) = >>=-eq-ok (output_of (frame_of c) _) _ h1 in
    parsed-nonzero lib output d h2

decode_validate_paymaster_user_op-nonzero :
    (lib : Library) (c : Erc7562Call) (context : Text) (d : ValidationData)
    → decode_validate_paymaster_user_op lib (frame_of c) ≡ ok (context, d)
    → 0 < d.valid_until
unfolding decode_validate_paymaster_user_op
decode_validate_paymaster_user_op-nonzero lib c context d h =
    let (input, _, h1) = >>=-eq-ok (input_of (frame_of c) lib.validate_paymaster_user_op _) _ h in
    let (output, _, h2) = >>=-eq-ok (output_of (frame_of c) _) _ h1 in
    let ((t, bytes), _, h3) = >>=-eq-ok (lib.decode_paymaster_output output) _ h2 in
    let (e, read, h4) = >>=-eq-ok (parsed lib bytes) _ h3 in
    subst (λ (x : Text × ValidationData). 0 < x.1.valid_until) (ok-injective h4)
      (parsed-nonzero lib bytes e read)

-- What the account's call and the paymaster's give.
decode_validation-ok :
    (lib : Library) (o : Option Erc7562Call) (d : ValidationData)
    → decode_validation lib o ≡ ok d
    → (c : Erc7562Call) × (o ≡ some c) × (decode_validate_user_op lib (frame_of c) ≡ ok d)
decode_validation-ok lib none d h = absurd (cc)
decode_validation-ok lib (some c) d h = (c, refl, h)

decode_paymaster-ok :
    (lib : Library) (o : Option Erc7562Call) (c : Erc7562Call) (d : Option Text × ValidationData)
    → decode_paymaster lib o ≡ ok d
    → o ≡ some c
    → (context : Text) × (decode_validate_paymaster_user_op lib (frame_of c) ≡ ok (context, d.1))
decode_paymaster-ok lib none c d h e = absurd (cc)
decode_paymaster-ok lib (some b) c d h e =
    let ((context, values), read, h1) =
      >>=-eq-ok (decode_validate_paymaster_user_op lib (frame_of b)) _ h in
    (
      context,
      ap (λ x. decode_validate_paymaster_user_op lib (frame_of x)) (sym (some-injective e))
          ∙ read
          ∙ ap (λ (x : Option Text × ValidationData). ok (context, x.1)) (ok-injective h1),
    )
  where
    some-injective : {x y : Erc7562Call} → some x ≡ some y → x ≡ y
    some-injective q = cc

-- The least end and the greatest start are in time only if both are.
combined-IsInTime :
    (account paymaster : ValidationData) (now : ℕ)
    → 0 < account.valid_until
    → 0 < paymaster.valid_until
    → max account.valid_after paymaster.valid_after ≤ now
    → (min account.valid_until paymaster.valid_until ≡ 0)
      ⊎ (now + valid_until_future_seconds < min account.valid_until paymaster.valid_until)
    → IsInTime now account × IsInTime now paymaster
unfolding IsInTime
combined-IsInTime account paymaster now a p after (inl z) = absurd (ground (arith, a, p, z))
combined-IsInTime account paymaster now a p after (inr u) = ground (arith, after, u)

decode_paymaster-nonzero :
    (lib : Library) (o : Option Erc7562Call) (d : Option Text × ValidationData)
    → decode_paymaster lib o ≡ ok d
    → 0 < d.1.valid_until
decode_paymaster-nonzero lib none d h =
    subst (λ (x : Option Text × ValidationData). 0 < x.1.valid_until) (ok-injective h)
      (ground arith)
decode_paymaster-nonzero lib (some c) d h =
    let (context, read) = decode_paymaster-ok lib (some c) c d h refl in
    decode_validate_paymaster_user_op-nonzero lib c context d.1 read

generate_validation_result-IsTimely :
    (n : Node) (lib : Library) (op : Operation) (root : Erc7562Call) (v : Simulated) (now : ℕ)
    → generate_validation_result n lib op root ≡ ok v
    → v.valid_after ≤ now
    → (v.valid_until ≡ 0) ⊎ (now + valid_until_future_seconds < v.valid_until)
    → IsTimely lib now op root
unfolding generate_validation_result
generate_validation_result-IsTimely n lib op root v now h after until =
    let calls = get_validation_calls op (calls_of root) in
    let (account, read, h1) = >>=-eq-ok (decode_validation lib calls.validation_call) _ h in
    let (paymaster, paid, h2) = >>=-eq-ok (decode_paymaster lib calls.paymaster_call) _ h1 in
    let (inner, _, h3) = >>=-eq-ok (decode_inner lib calls.inner_call) _ h2 in
    let (stakes, _, h4) = >>=-eq-ok (get_stakes n op.sender op.paymaster op.factory) _ h3 in
    let same = ok-injective h4 in
    let (call, called, decoded) = decode_validation-ok lib calls.validation_call account read in
    let both =
      combined-IsInTime account paymaster.1 now
        (decode_validate_user_op-nonzero lib call account decoded)
        (decode_paymaster-nonzero lib calls.paymaster_call paymaster paid)
        (subst (λ (x : Simulated). x.valid_after ≤ now) (sym same) after)
        (subst
          (λ (x : Simulated).
            (x.valid_until ≡ 0) ⊎ (now + valid_until_future_seconds < x.valid_until))
          (sym same) until) in
    record {
      call = call;
      called = called;
      account = account;
      decoded = decoded;
      account_in_time = both.0;
      paymaster_in_time = λ c there.
          let (context, given) =
            decode_paymaster-ok lib calls.paymaster_call c paymaster paid there in
          (context, paymaster.1, given, both.1);
    }

rethrown-ok :
    {A : Type 0} (lib : Library) (out : Result Failure A) (a : A)
    → rethrown lib out ≡ ok a
    → out ≡ ok a
rethrown-ok lib (ok b) a h = h
rethrown-ok lib (err e) a h = absurd (cc)

simulate-generated :
    (n : Node) (lib : Library) (op : Operation) (v : Simulated) (root : Erc7562Call)
    → geth_trace_call_simulate_validation n lib op ≡ ok (v, root)
    → (n.trace_handle_ops op ≡ ok root) × (generate_validation_result n lib op root ≡ ok v)
unfolding geth_trace_call_simulate_validation
simulate-generated n lib op v root h =
    let (r, traced, h1) = >>=-eq-ok (n.trace_handle_ops op) _ h in
    let (reason, _, h2) = >>=-eq-ok (output_reason lib r) _ h1 in
    let (_, _, h3) = >>=-eq-ok (check_reason reason) _ h2 in
    let (w, made, h4) = >>=-eq-ok (rethrown lib (generate_validation_result n lib op r)) _ h3 in
    let same = ok-injective h4 in
    (
      traced ∙ ap (λ (pair : Simulated × Erc7562Call). ok pair.1) same,
      subst
          (λ (pair : Simulated × Erc7562Call).
            generate_validation_result n lib op pair.1 ≡ ok pair.0)
          same (rethrown-ok lib (generate_validation_result n lib op r) w made),
    )

compliant-simulated :
    (n : Node) (previous : Option ReferencedCodeHashes) (v : Simulated)
    (out : Parser × Result Fault Erc7562ValidationResults) (x : Examined)
    → (compliant n previous v out).1 ≡ ok x
    → x.simulated ≡ v
compliant-simulated n previous v (p, err e) x h = absurd (cc)
compliant-simulated n previous v (p, ok found) x h =
    let (hashes, _, e) = >>=-eq-ok (first_code_hashes n previous found.contract_addresses) _ h in
    sym (ap (λ (y : Examined). y.simulated) (ok-injective e))

examine_safely-simulated :
    (m : ValidationManager) (op : Operation) (previous : Option ReferencedCodeHashes) (p : Parser)
    (x : Examined)
    → (examine_safely m op previous p).1 ≡ ok x
    → (root : Erc7562Call) × (m.node.trace_handle_ops op ≡ ok root)
      × (generate_validation_result m.node m.lib op root ≡ ok x.simulated)
unfolding examine_safely
examine_safely-simulated m op previous p x h =
    elim (Result-cases (geth_trace_call_simulate_validation m.node m.lib op)) [
      | inr (e, failed) ↦ absurd (ground (arith, failed, h))
      | inl ((v, root), simulated) ↦
          let same =
            compliant-simulated m.node previous v
              (require_compliance m.setting op root (stake_result v) p) x
              (subst
                (λ (c : Result Failure (Simulated × Erc7562Call)).
                  (elim c as (λ _. Parser × Result Failure Examined) [
                    | err e ↦ (p, err e)
                    | ok (w, r) ↦
                        compliant m.node previous w
                          (require_compliance m.setting op r (stake_result w) p)
                  ]).1
                  ≡ ok x)
                simulated h) in
          let (traced, made) = simulate-generated m.node m.lib op v root simulated in
          (root, traced, made ∙ ap ok (sym same))
    ]

-- Where a manager with a tracer lets an operation through, for the first time or again, the node gives
-- a trace of it, in which the validation data that the account returns, and those that the paymaster
-- returns if it is called, are in time: the range of each has begun, and ends more than 30 seconds from
-- now. Without a tracer nothing of this is known, since the range is then taken to have no end.
pub validate_user_op-in_time :
    (m : ValidationManager) (op : Operation) (previous : Option ReferencedCodeHashes) (p : Parser)
    (r : ValidationResult)
    → m.unsafe ≡ false
    → (validate_user_op m op previous p).1 ≡ ok r
    → (root : Erc7562Call) × (m.node.trace_handle_ops op ≡ ok root)
      × IsTimely m.lib m.node.now op root
unfolding examine
validate_user_op-in_time m op previous p r safe h =
    let (_, x, examined, passed, _) = validate_user_op-passes m op previous p r h in
    let (root, traced, made) = examine_safely-simulated m op previous p x (
      subst
        (λ b. (if b then (p, examine_unsafely m op) else examine_safely m op previous p).1 ≡ ok x)
        safe examined) in
    let (after, until) = check_result-time m op x.simulated passed in
    (
      root,
      traced,
      generate_validation_result-IsTimely m.node m.lib op root x.simulated m.node.now made after
          until,
    )

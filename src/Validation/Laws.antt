-- ===== src/Validation/Laws.antt =====
-- What an operation is that `validateUserOp` lets through.
use bundler.Common.{
  ℕ, ◌+◌, ◌<◌, ◌≤◌, ◌==◌, ◌≡◌, refl, ap, ◌∙◌, subst, ◌⊎◌, inl, inr, Bool, true, false, Option, some,
  List, [], ◌∷◌, if◌then◌else◌, Result, ok, err, ◌>>◌, >>=-eq-ok, ok-injective, length, arith,
  Bool-cases, Result-cases,
}
use bundler.Common.Text.{to_lower}
use bundler.Types.{
  Operation, Authorization, ReferencedCodeHashes, ValidationResult, ValidationErrors,
}
use bundler.Utils.{get_authorization_list}
use bundler.Erc7562.{Parser}
use bundler.Validation.{Failure, Reason, require_that, Node}
use bundler.Validation.Decode.{Simulated}
use bundler.Validation.Manager.{
  ValidationManager, get_code_hashes, check_code_hashes, check_each, check_authorizations, Examined,
  examine_safely, examine_unsafely, check_time_range, check_result, result_of, check_before,
  checked, validate_user_op, valid_until_future_seconds,
}

require_that-ok :
    (b : Bool) (reason : Reason) (code : ValidationErrors)
    → require_that b reason code ≡ ok tt
    → b ≡ true
require_that-ok true reason code h = refl
require_that-ok false reason code h = absurd (cc)

>>-eq-ok :
    {A : Type 0} (first : Result Failure (Unit {0})) (next : Result Failure A) {last : A}
    → (first >> next) ≡ ok last
    → (first ≡ ok tt) × (next ≡ ok last)
>>-eq-ok (err e) next h = absurd (cc)
>>-eq-ok (ok tt) next h = (refl, h)

checked-ok :
    (m : ValidationManager) (op : Operation) (out : Parser × Result Failure Examined)
    (r : ValidationResult)
    → (checked m op out).1 ≡ ok r
    → (x : Examined) × (out.1 ≡ ok x) × (check_result m op x.simulated ≡ ok tt) × (result_of x ≡ r)
checked-ok m op (p, err e) r h = absurd (cc)
checked-ok m op (p, ok x) r h =
    let (passed, given) = >>-eq-ok (check_result m op x.simulated) (ok (result_of x)) h in
    (x, refl, passed, ok-injective given)

-- The simulation in the manager's mode.
unfoldable pub examine :
    ValidationManager
    → Operation
    → Option ReferencedCodeHashes
    → Parser
    → Parser × Result Failure Examined
examine m op previous p =
    if m.unsafe then (p, examine_unsafely m op) else examine_safely m op previous p

-- A validation that succeeds passes its checks before the simulation, has a simulation that succeeds,
-- and passes the checks of its result.
pub validate_user_op-passes :
    (m : ValidationManager) (op : Operation) (previous : Option ReferencedCodeHashes) (p : Parser)
    (r : ValidationResult)
    → (validate_user_op m op previous p).1 ≡ ok r
    → (check_before m op previous ≡ ok tt)
      × (x : Examined) × ((examine m op previous p).1 ≡ ok x)
      × (check_result m op x.simulated ≡ ok tt)
      × (result_of x ≡ r)
unfolding validate_user_op examine
validate_user_op-passes m op previous p r h = elim (Result-cases (check_before m op previous)) [
  | inr (e, failed) ↦ absurd (ground (arith, failed, h))
  | inl (t, passed) ↦
      let (x, given, fine, e) = checked-ok m op (examine m op previous p) r (
        subst
          (λ (c : Result Failure (Unit {0})).
            (elim c as (λ _. Parser × Result Failure ValidationResult) [
              | err e ↦ (p, err e)
              | ok _ ↦ checked m op (examine m op previous p)
            ]).1
            ≡ ok r)
          passed h) in
      (passed, x, given, fine, e)
]

require_time :
    (now : ℕ) (v : Simulated)
    → check_time_range now v ≡ ok tt
    → (v.valid_after ≤ now)
      × ((v.valid_until ≡ 0) ⊎ (now + valid_until_future_seconds < v.valid_until))
unfolding check_time_range
require_time now v h = elim (Bool-cases (v.valid_until == 0)) [
  | inl z ↦ (ground (arith, h), inl (ground (arith, z)))
  | inr z ↦ (ground (arith, h), inr (ground (arith, z, h)))
]

-- A result that passes its checks has begun, and has no end or does not end within 30 seconds.
pub check_result-time :
    (m : ValidationManager) (op : Operation) (v : Simulated)
    → check_result m op v ≡ ok tt
    → (v.valid_after ≤ m.node.now)
      × ((v.valid_until ≡ 0) ⊎ (m.node.now + valid_until_future_seconds < v.valid_until))
unfolding check_result
check_result-time m op v passed =
    let (before_last, _) = >>-eq-ok _ (require_that _ _ _) passed in
    let (_, in_time) = >>-eq-ok _ (check_time_range m.node.now v) before_last in
    require_time m.node.now v in_time

-- What `validateUserOp` asks of the authorizations of an operation: there is at most one, it is for
-- the chain or for all, and its signer is the sender.
pub IsAuthorized : ValidationManager → Operation → List Authorization → Type 0
IsAuthorized m op [] = Unit
IsAuthorized m op (a ∷ []) =
    (to_lower (m.lib.signer_of a) ≡ to_lower op.sender)
    × ((a.chain_id ≡ 0) ⊎ (m.node.chain_id ≡ ok a.chain_id))
IsAuthorized m op (a ∷ b ∷ rest) = ⊥

check_authorizations-IsAuthorized :
    (m : ValidationManager) (op : Operation) (auths : List Authorization)
    → check_authorizations m.node m.lib op.sender auths ≡ ok tt
    → IsAuthorized m op auths
unfolding check_authorizations check_each IsAuthorized
check_authorizations-IsAuthorized m op [] h = tt
check_authorizations-IsAuthorized m op (a ∷ []) h =
    let (chain, known, each) = >>=-eq-ok m.node.chain_id _ h in
    let (inner, _) = >>-eq-ok _ (ok tt) each in
    let (on_chain, signed) = >>-eq-ok _ (require_that _ _ _) inner in
    let allowed = require_that-ok _ _ _ on_chain in
    (
      ground (arith, require_that-ok _ _ _ signed),
      elim (Bool-cases (a.chain_id == 0)) [
        | inl z ↦ inl (ground (arith, z))
        | inr z ↦ inr (known ∙ ap ok (ground (arith, z, allowed)))
      ],
    )
check_authorizations-IsAuthorized m op (a ∷ b ∷ rest) h = absurd (ground (arith, h))

check_before-ok :
    (m : ValidationManager) (op : Operation) (previous : Option ReferencedCodeHashes)
    → check_before m op previous ≡ ok tt
    → (check_code_hashes m.node previous ≡ ok tt)
      × (check_authorizations m.node m.lib op.sender (get_authorization_list op) ≡ ok tt)
unfolding check_before
check_before-ok m op previous h =
    >>-eq-ok (check_code_hashes m.node previous)
      (check_authorizations m.node m.lib op.sender (get_authorization_list op)) h

check_code_hashes-same :
    (n : Node) (previous : ReferencedCodeHashes)
    → check_code_hashes n (some previous) ≡ ok tt
    → 0 < length previous.addresses
    → n.code_hash previous.addresses ≡ ok previous.hash
unfolding check_code_hashes get_code_hashes
check_code_hashes-same n previous h nonempty =
    elim (Result-cases (n.code_hash previous.addresses)) [
      | inl (hash, known) ↦ known ∙ ap ok (ground (arith, known, nonempty, h))
      | inr (e, failed) ↦ absurd (ground (arith, failed, nonempty, h))
    ]

-- An operation that `validateUserOp` lets through has at most one authorization, whose signer is its
-- sender, and which is for the node's chain or for any.
pub validate_user_op-IsAuthorized :
    (m : ValidationManager) (op : Operation) (previous : Option ReferencedCodeHashes) (p : Parser)
    (r : ValidationResult)
    → (validate_user_op m op previous p).1 ≡ ok r
    → IsAuthorized m op (get_authorization_list op)
validate_user_op-IsAuthorized m op previous p r h =
    let (before, _, _, _, _) = validate_user_op-passes m op previous p r h in
    check_authorizations-IsAuthorized m op (get_authorization_list op)
      (check_before-ok m op previous before).1

-- Where a validation is repeated, the code of the contracts that the first one referred to is the same.
pub validate_user_op-same_code :
    (m : ValidationManager) (op : Operation) (previous : ReferencedCodeHashes) (p : Parser)
    (r : ValidationResult)
    → (validate_user_op m op (some previous) p).1 ≡ ok r
    → 0 < length previous.addresses
    → m.node.code_hash previous.addresses ≡ ok previous.hash
validate_user_op-same_code m op previous p r h nonempty =
    let (before, _, _, _, _) = validate_user_op-passes m op (some previous) p r h in
    check_code_hashes-same m.node previous (check_before-ok m op (some previous) before).0 nonempty

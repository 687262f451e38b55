-- ===== src/Validation/Compliant.antt =====
-- What the first validation of an operation, with a tracer, finds out about its contracts.
use bundler.Common.{
  ◌<◌, ◌≡◌, refl, sym, ap, ◌∙◌, subst, true, false, none, some, inl, inr, List, if◌then◌else◌,
  Result, ok, err, >>=-eq-ok, ok-injective, length, arith, Result-cases,
}
use bundler.Common.Text.{Text}
use bundler.Types.{Operation, ReferencedCodeHashes, ValidationResult}
use bundler.Erc7562.{Erc7562Call, Erc7562ValidationResults, Fault, Parser}
use bundler.Erc7562.Walk.{require_compliance}
use bundler.Erc7562.Compliance.{complies, addresses}
use bundler.Erc7562.Visits.{require_compliance-complies}
use bundler.Validation.{Failure, Node, Library}
use bundler.Validation.Decode.{generate_validation_result, Simulated, stake_result}
use bundler.Validation.Simulate.{
  output_reason, rethrown, check_reason, geth_trace_call_simulate_validation,
}
use bundler.Validation.Manager.{
  ValidationManager, get_code_hashes, Examined, compliant, examine_safely, examine_unsafely,
  validate_user_op,
}
use bundler.Validation.Laws.{examine, validate_user_op-passes, validate_user_op-same_code}

-- The trace that the node gives obeys the five rules of `complies`, and the contracts are those of the
-- calls that are walked, with the hash of their code.
pub record IsTraced (m : ValidationManager) (op : Operation) (found : ReferencedCodeHashes)
    : Type 0 where
  pub root : Erc7562Call
  pub traced : m.node.trace_handle_ops op ≡ ok root
  pub compliance : complies m.setting op root ≡ true
  pub contracts : found.addresses ≡ addresses m.setting root
  pub code : m.node.code_hash found.addresses ≡ ok found.hash

simulate-traced :
    (n : Node) (lib : Library) (op : Operation) (v : Simulated) (root : Erc7562Call)
    → geth_trace_call_simulate_validation n lib op ≡ ok (v, root)
    → n.trace_handle_ops op ≡ ok root
unfolding geth_trace_call_simulate_validation
simulate-traced n lib op v root h =
    let (r, traced, h1) = >>=-eq-ok (n.trace_handle_ops op) _ h in
    let (reason, _, h2) = >>=-eq-ok (output_reason lib r) _ h1 in
    let (_, _, h3) = >>=-eq-ok (check_reason reason) _ h2 in
    let (w, _, h4) = >>=-eq-ok (rethrown lib (generate_validation_result n lib op r)) _ h3 in
    traced ∙ ap (λ (pair : Simulated × Erc7562Call). ok pair.1) (ok-injective h4)

get_code_hashes-ok :
    (n : Node) (addresses : List Text) (found : ReferencedCodeHashes)
    → get_code_hashes n addresses ≡ ok found
    → (found.addresses ≡ addresses) × (n.code_hash addresses ≡ ok found.hash)
unfolding get_code_hashes
get_code_hashes-ok n addresses found h =
    let (hash, known, e) = >>=-eq-ok (n.code_hash addresses) _ h in
    let same = ok-injective e in
    (
      sym (ap (λ (c : ReferencedCodeHashes). c.addresses) same),
      known ∙ ap (λ (c : ReferencedCodeHashes). ok c.hash) same,
    )

compliant-ok :
    (n : Node) (v : Simulated) (out : Parser × Result Fault Erc7562ValidationResults) (x : Examined)
    → (compliant n none v out).1 ≡ ok x
    → (found : Erc7562ValidationResults) × (out.1 ≡ ok found)
      × (get_code_hashes n found.contract_addresses ≡ ok x.code_hashes)
compliant-ok n v (p, err e) x h = absurd (cc)
compliant-ok n v (p, ok found) x h =
    let (hashes, known, e) = >>=-eq-ok (get_code_hashes n found.contract_addresses) _ h in
    (found, refl, known ∙ ap (λ (y : Examined). ok y.code_hashes) (ok-injective e))

examine_safely-IsTraced :
    (m : ValidationManager) (op : Operation) (p : Parser) (x : Examined)
    → (examine_safely m op none p).1 ≡ ok x
    → IsTraced m op x.code_hashes
unfolding examine_safely
examine_safely-IsTraced m op p x h =
    elim (Result-cases (geth_trace_call_simulate_validation m.node m.lib op)) [
      | inr (e, failed) ↦ absurd (ground (arith, failed, h))
      | inl ((v, root), simulated) ↦
          let out = require_compliance m.setting op root (stake_result v) p in
          let (found, passed, hashed) = compliant-ok m.node v out x (
            subst
              (λ (c : Result Failure (Simulated × Erc7562Call)).
                (elim c as (λ _. Parser × Result Failure Examined) [
                  | err e ↦ (p, err e)
                  | ok (w, r) ↦
                      compliant m.node none w (require_compliance m.setting op r (stake_result w) p)
                ]).1
                ≡ ok x)
              simulated h) in
          let (good, _, walked) =
            require_compliance-complies m.setting op root (stake_result v) p found passed in
          let (same, code) =
            get_code_hashes-ok m.node found.contract_addresses x.code_hashes hashed in
          record {
            root = root;
            traced = simulate-traced m.node m.lib op v root simulated;
            compliance = good;
            contracts = same ∙ walked;
            code = subst (λ a. m.node.code_hash a ≡ ok x.code_hashes.hash) (sym same) code;
          }
    ]

-- Where a manager with a tracer lets an operation through for the first time, each call of the node's
-- trace obeys the rules OP-011, OP-020, OP-041, OP-061 and OP-062, and the contracts that the result
-- refers to are those of the trace's calls, with the hash that the node gives of their code: both but for
-- calls of the entry point to itself and those within them.
pub validate_user_op-IsTraced :
    (m : ValidationManager) (op : Operation) (p : Parser) (r : ValidationResult)
    → m.unsafe ≡ false
    → (validate_user_op m op none p).1 ≡ ok r
    → IsTraced m op r.referenced_contracts
unfolding examine
validate_user_op-IsTraced m op p r safe h =
    let (_, x, examined, _, e) = validate_user_op-passes m op none p r h in
    subst (λ (y : ValidationResult). IsTraced m op y.referenced_contracts) e
      (examine_safely-IsTraced m op p x (
        subst (λ b. (if b then (p, examine_unsafely m op) else examine_safely m op none p).1 ≡ ok x)
          safe examined))

-- Where an operation is let through once, by a manager with a tracer, and again later, by a manager at a
-- later state of the chain, which is given the result of the first time, the code of the contracts
-- called in the first trace, but for calls of the entry point to itself and those within them, has the
-- same hash both times, as long as there is one such contract.
pub validate_user_op-unchanged :
    (m later : ValidationManager) (op : Operation) (p q : Parser) (r s : ValidationResult)
    → m.unsafe ≡ false
    → (validate_user_op m op none p).1 ≡ ok r
    → (validate_user_op later op (some r.referenced_contracts) q).1 ≡ ok s
    → 0 < length r.referenced_contracts.addresses
    → (root : Erc7562Call) × (m.node.trace_handle_ops op ≡ ok root)
      × (later.node.code_hash (addresses m.setting root)
          ≡ m.node.code_hash (addresses m.setting root))
validate_user_op-unchanged m later op p q r s safe first again nonempty =
    let t = validate_user_op-IsTraced m op p r safe first in
    let same = validate_user_op-same_code later op r.referenced_contracts q s again nonempty in
    (
      t.root,
      t.traced,
      subst (λ a. later.node.code_hash a ≡ m.node.code_hash a) t.contracts (same ∙ sym t.code),
    )

-- ===== src/Erc7562/Bail.antt =====
-- requireCompliance and parseResults of packages/validation-manager/src/ERC7562Parser.ts: to throw at
-- the first violation, and to collect them all.
use mathlib.Core.List.{append_assoc, append-nil}
use bundler.Common.{
  ℕ, ◌+◌, ◌≡◌, refl, sym, ap, ◌∙◌, subst, Bool, true, false, not, Option, none, some, List, [], ◌∷◌,
  ◌++◌, if◌then◌else◌, Result, ok, err, arith, Bool-cases, Option-cases, Result-cases, inl, inr,
  ◌⊎◌,
}
use bundler.Common.Text.{Text, same, to_lower}
use bundler.Types.{Operation}
use bundler.Erc7562.{
  AccountAbstractionEntity, entry_point_entity, sender_creator_entity, account_entity,
  native_nonce_manager_entity, paymaster_entity, factory_entity, unknown_entity, Frame, Erc7562Call,
  frame_calls, frame_of, no_calls_from_entry_point, Calls, no_calls, and_call, Erc7562Violation,
  Fault, to_error, StakeResult, Setting, Parser, Erc7562ValidationResults,
}
use bundler.Erc7562.Actions.{
  Action, continue, skip, throws, modify, each, report, violation_detected, ◌>>◌,
}
use bundler.Erc7562.Checks.{Place}
use bundler.Erc7562.Slots.{parse_entity_slots}
use bundler.Erc7562.Walk.{
  is_system_code, is_from_system, is_self_call, place, enter, matching, context_of, check_slot,
  check_storage, check_call, detect_entity_change, detect_factory, detect_paymaster,
  detect_system_entity, visit, inner_step_recursive, inner_steps, parse, walk, parse_results,
  returning, results, stop_bailing, set_bail, require_compliance, init, has_calls,
}

-- The violations only grow, and the flag stays.
pub record Grows (p p' : Parser) : Type 0 where
  pub added : List Erc7562Violation
  pub violations : p'.rule_violations ≡ p.rule_violations ++ added
  pub flag : p'.bail_on_violation ≡ p.bail_on_violation

-- What throwing at once makes of a run that collects: the same, if that has no violation, and
-- otherwise the error of its first one.
pub data Cuts (out : Parser × Result Fault (Unit {0}))
    : Parser × Result Fault (Unit {0}) → Type 0 where
  clean : out.0.rule_violations ≡ [] → Cuts out (set_bail true out.0, out.1)
  cut :
      {p : Parser} (v : Erc7562Violation) (vs : List Erc7562Violation)
      → out.0.rule_violations ≡ v ∷ vs
      → Cuts out (p, err (to_error v))

pub record IsCuttable (m : Action) : Type 0 where
  pub grows : (p : Parser) → Grows p (m p).0
  pub cuts :
      (p : Parser)
      → p.rule_violations ≡ []
      → p.bail_on_violation ≡ false
      → Cuts (m p) (m (set_bail true p))

Grows-refl : (p : Parser) → Grows p p
Grows-refl p = record { added = []; violations = sym (append-nil p.rule_violations); flag = refl }

Grows-trans : (p q r : Parser) → Grows p q → Grows q r → Grows p r
Grows-trans p q r a b = record {
  added = a.added ++ b.added;
  violations =
      b.violations
      ∙ (ap (λ vs. vs ++ b.added) a.violations ∙ append_assoc p.rule_violations a.added b.added);
  flag = b.flag ∙ a.flag;
}

skip-IsCuttable : IsCuttable skip
skip-IsCuttable = record { grows = Grows-refl; cuts = λ p e f. clean e }

throws-IsCuttable : (e : Fault) → IsCuttable (throws e)
throws-IsCuttable e = record { grows = Grows-refl; cuts = λ p h f. clean h }

violation_detected-IsCuttable : (v : Erc7562Violation) → IsCuttable (violation_detected v)
unfolding violation_detected
violation_detected-IsCuttable v = record {
  grows = λ p. record { added = v ∷ []; violations = refl; flag = refl };
  cuts = λ p e f. cut v [] (rw e refl);
}

-- A change of other fields.
modify-IsCuttable :
    (f : Parser → Parser)
    → ((p : Parser)
        → ((f p).rule_violations ≡ p.rule_violations)
          × ((f p).bail_on_violation ≡ p.bail_on_violation)
          × (f (set_bail true p) ≡ set_bail true (f p)))
    → IsCuttable (modify f)
modify-IsCuttable f h = record {
  grows = λ p. record {
    added = [];
    violations = (h p).0 ∙ sym (append-nil p.rule_violations);
    flag = (h p).1;
  };
  cuts = λ p e g. subst (λ q. Cuts (f p, ok tt) (q, ok tt)) (sym (h p).2) (clean ((h p).0 ∙ e));
}

module _ (k : Action) (sound : IsCuttable k) where
  continue-Grows :
      (p : Parser) (out : Parser × Result Fault (Unit {0}))
      → Grows p out.0
      → Grows p (continue out k).0
  continue-Grows p (q, err e) g = g
  continue-Grows p (q, ok t) g = Grows-trans p q (k q).0 g (sound.grows q)

  continue-Cuts :
      (out out' : Parser × Result Fault (Unit {0}))
      → out.0.bail_on_violation ≡ false
      → Cuts out out'
      → Cuts (continue out k) (continue out' k)
  continue-Cuts (q, err x) out' f (clean e) = clean e
  continue-Cuts (q, ok t) out' f (clean e) = sound.cuts q e f
  continue-Cuts (q, err x) out' f (cut v vs e) = cut v vs e
  continue-Cuts (q, ok t) out' f (cut v vs e) =
      cut v (vs ++ (sound.grows q).added)
        ((sound.grows q).violations ∙ ap (λ ws. ws ++ (sound.grows q).added) e)

seq-IsCuttable : (m k : Action) → IsCuttable m → IsCuttable k → IsCuttable (m >> k)
unfolding ◌>>◌
seq-IsCuttable m k a b = record {
  grows = λ p. continue-Grows k b p (m p) (a.grows p);
  cuts =
      λ p e f. continue-Cuts k b (m p) (m (set_bail true p)) ((a.grows p).flag ∙ f) (a.cuts p e f);
}

each-IsCuttable :
    {A : Type 0} (body : A → Action)
    → ((x : A) → IsCuttable (body x))
    → (xs : List A) → IsCuttable (each body xs)
unfolding each
each-IsCuttable body sound [] = skip-IsCuttable
each-IsCuttable body sound (x ∷ xs) =
    seq-IsCuttable (body x) (each body xs) (sound x) (each-IsCuttable body sound xs)

pub report-IsCuttable : (vs : List Erc7562Violation) → IsCuttable (report vs)
unfolding report
report-IsCuttable vs = each-IsCuttable violation_detected violation_detected-IsCuttable vs

-- An action that is chosen by the state, but not by its flag.
chosen-IsCuttable :
    (m : Parser → Action)
    → ((p : Parser) → IsCuttable (m p))
    → ((p : Parser) → m (set_bail true p) ≡ m p)
    → IsCuttable (λ p. m p p)
chosen-IsCuttable m sound same_choice = record {
  grows = λ p. (sound p).grows p;
  cuts = λ p e f.
      subst (λ (a : Action). Cuts (m p p) (a (set_bail true p))) (sym (same_choice p))
        ((sound p).cuts p e f);
}

if-IsCuttable :
    (b : Bool) (m k : Action) → IsCuttable m → IsCuttable k → IsCuttable (if b then m else k)
if-IsCuttable true m k a c = a
if-IsCuttable false m k a c = c

module _ (s : Setting) (op : Operation) (v : StakeResult) where
  check_slot-IsCuttable :
      (l : Place) (address : Text) (slots : bundler.Common.Dict.Dict (List Text)) (slot : Text)
      → IsCuttable (check_slot s op v l address slots slot)
  unfolding check_slot
  check_slot-IsCuttable l address slots slot =
      seq-IsCuttable _ _ (modify-IsCuttable _ (λ p. (refl, refl, refl))) (report-IsCuttable _)

  pub check_storage-IsCuttable : (l : Place) → IsCuttable (check_storage s op v l)
  unfolding check_storage
  check_storage-IsCuttable l =
      chosen-IsCuttable _
        (λ p. if-IsCuttable (is_system_code s l.frame.to) skip _ skip-IsCuttable (
          each-IsCuttable _
            (check_slot-IsCuttable l p.current_entity_address (parse_entity_slots s op p.keccak))
            _))
        (λ p. refl)

  pub check_call-IsCuttable :
      (f : Frame) (depth : ℕ) (at : Text) → IsCuttable (check_call s op v f depth at)
  unfolding check_call
  check_call-IsCuttable f depth at =
      chosen-IsCuttable _
        (λ p.
          seq-IsCuttable _ _ (report-IsCuttable _)
            (check_storage-IsCuttable (place f depth at p.current_entity)))
        (λ p. refl)

  enter-IsCuttable :
      (role : AccountAbstractionEntity) (address : Text) → IsCuttable (enter role address)
  enter-IsCuttable role address = modify-IsCuttable _ (λ p. (refl, refl, refl))

  detect_system_entity-IsCuttable : (f : Frame) → IsCuttable (detect_system_entity s f)
  unfolding detect_system_entity
  detect_system_entity-IsCuttable f =
      if-IsCuttable (same s.entry_point_address (to_lower f.to)) _ _
        (enter-IsCuttable entry_point_entity s.entry_point_address)
        (if-IsCuttable (same s.sender_creator_address (to_lower f.to)) _ _
          (enter-IsCuttable sender_creator_entity s.sender_creator_address)
          (named (matching s.nonce_manager_address f.to)))
    where
      named :
          (o : Option Text)
          → IsCuttable (elim o as (λ _. Action) [
            | some manager ↦ enter native_nonce_manager_entity manager
            | none ↦ throws (unknown_entity f.to)
          ])
      named none = throws-IsCuttable (unknown_entity f.to)
      named (some manager) = enter-IsCuttable native_nonce_manager_entity manager

  detect_paymaster-IsCuttable : (f : Frame) → IsCuttable (detect_paymaster s op f)
  unfolding detect_paymaster
  detect_paymaster-IsCuttable f =
      named (matching op.paymaster f.to) (detect_system_entity-IsCuttable f)
    where
      named :
          (o : Option Text)
          → IsCuttable (detect_system_entity s f)
          → IsCuttable (elim o as (λ _. Action) [
            | some paymaster ↦ enter paymaster_entity paymaster
            | none ↦ detect_system_entity s f
          ])
      named none rest = rest
      named (some paymaster) rest = enter-IsCuttable paymaster_entity paymaster

  detect_factory-IsCuttable : (f : Frame) → IsCuttable (detect_factory s op f)
  unfolding detect_factory
  detect_factory-IsCuttable f = named (matching op.factory f.to) (detect_paymaster-IsCuttable f)
    where
      named :
          (o : Option Text)
          → IsCuttable (detect_paymaster s op f)
          → IsCuttable (elim o as (λ _. Action) [
            | some factory ↦
                if same (to_lower f.from) s.sender_creator_address
                then enter factory_entity factory
                else detect_paymaster s op f
            | none ↦ detect_paymaster s op f
          ])
      named none rest = rest
      named (some factory) rest =
          if-IsCuttable (same (to_lower f.from) s.sender_creator_address) _ _
            (enter-IsCuttable factory_entity factory) rest

  visit-IsCuttable : (f : Frame) (depth : ℕ) (at : Text) → IsCuttable (visit s op v f depth at)
  unfolding visit detect_entity_change
  visit-IsCuttable f depth at =
      seq-IsCuttable _ _
        (seq-IsCuttable _ _ (modify-IsCuttable _ (λ p. (refl, refl, refl))) (
          if-IsCuttable (not (is_from_system s f)) skip _ skip-IsCuttable (
            if-IsCuttable (same (to_lower op.sender) (to_lower f.to)) _ _
              (enter-IsCuttable account_entity op.sender) (detect_factory-IsCuttable f))))
        (check_call-IsCuttable f depth at)

  mutual
    unfolding inner_step_recursive

    inner_step_recursive-IsCuttable :
        (c : Erc7562Call) (depth : ℕ) (at : Text)
        → IsCuttable (inner_step_recursive s op v c depth at)
    inner_step_recursive-IsCuttable (frame_calls f calls) depth at =
        if-IsCuttable (is_self_call s f) skip _ skip-IsCuttable (
          seq-IsCuttable _ _ (visit-IsCuttable f depth at)
            (inner_steps-IsCuttable calls (depth + 1) at))

    pub inner_steps-IsCuttable :
        (cs : Calls) (depth : ℕ) (at : Text) → IsCuttable (inner_steps s op v cs depth at)
    inner_steps-IsCuttable no_calls depth at = skip-IsCuttable
    inner_steps-IsCuttable (and_call c cs) depth at =
        seq-IsCuttable _ _ (inner_step_recursive-IsCuttable c depth (context_of c at))
          (inner_steps-IsCuttable cs depth at)

  parse-IsCuttable : (root : Erc7562Call) → IsCuttable (walk s op root v)
  unfolding walk
  parse-IsCuttable root =
      if-IsCuttable (has_calls root) _ _ (inner_step_recursive-IsCuttable root 0 (frame_of root).to)
        (throws-IsCuttable no_calls_from_entry_point)

-- What throwing at the first violation returns, by what collecting returns.
fault_of :
    List Erc7562Violation
    → Result Fault Erc7562ValidationResults
    → Result Fault Erc7562ValidationResults
fault_of [] r = r
fault_of (v ∷ vs) r = err (to_error v)

pub first_fault :
    Parser × Result Fault Erc7562ValidationResults → Result Fault Erc7562ValidationResults
unfolding fault_of
first_fault (p, r) = fault_of p.rule_violations r

fault_of-none :
    (vs : List Erc7562Violation) (r : Result Fault Erc7562ValidationResults)
    → vs ≡ []
    → r ≡ fault_of vs r
unfolding fault_of
fault_of-none [] r h = refl
fault_of-none (v ∷ vs) r h = absurd (cc)

fault_of-ok :
    (vs : List Erc7562Violation) (x : Result Fault Erc7562ValidationResults)
    (r : Erc7562ValidationResults)
    → fault_of vs x ≡ ok r
    → (vs ≡ []) × (x ≡ ok r)
unfolding fault_of
fault_of-ok [] x r h = (refl, h)
fault_of-ok (v ∷ vs) x r h = absurd (cc)

pub first_fault-ok :
    (out : Parser × Result Fault (Unit {0})) (r : Erc7562ValidationResults)
    → first_fault (returning out) ≡ ok r
    → (out.1 ≡ ok tt) × (out.0.rule_violations ≡ []) × (results out.0 ≡ r)
unfolding first_fault
first_fault-ok (q, err e) r h =
    let impossible = (fault_of-ok q.rule_violations (err e) r h).1 in absurd (cc (impossible))
first_fault-ok (q, ok t) r h =
    let both = fault_of-ok q.rule_violations (ok (results q)) r h in (refl, both.0, cc (both.1))

first_fault-Cuts :
    (out out' : Parser × Result Fault (Unit {0}))
    → Cuts out out'
    → (returning out').1 ≡ first_fault (returning out)
unfolding first_fault
first_fault-Cuts (p, err e) out' (clean h) = fault_of-none p.rule_violations (err e) h
first_fault-Cuts (p, ok t) out' (clean h) = fault_of-none p.rule_violations (ok (results p)) h
first_fault-Cuts (p, err e) out' (cut v vs h) = rw h refl
first_fault-Cuts (p, ok t) out' (cut v vs h) = rw h refl

stop_bailing-1 :
    (out : Parser × Result Fault Erc7562ValidationResults) → (stop_bailing out).1 ≡ out.1
stop_bailing-1 (p, err e) = refl
stop_bailing-1 (p, ok r) = refl

-- `requireCompliance` throws the error of the first violation that `parseResults` collects, and where
-- that collects none, returns or throws exactly what it does.
pub require_compliance-first :
    (s : Setting) (op : Operation) (root : Erc7562Call) (v : StakeResult) (p : Parser)
    → (require_compliance s op root v p).1
      ≡ first_fault (parse_results s op root v (set_bail false p))
unfolding require_compliance parse_results parse ◌>>◌ init
require_compliance-first s op root v p =
    let start = init (frame_of root).keccak (set_bail false p) in
    stop_bailing-1 (returning (walk s op root v (set_bail true start)))
    ∙ first_fault-Cuts (walk s op root v start) (walk s op root v (set_bail true start))
        ((parse-IsCuttable s op v root).cuts start refl refl)

set_bail_same : (p : Parser) → p.bail_on_violation ≡ true → set_bail true p ≡ p
set_bail_same p h = ap (λ b. record p { bail_on_violation = b }) (sym h)

stop_bailing-0 :
    (out : Parser × Result Fault (Unit {0})) (e : Fault)
    → (stop_bailing (returning out)).1 ≡ err e
    → (stop_bailing (returning out)).0 ≡ out.0
stop_bailing-0 (p, err x) e h = refl
stop_bailing-0 (p, ok t) e h = absurd (cc)

-- After `requireCompliance` has thrown, `parseResults` on any other trace throws as well, where it has
-- a violation: it is then `requireCompliance` that it behaves like.
pub parse_results-after_throw :
    (s : Setting) (op op' : Operation) (root root' : Erc7562Call) (v v' : StakeResult) (p : Parser)
    (e : Fault)
    → (require_compliance s op root v p).1 ≡ err e
    → let q = (require_compliance s op root v p).0 in
      (parse_results s op' root' v' q).1
      ≡ first_fault (parse_results s op' root' v' (set_bail false q))
unfolding require_compliance parse_results parse ◌>>◌ init
parse_results-after_throw s op op' root root' v v' p e h =
    let q = (require_compliance s op root v p).0 in
    let start = init (frame_of root).keccak (set_bail true p) in
    let bails : q.bail_on_violation ≡ true =
      ap (λ (x : Parser). x.bail_on_violation) (stop_bailing-0 (walk s op root v start) e h)
      ∙ ((parse-IsCuttable s op v root).grows start).flag in
    ap (λ x. (parse_results s op' root' v' x).1) (sym (set_bail_same q bails))
    ∙ (sym (stop_bailing-1 (parse_results s op' root' v' (set_bail true q)))
        ∙ require_compliance-first s op' root' v' q)

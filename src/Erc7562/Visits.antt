-- ===== src/Erc7562/Visits.antt =====
-- Which addresses the parser collects, and what `requireCompliance` lets through.
use mathlib.Core.List.{append_assoc, append-nil}
use bundler.Common.{
  ℕ, ◌+◌, ◌≡◌, refl, sym, ap, ◌∙◌, subst, Bool, true, false, not, Option, none, some, List, [], ◌∷◌,
  ◌++◌, if◌then◌else◌, Result, ok, err, arith, Bool-cases, inl, inr, ◌⊎◌,
}
use bundler.Common.Text.{Text, same, to_lower}
use bundler.Types.{Operation}
use bundler.Erc7562.{
  paymaster_entity, factory_entity, entry_point_entity, sender_creator_entity,
  native_nonce_manager_entity, account_entity, unknown_entity, AccountAbstractionEntity, Frame,
  Erc7562Call, frame_calls, frame_of, Calls, no_calls, and_call, Erc7562Violation, Fault,
  StakeResult, Setting, Parser, Erc7562ValidationResults,
}
use bundler.Erc7562.Actions.{
  Action, continue, skip, throws, modify, each, report, violation_detected, ◌>>◌,
}
use bundler.Erc7562.Checks.{Place, check_frame}
use bundler.Erc7562.Slots.{parse_entity_slots}
use bundler.Erc7562.Walk.{
  matching, detect_paymaster, detect_system_entity, detect_factory, is_system_code, all_slots,
  is_self_call, is_from_system, place, enter, check_storage, check_slot, check_call,
  detect_entity_change, visit, inner_step_recursive, inner_steps, walk, parse, parse_results,
  set_bail, require_compliance, init, has_calls, context_of,
}
use bundler.Erc7562.Bail.{first_fault-ok, require_compliance-first}
use bundler.Erc7562.Compliance.{
  IsClean, complies, addresses, all_addresses, inner_step_recursive-complies,
}

-- An action appends addresses, or throws.
Appends : Action → List Text → Type 0
Appends m found =
    (p : Parser)
    → ((e : Fault) × ((m p).1 ≡ err e))
      ⊎ ((m p).0.contract_addresses ≡ p.contract_addresses ++ found)

modify-Appends :
    (f : Parser → Parser) (found : List Text)
    → ((p : Parser) → (f p).contract_addresses ≡ p.contract_addresses ++ found)
    → Appends (modify f) found
unfolding Appends
modify-Appends f found h p = inr (h p)

none-Appends :
    (f : Parser → Parser)
    → ((p : Parser) → (f p).contract_addresses ≡ p.contract_addresses)
    → Appends (modify f) []
unfolding Appends
none-Appends f h p = inr (h p ∙ sym (append-nil p.contract_addresses))

throws-Appends : (e : Fault) (found : List Text) → Appends (throws e) found
unfolding Appends
throws-Appends e found p = inl (e, refl)

skip-Appends : Appends skip []
unfolding Appends
skip-Appends p = inr (sym (append-nil p.contract_addresses))

continue-Appends :
    (p : Parser) (out : Parser × Result Fault (Unit {0})) (k : Action) (xs ys : List Text)
    → Appends k ys
    → ((e : Fault) × (out.1 ≡ err e)) ⊎ (out.0.contract_addresses ≡ p.contract_addresses ++ xs)
    → ((e : Fault) × ((continue out k).1 ≡ err e))
      ⊎ ((continue out k).0.contract_addresses ≡ p.contract_addresses ++ (xs ++ ys))
unfolding Appends
continue-Appends p (q, err e) k xs ys a h = inl (e, refl)
continue-Appends p (q, ok t) k xs ys a (inl (e, h)) = absurd (cc)
continue-Appends p (q, ok t) k xs ys a (inr h) = elim (a q) [
  | inl failed ↦ inl failed
  | inr g ↦ inr (g ∙ (ap (λ zs. zs ++ ys) h ∙ append_assoc p.contract_addresses xs ys))
]

seq-Appends :
    (m k : Action) (xs ys : List Text) → Appends m xs → Appends k ys → Appends (m >> k) (xs ++ ys)
unfolding Appends ◌>>◌
seq-Appends m k xs ys a b p = continue-Appends p (m p) k xs ys b (a p)

each-Appends :
    {A : Type 0} (body : A → Action)
    → ((x : A) → Appends (body x) [])
    → (xs : List A) → Appends (each body xs) []
unfolding each
each-Appends body a [] = skip-Appends
each-Appends body a (x ∷ xs) =
    seq-Appends (body x) (each body xs) [] [] (a x) (each-Appends body a xs)

report-Appends : (vs : List Erc7562Violation) → Appends (report vs) []
unfolding report violation_detected Appends
report-Appends vs =
    each-Appends violation_detected (λ v p. inr (sym (append-nil p.contract_addresses))) vs

if-Appends :
    (b : Bool) (m k : Action) (xs : List Text)
    → Appends m xs
    → Appends k xs
    → Appends (if b then m else k) xs
if-Appends true m k xs a c = a
if-Appends false m k xs a c = c

chosen-Appends :
    (m : Parser → Action) (xs : List Text)
    → ((p : Parser) → Appends (m p) xs)
    → Appends (λ p. m p p) xs
unfolding Appends
chosen-Appends m xs a p = a p p

module _ (s : Setting) (op : Operation) (v : StakeResult) where
  check_storage-Appends : (l : Place) → Appends (check_storage s op v l) []
  unfolding check_storage check_slot
  check_storage-Appends l =
      chosen-Appends
        (λ p.
          if is_system_code s l.frame.to
          then skip
          else each
              (check_slot s op v l p.current_entity_address (parse_entity_slots s op p.keccak))
              (all_slots l.frame.accessed_slots))
        []
        (λ p. if-Appends (is_system_code s l.frame.to) skip _ [] skip-Appends (
          each-Appends _
            (λ slot. seq-Appends _ _ [] [] (none-Appends _ (λ q. refl)) (report-Appends _)) _))

  check_call-Appends :
      (f : Frame) (depth : ℕ) (at : Text) → Appends (check_call s op v f depth at) []
  unfolding check_call
  check_call-Appends f depth at =
      chosen-Appends
        (λ p.
          report (check_frame s op v (place f depth at p.current_entity))
          >> check_storage s op v (place f depth at p.current_entity))
        []
        (λ p.
          seq-Appends _ _ [] [] (report-Appends _)
            (check_storage-Appends (place f depth at p.current_entity)))

  enter-Appends :
      (role : AccountAbstractionEntity) (address : Text) → Appends (enter role address) []
  enter-Appends role address = none-Appends _ (λ p. refl)

  named-Appends :
      (role : AccountAbstractionEntity) (o : Option Text) (rest : Action)
      → Appends rest []
      → Appends (elim o as (λ _. Action) [ some address ↦ enter role address | none ↦ rest ]) []
  named-Appends role none rest a = a
  named-Appends role (some address) rest a = enter-Appends role address

  detect_paymaster-Appends : (f : Frame) → Appends (detect_paymaster s op f) []
  unfolding detect_paymaster detect_system_entity
  detect_paymaster-Appends f =
      named-Appends paymaster_entity (matching op.paymaster f.to) (detect_system_entity s f) (
        if-Appends (same s.entry_point_address (to_lower f.to)) _ _ []
          (enter-Appends entry_point_entity s.entry_point_address)
          (if-Appends (same s.sender_creator_address (to_lower f.to)) _ _ []
            (enter-Appends sender_creator_entity s.sender_creator_address)
            (named-Appends native_nonce_manager_entity (matching s.nonce_manager_address f.to)
              (throws (unknown_entity f.to)) (throws-Appends (unknown_entity f.to) []))))

  factory-Appends :
      (f : Frame) (o : Option Text)
      → Appends
          (elim o as (λ _. Action) [
            | some factory ↦
                if same (to_lower f.from) s.sender_creator_address
                then enter factory_entity factory
                else detect_paymaster s op f
            | none ↦ detect_paymaster s op f
          ])
          []
  factory-Appends f none = detect_paymaster-Appends f
  factory-Appends f (some factory) =
      if-Appends (same (to_lower f.from) s.sender_creator_address) _ _ []
        (enter-Appends factory_entity factory) (detect_paymaster-Appends f)

  visit-Appends :
      (f : Frame) (depth : ℕ) (at : Text) → Appends (visit s op v f depth at) (f.to ∷ [])
  unfolding visit detect_entity_change detect_factory
  visit-Appends f depth at =
      seq-Appends _ (check_call s op v f depth at) (f.to ∷ []) []
        (seq-Appends _ (detect_entity_change s op f) (f.to ∷ []) []
          (modify-Appends _ (f.to ∷ []) (λ p. refl))
          (if-Appends (not (is_from_system s f)) skip _ [] skip-Appends (
            if-Appends (same (to_lower op.sender) (to_lower f.to)) _ _ []
              (enter-Appends account_entity op.sender)
              (factory-Appends f (matching op.factory f.to)))))
        (check_call-Appends f depth at)

  mutual
    unfolding inner_step_recursive addresses

    inner_step_recursive-Appends :
        (c : Erc7562Call) (depth : ℕ) (at : Text)
        → Appends (inner_step_recursive s op v c depth at) (addresses s c)
    inner_step_recursive-Appends (frame_calls f calls) depth at =
        elim (Bool-cases (is_self_call s f)) [
          | inl b ↦ rw (b, inner_step_recursive, addresses) skip-Appends
          | inr b ↦
              rw (b, inner_step_recursive, addresses)
                (seq-Appends _ _ (f.to ∷ []) (all_addresses s calls) (visit-Appends f depth at)
                  (inner_steps-Appends calls (depth + 1) at))
        ]

    inner_steps-Appends :
        (cs : Calls) (depth : ℕ) (at : Text)
        → Appends (inner_steps s op v cs depth at) (all_addresses s cs)
    inner_steps-Appends no_calls depth at = skip-Appends
    inner_steps-Appends (and_call c cs) depth at =
        seq-Appends (inner_step_recursive s op v c depth (context_of c at)) _ (addresses s c)
          (all_addresses s cs) (inner_step_recursive-Appends c depth (context_of c at))
          (inner_steps-Appends cs depth at)

appended :
    (m : Action) (p : Parser) (found : List Text)
    → Appends m found
    → (m p).1 ≡ ok tt
    → (m p).0.contract_addresses ≡ p.contract_addresses ++ found
unfolding Appends
appended m p found a h = elim (a p) [ inl (e, failed) ↦ absurd (cc (h, failed)) | inr g ↦ g ]

walk-inner :
    (s : Setting) (op : Operation) (root : Erc7562Call) (v : StakeResult) (p : Parser)
    → (walk s op root v p).1 ≡ ok tt
    → walk s op root v p ≡ inner_step_recursive s op v root 0 (frame_of root).to p
unfolding walk
walk-inner s op root v p h = elim (Bool-cases (has_calls root)) [
  | inl b ↦ rw (b, walk) refl
  | inr b ↦ absurd (ground (arith, b, h))
]

-- Where `requireCompliance` returns, each call of the trace, at whatever depth, obeys the rules OP-011,
-- OP-020, OP-041, OP-061 and OP-062, but for calls of the entry point to itself and those within them;
-- the results have no violation, and their addresses are those of the calls that are walked, each
-- before those that it makes.
pub require_compliance-complies :
    (s : Setting) (op : Operation) (root : Erc7562Call) (v : StakeResult) (p : Parser)
    (r : Erc7562ValidationResults)
    → (require_compliance s op root v p).1 ≡ ok r
    → (complies s op root ≡ true)
      × (r.rule_violations ≡ [])
      × (r.contract_addresses ≡ addresses s root)
unfolding parse_results parse ◌>>◌ init IsClean
require_compliance-complies s op root v p r h =
    let start = init (frame_of root).keccak (set_bail false p) in
    let (fine, none_found, e) =
      first_fault-ok (walk s op root v start) r
        (sym (require_compliance-first s op root v p) ∙ h) in
    let m = inner_step_recursive s op v root 0 (frame_of root).to in
    let w = walk-inner s op root v start fine in
    (
      inner_step_recursive-complies s op v root 0 (frame_of root).to start
          (subst IsClean w (fine, none_found)),
      ap (λ (x : Erc7562ValidationResults). x.rule_violations) (sym e) ∙ none_found,
      ap (λ (x : Erc7562ValidationResults). x.contract_addresses) (sym e)
          ∙ (ap (λ (x : Parser × Result Fault (Unit {0})). x.0.contract_addresses) w
              ∙ appended m start (addresses s root)
                  (inner_step_recursive-Appends s op v root 0 (frame_of root).to)
                  (ap (λ (x : Parser × Result Fault (Unit {0})). x.1) (sym w) ∙ fine)),
    )

-- ===== src/Erc7562/Compliance.antt =====
-- What a trace has that `requireCompliance` lets through, by recursion on its calls, as far as it does
-- not depend on the entity: five of the rules.
use mathlib.Core.Option.{get_or}
use bundler.Common.{
  ℕ, ◌+◌, ◌≡◌, refl, sym, ◌∙◌, subst, Bool, true, false, not, ◌&&◌, ◌||◌, List, [], ◌∷◌, ◌++◌, map,
  if◌then◌else◌, ◌==◌, Result, ok, err, arith, Bool-cases, inl, inr,
}
use bundler.Common.Text.{Text, same, to_lower}
use bundler.Common.Dict
use bundler.Common.Dict.{Dict}
use bundler.Types.{Operation}
use bundler.Reputation.{has}
use bundler.Erc7562.{
  ContractSize, Frame, Erc7562Call, frame_calls, Calls, no_calls, and_call, Erc7562Violation, Fault,
  StakeResult, Setting, Parser,
}
use bundler.Erc7562.Opcodes.{get_opcode_name, names_in, banned_op_codes}
use bundler.Erc7562.Actions.{Action, continue, skip, modify, each, report, violation_detected, ◌>>◌}
use bundler.Erc7562.Checks.{
  Place, is_call_to_entry_point, check_op011, check_op020, check_op031, check_op041,
  is_illegal_access, check_op054, check_op054_ext_code, check_op061, check_op062,
  is_forbidden_precompiled, check_frame,
}
use bundler.Erc7562.Walk.{
  is_self_call, place, check_storage, check_call, detect_entity_change, visit, inner_step_recursive,
  inner_steps, context_of,
}
use bundler.Erc7562.Bail.{
  IsCuttable, Grows, report-IsCuttable, check_storage-IsCuttable, check_call-IsCuttable,
  inner_steps-IsCuttable,
}

-- No opcode that is used has a banned name.
pub none_banned : List ℕ → Bool
none_banned [] = true
none_banned (opcode ∷ opcodes) =
    not (has (get_or (get_opcode_name opcode) []) banned_op_codes) && none_banned opcodes

-- Every contract that is accessed has code, but for the sender, the entry point and precompiles.
pub all_deployed : Setting → Operation → Dict ContractSize → Bool
all_deployed s op [] = true
all_deployed s op ((address, size) ∷ rest) =
    not (is_illegal_access s op address size) && all_deployed s op rest

pub no_forbidden : Setting → List Text → Bool
no_forbidden s [] = true
no_forbidden s (address ∷ rest) = not (is_forbidden_precompiled s address) && no_forbidden s rest

-- What the rules OP-011, OP-020, OP-041, OP-061 and OP-062 ask of a call, whatever the entity.
pub obeys : Setting → Operation → Frame → Bool
obeys s op f =
    (same (to_lower f.to) s.entry_point_address || none_banned f.used_opcodes)
    && not f.out_of_gas
    && all_deployed s op f.contract_size
    && (is_call_to_entry_point s f || get_or f.value 0 == 0)
    && no_forbidden s (Dict.keys f.contract_size)

-- Each call obeys those five rules; a call of the entry point to itself is not looked into.
unfoldable mutual
  pub complies : Setting → Operation → Erc7562Call → Bool
  complies s op (frame_calls f calls) = is_self_call s f || (obeys s op f && all_comply s op calls)

  pub all_comply : Setting → Operation → Calls → Bool
  all_comply s op no_calls = true
  all_comply s op (and_call c calls) = complies s op c && all_comply s op calls

-- The addresses of the calls that are walked, each before those that it makes.
unfoldable mutual
  pub addresses : Setting → Erc7562Call → List Text
  addresses s (frame_calls f calls) = if is_self_call s f then [] else f.to ∷ all_addresses s calls

  pub all_addresses : Setting → Calls → List Text
  all_addresses s no_calls = []
  all_addresses s (and_call c calls) = addresses s c ++ all_addresses s calls

none_banned-names_in :
    (opcodes : List ℕ) → names_in banned_op_codes opcodes ≡ [] → none_banned opcodes ≡ true
unfolding none_banned names_in
none_banned-names_in [] h = refl
none_banned-names_in (opcode ∷ opcodes) h =
    elim (Bool-cases (has (get_or (get_opcode_name opcode) []) banned_op_codes)) [
      | inl b ↦ absurd (ground (arith, b, h))
      | inr b ↦ ground (arith, b, h, none_banned-names_in opcodes)
    ]

all_deployed-check :
    (s : Setting) (op : Operation) (l : Place) (sizes : Dict ContractSize)
    → check_op041 s op l sizes ≡ []
    → all_deployed s op sizes ≡ true
unfolding check_op041 all_deployed
all_deployed-check s op l [] h = refl
all_deployed-check s op l ((address, size) ∷ rest) h =
    elim (Bool-cases (is_illegal_access s op address size)) [
      | inl b ↦ absurd (ground (arith, b, h))
      | inr b ↦ ground (arith, b, h, all_deployed-check s op l rest)
    ]

no_forbidden-check :
    (s : Setting) (l : Place) (addresses : List Text)
    → check_op062 s l addresses ≡ []
    → no_forbidden s addresses ≡ true
unfolding check_op062 no_forbidden
no_forbidden-check s l [] h = refl
no_forbidden-check s l (address ∷ rest) h = elim (Bool-cases (is_forbidden_precompiled s address)) [
  | inl b ↦ absurd (ground (arith, b, h))
  | inr b ↦ ground (arith, b, h, no_forbidden-check s l rest)
]

append-eq_nil {ℓ} : {A : Type ℓ} (xs ys : List A) → xs ++ ys ≡ [] → (xs ≡ []) × (ys ≡ [])
append-eq_nil [] ys h = (refl, h)
append-eq_nil (x ∷ xs) ys h = absurd (cc)

map-eq_nil {ℓ κ} : {A : Type ℓ} {B : Type κ} (f : A → B) (xs : List A) → map f xs ≡ [] → xs ≡ []
map-eq_nil f [] h = refl
map-eq_nil f (x ∷ xs) h = absurd (cc)

if_map-eq_nil {ℓ κ} :
    {A : Type ℓ} {B : Type κ} (b : Bool) (f : A → B) (xs : List A)
    → b ≡ false
    → (if b then [] else map f xs) ≡ []
    → xs ≡ []
if_map-eq_nil true f xs e h = absurd (cc)
if_map-eq_nil false f xs e h = map-eq_nil f xs h

obeys-op011 :
    (s : Setting) (l : Place)
    → check_op011 s l ≡ []
    → (same (to_lower l.frame.to) s.entry_point_address || none_banned l.frame.used_opcodes) ≡ true
unfolding check_op011
obeys-op011 s l h = elim (Bool-cases (same (to_lower l.frame.to) s.entry_point_address)) [
  | inl b ↦ rw b refl
  | inr b ↦ rw b (none_banned-names_in l.frame.used_opcodes (if_map-eq_nil _ _ _ b h))
]

obeys-op020 : (l : Place) → check_op020 l ≡ [] → not l.frame.out_of_gas ≡ true
unfolding check_op020
obeys-op020 l h = ground (arith, h)

obeys-op061 :
    (s : Setting) (l : Place)
    → check_op061 s l ≡ []
    → (is_call_to_entry_point s l.frame || get_or l.frame.value 0 == 0) ≡ true
unfolding check_op061
obeys-op061 s l h = elim (Bool-cases (is_call_to_entry_point s l.frame)) [
  | inl b ↦ rw b refl
  | inr b ↦ elim (Bool-cases (get_or l.frame.value 0 == 0)) [
    | inl c ↦ rw (b, c) refl
    | inr c ↦ absurd (ground (arith, b, c, h))
  ]
]

obeys-check_frame :
    (s : Setting) (op : Operation) (v : StakeResult) (l : Place)
    → check_frame s op v l ≡ []
    → obeys s op l.frame ≡ true
unfolding check_frame obeys
obeys-check_frame s op v l h =
    let (h11, r20) = append-eq_nil (check_op011 s l) _ h in
    let (h20, r31) = append-eq_nil (check_op020 l) _ r20 in
    let (h31, r41) = append-eq_nil (check_op031 op v l) _ r31 in
    let (h41, r54) = append-eq_nil (check_op041 s op l l.frame.contract_size) _ r41 in
    let (h54, rext) = append-eq_nil (check_op054 s l) _ r54 in
    let (hext, r61) =
      append-eq_nil (check_op054_ext_code s l l.frame.ext_code_access_info) _ rext in
    let (h61, r62) = append-eq_nil (check_op061 s l) _ r61 in
    let (h62, _) = append-eq_nil (check_op062 s l (Dict.keys l.frame.contract_size)) _ r62 in
    rw
      (
        obeys-op011 s l h11,
        obeys-op020 l h20,
        all_deployed-check s op l l.frame.contract_size h41,
        obeys-op061 s l h61,
        no_forbidden-check s l (Dict.keys l.frame.contract_size) h62,
      )
      refl

-- A run that ends without an exception and without a violation.
unfoldable pub IsClean : Parser × Result Fault (Unit {0}) → Type 0
IsClean out = (out.1 ≡ ok tt) × (out.0.rule_violations ≡ [])

Grows-eq_nil : (p q : Parser) → Grows p q → q.rule_violations ≡ [] → p.rule_violations ≡ []
Grows-eq_nil p q g h = (append-eq_nil p.rule_violations g.added (sym g.violations ∙ h)).0

continue-IsClean :
    (out : Parser × Result Fault (Unit {0})) (k : Action)
    → IsCuttable k
    → IsClean (continue out k)
    → IsClean out × IsClean (k out.0)
unfolding IsClean
continue-IsClean (p, err e) k sound c = absurd (cc)
continue-IsClean (p, ok t) k sound c = ((refl, Grows-eq_nil p (k p).0 (sound.grows p) c.1), c)

seq-IsClean :
    (m k : Action) (p : Parser)
    → IsCuttable k
    → IsClean ((m >> k) p)
    → IsClean (m p) × IsClean (k (m p).0)
unfolding ◌>>◌
seq-IsClean m k p sound c = continue-IsClean (m p) k sound c

report-IsClean : (vs : List Erc7562Violation) (p : Parser) → IsClean (report vs p) → vs ≡ []
unfolding report each violation_detected IsClean
report-IsClean [] p c = refl
report-IsClean (v ∷ vs) p c =
    let first = seq-IsClean (violation_detected v) (report vs) p (report-IsCuttable vs) c in
    no_cons v [] (append-eq_nil p.rule_violations (v ∷ []) first.0.1).1
  where
    no_cons : (w : Erc7562Violation) (ws : List Erc7562Violation) → w ∷ ws ≡ [] → v ∷ vs ≡ []
    no_cons w ws e = absurd (cc)

module _ (s : Setting) (op : Operation) (v : StakeResult) where
  check_call-obeys :
      (f : Frame) (depth : ℕ) (at : Text) (p : Parser)
      → IsClean (check_call s op v f depth at p)
      → obeys s op f ≡ true
  unfolding check_call
  check_call-obeys f depth at p c =
      let l = place f depth at p.current_entity in
      let first =
        seq-IsClean (report (check_frame s op v l)) (check_storage s op v l) p
          (check_storage-IsCuttable s op v l) c in
      obeys-check_frame s op v l (report-IsClean (check_frame s op v l) p first.0)

  visit-obeys :
      (f : Frame) (depth : ℕ) (at : Text) (p : Parser)
      → IsClean (visit s op v f depth at p)
      → obeys s op f ≡ true
  unfolding visit
  visit-obeys f depth at p c =
      let entered =
        modify (λ q. record q { contract_addresses = q.contract_addresses ++ f.to ∷ [] })
        >> detect_entity_change s op f in
      let last =
        seq-IsClean entered (check_call s op v f depth at) p
          (check_call-IsCuttable s op v f depth at) c in
      check_call-obeys f depth at (entered p).0 last.1

  mutual
    unfolding inner_step_recursive complies

    pub inner_step_recursive-complies :
        (c : Erc7562Call) (depth : ℕ) (at : Text) (p : Parser)
        → IsClean (inner_step_recursive s op v c depth at p)
        → complies s op c ≡ true
    inner_step_recursive-complies (frame_calls f calls) depth at p clean =
        elim (Bool-cases (is_self_call s f)) [
          | inl b ↦ rw b refl
          | inr b ↦
              let both =
                seq-IsClean (visit s op v f depth at) (inner_steps s op v calls (depth + 1) at) p
                  (inner_steps-IsCuttable s op v calls (depth + 1) at)
                  (subst
                    (λ x. IsClean (
                      (if x
                          then skip
                          else visit s op v f depth at >> inner_steps s op v calls (depth + 1) at)
                        p))
                    b clean) in
              rw
                (
                  b,
                  visit-obeys f depth at p both.0,
                  inner_steps-complies calls (depth + 1) at (visit s op v f depth at p).0 both.1,
                )
                refl
        ]

    inner_steps-complies :
        (cs : Calls) (depth : ℕ) (at : Text) (p : Parser)
        → IsClean (inner_steps s op v cs depth at p)
        → all_comply s op cs ≡ true
    inner_steps-complies no_calls depth at p clean = refl
    inner_steps-complies (and_call c cs) depth at p clean =
        let first = inner_step_recursive s op v c depth (context_of c at) in
        let both =
          seq-IsClean first (inner_steps s op v cs depth at) p
            (inner_steps-IsCuttable s op v cs depth at) clean in
        rw
          (
            inner_step_recursive-complies c depth (context_of c at) p both.0,
            inner_steps-complies cs depth at (first p).0 both.1,
          )
          refl

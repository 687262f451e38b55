-- ===== src/Tracer/Passed.antt =====
-- What the calls of an entity are that `tracerResultParser` lets through.
use bundler.Common.{
  ℕ, ◌+◌, ◌≡◌, refl, subst, Bool, true, false, ◌&&◌, ◌||◌, not, Option, List, [], ◌∷◌,
  if◌then◌else◌, Result, ok, err, ◌>>◌, >>=-eq-ok, arith, Bool-cases, inl, inr,
}
use bundler.Common.Text.{Text, same, to_lower}
use bundler.Common.Dict.{Dict, keys}
use bundler.Types.{Operation, StakeInfo, StorageMap}
use bundler.Reputation.{has}
use bundler.Erc7562.{Setting}
use bundler.Tracer.{
  CallInfo, TracedCall, info_calls, TracedCalls, no_calls, and_call, BundlerTracerResult,
  BrokenRule, Check, require, for_each, tracer_banned_op_codes, stake_info_entities, parse_slots,
  check_call_stack, get_entity_title,
}
use bundler.Tracer.Entity.{
  Entity, check_opcode, check_info, check_create, check_create2, process_entity_call, process_calls,
  is_of, process_top, entity_for, process_entities, contracts_of, storage_map_of, parse_calls,
  tracer_result_parser,
}

unfoldable pub no_banned_opcode : List Text → Bool
no_banned_opcode [] = true
no_banned_opcode (opcode ∷ opcodes) =
    not (has opcode tracer_banned_op_codes) && no_banned_opcode opcodes

-- No call in a tree runs out of gas or uses an opcode of the parser's own set of banned ones.
unfoldable mutual
  pub is_clean : TracedCall → Bool
  is_clean (info_calls f calls) = not f.oog && no_banned_opcode f.opcodes && are_clean calls

  pub are_clean : TracedCalls → Bool
  are_clean no_calls = true
  are_clean (and_call c calls) = is_clean c && are_clean calls

-- The same of the top-level calls to an address.
unfoldable pub are_clean_of : Text → List TracedCall → Bool
unfolding to_lower
are_clean_of address [] = true
are_clean_of address (c ∷ calls) =
    (not (is_of address c) || is_clean c) && are_clean_of address calls

first-ok :
    {A : Type 0} (first : Check) (next : Result BrokenRule A) {last : A}
    → (first >> next) ≡ ok last
    → (first ≡ ok tt) × (next ≡ ok last)
first-ok (err e) next h = absurd (cc)
first-ok (ok tt) next h = (refl, h)

require-ok : (b : Bool) (rule : BrokenRule) → require b rule ≡ ok tt → b ≡ true
require-ok true rule h = refl
require-ok false rule h = absurd (cc)

module _ (s : Setting) (x : Entity) where
  no_banned_opcode-checked :
      (opcodes : List Text)
      → for_each (check_opcode s x) opcodes ≡ ok tt
      → no_banned_opcode opcodes ≡ true
  unfolding for_each check_opcode no_banned_opcode
  no_banned_opcode-checked [] h = refl
  no_banned_opcode-checked (opcode ∷ opcodes) h =
      let (here, rest) =
        first-ok (check_opcode s x opcode) (for_each (check_opcode s x) opcodes) h in
      let (allowed, _) =
        first-ok (require (not (has opcode tracer_banned_op_codes)) _) (require _ _) here in
      ground (
        arith,
        require-ok (not (has opcode tracer_banned_op_codes)) _ allowed,
        no_banned_opcode-checked opcodes rest,
      )

  check_info-clean :
      (f : CallInfo) (depth : ℕ)
      → check_info s x f depth ≡ ok tt
      → (not f.oog ≡ true) × (no_banned_opcode f.opcodes ≡ true)
  unfolding check_info
  check_info-clean f depth h =
      let (h6, _) = first-ok _ (for_each _ f.ext_code_access_info) h in
      let (h5, _) = first-ok _ (for_each _ f.contract_size) h6 in
      let (h4, _) = first-ok _ (for_each _ f.access) h5 in
      let (h3, _) = first-ok _ (check_create2 s x f) h4 in
      let (h2, _) = first-ok _ (check_create s x f depth) h3 in
      let (gas, opcodes) =
        first-ok (require (not f.oog) _) (for_each (check_opcode s x) f.opcodes) h2 in
      (require-ok (not f.oog) _ gas, no_banned_opcode-checked f.opcodes opcodes)

  mutual
    unfolding process_entity_call is_clean

    process_entity_call-clean :
        (c : TracedCall) (depth : ℕ) → process_entity_call s x c depth ≡ ok tt → is_clean c ≡ true
    process_entity_call-clean (info_calls f calls) depth h =
        let (here, inner) =
          first-ok (check_info s x f depth) (process_calls s x calls (depth + 1)) h in
        let (gas, opcodes) = check_info-clean f depth here in
        rw (gas, opcodes, process_calls-clean calls (depth + 1) inner) refl

    process_calls-clean :
        (cs : TracedCalls) (depth : ℕ) → process_calls s x cs depth ≡ ok tt → are_clean cs ≡ true
    process_calls-clean no_calls depth h = refl
    process_calls-clean (and_call c cs) depth h =
        let (here, rest) =
          first-ok (process_entity_call s x c depth) (process_calls s x cs depth) h in
        rw (process_entity_call-clean c depth here, process_calls-clean cs depth rest) refl

  process_top-clean :
      (calls : List TracedCall)
      → process_top s x calls ≡ ok tt
      → are_clean_of x.address calls ≡ true
  unfolding process_top are_clean_of
  process_top-clean [] h = refl
  process_top-clean (c ∷ calls) h =
      let (here, rest) =
        first-ok (if is_of x.address c then process_entity_call s x c 0 else ok tt)
          (process_top s x calls) h in
      elim (Bool-cases (is_of x.address c)) [
        | inr b ↦ rw (b, process_top-clean calls rest) refl
        | inl b ↦
            let clean =
              process_entity_call-clean c 0
                (subst (λ t. (if t then process_entity_call s x c 0 else ok tt) ≡ ok tt) b here) in
            rw (b, clean, process_top-clean calls rest) refl
      ]

process_entities-clean :
    (s : Setting) (op : Operation) (entities : Dict (Option StakeInfo))
    (entity_slots : Dict (List Text)) (calls : List TracedCall) (todo : Dict (Option StakeInfo))
    (address : Text)
    → process_entities s op entities entity_slots calls todo ≡ ok tt
    → has address (keys todo) ≡ true
    → are_clean_of address calls ≡ true
unfolding process_entities has
process_entities-clean s op entities entity_slots calls [] address h member = absurd (cc)
process_entities-clean s op entities entity_slots calls ((a, stake) ∷ todo) address h member =
    let (title, _, h1) = >>=-eq-ok (get_entity_title op a) _ h in
    let x = entity_for op entities entity_slots a stake title in
    let (here, rest) =
      first-ok (process_top s x calls) (process_entities s op entities entity_slots calls todo)
        h1 in
    elim (Bool-cases (same a address)) [
      | inl same_address ↦
          subst (λ t. are_clean_of t calls ≡ true) (ground (arith, same_address))
            (process_top-clean s x calls here)
      | inr other ↦
          process_entities-clean s op entities entity_slots calls todo address rest
            (ground (arith, other, member))
    ]

parse_calls-clean :
    (s : Setting) (op : Operation) (r : BundlerTracerResult) (entities : Dict (Option StakeInfo))
    (calls : List TracedCall) (out : List Text × StorageMap) (address : Text)
    → parse_calls s op r entities calls ≡ ok out
    → has address (keys entities) ≡ true
    → are_clean_of address calls ≡ true
unfolding parse_calls
parse_calls-clean s op r entities [] out address h member = absurd (cc)
parse_calls-clean s op r entities (c ∷ calls) out address h member =
    let entity_slots = parse_slots s entities r.keccak [] in
    let (before, _) = first-ok _ (ok (contracts_of (c ∷ calls), storage_map_of (c ∷ calls) [])) h in
    let (_, processed) =
      first-ok (check_call_stack s.entry_point_address r.calls)
        (process_entities s op entities entity_slots (c ∷ calls) entities) before in
    process_entities-clean s op entities entity_slots (c ∷ calls) entities address processed member

-- Where `tracerResultParser` lets an operation through, no call of its sender, factory or paymaster, and
-- none within such a call, at whatever depth, runs out of gas or uses an opcode of the parser's own set
-- of banned ones, which has neither BLOBHASH nor BLOBBASEFEE.
pub tracer_result_parser-clean :
    (s : Setting) (op : Operation) (r : BundlerTracerResult) (sender : StakeInfo)
    (factory paymaster : Option StakeInfo) (out : List Text × StorageMap) (address : Text)
    → tracer_result_parser s op r sender factory paymaster ≡ ok out
    → has address (keys (stake_info_entities op sender factory paymaster)) ≡ true
    → are_clean_of address r.calls_from_entry_point ≡ true
unfolding tracer_result_parser
tracer_result_parser-clean s op r sender factory paymaster out address h member =
    parse_calls-clean s op r (stake_info_entities op sender factory paymaster)
      r.calls_from_entry_point out address h member

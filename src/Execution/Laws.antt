-- ===== src/Execution/Laws.antt =====
-- When an operation that is sent gets into the mempool, and when a bundle is sent with it.
use bundler.Common.{
  ℕ, zero, suc, ◌≤◌, ◌<◌, ◌+◌, ◌≡◌, ◌↔◌, refl, ap, ◌∙◌, subst, Bool, true, false, ◌||◌, not, none,
  if◌then◌else◌, Result, ok, arith, ℕ_discrete, Bool-cases, Result-cases, inl, inr,
}
use bundler.Common.Text.{Text, codes}
use bundler.Types.{Operation, ValidationResult, Error}
use bundler.Execution.{
  Action, Managers, Execution, is_mode, then_do, attempt_bundle, send_user_operation, validate_op,
  name_op, pay_op, place_op, bundle_pending, check_rules, wait_mined,
}

then_do-ok :
    {S A B : Type 0} (first : Action S A) (rest : A → Action S B) (st : S) (b : B)
    → (then_do first rest st).1 ≡ ok b
    → (a : A) × (first st ≡ ((first st).0, ok a))
      × (then_do first rest st ≡ rest a (first st).0)
      × ((rest a (first st).0).1 ≡ ok b)
then_do-ok first rest st b h = elim (Result-cases (first st).1) [
  | inl (a, g) ↦ (a, ap (λ r. ((first st).0, r)) g, rw (g, then_do) refl, ground (arith, g, h))
  | inr (e, g) ↦ absurd (ground (arith, g, h))
]

-- The steps of `sendUserOperation` up to the mempool, each on the state that the one before leaves.
pub record IsAccepted {S B : Type 0} (m : Managers S B) (op : Operation) (entry_point : Text)
    (skip : Bool) (st : S) (st' : S) : Type 0 where
  pub validation : ValidationResult
  pub hash : Text
  pub checked : S
  pub validated : S
  pub hashed : S
  pub paid : S
  pub input : m.validate_input_parameters op entry_point st ≡ (checked, ok tt)
  pub rules : check_rules m op skip checked ≡ (validated, ok validation)
  pub named : m.get_operation_hash op validated ≡ (hashed, ok hash)
  pub deposit : m.check_paymaster_deposit op hashed ≡ (paid, ok tt)
  pub added : m.add_user_op skip op hash validation paid ≡ (st', ok tt)

ended :
    {S B : Type 0} (m : Managers S B) (x : Execution) (st : S)
    → (bundle_pending m x st).1 ≡ ok tt
    → (bundle_pending m x st).0
      ≡ (if not x.rip7560 || is_mode (codes "PUSH") x then (attempt_bundle m x false st).0 else st)
unfolding bundle_pending
ended m x st h = elim (Bool-cases (not x.rip7560 || is_mode (codes "PUSH") x)) [
  | inr a ↦ ground (arith, a)
  | inl a ↦ elim (Result-cases (attempt_bundle m x false st).1) [
    | inl (b, g) ↦ ground (arith, a, g)
    | inr (e, g) ↦ ground (arith, a, g)
  ]
]

module _ {S B : Type 0} (m : Managers S B) (x : Execution) where
  -- An operation that is sent without an exception has passed the checks of its fields and, unless
  -- they are skipped, of the validation rules, has passed the deposit check, and is then added to the
  -- mempool; at the end there is no other step than an attempt to bundle, which is made exactly
  -- outside of RIP-7560 and in its way of pushing.
  pub send_user_operation-ok :
      (op : Operation) (entry_point : Text) (skip : Bool) (st : S)
      → (send_user_operation m x op entry_point skip st).1 ≡ ok tt
      → (pool : S) × IsAccepted m op entry_point skip st pool
        × ((send_user_operation m x op entry_point skip st).0 ≡ (
            if not x.rip7560 || is_mode (codes "PUSH") x
            then (attempt_bundle m x false pool).0
            else pool))
  unfolding send_user_operation validate_op name_op pay_op place_op
  send_user_operation-ok op entry_point skip st h =
      let rest1 = λ (_ : Unit {0}). validate_op m x op skip in
      let (_, i1, e1, h1) = then_do-ok (m.validate_input_parameters op entry_point) rest1 st tt h in
      let s1 = (m.validate_input_parameters op entry_point st).0 in
      let (v, i2, e2, h2) = then_do-ok (check_rules m op skip) (name_op m x op skip) s1 tt h1 in
      let s2 = (check_rules m op skip s1).0 in
      let (hash, i3, e3, h3) =
        then_do-ok (m.get_operation_hash op) (pay_op m x op skip v) s2 tt h2 in
      let s3 = (m.get_operation_hash op s2).0 in
      let rest4 = λ (_ : Unit {0}). place_op m x op skip hash v in
      let (_, i4, e4, h4) = then_do-ok (m.check_paymaster_deposit op) rest4 s3 tt h3 in
      let s4 = (m.check_paymaster_deposit op s3).0 in
      let rest5 = λ (_ : Unit {0}). bundle_pending m x in
      let (_, i5, e5, h5) = then_do-ok (m.add_user_op skip op hash v) rest5 s4 tt h4 in
      let s5 = (m.add_user_op skip op hash v s4).0 in
      (
        s5,
        record {
          validation = v;
          hash = hash;
          checked = s1;
          validated = s2;
          hashed = s3;
          paid = s4;
          input = i1;
          rules = i2;
          named = i3;
          deposit = i4;
          added = i5;
        },
        ap (λ (out : S × Result Error (Unit {0})). out.0) (e1 ∙ (e2 ∙ (e3 ∙ (e4 ∙ e5))))
            ∙ ended m x s5 h5,
      )

  -- On fewer pending operations than the limit, an attempt to bundle without force changes nothing
  -- and returns nothing.
  attempt_bundle-waits :
      (st : S) → m.count st < x.max_mempool_size → attempt_bundle m x false st ≡ (st, ok none)
  unfolding attempt_bundle
  attempt_bundle-waits st c = ground (arith, c)

  -- The polls from `i` on, `left` more of them, find a receipt exactly if there is one at one of
  -- the polls `i` to `i + left`.
  wait_mined-polls :
      (hash : Text) (left i : ℕ)
      → (wait_mined m hash left i ≡ true)
        ↔ ((j : ℕ) × (i ≤ j) × (j ≤ i + left) × (m.mined hash j ≡ true))
  unfolding wait_mined
  wait_mined-polls hash zero i = (
    λ h. (i, omega arith, omega arith, h),
    λ (j, a, b, h). subst (λ k. m.mined hash k ≡ true) (omega (arith, a, b)) h,
  )
  wait_mined-polls hash (suc left) i = elim (Bool-cases (m.mined hash i)) [
    | inl hit ↦ (λ h. (i, omega arith, omega arith, hit), λ found. ground (arith, hit))
    | inr miss ↦
        let ih = wait_mined-polls hash left (suc i) in
        (
          λ h.
              let (j, a, b, g) = ih.0 (ground (arith, miss, h)) in
              (j, omega (arith, a), omega (arith, b), g),
          λ (j, a, b, g). elim (ℕ_discrete i j) [
            | yes e ↦ absurd (ground (arith, miss, g, e))
            | no ne ↦ rw miss (ih.1 (j, omega (arith, a, ne), omega (arith, b), g))
          ],
        )
  ]

-- ===== src/Bundle/Gas.antt =====
-- What a round of `createBundle` adds to the bundle, and what holds of every bundle.
use bundler.Common.{
  ℕ, ◌+◌, ◌≤◌, ◌≡◌, refl, ap, ◌∙◌, true, false, not, ◌&&◌, ◌||◌, Option, none, some, List, [], ◌∷◌,
  ◌++◌, leb, ltb, ◌==◌, ok, arith, Bool-cases, Result-cases, inl, inr, ◌⊎◌,
}
use bundler.Common.Text.{Text}
use bundler.Common.Dict
use bundler.Types.{Operation}
use bundler.Reputation.{has, get_status, Status, ok_status, banned, throttled, to_number}
use bundler.Mempool.Defs.{State, MempoolEntry}
use bundler.Bundle.{
  Node, Settings, Limits, merge_eip7702_authorizations, handle_second_validation_exception,
}
use bundler.Bundle.Loop.{
  Packing, Round, next, stop, throws, Validated, include_op, merge_storage, charge_paymaster,
  count_factory, pay, weigh, check_again, screen, round, revalidate, touches_other, reaches,
  is_banned, is_throttled, underpriced, present,
}

abbrev pub result : Round → Packing
result (next p) = p
result (stop p) = p
result (throws p e) = p

pub record Keeps (p p' : Packing) : Type 0 where
  pub bundle : p'.bundle ≡ p.bundle
  pub senders : p'.senders ≡ p.senders
  pub gas : p'.total_gas ≡ p.total_gas

-- `gas` is the new total.
pub record Adds (gas : ℕ) (op : Operation) (p p' : Packing) : Type 0 where
  pub bundle : p'.bundle ≡ p.bundle ++ op ∷ []
  pub senders : p'.senders ≡ p.senders ++ op.sender ∷ []
  pub total : p'.total_gas ≡ gas

keeps : {p : Packing} → Keeps p p
keeps = record { bundle = refl; senders = refl; gas = refl }

charge_paymaster-Keeps :
    (n : Node) (op : Operation) (v : Validated) (p : Packing)
    → Keeps p (charge_paymaster n op v p).0
unfolding charge_paymaster
charge_paymaster-Keeps n op v p = record {
  bundle = ground arith;
  senders = ground arith;
  gas = ground arith;
}

count_factory-Keeps : (n : Node) (op : Operation) (p : Packing) → Keeps p (count_factory n op p)
unfolding count_factory
count_factory-Keeps n op p = record {
  bundle = ground arith;
  senders = ground arith;
  gas = ground arith;
}

include_op-effect :
    (n : Node) (s : Settings) (e : MempoolEntry) (v : Validated) (gas : ℕ) (p : Packing)
    → Keeps p (result (include_op n s e v gas p))
      ⊎ Adds gas e.user_op p (result (include_op n s e v gas p))
unfolding include_op
include_op-effect n s e v gas p =
    elim (Result-cases (merge_storage n s e.user_op v.accessed p.storage_map)) [
      | inr (x, h) ↦ rw (h, include_op) (inl keeps)
      | inl (storage, h) ↦
          elim (Result-cases (merge_eip7702_authorizations n e.user_op p.authorizations)) [
            | inr (x, g) ↦ rw (h, g, include_op) (inl keeps)
            | inl ((auths, false), g) ↦
                rw (h, g, include_op) (inl (record { bundle = refl; senders = refl; gas = refl }))
            | inl ((auths, true), g) ↦
                rw (h, g, include_op) (inr (record { bundle = refl; senders = refl; total = refl }))
          ]
    ]

past_Keeps :
    {gas : ℕ} {op : Operation} {p q p' : Packing}
    → Keeps p q
    → Keeps q p' ⊎ Adds gas op q p'
    → Keeps p p' ⊎ Adds gas op p p'
past_Keeps {op = op} k (inl l) =
    inl (record {
      bundle = l.bundle ∙ k.bundle;
      senders = l.senders ∙ k.senders;
      gas = l.gas ∙ k.gas;
    })
past_Keeps {op = op} k (inr a) = inr (record {
  bundle = a.bundle ∙ ap (λ b. b ++ op ∷ []) k.bundle;
  senders = a.senders ∙ ap (λ b. b ++ op.sender ∷ []) k.senders;
  total = a.total;
})

pay-effect :
    (n : Node) (s : Settings) (e : MempoolEntry) (v : Validated) (gas : ℕ) (p : Packing)
    → Keeps p (result (pay n s e v gas p)) ⊎ Adds gas e.user_op p (result (pay n s e v gas p))
unfolding pay
pay-effect n s e v gas p =
    let charged = charge_paymaster n e.user_op v p in
    let k = charge_paymaster-Keeps n e.user_op v p in
    elim (Result-cases charged.1) [
      | inr (x, h) ↦ rw (h, pay) (inl k)
      | inl (false, h) ↦ rw (h, pay) (inl k)
      | inl (true, h) ↦
          rw (h, pay)
            (past_Keeps k (
              past_Keeps (count_factory-Keeps n e.user_op charged.0)
                (include_op-effect n s e v gas (count_factory n e.user_op charged.0))))
    ]

-- The gas total after an operation.
abbrev pub with_gas : Packing → Operation → Validated → ℕ
with_gas p op v = p.total_gas + (v.pre_op_gas + op.call_gas_limit)

weigh-effect :
    (n : Node) (s : Settings) (lim : Limits) (known : List Text) (e : MempoolEntry) (v : Validated)
    (p : Packing)
    → let p' = result (weigh n s lim known e v p) in
      Keeps p p'
      ⊎ (Adds (with_gas p e.user_op v) e.user_op p p' × (with_gas p e.user_op v ≤ s.max_bundle_gas))
unfolding weigh
weigh-effect n s lim known e v p =
    let gas = p.total_gas + (v.pre_op_gas + e.user_op.call_gas_limit) in
    elim (Bool-cases (touches_other e.user_op.sender known (Dict.keys v.accessed))) [
      | inl a ↦ rw a (inl keeps)
      | inr a ↦ elim (Bool-cases (ltb s.max_bundle_gas gas)) [
        | inl b ↦ rw (a, b) (inl keeps)
        | inr b ↦ elim (Bool-cases (reaches gas lim.max_bundle_gas)) [
          | inl c ↦ rw (a, b, c) (inl keeps)
          | inr c ↦
              rw (a, b, c)
                (elim (pay-effect n s e v gas p) [
                  | inl k ↦ inl k
                  | inr added ↦ inr (added, ground (arith, b))
                ])
        ]
      ]
    ]

-- What an entry is that `check_again` lets into the bundle: its validation gives a result, with
-- whose gas the total stays within the configured maximum.
pub record Joins (n : Node) (max : ℕ) (e : MempoolEntry) (p p' : Packing) : Type 0 where
  pub validated : Validated
  pub valid : revalidate n e ≡ ok validated
  pub adds : Adds (with_gas p e.user_op validated) e.user_op p p'
  pub fits : with_gas p e.user_op validated ≤ max

check_again-effect :
    (n : Node) (s : Settings) (lim : Limits) (known : List Text) (e : MempoolEntry) (p : Packing)
    → let p' = result (check_again n s lim known e p) in
      Keeps p p' ⊎ Joins n s.max_bundle_gas e p p'
unfolding check_again
check_again-effect n s lim known e p = elim (Result-cases (revalidate n e)) [
  | inl (v, h) ↦
      rw (h, check_again)
        (elim (weigh-effect n s lim known e v p) [
          | inl k ↦ inl k
          | inr (added, fits) ↦ inr (record { validated = v; valid = h; adds = added; fits = fits })
        ])
  | inr (x, h) ↦
      let handled = handle_second_validation_exception n x e.user_op p.managers in
      elim (Result-cases handled.1) [
        | inr (y, g) ↦
            rw (h, g, check_again) (inl (record { bundle = refl; senders = refl; gas = refl }))
        | inl (t, g) ↦
            rw (h, g, check_again) (inl (record { bundle = refl; senders = refl; gas = refl }))
      ]
]

-- What `screen` asks of an operation that it lets into the bundle.
pub record IsScreened (op : Operation) (p : Packing) : Type 0 where
  pub paymaster : get_status op.paymaster p.managers.reputation ≡ ok_status
  pub factory : get_status op.factory p.managers.reputation ≡ ok_status
  pub sender : has op.sender p.senders ≡ false

unlisted :
    (o : Option Text) (st : State)
    → is_banned (get_status o st.reputation) ≡ false
    → (present o && is_throttled (get_status o st.reputation)) ≡ false
    → get_status o st.reputation ≡ ok_status
unfolding get_status
unlisted none st b t = refl
unlisted (some a) st b t = fair (get_status (some a) st.reputation) b t
  where
    fair : (x : Status) → is_banned x ≡ false → is_throttled x ≡ false → x ≡ ok_status
    fair ok_status b t = refl
    fair throttled b t = absurd (cc)
    fair banned b t = absurd (cc)

screen-effect :
    (n : Node) (s : Settings) (lim : Limits) (known : List Text) (e : MempoolEntry) (p : Packing)
    → let p' = result (screen n s lim known e p) in
      Keeps p p' ⊎ (IsScreened e.user_op p × Joins n s.max_bundle_gas e p p')
unfolding screen
screen-effect n s lim known e p =
    let op = e.user_op in
    let payer = get_status op.paymaster p.managers.reputation in
    let maker = get_status op.factory p.managers.reputation in
    elim (Bool-cases (is_banned payer || is_banned maker)) [
      | inl a ↦ rw a (inl (record { bundle = refl; senders = refl; gas = refl }))
      | inr a ↦ elim (Bool-cases (present op.paymaster && is_throttled payer)) [
        | inl b ↦ rw (a, b) (inl keeps)
        | inr b ↦ elim (Bool-cases (present op.factory && is_throttled maker)) [
          | inl c ↦ rw (a, b, c) (inl keeps)
          | inr c ↦ elim (Bool-cases (has op.sender p.senders)) [
            | inl d ↦ rw (a, b, c, d) (inl keeps)
            | inr d ↦
                rw (a, b, c, d)
                  (elim (check_again-effect n s lim known e p) [
                    | inl k ↦ inl k
                    | inr added ↦ inr (
                      record {
                        paymaster = unlisted op.paymaster p.managers (ground (arith, a)) b;
                        factory = unlisted op.factory p.managers (ground (arith, a)) c;
                        sender = d;
                      },
                      added,
                    )
                  ])
          ]
        ]
      ]
    ]

-- A round of `createBundle` adds nothing to the bundle, the senders and the gas, or it adds the
-- entry's operation, its sender and its gas; then the paymaster's and the factory's reputation is
-- neither throttled nor banned, the sender is not in the bundle yet, the entry is valid unless its
-- validation is skipped, and the total gas stays within the configured maximum.
pub round-adds :
    (n : Node) (s : Settings) (lim : Limits) (total : ℕ) (known : List Text) (e : MempoolEntry)
    (p : Packing)
    → let p' = result (round n s lim total known e p) in
      Keeps p p' ⊎ (IsScreened e.user_op p × Joins n s.max_bundle_gas e p p')
unfolding round
round-adds n s lim total known e p =
    elim (Result-cases (to_number (mathlib.Core.Option.get_or lim.max_bundle_size 0))) [
      | inr (x, h) ↦ rw (h, round) (inl keeps)
      | inl (size, h) ↦ elim (Bool-cases (not (size == 0) && leb size total)) [
        | inl a ↦ rw (h, a, round) (inl keeps)
        | inr a ↦ elim (Bool-cases (underpriced lim e.user_op)) [
          | inl b ↦ rw (h, a, b, round) (inl keeps)
          | inr b ↦ rw (h, a, b, round) (screen-effect n s lim known e p)
        ]
      ]
    ]

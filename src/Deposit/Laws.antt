-- ===== src/Deposit/Laws.antt =====
-- When the deposit check passes, and that the cache decides it.
use bundler.Common.{
  ℕ, ◌+◌, ◌*◌, ◌≤◌, ◌≡◌, ◌≢◌, ◌↔◌, some, List, [], ◌∷◌, if◌then◌else◌, Result, ok, arith,
  Bool-cases, Option-cases, Result-cases, inl, inr,
}
use bundler.Common.Text.{Text, codes}
use bundler.Common.Dict.{Dict, get, get-put}
use bundler.Common.Int.{ℤ, pos, ◌-ℤ◌, pos_part, neg_part, -ℤ_parts}
use bundler.Types.{Operation, Error}
use bundler.Utils.{get_user_op_max_cost}
use bundler.Mempool.Defs.{MempoolEntry, is_addr}
use bundler.Deposit.{
  address_zero, get_cached_deposit, charge_pending, check_paymaster_deposit, require_deposit,
  check_deposit_of,
}

-- The number of pending operations of a paymaster.
pub pending_of : Text → List MempoolEntry → ℕ
pending_of paymaster [] = 0
pending_of paymaster (e ∷ es) =
    (if is_addr e.user_op.paymaster paymaster then 1 else 0) + pending_of paymaster es

-- The loop takes one cost off for each of them.
charge_pending-parts :
    (op : Operation) (paymaster : Text) (es : List MempoolEntry) (d : ℤ)
    → pos_part (charge_pending op paymaster es d)
        + neg_part d
        + pending_of paymaster es * get_user_op_max_cost op
      ≡ neg_part (charge_pending op paymaster es d) + pos_part d
unfolding charge_pending pending_of
charge_pending-parts op paymaster [] d = omega arith
charge_pending-parts op paymaster (e ∷ es) d =
    elim (Bool-cases (is_addr e.user_op.paymaster paymaster)) [
      | inl hit ↦ rw hit (
          omega (
            arith,
            charge_pending-parts op paymaster es (d -ℤ pos (get_user_op_max_cost op)),
            -ℤ_parts d (pos (get_user_op_max_cost op)),
          ))
      | inr miss ↦ rw miss (omega (arith, charge_pending-parts op paymaster es d))
    ]

require_deposit-ok :
    (op : Operation) (paymaster : Text) (es : List MempoolEntry) (deposit : ℕ)
    → (require_deposit op paymaster es deposit ≡ ok tt)
      ↔ ((1 + pending_of paymaster es) * get_user_op_max_cost op ≤ deposit)
unfolding require_deposit
require_deposit-ok op paymaster es deposit =
    let cost = get_user_op_max_cost op in
    let first = -ℤ_parts (pos deposit) (pos cost) in
    let rest = charge_pending-parts op paymaster es (pos deposit -ℤ pos cost) in
    (λ h. ground (arith, first, rest, h), λ h. ground (arith, first, rest, h))

check_deposit_of-found :
    (balance_of : Text → Result Error ℕ) (op : Operation) (paymaster : Text)
    (es : List MempoolEntry) (deposits : Dict ℕ) (deposit : ℕ)
    → (get_cached_deposit balance_of paymaster deposits).1 ≡ ok deposit
    → (check_deposit_of balance_of op paymaster es deposits).1
      ≡ require_deposit op paymaster es deposit
unfolding check_deposit_of
check_deposit_of-found balance_of op paymaster es deposits deposit d = ground (arith, d)

past_return :
    (balance_of : Text → Result Error ℕ) (op : Operation) (es : List MempoolEntry)
    (deposits : Dict ℕ) (paymaster : Text)
    → op.paymaster ≡ some paymaster
    → paymaster ≢ codes "0x"
    → paymaster ≢ address_zero
    → check_paymaster_deposit balance_of op es deposits
      ≡ check_deposit_of balance_of op paymaster es deposits
unfolding check_paymaster_deposit
past_return balance_of op es deposits paymaster p n z = ground (arith, p)

-- For an operation with a paymaster whose deposit is known, `checkPaymasterDeposit` passes exactly
-- if the deposit covers the operation's own maximal cost once for the operation and once more for
-- each pending operation of the paymaster, whatever those cost themselves.
pub check_paymaster_deposit-ok :
    (balance_of : Text → Result Error ℕ) (op : Operation) (es : List MempoolEntry)
    (deposits : Dict ℕ) (paymaster : Text) (deposit : ℕ)
    → op.paymaster ≡ some paymaster
    → paymaster ≢ codes "0x"
    → paymaster ≢ address_zero
    → (get_cached_deposit balance_of paymaster deposits).1 ≡ ok deposit
    → ((check_paymaster_deposit balance_of op es deposits).1 ≡ ok tt)
      ↔ ((1 + pending_of paymaster es) * get_user_op_max_cost op ≤ deposit)
check_paymaster_deposit-ok balance_of op es deposits paymaster deposit p n z d =
    rw
      (
        past_return balance_of op es deposits paymaster p n z,
        check_deposit_of-found balance_of op paymaster es deposits deposit d,
      )
      (require_deposit-ok op paymaster es deposit)

-- A deposit that has been read is not read again until the cache is cleared: whatever the balance
-- has become, the next check of a paymaster of which a deposit was found has the same deposit.
get_cached_deposit-stable :
    (before after : Text → Result Error ℕ) (paymaster : Text) (deposits : Dict ℕ) (deposit : ℕ)
    → (get_cached_deposit before paymaster deposits).1 ≡ ok deposit
    → get_cached_deposit after paymaster (get_cached_deposit before paymaster deposits).0
      ≡ ((get_cached_deposit before paymaster deposits).0, ok deposit)
unfolding get_cached_deposit
get_cached_deposit-stable before after paymaster deposits deposit h =
    elim (Option-cases (get paymaster deposits)) [
      | inr (x, e) ↦ ground (arith, e)
      | inl e ↦ elim (Result-cases (before paymaster)) [
        | inl (x, f) ↦ ground (arith, e, f, get-put paymaster paymaster x deposits)
        | inr (x, f) ↦ ground (arith, e, f)
      ]
    ]

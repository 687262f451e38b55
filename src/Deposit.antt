-- ===== src/Deposit.antt =====
-- packages/bundler/src/modules/DepositManager.ts: the deposit of a paymaster has to pay for its
-- pending operations. `balance_of` is the entry point's deposit of an address (or the account
-- balance, for RIP-7560), which may fail.
pub mod Laws
use bundler.Common.{
  ℕ, Bool, true, false, ◌||◌, Option, none, some, List, [], ◌∷◌, if◌then◌else◌, Result, ok, err,
}
use bundler.Common.Text.{Text, same, codes}
use bundler.Common.Dict.{Dict, get, put}
use bundler.Common.Int.{ℤ, pos, ◌-ℤ◌, leb_ℤ}
use bundler.Types.{Operation, Error, require_cond, deposit_too_low, paymaster_deposit_too_low}
use bundler.Utils.{get_user_op_max_cost}
use bundler.Mempool.Defs.{MempoolEntry, is_addr}

abbrev pub address_zero : Text
address_zero = codes "0x0000000000000000000000000000000000000000"

-- `getCachedDeposit`: the deposits known so far, and the deposit.
unfoldable pub get_cached_deposit :
    (Text → Result Error ℕ) → Text → Dict ℕ → Dict ℕ × Result Error ℕ
unfolding get put
get_cached_deposit balance_of addr deposits = elim (get addr deposits) [
  | some deposit ↦ (deposits, ok deposit)
  | none ↦ elim (balance_of addr) [
    | ok deposit ↦ (put addr deposit deposits, ok deposit)
    | err e ↦ (deposits, err e)
  ]
]

-- The loop over the mempool. What it subtracts for a pending operation is `userOp`'s own cost.
unfoldable pub charge_pending : Operation → Text → List MempoolEntry → ℤ → ℤ
unfolding get_user_op_max_cost ◌-ℤ◌
charge_pending op paymaster [] deposit = deposit
charge_pending op paymaster (e ∷ es) deposit = charge_pending op paymaster es (
    if is_addr e.user_op.paymaster paymaster
    then deposit -ℤ pos (get_user_op_max_cost op)
    else deposit)

-- What the deposit has to cover.
unfoldable pub require_deposit : Operation → Text → List MempoolEntry → ℕ → Result Error (Unit {0})
unfolding charge_pending
require_deposit op paymaster mempool deposit =
    require_cond
      (leb_ℤ (pos 0)
        (charge_pending op paymaster mempool (pos deposit -ℤ pos (get_user_op_max_cost op))))
      deposit_too_low paymaster_deposit_too_low

-- The part of `checkPaymasterDeposit` past its early return.
unfoldable pub check_deposit_of :
    (Text → Result Error ℕ)
    → Operation
    → Text
    → List MempoolEntry
    → Dict ℕ
    → Dict ℕ × Result Error (Unit {0})
check_deposit_of balance_of op paymaster mempool deposits =
    let (deposits', found) = get_cached_deposit balance_of paymaster deposits in
    (
      deposits',
      elim found [ err e ↦ err e | ok deposit ↦ require_deposit op paymaster mempool deposit ],
    )

unfoldable pub check_paymaster_deposit :
    (Text → Result Error ℕ)
    → Operation
    → List MempoolEntry
    → Dict ℕ
    → Dict ℕ × Result Error (Unit {0})
check_paymaster_deposit balance_of op mempool deposits = elim op.paymaster [
  | none ↦ (deposits, ok tt)
  | some paymaster ↦
      if same paymaster (codes "0x") || same paymaster address_zero
      then (deposits, ok tt)
      else check_deposit_of balance_of op paymaster mempool deposits
]

unfoldable pub clear_cache : Dict ℕ → Dict ℕ
clear_cache deposits = []

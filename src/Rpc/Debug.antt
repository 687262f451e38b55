-- ===== src/Rpc/Debug.antt =====
-- packages/bundler/src/DebugMethodHandler.ts, over the managers' operations.
use bundler.Common.{ℕ, true, Option, none, some, List, Result, ok, err}
use bundler.Common.Text.{Text, codes}
use bundler.Types.{Operation, Error}
use bundler.Reputation
use bundler.Reputation.{Entry}
use bundler.Mempool.Defs
use bundler.Mempool.Defs.{State}
use bundler.Execution.{Action, then_do, done, Managers, Execution, set_auto_bundler, attempt_bundle}

pub data Interval : Type 0 where
  manual auto : Interval
  every : ℕ → Interval

-- In the mode `auto` every operation makes a bundle; in `manual` none does, but for a full mempool.
unfoldable pub set_bundle_interval : Option Interval → ℕ → Execution → Result Text Execution
unfolding set_auto_bundler
set_bundle_interval interval max_pool_size x = elim interval [
  | none ↦ err (codes "must specify interval <number>|manual|auto")
  | some mode ↦ elim mode [
    | auto ↦ ok (set_auto_bundler 0 0 x)
    | manual ↦ ok (set_auto_bundler 0 1000 x)
    | every n ↦ ok (set_auto_bundler n max_pool_size x)
  ]
]

unfoldable pub set_bundling_mode : Option Interval → Execution → Result Text Execution
unfolding set_bundle_interval
set_bundling_mode mode x = set_bundle_interval mode 100 x

-- The events of the bundle are handled at once.
unfoldable pub send_bundle_now : {S B : Type 0} → Managers S B → Execution → Action S (Option B)
unfolding attempt_bundle
send_bundle_now m x =
    then_do (attempt_bundle m x true) λ sent. then_do m.handle_past_events λ _. done sent

unfoldable pub clear_mempool : State → State
unfolding bundler.Mempool.Defs.clear_state
clear_mempool st = record st { pool = bundler.Mempool.Defs.clear_state st.pool }

unfoldable pub clear_reputation : State → State
unfolding bundler.Reputation.clear_state
clear_reputation st = record st { reputation = bundler.Reputation.clear_state st.reputation }

unfoldable pub clear_state : State → State
unfolding clear_mempool clear_reputation
clear_state st = clear_reputation (clear_mempool st)

unfoldable pub dump_mempool : State → List Operation
unfolding bundler.Mempool.Defs.dump
dump_mempool st = bundler.Mempool.Defs.dump st.pool

unfoldable pub dump_reputation : State → State × List Entry
unfolding bundler.Reputation.dump
dump_reputation st =
    let (reputation, entries) = bundler.Reputation.dump st.reputation in
    (record st { reputation = reputation }, entries)

unfoldable pub set_reputation : List Entry → State → State × Result Error (List Entry)
unfolding bundler.Reputation.set_reputation
set_reputation entries st =
    let (reputation, outcome) = bundler.Reputation.set_reputation entries st.reputation in
    (record st { reputation = reputation }, outcome)

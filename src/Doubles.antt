-- ===== src/Doubles.antt =====
-- The two places where the program computes with fractional doubles, as parameters. All other
-- arithmetic on JavaScript numbers is on integers below 2^53, where it is exact.
use bundler.Common.{ℕ, Bool}

pub record Doubles : Type 0 where
  -- `new >= old * 1.1` in MempoolManager.checkReplaceUserOp, at `fee_bumped new old`.
  pub fee_bumped : ℕ → ℕ → Bool
  -- `Math.floor(included / seen * 10)` for `0 < seen`, in
  -- ReputationManager.calculateMaxAllowedMempoolOpsUnstaked, at `inclusion_tenths included seen`.
  pub inclusion_tenths : ℕ → ℕ → ℕ

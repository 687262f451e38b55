-- ===== src/Tests/ReputationRuns.antt =====
-- ReputationManager at concrete inputs.
use bundler.Common.{◌≡◌, ◌≢◌, refl, some, [], ◌∷◌, foldl, arith}
use bundler.Common.Text.{codes, to_lower, text_dec}
use bundler.Common.Int.{pos}
use bundler.Reputation.{
  ok_status, banned, get_status, crashed_handle_ops, hourly_cron, has, add_whitelist,
}
use bundler.Reputation.Standing.{crashed_handle_ops-banned}
use bundler.Reputation.WellFormed.{
  IsWellFormed, step, sees, crashes, ticks, dumps, run-IsWellFormed,
}
use bundler.Reputation.Cron.{hourly_cron-ok_status}
use bundler.Reputation.Checks.{add_whitelist-mixed_case}
use bundler.Tests.Samples.{rated, alice, payer}

alice-ne-payer : alice ≢ payer
alice-ne-payer = ground arith

pub rated-IsWellFormed : IsWellFormed rated
unfolding to_lower
rated-IsWellFormed = record {
  distinct = ((alice-ne-payer, tt), (tt, tt));
  addressed = ((refl, refl), ((refl, refl), tt));
}

banned_at_first : get_status (some payer) rated ≡ banned
unfolding get_status text_dec
banned_at_first = refl

crashed_handle_ops-banned_example :
    (get_status (some (codes "0xB2")) (crashed_handle_ops (some (codes "0xB2")) rated) ≡ banned)
    × (get_status (some alice) (crashed_handle_ops (some (codes "0xB2")) rated)
        ≡ get_status (some alice) rated)
unfolding has to_lower
crashed_handle_ops-banned_example =
    crashed_handle_ops-banned rated (codes "0xB2") alice refl (omega arith) (omega arith)
      (omega arith) alice-ne-payer

run-IsWellFormed_example : IsWellFormed (
    foldl step rated
      (sees (some (codes "0xA1")) (pos 1) ∷ crashes (some payer) ∷ ticks ∷ dumps ∷ []))
run-IsWellFormed_example =
    run-IsWellFormed
      (sees (some (codes "0xA1")) (pos 1) ∷ crashes (some payer) ∷ ticks ∷ dumps ∷ []) rated
      rated-IsWellFormed

-- The banned paymaster is cleared by one run of the cron.
hourly_cron-ok_status_example : get_status (some payer) (hourly_cron rated) ≡ ok_status
unfolding has
hourly_cron-ok_status_example =
    hourly_cron-ok_status rated payer rated-IsWellFormed refl (omega arith)

add_whitelist-mixed_case_example :
    get_status (some (codes "0xB2")) (add_whitelist (codes "0xB2" ∷ []) rated)
    ≡ get_status (some (codes "0xB2")) rated
unfolding to_lower
add_whitelist-mixed_case_example =
    add_whitelist-mixed_case (codes "0xB2") rated (some (codes "0xB2")) (λ e. ground arith)

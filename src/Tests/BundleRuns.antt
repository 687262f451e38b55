-- ===== src/Tests/BundleRuns.antt =====
-- BundleManager at concrete inputs.
use bundler.Common.{◌≡◌, ◌⊎◌, refl, true, false, none, some, ok, err, List, [], ◌∷◌, arith, Result}
use bundler.Common.Text.{Text, codes, text_dec, starts_with}
use bundler.Common.Int.{◌+ℤ◌}
use bundler.Types.{Operation, Authorization, Error, type_error}
use bundler.Reputation.{banned, get_status}
use bundler.Mempool.Defs.{MempoolEntry, get_sorted_for_inclusion}
use bundler.Bundle.{Node, Settings, parse_failed_op_revert, find_entity_to_blame, send_failed}
use bundler.Bundle.Loop.{no_limits, Packing, create_bundle, empty_packing, round}
use bundler.Bundle.Gas.{result, Keeps, Joins, IsScreened, round-adds}
use bundler.Bundle.Packed.{IsPacked, create_bundle-IsPacked, create_bundle-max_size}
use bundler.Bundle.Blame.{IsRidOf, send_failed-banned}
use bundler.Tests.Samples.{
  payer, maker, rated, valid, alice_op, maker_op, entry_for, pending_pool, pending_state,
}
use bundler.Utils.{get_authorization_list}
use bundler.Bundle.{merge_eip7702_authorizations}
use bundler.Bundle.Merged.{IsMerged, HasDistinctSigners, merge_eip7702_authorizations-IsMerged}
use bundler.Tests.MempoolRuns.{distinct_hashes}

-- Every error is a FailedOp of the first operation's paymaster, and nobody is staked.
abbrev pub node : Node
node = record {
  message_match = λ e. some (0, codes "AA31 paymaster deposit too low");
  decoded = λ e. none;
  inner_code = λ e. none;
  deposit_info = λ a. ok (0, 0);
  validate = λ op contracts. ok (valid op.sender);
  balance_of = λ a. ok 90000;
  is_address = λ a. true;
  storage_hash = λ a. ok [];
  signer_of = λ a. ok a.address;
  handle_ops = λ ops auths beneficiary storage. ok (codes "0x77");
  hashes_of = λ ops. ok [];
}

abbrev pub settings : Settings
settings = record {
  beneficiary = payer;
  min_signer_balance = 10;
  max_bundle_gas = 200;
  conditional_rpc = false;
  merge_to_account_root_hash = false;
}

abbrev sorted : List MempoolEntry
sorted = entry_for maker_op (codes "h2") ∷ entry_for alice_op (codes "h1") ∷ []

-- What a run of the bundle's code computes with.
bundle_code : Unit {0}
unfolding create_bundle text_dec ◌+ℤ◌ parse_failed_op_revert find_entity_to_blame starts_with
bundle_code = tt

abbrev packing_of : Result Error Packing → Packing
packing_of (ok p) = p
packing_of (err e) = empty_packing pending_state

abbrev pub made : Packing
made = packing_of (create_bundle node settings no_limits pending_state).1

pub made_ok : (create_bundle node settings no_limits pending_state).1 ≡ ok made
unfolding bundle_code
made_ok = refl

-- The banned paymaster's operation is left out.
made_bundle : made.bundle ≡ alice_op ∷ []
unfolding bundle_code
made_bundle = refl

sorted_ok : get_sorted_for_inclusion pending_pool ≡ ok sorted
unfolding get_sorted_for_inclusion
sorted_ok = refl

round-adds_example :
    let p' = result (
      round node settings no_limits 2 []
        (entry_for alice_op (codes "h1"))
        (empty_packing pending_state)) in
    Keeps (empty_packing pending_state) p'
    ⊎ (IsScreened alice_op (empty_packing pending_state)
        × Joins node 200 (entry_for alice_op (codes "h1")) (empty_packing pending_state) p')
round-adds_example =
    round-adds node settings no_limits 2 [] (entry_for alice_op (codes "h1"))
      (empty_packing pending_state)

create_bundle-IsPacked_example : IsPacked node 200 sorted made
create_bundle-IsPacked_example =
    create_bundle-IsPacked node settings no_limits pending_state sorted made sorted_ok made_ok

create_bundle-max_size_example :
    create_bundle node settings (record no_limits { max_bundle_size = some 2 }) pending_state
    ≡ (pending_state, ok (empty_packing pending_state))
create_bundle-max_size_example =
    create_bundle-max_size node settings (record no_limits { max_bundle_size = some 2 })
      pending_state sorted 2 sorted_ok refl (omega arith) (omega arith) (omega arith)

blamed :
    find_entity_to_blame node (codes "AA31 paymaster deposit too low") maker_op rated
    ≡ ok (some payer)
unfolding bundle_code
blamed = refl

send_failed-banned_example :
    let (st', outcome) = send_failed node type_error (maker_op ∷ []) pending_state in
    (outcome ≡ ok tt)
    × (get_status (some payer) st'.reputation ≡ banned)
    × IsRidOf payer st'.pool.mempool
unfolding parse_failed_op_revert get_status
send_failed-banned_example =
    send_failed-banned node type_error (maker_op ∷ []) pending_state 0
      (codes "AA31 paymaster deposit too low") maker_op payer refl refl blamed distinct_hashes refl
      (omega arith) (omega arith) (omega arith)

-- A signer is the address in these runs.
abbrev tuple : Text → Authorization
tuple address = record { chain_id = 1; address = address; nonce = 0; y_parity = 0; r = 1; s = 1 }

-- The first of these is in the list already, the second is new.
abbrev delegating_twice : Operation
delegating_twice = record alice_op { authorization_list = some (tuple payer ∷ tuple maker ∷ []) }

merged_ok :
    merge_eip7702_authorizations node delegating_twice (tuple payer ∷ [])
    ≡ ok (tuple payer ∷ tuple maker ∷ [], true)
unfolding merge_eip7702_authorizations text_dec
merged_ok = refl

distinct_signers : HasDistinctSigners node (tuple payer ∷ [])
unfolding HasDistinctSigners
distinct_signers = (tt, tt)

merge_eip7702_authorizations-IsMerged_example :
    IsMerged node
      (get_authorization_list delegating_twice)
      (tuple payer ∷ [])
      (tuple payer ∷ tuple maker ∷ [])
merge_eip7702_authorizations-IsMerged_example =
    merge_eip7702_authorizations-IsMerged node delegating_twice (tuple payer ∷ [])
      (tuple payer ∷ tuple maker ∷ []) merged_ok distinct_signers

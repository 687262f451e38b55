-- ===== src/Tests/MempoolRuns.antt =====
-- MempoolManager and the helpers on operations at concrete inputs.
use mathlib.Core.List.{filter_map}
use bundler.Common.{
  ℕ, ◌+◌, ◌≤◌, ◌≡◌, ◌≢◌, ◌↔◌, refl, true, false, Bool, none, some, ok, Result, List, [], ◌∷◌, arith,
  err, map, subst, get_elem?,
}
use bundler.Common.Text.{Text, codes, to_lower, text_dec}
use bundler.Common.Dict.{Dict, get, keys, Distinct}
use bundler.Common.Int.{◌+ℤ◌}
use bundler.Types.{StorageMap, Operation, slots, Error}
use bundler.Utils.{packed_nonce, nonce_fits, merge_storage_map}
use bundler.Utils.Storage.{over, unless, root_of, slot_of, merge_storage_map_lem}
use bundler.Mempool.Defs.{
  State, MempoolEntry, add_user_op, remove_user_op, remove_banned_addr, get_sorted_for_inclusion,
  find_by_sender_nonce,
}
use bundler.Mempool.Counts.{IsCounted, count_of, occurrences, places}
use bundler.Mempool.Lookup.{lookup, IsUnique, lookup-remove_user_op}
use bundler.Mempool.Add.{entry_of}
use bundler.Mempool.Kept.{
  add_user_op-counts, add_user_op-IsCounted, lookup-add_user_op, add_user_op-IsUnique,
}
use bundler.Mempool.Admission.{AllAdmitted, HasSingleRoles, add_user_op-ok}
use bundler.Mempool.Banned.{
  without, HasDistinctHashes, remove_banned_addr-mempool, remove_banned_addr-keeps,
}
use bundler.Mempool.Sorted.{IsSorted, with_cost, get_sorted_for_inclusion-IsSorted}
use bundler.Mempool.Reached.{Reached, empty, after, adds, Reached-one_entry}
use bundler.Mempool.Seen.{seen, add_user_op-seen_twice}
use bundler.Tests.Samples.{
  alice, payer, maker, exact, rated, valid, op_of, alice_op, maker_op, entry_for, pending_pool,
  pending_state, idle_state,
}

slots-eq : {s t : Dict Text} → slots s ≡ slots t → s ≡ t
slots-eq e = cc

maker-ne-alice : maker ≢ alice
maker-ne-alice = ground arith

abbrev is_ok : Result Error State → Bool
is_ok (ok st) = true
is_ok (err e) = false

-- What a run of the mempool's code computes with.
mempool_code : Unit {0}
unfolding add_user_op text_dec remove_banned_addr ◌+ℤ◌ filter_map
mempool_code = tt

abbrev state_of : Result Error State → State
state_of (ok st) = st
state_of (err e) = idle_state

-- A first operation of `maker`, and one that replaces the operation of `alice`.
abbrev added : Result Error State
added = add_user_op exact false maker_op (codes "h2") (valid maker) idle_state

abbrev dearer_op : Operation
dearer_op = op_of alice 1 200

abbrev replaced : Result Error State
replaced = add_user_op exact false dearer_op (codes "h3") (valid alice) pending_state

added_ok : added ≡ ok (state_of added)
unfolding mempool_code
added_ok = refl

replaced_ok : replaced ≡ ok (state_of replaced)
unfolding mempool_code
replaced_ok = refl

replaced_hash :
    map (λ e. e.user_op_hash) (state_of replaced).pool.mempool ≡ codes "h3" ∷ codes "h2" ∷ []
unfolding mempool_code
replaced_hash = refl

-- An operation with a fee that is not high enough is refused.
too_low :
    is_ok (add_user_op exact false (op_of alice 1 105) (codes "h3") (valid alice) pending_state)
    ≡ false
unfolding mempool_code
too_low = refl

pub pending_pool-IsCounted : IsCounted pending_pool
unfolding occurrences get to_lower
pending_pool-IsCounted a = ground arith

pub pending_pool-IsUnique : IsUnique pending_pool.mempool
pending_pool-IsUnique = ((λ k. maker-ne-alice k.0, tt), (tt, tt))

-- The old operation of `alice` had no paymaster; the one that replaces it has.
abbrev sponsored_op : Operation
sponsored_op = record dearer_op { paymaster = some payer }

abbrev sponsored : Result Error State
sponsored = add_user_op exact false sponsored_op (codes "h3") (valid alice) pending_state

sponsored_ok : sponsored ≡ ok (state_of sponsored)
unfolding mempool_code
sponsored_ok = refl

add_user_op-counts_example :
    occurrences payer (state_of sponsored).pool.mempool + places payer alice_op
    ≡ count_of payer (state_of sponsored).pool.counts + places payer sponsored_op
unfolding mempool_code
add_user_op-counts_example =
    add_user_op-counts exact false sponsored_op (codes "h3") (valid alice) pending_state
      (state_of sponsored) sponsored_ok payer 0 (entry_for alice_op (codes "h1"))
      pending_pool-IsCounted refl refl

add_user_op-IsCounted_example : IsCounted (state_of added).pool
unfolding mempool_code occurrences
add_user_op-IsCounted_example =
    add_user_op-IsCounted exact false maker_op (codes "h2") (valid maker) idle_state
      (state_of added) added_ok (λ a. refl) refl

lookup-add_user_op_example :
    lookup alice 1 (state_of replaced).pool.mempool
    ≡ some (entry_of false dearer_op (codes "h3") (valid alice))
unfolding packed_nonce text_dec
lookup-add_user_op_example =
    lookup-add_user_op exact false dearer_op (codes "h3") (valid alice) pending_state
      (state_of replaced) replaced_ok alice 1

add_user_op-IsUnique_example : IsUnique (state_of replaced).pool.mempool
add_user_op-IsUnique_example =
    add_user_op-IsUnique exact false dearer_op (codes "h3") (valid alice) pending_state
      (state_of replaced) replaced_ok pending_pool-IsUnique

add_user_op-ok_example :
    ((st' : State) × (add_user_op exact false maker_op (codes "h2") (valid maker) idle_state
        ≡ ok st'))
    ↔ (AllAdmitted exact idle_state (valid maker) × HasSingleRoles maker_op idle_state.pool)
unfolding packed_nonce nonce_fits find_by_sender_nonce
add_user_op-ok_example =
    add_user_op-ok exact maker_op (codes "h2") (valid maker) idle_state refl refl

lookup-remove_user_op_example : lookup alice 1 (remove_user_op alice_op pending_pool).mempool ≡ none
unfolding packed_nonce text_dec
lookup-remove_user_op_example =
    lookup-remove_user_op alice 1 alice_op pending_pool pending_pool-IsUnique

pub distinct_hashes : HasDistinctHashes pending_pool.mempool
distinct_hashes = ((λ e. ground arith, tt), (tt, tt))

remove_banned_addr-mempool_example :
    (remove_banned_addr payer pending_pool).mempool ≡ without payer pending_pool.mempool
remove_banned_addr-mempool_example = remove_banned_addr-mempool payer pending_pool distinct_hashes

remove_banned_addr-keeps_example :
    IsCounted (remove_banned_addr payer pending_pool)
    × IsUnique (remove_banned_addr payer pending_pool).mempool
remove_banned_addr-keeps_example =
    remove_banned_addr-keeps payer pending_pool pending_pool-IsCounted pending_pool-IsUnique

get_sorted_for_inclusion-IsSorted_example :
    (es : List MempoolEntry) × (get_sorted_for_inclusion pending_pool ≡ ok es)
    × IsSorted es
    × ((c : ℕ) → with_cost c es ≡ with_cost c pending_pool.mempool)
get_sorted_for_inclusion-IsSorted_example =
    get_sorted_for_inclusion-IsSorted pending_pool (omega arith)

add_user_op-seen_twice_example : seen alice rated + 1 ≤ seen alice (state_of replaced).reputation
unfolding mempool_code
add_user_op-seen_twice_example =
    add_user_op-seen_twice exact false dearer_op (codes "h3") (valid alice) pending_state
      (state_of replaced) 0 (entry_for alice_op (codes "h1")) replaced_ok refl refl refl
      (record { aggregator = tt; paymaster = tt; factory = tt })
      (record { aggregator = tt; paymaster = tt; factory = tt })

abbrev first_map : StorageMap
first_map = (alice, slots ((codes "0x00", codes "0x05") ∷ [])) ∷ []

abbrev second_map : StorageMap
second_map = (alice, slots ((codes "0x00", codes "0x06") ∷ [])) ∷ []

merge_storage_map_lem_example :
    (root_of (get alice (merge_storage_map first_map second_map))
      ≡ over (root_of (get alice second_map)) (root_of (get alice first_map)))
    × (slot_of (codes "0x00") (get alice (merge_storage_map first_map second_map))
        ≡ unless (over (root_of (get alice second_map)) (root_of (get alice first_map))) (
            over
              (slot_of (codes "0x00") (get alice second_map))
              (slot_of (codes "0x00") (get alice first_map))))
merge_storage_map_lem_example =
    merge_storage_map_lem first_map second_map alice (codes "0x00")
      ((tt, tt), ((λ s e. subst (λ (x : Dict Text). Distinct (keys x)) (slots-eq e) (tt, tt)), tt))

-- From the empty mempool to one with two operations of one sender.
abbrev next_op : Operation
next_op = op_of maker 5 90

abbrev added_again : Result Error State
added_again = add_user_op exact false next_op (codes "h4") (valid maker) (state_of added)

added_again_ok : added_again ≡ ok (state_of added_again)
unfolding mempool_code
added_again_ok = refl

added-Reached : Reached (state_of added_again).pool
added-Reached =
    after
      (after empty
        (adds exact false maker_op (codes "h2") (valid maker) idle_state (state_of added) added_ok))
      (adds exact false next_op (codes "h4") (valid maker) (state_of added) (state_of added_again)
        added_again_ok)

first_there :
    get_elem? (state_of added_again).pool.mempool 0 ≡ some (entry_for maker_op (codes "h2"))
unfolding mempool_code
first_there = refl

second_there :
    get_elem? (state_of added_again).pool.mempool 1 ≡ some (entry_for next_op (codes "h4"))
unfolding mempool_code
second_there = refl

Reached-one_entry_example : packed_nonce maker_op ≢ packed_nonce next_op
Reached-one_entry_example =
    Reached-one_entry (state_of added_again).pool 0 1 (entry_for maker_op (codes "h2"))
      (entry_for next_op (codes "h4")) added-Reached first_there second_there (omega arith) refl

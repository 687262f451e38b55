-- ===== src/Rip7560.antt =====
-- packages/bundler/src/modules/BundleManagerRIP7560.ts: bundles of RIP-7560 transactions, which the
-- node builds, and the bundles sent so far. The calls of the node and the hashes are parameters.
use mathlib.Core.List.{append_assoc}
use bundler.Common.{
  ◌≡◌, refl, Bool, true, false, Option, none, some, List, [], ◌∷◌, ◌++◌, map, if◌then◌else◌, Result,
  ok, err, ◌>>=◌,
}
use bundler.Common.Text.{Text, same}
use bundler.Types.{Operation, Error, StorageMap}
use bundler.Mempool.Defs.{State, Mempool, remove_hash}
use bundler.Bundle.{Node, Settings, Limits, SendBundleReturn}
use bundler.Bundle.Loop
use bundler.Bundle.Loop.{Packing}

-- What the manager calls: whether the node has a status of a bundle, and the hashes.
pub record BuilderNode : Type 0 where
  pub has_status : Text → Result Error Bool
  pub transaction_hash : Operation → Text
  pub hash_of_list : List Text → Text
  pub send_bundle : List Operation → Result Error Text

pub record Sent : Type 0 where
  pub managers : State
  pub sent_bundles : List SendBundleReturn

unfoldable pub compute_bundle_hash : BuilderNode → List Operation → Text
compute_bundle_hash n ops = n.hash_of_list (map n.transaction_hash ops)

unfoldable pub remove_hashes : List Text → Mempool → Mempool
unfolding remove_hash
remove_hashes [] p = p
remove_hashes (h ∷ hs) p = remove_hashes hs (remove_hash h p)

abbrev remove_sent : SendBundleReturn → State → State
remove_sent b st = record st { pool = remove_hashes b.user_op_hashes st.pool }

-- The first loop of `handlePastEvents`: the bundles to clear.
unfoldable pub scan_bundles :
    BuilderNode → List SendBundleReturn → State → State × Result Error (List Text)
unfolding remove_hashes
scan_bundles n [] st = (st, ok [])
scan_bundles n (b ∷ bs) st =
    let rest = scan_bundles n bs (remove_sent b st) in
    elim (n.has_status b.transaction_hash) [
      | err e ↦ (st, err e)
      | ok known ↦
          (rest.0, rest.1 >>= λ hashes. ok (if known then b.transaction_hash ∷ hashes else hashes))
    ]

unfoldable pub keep_others : Text → List SendBundleReturn → List SendBundleReturn
keep_others hash [] = []
keep_others hash (b ∷ bs) =
    if same b.transaction_hash hash then keep_others hash bs else b ∷ keep_others hash bs

unfoldable pub clear_bundles : List Text → List SendBundleReturn → List SendBundleReturn
unfolding keep_others
clear_bundles [] bs = bs
clear_bundles (h ∷ hs) bs = clear_bundles hs (keep_others h bs)

unfoldable pub handle_past_events : BuilderNode → Sent → Sent × Result Error (Unit {0})
unfolding scan_bundles clear_bundles
handle_past_events n x =
    let (st, scanned) = scan_bundles n x.sent_bundles x.managers in
    elim scanned [
      | err e ↦ (record x { managers = st }, err e)
      | ok hashes ↦
          (record { managers = st; sent_bundles = clear_bundles hashes x.sent_bundles }, ok tt)
    ]

abbrev record_sent : BuilderNode → Text → List Operation → Sent → Sent
record_sent n hash ops x = record x {
  sent_bundles =
      x.sent_bundles
      ++ (record { transaction_hash = hash; user_op_hashes = map n.transaction_hash ops }) ∷ [];
}

abbrev is_empty : List Operation → Bool
is_empty [] = true
is_empty (op ∷ ops) = false

-- `createBundle`, which records a bundle that is not empty.
unfoldable pub create_bundle :
    BuilderNode
    → Node
    → Settings
    → Limits
    → Sent
    → Sent × Result Error (List Operation × StorageMap)
unfolding Loop.create_bundle compute_bundle_hash
create_bundle b n s lim x =
    let (st, made) = Loop.create_bundle n s lim x.managers in
    let x' = record x { managers = st } in
    elim made [
      | err e ↦ (x', err e)
      | ok p ↦ if is_empty p.bundle then (x', ok ([], [])) else (
        record_sent b (compute_bundle_hash b p.bundle) p.bundle x',
        ok (p.bundle, p.storage_map),
      )
    ]

unfoldable pub send_bundle : BuilderNode → List Operation → Sent → Sent × Result Error Text
send_bundle b ops x = elim (b.send_bundle ops) [
  | err e ↦ (x, err e)
  | ok hash ↦ (record_sent b hash ops x, ok hash)
]

-- `sendNextBundle`, on what `createBundle` has made.
unfoldable pub send_made :
    BuilderNode
    → Sent × Result Error (List Operation × StorageMap)
    → Sent × Result Error (Option Text)
unfolding send_bundle
send_made b (x, err e) = (x, err e)
send_made b (x, ok (ops, storage)) =
    if is_empty ops
    then (x, ok none)
    else let (x', hash) = send_bundle b ops x in (x', hash >>= λ h. ok (some h))

unfoldable pub send_next_bundle :
    BuilderNode → Node → Settings → Limits → Sent → Sent × Result Error (Option Text)
unfolding handle_past_events create_bundle send_made
send_next_bundle b n s lim x =
    let (x', handled) = handle_past_events b x in
    elim handled [ err e ↦ (x', err e) | ok _ ↦ send_made b (create_bundle b n s lim x') ]

create_bundle-made :
    (b : BuilderNode) (n : Node) (s : Settings) (lim : Limits) (x : Sent) (p : Packing)
    → (Loop.create_bundle n s lim x.managers).1 ≡ ok p
    → is_empty p.bundle ≡ false
    → create_bundle b n s lim x ≡ (
      record_sent b
          (compute_bundle_hash b p.bundle)
          p.bundle
          (record x { managers = (Loop.create_bundle n s lim x.managers).0 }),
      ok (p.bundle, p.storage_map),
    )
unfolding create_bundle
create_bundle-made b n s lim x p m e = rw (m, e, create_bundle) refl

send_made-sent :
    (b : BuilderNode) (x : Sent) (ops : List Operation) (storage : StorageMap) (hash : Text)
    → is_empty ops ≡ false
    → b.send_bundle ops ≡ ok hash
    → send_made b (x, ok (ops, storage)) ≡ (record_sent b hash ops x, ok (some hash))
unfolding send_made send_bundle
send_made-sent b x ops storage hash e t = rw (e, t, send_made, send_bundle) refl

send_next_bundle-handled :
    (b : BuilderNode) (n : Node) (s : Settings) (lim : Limits) (x : Sent)
    → (handle_past_events b x).1 ≡ ok tt
    → send_next_bundle b n s lim x
      ≡ send_made b (create_bundle b n s lim (handle_past_events b x).0)
unfolding send_next_bundle
send_next_bundle-handled b n s lim x h = rw (h, send_next_bundle) refl

-- A bundle that is not empty and is sent is recorded twice: under the hash that the bundler computes
-- when it makes the bundle, and under the one that the node returns.
pub send_next_bundle-records_twice :
    (b : BuilderNode) (n : Node) (s : Settings) (lim : Limits) (x : Sent) (p : Packing)
    (hash : Text)
    → (handle_past_events b x).1 ≡ ok tt
    → (Loop.create_bundle n s lim (handle_past_events b x).0.managers).1 ≡ ok p
    → is_empty p.bundle ≡ false
    → b.send_bundle p.bundle ≡ ok hash
    → let hashes = map b.transaction_hash p.bundle in
      let (sent, outcome) = send_next_bundle b n s lim x in
      (outcome ≡ ok (some hash))
      × (sent.sent_bundles
          ≡ (handle_past_events b x).0.sent_bundles
            ++ record { transaction_hash = compute_bundle_hash b p.bundle; user_op_hashes = hashes }
              ∷ record { transaction_hash = hash; user_op_hashes = hashes }
              ∷ [])
send_next_bundle-records_twice b n s lim x p hash h m e t =
    let x' = (handle_past_events b x).0 in
    rw
      (
        send_next_bundle-handled b n s lim x h,
        create_bundle-made b n s lim x' p m e,
        send_made-sent b _ p.bundle p.storage_map hash e t,
      )
      (
        refl,
        append_assoc x'.sent_bundles
            (record {
              transaction_hash = compute_bundle_hash b p.bundle;
              user_op_hashes = map b.transaction_hash p.bundle;
            }
              ∷ [])
            (record { transaction_hash = hash; user_op_hashes = map b.transaction_hash p.bundle }
              ∷ []),
      )

-- ===== src/Rpc/Answers.antt =====
-- What a batch is answered with.
use bundler.Common.{◌≡◌, refl, List, [], ◌∷◌, map, Result, ok, err, ◌>>=◌, Bool-cases, inl, inr}
use bundler.Rpc.Server.{
  Handlers, Request, Answer, success, failure, Thrown, handle_method, handle_rpc, answer, answer_of,
  is_bundle_method, refusal, handle_rpc_public, handle_rpc_private, handle_batch,
}

-- What an answer repeats of its request.
abbrev pub tag_of : {J : Type 0} → Answer J → J × J
tag_of (success jsonrpc id value) = (jsonrpc, id)
tag_of (failure jsonrpc id e) = (jsonrpc, id)

abbrev pub asked : {J : Type 0} → Request J → J × J
asked r = (r.jsonrpc, r.id)

handle_batch-tags :
    {S J : Type 0} (handle : S → Request J → S × Answer J)
    → ((s : S) (r : Request J) → tag_of (handle s r).1 ≡ asked r)
    → (s : S) (rs : List (Request J)) → map tag_of (handle_batch handle s rs).1 ≡ map asked rs
unfolding handle_batch
handle_batch-tags handle each s [] = refl
handle_batch-tags handle each s (r ∷ rs) =
    cc (each s r, handle_batch-tags handle each (handle s r).0 rs)

module _ {S J : Type 0} (h : Handlers S J) where
  answer_of-tag : (r : Request J) (o : Result (Thrown J) J) → tag_of (answer_of h r o) ≡ asked r
  answer_of-tag r (ok value) = refl
  answer_of-tag r (err e) = refl

  answer-tag : (r : Request J) (out : S × Result (Thrown J) J) → tag_of (answer h r out).1 ≡ asked r
  answer-tag r (s, outcome) = answer_of-tag r (outcome >>= h.deep_hexlify)

  handle_rpc-tag : (s : S) (r : Request J) → tag_of (handle_rpc h s r).1 ≡ asked r
  unfolding handle_rpc
  handle_rpc-tag s r = answer-tag r (handle_method h r.method r.params s)

  handle_rpc_public-tag : (s : S) (r : Request J) → tag_of (handle_rpc_public h s r).1 ≡ asked r
  unfolding handle_rpc_public refusal
  handle_rpc_public-tag s r = elim (Bool-cases (is_bundle_method h r)) [
    | inl b ↦ rw b refl
    | inr b ↦ rw b (handle_rpc-tag s r)
  ]

  handle_rpc_private-tag : (s : S) (r : Request J) → tag_of (handle_rpc_private h s r).1 ≡ asked r
  unfolding handle_rpc_private refusal
  handle_rpc_private-tag s r = elim (Bool-cases (is_bundle_method h r)) [
    | inl b ↦ rw b (handle_rpc-tag s r)
    | inr b ↦ rw b refl
  ]

  -- On both ports every request of a batch is answered under its own id, in the order of the requests,
  -- whatever the handlers throw.
  pub handle_batch-answers :
      (s : S) (rs : List (Request J))
      → (map tag_of (handle_batch (handle_rpc_public h) s rs).1 ≡ map asked rs)
        × (map tag_of (handle_batch (handle_rpc_private h) s rs).1 ≡ map asked rs)
  handle_batch-answers s rs = (
    handle_batch-tags (handle_rpc_public h) handle_rpc_public-tag s rs,
    handle_batch-tags (handle_rpc_private h) handle_rpc_private-tag s rs,
  )

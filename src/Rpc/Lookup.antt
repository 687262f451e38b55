-- ===== src/Rpc/Lookup.antt =====
-- An operation that is looked up by its hash.
use bundler.Common.{
  ◌<◌, ◌^◌, ◌≡◌, refl, sym, ap, ◌∙◌, true, false, ◌&&◌, ◌==◌, Option, some, List, [], ◌∷◌, ◌++◌,
  All, ok, ok-injective, arith,
}
use bundler.Common.Text.{Text, same}
use bundler.InputCheck.{is_hex}
use bundler.PackedOperation.{UserOperation, PackedUserOperation, pack_user_op, unpack_user_op}
use bundler.PackedOperation.RoundTrip.{
  HasFactory, HasPaymaster, restored, unpack_user_op-pack_user_op,
}
use bundler.Rpc.Handler.{
  BundlerConfig, UserOperationEvent, UserOperationByHashResponse, find_op, response_of,
  get_user_operation_by_hash, respond, Transaction,
}

-- An operation is not the one of an event.
abbrev pub IsOther : UserOperationEvent → PackedUserOperation → Type 0
IsOther event op = (same op.sender event.sender && op.nonce == event.nonce) ≡ false

find_op-first :
    (event : UserOperationEvent) (earlier later : List PackedUserOperation)
    (packed : PackedUserOperation)
    → All (IsOther event) earlier
    → event.sender ≡ packed.sender
    → event.nonce ≡ packed.nonce
    → find_op event.sender event.nonce (earlier ++ packed ∷ later) ≡ some packed
unfolding find_op
find_op-first event [] later packed others s n = ground (arith, s, n)
find_op-first event (op ∷ earlier) later packed (other, others) s n =
    rw other (find_op-first event earlier later packed others s n)

unpacked_again :
    (op : UserOperation) (packed : PackedUserOperation)
    → pack_user_op op ≡ ok packed
    → HasFactory op
    → HasPaymaster op
    → op.verification_gas_limit < 2 ^ 128
    → op.call_gas_limit < 2 ^ 128
    → op.max_priority_fee_per_gas < 2 ^ 128
    → op.max_fee_per_gas < 2 ^ 128
    → unpack_user_op packed ≡ ok (restored op)
unpacked_again op packed h factory paymaster v c p f =
    let (again, packs, unpacks) = unpack_user_op-pack_user_op op factory paymaster v c p f in
    ap unpack_user_op (ok-injective (sym h ∙ packs)) ∙ unpacks

same-eq : (a b : Text) → a ≡ b → same a b ≡ true
same-eq a b e = ground (arith, e)

respond-unpacked :
    (c : BundlerConfig) (tx : Transaction) (packed : PackedUserOperation) (op : UserOperation)
    → unpack_user_op packed ≡ ok op
    → respond c tx (some packed)
      ≡ ok (record {
        user_operation = op;
        entry_point = c.entry_point;
        transaction_hash = tx.hash;
        block_hash = tx.block_hash;
        block_number = tx.block_number;
      })
respond-unpacked c tx packed op h = rw (h, respond) refl

response_of-found :
    (c : BundlerConfig) (event : UserOperationEvent) (ops : List PackedUserOperation)
    → event.transaction.to ≡ c.entry_point
    → event.transaction.ops ≡ some ops
    → response_of c event ≡ respond c event.transaction (find_op event.sender event.nonce ops)
unfolding response_of
response_of-found c event ops target h =
    rw (same-eq event.transaction.to c.entry_point target, h) refl

get_user_operation_by_hash-found :
    (c : BundlerConfig) (events : Text → Option UserOperationEvent) (hash : Text)
    (event : UserOperationEvent) (response : UserOperationByHashResponse)
    → is_hex hash ≡ true
    → events hash ≡ some event
    → response_of c event ≡ ok response
    → get_user_operation_by_hash c events (some hash) ≡ ok (some response)
unfolding get_user_operation_by_hash
get_user_operation_by_hash-found c events hash event response hex found h = rw (hex, found, h) refl

-- An operation in a transaction of the entry point, packed by packUserOp, is given back by
-- `getUserOperationByHash` for the hash of its event, but without its EIP-7702 authorization, and with
-- an EIP-7702 marker as an address: where its fields of a factory and a paymaster are all there or all missing, its addresses and gas limits
-- fit, and no operation before it in the transaction has its sender and nonce.
pub get_user_operation_by_hash-packed :
    (c : BundlerConfig) (events : Text → Option UserOperationEvent) (hash : Text)
    (event : UserOperationEvent) (op : UserOperation) (packed : PackedUserOperation)
    (earlier later : List PackedUserOperation)
    → is_hex hash ≡ true
    → events hash ≡ some event
    → event.transaction.to ≡ c.entry_point
    → event.transaction.ops ≡ some (earlier ++ packed ∷ later)
    → All (IsOther event) earlier
    → event.sender ≡ packed.sender
    → event.nonce ≡ packed.nonce
    → pack_user_op op ≡ ok packed
    → HasFactory op
    → HasPaymaster op
    → op.verification_gas_limit < 2 ^ 128
    → op.call_gas_limit < 2 ^ 128
    → op.max_priority_fee_per_gas < 2 ^ 128
    → op.max_fee_per_gas < 2 ^ 128
    → (response : UserOperationByHashResponse) × (get_user_operation_by_hash c events (some hash)
        ≡ ok (some response))
      × (response.user_operation ≡ restored op)
get_user_operation_by_hash-packed c events hash event op packed earlier later hex found target ops
      others s n packs factory paymaster v cl p f =
    let tx = event.transaction in
    let first = find_op-first event earlier later packed others s n in
    let back = unpacked_again op packed packs factory paymaster v cl p f in
    (
      record {
        user_operation = restored op;
        entry_point = c.entry_point;
        transaction_hash = tx.hash;
        block_hash = tx.block_hash;
        block_number = tx.block_number;
      },
      get_user_operation_by_hash-found c events hash event _ hex found (
          response_of-found c event (earlier ++ packed ∷ later) target ops
          ∙ ap (respond c tx) first
          ∙ respond-unpacked c tx packed _ back),
      refl,
    )

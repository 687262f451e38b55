-- ===== src/Rpc/Server.antt =====
-- packages/bundler/src/BundlerServer.ts: the methods, the answers and the two ports. JSON values and
-- what the handlers do with them are parameters, as is the state that the handlers change.
use bundler.Common.{
  Bool, true, false, not, Option, none, some, List, [], ◌∷◌, if◌then◌else◌, Result, ok, err, ◌>>=◌,
  get_elem?,
}
use bundler.Common.Text.{Text, codes, same}
use bundler.Common.Dict.{Dict, get}
use bundler.Common.Int.{ℤ, negsuc}
use bundler.Types.{error_code, invalid_request}

-- The parts of an exception that an answer has.
pub record RpcFailure (J : Type 0) : Type 0 where
  pub message : Text
  pub body : Option J
  pub code : Option ℤ

-- An exception, which may wrap another one, of the ethers library.
pub data Thrown (J : Type 0) : Type 0 where
  thrown : RpcFailure J → Thrown J
  wrapping : RpcFailure J → RpcFailure J → Thrown J

abbrev pub Call : Type 0 → Type 0 → Type 0
Call S J = S → S × Result (Thrown J) J

-- The handlers' methods, by the parameters that they are called with; an absent one is `none`.
pub record Handlers (S J : Type 0) : Type 0 where
  pub rip7560 : Bool
  pub has_sender : Option J → Result (Thrown J) Bool
  pub get_rip7560_bundle : Option J → Call S J
  pub send_rip7560_transaction : Option J → Bool → Call S J
  pub get_rip7560_transaction_receipt : Option J → Call S J
  pub provider_debug_info : Option J → Call S J
  pub chain_id : Call S J
  pub get_supported_entry_points : Call S J
  pub send_user_operation : Option J → Option J → Call S J
  pub estimate_user_operation_gas : Option J → Option J → Option J → Call S J
  pub get_user_operation_receipt : Option J → Call S J
  pub get_user_operation_by_hash : Option J → Call S J
  pub client_version : J
  pub clear_state : S → S
  pub dump_mempool : Call S J
  pub clear_mempool : S → S
  pub set_reputation : Option J → Call S J
  pub dump_reputation : Call S J
  pub clear_reputation : S → S
  pub set_bundling_mode : Option J → Call S J
  pub set_bundle_interval : Option J → Option J → Call S J
  pub send_bundle_now : Call S J
  pub get_stake_status : Option J → Option J → Call S J
  pub set_configuration : Option J → Call S J
  pub set_calculator : J → S → S
  pub is_nullish : J → Bool
  pub deep_hexlify : J → Result (Thrown J) J
  pub type_error : RpcFailure J
  pub undefined : J
  pub empty_text : J
  pub ok_result : J
  pub empty_object : J
  pub with_valid_for_block : J → J

pub record Request (J : Type 0) : Type 0 where
  pub method : Text
  pub params : Option (List J)
  pub jsonrpc : J
  pub id : J

pub data Answer (J : Type 0) : Type 0 where
  success : J → J → J → Answer J
  failure : J → J → RpcFailure J → Answer J

-- -32601
abbrev not_supported_code : ℤ
not_supported_code = negsuc 32600

unfoldable pub not_supported : {J : Type 0} → Text → Thrown J
not_supported method =
    thrown (record { message = method; body = none; code = some not_supported_code })

module _ {S J : Type 0} (h : Handlers S J) where
  -- A call with some of the parameters; to read one where there are none throws.
  abbrev with_params : Option (List J) → (List J → Call S J) → Call S J
  with_params none call s = (s, err (thrown h.type_error))
  with_params (some params) call s = call params s

  -- What is done with a call's result.
  abbrev given : (J → J) → S × Result (Thrown J) J → S × Result (Thrown J) J
  given f (s, ok value) = (s, ok (f value))
  given f (s, err e) = (s, err e)

  abbrev then_give : Call S J → (J → J) → Call S J
  then_give call f s = given f (call s)

  abbrev always : J → Call S J
  always value s = (s, ok value)

  abbrev doing : (S → S) → Call S J
  doing f s = (f s, ok h.ok_result)

  abbrev only_rip7560 : Text → Call S J → Call S J
  only_rip7560 method call s = if not h.rip7560 then (s, err (not_supported method)) else call s

  abbrev send_transaction : Bool → List J → Call S J
  send_transaction skip_validation params s = elim (h.has_sender (get_elem? params 0)) [
    | err e ↦ (s, err e)
    | ok given ↦
        if given
        then h.send_rip7560_transaction (get_elem? params 0) skip_validation s
        else (s, ok h.undefined)
  ]

  abbrev configured : S × Result (Thrown J) J → S × Result (Thrown J) J
  configured (s, err e) = (s, err e)
  configured (s, ok calculator) = (h.set_calculator calculator s, ok h.empty_object)

  abbrev reconfigure : List J → Call S J
  reconfigure params s = configured (h.set_configuration (get_elem? params 0) s)

  -- The cases of the switch, for the parameters of a request.
  unfoldable pub methods : Option (List J) → Dict (Call S J)
  unfolding not_supported
  methods params =
      (
        codes "aa_getRip7560Bundle",
        only_rip7560 (codes "aa_getRip7560Bundle") (
            then_give (with_params params (λ ps. h.get_rip7560_bundle (get_elem? ps 0)))
              h.with_valid_for_block),
      )
      ∷ (
        codes "eth_sendTransaction",
        only_rip7560 (codes "eth_sendTransaction") (with_params params (send_transaction false)),
      )
      ∷ (
        codes "debug_bundler_sendTransactionSkipValidation",
        only_rip7560 (codes "debug_bundler_sendTransactionSkipValidation")
            (with_params params (send_transaction true)),
      )
      ∷ (
        codes "eth_getRip7560TransactionDebugInfo",
        with_params params (λ ps. h.provider_debug_info (get_elem? ps 0)),
      )
      ∷ (
        codes "eth_getTransactionReceipt",
        only_rip7560 (codes "eth_getTransactionReceipt")
            (with_params params (λ ps. h.get_rip7560_transaction_receipt (get_elem? ps 0))),
      )
      ∷ (codes "eth_chainId", h.chain_id)
      ∷ (codes "eth_supportedEntryPoints", h.get_supported_entry_points)
      ∷ (
        codes "eth_sendUserOperation",
        with_params params (λ ps. h.send_user_operation (get_elem? ps 0) (get_elem? ps 1)),
      )
      ∷ (
        codes "eth_estimateUserOperationGas",
        with_params params (λ ps.
            h.estimate_user_operation_gas (get_elem? ps 0) (get_elem? ps 1) (get_elem? ps 2)),
      )
      ∷ (
        codes "eth_getUserOperationReceipt",
        with_params params (λ ps. h.get_user_operation_receipt (get_elem? ps 0)),
      )
      ∷ (
        codes "eth_getUserOperationByHash",
        with_params params (λ ps. h.get_user_operation_by_hash (get_elem? ps 0)),
      )
      ∷ (codes "web3_clientVersion", always h.client_version)
      ∷ (codes "debug_bundler_clearState", doing h.clear_state)
      ∷ (codes "debug_bundler_dumpMempool", h.dump_mempool)
      ∷ (codes "debug_bundler_clearMempool", doing h.clear_mempool)
      ∷ (
        codes "debug_bundler_setReputation",
        then_give (with_params params (λ ps. h.set_reputation (get_elem? ps 0))) (λ _. h.ok_result),
      )
      ∷ (codes "debug_bundler_dumpReputation", h.dump_reputation)
      ∷ (codes "debug_bundler_clearReputation", doing h.clear_reputation)
      ∷ (
        codes "debug_bundler_setBundlingMode",
        then_give (with_params params (λ ps. h.set_bundling_mode (get_elem? ps 0)))
            (λ _. h.ok_result),
      )
      ∷ (
        codes "debug_bundler_setBundleInterval",
        then_give
            (with_params params (λ ps. h.set_bundle_interval (get_elem? ps 0) (get_elem? ps 1)))
            (λ _. h.ok_result),
      )
      ∷ (
        codes "debug_bundler_sendBundleNow",
        then_give h.send_bundle_now (λ sent. if h.is_nullish sent then h.ok_result else sent),
      )
      ∷ (
        codes "debug_bundler_getStakeStatus",
        with_params params (λ ps. h.get_stake_status (get_elem? ps 0) (get_elem? ps 1)),
      )
      ∷ (codes "debug_bundler_setConfiguration", with_params params reconfigure)
      ∷ []

  unfoldable pub handle_method : Text → Option (List J) → Call S J
  unfolding methods get not_supported
  handle_method method params s = elim (get method (methods params)) [
    | some call ↦ call s
    | none ↦ (s, err (not_supported method))
  ]

  abbrev pub unwrap : Thrown J → RpcFailure J
  unwrap (thrown e) = e
  unwrap (wrapping outer inner) = inner

  -- The answer to a result in hexadecimal, or to what the method or the conversion throws.
  abbrev pub answer_of : Request J → Result (Thrown J) J → Answer J
  answer_of r (ok value) = success r.jsonrpc r.id value
  answer_of r (err e) = failure r.jsonrpc r.id (unwrap e)

  abbrev pub answer : Request J → S × Result (Thrown J) J → S × Answer J
  answer r (s, outcome) = (s, answer_of r (outcome >>= h.deep_hexlify))

  unfoldable pub handle_rpc : S → Request J → S × Answer J
  unfolding handle_method
  handle_rpc s r = answer r (handle_method r.method r.params s)

  abbrev pub is_bundle_method : Request J → Bool
  is_bundle_method r = same r.method (codes "aa_getRip7560Bundle")

  unfoldable pub refusal : Request J → Answer J
  refusal r = failure r.jsonrpc r.id (record {
    message = r.method;
    body = some h.empty_text;
    code = some (error_code invalid_request);
  })

  unfoldable pub handle_rpc_public : S → Request J → S × Answer J
  unfolding handle_rpc refusal
  handle_rpc_public s r = if is_bundle_method r then (s, refusal r) else handle_rpc s r

  unfoldable pub handle_rpc_private : S → Request J → S × Answer J
  unfolding handle_rpc refusal
  handle_rpc_private s r = if not (is_bundle_method r) then (s, refusal r) else handle_rpc s r

-- A batch, one request after the other.
unfoldable pub handle_batch :
    {S J : Type 0} → (S → Request J → S × Answer J) → S → List (Request J) → S × List (Answer J)
handle_batch handle s [] = (s, [])
handle_batch handle s (r ∷ rs) =
    let (t, a) = handle s r in let (u, answers) = handle_batch handle t rs in (u, a ∷ answers)

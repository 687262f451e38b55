-- ===== src/Execution/Admitted.antt =====
-- What an operation is that `sendUserOperation` puts into the mempool, with the program's managers.
use bundler.Common.{◌≡◌, true, false, ◌&&◌, ◌==◌, ℕ, some, if◌then◌else◌, All, ok}
use bundler.Common.Text.{Text, same, to_lower}
use bundler.Types.{Operation, ValidationResult}
use bundler.Utils.{get_authorization_list, packed_nonce}
use bundler.InputCheck.{HasHex, required_fields}
use bundler.Erc7562.{Erc7562Call}
use bundler.Validation.Laws.{IsAuthorized}
use bundler.Validation.Timely.{IsTimely}
use bundler.Validation.Compliant.{IsTraced}
use bundler.Deposit.{check_paymaster_deposit}
use bundler.Mempool.Add.{entry_of}
use bundler.Mempool.Lookup.{lookup}
use bundler.Execution.{Execution}
use bundler.Execution.Program.{World, Services}

-- An operation that has come into the mempool, from a world to another.
pub record IsAdmitted (x : Services) (op : Operation) (entry_point : Text) (st pool : World)
    : Type 0 where
  pub validation : ValidationResult
  pub hash : Text
  pub target : to_lower entry_point ≡ to_lower x.entry_point
  pub fields : All (HasHex (x.fields op)) (required_fields true true)
  pub authorized : IsAuthorized x.validation op (get_authorization_list op)
  pub traced : IsTraced x.validation op validation.referenced_contracts
  pub timely :
      (root : Erc7562Call) × (x.validation.node.trace_handle_ops op ≡ ok root)
      × IsTimely x.validation.lib x.validation.node.now op root
  pub named : x.hash_of op ≡ ok hash
  pub paid :
      (check_paymaster_deposit x.balance_of op st.events.managers.pool.mempool st.deposits).1
      ≡ ok tt
  pub found :
      (s : Text) (n : ℕ)
      → lookup s n pool.events.managers.pool.mempool ≡ (
          if same op.sender s && packed_nonce op == n
          then some (entry_of false op hash validation)
          else lookup s n st.events.managers.pool.mempool)

-- ===== src/Validation/Layout.antt =====
-- Where the calls of a trace of `handleOps` are found.
use bundler.Common.{
  ◌≡◌, none, some, List, [], ◌∷◌, ◌++◌, if◌then◌else◌, arith, Bool-cases, Option-cases, inl, inr,
}
use bundler.Types.{Operation}
use bundler.Erc7562.{Erc7562Call}
use bundler.Validation.{has_init_call, get_validation_calls}

-- What the entry point calls, in order: the creation of the sender or its initialisation, the
-- validation, the paymaster's validation, and the inner `handleOps`.
unfoldable pub laid_out :
    Operation
    → Erc7562Call
    → Erc7562Call
    → Erc7562Call
    → Erc7562Call
    → List Erc7562Call
    → List Erc7562Call
laid_out op creation validation paymaster inner rest =
    (if has_init_call op then creation ∷ [] else [])
    ++ (validation ∷ (elim op.paymaster [ none ↦ [] | some p ↦ paymaster ∷ [] ] ++ (inner ∷ rest)))

-- In a trace that is laid out like that, `getValidationCalls` finds the validation, the paymaster's
-- validation, if there is a paymaster, and the inner call.
get_validation_calls-laid_out :
    (op : Operation) (creation validation paymaster inner : Erc7562Call) (rest : List Erc7562Call)
    → get_validation_calls op (laid_out op creation validation paymaster inner rest) ≡ record {
      validation_call = some validation;
      paymaster_call = elim op.paymaster [ none ↦ none | some p ↦ some paymaster ];
      inner_call = some inner;
    }
unfolding get_validation_calls laid_out
get_validation_calls-laid_out op creation validation paymaster inner rest =
    elim (Bool-cases (has_init_call op)) [
      | inl b ↦ elim (Option-cases op.paymaster) [
        | inl n ↦ ground (arith, b, n)
        | inr (p, e) ↦ ground (arith, b, e)
      ]
      | inr b ↦ elim (Option-cases op.paymaster) [
        | inl n ↦ ground (arith, b, n)
        | inr (p, e) ↦ ground (arith, b, e)
      ]
    ]

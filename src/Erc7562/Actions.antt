-- ===== src/Erc7562/Actions.antt =====
-- The parser's steps, which change its fields and may throw: what is changed before an exception
-- stays changed.
use bundler.Common.{List, [], ◌∷◌, ◌++◌, if◌then◌else◌, Result, ok, err}
use bundler.Erc7562.{Parser, Fault, Erc7562Violation, to_error}

abbrev pub Action : Type 0
Action = Parser → Parser × Result Fault (Unit {0})

abbrev pub skip : Action
skip p = (p, ok tt)

abbrev pub throws : Fault → Action
throws e p = (p, err e)

abbrev pub modify : (Parser → Parser) → Action
modify f p = (f p, ok tt)

abbrev pub continue : Parser × Result Fault (Unit {0}) → Action → Parser × Result Fault (Unit {0})
continue (p, err e) k = (p, err e)
continue (p, ok _) k = k p

infixl 5 ◌>>◌
unfoldable pub ◌>>◌ : Action → Action → Action
◌>>◌ m k p = continue (m p) k

unfoldable pub each : {A : Type 0} → (A → Action) → List A → Action
unfolding ◌>>◌
each body [] = skip
each body (x ∷ xs) = body x >> each body xs

-- `_violationDetected`
unfoldable pub violation_detected : Erc7562Violation → Action
unfolding to_error
violation_detected v p = (
  record p { rule_violations = p.rule_violations ++ v ∷ [] },
  if p.bail_on_violation then err (to_error v) else ok tt,
)

-- The violations that a check reports, one after the other.
unfoldable pub report : List Erc7562Violation → Action
unfolding each violation_detected
report vs = each violation_detected vs

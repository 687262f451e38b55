-- ===== src/Rpc/Logs.antt =====
-- `_filterLogs` of packages/bundler/src/MethodHandlerERC4337.ts: the logs of one operation among those
-- of its bundle.
use bundler.Common.{
  ℕ, suc, ◌+◌, ◌-◌, ◌≡◌, refl, sym, ap, ◌∙◌, Bool, true, false, Option, none, some, List, [], ◌∷◌,
  ◌++◌, if◌then◌else◌, Result, ok, err, All, length, take-append, take, drop, get_elem?, arith, ◌⊎◌,
  inl, inr,
}
use bundler.Common.Text.{Text, same}

pub record Log : Type 0 where
  pub topics : List Text
  pub bytes : Text

-- The topics of the events BeforeExecution and UserOperationEvent, and the operation's hash, which is
-- the second topic of its own event.
pub record Topics : Type 0 where
  pub before_execution : Text
  pub user_operation_event : Text
  pub user_op_hash : Text

pub data LogKind : Type 0 where
  before_event own_event other_event plain_log : LogKind

abbrev has_topic : Log → ℕ → Text → Bool
has_topic log i topic = elim (get_elem? log.topics i) [ none ↦ false | some t ↦ same t topic ]

unfoldable pub kind_of : Topics → Log → LogKind
kind_of t log =
    if has_topic log 0 t.before_execution
    then before_event
    else if has_topic log 0 t.user_operation_event
    then (if has_topic log 1 t.user_op_hash then own_event else other_event)
    else plain_log

-- `first` is startIndex + 1; an endIndex of -1 is `none`.
pub record Range : Type 0 where
  pub first : ℕ
  pub last : Option ℕ

unfoldable pub widen : LogKind → ℕ → Range → Range
widen before_event i r = record { first = i + 1; last = some i }
widen own_event i r = record r { last = some i }
widen other_event i r = elim r.last [ none ↦ record r { first = i + 1 } | some j ↦ r ]
widen plain_log i r = r

unfoldable pub scan_logs : Topics → List Log → ℕ → Range → Range
unfolding kind_of widen
scan_logs t [] i r = r
scan_logs t (log ∷ logs) i r = scan_logs t logs (i + 1) (widen (kind_of t log) i r)

-- `slice`, and the exception where there is no event.
abbrev cut : List Log → Range → Result Text (List Log)
cut logs r = elim r.last [
  | none ↦ err (bundler.Common.Text.codes "fatal: no UserOperationEvent in logs")
  | some last ↦ ok (take (last - r.first) (drop r.first logs))
]

unfoldable pub filter_logs : Topics → List Log → Result Text (List Log)
unfolding scan_logs
filter_logs t logs = cut logs (scan_logs t logs 0 (record { first = 0; last = none }))

-- A log is neither BeforeExecution nor the operation's own event.
unfoldable pub IsPassed : Topics → Log → Type 0
IsPassed t log = (kind_of t log ≡ plain_log) ⊎ (kind_of t log ≡ other_event)

scan_logs-append :
    (t : Topics) (xs ys : List Log) (i : ℕ) (r : Range)
    → scan_logs t (xs ++ ys) i r ≡ scan_logs t ys (i + length xs) (scan_logs t xs i r)
unfolding scan_logs
scan_logs-append t [] ys i r = ground arith
scan_logs-append t (x ∷ xs) ys i r =
    ground (arith, scan_logs-append t xs ys (i + 1) (widen (kind_of t x) i r))

-- Once there is an end, logs that are passed change nothing.
scan_logs-passed :
    (t : Topics) (logs : List Log) (i first last : ℕ)
    → All (IsPassed t) logs
    → scan_logs t logs i (record { first = first; last = some last })
      ≡ record { first = first; last = some last }
unfolding scan_logs IsPassed widen
scan_logs-passed t [] i first last passed = refl
scan_logs-passed t (log ∷ logs) i first last (inl plain, rest) =
    rw plain (scan_logs-passed t logs (i + 1) first last rest)
scan_logs-passed t (log ∷ logs) i first last (inr other, rest) =
    rw other (scan_logs-passed t logs (i + 1) first last rest)

drop_suc-append {ℓ} :
    {A : Type ℓ} (xs : List A) (y : A) (ys : List A) → drop (length xs + 1) (xs ++ y ∷ ys) ≡ ys
drop_suc-append [] y ys = refl
drop_suc-append (x ∷ xs) y ys = ap (λ n. drop n (x ∷ (xs ++ y ∷ ys))) succ ∙ drop_suc-append xs y ys
  where
    succ : length (x ∷ xs) + 1 ≡ suc (length xs + 1)
    succ = omega arith

scan_logs-between :
    (t : Topics) (earlier between later : List Log) (start own : Log)
    → kind_of t start ≡ before_event
    → kind_of t own ≡ own_event
    → All (IsPassed t) between
    → All (IsPassed t) later
    → scan_logs t
        (earlier ++ start ∷ (between ++ own ∷ later))
        0
        (record { first = 0; last = none })
      ≡ record { first = length earlier + 1; last = some (length earlier + 1 + length between) }
unfolding scan_logs widen
scan_logs-between t earlier between later start own s o b l =
    let r0 : Range = record { first = 0; last = none } in
    let e = length earlier + 1 in
    let n = e + length between in
    let counted : 0 + length earlier ≡ length earlier = omega arith in
    scan_logs-append t earlier (start ∷ (between ++ own ∷ later)) 0 r0
    ∙ ap (λ j. scan_logs t (start ∷ (between ++ own ∷ later)) j (scan_logs t earlier 0 r0)) counted
    ∙ ap
        (λ k.
          scan_logs t (between ++ own ∷ later) e
            (widen k (length earlier) (scan_logs t earlier 0 r0)))
        s
    ∙ scan_logs-append t between (own ∷ later) e
        (record { first = e; last = some (length earlier) })
    ∙ ap (λ r. scan_logs t (own ∷ later) n r) (scan_logs-passed t between e e (length earlier) b)
    ∙ ap
        (λ k.
          scan_logs t later (n + 1)
            (widen k n (record { first = e; last = some (length earlier) })))
        o
    ∙ scan_logs-passed t later (n + 1) e n l

-- In a bundle's logs, with one last BeforeExecution before the operation's only event after it, the
-- filter gives all logs between the two, those of the operations before it in the bundle and their
-- events included.
pub filter_logs-between :
    (t : Topics) (earlier between later : List Log) (start own : Log)
    → kind_of t start ≡ before_event
    → kind_of t own ≡ own_event
    → All (IsPassed t) between
    → All (IsPassed t) later
    → filter_logs t (earlier ++ start ∷ (between ++ own ∷ later)) ≡ ok between
unfolding filter_logs
filter_logs-between t earlier between later start own s o b l =
    let logs = earlier ++ start ∷ (between ++ own ∷ later) in
    let left : (length earlier + 1 + length between) - (length earlier + 1) ≡ length between =
      omega arith in
    ap (cut logs) (scan_logs-between t earlier between later start own s o b l)
    ∙ ap (λ n. ok (take n (drop (length earlier + 1) logs))) left
    ∙ ap (λ rest. ok (take (length between) rest))
        (drop_suc-append earlier start (between ++ own ∷ later))
    ∙ ap ok (take-append (length between) between (own ∷ later) refl)

-- ===== src/Reputation/Dump.antt =====
-- `dump` and `setReputation` are inverse on a well-formed table.
use mathlib.Core.List.{append_assoc, append-nil}
use mathlib.Core.Option
use bundler.Common.{
  ◌<◌, ◌≡◌, refl, sym, ap, ◌∙◌, ◌≢◌, List, [], ◌∷◌, ◌++◌, All, arith, some, none, ok,
}
use mathlib.Core.Option.{Option}
use bundler.Common.Text.{Text, to_lower}
use bundler.Common.Dict.{Dict, get, keys, values, Distinct, Fresh}
use bundler.Common.Dict.Keys.{put-Fresh}
use bundler.Reputation.{
  Entry, Reputation, get_status, status_of, entry_status, refresh, dump, clear_state, set_entries,
  set_reputation, write,
}
use bundler.Reputation.WellFormed.{IsWellFormed, Addressed}

abbrev strip : Dict Entry → Dict Entry
strip [] = []
strip ((k, e) ∷ m) = (k, record e { status = none }) ∷ strip m

-- Both counters are integers that `toNumber` accepts.
abbrev pub Fits : Entry → Type 0
Fits e = (e.ops_seen < 9007199254740992) × (e.ops_included < 9007199254740992)

abbrev pub AllFit : Dict Entry → Type 0
AllFit m = All (λ kv. Fits kv.1) m

keys-append : (m n : Dict Entry) → keys (m ++ n) ≡ keys m ++ keys n
keys-append [] n = refl
keys-append ((k, e) ∷ m) n = ap (◌∷◌ k) (keys-append m n)

Fresh-snoc : (j k : Text) (ks : List Text) → Fresh j ks → k ≢ j → Fresh j (ks ++ k ∷ [])
Fresh-snoc j k [] f n = (n, tt)
Fresh-snoc j k (i ∷ ks) f n = (f.0, Fresh-snoc j k ks f.1 n)

-- No key of the second list is in the first.
abbrev Apart : List Text → List Text → Type 0
Apart js ks = All (λ k. Fresh k js) ks

Apart-nil : (ks : List Text) → Apart [] ks
Apart-nil [] = tt
Apart-nil (k ∷ ks) = (tt, Apart-nil ks)

Apart-snoc : (k : Text) (js ks : List Text) → Fresh k ks → Apart js ks → Apart (js ++ k ∷ []) ks
Apart-snoc k js [] f a = tt
Apart-snoc k js (i ∷ ks) f a =
    (Fresh-snoc i k js a.0 (λ e. f.0 (sym e)), Apart-snoc k js ks f.1 a.1)

set_entries-cons :
    (x : Entry) (es : List Entry) (s : Reputation)
    → Fits x
    → set_entries (x ∷ es) s
      ≡ set_entries es
          (write (to_lower x.address) (record x { address = to_lower x.address; status = none }) s)
unfolding set_entries
set_entries-cons x es s f = ground arith

-- The write of a dumped entry goes to the end of the table.
stored :
    (e : Entry) (k : Text) (s : Reputation)
    → to_lower e.address ≡ k
    → e.address ≡ k
    → Fresh k (keys s.entries)
    → write (to_lower e.address) (record e { address = to_lower e.address; status = none }) s
      ≡ record s { entries = s.entries ++ (k, record e { status = none }) ∷ [] }
stored e k s low same f =
    rw low (ground (arith, put-Fresh k (record e { status = none }) s.entries f))

set_entries-refresh :
    (r s : Reputation) (m : Dict Entry)
    → Distinct (keys m)
    → All Addressed m
    → AllFit m
    → Apart (keys s.entries) (keys m)
    → set_entries (values (refresh r m)) s ≡ (record s { entries = s.entries ++ strip m }, ok tt)
unfolding set_entries refresh
set_entries-refresh r s [] d a f p = simp append-nil
set_entries-refresh r s ((k, e) ∷ m) d a f p =
    let clean = record e { status = none } in
    let x = record e { status = some (get_status (some e.address) r) } in
    let lower : to_lower e.address ≡ k = ap to_lower a.0.0 ∙ a.0.1 in
    let ih =
      set_entries-refresh r (record s { entries = s.entries ++ (k, clean) ∷ [] }) m d.1 a.1 f.1
        (rw (keys-append s.entries ((k, clean) ∷ []))
          (Apart-snoc k (keys s.entries) (keys m) d.0 p.1)) in
    set_entries-cons x (values (refresh r m)) s f.0
    ∙ ap (set_entries (values (refresh r m))) (stored e k s lower a.0.0 p.0)
    ∙ ih
    ∙ rw append_assoc

get-strip :
    (k : Text) (m : Dict Entry)
    → get k (strip m) ≡ Option.map (λ (e : Entry). record e { status = none }) (get k m)
unfolding get
get-strip k [] = refl
get-strip k ((j, e) ∷ m) = ground (arith, get-strip k m)

-- The status does not depend on the statuses that a dump has stored.
get_status-strip :
    (r : Reputation) (a : Option Text)
    → get_status a (record r { entries = strip r.entries }) ≡ get_status a r
unfolding get_status status_of entry_status
get_status-strip r none = refl
get_status-strip r (some a) = ground (arith, get-strip (to_lower a) r.entries)

refresh-strip :
    (r s : Reputation) (m : Dict Entry)
    → ((a : Option Text) → get_status a s ≡ get_status a r)
    → refresh s (strip m) ≡ refresh r m
unfolding refresh
refresh-strip r s [] h = refl
refresh-strip r s ((k, e) ∷ m) h = cc (h (some e.address), refresh-strip r s m h)

set_reputation-loaded :
    (es : List Entry) (r s : Reputation)
    → set_entries es r ≡ (s, ok tt)
    → set_reputation es r
      ≡ (record s { entries = refresh s s.entries }, ok (values (refresh s s.entries)))
unfolding set_reputation
set_reputation-loaded es r s h = ground (arith, h)

dump-clear :
    (r : Reputation)
    → ((dump r).0 ≡ record r { entries = refresh r r.entries })
      × ((dump r).1 ≡ values (refresh r r.entries))
      × (clear_state r ≡ record r { entries = [] })
unfolding dump clear_state
dump-clear r = (refl, refl, refl)

-- Loading a dump into a cleared ReputationManager gives back the state after that dump, and the
-- same dump: for a well-formed table whose counters are numbers that `toNumber` accepts.
set_reputation-dump :
    (r : Reputation)
    → IsWellFormed r
    → AllFit r.entries
    → set_reputation (dump r).1 (clear_state r) ≡ ((dump r).0, ok (dump r).1)
set_reputation-dump r w f =
    let empty = record r { entries = [] } in
    let loaded =
      set_entries-refresh r empty r.entries w.distinct w.addressed f (Apart-nil (keys r.entries)) in
    let same =
      refresh-strip r (record r { entries = strip r.entries }) r.entries (get_status-strip r) in
    let (d0, d1, c) = dump-clear r in
    rw (d0, d1, c) (set_reputation-loaded _ empty _ loaded ∙ rw same)

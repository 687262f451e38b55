-- ===== src/Reputation/WellFormed.antt =====
-- The table of entries stays well formed: its keys are distinct and lower case, and each entry
-- carries its own key as its address.
use bundler.Common.{
  ◌≡◌, refl, ◌∙◌, List, [], ◌∷◌, foldl, All, arith, inl, inr, some, none, Option-cases, Option,
}
use bundler.Common.Text.{Text, to_lower, to_lower_idem}
use bundler.Common.Dict.{Dict, get, put, keys, Distinct}
use bundler.Common.Dict.Keys.{Distinct-put, Distinct-remove, All-put, All-remove, All-get}
use bundler.Common.Int.{ℤ}
use bundler.Reputation.{
  Entry, Reputation, add_whitelist, add_blacklist, update_seen_status, update_included_status,
  crashed_handle_ops, decay_at, hourly_cron, refresh, dump, clear_state, set_entries,
  set_reputation, get_or_create, write, decay,
}

abbrev pub Addressed : Text × Entry → Type 0
Addressed kv = (kv.1.address ≡ kv.0) × (to_lower kv.0 ≡ kv.0)

pub record IsTable (m : Dict Entry) : Type 0 where
  pub distinct : Distinct (keys m)
  pub addressed : All Addressed m

abbrev pub IsWellFormed : Reputation → Type 0
IsWellFormed r = IsTable r.entries

put-IsTable :
    (k : Text) (e : Entry) (m : Dict Entry) → Addressed (k, e) → IsTable m → IsTable (put k e m)
put-IsTable k e m a t = record {
  distinct = Distinct-put k e m t.distinct;
  addressed = All-put Addressed k e m a t.addressed;
}

get_or_create-address :
    (a : Text) (r : Reputation)
    → IsWellFormed r
    → (get_or_create (to_lower a) r).address ≡ to_lower a
unfolding get_or_create
get_or_create-address a r w = elim (Option-cases (get (to_lower a) r.entries)) [
  | inl e ↦ rw e
  | inr (x, e) ↦ rw e (All-get Addressed (to_lower a) x r.entries w.addressed e).0
]

write-IsTable :
    (a : Text) (e : Entry) (r : Reputation)
    → e.address ≡ (get_or_create (to_lower a) r).address
    → IsWellFormed r
    → IsTable (put (to_lower a) e r.entries)
write-IsTable a e r h w =
    put-IsTable (to_lower a) e r.entries (h ∙ get_or_create-address a r w, to_lower_idem a) w

decay_at-IsTable : (m : Dict Entry) (k : Text) → IsTable m → IsTable (decay_at m k)
unfolding decay_at
decay_at-IsTable m k t = elim (Option-cases (get k m)) [
  | inl e ↦ rw (e, decay_at) t
  | inr (x, e) ↦ ground (
    arith,
    e,
    put-IsTable k (decay x) m,
    All-get Addressed k x m t.addressed,
    Distinct-remove k m t.distinct,
    All-remove Addressed k m t.addressed,
  )
]

decay_all-IsTable : (ks : List Text) (m : Dict Entry) → IsTable m → IsTable (foldl decay_at m ks)
decay_all-IsTable [] m t = t
decay_all-IsTable (k ∷ ks) m t = decay_all-IsTable ks (decay_at m k) (decay_at-IsTable m k t)

pub keys-refresh : (r : Reputation) (m : Dict Entry) → keys (refresh r m) ≡ keys m
unfolding refresh
keys-refresh r [] = refl
keys-refresh r ((k, e) ∷ m) = cc (keys-refresh r m)

refresh-Addressed :
    (r : Reputation) (m : Dict Entry) → All Addressed m → All Addressed (refresh r m)
unfolding refresh
refresh-Addressed r [] a = tt
refresh-Addressed r ((k, e) ∷ m) a = (a.0, refresh-Addressed r m a.1)

refresh-IsTable : (r : Reputation) (m : Dict Entry) → IsTable m → IsTable (refresh r m)
refresh-IsTable r m t = record {
  distinct = rw (keys-refresh r m) t.distinct;
  addressed = refresh-Addressed r m t.addressed;
}

set_entries-IsTable :
    (es : List Entry) (r : Reputation) → IsWellFormed r → IsWellFormed (set_entries es r).0
unfolding set_entries
set_entries-IsTable [] r t = t
set_entries-IsTable (e ∷ es) r t =
    let key = to_lower e.address in
    let clean = record e { address = key; status = none } in
    let rest =
      set_entries-IsTable es (write key clean r)
        (put-IsTable key clean r.entries (refl, to_lower_idem e.address) t) in
    ground (arith, rest)

set_reputation-IsTable :
    (es : List Entry) (r : Reputation) → IsWellFormed r → IsWellFormed (set_reputation es r).0
unfolding set_reputation
set_reputation-IsTable es r t =
    let w = set_entries-IsTable es r t in
    ground (arith, w, refresh-IsTable (set_entries es r).0 (set_entries es r).0.entries w)

-- The calls that change a ReputationManager.
pub data Call : Type 0 where
  adds_whitelist adds_blacklist : List Text → Call
  sees : Option Text → ℤ → Call
  includes : Text → Call
  crashes : Option Text → Call
  ticks dumps clears : Call
  sets : List Entry → Call

pub step : Reputation → Call → Reputation
step r (adds_whitelist xs) = add_whitelist xs r
step r (adds_blacklist xs) = add_blacklist xs r
step r (sees a val) = update_seen_status a val r
step r (includes a) = update_included_status a r
step r (crashes a) = crashed_handle_ops a r
step r ticks = hourly_cron r
step r dumps = (dump r).0
step r clears = clear_state r
step r (sets es) = (set_reputation es r).0

pub step-IsWellFormed : (r : Reputation) (c : Call) → IsWellFormed r → IsWellFormed (step r c)
unfolding step add_whitelist add_blacklist update_seen_status update_included_status
    crashed_handle_ops hourly_cron dump clear_state
step-IsWellFormed r (adds_whitelist xs) w = w
step-IsWellFormed r (adds_blacklist xs) w = w
step-IsWellFormed r (sees none val) w = w
step-IsWellFormed r (sees (some a) val) w = write-IsTable a _ r refl w
step-IsWellFormed r (includes a) w = write-IsTable a _ r refl w
step-IsWellFormed r (crashes none) w = w
step-IsWellFormed r (crashes (some a)) w = write-IsTable a _ r refl w
step-IsWellFormed r ticks w = decay_all-IsTable (keys r.entries) r.entries w
step-IsWellFormed r dumps w = refresh-IsTable r r.entries w
step-IsWellFormed r clears w = record { distinct = tt; addressed = tt }
step-IsWellFormed r (sets es) w = set_reputation-IsTable es r w

pub includes-IsWellFormed :
    (r : Reputation) (a : Text) → IsWellFormed r → IsWellFormed (update_included_status a r)
unfolding step
includes-IsWellFormed r a w = step-IsWellFormed r (includes a) w

-- Whatever sequence of its methods is called, failing `setReputation` calls included, the table of
-- a ReputationManager keeps its keys distinct and lower case, each entry under its own address.
pub run-IsWellFormed :
    (cs : List Call) (r : Reputation) → IsWellFormed r → IsWellFormed (foldl step r cs)
run-IsWellFormed [] r w = w
run-IsWellFormed (c ∷ cs) r w = run-IsWellFormed cs (step r c) (step-IsWellFormed r c w)

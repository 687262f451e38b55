-- ===== src/Reputation/Cron.antt =====
-- `hourlyCron`: what it leaves of each entry, and what that does to the statuses.
use native.Mathlib.Nat.{div-lt_iff_lt-mul}
use bundler.Common.{
  ◌+◌, ◌*◌, ◌/◌, ◌≤◌, ◌<◌, ◌==◌, ◌&&◌, ◌≡◌, refl, ◌∙◌, List, [], ◌∷◌, foldl, arith, if◌then◌else◌,
  some, none, Option-cases, Option, inl, inr, ite, false, ap, subst,
}
use bundler.Common.Text.{Text, text_dec, to_lower}
use bundler.Common.Dict.{Dict, get, keys, Distinct, Fresh, get-put, get-remove}
use bundler.Common.Dict.Keys.{get-Fresh}
use bundler.Reputation.{
  Entry, Reputation, ok_status, has, decay, decay_at, hourly_cron, get_status, status_of,
  entry_status,
}
use bundler.Reputation.WellFormed.{IsWellFormed}

-- What one round of the cron leaves of an entry.
abbrev pub aged : Option Entry → Option Entry
aged none = none
aged (some e) =
    let e' = decay e in if e'.ops_included == 0 && e'.ops_seen == 0 then none else some e'

get-decay_at :
    (m : Dict Entry) (k j : Text)
    → get j (decay_at m k) ≡ ite (text_dec k j) (aged (get j m)) (get j m)
unfolding decay_at
get-decay_at m k j = elim (Option-cases (get k m)) [
  | inl e ↦ ground (arith, e)
  | inr (x, e) ↦ ground (arith, e, get-remove k j m, get-put k j (decay x) m)
]

get-decay_all-Fresh :
    (ks : List Text) (m : Dict Entry) (j : Text)
    → Fresh j ks
    → get j (foldl decay_at m ks) ≡ get j m
get-decay_all-Fresh [] m j f = refl
get-decay_all-Fresh (k ∷ ks) m j f =
    ground (arith, get-decay_all-Fresh ks (decay_at m k) j f.1, get-decay_at m k j)

-- Every key has its turn once.
get-decay_all :
    (ks : List Text) (m : Dict Entry) (j : Text)
    → Distinct ks
    → (Fresh j ks → get j m ≡ none)
    → get j (foldl decay_at m ks) ≡ aged (get j m)
get-decay_all [] m j d h = rw (h tt)
get-decay_all (k ∷ ks) m j d h = elim (text_dec k j) [
  | yes p ↦ ground (
    arith,
    get-decay_all-Fresh ks (decay_at m k) j (subst (λ i. Fresh i ks) p d.0),
    get-decay_at m k j,
  )
  | no n ↦
      let same : get j (decay_at m k) ≡ get j m = ground (arith, get-decay_at m k j) in
      get-decay_all ks (decay_at m k) j d.1 (λ f. same ∙ h (n, f)) ∙ ap aged same
]

get-keys : (m : Dict Entry) (j : Text) → Fresh j (keys m) → get j m ≡ none
get-keys m j f = get-Fresh j m f

-- After `hourlyCron` each entry has both counters decayed, and is gone if both came to 0. No
-- other address gets an entry.
get-hourly_cron :
    (r : Reputation) (j : Text)
    → IsWellFormed r
    → get j (hourly_cron r).entries ≡ aged (get j r.entries)
unfolding hourly_cron
get-hourly_cron r j w = get-decay_all (keys r.entries) r.entries j w.distinct (get-keys r.entries j)

entry_status-decay :
    (r : Reputation) (e : Entry)
    → 2 ≤ r.params.min_inclusion_denominator
    → entry_status r.params (decay e) ≡ ok_status
unfolding entry_status decay
entry_status-decay r e h =
    let d = r.params.min_inclusion_denominator in
    let seen = e.ops_seen * 23 / 24 in
    let more : (seen * 23 / 24 + 1) * 2 ≤ (seen * 23 / 24 + 1) * d = grind arith in
    let below : seen < (seen * 23 / 24 + 1) * d = omega arith in
    ground
      (arith, (div-lt_iff_lt-mul {k = d} {x = seen} {y = seen * 23 / 24 + 1} (omega arith)).1 below)

-- The cron touches the entries alone.
hourly_cron-rest :
    (r : Reputation)
    → ((hourly_cron r).whitelist ≡ r.whitelist)
      × ((hourly_cron r).black_list ≡ r.black_list)
      × ((hourly_cron r).params ≡ r.params)
unfolding hourly_cron
hourly_cron-rest r = (refl, refl, refl)

-- The cron clears every throttled or banned entity that is not on the black list: its second
-- assignment computes `opsIncluded` from `opsSeen`, so that the entry looks almost fully included.
pub hourly_cron-ok_status :
    (r : Reputation) (addr : Text)
    → IsWellFormed r
    → has (to_lower addr) r.black_list ≡ false
    → 2 ≤ r.params.min_inclusion_denominator
    → get_status (some addr) (hourly_cron r) ≡ ok_status
unfolding get_status status_of
hourly_cron-ok_status r addr w b d = elim (Option-cases (get (to_lower addr) r.entries)) [
  | inl e ↦ ground (arith, e, get-hourly_cron r (to_lower addr) w, hourly_cron-rest r)
  | inr (x, e) ↦
      ground (
        arith,
        e,
        get-hourly_cron r (to_lower addr) w,
        hourly_cron-rest r,
        entry_status-decay r x d,
      )
]

-- ===== src/Utils/Storage.antt =====
-- What a merged storage map holds at each address and slot, and packed nonces.
use mathlib.Core.Option.{get_or}
use bundler.Common.{
  ◌^◌, ◌<◌, ◌≡◌, refl, ◌∙◌, ap, Option, none, some, [], ◌∷◌, arith, ite, subst, All,
}
use bundler.Common.Text.{Text, text_dec}
use bundler.Common.Dict.{Dict, get, put, keys, Distinct, Fresh, get-put}
use bundler.Common.Dict.Keys.{get-Fresh, All-get}
use bundler.Types.{Operation, StorageMap, StorageEntry, root, slots}
use bundler.Utils.{merge_slots, merge_entry, merge_storage_map, packed_nonce}

-- The value that a later writer leaves, if it writes at all.
abbrev pub over {ℓ} : {A : Type ℓ} → Option A → Option A → Option A
over (some a) old = some a
over none old = old

get-merge_slots :
    (k : Text) (old new : Dict Text)
    → Distinct (keys new)
    → get k (merge_slots old new) ≡ over (get k new) (get k old)
unfolding merge_slots get
get-merge_slots k old [] d = refl
get-merge_slots k old ((j, v) ∷ new) d = ground (
  arith,
  get-merge_slots k (put j v old) new d.1,
  get-put j k v old,
  get-Fresh j new d.0,
  ap (λ (i : Text). get i new),
)

-- What stands at an address after a merge, from what stood there and what is merged in: a root
-- wins over slots, a later root over an earlier one, and slots are merged.
abbrev pub merged_entry : Option StorageEntry → Option StorageEntry → Option StorageEntry
merged_entry old none = old
merged_entry old (some (root h)) = some (root h)
merged_entry (some (root h)) (some (slots s)) = some (root h)
merged_entry none (some (slots s)) = some (slots (merge_slots [] s))
merged_entry (some (slots t)) (some (slots s)) = some (slots (merge_slots t s))

get-merge_entry_slots :
    (m : StorageMap) (a b : Text) (s : Dict Text) (o : Option StorageEntry)
    → get a m ≡ o
    → get b (merge_entry m a (slots s))
      ≡ ite (text_dec a b) (merged_entry (get b m) (some (slots s))) (get b m)
unfolding merge_entry
get-merge_entry_slots m a b s none e =
    ground (arith, get-put a b (slots (merge_slots [] s)) m, ap (λ (i : Text). get i m))
get-merge_entry_slots m a b s (some (root h)) e = ground (arith, ap (λ (i : Text). get i m))
get-merge_entry_slots m a b s (some (slots t)) e =
    ground (arith, get-put a b (slots (merge_slots t s)) m, ap (λ (i : Text). get i m))

get-merge_entry :
    (m : StorageMap) (a b : Text) (e : StorageEntry)
    → get b (merge_entry m a e) ≡ ite (text_dec a b) (merged_entry (get b m) (some e)) (get b m)
unfolding merge_entry
get-merge_entry m a b (root h) = ground (arith, get-put a b (root h) m)
get-merge_entry m a b (slots s) = get-merge_entry_slots m a b s (get a m) refl

get-Fresh_at : (a b : Text) (v : StorageMap) → a ≡ b → Fresh a (keys v) → get b v ≡ none
get-Fresh_at a b v e f = get-Fresh b v (subst (λ i. Fresh i (keys v)) e f)

get-merge_storage_map :
    (b : Text) (m v : StorageMap)
    → Distinct (keys v)
    → get b (merge_storage_map m v) ≡ merged_entry (get b m) (get b v)
unfolding merge_storage_map get
get-merge_storage_map b m [] d = refl
get-merge_storage_map b m ((a, e) ∷ v) d =
    get-merge_storage_map b (merge_entry m a e) v d.1
    ∙ elim (text_dec a b)
        as (λ t.
          merged_entry (get b (merge_entry m a e)) (get b v)
          ≡ merged_entry (get b m) (ite t (some e) (get b v))) [
            | yes p ↦ rw (get-Fresh_at a b v p d.0) (ground (arith, get-merge_entry m a b e))
            | no n ↦ ap (λ o. merged_entry o (get b v)) (ground (arith, get-merge_entry m a b e))
          ]

-- The storage root that a map gives for an address, and the value of one of its slots.
abbrev pub root_of : Option StorageEntry → Option Text
root_of (some (root h)) = some h
root_of _ = none

abbrev pub slot_of : Text → Option StorageEntry → Option Text
slot_of k (some (slots s)) = get k s
slot_of k _ = none

-- Nothing where there is a root.
abbrev pub unless {ℓ κ} : {A : Type ℓ} {B : Type κ} → Option A → Option B → Option B
unless none b = b
unless (some a) b = none

-- An object has no key twice, nor has the object of slots at an address.
abbrev pub IsObject : StorageMap → Type 0
IsObject v = Distinct (keys v) × All (λ kv. (s : Dict Text) → kv.1 ≡ slots s → Distinct (keys s)) v

merged_entry-slots :
    (k : Text) (old : Option StorageEntry) (new : Option StorageEntry)
    → ((s : Dict Text) → new ≡ some (slots s) → Distinct (keys s))
    → slot_of k (merged_entry old new)
      ≡ unless (over (root_of new) (root_of old)) (over (slot_of k new) (slot_of k old))
unfolding get
merged_entry-slots k none none d = refl
merged_entry-slots k (some (root r)) none d = refl
merged_entry-slots k (some (slots s)) none d = refl
merged_entry-slots k old (some (root r)) d = refl
merged_entry-slots k (some (root r)) (some (slots s)) d = refl
merged_entry-slots k none (some (slots s)) d = get-merge_slots k [] s (d s refl)
merged_entry-slots k (some (slots t)) (some (slots s)) d = get-merge_slots k t s (d s refl)

merged_entry-root :
    (old new : Option StorageEntry)
    → root_of (merged_entry old new) ≡ over (root_of new) (root_of old)
merged_entry-root none none = refl
merged_entry-root (some (root r)) none = refl
merged_entry-root (some (slots r)) none = refl
merged_entry-root none (some (root r)) = refl
merged_entry-root (some (root t)) (some (root r)) = refl
merged_entry-root (some (slots t)) (some (root r)) = refl
merged_entry-root none (some (slots r)) = refl
merged_entry-root (some (root t)) (some (slots r)) = refl
merged_entry-root (some (slots t)) (some (slots r)) = refl

-- After `mergeStorageMap` an address has a storage root if either map gives it one, that of the
-- map merged in first, and then no slots; where neither does, each of its slots has the value that
-- the map merged in gives, or else the old one. The map merged in has no key twice, nor has the
-- map of slots that it holds at an address.
pub merge_storage_map_lem :
    (m v : StorageMap) (a k : Text)
    → IsObject v
    → (root_of (get a (merge_storage_map m v)) ≡ over (root_of (get a v)) (root_of (get a m)))
      × (slot_of k (get a (merge_storage_map m v))
          ≡ unless
              (over (root_of (get a v)) (root_of (get a m)))
              (over (slot_of k (get a v)) (slot_of k (get a m))))
merge_storage_map_lem m v a k d = rw (get-merge_storage_map a m v d.0) (
  merged_entry-root (get a m) (get a v),
  merged_entry-slots k (get a m) (get a v) (λ s e.
      All-get (λ kv. (t : Dict Text) → kv.1 ≡ slots t → Distinct (keys t)) a (slots s) v d.1 e s
        refl),
)

-- Two operations with the same packed nonce have the same key and sequence number, where both
-- nonces are in the range that packing asks for, the nonce below 2^64 also where there is no key.
packed_nonce-injective :
    (o p : Operation)
    → o.nonce < 2 ^ 64
    → p.nonce < 2 ^ 64
    → packed_nonce o ≡ packed_nonce p
    → (get_or o.nonce_key 0 ≡ get_or p.nonce_key 0) × (o.nonce ≡ p.nonce)
unfolding packed_nonce
packed_nonce-injective o p h k e = ground arith

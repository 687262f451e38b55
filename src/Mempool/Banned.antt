-- ===== src/Mempool/Banned.antt =====
-- `removeBannedAddr` removes the entries with an address, and no other.
use mathlib.Core.List.{append_assoc, append-nil}
use bundler.Common.{
  ℕ, zero, suc, ◌≤◌, ◌≡◌, ◌≢◌, refl, sym, ap, ◌∙◌, Bool, none, some, List, [], ◌∷◌, ◌++◌, arith,
  get_elem?, remove_at, length, take, drop, if◌then◌else◌, All, All-remove_at, All-get_elem?,
  Bool-cases, Option-cases, inl, inr, take-length, drop-length, get_elem?-lt, take-suc, drop_at,
  take-remove_at, drop-remove_at, length-remove_at,
}
use bundler.Common.Text.{Text}
use bundler.Mempool.Defs.{
  MempoolEntry, Mempool, find_by_hash, remove_index, remove_hash, involves, remove_banned_from,
  remove_banned_addr,
}
use bundler.Mempool.Counts.{IsCounted, remove_index-IsCounted}
use bundler.Mempool.Lookup.{IsUnique, remove_index-IsUnique}

-- The entries that do not involve an address, in their order.
unfoldable pub without : Text → List MempoolEntry → List MempoolEntry
without addr [] = []
without addr (e ∷ es) = if involves addr e then without addr es else e ∷ without addr es

-- No two entries have the same hash.
abbrev pub HasDistinctHashes : List MempoolEntry → Type 0
HasDistinctHashes [] = Unit
HasDistinctHashes (e ∷ es) = All (λ f. f.user_op_hash ≢ e.user_op_hash) es × HasDistinctHashes es

remove_at-HasDistinctHashes :
    (es : List MempoolEntry) (i : ℕ) → HasDistinctHashes es → HasDistinctHashes (remove_at es i)
remove_at-HasDistinctHashes [] i d = tt
remove_at-HasDistinctHashes (e ∷ es) zero d = d.1
remove_at-HasDistinctHashes (e ∷ es) (suc i) d = (
  All-remove_at (λ f. f.user_op_hash ≢ e.user_op_hash) es i d.0,
  remove_at-HasDistinctHashes es i d.1,
)

find_by_hash_at :
    (es : List MempoolEntry) (i : ℕ) (e : MempoolEntry)
    → HasDistinctHashes es
    → get_elem? es i ≡ some e
    → find_by_hash e.user_op_hash es ≡ some i
unfolding find_by_hash
find_by_hash_at [] i e d h = absurd (cc)
find_by_hash_at (x ∷ es) zero e d h = ground arith
find_by_hash_at (x ∷ es) (suc i) e d h = ground (
  arith,
  find_by_hash_at es i e d.1,
  All-get_elem? (λ f. f.user_op_hash ≢ x.user_op_hash) es i e h d.0,
)

without-snoc :
    (addr : Text) (es : List MempoolEntry) (e : MempoolEntry)
    → without addr (es ++ e ∷ []) ≡ without addr es ++ (if involves addr e then [] else e ∷ [])
unfolding without
without-snoc addr [] e = ground arith
without-snoc addr (x ∷ es) e = ground (arith, without-snoc addr es e)

remove_hash_at :
    (p : Mempool) (i : ℕ) (e : MempoolEntry)
    → HasDistinctHashes p.mempool
    → get_elem? p.mempool i ≡ some e
    → (remove_hash e.user_op_hash p).mempool ≡ remove_at p.mempool i
unfolding remove_hash remove_index
remove_hash_at p i e d h = ground (arith, h, find_by_hash_at p.mempool i e d h)

remove_banned_from-step :
    (addr : Text) (i : ℕ) (p : Mempool) (e : MempoolEntry)
    → get_elem? p.mempool i ≡ some e
    → remove_banned_from (suc i) addr p
      ≡ remove_banned_from i addr (if involves addr e then remove_hash e.user_op_hash p else p)
unfolding remove_banned_from
remove_banned_from-step addr i p e h = ground (arith, h)

remove_banned_from-end :
    (addr : Text) (i : ℕ) (p : Mempool)
    → get_elem? p.mempool i ≡ none
    → remove_banned_from (suc i) addr p ≡ remove_banned_from i addr p
unfolding remove_banned_from
remove_banned_from-end addr i p h = ground (arith, h)

-- The loop has dealt with the entries from index `i` on.
remove_banned_from-mempool :
    (i : ℕ) (addr : Text) (p : Mempool)
    → i ≤ length p.mempool
    → HasDistinctHashes p.mempool
    → (remove_banned_from i addr p).mempool ≡ without addr (take i p.mempool) ++ drop i p.mempool
remove_banned_from-mempool zero addr p h d = unfold without remove_banned_from in refl
remove_banned_from-mempool (suc i) addr p h d =
    let (e, there) = get_elem?-lt p.mempool i (omega arith) in
    let step = remove_banned_from-step addr i p e there in
    let split : without addr (take (suc i) p.mempool)
        ≡ without addr (take i p.mempool) ++ (if involves addr e then [] else e ∷ []) =
      ap (without addr) (take-suc p.mempool i e there) ∙ without-snoc addr (take i p.mempool) e in
    let chosen =
      λ (b : Bool). remove_banned_from i addr (if b then remove_hash e.user_op_hash p else p) in
    elim (Bool-cases (involves addr e)) [
      | inl hit ↦
          let q = remove_hash e.user_op_hash p in
          let mem = remove_hash_at p i e d there in
          let ih =
            remove_banned_from-mempool i addr q
              (rw mem (omega (arith, length-remove_at p.mempool i (omega arith))))
              (rw mem (remove_at-HasDistinctHashes p.mempool i d)) in
          let parts : without addr (take i q.mempool) ++ drop i q.mempool
              ≡ without addr (take i p.mempool) ++ drop (suc i) p.mempool =
            rw (mem, take-remove_at p.mempool i, drop-remove_at p.mempool i) in
          ap (λ (m : Mempool). m.mempool) (step ∙ ap chosen hit)
          ∙ (ih
              ∙ (parts
                  ∙ ap (λ (xs : List MempoolEntry). xs ++ drop (suc i) p.mempool)
                      (sym (split ∙ (rw hit (append-nil _))))))
      | inr miss ↦
          let ih = remove_banned_from-mempool i addr p (omega arith) d in
          ap (λ (m : Mempool). m.mempool) (step ∙ ap chosen miss)
          ∙ (ih ∙ rw (split, miss, append_assoc, drop_at p.mempool i e there))
    ]

-- `removeBannedAddr` leaves exactly the entries of which the address is neither the sender nor the
-- paymaster nor the factory, in their order, where no two entries have the same hash.
pub remove_banned_addr-mempool :
    (addr : Text) (p : Mempool)
    → HasDistinctHashes p.mempool
    → (remove_banned_addr addr p).mempool ≡ without addr p.mempool
unfolding remove_banned_addr
remove_banned_addr-mempool addr p d =
    remove_banned_from-mempool (length p.mempool) addr p (omega arith) d
    ∙ rw (take-length p.mempool, drop-length p.mempool) (append-nil _)

-- The loop keeps what each removal keeps.
pub remove_banned_from-keeps {κ} :
    (P : Mempool → Type κ)
    → ((hash : Text) (p : Mempool) → P p → P (remove_hash hash p))
    → (i : ℕ) (addr : Text) (p : Mempool) → P p
    → P (remove_banned_from i addr p)
remove_banned_from-keeps P keep zero addr p h = unfold remove_banned_from in h
remove_banned_from-keeps P keep (suc i) addr p h = elim (Option-cases (get_elem? p.mempool i)) [
  | inl e ↦ rw (remove_banned_from-end addr i p e) (remove_banned_from-keeps P keep i addr p h)
  | inr (x, e) ↦ rw (remove_banned_from-step addr i p x e) (
      remove_banned_from-keeps P keep i addr _ (elim (Bool-cases (involves addr x)) [
        | inl hit ↦ rw hit (keep x.user_op_hash p h)
        | inr miss ↦ rw miss h
      ]))
]

-- Removing a banned address keeps the entry counts right, and sender and nonce unique.
pub remove_banned_addr-keeps :
    (addr : Text) (p : Mempool)
    → IsCounted p
    → IsUnique p.mempool
    → IsCounted (remove_banned_addr addr p) × IsUnique (remove_banned_addr addr p).mempool
unfolding remove_banned_addr remove_hash
remove_banned_addr-keeps addr p c u = (
  remove_banned_from-keeps IsCounted
      (λ hash q. remove_index-IsCounted (find_by_hash hash q.mempool) q) (length p.mempool) addr p
      c,
  remove_banned_from-keeps (λ q. IsUnique q.mempool)
      (λ hash q. remove_index-IsUnique (find_by_hash hash q.mempool) q) (length p.mempool) addr p u,
)

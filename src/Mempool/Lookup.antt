-- ===== src/Mempool/Lookup.antt =====
-- The mempool as a finite map from a sender and a packed nonce to an entry: `addUserOp` writes it
-- and `removeUserOp` deletes from it.
use mathlib.Core.Option
use bundler.Common.{
  ℕ, zero, suc, ◌==◌, ◌&&◌, ◌≡◌, ◌≢◌, refl, sym, ◌∙◌, Bool, true, false, Option, none, some, List,
  [], ◌∷◌, ◌++◌, arith, get_elem?, set, remove_at, if◌then◌else◌, All, Bool-cases, inl, inr,
  Option-cases, ◌⊎◌, All-append, All-remove_at, subst,
}
use bundler.Common.Text.{Text, same}
use bundler.Utils.{packed_nonce}
use bundler.Types.{Operation}
use bundler.Mempool.Defs.{MempoolEntry, Mempool, find_by_sender_nonce, remove_index, remove_user_op}

-- Whether an entry is for a sender and a nonce.
unfoldable pub keyed : Text → ℕ → MempoolEntry → Bool
keyed s n e = same e.user_op.sender s && packed_nonce e.user_op == n

-- The first entry for a sender and a nonce.
unfoldable pub lookup : Text → ℕ → List MempoolEntry → Option MempoolEntry
unfolding keyed
lookup s n [] = none
lookup s n (e ∷ es) = if keyed s n e then some e else lookup s n es

-- What `_findBySenderNonce` finds: an index at which the looked up entry stands.
pub find-lookup :
    (s : Text) (n : ℕ) (es : List MempoolEntry)
    → ((find_by_sender_nonce s n es ≡ none) × (lookup s n es ≡ none))
      ⊎ ((i : ℕ) × (e : MempoolEntry) × (find_by_sender_nonce s n es ≡ some i)
          × (get_elem? es i ≡ some e)
          × (lookup s n es ≡ some e)
          × (keyed s n e ≡ true))
unfolding find_by_sender_nonce lookup keyed
find-lookup s n [] = inl (refl, refl)
find-lookup s n (e ∷ es) = elim (Bool-cases (keyed s n e)) [
  | inl hit ↦ inr (zero, e, ground arith, refl, ground arith, hit)
  | inr miss ↦ elim (find-lookup s n es) [
    | inl (f, l) ↦ inl (ground (arith, f), ground (arith, l))
    | inr (i, x, f, g, l, k) ↦ inr (suc i, x, ground (arith, f), g, ground (arith, l), k)
  ]
]

pub lookup-append :
    (s : Text) (n : ℕ) (es : List MempoolEntry) (e : MempoolEntry)
    → lookup s n es ≡ none
    → lookup s n (es ++ e ∷ []) ≡ (if keyed s n e then some e else none)
unfolding lookup
lookup-append s n [] e h = refl
lookup-append s n (x ∷ es) e h = ground (arith, lookup-append s n es e)

pub lookup-append_some :
    (s : Text) (n : ℕ) (es : List MempoolEntry) (e x : MempoolEntry)
    → lookup s n es ≡ some x
    → lookup s n (es ++ e ∷ []) ≡ some x
unfolding lookup
lookup-append_some s n [] e x h = absurd (cc)
lookup-append_some s n (y ∷ es) e x h = ground (arith, lookup-append_some s n es e x)

-- Entries with one key replace one another.
abbrev pub SameKey : MempoolEntry → MempoolEntry → Type 0
SameKey e f =
    (e.user_op.sender ≡ f.user_op.sender) × (packed_nonce e.user_op ≡ packed_nonce f.user_op)

-- No two entries have the same sender and nonce.
abbrev pub IsUnique : List MempoolEntry → Type 0
IsUnique [] = Unit
IsUnique (e ∷ es) = All (λ f. ¬ SameKey f e) es × IsUnique es

keyed-SameKey :
    (s : Text) (n : ℕ) (e f : MempoolEntry) → keyed s n e ≡ true → keyed s n f ≡ true → SameKey f e
unfolding keyed
keyed-SameKey s n e f h k = ground arith

lookup-none :
    (s : Text) (n : ℕ) (e : MempoolEntry) (es : List MempoolEntry)
    → keyed s n e ≡ true
    → All (λ f. ¬ SameKey f e) es
    → lookup s n es ≡ none
unfolding lookup
lookup-none s n e [] k a = refl
lookup-none s n e (f ∷ es) k a =
    ground (
      arith,
      lookup-none s n e es k a.1,
      λ (q : keyed s n f ≡ true). a.0 (keyed-SameKey s n e f k q),
    )

find-nil : (t : Text) (m : ℕ) {i : ℕ} → find_by_sender_nonce t m [] ≢ some i
unfolding find_by_sender_nonce
find-nil t m h = cc

find-zero :
    (t : Text) (m : ℕ) (e : MempoolEntry) (es : List MempoolEntry)
    → find_by_sender_nonce t m (e ∷ es) ≡ some 0
    → keyed t m e ≡ true
unfolding find_by_sender_nonce keyed
find-zero t m e es h = ground (arith, Option.map-eq-some_iff suc (find_by_sender_nonce t m es))

find-suc :
    (t : Text) (m i : ℕ) (e : MempoolEntry) (es : List MempoolEntry)
    → find_by_sender_nonce t m (e ∷ es) ≡ some (suc i)
    → (keyed t m e ≡ false) × (find_by_sender_nonce t m es ≡ some i)
unfolding find_by_sender_nonce keyed
find-suc t m i e es h = ground arith

keyed_other :
    (s t : Text) (n m : ℕ) (e : MempoolEntry)
    → keyed t m e ≡ true
    → (same t s && m == n) ≡ keyed s n e
unfolding keyed
keyed_other s t n m e h = ground arith

keyed_miss :
    (s t : Text) (n m : ℕ) (e : MempoolEntry)
    → keyed t m e ≡ false
    → (same t s && m == n) ≡ true
    → keyed s n e ≡ false
unfolding keyed
keyed_miss s t n m e h k = ground arith

lookup-remove_at :
    (s t : Text) (n m : ℕ) (es : List MempoolEntry) (i : ℕ)
    → IsUnique es
    → find_by_sender_nonce t m es ≡ some i
    → lookup s n (remove_at es i) ≡ (if same t s && m == n then none else lookup s n es)
unfolding lookup
lookup-remove_at s t n m [] i u h = absurd (find-nil t m h)
lookup-remove_at s t n m (e ∷ es) zero u h =
    rw (keyed_other s t n m e (find-zero t m e es h))
      (ground (arith, λ (k : keyed s n e ≡ true). lookup-none s n e es k u.0))
lookup-remove_at s t n m (e ∷ es) (suc i) u h =
    let (miss, found) = find-suc t m i e es h in
    elim (Bool-cases (same t s && m == n)) [
      | inl hit ↦
          rw (hit, keyed_miss s t n m e miss hit) (lookup-remove_at s t n m es i u.1 found ∙ rw hit)
      | inr other ↦ rw other (ground (arith, lookup-remove_at s t n m es i u.1 found, other))
    ]

pub remove_at-IsUnique : (es : List MempoolEntry) (i : ℕ) → IsUnique es → IsUnique (remove_at es i)
remove_at-IsUnique [] i u = tt
remove_at-IsUnique (e ∷ es) zero u = u.1
remove_at-IsUnique (e ∷ es) (suc i) u =
    (All-remove_at (λ f. ¬ SameKey f e) es i u.0, remove_at-IsUnique es i u.1)

pub remove_user_op-none :
    (op : Operation) (p : Mempool)
    → find_by_sender_nonce op.sender (packed_nonce op) p.mempool ≡ none
    → remove_user_op op p ≡ p
unfolding remove_user_op remove_index
remove_user_op-none op p f = ground (arith, f)

pub remove_user_op-some :
    (op : Operation) (p : Mempool) (i : ℕ) (e : MempoolEntry)
    → find_by_sender_nonce op.sender (packed_nonce op) p.mempool ≡ some i
    → get_elem? p.mempool i ≡ some e
    → (remove_user_op op p).mempool ≡ remove_at p.mempool i
unfolding remove_user_op remove_index
remove_user_op-some op p i e f g = ground (arith, f, g)

-- Entries with one key answer to the same senders and nonces.
keyed_key : (s : Text) (n : ℕ) (e f : MempoolEntry) → SameKey e f → keyed s n e ≡ keyed s n f
unfolding keyed
keyed_key s n e f k = ground arith

keyed_apart :
    (s : Text) (n : ℕ) (e old new : MempoolEntry)
    → keyed old.user_op.sender (packed_nonce old.user_op) e ≡ false
    → SameKey old new
    → keyed s n new ≡ true
    → keyed s n e ≡ false
unfolding keyed
keyed_apart s n e old new miss k h = ground arith

lookup_absent :
    (s t : Text) (n m : ℕ) (es : List MempoolEntry)
    → lookup t m es ≡ none
    → lookup s n es ≡ (if same t s && m == n then none else lookup s n es)
lookup_absent s t n m es l = elim (Bool-cases (same t s && m == n)) [
  | inl hit ↦
      let e : s ≡ t = ground (arith, hit) in
      let f : n ≡ m = ground (arith, hit) in rw hit (rw (e, f) l)
  | inr miss ↦ rw miss
]

-- After `removeUserOp` there is no entry for the operation's sender and nonce, and every other
-- sender and nonce finds what it found before, where no two entries share sender and nonce.
pub lookup-remove_user_op :
    (s : Text) (n : ℕ) (op : Operation) (p : Mempool)
    → IsUnique p.mempool
    → lookup s n (remove_user_op op p).mempool
      ≡ (if same op.sender s && packed_nonce op == n then none else lookup s n p.mempool)
lookup-remove_user_op s n op p u = elim (find-lookup op.sender (packed_nonce op) p.mempool) [
  | inl (f, l) ↦
      rw (remove_user_op-none op p f) (lookup_absent s op.sender n (packed_nonce op) p.mempool l)
  | inr (i, e, f, g, l, k) ↦
      rw (remove_user_op-some op p i e f g)
        (lookup-remove_at s op.sender n (packed_nonce op) p.mempool i u f)
]

-- Removing an operation leaves the rest unique.
pub remove_index-IsUnique :
    (o : Option ℕ) (p : Mempool) → IsUnique p.mempool → IsUnique (remove_index o p).mempool
unfolding remove_index
remove_index-IsUnique none p u = u
remove_index-IsUnique (some i) p u = elim (Option-cases (get_elem? p.mempool i)) [
  | inl e ↦ rw (e, remove_index) u
  | inr (x, e) ↦ rw (e, remove_index) (remove_at-IsUnique p.mempool i u)
]

-- `lookup` after a write at an index.
pub lookup-set :
    (s : Text) (n : ℕ) (es : List MempoolEntry) (i : ℕ) (old new : MempoolEntry)
    → get_elem? es i ≡ some old
    → SameKey old new
    → find_by_sender_nonce old.user_op.sender (packed_nonce old.user_op) es ≡ some i
    → lookup s n (set es i new) ≡ (if keyed s n new then some new else lookup s n es)
unfolding lookup
lookup-set s n [] i old new g k f = absurd (cc)
lookup-set s n (e ∷ es) zero old new g k f = ground (arith, keyed_key s n e new)
lookup-set s n (e ∷ es) (suc i) old new g k f =
    let (miss, found) = find-suc old.user_op.sender (packed_nonce old.user_op) i e es f in
    ground (arith, lookup-set s n es i old new g k found, keyed_apart s n e old new miss)

pub find_none :
    (s : Text) (n : ℕ) (es : List MempoolEntry)
    → find_by_sender_nonce s n es ≡ none
    → lookup s n es ≡ none
find_none s n es h = elim (find-lookup s n es) [
  | inl (f, l) ↦ l
  | inr (i, e, f, g, l, k) ↦ absurd (cc)
]

keyed_fields :
    (s : Text) (n : ℕ) (e x : MempoolEntry)
    → x ≡ e
    → keyed s n x ≡ true
    → (e.user_op.sender ≡ s) × (packed_nonce e.user_op ≡ n)
unfolding keyed
keyed_fields s n e x h k = ground arith

keyed_not :
    (x e : MempoolEntry) → keyed e.user_op.sender (packed_nonce e.user_op) x ≡ false → ¬ SameKey e x
unfolding keyed
keyed_not x e miss k = ground arith

lookup-cons_none :
    (s : Text) (n : ℕ) (e : MempoolEntry) (es : List MempoolEntry)
    → lookup s n (e ∷ es) ≡ none
    → (keyed s n e ≡ false) × (lookup s n es ≡ none)
unfolding lookup
lookup-cons_none s n e es h = ground arith

-- An entry that is found has the sender and the nonce.
pub find_sound :
    (s : Text) (n : ℕ) (es : List MempoolEntry) (i : ℕ) (e : MempoolEntry)
    → find_by_sender_nonce s n es ≡ some i
    → get_elem? es i ≡ some e
    → (e.user_op.sender ≡ s) × (packed_nonce e.user_op ≡ n)
find_sound s n es i e h g = elim (find-lookup s n es) [
  | inl (f, l) ↦ absurd (cc)
  | inr (j, x, f, g', l, k) ↦ keyed_fields s n e x (cc) k
]

pub append-IsUnique :
    (es : List MempoolEntry) (e : MempoolEntry)
    → lookup e.user_op.sender (packed_nonce e.user_op) es ≡ none
    → IsUnique es
    → IsUnique (es ++ e ∷ [])
unfolding lookup
append-IsUnique [] e l u = (tt, tt)
append-IsUnique (x ∷ es) e l u =
    let (miss, rest) = lookup-cons_none e.user_op.sender (packed_nonce e.user_op) x es l in
    (
      All-append (λ f. ¬ SameKey f x) es (e ∷ []) u.0 (λ k. absurd (keyed_not x e miss k), tt),
      append-IsUnique es e rest u.1,
    )

some-eq : {a b : MempoolEntry} → ◌≡◌ {A = Option MempoolEntry} (some a) (some b) → a ≡ b
some-eq e = cc

All-set {κ} :
    (P : MempoolEntry → Type κ) (es : List MempoolEntry) (i : ℕ) (old new : MempoolEntry)
    → get_elem? es i ≡ some old
    → (P old → P new)
    → All P es
    → All P (set es i new)
All-set P [] i old new g h a = tt
All-set P (e ∷ es) zero old new g h a = (h (subst P (some-eq g) a.0), a.1)
All-set P (e ∷ es) (suc i) old new g h a = (a.0, All-set P es i old new g h a.1)

All-mono {κ μ} :
    (P : MempoolEntry → Type κ) (Q : MempoolEntry → Type μ) (es : List MempoolEntry)
    → ((e : MempoolEntry) → P e → Q e)
    → All P es
    → All Q es
All-mono P Q [] h a = tt
All-mono P Q (e ∷ es) h a = (h e a.0, All-mono P Q es h a.1)

pub set-IsUnique :
    (es : List MempoolEntry) (i : ℕ) (old new : MempoolEntry)
    → get_elem? es i ≡ some old
    → SameKey old new
    → IsUnique es
    → IsUnique (set es i new)
set-IsUnique [] i old new g k u = tt
set-IsUnique (e ∷ es) zero old new g k u =
    let same_head : e ≡ old = some-eq g in
    (
      All-mono (λ f. ¬ SameKey f e) (λ f. ¬ SameKey f new) es
          (λ f n q. n (rw same_head (q.0 ∙ sym k.0, q.1 ∙ sym k.1))) u.0,
      u.1,
    )
set-IsUnique (e ∷ es) (suc i) old new g k u = (
  All-set (λ f. ¬ SameKey f e) es i old new g (λ n q. n (k.0 ∙ q.0, k.1 ∙ q.1)) u.0,
  set-IsUnique es i old new g k u.1,
)

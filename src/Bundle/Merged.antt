-- ===== src/Bundle/Merged.antt =====
-- The EIP-7702 authorizations of a bundle: `mergeEip7702Authorizations`.
use mathlib.Core.List.{append_assoc, append-nil}
use bundler.Common.{
  ◌≡◌, ◌≢◌, refl, sym, ap, ◌∙◌, subst, ◌⊎◌, inl, inr, true, Option, none, some, List, [], ◌∷◌, ◌++◌,
  All, if◌then◌else◌, ok, >>=-eq-ok, ok-injective, arith, Bool-cases, Result-cases,
}
use bundler.Common.Text.{same, to_lower}
use bundler.Types.{Operation, Authorization}
use bundler.Utils.{get_authorization_list}
use bundler.Bundle.{
  Node, find_authorization, merge_authorization, merge_authorizations, merge_eip7702_authorizations,
}

pub IsIn : List Authorization → Authorization → Type 0
IsIn [] a = ⊥
IsIn (b ∷ bs) a = (b ≡ a) ⊎ IsIn bs a

module _ (n : Node) where
  -- The list has an authorization of the same signer for the same address, in any case.
  pub IsAgreed : List Authorization → Authorization → Type 0
  IsAgreed auths a =
      (b : Authorization) × IsIn auths b
      × (n.signer_of b ≡ n.signer_of a)
      × (to_lower b.address ≡ to_lower a.address)

  abbrev pub IsOtherSigner : Authorization → Authorization → Type 0
  IsOtherSigner a b = n.signer_of b ≢ n.signer_of a

  unfoldable pub HasDistinctSigners : List Authorization → Type 0
  HasDistinctSigners [] = Unit
  HasDistinctSigners (a ∷ auths) = All (IsOtherSigner a) auths × HasDistinctSigners auths

  -- A list that comes out of another by a merge of some authorizations.
  pub record IsMerged (more auths merged : List Authorization) : Type 0 where
    pub added : List Authorization
    pub kept : merged ≡ auths ++ added
    pub agreed : All (IsAgreed merged) more
    pub distinct : HasDistinctSigners merged

  find_authorization-none :
      (a : Authorization) (auths : List Authorization)
      → find_authorization n a auths ≡ ok none
      → All (IsOtherSigner a) auths
  unfolding find_authorization
  find_authorization-none a [] h = tt
  find_authorization-none a (b ∷ auths) h =
      let (theirs, s, h1) = >>=-eq-ok (n.signer_of b) _ h in
      let (own, t, h2) = >>=-eq-ok (n.signer_of a) _ h1 in
      elim (Bool-cases (same theirs own)) [
        | inl equal ↦ absurd (ground (arith, equal, h2))
        | inr differ ↦ (
          λ e. ground (arith, differ, ok-injective (sym s ∙ (e ∙ t))),
          find_authorization-none a auths (ground (arith, differ, h2)),
        )
      ]

  find_authorization-some :
      (a b : Authorization) (auths : List Authorization)
      → find_authorization n a auths ≡ ok (some b)
      → IsIn auths b × (n.signer_of b ≡ n.signer_of a)
  unfolding find_authorization IsIn
  find_authorization-some a b [] h = absurd (cc)
  find_authorization-some a b (c ∷ auths) h =
      let (theirs, s, h1) = >>=-eq-ok (n.signer_of c) _ h in
      let (own, t, h2) = >>=-eq-ok (n.signer_of a) _ h1 in
      elim (Bool-cases (same theirs own)) [
        | inl equal ↦
            let found : c ≡ b = ground (arith, equal, h2) in
            let signer : theirs ≡ own = ground (arith, equal) in
            (
              inl found,
              subst (λ x. n.signer_of x ≡ n.signer_of a) found (s ∙ (ap ok signer ∙ sym t)),
            )
        | inr differ ↦
            let (later, signer) = find_authorization-some a b auths (ground (arith, differ, h2)) in
            (inr later, signer)
      ]

  IsIn-append : (xs ys : List Authorization) (a : Authorization) → IsIn xs a → IsIn (xs ++ ys) a
  unfolding IsIn
  IsIn-append [] ys a h = absurd h
  IsIn-append (x ∷ xs) ys a (inl e) = inl e
  IsIn-append (x ∷ xs) ys a (inr h) = inr (IsIn-append xs ys a h)

  IsIn-snoc : (xs : List Authorization) (a : Authorization) → IsIn (xs ++ a ∷ []) a
  unfolding IsIn
  IsIn-snoc [] a = inl refl
  IsIn-snoc (x ∷ xs) a = inr (IsIn-snoc xs a)

  All-other-snoc :
      (a b : Authorization) (xs : List Authorization)
      → All (IsOtherSigner b) xs
      → n.signer_of a ≢ n.signer_of b
      → All (IsOtherSigner b) (xs ++ a ∷ [])
  All-other-snoc a b [] h d = (d, tt)
  All-other-snoc a b (x ∷ xs) h d = (h.0, All-other-snoc a b xs h.1 d)

  HasDistinctSigners-snoc :
      (a : Authorization) (xs : List Authorization)
      → All (IsOtherSigner a) xs
      → HasDistinctSigners xs
      → HasDistinctSigners (xs ++ a ∷ [])
  unfolding HasDistinctSigners
  HasDistinctSigners-snoc a [] h d = (tt, tt)
  HasDistinctSigners-snoc a (x ∷ xs) h d =
      (All-other-snoc a x xs d.0 (λ e. h.0 (sym e)), HasDistinctSigners-snoc a xs h.1 d.1)

  -- The list after a round, for the authorization of the same signer that was found, if there is one.
  abbrev next_list :
      Authorization → List Authorization → Option Authorization → Option (List Authorization)
  next_list a auths none = some (auths ++ a ∷ [])
  next_list a auths (some b) =
      if same (to_lower b.address) (to_lower a.address) then some auths else none

  -- One round appends an authorization of a new signer, or leaves the list as it is.
  merge_authorization-some :
      (a : Authorization) (auths next : List Authorization)
      → merge_authorization n a auths ≡ ok (some next)
      → HasDistinctSigners auths
      → IsMerged (a ∷ []) auths next
  unfolding merge_authorization IsAgreed
  merge_authorization-some a auths next h d =
      let (existing, found, h1) = >>=-eq-ok (find_authorization n a auths) _ h in
      by_existing existing found (as_list existing (ok-injective h1))
    where
      as_list :
          (o : Option Authorization)
          → elim o [
            | none ↦ some (auths ++ a ∷ [])
            | some b ↦ if same (to_lower b.address) (to_lower a.address) then some auths else none
          ]
            ≡ some next
          → next_list a auths o ≡ some next
      as_list none e = e
      as_list (some b) e = e

      by_existing :
          (o : Option Authorization)
          → find_authorization n a auths ≡ ok o
          → next_list a auths o ≡ some next
          → IsMerged (a ∷ []) auths next
      by_existing none found e =
          let appended : auths ++ a ∷ [] ≡ next = cc in
          record {
            added = a ∷ [];
            kept = sym appended;
            agreed = ((a, subst (λ l. IsIn l a) appended (IsIn-snoc auths a), refl, refl), tt);
            distinct =
                subst HasDistinctSigners appended
                  (HasDistinctSigners-snoc a auths (find_authorization-none a auths found) d);
          }
      by_existing (some b) found e =
          let (member, signer) = find_authorization-some a b auths found in
          elim (Bool-cases (same (to_lower b.address) (to_lower a.address))) [
            | inr differ ↦ absurd (ground (arith, differ, e))
            | inl equal ↦
                let unchanged : auths ≡ next = ground (arith, equal, e) in
                record {
                  added = [];
                  kept = sym unchanged ∙ sym (append-nil auths);
                  agreed = (
                    (b, subst (λ l. IsIn l b) unchanged member, signer, ground (arith, equal)),
                    tt,
                  );
                  distinct = subst HasDistinctSigners unchanged d;
                }
          ]

  IsAgreed-append :
      (xs ys : List Authorization) (a : Authorization) → IsAgreed xs a → IsAgreed (xs ++ ys) a
  unfolding IsAgreed
  IsAgreed-append xs ys a (b, member, signer, address) =
      (b, IsIn-append xs ys b member, signer, address)

  merge_authorizations-IsMerged :
      (more auths merged : List Authorization)
      → merge_authorizations n more auths ≡ ok (merged, true)
      → HasDistinctSigners auths
      → IsMerged more auths merged
  unfolding merge_authorizations
  merge_authorizations-IsMerged [] auths merged h d =
      let same_list : auths ≡ merged = ap (λ p. p.0) (ok-injective h) in
      record {
        added = [];
        kept = sym same_list ∙ sym (append-nil auths);
        agreed = tt;
        distinct = subst HasDistinctSigners same_list d;
      }
  merge_authorizations-IsMerged (a ∷ more) auths merged h d =
      elim (Result-cases (merge_authorization n a auths)) [
        | inr (e, failed) ↦ absurd (ground (arith, failed, h))
        | inl (none, conflict) ↦ absurd (ground (arith, conflict, h))
        | inl (some next, merges) ↦
            let first = merge_authorization-some a auths next merges d in
            let rest =
              merge_authorizations-IsMerged more next merged (ground (arith, merges, h))
                first.distinct in
            record {
              added = first.added ++ rest.added;
              kept =
                  rest.kept
                  ∙ (ap (λ l. l ++ rest.added) first.kept
                      ∙ append_assoc auths first.added rest.added);
              agreed = (
                subst (λ l. IsAgreed l a) (sym rest.kept)
                    (IsAgreed-append next rest.added a first.agreed.0),
                rest.agreed,
              );
              distinct = rest.distinct;
            }
      ]

  -- Where the authorizations of an operation are merged into a list whose signers are different, without
  -- a conflict, the list keeps what it had and has new ones after that, its signers are still different,
  -- and for each of the operation's it has one of the same signer, for the same address up to the case
  -- of letters.
  pub merge_eip7702_authorizations-IsMerged :
      (op : Operation) (auths merged : List Authorization)
      → merge_eip7702_authorizations n op auths ≡ ok (merged, true)
      → HasDistinctSigners auths
      → IsMerged (get_authorization_list op) auths merged
  unfolding merge_eip7702_authorizations
  merge_eip7702_authorizations-IsMerged op auths merged h d =
      merge_authorizations-IsMerged (get_authorization_list op) auths merged h d

-- ===== src/Erc7562/Association.antt =====
-- Which slots are associated with an entity, by the inputs of keccak.
use mathlib.Core.Option.{get_or}
use bundler.Common.{
  ◌≡◌, refl, ap, ◌∙◌, Bool, true, false, ◌&&◌, ◌||◌, List, [], ◌∷◌, ◌++◌, arith, Bool-cases,
  Option-cases, inl, inr, ite,
}
use bundler.Common.Text.{Text, same, to_lower, starts_with, text_dec}
use bundler.Common.Dict.{Dict, get, put, get-put}
use bundler.Types.{Operation}
use bundler.Reputation.{has, add}
use bundler.Erc7562.{Setting}
use bundler.Erc7562.Slots.{
  entity_addresses, add_input, add_inputs, parse_entity_slots, within_struct, any_within,
  associated_with,
}

-- An input of keccak starts with an address, and a slot is within 128 slots of its hash.
abbrev pub hashes_near : Setting → Text → Text → Text → Bool
hashes_near s slot a input =
    starts_with (s.hex_zero_pad a) input && within_struct s slot (s.keccak256 input)

pub any_hashes_near : Setting → Text → Text → List Text → Bool
any_hashes_near s slot a [] = false
any_hashes_near s slot a (input ∷ inputs) =
    hashes_near s slot a input || any_hashes_near s slot a inputs

module _ (s : Setting) (slot a : Text) where
  any_within-append :
      (bs cs : List Text)
      → any_within s slot (bs ++ cs) ≡ (any_within s slot bs || any_within s slot cs)
  unfolding any_within
  any_within-append [] cs = refl
  any_within-append (b ∷ bs) cs = ground (arith, any_within-append bs cs)

  any_within-has :
      (b : Text) (bs : List Text)
      → has b bs ≡ true
      → (any_within s slot bs || within_struct s slot b) ≡ any_within s slot bs
  unfolding any_within has
  any_within-has b [] h = absurd (cc)
  any_within-has b (c ∷ bs) h = ground (arith, h, any_within-has b bs)

  any_within-add :
      (b : Text) (bs : List Text)
      → any_within s slot (add bs b) ≡ (any_within s slot bs || within_struct s slot b)
  unfolding add any_within
  any_within-add b bs = elim (Bool-cases (has b bs)) [
    | inl h ↦ rw (h, any_within-has b bs h) refl
    | inr h ↦ rw (h, any_within-append bs (b ∷ [])) (ground arith)
  ]

  -- What the dictionary knows of the address.
  near : Dict (List Text) → Bool
  near slots = any_within s slot (get_or (get a slots) [])

  near-put :
      (b hash : Text) (slots : Dict (List Text))
      → near (put b (add (get_or (get b slots) []) hash) slots)
        ≡ (near slots || (same b a && within_struct s slot hash))
  unfolding near
  near-put b hash slots =
      elim (text_dec b a)
        as (λ t.
          any_within s slot (get_or (get a (put b (add (get_or (get b slots) []) hash) slots)) [])
          ≡ (any_within s slot (get_or (get a slots) [])
              || (ite t true false && within_struct s slot hash))) [
                | yes e ↦ rw (get-put b a (add (get_or (get b slots) []) hash) slots) (
                    ground (
                      arith,
                      e,
                      any_within-add hash (get_or (get b slots) []),
                      ap (λ x. any_within s slot (get_or (get x slots) [])) e,
                    ))
                | no n ↦ ground (arith, get-put b a (add (get_or (get b slots) []) hash) slots, n)
              ]

  near-add_input :
      (input : Text) (addresses : List Text) (slots : Dict (List Text))
      → near (add_input s input addresses slots)
        ≡ (near slots || (has a addresses && hashes_near s slot a input))
  unfolding add_input has
  near-add_input input [] slots = ground arith
  near-add_input input (b ∷ addresses) slots =
      elim (Bool-cases (starts_with (s.hex_zero_pad b) input)) [
        | inl starts ↦ ground (
          arith,
          starts,
          near-put b (s.keccak256 input) slots,
          near-add_input input addresses
              (put b (add (get_or (get b slots) []) (s.keccak256 input)) slots),
        )
        | inr not_starts ↦ ground (arith, not_starts, near-add_input input addresses slots)
      ]

  near-add_inputs :
      (inputs addresses : List Text) (slots : Dict (List Text))
      → has a addresses ≡ true
      → near (add_inputs s addresses inputs slots) ≡ (near slots || any_hashes_near s slot a inputs)
  unfolding add_inputs any_hashes_near
  near-add_inputs [] addresses slots h = ground arith
  near-add_inputs (input ∷ inputs) addresses slots h = ground (
    arith,
    h,
    near-add_input input addresses slots,
    near-add_inputs inputs addresses (add_input s input addresses slots) h,
  )

  associated_with-near :
      (slots : Dict (List Text))
      → associated_with s slot a slots ≡ (same slot (to_lower (s.hex_zero_pad a)) || near slots)
  unfolding associated_with near any_within
  associated_with-near slots = elim (Option-cases (get a slots)) [
    | inl g ↦ ground (arith, g)
    | inr (bs, g) ↦ ground (arith, g)
  ]

-- A slot is associated with the sender, the paymaster or the factory of an operation exactly if it is
-- the address itself, padded, or lies within 128 slots of the hash of an input of keccak that starts
-- with the padded address.
pub associated_with-hashes_near :
    (s : Setting) (op : Operation) (inputs : List Text) (slot a : Text)
    → has a (entity_addresses op) ≡ true
    → associated_with s slot a (parse_entity_slots s op inputs)
      ≡ (same slot (to_lower (s.hex_zero_pad a)) || any_hashes_near s slot a inputs)
unfolding parse_entity_slots near any_within
associated_with-hashes_near s op inputs slot a h =
    associated_with-near s slot a (add_inputs s (entity_addresses op) inputs [])
    ∙ ap (λ b. same slot (to_lower (s.hex_zero_pad a)) || b)
        (near-add_inputs s slot a inputs (entity_addresses op) [] h)

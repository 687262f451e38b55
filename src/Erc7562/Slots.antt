-- ===== src/Erc7562/Slots.antt =====
-- Which storage slots are associated with an entity: `_parseEntitySlots` and `_associatedWith` of
-- packages/validation-manager/src/ERC7562Parser.ts.
use mathlib.Core.Option.{get_or}
use bundler.Common.{
  ◌+◌, Bool, true, false, ◌&&◌, ◌||◌, Option, none, some, List, [], ◌∷◌, ◌++◌, if◌then◌else◌, leb,
  ltb,
}
use bundler.Common.Text.{Text, to_lower, starts_with, same}
use bundler.Common.Dict.{Dict, get, put}
use bundler.Types.{Operation}
use bundler.Reputation.{add}
use bundler.Erc7562.{Setting}

-- The addresses of the entities that there are, in lower case.
abbrev pub some_lower : Option Text → List Text
some_lower none = []
some_lower (some a) = to_lower a ∷ []

unfoldable pub entity_addresses : Operation → List Text
unfolding to_lower
entity_addresses op = to_lower op.sender ∷ (some_lower op.paymaster ++ some_lower op.factory)

-- The inner loop, for one input of keccak. The padded address is in lower case.
unfoldable pub add_input : Setting → Text → List Text → Dict (List Text) → Dict (List Text)
unfolding get put add starts_with
add_input s input [] slots = slots
add_input s input (a ∷ rest) slots = add_input s input rest (
    if starts_with (s.hex_zero_pad a) input
    then put a (add (get_or (get a slots) []) (s.keccak256 input)) slots
    else slots)

unfoldable pub add_inputs : Setting → List Text → List Text → Dict (List Text) → Dict (List Text)
unfolding add_input
add_inputs s addresses [] slots = slots
add_inputs s addresses (input ∷ inputs) slots =
    add_inputs s addresses inputs (add_input s input addresses slots)

unfoldable pub parse_entity_slots : Setting → Operation → List Text → Dict (List Text)
unfolding add_inputs entity_addresses
parse_entity_slots s op keccak = add_inputs s (entity_addresses op) keccak []

-- A slot is within 128 slots of another.
unfoldable pub within_struct : Setting → Text → Text → Bool
within_struct s slot base =
    leb (s.slot_number base) (s.slot_number slot)
    && ltb (s.slot_number slot) (s.slot_number base + 128)

unfoldable pub any_within : Setting → Text → List Text → Bool
unfolding within_struct
any_within s slot [] = false
any_within s slot (base ∷ bases) = within_struct s slot base || any_within s slot bases

unfoldable pub associated_with : Setting → Text → Text → Dict (List Text) → Bool
unfolding any_within get to_lower
associated_with s slot addr entity_slots =
    if same slot (to_lower (s.hex_zero_pad addr))
    then true
    else elim (get addr entity_slots) [ none ↦ false | some bases ↦ any_within s slot bases ]

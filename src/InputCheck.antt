-- ===== src/InputCheck.antt =====
-- validateInputParameters of packages/validation-manager/src/ValidationManager.ts, with
-- requireAddressAndFields of packages/utils/src/Utils.ts. An operation is the dictionary of its fields'
-- texts, without those that are null. The check of the gas field is a parameter.
use bundler.Common.{
  ℕ, ◌≡◌, ◌↔◌, refl, Bool, true, ◌&&◌, ◌||◌, Option, none, some, List, [], ◌∷◌, ◌++◌, if◌then◌else◌,
  leb, Result, ok, err, ◌>>◌, >>=-eq-ok, All, length, drop, arith, Option-cases, Bool-cases, inl,
  inr,
}
use bundler.Common.Text.{Text, codes, same, to_lower, starts_with}
use bundler.Common.Dict.{Dict, get}

-- What an RpcError of code InvalidFields says.
pub data InputError : Type 0 where
  no_entry_point no_operation gas_too_low : InputError
  unsupported_entry_point : Text → InputError
  missing_field invalid_hex unexpected_field invalid_address : Text → InputError

abbrev must : Bool → InputError → Result InputError (Unit {0})
must holds e = if holds then ok tt else err e

-- A digit of a text in lower case.
abbrev is_hex_digit : ℕ → Bool
is_hex_digit c = (leb 48 c && leb c 57) || (leb 97 c && leb c 102)

unfoldable pub all_hex_digits : Text → Bool
all_hex_digits [] = true
all_hex_digits (c ∷ t) = is_hex_digit c && all_hex_digits t

-- HEX_REGEX
unfoldable pub is_hex : Text → Bool
unfolding all_hex_digits starts_with to_lower
is_hex t = starts_with (codes "0x") (to_lower t) && all_hex_digits (drop 2 (to_lower t))

-- The expression for an address: from 10 to 40 digits.
unfoldable pub is_short_address : Text → Bool
unfolding is_hex
is_short_address t = is_hex t && leb 12 (length t) && leb (length t) 42

unfoldable pub check_fields : List Text → Dict Text → Result InputError (Unit {0})
unfolding is_hex get
check_fields [] op = ok tt
check_fields (key ∷ keys) op = elim (get key op) [
  | none ↦ err (missing_field key)
  | some value ↦ must (is_hex value) (invalid_hex key) >> check_fields keys op
]

unfoldable pub first_present : List Text → Dict Text → Option Text
unfolding get
first_present [] op = none
first_present (key ∷ keys) op = elim (get key op) [
  | some value ↦ some key
  | none ↦ first_present keys op
]

unfoldable pub first_missing : List Text → Dict Text → Option Text
unfolding get
first_missing [] op = none
first_missing (key ∷ keys) op = elim (get key op) [
  | none ↦ some key
  | some value ↦ first_missing keys op
]

-- Of the fields that the message lists, an error here names the first.
unfoldable pub require_address_and_fields :
    Dict Text → Text → List Text → List Text → Result InputError (Unit {0})
unfolding get first_present first_missing is_short_address
require_address_and_fields op addr_field must_fields optional_fields = elim (get addr_field op) [
  | none ↦ elim (first_present (must_fields ++ optional_fields) op) [
    | some key ↦ err (unexpected_field key)
    | none ↦ ok tt
  ]
  | some addr ↦
      must (is_short_address addr) (invalid_address addr_field)
      >> elim (first_missing must_fields op) [ some key ↦ err (missing_field key) | none ↦ ok tt ]
]

unfoldable pub required_fields : Bool → Bool → List Text
required_fields signature gas =
    codes "sender"
      ∷ codes "nonce"
      ∷ codes "callData"
      ∷ (if signature then codes "signature" ∷ [] else [])
    ++ (if gas
        then codes "preVerificationGas"
          ∷ codes "verificationGasLimit"
          ∷ codes "callGasLimit"
          ∷ codes "maxFeePerGas"
          ∷ codes "maxPriorityFeePerGas"
          ∷ []
        else [])

abbrev pub check_factory : Dict Text → Result InputError (Unit {0})
check_factory op = elim (get (codes "factory") op) [
  | none ↦ require_address_and_fields op (codes "factory") (codes "factoryData" ∷ []) []
  | some factory ↦
      if same factory (codes "0x7702")
      then ok tt
      else require_address_and_fields op (codes "factory") (codes "factoryData" ∷ []) []
]

abbrev check_gas : (Dict Text → Bool) → Dict Text → Result InputError (Unit {0})
check_gas gas_valid op = elim (get (codes "preVerificationGas") op) [
  | none ↦ ok tt
  | some gas ↦ must (gas_valid op) gas_too_low
]

-- The checks of an operation that is there.
unfoldable pub check_operation :
    (Dict Text → Bool) → Dict Text → Bool → Bool → Result InputError (Unit {0})
unfolding check_fields required_fields require_address_and_fields
check_operation gas_valid op signature gas = do
  check_fields (required_fields signature gas) op
  require_address_and_fields op (codes "paymaster")
      (codes "paymasterPostOpGasLimit" ∷ codes "paymasterVerificationGasLimit" ∷ [])
      (codes "paymasterData" ∷ [])
  check_factory op
  check_gas gas_valid op

unfoldable pub validate_input_parameters :
    (Dict Text → Bool)
    → Text
    → Option (Dict Text)
    → Option Text
    → Bool
    → Bool
    → Result InputError (Unit {0})
unfolding check_operation
validate_input_parameters gas_valid supported operation entry_point signature gas =
    elim entry_point [
      | none ↦ err no_entry_point
      | some input ↦
          must (same (to_lower input) (to_lower supported)) (unsupported_entry_point input)
          >> elim operation [
            | none ↦ err no_operation
            | some op ↦ check_operation gas_valid op signature gas
          ]
    ]

-- A field is there and is hexadecimal.
abbrev pub HasHex : Dict Text → Text → Type 0
HasHex op key = (value : Text) × (get key op ≡ some value) × (is_hex value ≡ true)

-- The fields pass exactly if each is there and is hexadecimal.
pub check_fields-ok :
    (keys : List Text) (op : Dict Text) → (check_fields keys op ≡ ok tt) ↔ All (HasHex op) keys
unfolding check_fields
check_fields-ok [] op = (λ h. tt, λ h. refl)
check_fields-ok (key ∷ keys) op = elim (Option-cases (get key op)) [
  | inl absent ↦ (
    λ h. absurd (ground (arith, absent, h)),
    λ ((v, g, x), rest). absurd (ground (arith, absent, g)),
  )
  | inr (value, found) ↦
      let ih = check_fields-ok keys op in
      elim (Bool-cases (is_hex value)) [
        | inl hex ↦ (
          λ h. ((value, found, hex), ih.0 (ground (arith, found, hex, h))),
          λ (here, rest). ground (arith, found, hex, ih.1 rest),
        )
        | inr not_hex ↦ (
          λ h. absurd (ground (arith, found, not_hex, h)),
          λ ((v, g, x), rest). absurd (ground (arith, found, not_hex, g, x)),
        )
      ]
]

-- An operation that `validateInputParameters` lets through is for the supported entry point, up to the
-- case of letters, and has every required field, in hexadecimal.
pub validate_input_parameters-HasHex :
    (gas_valid : Dict Text → Bool) (supported input : Text) (op : Dict Text) (signature gas : Bool)
    → validate_input_parameters gas_valid supported (some op) (some input) signature gas ≡ ok tt
    → (to_lower input ≡ to_lower supported) × All (HasHex op) (required_fields signature gas)
unfolding validate_input_parameters check_operation
validate_input_parameters-HasHex gas_valid supported input op signature gas h =
    let (a, p, h1) =
      >>=-eq-ok (must (same (to_lower input) (to_lower supported)) (unsupported_entry_point input))
        _ h in
    let (b, q, h2) = >>=-eq-ok (check_fields (required_fields signature gas) op) _ h1 in
    (ground (arith, p), (check_fields-ok (required_fields signature gas) op).0 q)

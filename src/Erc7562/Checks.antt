-- ===== src/Erc7562/Checks.antt =====
-- The rules of packages/validation-manager/src/ERC7562Parser.ts on a call, but those on storage. A
-- check is the list of the violations that it reports, in order. None of them changes what another
-- reads.
use mathlib.Core.Option.{get_or}
use bundler.Common.{
  ℕ, Bool, true, false, ◌&&◌, ◌||◌, not, Option, none, some, List, [], ◌∷◌, ◌++◌, map,
  if◌then◌else◌, leb, ltb, ◌==◌, take,
}
use bundler.Common.Text.{Text, codes, same, to_lower}
use bundler.Common.Dict.{Dict}
use bundler.Types.{Operation, StakeInfo, opcode_validation}
use bundler.Deposit.{address_zero}
use bundler.Erc7562.{
  AccountAbstractionEntity, account_entity, paymaster_entity, factory_entity, Erc7562Rule, op011,
  op020, op041, op054, op061, op062, erep050, CallFrameType, call, delegatecall, callcode,
  staticcall, create, create2, ContractSize, Frame, Description, uses_banned_opcode, reverts_on_oog,
  accesses_undeployed, illegal_entry_point_call, accesses_entry_point_code, call_with_value,
  forbidden_precompile, unstaked_opcode, unstaked_context, Erc7562Violation, StakeResult, Setting,
}
use bundler.Erc7562.Opcodes.{names_in, banned_op_codes, opcodes_only_in_staked_entities}

-- A call with what is known where it is checked.
pub record Place : Type 0 where
  pub frame : Frame
  pub depth : ℕ
  pub storage_address : Text
  pub entity : AccountAbstractionEntity

abbrev pub is_account : AccountAbstractionEntity → Bool
is_account account_entity = true
is_account _ = false

abbrev pub is_factory : AccountAbstractionEntity → Bool
is_factory factory_entity = true
is_factory _ = false

abbrev pub is_paymaster : AccountAbstractionEntity → Bool
is_paymaster paymaster_entity = true
is_paymaster _ = false

abbrev pub is_lower : Option Text → Text → Bool
is_lower none a = false
is_lower (some b) a = same (to_lower b) (to_lower a)

abbrev pub frame_name : CallFrameType → Text
frame_name call = codes "CALL"
frame_name delegatecall = codes "DELEGATECALL"
frame_name callcode = codes "CALLCODE"
frame_name staticcall = codes "STATICCALL"
frame_name create = codes "CREATE"
frame_name create2 = codes "CREATE2"

abbrev has_stake : Option StakeInfo → Bool
has_stake none = false
has_stake (some info) = leb 1 info.stake && leb 1 info.unstake_delay_sec

abbrev stake_of : StakeResult → AccountAbstractionEntity → Option StakeInfo
stake_of v account_entity = some v.sender_info
stake_of v factory_entity = v.factory_info
stake_of v paymaster_entity = v.paymaster_info
stake_of v _ = none

unfoldable pub is_entity_staked : StakeResult → AccountAbstractionEntity → Bool
is_entity_staked v entity = has_stake (stake_of v entity)

unfoldable pub is_call_to_entry_point : Setting → Frame → Bool
unfolding to_lower
is_call_to_entry_point s f =
    same (to_lower f.to) (to_lower s.entry_point_address)
    && not (same (to_lower f.from) (to_lower s.entry_point_address))
    && not (same (to_lower f.from) address_zero)

-- A violation with the fields that most checks give it.
abbrev pub violation :
    Place → Erc7562Rule → Text → Option Text → Option ℕ → Description → Erc7562Violation
violation l rule address opcode value description = record {
  rule = rule;
  depth = l.depth;
  entity = l.entity;
  address = address;
  delegatecall_storage_address = l.storage_address;
  error_code = opcode_validation;
  description = description;
  call_frame_type = l.frame.frame_type;
  opcode = opcode;
  value = value;
}

unfoldable pub check_op011 : Setting → Place → List Erc7562Violation
unfolding to_lower names_in
check_op011 s l =
    if same (to_lower l.frame.to) s.entry_point_address
    then []
    else map
        (λ name.
          violation l op011 l.frame.to (some name) (some 0) (uses_banned_opcode l.entity name))
        (names_in banned_op_codes l.frame.used_opcodes)

unfoldable pub check_op020 : Place → List Erc7562Violation
check_op020 l =
    if l.frame.out_of_gas
    then violation l op020 l.frame.from (some (frame_name l.frame.frame_type)) (some 0)
        (reverts_on_oog l.entity)
      ∷ []
    else []

abbrev pub is_given {ℓ} : {A : Type ℓ} → Option A → Bool
is_given none = false
is_given (some a) = true

abbrev is_create : CallFrameType → Bool
is_create create = true
is_create _ = false

abbrev creates : CallFrameType → Bool
creates create = true
creates create2 = true
creates _ = false

-- The three ways in which a creation is allowed.
unfoldable pub is_allowed_create : Operation → StakeResult → Place → Bool
unfolding is_entity_staked to_lower
is_allowed_create op v l =
    let from_sender = same (to_lower l.frame.from) (to_lower op.sender) in
    let by_op032 =
      is_given op.factory
      && is_create l.frame.frame_type
      && (is_account l.entity || is_factory l.entity)
      && from_sender in
    let by_erep060 =
      (from_sender || is_lower op.factory l.frame.from) && is_entity_staked v factory_entity in
    let of_sender = is_factory l.entity && same (to_lower l.frame.to) (to_lower op.sender) in
    by_op032 || by_erep060 || of_sender

unfoldable pub check_op031 : Operation → StakeResult → Place → List Erc7562Violation
unfolding is_allowed_create
check_op031 op v l =
    if not (creates l.frame.frame_type) || is_allowed_create op v l
    then []
    else violation l op011 l.frame.from (some (codes "CREATE2")) (some 0)
        (uses_banned_opcode l.entity (codes "CREATE2"))
      ∷ []

unfoldable pub is_precompiled : Setting → Text → Bool
is_precompiled s address = elim (s.parse_int address) [
  | none ↦ false
  | some n ↦ ltb n 1000 && leb 1 n
]

unfoldable pub is_forbidden_precompiled : Setting → Text → Bool
unfolding is_precompiled
is_forbidden_precompiled s address = elim (s.parse_int address) [
  | none ↦ false
  | some n ↦ is_precompiled s address && ltb 9 n
]

unfoldable pub is_illegal_access : Setting → Operation → Text → ContractSize → Bool
unfolding is_precompiled to_lower
is_illegal_access s op address size =
    not (is_precompiled s address)
    && not (same (to_lower address) (to_lower op.sender))
    && not (same (to_lower address) s.entry_point_address)
    && leb size.contract_size 2

unfoldable pub check_op041 : Setting → Operation → Place → Dict ContractSize → List Erc7562Violation
unfolding is_illegal_access
check_op041 s op l [] = []
check_op041 s op l ((address, size) ∷ rest) =
    if is_illegal_access s op address size
    then violation l op041 address none none (accesses_undeployed l.entity address size.opcode)
      ∷ check_op041 s op l rest
    else check_op041 s op l rest

-- Methods of the entry point that may be called: those of RIP-7560, of OP-052 and of OP-053.
abbrev pub allowed_methods : List Text
allowed_methods =
    codes "depositTo"
    ∷ codes "0x"
    ∷ codes "acceptAccount"
    ∷ codes "acceptPaymaster"
    ∷ codes "sigFailAccount"
    ∷ codes "sigFailPaymaster"
    ∷ []

abbrev pub get4bytes : Text → Text
get4bytes input = take 10 input

-- `_tryDetectKnownMethod`, which takes the selector from the input as it is.
unfoldable pub try_detect_known_method : Setting → Option Text → Text
try_detect_known_method s none = codes "<no-input>"
try_detect_known_method s (some input) =
    get_or (s.function_name (get4bytes input)) (get4bytes input)

unfoldable pub check_op054 : Setting → Place → List Erc7562Violation
unfolding is_call_to_entry_point bundler.Reputation.has try_detect_known_method
check_op054 s l =
    let method = try_detect_known_method s l.frame.input in
    if is_call_to_entry_point s l.frame && not (bundler.Reputation.has method allowed_methods)
    then violation l op054 l.frame.from (some (frame_name l.frame.frame_type)) l.frame.value
        (illegal_entry_point_call method)
      ∷ []
    else []

unfoldable pub check_op054_ext_code : Setting → Place → List Text → List Erc7562Violation
unfolding to_lower
check_op054_ext_code s l [] = []
check_op054_ext_code s l (addr ∷ addrs) =
    if same (to_lower addr) s.entry_point_address
    then violation l op054 l.frame.to none none
        (accesses_entry_point_code l.entity s.entry_point_address)
      ∷ check_op054_ext_code s l addrs
    else check_op054_ext_code s l addrs

unfoldable pub check_op061 : Setting → Place → List Erc7562Violation
unfolding is_call_to_entry_point
check_op061 s l =
    if not (is_call_to_entry_point s l.frame) && not (get_or l.frame.value 0 == 0)
    then violation l op061 l.frame.from (some (frame_name l.frame.frame_type)) l.frame.value
        call_with_value
      ∷ []
    else []

unfoldable pub check_op062 : Setting → Place → List Text → List Erc7562Violation
unfolding is_forbidden_precompiled
check_op062 s l [] = []
check_op062 s l (address ∷ rest) =
    if is_forbidden_precompiled s address
    then violation l op062 l.frame.from (some (frame_name l.frame.frame_type)) l.frame.value
        (forbidden_precompile address)
      ∷ check_op062 s l rest
    else check_op062 s l rest

unfoldable pub check_op080 : StakeResult → Place → List Erc7562Violation
unfolding is_entity_staked names_in
check_op080 v l =
    if is_entity_staked v l.entity
    then []
    else map
        (λ name.
          violation l op011 l.frame.from (some name) (some 0) (unstaked_opcode l.entity name))
        (names_in opcodes_only_in_staked_entities l.frame.used_opcodes)

-- `context != null && context !== '0x'`
abbrev is_context : Option Text → Bool
is_context none = false
is_context (some context) = not (same context (codes "0x"))

abbrev paymaster_context_of : StakeResult → Option Text
paymaster_context_of v = elim v.paymaster_info [ none ↦ none | some info ↦ v.paymaster_context ]

unfoldable pub check_erep050 : StakeResult → Place → List Erc7562Violation
unfolding is_entity_staked
check_erep050 v l =
    if is_paymaster l.entity
      && not (is_entity_staked v l.entity)
      && is_context (paymaster_context_of v)
    then violation l erep050 l.frame.from none (some 0) unstaked_context ∷ []
    else []

-- The checks of `_innerStepRecursive`, in their order, up to the one on storage.
unfoldable pub check_frame : Setting → Operation → StakeResult → Place → List Erc7562Violation
unfolding check_op011 check_op020 check_op031 check_op041 check_op054 check_op054_ext_code
    check_op061 check_op062 check_op080 check_erep050
check_frame s op v l =
    check_op011 s l
    ++ (check_op020 l
        ++ (check_op031 op v l
            ++ (check_op041 s op l l.frame.contract_size
                ++ (check_op054 s l
                    ++ (check_op054_ext_code s l l.frame.ext_code_access_info
                        ++ (check_op061 s l
                            ++ (check_op062 s l (bundler.Common.Dict.keys l.frame.contract_size)
                                ++ (check_op080 v l ++ check_erep050 v l))))))))

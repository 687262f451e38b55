-- ===== src/Erc7562/Opcodes.antt =====
-- The opcodes of packages/validation-manager/src: enum/EVMOpcodes.ts and ERC7562BannedOpcodes.ts.
use bundler.Common.{ℕ, ◌==◌, Option, none, some, List, [], ◌∷◌, if◌then◌else◌}
use bundler.Common.Text.{Text, codes}
use bundler.Reputation.{has}

abbrev pub evm_opcodes : List (Text × ℕ)
evm_opcodes =
    (codes "ADDRESS", 0x30)
    ∷ (codes "BALANCE", 0x31)
    ∷ (codes "ORIGIN", 0x32)
    ∷ (codes "GASPRICE", 0x3A)
    ∷ (codes "BLOCKHASH", 0x40)
    ∷ (codes "COINBASE", 0x41)
    ∷ (codes "TIMESTAMP", 0x42)
    ∷ (codes "NUMBER", 0x43)
    ∷ (codes "DIFFICULTY", 0x44)
    ∷ (codes "GASLIMIT", 0x45)
    ∷ (codes "SELFBALANCE", 0x47)
    ∷ (codes "BASEFEE", 0x48)
    ∷ (codes "BLOBHASH", 0x49)
    ∷ (codes "BLOBBASEFEE", 0x4A)
    ∷ (codes "GAS", 0x5A)
    ∷ (codes "CREATE", 0xF0)
    ∷ (codes "SELFDESTRUCT", 0xFF)
    ∷ (codes "EXTCODESIZE", 0x3B)
    ∷ (codes "EXTCODECOPY", 0x3C)
    ∷ (codes "EXTCODEHASH", 0x3F)
    ∷ (codes "CHAINID", 0x46)
    ∷ (codes "MLOAD", 0x51)
    ∷ (codes "MSTORE", 0x52)
    ∷ (codes "MSTORE8", 0x53)
    ∷ (codes "SLOAD", 0x54)
    ∷ (codes "SSTORE", 0x55)
    ∷ (codes "JUMPDEST", 0x5B)
    ∷ (codes "TLOAD", 0x5C)
    ∷ (codes "TSTORE", 0x5D)
    ∷ (codes "MCOPY", 0x5E)
    ∷ (codes "PUSH0", 0x5F)
    ∷ (codes "CALL", 0xF1)
    ∷ (codes "RETURN", 0xF3)
    ∷ (codes "DELEGATECALL", 0xF4)
    ∷ (codes "CREATE2", 0xF5)
    ∷ (codes "STATICCALL", 0xFA)
    ∷ (codes "REVERT", 0xFD)
    ∷ (codes "INVALID", 0xFE)
    ∷ []

unfoldable pub find_name : ℕ → List (Text × ℕ) → Option Text
find_name value [] = none
find_name value ((name, v) ∷ rest) = if v == value then some name else find_name value rest

unfoldable pub get_opcode_name : ℕ → Option Text
unfolding find_name
get_opcode_name value = find_name value evm_opcodes

abbrev pub banned_op_codes : List Text
banned_op_codes =
    codes "BASEFEE"
    ∷ codes "BLOCKHASH"
    ∷ codes "COINBASE"
    ∷ codes "DIFFICULTY"
    ∷ codes "GAS"
    ∷ codes "GASLIMIT"
    ∷ codes "GASPRICE"
    ∷ codes "INVALID"
    ∷ codes "NUMBER"
    ∷ codes "ORIGIN"
    ∷ codes "PREVRANDAO"
    ∷ codes "RANDOM"
    ∷ codes "SELFDESTRUCT"
    ∷ codes "TIMESTAMP"
    ∷ codes "BLOBHASH"
    ∷ codes "BLOBBASEFEE"
    ∷ []

abbrev pub opcodes_only_in_staked_entities : List Text
opcodes_only_in_staked_entities = codes "BALANCE" ∷ codes "SELFBALANCE" ∷ []

-- The names of opcodes that are in a set; an opcode without a name has the empty one.
unfoldable pub names_in : List Text → List ℕ → List Text
unfolding get_opcode_name has
names_in set [] = []
names_in set (opcode ∷ opcodes) =
    let name = mathlib.Core.Option.get_or (get_opcode_name opcode) [] in
    if has name set then name ∷ names_in set opcodes else names_in set opcodes

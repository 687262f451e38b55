-- ===== src/Lib.antt =====
-- The bundler of this repository: an ERC-4337 and RIP-7560 bundler that takes user operations, keeps
-- them in a mempool, and sends them in bundles to the entry point or to a builder node.
--
-- A request comes in through BundlerServer, which hands it to a method handler. An operation goes on to
-- ExecutionManager.sendUserOperation, which has it validated, has the deposit of its paymaster checked
-- (DepositManager), adds it to the mempool (MempoolManager), and attempts a bundle.
-- ValidationManager.validateUserOp simulates an operation and has its trace checked by ERC7562Parser,
-- against the rules of ERC-7562. BundleManager.createBundle takes the pending operations in order,
-- validates each again and packs those that the rules let in; sendBundle sends them, and blames an
-- entity when the bundle reverts. EventsManager removes operations that events show as included.
-- ReputationManager counts for each address how often it was seen and included, and all the others
-- read and change it.
--
-- Files, with the code that they model:
--   Types: packages/utils/src/Utils.ts, packages/utils/src/interfaces/OperationBase.ts and
--     EIP7702Authorization.ts, packages/validation-manager/src/IValidationManager.ts.
--   Utils: getUserOpMaxCost, getPackedNonce, getAuthorizationList, mergeStorageMap of
--     packages/utils/src.
--   Reputation: packages/bundler/src/modules/ReputationManager.ts. Its children are on the status
--     (Standing), the invariant (WellFormed), the hourly cron (Cron), the debug interface (Dump) and
--     the checks of stake and the white list (Checks).
--   Mempool.Defs: packages/bundler/src/modules/MempoolManager.ts and MempoolEntry.ts. The other
--     children of Mempool are on the entry counts, lookup by sender and nonce, adding, admission,
--     the removal of a banned address, the order for inclusion, the counters of a replacement, and
--     the mempools that are reached from the empty one.
--   Events: packages/bundler/src/modules/EventsManager.ts.
--   Deposit: packages/bundler/src/modules/DepositManager.ts.
--   Bundle, Bundle.Loop: packages/bundler/src/modules/BundleManager.ts, the failure paths and the
--     loop of createBundle; Bundle.Gas is on a round of it, Bundle.Packed on a whole bundle,
--     Bundle.Merged on its authorizations, and Bundle.Blame on the failure paths.
--   Rip7560: packages/bundler/src/modules/BundleManagerRIP7560.ts.
--   Execution: packages/bundler/src/modules/ExecutionManager.ts, over an interface of the others,
--     which Execution.Program fills with the models of the program's managers; Execution.Admitted is on
--     an operation that goes through all of them.
--   GasCalculator: packages/sdk/src/PreVerificationGasCalculator.ts.
--   ValidationData: the packed numbers of packages/utils/src/ERC4337Utils.ts.
--   InputCheck: validateInputParameters of packages/validation-manager/src/ValidationManager.ts.
--   Erc7562: packages/validation-manager/src/ERC7562Parser.ts. Opcodes holds the tables of opcodes,
--     Actions the steps that change the parser and may throw, Slots the slots of entities, Checks the
--     rules on a call, Walk the storage rules and the walk over the calls. Bail compares
--     requireCompliance with parseResults, Association is on slots, and Compliance and Visits on the
--     traces that pass.
--   Validation: ValidationManager.ts: getStakes and the calls of a trace; Decode is on
--     generateValidationResult, Simulate on the two simulations, Manager on validateUserOp. Its laws
--     are in Layout (the calls of a trace), Laws (operations that pass), Timely (their
--     validity range) and Compliant (their contracts).
--   Rpc: packages/bundler/src/BundlerServer.ts (Server, Answers), MethodHandlerERC4337.ts (Handler,
--     Lookup, and Logs for the filter of logs) and DebugMethodHandler.ts (Debug).
--   Tracer: packages/validation-manager/src/TracerResultParser.ts; Tracer.Entity is on the calls of an
--     entity, Tracer.Passed on the results that pass.
--   PackedOperation: packUserOp and unpackUserOp of packages/utils/src/ERC4337Utils.ts, with numbers as
--     bytes (Bytes) and their round trip (RoundTrip).
--   Common: texts as lists of character codes, dictionaries, results, signed integers.
--   Doubles: the two places of the managers that compute with fractional doubles.
--   Tests: the code on small inputs.
--
-- A method is a function from the objects that it changes to the new ones; one that throws returns a
-- Result, with the state that it leaves where it may have changed it before. A BigNumber is a natural
-- number, or an integer where it may be negative; toNumber throws from 2^53 on. Asynchronous methods
-- run to their end, as the mutexes make the modelled ones do. Loops are structural recursion, but for
-- two counted ones: removeBannedAddr counts down from the length of the mempool, and the wait for a
-- receipt makes at most 22 polls; neither bound is ever short.
--
-- Calls of contracts, of the node and of the libraries are parameters: hashes, signatures, ABI
-- encoding, the regular expression on error messages, the simulation of operations, and the arithmetic
-- of doubles. Not modelled: the JavaScript tracer, which runs in the node, and the mode of the validation
-- manager that uses it, decodeRevertReason, the HTTP library, the handler of RIP-7560 methods,
-- configuration and start, the account APIs of the SDK, and the contracts.
pub mod Common
pub mod Types
pub mod Doubles
pub mod Reputation
pub mod Utils
pub mod Mempool
pub mod Tests
pub mod Events
pub mod Deposit
pub mod Bundle
pub mod Execution
pub mod ValidationData
pub mod Rip7560
pub mod GasCalculator
pub mod InputCheck
pub mod Erc7562
pub mod Validation
pub mod Rpc
pub mod PackedOperation
pub mod Tracer

-- ===== src/Tests/TracerRuns.antt =====
-- The parser of the JavaScript tracer's results on a small trace.
use bundler.Common.{
  ℕ, ◌≡◌, refl, true, false, Bool, none, some, Option, ok, err, Result, List, [], ◌∷◌,
}
use bundler.Common.Text.{Text, codes}
use bundler.Types.{StorageMap, slots}
use bundler.Tracer.{
  CallInfo, info_calls, no_calls, and_call, BundlerTracerResult, uses_banned_opcode,
}
use bundler.Tracer.Entity.{tracer_result_parser}
use bundler.Tracer.Passed.{are_clean_of, tracer_result_parser-clean}
use bundler.Tests.Samples.{alice, alice_op, staked}
use bundler.Tests.Erc7562Runs.{setting, entry_point, token}

abbrev info : Text → List Text → CallInfo
info target opcodes = record {
  top_level_target_address = some target;
  opcodes = opcodes;
  access =
      (
        alice,
        record {
          reads = (codes "7", codes "0x05") ∷ [];
          writes = [];
          transient_reads = [];
          transient_writes = [];
        },
      )
      ∷ [];
  contract_size = (token, record { opcode = codes "CALL"; contract_size = 100 }) ∷ [];
  ext_code_access_info = [];
  oog = false;
  call_type = some (codes "CALL");
  to = some target;
  from = some entry_point;
}

-- The sender's call makes a call in which an opcode is used.
abbrev traced_with : Text → BundlerTracerResult
traced_with opcode = record {
  calls_from_entry_point =
      info_calls (info alice [])
        (and_call (info_calls (info token (opcode ∷ [])) no_calls) no_calls)
      ∷ [];
  keccak = [];
  calls = [];
}

tracer_code : Unit {0}
unfolding tracer_result_parser bundler.Common.Text.text_dec
tracer_code = tt

abbrev found : List Text × StorageMap
found = (token ∷ [], (alice, slots ((codes "7", codes "0x05") ∷ [])) ∷ [])

adds :
    tracer_result_parser setting alice_op (traced_with (codes "ADD")) (staked alice) none none
    ≡ ok found
unfolding tracer_code
adds = refl

reads_time :
    tracer_result_parser setting alice_op (traced_with (codes "TIMESTAMP")) (staked alice) none none
    ≡ err (uses_banned_opcode (codes "account") (codes "TIMESTAMP"))
unfolding tracer_code
reads_time = refl

tracer_result_parser-clean_example :
    are_clean_of alice (traced_with (codes "ADD")).calls_from_entry_point ≡ true
unfolding tracer_code
tracer_result_parser-clean_example =
    tracer_result_parser-clean setting alice_op (traced_with (codes "ADD")) (staked alice) none none
      found alice adds refl

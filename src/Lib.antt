-- ===== src/Lib.antt =====
-- A model of the verifier of nesy-pqpatch and of the loop around it. The program migrates call
-- sites of classical cryptography in Java code to post-quantum algorithms: a backend proposes a
-- patch for a site, the verifier runs four layers of checks on it, and a rejection goes back to
-- the backend as feedback, up to k times. Every run leaves a trace with a content hash.
--
-- The files, and the code that each is about:
--   Model, Model/Report      src/pqpatch/model.py, the payloads that the parts exchange.
--   Python, Prelude/*        exceptions as values, str and list operations of Python.
--   Regex, Regex/Words       Python's re, as far as the rules use it, and patterns of words.
--   Rules/Spec, /Registry    src/pqpatch/verifier/rules/spec.py and registry.py.
--   Rules/Ranks              src/pqpatch/verifier/rules/ranks.py.
--   Diff/Lines, /Scope       src/pqpatch/verifier/rules/diffutil.py.
--   Diff/Hunks, /Locate,     src/pqpatch/verifier/rules/diffapply.py: parsing, the search for a
--     /Apply                 hunk's place, and the application.
--   L1/*                     src/pqpatch/verifier/l1_syntactic/rules.py, one definition for each
--                            check, pattern and registered rule; L1/Guarantees has the theorems.
--   L2/Java, /Expressions,   src/pqpatch/verifier/l2_dataflow/java_flow.py: syntax trees, the walks
--     /Sets                  over them, the names in expressions, and the sets and dictionaries of the analyses.
--   L2/VerifyUse, /KeyFlow,  the same file, an analysis each; a child module compares the loop over
--     /Hybrid, /HybridUse,   the steps of a method with a reference, by the states of L2/Machine.
--     /Seed, /Prng, /Tokens,
--     /Bypass
--   L2/Checks, /Specs        src/pqpatch/verifier/l2_dataflow/rules.py, one definition for each check
--                            and registered rule; L2/Guarantees has the theorems.
--   Eval/Values, /TrapData,  src/pqpatch/eval/traps.py, over the values that a YAML parser gives: the
--     /Traps, /Suite         descriptor of a trap, the suite and its summary.
--   Eval/Adjudicate,         src/pqpatch/eval/adjudicate.py: proposals, their labels and votes, and the
--     /Outcomes              outcomes that they give.
--   Verify, Verify/*         src/pqpatch/verifier/api.py: verify_patch and rejection_feedback.
--   Build, Build/*           src/pqpatch/verifier/l3_build.py, over the files and tools of a host.
--   Stock, Stock/*           src/pqpatch/verifier/l1_stock/__init__.py, over a scanner as a
--                            parameter.
--   Conformance/*            src/pqpatch/verifier/l4_conformance/roundtrip.py, over a JDK as a
--                            parameter.
--   Cache, Cache/*           src/pqpatch/proposer/cache.py: keys, store and replay.
--   Proposer/Response,       src/pqpatch/proposer/response_format.py, base.py, replay_backend.py and
--     /Backend, /Scripted,   template_backend.py: what a backend proposes.
--     /Template
--   Detector, Detector/*     src/pqpatch/detector: classify.py and api.py; Detector/Engine is engine.py.
--   Loop, Loop/*             src/pqpatch/loop.py: migrate_site.
--   Trace, Trace/*           src/pqpatch/trace/canonical.py: serialization and content hash; for the
--                            proofs, Trace/Dumps/Reader reads what is printed, Trace/Reading the fields.
--   Trace/Attest             src/pqpatch/trace/attest.py: signatures over the content hash.
--
-- How they interact: `migrate_site` calls `verify_patch` on each proposal; `verify_patch` runs the
-- rules of the registry for L1 and L2, which are `l1_rules` and `l2_rules`, and the checks of L3
-- and L4, which an `Env` holds as functions; the L1 rules read the diff by `added_lines`,
-- `removed_lines` and `touched_files`; the L2 rules apply it by `apply_unified_diff` and analyse
-- the tree of the result; the trace that the loop returns is hashed by `finalize_trace`. A backend
-- is called by `propose`, which reads the cache, or the model, and parses the response;
-- Loop/Replayed and Proposer/Template put the backends into the loop. A text is a list of code
-- points. An exception is a value of `Result`, and state is passed on explicitly.
--
-- Bounds and fuel: `run_semgrep` has the two attempts of the code; `iterate` in Regex runs at most
-- as many rounds as characters are left, and each round takes one at least; `find_project_root`
-- walks up six steps, as the code does; `remove_from` and `find_all` have the length of the text
-- as fuel, a step takes a character at least, and no pattern of the rules matches the empty text;
-- `decimal` has the number itself. The loops over lines, hunks, rules and attempts are structural
-- recursion.
--
-- Not modelled: durations are whole numbers and not floats; `\d` and `\w` in patterns read ASCII;
-- SHA-256, the clock, the engine of the prompts, `json.loads`, `difflib`, the runs of Semgrep, the
-- scanner of the L1 stock arm, the parser of Java and its trees, the tools and files of L3, the
-- JDK of L4 and liboqs are parameters; a tree is taken to give each node its own number, and the
-- bytes that a node spans to be UTF-8. The L3 and L4 checks of a verifier's `Env` are any
-- functions; the program uses `check_build` and `check_round_trip`. `migrate_site` takes any
-- backend; the three remote ones are a function of `Backend`. The extractor, the settings, the
-- metrics and the evaluation drivers are not modelled; of the trap suite, the parser of YAML and
-- the files are parameters, and kappa is left out; of the adjudication, the JSON files.
mod Prelude
pub mod Model
pub mod Python
pub mod Diff
pub mod Regex
pub mod Rules
pub mod L1
pub mod L2
pub mod Verify
pub mod Conformance
pub mod Cache
pub mod Build
pub mod Stock
pub mod Trace
pub mod Detector
pub mod Proposer
pub mod Loop
pub mod Eval

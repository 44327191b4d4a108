-- ===== src/Lib.antt =====
-- QSTE keeps immutable records in an append-only store and derives verdicts from them: assessments
-- of candidate units, relations between the candidates of two arms, and the authorization of a
-- record. The services write only through the store; what a record says is fixed when it is stored,
-- and what holds of it now is derived from the events that follow.
--
-- Base: names passed on, Boolean tests, lists, and `ContractError` as a result type.
-- Core: JSON values and the walk for typed references (src/qste/core/contracts.py).
-- Storage: `RecordStore` of src/qste/storage/database.py. `Tables` are the rows of SQLite with the
--   constraints of their CREATE TABLE statements; `Records` and `Events` are the calls that write,
--   each a function from tables to a result and tables, a failing call leaving the tables as they
--   were; `Lineage` is `trace_lineage`, `Verification` is `verify` and `Reads` is `get_record`; `Growth`,
--   `Consistency`, `Transactions`, `References`, `Rows`, `Closure`, `History`, `Soundness`, `Refusal`
--   and `RoundTrip` are proofs. Schema validation, canonical bytes, digests and timestamps are the
--   parameter `Codec`, and what `loads_json`, SQLite's checks and the checks of registered files find
--   is `Reader`; the only law assumed on them is `Decodes` of `RoundTrip`, that `loads_json` reads the
--   canonical bytes of a given document as that document.
-- Artifacts: src/qste/storage/artifacts.py and paths.py. `Paths` is a disk of files and links with
--   `owned_path` and `atomic_write`, `Objects` are `put_bytes` and `read_bytes`; `Appends`, `Reads`,
--   `Stores`, `Targets`, `Outcomes` and `RoundTrip` are proofs. SHA-256 is the parameter `hexdigest`, of
--   which `IsHexDigest` states that it has 64 hexadecimal digits, and `Path.resolve` the parameter
--   `resolve`, of which `IsResolver` states that it keeps a path without links and `..`.
-- Policy: src/qste/policy/service.py. `State` is the authorization state that is derived from the
--   events, with `_is_blocked` of src/qste/transduction/service.py; `Appeals` is the case of
--   `open_appeal`, `adjudicate` and `apply_repair` up to the writing of records; `Targets` is `resolve_target_closure` over the store,
--   with the truth of a float as a parameter, and `Members` and `Closures` are proofs.
-- Quanta: src/qste/quanta/service.py. `Intervals`, `Assess` and `Verdict` are `assess`, `Contract` the
--   checks of src/qste/core/p6_contracts.py and src/qste/core/contracts.py, and `Budget` the evaluation
--   loop of `execute_task`. Floats are the parameter `Floats`; `IsOrdered` states that `<=` is
--   transitive and excludes the converse `<`, as IEEE comparison does, NaN included. The statistics
--   of `_interval` are the parameter `Statistics`, whose calls may raise and on which no law is
--   assumed.
-- Relations: src/qste/relations/service.py. `Pairs` classifies the pairs, `Matching` is
--   `_exact_match` with its certificate, `Components` is `_components`, `Resolution` has the
--   terminal cases and reasons, `Decomposition` and `Assertions` the assertions of any matching and
--   components, and `Arms` is `compare` up to the assertions that it writes, with the matcher and the
--   components in their places, from the answers of `_record` and `_unit_evidence`; the other modules
--   are proofs.
--   The objectives are computed by the parameter `Arithmetic`; `IsLinear` states that `<` is
--   asymmetric and its negation transitive through a finite number, and `HasObjectives` that the
--   objectives are finite and the tolerance is not negative.
-- Agent: src/qste/agent/service.py and contracts.py. `Limits` are the budgets, `Actions` the registry,
--   action sets and proposals, and `Revision` is `revise` with `_decision` and `_refusal`, from what it
--   reads of the records to the outcome that it stores; `Changes`, `Safety` and `Budgets` are proofs.
--   Python's equality of values and its comparison with a float are arguments.
-- Representations: src/qste/representations/stft.py. `Cells` are the cells of a mask, `Candidates` is
--   `_candidate_masks`, `Intervention` is `_apply_intervention` and `Refinement` is `refine`, from the
--   cells of the candidate; `Controls`, `Effects`, `Subsets`, `Masks`, `Edges`, `Closure`,
--   `Completeness`, `Grid`, `Places`, `Singles`, `Selection` and `Enumeration` are proofs. The arithmetic of
--   complex numbers is the parameter `Complexes`, and record IDs are drawn by an argument.
-- Operations: src/qste/operations.py. `Results` and `Validation` are the result type and the checks of
--   src/qste/core/contracts.py on it, `Failures` is `failure_result`, and `Outcomes` and `Domains` turn
--   what the services return into results. What the JSON schemas accept is the parameter `Schemas`.
-- Witnesses: the theorems at concrete inputs.
--
-- The loop of `trace_lineage` runs on fuel, the number of edges and two more: every turn takes a node
-- off the queue, and a node joins the queue once, by an edge of its own. The search of `_components`
-- runs on two more than twice the number of edges, since a node that it expands pays for the
-- neighbors that it adds, and the loop around it on one more than the number of nodes, each turn of
-- which takes its root away. The matcher counts up to the number of subsets that its budget allows.
-- All other loops are structural recursion over the list that the source iterates.
--
-- Not modelled: dense data and bundles, task declaration and the receipts
-- of the services; the command line, adapters, ingress and interfaces, which are input and
-- output around these parts; the transforms of the STFT on NumPy arrays, and the studies of the agent.
pub mod Base
pub mod Core
pub mod Storage
pub mod Policy
pub mod Quanta
pub mod Operations
pub mod Relations
pub mod Representations
pub mod Agent
pub mod Artifacts
pub mod Witnesses

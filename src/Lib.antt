-- ===== src/Lib.antt =====
-- Nexus Runtime: the parts of the runtime that decide whether an effect or a retry happens.
--
-- The program. Runtime effects (a provider call, a change of a target) go through the effect journal,
-- which reserves an effect under an identity, writes that it is dispatched before it runs, and writes
-- how it ended. Who may write is decided by the generation manifest beside the event log. A task that
-- ended blocked may be retried: the retry service checks the task's state, asks the bounded
-- reconciliation policy whether a verifier's residual packet admits one repair, and submits a fresh
-- attempt through its ports. Before a worker is called, the runtime asks whether a model call is needed
-- at all, and whether what is left is a finite choice; the context that a model reads is cut to a budget.
--
-- The files.
--   Prelude       shared names of the libraries, lists and maps over native numbers, integers
--   Python        the values the code handles: JSON documents (`Value`, with integers and without
--                 floats, mappings with text keys; `object` stands for a value that is no mapping and
--                 not JSON), equality, truth and `int()` of values, `strip`, `sorted` and the order of
--                 texts, and results with exceptions as values
--   Journal       src/nexus_runtime/kernel/events/effect_journal.py and writer_generation.py.
--     Error       the exceptions of both
--     Generation  EventWriterGeneration, _payload, _validated, read_generation, install_generation;
--                 Install has the theorems
--     Record      operation_digest, _safe_result, _observed_result, _digest_record
--     Read        _read_locked and the file that _write_locked leaves; RoundTrip has the theorems
--     Store       _check_generation, _locked, and the state that all operations pass on: what lies at
--                 the manifest's and at the journal's path, and whether the lock can be had;
--                 Readable and History say which records and changes keep the journal sound
--     Reserve, Settle, Execute
--                 reserve, get, unresolved_for_subject; transition, reconcile; execute. Changes,
--                 Execute/Changes, Execute/AtMostOnce and Execute/WriteAhead have the theorems
--     Calls       any history of calls of the journal's operations
--   Retry         src/nexus_runtime/task_retry/.
--     Budget      attempt_budget.py: resolve_maximum_attempts
--     Identity    retry_identity.py: mint_retry_identity; Fresh has the theorems
--     Packet      bounded_reconciliation.py: VerifierResidualPacket with build and from_mapping
--     Reconciliation
--                 bounded_reconciliation.py: evaluate_bounded_reconciliation and
--                 build_repair_request_metadata; Eligible and OneRound have the theorems
--     Service     retry_service.py: retry_task in three steps, Gates (the task's own state), Dispatch
--                 (the predecessor's dispatch and the repair) and Submit (the fresh attempt and its
--                 submission); the four protocols of ports.py are the fields of `Ports`
--   Context       src/nexus_runtime/task_context/.
--     Budget      budget.py: build_context_budget_receipt and validate_context_budget_receipt; Fits has
--                 the theorems
--   Decision      src/nexus_runtime/execution_coordination/.
--     Json        the checks on JSON values that the modules below share; Normal and Tokens have the
--                 lemmas
--     ModelCall   model_call_resolution.py: resolve_model_call_need; FailSafe has the theorem, and
--                 Telemetry is ModelCallTelemetryRecord
--     Bounded     bounded_decision.py: classify_bounded_decision; Packet is
--                 build_bounded_decision_packet and validate_bounded_decision_response; Complete,
--                 Contract, Response and Order have the theorems
--     Authority   effect_authorization.py: EffectAuthorization; Subset is _is_subset, Projection is
--                 ToolProjectionManifest, and Narrowing, Authorized and Derived have the theorems
--   Coordinator   src/nexus_runtime/execution_coordination/coordinator.py.
--     Effects     _ensure_effect_authorization and _ensure_tool_projection, which bind what an attempt
--                 may do to the task's state before a worker runs; Gated and Projected have the
--                 theorems
--     Escalation  WorkerEscalationPolicy and _next_ready_provider; Bounded and Ready have the theorems
--     Budgets     what execute_attempt leaves of a task's calls and attempts before a round of its loop,
--                 and what it accepts of a receipt after it; Bounded has the theorem
--     Outcomes    _record_model_call_outcome and _consume_model_call_verdict; Totals, Ledger and Consumed have
--                 the theorems
--   ExecutionState
--               src/nexus_runtime/execution_state/store.py.
--     Json        the order of the keys that json.dump writes
--     Ids         _validate_task_id
--     Store       the files, load_path, write and mutate; Writes has the theorems, with lemmas in
--                 Updates and Passes
--     Archive     archive_candidates, latest_archive and read_snapshot; Newest and ReadBack have the
--                 theorems
--
-- How it is modelled. An operation of the journal takes the store and returns its result, or the
-- exception, with the store it leaves; the caller's callbacks (dispatch and reconcile) are functions of
-- the store that return, raise or are interrupted. An early return of retry_task or of the
-- evaluation ends a chain of results. Loops run over the lists of the document by structural recursion,
-- so there is no fuel. Numbers are unbounded, as Python's are. A mapping is a dict with text keys, as JSON
-- has them: a journal's file gives back what was written, up to the order of the keys, on which neither
-- the digests nor `==` depend. The calls of a history follow one another, and what a running dispatch does
-- to the store is a part of its call.
--
-- Parameters. `Runtime` has what the code takes from Python: the SHA-256 digests of canonical JSON,
-- `str()` of numbers and containers, `repr()`, and the case tables; nothing is assumed of them, but that
-- a hexadecimal digest is a plain text where a written authorization is read back. `Ports` has what
-- stands behind the retry service, `StatePort` the coordinator's calls of its state, `Calendar` the
-- dates, `Resolver` the host's deterministic resolver, and `Floats` the arithmetic on scores; nothing is
-- assumed of them, but that a state port gives back what it stored where the totals of the model calls
-- are kept. `Layout` has the texts of the store's paths and whether they resolve to ones under its roots,
-- and `Checks` its validator and its hook. The journal's histories assume that a reconcile callback,
-- which is to observe an effect, leaves the store as it is.
--
-- Not modelled: mappings with keys that are not text, which json.dump turns into text, and mappings
-- that are no dict, which json.dump refuses; failing writes (a write is the atomic os.replace),
-- paths, fsync and temporary files, the lock's registry of threads and forked processes, int() of
-- text with digits other than ASCII, and the rest of the runtime: what else the coordinator's
-- attempt loop does, context admission, memory, planning, placement, checkpoints, the kernel.
pub mod Prelude
pub mod Python
pub mod Journal
pub mod Retry
pub mod Context
pub mod Decision
pub mod Coordinator
pub mod ExecutionState

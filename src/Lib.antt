-- ===== src/Lib.antt =====
-- Shadows: the trusted core of the Python packages of this repository, modelled by functions
-- that compute, with the theorems that make it correct.
--
-- The program seals proposals (commits that a worker made for a task), verifies them, and
-- promotes them to a branch. Its core is the kernel database, which holds each proposal with its
-- state and moves the state by compare-and-set along a table of legal transitions; the
-- authority, which signs witnesses; and the transition engine, which alone enters the privileged
-- states, on a witness that is bound to the whole claim and serves once.
--
-- - Prelude (with children): the library's names, Boolean tests, equality, lists, SQL tables as
--   lists of rows, texts.
-- - Outcome: exceptions as values.
-- - Epistemic.Status, Epistemic.Envelope: loop_engine/epistemic.py, the enumerations and the
--   constructors of envelopes. The digests are parameters; a confidence is only compared, so a
--   number stands for a float that is not NaN. Epistemic.Lattice and Epistemic.History carry
--   the theorems.
-- - Kernel.State, Kernel.Records: loop_engine/schema.py, and the tables of
--   loop_engine/kernel_db.py.
-- - Kernel.Database, Kernel.Ledger: the methods of KernelDatabase on proposals, and those on
--   receipts, strikes, the quarantine log and the promotion log. A table is the list of its
--   rows in the order of insertion; a method that raises has written nothing. Kernel.Operations
--   makes the writing methods the calls of a client.
-- - Kernel.Authority: loop_engine/authority.py. SHA-256, HMAC, the random tokens and the text
--   of a time are fields of `Tcb`; a signature is ASCII, as hexdigest makes it, since
--   compare_digest raises on other texts.
-- - Kernel.Transition: loop_engine/transition.py, PrivilegedTransitionEngine. The digest of
--   governance.yaml is a parameter.
-- - Kernel.Database.Rows, Kernel.Database.Transitions, Kernel.Custody, Kernel.Minting,
--   Kernel.Transition.Verdicts, Kernel.Transition.Replay, Kernel.Transition.Digest: the
--   theorems on these.
-- - Promotion: loop_engine/promoter.py. `Repository` holds what git and pytest return;
--   `promote` is split at its numbered steps. Promotion.Steps, Promotion.Requests,
--   Promotion.Journey, Promotion.Outcomes and Promotion.Reconcile carry the theorems, the last
--   one also the loop of the reconciliation.
-- - Governor.Retry, Governor.Bucket, Governor.Strikes, Governor.Step: loop_engine/governor.py
--   (RetryGovernor, TokenBucketRateLimiter, GovernorEngine, StepGovernor.run_step). The loop
--   that run_step drives is a parameter, and so are its exceptions; the floats of the bucket
--   are a parameter, with laws that hold under rounding.
-- - Disposition, Disposition.Contracts: loop_engine/disposition.py and
--   loop_engine/capability.py; Disposition.Earned carries the theorems.
-- - Registry: loop_engine/capability_registry.py, its table as a list of rows, the digests of
--   files as a parameter; Registry.Qualification carries the theorems.
-- - Relational: loop_engine/relational. Relational.Schema: schema.py; Relational.Store:
--   RelationalGraphStore of graph_db.py, its two tables as lists of rows, JSON columns as what
--   they hold; Relational.Truth: truth_maintenance.py; Relational.Scheduler:
--   compute_topological_order of dependency_scheduler.py; Relational.Frontier:
--   find_transitive_dependencies of graph_db.py and get_ready_frontier of
--   dependency_scheduler.py. Where Python iterates over a set, or SQL leaves the order of rows
--   open, the model takes one order. Their children carry the theorems.
-- - Constitution: loop_engine/constitution. Constitution.Records and Constitution.Lifecycle:
--   lifecycle.py, and the records of Forge/core/substrate.py that it uses;
--   Constitution.Evidence: evidence.py; Constitution.Sufficiency: sufficiency.py, which reads
--   the graph store and evaluates evidence; Constitution.Capability: capability.py. The
--   functions on texts, the tokenizer of clauses and `compute_digest` are parameters, the last
--   one on the items of a dictionary, so that the fields that a digest leaves out are seen.
--   Their children carry the theorems.
-- - Tests: witnesses of the theorems at concrete inputs.
--
-- Times are natural numbers, but for those of the bucket. Loops are recursion on a list but for
-- four. The fuel of run_step is the strike ceiling and one: each turn but the last adds a
-- strike. That of the cascade of a retraction is the number of edges and one: each edge is
-- followed once at most. That of the topological order is the number of ids: each is queued once
-- at most. The recursive query has fifty levels, which is its own bound. For each the theorems
-- show the fuel to be enough. Not modelled: subprocesses, files, threads and the SQLite engine
-- itself, and the packages that plan, render and report around this core.
pub mod Prelude
pub mod Outcome
pub mod Constitution
pub mod Disposition
pub mod Epistemic
pub mod Governor
pub mod Kernel
pub mod Promotion
pub mod Registry
pub mod Relational
pub mod Tests

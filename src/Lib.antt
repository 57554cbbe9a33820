-- ===== src/Lib.antt =====
-- Verification of knowledge-diffusion (src/kdiff): the task ledger, the run budget, the dates, the
-- gate of graph batches, the graph programs with their executor, the traces of affiliations, count
-- witnesses, the verification of claims, the artifact stores, the extraction cache and the delivery
-- of tasks.
--
-- The program turns captured source records into a versioned scientific graph and answers questions
-- about it with claims that carry their evidence. A worker claims a task from the ledger
-- (core/durable.py), builds a batch of graph records, has it checked (construction/openalex.py,
-- core/schema.py) and commits it to the graph inside a fenced transaction of the ledger. A
-- request (analysis/requests.py) becomes a graph program, which its validator accepts
-- (analysis/graph_program.py); an executor runs it over a frozen release, with the traces of
-- analysis/temporal.py, and its steps return the results of a pool;
-- claims are verified against the pool alone (analysis/claims.py). A count over a frozen release
-- gets a witness that can be replayed (analysis/witness.py). Calls of language models pass
-- through a budget (inference/limits.py).
--
-- The files and the code that they model:
--   Ledger        TaskLedger of src/kdiff/core/durable.py. Db holds the three tables as lists of
--                 rows; enqueue, claim, fenced, heartbeat, prepare, integrate, complete, release,
--                 status and lookup are functions of the tables. Ledger/Rows has the rows and the
--                 tests of the SQL text, Ledger/Checkpoints checkpoint and read_checkpoint,
--                 Ledger/Steps every call as one step function, with a rollback where it raises,
--                 Ledger/Backup export and restore_empty.
--   Budget        RunBudget and BoundedClient.create of src/kdiff/inference/limits.py, with calls
--                 that wait for their providers while others are admitted.
--   Time          TimeRange, Window with last_decade, and membership of
--                 src/kdiff/core/contracts.py; Time/Parsing TimeRange.parse. Time/Ordinals defines
--                 the calendar that they take from Python.
--   Graph         the registry and validate_relation of src/kdiff/core/schema.py, and the records
--                 of src/kdiff/core/contracts.py with the fields that the modelled code reads.
--   Batch         validate_batch of src/kdiff/construction/openalex.py.
--   Values        the results of src/kdiff/analysis/graph_program.py and temporal.py, as one type.
--   Program       the arguments, the steps and GraphProgram.valid of
--                 src/kdiff/analysis/graph_program.py.
--   Requests      AnalysisRequest of src/kdiff/analysis/requests.py; Requests/Planning plan_request.
--   Executor      Executor of src/kdiff/analysis/graph_program.py: resolve, expand and the step
--                 'FilterInterval'; Executor/Counting aggregate, Executor/Paths paths,
--                 Executor/Comparing the step 'CompareWindows', Executor/Run execute.
--   Temporal      endpoints and active_status of src/kdiff/analysis/temporal.py; Temporal/Trace
--                 event_trace, Temporal/Moves return_moves.
--   Witness       CountProgram of src/kdiff/analysis/program.py; Witness/Counts count_from_release
--                 and Witness/Bundles make_witness, load_release and replay of
--                 src/kdiff/analysis/witness.py, Witness/Freezing freeze over Artifacts.
--                 Witness/Selections and Witness/Programs the witnesses of graph programs, of
--                 src/kdiff/analysis/general_witness.py.
--   Claims        candidate and verify of src/kdiff/analysis/claims.py; Claims/Cover greedy_cover,
--                 Claims/Synthesis synthesize, Claims/Rendering render, up to the text of its
--                 templates.
--   Artifacts     put_bytes and get_bytes of src/kdiff/core/artifacts.py over the files of the
--                 directory; Artifacts/Captures capture, with its metadata files.
--   Artifacts/Database and Artifacts/Backup  PostgresArtifacts of src/kdiff/core/durable.py: its
--                 table, and the copies of it in a directory.
--   Cache         ExtractionCache of src/kdiff/core/cache.py, over Artifacts and the checkpoints of
--                 Ledger.
--   Delivery      RedisDelivery of src/kdiff/core/durable.py, over Ledger.
--   Resolution    identifiers and the decisions of resolve_identifiers of
--                 src/kdiff/construction/resolution.py; Resolution/Remapping the batch that it
--                 rewrites, Resolution/Conflicts conflict_view.
--   Base          what they share: tests on numbers, lists as tables, results that may raise.
-- The other modules of a part hold its proofs, named for what they prove, and Examples its witnesses
-- and test runs.
--
-- Conventions. Identifiers, hashes and names are natural numbers (Key): the code only compares and
-- sorts them. The hash functions are parameters; where a theorem needs that some bytes share their
-- hash with no others, it says so. A clock reading is an argument, in microseconds, and a fresh
-- token is an argument. A call that raises returns an error without tables, which is the rollback
-- of the source; the callback of integrate acts on a graph of any type, outside the tables.
-- Theorems on the ledger assume that task identifiers are unique in the table, which its primary
-- key ensures. Money is counted in exact units, the millionth part of the unit of the prices. The
-- loops of the model are structural recursion on lists, but for the loop of greedy_cover, whose
-- fuel is the number of obligations: each round covers one at least; the loop of paths, whose fuel
-- is the source's own budget of 10,000 states, with the source's error where it is spent; and
-- Euclid's algorithm for the lowest terms of a fraction, whose fuel is its second number, which
-- every round lowers. The loop over the candidates of an entity has as many rounds as the index has
-- entries, and one: each round but the last adds one of them. The sets and dictionaries of Python are lists in
-- the order of insertion; the order in which a file system lists a directory is a parameter.
-- The executor's error type_error stands for a missing binding, field or identifier.
--
-- Not modelled: PostgreSQL's and SQLite's own locking (a transaction is one step) and the advisory
-- lock of coordinator, Redis's own failures; the first
-- version of the witnesses of graph programs; the importers and parsers of source records, web
-- acquisition and metrics; the English text of a rendered claim; agents, deployment and the command line.
pub mod Base
pub mod Ledger
pub mod Budget
pub mod Time
pub mod Graph
pub mod Batch
pub mod Values
pub mod Program
pub mod Requests
pub mod Executor
pub mod Temporal
pub mod Witness
pub mod Claims
pub mod Artifacts
pub mod Cache
pub mod Delivery
pub mod Resolution

-- ===== src/Lib.antt =====
-- The evidence scripts of air2lean: outcome contracts, the native/model comparison, its accounting,
-- and the parallel runner. air2lean translates Zig AIR to Lean; these Python programs decide what its
-- tests may claim. A run compares each native result line with the model's (scripts/diff-report.py),
-- writes a summary of counts by status, and rows from which scripts/outcomes.py derives the outcomes
-- that a goal's contract admits or that refuse an absence claim. scripts/accounting.py turns summaries
-- into one published table, scripts/par.py runs the jobs of a suite under bounds, and
-- scripts/dependency-closure.py finds which functions the exported AIR of a program still lacks, and
-- scripts/schedules.py checks and replays the answers of the explorer of thread schedules.
-- scripts/semantic-fingerprints.py says which functions a change of the translator affects.
--
-- Base: Boolean tests and sums over the native numbers, integers, results that may raise, text as code
--   points, and `sorted`.
-- Json: decoded values, `no_duplicates` and `json_equal` of scripts/diff-report.py. A dict is the list
--   of its fields, and a finite float its sign and 63 other bits. Json/Equality is about `json_equal`.
-- Diff: scripts/diff-report.py. Diff/Wire is `wire`, `normalized`, `buffer_match`, `same_extras` and
--   `same_value`; Diff/Kinds and Diff/Observe are `observation`; Diff/Floats is `float_leaf` and `leaf_host_kinds`;
--   Diff/Host is `differing_leaves` and `host_difference`; Diff/Classify is `classify` and
--   `legacy_bucket`; Diff/Exploration is the class `Exploration`, without the receipt records that it
--   copies. Python's limit on the digits of `int(text)` is not modelled.
--   Diff/Config is the pins and the host allowances of an example. Diff/Run is `compare_summary`: one
--   case and its counters, Diff/Run/Functions the loops over cases, pins and functions,
--   Diff/Run/Selection `selection`, Diff/Run/Summary the examples, the summary and the exit code, and
--   Diff/Run/Written the dict that is written. A file is the list of lines that `lines` gives.
--   Diff/Driver is `main` and `failure_observations`.
-- Outcomes: scripts/outcomes.py. Outcomes/Admits is `contract_admits`, Outcomes/Contract is `contract`,
--   Outcomes/Audit is `theorem_contract`, Outcomes/Evidence is `case_outcomes`, `count` and `absence`.
--   A set of outcomes is its membership test; the texts of reasons are left out.
-- Accounting: scripts/accounting.py. Accounting/Summary is `summary_row`, Accounting/Table is `publish`
--   and `invariants`, on tables whose cells are integers or missing, and Accounting/Claims is `claims`
--   with `ci_jobs` of scripts/support-matrix.py, on what the regular expressions find in README.md.
-- Par: scripts/par.py. Par is the number of workers and the exit status; Par/Schedule is the state and
--   the loop of `run`: `fill` starts jobs, `advance` writes those at the head, `finish_all` takes those
--   that ended. The fuel of `fill` is the number of pending jobs and that of `advance` the number of
--   finished ones: each turn takes one away. Streams, output, sampling and signals are not modelled;
--   which processes can be started and which end in a pass are arguments.
-- Closure: scripts/dependency-closure.py. Closure/Names is the names and the filter prefixes,
--   Closure/State the state with `chain` and `classify`, Closure/Visit is `visit` and `boundary`,
--   Closure/Search the breadth-first search of `Closure.run`, and
--   Closure/Report its indirect calls and `report`. The queue is its parts before and from the cursor;
--   the fuel of the search is the number of functions, each of which is queued once, and that of
--   `chain` the number of entries of `parent`. Closure/Scan is `scan` and `fn_type`, its walk a
--   recursion in the order of the stack. The table of `std_models` is a parameter. Manifests, goldens
--   and printing are not modelled.
-- Schedules: scripts/schedules.py. Schedules is one execution of an answer of the schedule explorer,
--   Schedules/Request the limits of a request, Schedules/Equality Python's `==`, Schedules/Validate
--   `validate_response`, and Schedules/Replay the request that `prepare` makes of a receipt, and
--   Schedules/Prepare the other requests of `prepare` and `load_receipt`. When a float equals an
--   integer is an argument. The processes, the files and their digests are not modelled.
-- Fingerprints: scripts/semantic-fingerprints.py. Fingerprints is `compare` of two indices,
--   Fingerprints/Sidecar the function records of `load_sidecar`, Fingerprints/Components is
--   `components`, the strongly connected components of a graph, whose fuel is a turn for each node
--   and one for each edge (its files below are the invariants of one search: Step what is on the
--   stack, Linked what the low values say of the edges), Fingerprints/Calls the call graph, and
--   Fingerprints/Digest is `fingerprints`. Its digest, SHA-256 of the canonical text of a dict, is an
--   argument, and so are in `compare` the entries of the two runs and Python's `==`; files are not
--   modelled.
-- Tests: the definitions and the theorems at concrete inputs.
--
-- `json.loads`, SHA-256, the file system and the processes are parameters or inputs. The translator
-- itself, the Lean library, the other scripts, and the reading and writing of files are not modelled.
pub mod Base
pub mod Json
pub mod Outcomes
pub mod Diff
pub mod Accounting
pub mod Closure
pub mod Schedules
pub mod Fingerprints
pub mod Par
pub mod Tests

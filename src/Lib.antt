-- ===== src/Lib.antt =====
-- Verification library of the power market data platform.
--
-- The platform fetches bounded days of CAISO prices and loads, validates them as observations
-- (src/power_market_data/domain.py), and appends them to a raw warehouse in BigQuery
-- (src/power_market_data/warehouse/). A writer reads a snapshot of one Pacific day, plans which
-- contents and transitions are new (model.py), and runs the scripts of sql.py: begin, commit,
-- finalize, fail. The control row holds a sequence, against which a commit checks its snapshot, and
-- the run that has committed and is not finalized, the gate. An orchestrated backfill runs one such
-- writer for each unit of a plan, then dbt, then a verification of its facts. The daily benchmark of
-- a battery reads prices from the input mart, has a solver plan each day, and validates the plan
-- before it reports on it.
--
-- Files:
--   Base: helpers on texts, lists, results, dictionaries and signed numbers.
--   Errors: the exception classes of src/power_market_data/errors.py, and those of other modules.
--   Time: src/power_market_data/time.py; `as_utc`, `utc_text`; Calendar, dates as text; Conversion.
--   Identity: src/power_market_data/identity.py; `digest`, Decimal, Json, Digest;
--     Decimal/Integers, the texts of whole numbers.
--   Domain: src/power_market_data/domain.py; Intervals, the intervals of observations; Hashes, when
--     their contents can be hashed; Instants, intervals in UTC.
--   Sources: src/power_market_data/sources/caiso.py. Sources/Frame, the answers of gridstatus and
--     their rows; Sources/Caiso, normalization and the fetch of a day;
--     Caiso/Records, the loop over the rows; Caiso/Day, what a fetch returns; Caiso/Stored, a fetched
--     day as a batch; Caiso/Instants and Rows, the cells of a row in its observation.
--   Warehouse/Request, Batch, Plan: src/power_market_data/warehouse/model.py; Batch/Rows, the rows of
--     a batch; Batch/Accepted, the records that make one.
--   Warehouse/Config: `WarehouseConfig` of model.py and its reading from the environment; Names, the
--     table names that it gives.
--   Warehouse/Requests, Identifiers: what request IDs and identifiers determine.
--   Warehouse/Tables: src/power_market_data/warehouse/schema.py, a record for each row type.
--   Warehouse/Scripts, Snapshot: src/power_market_data/warehouse/sql.py, each script a function
--     `Script` of the tables that returns the tables or the assertion that failed; `execute` is its
--     transaction. Scripts/Gate and Scripts/Runs are about the control row and the manifests.
--   Warehouse/History: the revision histories that the transitions stand for, the specification.
--   Warehouse/Records: the invariant of the content and transition tables.
--   Warehouse/Writers: writers in any interleaving as a step relation `Step` on worlds, with
--     Invariant, Reachable, Refinement, Lifecycle and Progress.
--   Warehouse/Client: src/power_market_data/warehouse/bigquery.py and ingestion.py over a `Service`,
--     the calls on BigQuery as a parameter; Reconcile, the run of a batch; Returns, what it returns;
--     Pending, when it submits.
--   Orchestration/Plan: orchestration/plan.py, a backfill as units; Rebuilt, about its units.
--   Orchestration/Execution: orchestration/ingestion.py, the execution of a unit and the retry
--     policy; Reported, about its result.
--   Orchestration/Configuration, Operations: orchestration/operations.py; `Runtime` has the calls on
--     BigQuery, processes and files; Operations/Verified, about `verify`.
--   Orchestration/Pipeline: orchestration/flyte_pipeline.py over a runner of tasks; Complete, about
--     its report.
--   Optimization/Floats: the operations on floats that the code uses, as a parameter.
--   Optimization/Model: src/power_market_data/optimization/model.py; Feasible, the dispatches that are
--     accepted; Model/Steps, Ends and Amounts, its loop, bounds and sums by the index of an interval.
--   Optimization/Battery: src/power_market_data/optimization/battery.py over a `Solver`; Checked, about
--     its results.
--   Backtesting/Inputs, Engine: src/power_market_data/backtesting/inputs.py and engine.py; Decimals,
--     the order and the text of prices; Inputs/Planned, the days of a plan;
--     Inputs/Rows, the rows that are accepted; Engine/Days, the days of a
--     benchmark; Engine/Hours, the intervals that it counts.
--   Tests: concrete inputs for the theorems.
--
-- Parameters: SHA-256 is a function on texts, and what the theorems use of it is `IsCollisionFree`:
-- no collisions and ASCII output. The zone data, the clock, `uuid5`, `date.fromisoformat` and
-- the instants of midnight are arguments. The classes on the
-- `__cause__` chain of an exception, which Python keeps, are an argument `chain`. The date of a logical key is a function
-- `market_day`, since a key names its interval.
-- Numbers are unbounded; `digits_from` has as fuel the number and one, more than it has digits.
-- SQL is modelled by the meaning of its statements; the texts of the scripts, query costs, labels
-- and job handling are not modelled. A snapshot query and each script are one atomic step, as
-- BigQuery's snapshot isolation and transactions make them.
-- Floats are a parameter `Floats`: their arithmetic has no laws but those that a theorem names. A
-- datetime that is checked to be UTC is kept as its instant. Where a fetch takes the Pacific date of
-- an instant or the next date, OverflowError is an outcome; the input mart's prices are taken to have
-- a Pacific date. An exception that nothing catches is `unhandled`, with the name of its class.
-- Not modelled: the schema checks of bootstrap, the CVXPY problem that the solver gets, the query of
-- the input mart, the command lines, figures, the texts of reports, and the checks and fixtures, which
-- are test support.
pub mod Base
pub mod Errors
pub mod Time
pub mod Identity
pub mod Domain
pub mod Warehouse
pub mod Sources
pub mod Optimization
pub mod Backtesting
pub mod Tests
pub mod Orchestration

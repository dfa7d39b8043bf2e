-- ===== src/Lib.antt =====
-- A verification library for the governed URL shortener (paths are from the repository's root).
--
-- The program. A FastAPI service keeps short links in SQLite and counts their redirects; beside it an
-- orchestrator drives workflows of stages that workers claim, checks policies on them, and has people
-- approve gates. Handlers (src/api) call the domain functions (src/domain), which write the tables of
-- src/persistence/schema.py; the background scheduler (src/orchestration/live_scheduler.py) calls the
-- reaper, the policy checks, the scheduler and the branching; all of them append to the audit trail.
--
-- The files, and what they model:
--   Prelude     shared names: Boolean tests, lists, the results of code that may raise
--   Sql         SELECT, UPDATE, COUNT and INSERT on a table that is the list of its rows, with Sql.Laws
--   Schema      src/persistence/schema.py: the rows, and in Schema.Status the values of CHECK columns
--   Domain      Validation (src/domain/validation.py), ShortLink (short_link.py), Idempotency
--               (idempotency.py) and Analytics (analytics.py)
--   Observability  Audit (src/observability/audit.py), Metrics (metrics.py) and SystemStatus
--               (system_status.py)
--   Api         RateLimit (src/api/middleware/rate_limit.py), Auth (src/api/auth.py, credentials.py),
--               ShortLinks, Redirect, Approvals with Bearer, Workflows, WorkflowEvidence and Health
--               (src/api/routers/), Requests, all that write to the tables, and Application
--               (src/api/main.py)
--   Orchestration  Models, Scheduler, RetryPolicy, Reaper, Replanning, Branching, Validators,
--               Workspace, LiveScheduler, Lineage, Launcher and Compensation (the files of those
--               names in src/orchestration/ and its adapters/), Dispatch, the parallel dispatch of
--               scheduler.py, and Attempts, any sequence of eight of the operations on stages, without
--               apply_fallback_or_safe_stop, branch decisions and promotions
--   Policy      Manifest, Evaluator, Exception and Live (src/policy/)
--   Persistence Retry (src/persistence/retry.py)
--   Scripts     BootstrapCredentials and Approve (scripts/bootstrap_credentials.py, scripts/approve.py),
--               and the demonstrations Greenfield, Brownfield and Ambiguous (scripts/demo_*.py) with
--               Demo, what they share, and Ambiguity, the check of a requirement's words
--   Examples    small tables to which the theorems are applied
-- A definition has the name of the Python function that it models, without a leading underscore; a
-- name of its own stands for a part of a function: a SQL statement, a condition or a loop body. A
-- component's child modules hold its proofs.
--
-- How the code is modelled. A function that writes takes the tables and returns the new ones with its
-- result; an exception is a value of a sum type or of Result. A table is a list in the order of
-- insertion, and SELECTs without ORDER BY read in that order. A connection has isolation_level=None,
-- so every statement is a transaction by itself: the steps at which a worker can be cut off are single
-- statements (Domain.Analytics.row_writes, drain_crashed). The two statements of other functions run
-- one after the other, except that Scheduler.Claims lets any number of workers read a stage before any
-- of them claims it; in Api.Application a crash falls between two requests or passes. A timestamp is a
-- number of microseconds and is a parameter of each operation; ids and random codes are parameters
-- too. Numbers are unbounded, as Python's are.
-- Loops are structural recursion on the list that they go through. The attempts of create_short_link
-- and of with_bounded_retry are counted down from 5 and 3, as their ranges are, and no other loop has
-- a bound. The scheduler's endless loop is a list of passes (LiveScheduler.scheduler_loop), and the
-- tasks that dispatch_ready_stages_parallel gathers run by a list of turns: what is proved holds for
-- every such list.
--
-- Parameters that stand for code outside the repository: urlparse, ip_address, getaddrinfo and
-- fromisoformat (Domain.Validation.Outside), SHA-256, the tokens and salts that `secrets` draws, the
-- modification times of two files, the order in which a set is gone through, what a retried function
-- does, what a git command does to the machine, whether the function that executes a stage raises,
-- whether a script's test run passes, which characters are decimal digits, and what a probe of an
-- effect answers.
--
-- Not modelled: opening connections (src/persistence/db.py); the assembly of the FastAPI application;
-- argparse, urllib and printing in the scripts. Columns that no modelled function reads, and the free
-- text of audit reasons, are left out. Floating point: a quotient is kept as its dividend and its
-- divisor.
pub mod Prelude
pub mod Sql
pub mod Schema
pub mod Domain
pub mod Observability
pub mod Api
pub mod Orchestration
pub mod Policy
pub mod Persistence
pub mod Scripts
pub mod Examples

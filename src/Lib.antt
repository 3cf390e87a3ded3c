-- ===== src/Lib.antt =====
-- LifeFlow turns the mail and calendar items of a user into proposals of actions (a task, a Gmail
-- draft, a calendar event), which the owner edits, approves or rejects, and which are executed
-- once after the owner has approved them. This library models that core, which lies in
-- apps/api/src/lifeflow_api, the scheduler of the daily brief that the proposals come from, the
-- deletion of imported data, of expired data and of accounts, the retry of reads, and the address
-- that an anonymous request is charged to.
--
-- The parts, from the bottom up, and the files that model them:
--
--   Prelude     the names, tests, text and list functions that the other files share
--   Models      the enumerations of models.py
--   Payloads    action_payloads.py: EMAIL_ADDRESS_PATTERN and _validate_addresses (Address), the
--               payload models, parse_action_payload and effective_payload_deadline (Schema),
--               canonical_payload, action_payload_hash and approval_binding_hash (Hashing)
--   Records     the rows ConnectedAccount, SourceItem, ActionProposal and ActionExecution of
--               models.py, with the columns that the modelled code reads or writes
--   Context     execution_context.py: resolve_execution_context, execution_context_hash,
--               ApprovedExecutionAuthorization
--   Outcome     how a call ends: a value, a ProposalConflictError or PolicyViolationError of a
--               code, or another exception
--   Policy      action_policy.py: ActionPolicyEngine
--   Proposals   action_proposal_service.py on one locked row: edit, approve and reject
--               (Operations); execute as replay, begin (up to the commit of the pending attempt)
--               and finish (from the executor's answer on), and effective_execution_status
--               (Execution)
--   Service     the same methods over the database, with expire_due and
--               recover_stale_pending_executions; the queries of repositories.py; and the commit
--               or roll-back of a request in deps.py
--   Generation  ActionProposalService.generate_from_brief from the composed candidates on: one
--               candidate against one row (Candidate), and the loops over the candidates (Walk)
--   Schedule    scheduled_briefs.py: resolve_local_schedule_instant (Instant), the rows and the
--               queue (Run), plan_dispatch and the enqueuing passes (Dispatch), recover_stale_running and
--               dispatch_tick (Tick), run_scheduled_generation (Worker)
--   Deletion    the row of an operation, its states and its scope, from models.py and deletion_ops.py
--               (Operation); the tables that a deletion touches (Tables); deletion_planner.py
--               (Planner), with the bounded batches and their loop in deletion.py (Batches);
--               retention.py (Retention); account_deletion.py (Account); the plan of an operation
--               and its fingerprint (Plans), the previews, their confirmation and their
--               cancellation (Lifecycle), and the claim, the run, the recovery and the drain of
--               operations (Worker), all of deletion.py
--   Retry       retry.py: retry_read
--   ClientIp    rate_limit_ip.py: parse_trusted_proxy_cidrs and resolve_client_ip
--   Tests       concrete rows and runs
--
-- The service locks the row of a proposal, asks the policy engine, which asks for the execution
-- context, and writes the row and its audit events. A refused call keeps what it has written,
-- since the routes answer a ProposalConflictError with a response and the session commits; any
-- other exception rolls the request back, except for what `execute` has committed before it calls
-- the executor. One request runs at a time: `SELECT ... FOR UPDATE` orders the calls on one row.
--
-- The scheduler plans a run for a user and local date, enqueues it, and recovers what a worker or
-- Redis has lost; a worker claims a pending run and calls the brief service. Its histories are
-- sequences of whole ticks and whole jobs.
--
-- Generation walks the ranked candidates of each action type until one of them fills the type's
-- slot; a row that it finds under a candidate's origin is left, expired or refreshed.
--
-- A deletion is previewed, with the fingerprint of its plan, confirmed by a typed phrase,
-- enqueued, claimed by a worker, and run in batches, each of which the worker commits; the signals
-- and proposals that came from the rows in scope are cleaned up first, and the rows deleted
-- afterwards. A worker that dies leaves what it has committed; the recovery gives the operation
-- back to the queue, and the next worker goes on from its cursor. The histories of Deletion are
-- sequences of requests, scans, recoveries, whole runs and runs that die between two batches.
--
-- Numbers are natural numbers; identifiers are only compared, and instants are microseconds since
-- the epoch, in Schedule seconds. SHA-256 and the time zone database are the fields of `Boundary`;
-- the documents that are hashed are data, and only the theorems that name an absence of collisions
-- assume one. The executors are a function from a call to a reply. In Generation the composed
-- candidates, the ids of new rows and the row that wins a race on the unique origin are arguments.
-- In Schedule a time zone is its three conversions, of which nothing is assumed, and the enabled
-- schedules, the answers of Redis, the race on the unique constraint and the outcome of the brief
-- service are arguments. In Retry the calls, by their number, and the random draws are arguments.
-- In ClientIp the reading of addresses and networks and the writing of addresses, which are
-- Python's `ipaddress`, are arguments. In Deletion a table is the list of its rows in the order of
-- their keys, a statement over a table is one pass over the list, and the digest of a plan, the
-- recomputation of a user's memory, the creation instants of proposals, the number of a user's
-- audit events, the revocation of a token, the new subject and address of an anonymised user and
-- the answers of Redis in each pass are arguments. The loop over the batches has fuel: one round
-- for each row in scope, two more for an imported-data deletion and four more for an account's,
-- are enough. Every other function is structurally recursive; the search behind a gap counts the
-- 241 rounds that its bound of four hours, in steps of a minute, lets it make.
--
-- Not modelled: the composition of candidates and its event, the queries of the enabled schedules,
-- two jobs that interleave, two workers on one deletion, the event of a retention scan, the
-- inference and the edits of memory, the Google clients and token storage, language-model
-- extraction, the token bucket and the policies of rate limits, the HTTP routes and the web
-- application.
pub mod Prelude
pub mod Models
pub mod Payloads
pub mod Records
pub mod Context
pub mod Outcome
pub mod Policy
pub mod Proposals
pub mod Service
pub mod Generation
pub mod Schedule
pub mod Deletion
pub mod Retry
pub mod ClientIp
mod Tests

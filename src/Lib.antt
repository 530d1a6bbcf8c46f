-- ===== src/Lib.antt =====
-- The coordinator's core: agents announce work in consultation threads, agree on it in rounds, and
-- claim threads so that no two of them edit the same file.
--
-- Prelude: library names, Boolean tests and list lemmas. Table: the SELECT, UPDATE and INSERT of SQL
-- on a list of rows. Clock: the two shapes of time stamps of the database. Store: the rows of
-- src/types.ts and the tables of src/database.ts that the services share.
--
-- Consultation: the class of src/consultation.ts. Exec is its methods' effect: they read and write
-- the database and may throw. Resolution has proposeResolution, approveResolution,
-- contestResolution, cancelThread and closeThread; Opening has announceWork and postToThread; Sweeps
-- has handleAgentDeparture and checkTimeouts; Queries has listThreads. Rounds, Quorum,
-- Stale, Departure and Timeouts are about contests, approvals and the sweeps.
--
-- Claims: handleClaimTask, handleUnclaimTask and findClaimFileConflict of src/http/rest-handlers.ts.
--
-- Lifecycle: what may happen to one thread, as transitions on its row, and each method in those
-- terms. History: sequences of calls of all organisations over one database. SQLite runs a
-- statement or a transaction alone and the methods do not yield, so an interleaving of requests is
-- such a sequence.
--
-- Dependencies: src/dependency-map.ts. The search of getBlastRadius runs on fuel, one unit for each
-- turn of its loop; a module enters the queue once beyond the direct dependents, so their number and
-- that of the modules together are enough, which Dependencies.Radius uses.
--
-- Files: src/file-tracker.ts, and in Files.Working src/working-files-tracker.ts. Both build an index
-- from files to agents. Conflicts: src/conflict-detector.ts over these three and the threads.
--
-- Agents: src/agent-registry.ts. Impact: src/impact-scorer.ts, which scores the online agents against
-- an announcement by layers; each push of a reason with its score is a Hit, and the order of the hits
-- is that of the pushes, up to the order of the rows of a SELECT.
--
-- Workflow: runCommonAnnounceFlow of src/announce-workflow.ts, which follows announceWork: it takes
-- the scorer's concerned agents as the thread's respondents.
--
-- Auth: the sessions, src/auth/*.ts over the tables users, orgs and refresh_tokens. State has the tables,
-- the claims and what comes from outside: jose, node:crypto, the identity providers, the encryption and
-- the request are fields of Context, and each step takes the Context of its instant. Steps is the order
-- of a handler's steps: a helper's StepResult is an Answer, and `thrown` is an exception. Epoch is
-- token-epoch.ts; Mint is jwt-keys.ts, jwt-mint.ts and mintTokenPair; Membership is membership-cache.ts
-- and allowlist.ts; Recheck and Rotation are refresh-rotation.ts, with Rotation/Guards and
-- Rotation/Reuse; Logout, ServiceTokens and Provision are logout.ts, service-tokens.ts and
-- provisionUser of oauth-finalize.ts; Purge is the sweeper's delete on refresh_tokens. Spent says what
-- each step does to revoked rows, and Traffic puts the steps into histories: a grant runs whole or is
-- cut at the recheck and at the minting, and its resumed parts may hold a row that is out of date; the
-- INSERT of a successor and the UPDATE that links it are one step. The constants (a grace of
-- 10 seconds, three replays) are the source's.
--
-- RateLimit: src/auth/rate-limit.ts and src/auth/login-lockout.ts; tokens are counted in parts of
-- 1 / window_seconds, so a bucket's arithmetic is exact where the source's is in floating point.
-- Audit: the hash chain of src/security/audit-chain.ts, its writers in audit.ts and audit-queue.ts, and
-- Audit/Verify, the verifier of scripts/verify-audit-chain.ts; node:crypto and JSON.stringify are fields
-- of Crypto. Backfill is backfillAuditChain of src/database.ts. Linked and Written are what the writers
-- keep; the deletes are the sweeper's. The key is what its process was configured with.
--
-- OauthState: src/auth/oauth-state.ts. DeviceFlow: the decision of src/auth/device-flow.ts and the poll of
-- src/auth/oauth-token.ts; in Grant what follows an approval, where the minting is an await, so that
-- a history has whole polls and halves of them.
--
-- Examples: databases and histories on which the theorems are applied.
--
-- Outside the model: the clock and the random ids of a call are its argument Env, `content.length`
-- counts UTF-16 units and is a parameter. An INSERT fails where its primary key is taken or the
-- author is not registered, as the schema says. Columns of JSON text hold lists, which the program
-- writes itself, so that parsing them does not fail. The order of the rows of a SELECT is that of
-- insertion; the ORDER BY of listThreads is not modelled. Logging, the notices to the broker and to
-- the event stream, validation of requests, the authentication of a request and,
-- but for the backfill, migrations are not modelled. Every
-- other loop of these parts runs over a list.
pub mod Prelude
pub mod Table
pub mod Clock
pub mod Store
pub mod Consultation
pub mod Claims
pub mod Lifecycle
pub mod Agents
pub mod Files
pub mod Dependencies
pub mod Conflicts
pub mod Impact
pub mod Workflow
pub mod History
pub mod RateLimit
pub mod Auth
pub mod Audit
pub mod OauthState
pub mod DeviceFlow
pub mod Examples

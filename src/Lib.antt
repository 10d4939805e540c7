-- ===== src/Lib.antt =====
-- A model of the core of mcpx, the server that offers the tools of a workspace over MCP.
--
-- Parts and files. Each file names the source it is about, from the repository's root.
-- - Base: the names that all modules share; lists over the native numbers (Base/Lists), texts as
--   lists of bytes with the functions of Go's `strings` that the code calls (Base/Text).
-- - Operation, for internal/operation/types.go and service.go: a submission of several steps is
--   stored and run in the order of its dependencies. State has the states and the records;
--   Aggregate is aggregateState; Validate is validateSpec; Cell is what the service holds of one
--   operation, with enqueueReady, reconcile, persistState, finishActive, markStepRunning and
--   finishStep; Run is the storing in Submit and the two halves of runStep around the execution of
--   a step; Control is Cancel, Resume and recoverInterrupted; Page is Result with its cursors.
--   Moves puts them together: a step relation on one operation, whose moves are the critical
--   sections of the workers and of the callers; enqueueReady reads without a lock, and may use any
--   earlier reading.
-- - Security, for internal/security/commands.go: Segments is the scanner commandSegments, Readonly
--   the commands that need no rule, Policy the decisions on commands and on paths. The rules are
--   those of internal/config/config.go.
-- - Idempotency, for internal/idempotency/store.go: Store has the table, the flights and the
--   tombstones, Claim the operation Claim, Finish the others. Settled/Runs has the runs of these
--   operations on one store.
-- - Plan, for the run grants of internal/plan/run_grant.go: Repository has NormalizeRepository and
--   normalizeRepositories, Risk the ranks, Grant the tables and computeEffective, Create the
--   operations CreateRunGrant, RevokeRunGrant and ReportRunGrantUsage, Authorize the operation
--   AuthorizeRunGrantUse. Budget has the runs of these operations on one database.
-- - Approval, for internal/approval/store.go: Store has the map, the table and the operations; Once
--   and Answers have the runs of processes that share the table.
-- - Oauth, for internal/oauth/token.go, refresh_persist.go and pkce.go: Pkce has VerifyS256, Server
--   the state with IssueCode and ExchangeCode, Refresh IssueRefreshToken and ExchangeRefreshToken
--   with what is written to the file, and Load loadRefreshLocked. Calls has the runs of these
--   operations on one server. Registry, for registry.go, has Register, AddPreregistered,
--   AcceptsRedirect and Authenticates.
-- - Edit, for internal/edit/apply.go: Text has normalizeNewlines and stripUTF8BOM, Lines
--   applyLineRange, Split a text as the list of its lines.
-- The parts share no state: internal/server calls each of them around the tools it offers, and
-- that package is not modelled.
--
-- Bounds and fuel. Numbers are natural numbers: times in milliseconds since 1970 and lengths do
-- not reach the bounds of int64; in Approval, Plan and Oauth the clock is in nanoseconds and a
-- table's times are in milliseconds. The durations of a run grant are products of int64 with
-- their wrap-around (Base/Int). The depth of the search in validateSpec is given by fuel, one
-- more than the number of steps, of which there are at most 32. A cursor is printed with at most
-- 19 digits, as an int64 is. All else is structural recursion.
--
-- Not modelled. In internal/operation: the errors of the database, the events, the workspace
-- locks, the JSON of results (what encoding/json leaves of the bytes of a string is a parameter of Page),
-- and the lookup of an earlier submission. In internal/security: the
-- engine of the regular expressions, which is a parameter. In internal/idempotency: the blocking
-- of Wait, and the deletion of expired rows, which internal/state does. In internal/plan: the
-- plans, their tasks, the deliveries and the dispatches; of the run grants the errors of the
-- database, the payloads of the events and the reading back of a grant; the hash of a key, the
-- lower case and the number of characters of a text are parameters. In internal/approval: the
-- JSON of an item and the random IDs, which are arguments. In internal/oauth: SHA-256, the
-- signature of a token and url.Parse, which are parameters; the client metadata documents, so
-- that what AcceptsClientRedirect says is an argument; the handlers. In internal/edit: the
-- replacement of matches, the batches, the writing of files. The other packages under internal
-- are not modelled: most of their code calls the operating system or libraries.
mod Base
pub mod Approval
pub mod Oauth
pub mod Operation
pub mod Edit
pub mod Idempotency
pub mod Plan
pub mod Security

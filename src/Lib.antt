-- ===== src/Lib.antt =====
-- MatrixFlare: a Matrix homeserver on Cloudflare Workers. The gateway (apps/gateway-worker) classifies
-- and limits requests and calls two kinds of actors of packages/runtime-core: `UserDO`, which keeps an
-- account with its devices and sessions, and `RoomDO`, which keeps the events and the state of a room
-- and decides which events may enter it.
--
-- The files, with the code they model:
--   Prelude   shared names, tests on numbers, list and text functions, results of code that throws, and
--             the signed integers
--   Json      JSON values, the reads of their fields and their text (Print); `normalizeString` and `normalizeInteger` of
--             packages/runtime-core/src/persistence-common.mjs
--   Room      `RoomDO` of packages/runtime-core/src/durable-objects.mjs. State: the rows that events and
--             state are kept in, the state map, and its typed reads (`getRoomStateMapForSnapshot`,
--             `getTypedStateEvent`, `getJoinRule`, `getMembershipState`, `loadRoomEventById`). Power:
--             creators and power levels (`getCurrentPowerLevelsContent`, `getUserPowerLevel`,
--             `getRequiredEventPowerLevel`). Membership: `authorizeMembershipEvent`. Authorize:
--             `validateCandidateEventShape` and `authorizeCandidateEvent`. Rules: what these let through.
--             Redaction: `redactEventForRoomVersion` of packages/runtime-core/src/room-domain.mjs, and
--             Bans: what it does to memberships. Store, Identity, Graph, Commit, Admission, Admit:
--             `admitEvent`, from its tables, the identity of an event (with room-domain.mjs), its place
--             in the room and its transaction to its checks and its record of failures.
--             Positions, Order, Frontier, Replay: what admission promises. Cursor: `encodeRoomCursor` and
--             `decodeRoomCursor` of room-domain.mjs
--   AbuseGuard  packages/runtime-core/src/abuse-guard.mjs. Policies: budgets and their overrides.
--             Classify: `classifyGatewayRequest`. Window: the sliding window of a bucket. Enforce:
--             `enforceGatewayAbuseGuard` and `enforceSemanticQuota`. Bounds, Totality: what they promise
--   Session   sessions of `UserDO`. Tokens: opaque tokens of packages/runtime-core/src/user-identity.mjs.
--             Rows: the rows and the searches in them. Usable: `isSessionUsable`. Resolve:
--             `resolveSession`. Refresh: `refreshSession`, `logoutSession`, `logoutAllSessions`.
--             Rotation, Handouts, Validity: what they promise
--   PushRules push rules of `UserDO`. Rules, Baseline: rules, rows and the defaults. Values, Match:
--             reads of an event and conditions. View, Evaluate: `buildPushRulesView` and
--             `evaluatePushRuleNotification` of packages/runtime-core/src/client-domain.mjs. Table:
--             the table of packages/runtime-core/src/user-persistence.mjs. Records: the checks and the
--             indices of a write. Requests, Transactions, Handlers: `getPushRules`, `getPushRule`, `putPushRule`,
--             `deletePushRule`, `setPushRuleEnabled`, `setPushRuleActions`. Keys, Reindex, Renumbering,
--             Followed, Placement, Puts, Order: where a rule lands. Numbered, Invariant, Steps: what the
--             table keeps. Verdicts, Silence, Quiet: what is decided about an event
--   SyncWaiters  the hub that syncs wait on, of packages/runtime-core/src/client-domain.mjs. Hub:
--             `registerSyncWaiter`, its `resolve`, and `wakeSyncWaiters`. Pending, Order, Waking,
--             Registering, Steps: who waits after each. Promises: what the hub promises. The keys of
--             waiters are made by apps/gateway-worker/src/index.mjs, which puts the user and the
--             session into them: the promises ask for a function from a key to its session
--   ControlPlane  packages/control-plane/src. Of schemas.mjs: Scopes (`normalizeTargetScope`,
--             `scopeToToken`, `parseScopeToken`) with Trims and Tokens, their texts and tokens;
--             Payloads (`normalizeQueuePayload`). Tables: the rows, statements and batches of
--             persistence.mjs. Of services.mjs: Constraints and Grants
--             (`normalizeTargetConstraints`, `authorizeScope`, `authorizeOperatorRequest`) with
--             Kinds and Authorized, what an operator may do; Ledger (`reserveIdempotentWrite`,
--             `finalizeReservedWrite`) with Rows, Reservations and Answers, what a key is good for;
--             Jobs (`updateJobState`). Of jobs-handler.mjs: Queue and Process
--             (`processQueueMessage`), Worker (the handlers of a batch and of a start,
--             `stageQueuedPayloads`, `markQueuedPayloadsPublished`). Cancel: the cancellation of
--             ops-handler.mjs. Shards, Redelivery, Completion: a message that comes again. Endings,
--             Reopening, Restarts: jobs at their end. Underway, Deliveries, Finishing, Staging, Runs:
--             from staged shards to a completed job
--
-- A table is a list of rows, a `Map` an association list, and an actor's method a function from its
-- state to a result and a state; a thrown error is a value, and a transaction that throws leaves the
-- state that it was given. Times are milliseconds since the epoch, as natural numbers; they and the
-- counters stay far below the bounds of a JavaScript number, so nothing wraps. Every function is
-- structurally recursive, but for the read of a dotted key in an event: its loop has as much fuel as
-- the key has segments, and each round uses up one (`read_segments-fuel` of PushRules/Values).
--
-- What is not under the repository is a parameter: HMAC, SHA-256 and base64url of node are fields of
-- the record `Crypto`, the order of `localeCompare` is a field of the
-- record `Platform`, and the platform's rate limiter is a function of the gateway's environment. Two
-- parts of the repository are parameters too, as the models do not reach them: `canonicalJsonHash` of
-- packages/runtime-core/src/fingerprints.mjs is a field of `Platform`, a total one, since it throws only
-- on what no JSON text with finite numbers yields; and, with the send to a queue, the
-- work of the jobs worker on a shard
-- (`executeRepairAction`, `executeRebuildAction`, the checkpoints of exports and restores, the manifest
-- of a bundle; packages/control-plane/src/jobs-handler.mjs) is the record `Works`. That work goes to object storage and to actors; what it writes into the control plane's own
-- tables is not modelled.
-- Left out: HTTP shaping and messages of errors, SQL text, telemetry, metrics and logging, and the
-- components that the models do not reach: devices and keys, sync views, media and
-- directory projections. Of the control plane, the ids of audit events (random), policies' and
-- manifests' tables, the operators' routes and their authentication are left out, and a queue
-- message is handled in one step: requests that come while it waits are not interleaved. Of the transaction of `admitEvent` the
-- digests of a snapshot and the outbox are left out, and so are the delivery and the derived updates
-- that follow it.

pub mod Prelude
pub mod Json
pub mod Room
pub mod AbuseGuard
pub mod Session
pub mod PushRules
pub mod SyncWaiters
pub mod ControlPlane

-- ===== src/Lib.antt =====
-- Outscan's guest scan service: models of apps/api/src, translated from TypeScript, and the theorems
-- that make them correct.
--
-- A guest posts a hostname. The request is checked, joined with the guest's session, and admitted: the
-- decision on repeated requests (guest-idempotency) answers a retry from the stored record, and the
-- quota (guest-abuse) has room or not; a result token (guest-crypto) gives access to the result for 30
-- minutes. The processor of the queue (guest-queue) leases an attempt, loads its context, and runs it
-- under a heartbeat that renews the lease; the supervisor allows the run when the envelope is that of
-- the attempt, the policy is granted (scanner-policy) and the artifact is approved (supervisor). The
-- scanner's result is read from its pipe as one frame (scanner-ipc), signed and verified as an envelope
-- (result-envelope), and committed under the fence of the attempt (scan-protocol). A retention runtime
-- (guest-retention) deletes in batches what is due and records each run. The scanner reaches the
-- target only through the flow of target, which resolves the host again for each request and refuses
-- every address that is not public. Notifications tell of the outcome.
--
-- What stands for what:
--   Prelude.antt            numbers, tests, lists, chains of optional values
--   Js.antt                 the values of the source language that arrive as `unknown`, with the test
--                           for an object of exactly the given keys; Js/Patterns.antt has the regular
--                           expressions that several components share
--   ScanProtocol.antt       apps/api/src/scan-protocol: the transition tables (`transitionJob`,
--                           `transitionAttempt`) and `decideResultCommit`
--   GuestCrypto.antt        apps/api/src/guest-crypto/binary.ts and result-token.ts:
--                           `deriveGuestResultToken`, `verifyGuestResultToken`
--   GuestIdempotency.antt   apps/api/src/guest-idempotency: `decideGuestScanIdempotency`
--   GuestAbuse.antt         apps/api/src/guest-abuse/decide.ts, retention.ts and admission.ts:
--                           `decideGuestAbuseAdmission`, `decideGuestRetention`,
--                           `decideGuestScanAdmission`
--   Target.antt             apps/api/src/target: ip-policy.ts in IpText.antt (addresses and ranges
--                           as texts) and IpPolicy.antt (`classifyResolvedAddressSet`), hostname.ts
--                           in Hostname.antt, resolver.ts in Resolver.antt, safe-http-flow.ts in
--                           SafeHttpFlow.antt (the input), SafeHttpFlow/Redirect.antt and
--                           SafeHttpFlow/Loop.antt (`executeSafeHttpFlow`)
--   ScannerIpc.antt         apps/api/src/scanner-ipc: `encodeScannerIpcFrame` and the reader
--                           `readScannerIpcFrame`, as steps on what each wait settles with
--   ResultEnvelope.antt     apps/api/src/result-envelope: the message of codec.ts, `signResultEnvelope` in
--                           Sign.antt and `verifyAuthenticatedResultEnvelope` in Verify.antt
--   GuestQueue.antt         apps/api/src/guest-queue: messages, `createGuestExecutionContextProvider` in
--                           Context.antt, `createGuestQueueProcessor` in Processor.antt with the
--                           heartbeat of `runWithHeartbeat` in Processor/Heartbeat.antt
--   Supervisor.antt         apps/api/src/supervisor: `parseArtifactIdentity` and `matchesApproval` in
--                           Artifact.antt, `authorizeSupervisorExecution` in Authorize.antt
--   GuestPersistence.antt   apps/api/src/guest-persistence/postgres-result-commit.ts: the transaction of
--                           `persistResult` in ResultCommit.antt on the row of ScanRow.antt, `commit` in
--                           Committer.antt
--   GuestRetention.antt     apps/api/src/guest-retention: `validateGuestRetentionRunRecord`,
--                           `runGuestRetentionCycle` in Cycle.antt and
--                           `startGuestRetentionScheduler` in Scheduler.antt
--   ScannerPolicy.antt      apps/api/src/scanner-policy: `authorizeScannerExecution`
--   Notifications.antt      apps/api/src/notifications/delivery-fsm.ts:
--                           `decideInternalDeliveryTransition`, `decideProviderDeliveryTransition`
--
-- How the source is read: a text is a list of UTF-16 code units, a Uint8Array a list of numbers below
-- 256, a bigint or an integer number a natural number where the source has refused the negative ones
-- before it computes with them. Objects are plain data without accessors, so that the `catch` branches
-- that guard against throwing getters are not reached; a function that throws for another reason
-- returns `none`. `Object.freeze` has no counterpart, since values do not change. SHA-256 and
-- HMAC-SHA-256 are parameters, and so are `domainToASCII`, `new URL` and `instanceof AbortSignal`;
-- `isIP` is written out from its documentation. All recursion is on the structure of a list; no fuel
-- is used: the loops that wait for the outside (the frame reader, the HTTP flow) recurse on the list
-- of what each turn meets, and the theorems say after how many turns they have answered. The services
-- that the queue and the retention runtime call (leases, runner, committer, worker, store, clock) are
-- the answers that they give, as functions of what they are asked; a call that throws or rejects
-- answers `none`. The telemetry of the queue may throw, which ends the processing of the message. A
-- retention cycle that rejects ends the process, by the default of the platform for unhandled
-- rejections; that lies outside of the scheduler's machine.
--
-- The database is the row of the scan that a transaction locks, joined with its current attempt: a
-- statement is a function that says whether it matches that row, and a failure before the COMMIT leaves
-- it as it was. How PostgreSQL writes an integer, and the canonical form of a scanner's payload
-- (scanner-output), are parameters.
--
-- Not modelled: the HTTP layer, the other statements on PostgreSQL, Redis and BullMQ, process and
-- container control, and the user interface.
pub mod Prelude
pub mod Js
pub mod GuestAbuse
pub mod GuestCrypto
pub mod GuestIdempotency
pub mod GuestPersistence
pub mod GuestQueue
pub mod GuestRetention
pub mod Notifications
pub mod ResultEnvelope
pub mod ScanProtocol
pub mod ScannerIpc
pub mod ScannerPolicy
pub mod Supervisor
pub mod Target

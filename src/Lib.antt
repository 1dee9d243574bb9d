-- ===== src/Lib.antt =====
-- EdgeCoder: verification library.
--
-- EdgeCoder is a mesh in which coordinators hand out subtasks of coding tasks to agents. This
-- library models the parts that keep its state: queues, ledgers, limits and message checks. Each
-- module names the file that it models, by its path from the repository's root; an operation is
-- a function that takes the state and returns the new state with the call's reply.
--
-- Conventions. An identifier, a hash, a key or a signature is a text that the code only compares
-- and tests for being empty, so it is a natural number, and 0 stands for the empty text.
-- Averages, rates and random draws, doubles in the code, are exact fractions. Numbers that the
-- code keeps whole and not negative (times in milliseconds, counts, satoshis, priorities) are
-- natural numbers without bound; the code's doubles hold them exactly below 2^53. A difference
-- of times that may be negative is compared by moving the subtrahend to the other side. A `Map`
-- is the list of its entries in insertion order (Prelude/Maps). Credits are whole thousandths; a
-- `Buffer` is a list of bytes. The clock and `randomUUID` are arguments of each call that reads
-- them; where a theorem needs identifiers that repeat none, it says so. Calls of a store that
-- are not awaited are a list of commands. A loop is a recursion on the list it goes through, but
-- for two: the search of `detectCircularDeps` runs on fuel, one round for each entry of its
-- stack and one for each dependency of each subtask, which is all that it can ever push, since
-- it enters a subtask once; and a number n is printed with n + 1 rounds, more than it has
-- digits. SHA-256, the signatures, the ciphers and the key exchange of node:crypto, JSON, what
-- `Number` and `String` make of a text and the rounding of a product of credits are parameters;
-- a timestamp that a request gives is a fraction, an infinity or NaN (Security/Nonce).
--
-- Prelude: shared names; tests on numbers, lists, maps and results. Types: src/common/types.ts.
-- Swarm: Queue models src/swarm/queue.ts (`SwarmQueue`); Choice has the pick of an item, Claims
-- one call of `claim`, Steps histories of calls, Lease what a claim protects, Results `complete`
-- and `requeueStale`, Enqueued what an added task is found as, Board the abstract view of a
-- queue and Refinement how the queue follows it. SubtaskDeps models src/swarm/subtask-deps.ts
-- (`SubtaskDepTracker`), whose released subtasks go to the queue: Release is one completion,
-- Histories are many, Context is what an agent reads of earlier outputs and Decimal its numbers,
-- Queued joins it with the queue, Cycles models `detectCircularDeps`. PowerPolicy models
-- src/swarm/power-policy.ts; Charge has how it depends on the charge.
-- Mesh: Reconnection models src/mesh/ble/reconnection-manager.ts; Attempts counts its attempts,
-- Jitter bounds its delays. Protocol models src/mesh/protocol.ts, Replays what it accepts.
-- Chunks models the framing of src/mesh/ble/protocol.ts, Gossip models src/mesh/gossip.ts
-- (Deliveries one broadcast, Failures what becomes of peers that fail).
-- Coordinator: the parts of src/swarm/coordinator.ts that join the others. Register is its
-- blacklist, with AuditLog (its own records) and Expiry (its peers' records too); Enforcement
-- hands the behaviour rules' verdicts to it; Pull is the handler of `POST /pull` over the queue,
-- the power policy, the blacklist, the tracker and the ordering chain (Guards who gets a
-- subtask, Kept what a refusal leaves); Requests is `verifyAgentRequest` over the rate limiter,
-- the signing, the nonces and the tracker (Replays and Signed say which requests it takes).
-- Credits: Engine models src/credits/engine.ts with src/credits/pricing.ts.
-- Robot: Types models src/swarm/robot-types.ts, Queue models src/swarm/robot-queue.ts
-- (`RobotQueue`) with `computeIntentFee`; Successes says when each call goes through, Lifecycle
-- what it changes, History and Money what holds of all histories, Sweep what is paid out,
-- Settling what a settlement does to the books.
-- Ledger: Crypto models the signing of src/mesh/peer.ts, Chain models src/ledger/record.ts,
-- src/ledger/chain.ts and src/ledger/verify.ts, Audit models src/audit/ledger-verifier.ts.
-- Security: Behavior has the figures and codes that the rules read, BehaviorTracker models
-- src/security/behavior-tracker.ts (Stats has `getStats`, Window what it holds of a history,
-- Counts what its figures count), AnomalyDetector models src/security/anomaly-detector.ts,
-- AutoBlacklister models src/security/auto-blacklister.ts, which the detector's events are
-- handed to; Verdicts, Primary, Strikes and Actions say which events and blacklist actions come
-- out, and BehaviorTracker/Abuse what the three do together. RateLimiter models
-- src/security/agent-rate-limiter.ts (Limit what it admits), Nonce models
-- src/security/nonce-verifier.ts over its in-memory store. Blacklist models
-- src/security/blacklist.ts and src/bootstrap/verify-blacklist-audit.ts, Envelope models
-- src/security/envelope.ts, Signing models src/security/request-signing.ts.
--
-- Not modelled: the HTTP servers (the other routes of src/swarm/coordinator.ts,
-- src/control-plane, src/portal, src/inference, src/apps), the databases under src/db, the radio
-- and network transports, the sandboxes, the model runners, the desktop, iOS and editor front
-- ends, and the deployment scripts: they are input and output round the parts above.
-- Interleavings of calls across an `await` on a database are not modelled either: the in-memory
-- stores run each call whole.
pub mod Prelude
pub mod Types
pub mod Coordinator
pub mod Credits
pub mod Swarm
pub mod Robot
pub mod Ledger
pub mod Security
pub mod Mesh

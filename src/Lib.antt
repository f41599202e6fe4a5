-- ===== src/Lib.antt =====
-- Elydora: verification of the server's core.
--
-- The server keeps a tamper-evident record of what AI agents do. An agent signs an operation record
-- (EOR) and submits it; the server validates it, refuses replays, checks the agent, its key and the
-- signature, appends it to the agent's hash chain, stores the evidence, and answers with a signed
-- receipt (EAR). Operations are rolled up into epochs whose Merkle root proves their inclusion.
-- Administrators register, freeze and delete agents and revoke keys. All paths below are relative to
-- packages/server/src, except those that begin with sdks.
--
--   Prelude, Prelude/Lists, Prelude/Tests, Prelude/Sorting   names of the library, Boolean tests,
--     lists over native numbers, and the stable sort by `<` of strings
--   Prelude/Texts        strings as lists of UTF-16 units, their equality and order
--   Prelude/Throws       expressions that may throw, as options
--   Crypto               utils/crypto.ts: Base64 (base64urlEncode, base64urlDecode), Utf8
--     (TextEncoder) with Decode (TextDecoder), Platform (hashes and signatures over Web Crypto)
--   Identifiers          utils/uuid.ts: generateUUIDv7, with Layout (what an identifier shows)
--   Json                 JSON values, JSON.stringify, JSON.parse (Parse), and jcsCanonicalise of
--     utils/crypto.ts
--   Merkle               utils/merkle.ts: buildMerkleTree, getMerkleProof, verifyMerkleProof
--   Model                shared/types, middleware/error-handler.ts, adapters: Entities (rows and
--     records), Errors (AppError), Tables (queries), Statements (INSERT, UPDATE, DELETE and the
--     transaction), World (database, object store, cache, queue)
--   Operations           services/operation-eor.ts, operation-submit.ts and operation-verify.ts: Eor
--     (validateEORFields, buildSignableEOR), Checks (steps 3 to 6 of submitOperation), Submit (the
--     rest), Chain, Ready and Interleaving (the chain of the operations under concurrent submissions),
--     Replay (the nonce test over time), Verify (verifyOperation), Queries (getOperation of
--     services/operation-service.ts)
--   Agents               services/agent-service.ts and agent-integration.ts: freezeAgent,
--     unfreezeAgent, deleteAgent, revokeKey; Validation and Registration (registerAgent, getAgent,
--     updateAgentIntegrationType)
--   Epochs               services/epoch-service.ts (createEpoch, getEpoch): Created and Coverage (an
--     epoch covers its operations), Scheduler (scheduler.ts) with Tiling (windows do not overlap)
--   Access               services/api-token-service.ts, middleware/auth.ts and rbac.ts, the token route
--     of routes/auth.ts: Tokens (issue and use of API tokens), Roles (who may do what)
--   Audit                services/audit-service.ts and utils/pagination.ts (Cursors): Order (of the
--     rows), Following (a client that follows the cursors), Isolated (what a page holds)
--   Exports              services/export-service.ts and the download of routes/exports.ts: Requests (the
--     tests and the text of the query), Created
--   Worker               worker.ts: jobs for exports and time-stamps, with Stamps (utils/tsa.ts); Attempts,
--     Endings and Outcomes (how a job for an export ends), Queries, Wanted, Exported, Anchored and
--     Files (what the jobs leave behind)
--   Client               sdks/node/src/client.ts and crypto.ts: its state and createOperation; Hashing
--     (its canonical JSON and hashes) with Same (they are the server's), InStep and Checked (client
--     against server), Requests (request, handleResponse) with Retries, Endpoints (the methods that
--     send requests) with Segments
--   Samples              values that the tests of several components share
--
-- State is passed explicitly: an action is a function from a world to a result and a world, so that
-- what was written before an error stays written. `Result` has a value, an AppError, or `fault` for
-- any other exception, which the error handler answers with 500.
--
-- Web Crypto is the record Platform, a parameter: importing a key, verifying and signing may reject.
-- The digest of the Merkle functions is a parameter too; its theorems name what they assume of it
-- (its output is bytes, all of one length). Nothing assumes that it has no collisions.
--
-- submitOperation stands in two parts, up to the transaction (`prepare`) and from it on (`commit`);
-- a run of the server is a sequence of such parts in any order. The reads of `prepare` count as made
-- together; only the last of them, of the latest operation, matters to the chain.
--
-- Times, lengths and sequence numbers are natural numbers without a bound: the source's are Unix
-- milliseconds and counters below 2^53. JSON numbers are integers. buildMerkleTree halves its layers,
-- and the model's fuel is one more than the number of leaves, so that it does not run out. `btoa`,
-- `atob`, `TextEncoder`, `JSON.stringify`, `trim` and sorting are those of ECMAScript, written
-- out, and so are `TextDecoder` and `JSON.parse`, whose fuel is one more than the length of the text:
-- each value takes at least one character. The schema's constraints are tested in the order in which
-- the tables declare them; UPDATE and DELETE follow the WHERE clauses of the source.
--
-- The Node client signs with the same Platform; its Base64 decoder is a parameter. What fetch gives is
-- a function from the request and the number of the attempt. `encodeURIComponent` is written out.
--
-- A session of the authentication library, the file that an export writes (JSON or PDF, or an
-- exception) and the time-stamping authority are parameters, and so is what the database takes a bound
-- value for that has another type than its column. Each statement of a job for an export may
-- fail. Identifiers are ordered by code units. A client of the audit log asks with fuel one above the number of rows, which is enough: each page shows at least one.
--
-- Not modelled: the other HTTP routes, the sign-in and translated messages (glue over third-party
-- libraries), PDF layout, the lists of agents, epochs and exports, the console, the agent plugins,
-- and the Go and Python clients (they repeat the Node one).
pub mod Prelude
pub mod Crypto
pub mod Merkle
pub mod Identifiers
pub mod Json
pub mod Model
pub mod Operations
pub mod Access
pub mod Agents
pub mod Epochs
pub mod Samples
pub mod Client
pub mod Exports
pub mod Worker
pub mod Audit

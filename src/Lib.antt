-- ===== src/Lib.antt =====
-- The server of synamcps: a store of data objects and knowledge that agents reach over MCP and HTTP.
-- Callers are principals, possibly with an access token; every operation on a data object is opened
-- as a scope that the access rules allow, and the object's service then works in that scope. This is
-- a library of the server's rules and states, with the theorems that hold of them.
--
-- The parts, and the files that model them (paths from the repository's root):
--
-- Models, DataObj: internal/models/models.go and internal/dataobj/kinds.go, the records that the
-- parts share and the closed set of methods of each kind of object. A kind, role, mode or
-- visibility that the source has as a text is an enumeration with a constructor for any other text.
--
-- Access: internal/access. Access/Storage is `evaluateStorageAccess` (service.go), Access/Objects is
-- `evaluateObjectAccess` and `CanAccessObject` (objects.go), both on the bindings that the store
-- returned; Access/Names is the names of schemas and roles that go into SQL (objects.go);
-- Access/Visibility is the rules for documents of internal/access/visibility.go and of
-- internal/policy/access_filter.go. A set of permissions is a list, in which order and repetition
-- mean nothing. The digests of issuers and subjects are parameters. Access/Tokens is the tokens of
-- store.go with no database: the maps of the Go struct are functions, and a new token's id and text
-- are arguments; Access/Tokens/View is the one map from hashes to tokens that its two maps make;
-- Access/Users is the login of a user by its password.
--
-- Policy: internal/policy/scope.go. `open_scope` is `Opener.Open`, with the database as its answers
-- and the statements sent to it; Policy/Service puts the access service behind it.
--
-- AgentKeys: internal/agentkeys/store.go with neither database nor Redis: challenges, registration
-- by proof of possession, revocation and ownership; AgentKeys/Runs is their step relation. Crypto is the record of what Go's cryptography
-- and encoding answer, and of the hash of the canonical JSON (`HashCanonical`, `CanonicalJSON` and
-- `normalize` of internal/securebus/canonical.go), with `VerifyAgentSig` of that file over it; what
-- is signed is the data type `Envelope`, so that two envelopes are one when their
-- members are. Json is the decoded JSON that a payload is.
--
-- SecureBus: internal/securebus. Document is policy.go; Condition is filter.go; Service is service.go
-- and consume.go with no database, where the maps of the Go struct are functions of the object's id.
-- Service/Publish and Service/Attest cut the operations where the source takes its lock:
-- `draft_message` and `draft_attestation` are what runs before, `commit_message` and
-- `commit_attestation` what runs under it, `publish` and `attest` the two in a row. Service/Consume
-- is the delivery loop; Service/Runs is the step relation, where the locked parts of any operations
-- follow one another and a draft may have been made of any state. The clock, the key store, the
-- signer and the grace of a policy are the record `Env`, given to each operation, so that a theorem
-- on two operations holds for a clock and keys that changed in between. Times are nanoseconds.
--
-- McpProxy: internal/mcpproxy. Names is names.go, on texts of code points; Access is access.go;
-- Manager is the exposure and the routing of manager.go.
--
-- DataServices: the services of the other objects. Queue is internal/queue/service.go, with its
-- broker a record of what it answers; a queue in memory is a list for each object. Bus is
-- internal/bus/service.go: a log of events for each object, and an offset for each consumer of it.
--
-- Ingest: internal/knowledge/ingest. Chunks is `splitText`, Jobs the job store in memory
-- (jobstore.go), with Jobs/Steps its step relation, where a job's id is the number in the text that the source makes of it and the
-- order of a map's iteration is an argument; Pipeline is pipeline.go, over the catalog of
-- internal/storage/meta/postgres/store.go and the vectors of
-- internal/storage/vector/pgvector/store.go, both with no database; Worker is worker.go. `splitText`
-- and `ProcessUntilIdle` run on fuel: one more than the words, or than the attempts that are left,
-- is enough.
--
-- OAuth: internal/auth/oauthas. Redirects is pkce.go; Store is store.go with no database, where a
-- map of the Go struct is a function of its key; Server, Server/Login and Server/Grants are the
-- handlers of server.go, cut where a handler calls a provider or goes on with a session that it has
-- read. Runs is their step relation: a session in flight is part of the state. A call has one clock
-- value, the random source does not fail, and the texts of other parts' errors are left out; the
-- environment is the record `Env`, which may change between calls.
--
-- Prelude has what the parts share: tests on native numbers, lists, texts, the integers that a
-- request may send, association lists for the maps that the source goes over, and lists numbered in
-- order. Examples applies the theorems to concrete callers, keys, topics and servers.
--
-- But for those two, no fuel is needed: every loop is over a list. Counters and ids are natural numbers;
-- an int64 would be reached only by a list of that length.
--
-- Not modelled: the SQL and Redis paths of the stores, the HTTP and MCP handlers but those of OAuth,
-- the writing of canonical JSON, the verification of external tokens, search, schedules, variables
-- and counters, and the network clients.
pub mod Prelude
pub mod Models
pub mod DataObj
pub mod Access
pub mod Policy
pub mod Json
pub mod Crypto
pub mod AgentKeys
pub mod SecureBus
pub mod McpProxy
pub mod DataServices
pub mod Ingest
pub mod OAuth
pub mod Examples

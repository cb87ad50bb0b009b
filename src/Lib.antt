-- ===== src/Lib.antt =====
-- Vexa-VM, a control plane for virtual machines: src/*.rs, with migrations/0001_init.sql.
--
-- The program. HTTP routes (src/routes) check a request and call the database (src/db.rs). What takes
-- long is enqueued as a durable job; a background worker (src/services/background.rs) claims jobs one
-- by one, calls a hypervisor backend (src/hypervisor) and records progress and the end in the same
-- tables. At startup an interrupted queue is repaired. A rate limiter (src/rate_limit.rs) guards
-- the login and the links; customers and consoles come in by one-time links, which are exchanged for
-- sessions (the token tables of src/db.rs). Inside a guest an agent takes commands over a serial
-- channel, in frames of encrypted and signed JSON (guest-tools/crates/protocol).
--
-- Which file models which part:
-- - Common, with Dict, Int and Lists: HashMap as an association list, i64 arithmetic, and the list
--   operations behind SQL statements (`update_where` is UPDATE ... WHERE, `retain` is DELETE,
--   `find?` is SELECT ... LIMIT 1, `count_if` is the number of changed rows).
-- - Error: src/error.rs and the error type of src/hypervisor/mod.rs.
-- - RateLimit: `RateLimiter::check` and `reset`; RateLimit/Window proves their bounds.
-- - Db: the tables and the SQL constraints that the jobs touch; Db/External is what comes from other
--   packages (JSON values, floats, UUID parsing), a parameter; Db/Rows has the lemmas on rows.
-- - Jobs: "Durable jobs" of src/db.rs. Jobs/Enqueue, Jobs/Work and Jobs/Recover hold the operations
--   under the source's names; Jobs/Outcome has the columns of a row after it was
--   claimed or has failed, and Jobs/Valid, Queue, Order, Once and Ending prove what they promise.
-- - Tokens: customer and VNC links and sessions of src/db.rs, under the source's names; its children
--   prove what they promise.
-- - Hypervisor: the types of src/hypervisor/mod.rs; Hypervisor/Validate its checks of requests;
--   Hypervisor/Mock, with SnapshotOps and Seed, the backend of src/hypervisor/mock.rs, one function for
--   each method.
-- - Admins: administrators and API keys of src/db.rs; Admins/Sessions has their browser sessions, and
--   Admins/Keys the keys. Admins/Steps puts the operations into sequences, and Admins/Steps/Book is what
--   sessions promise without a table.
-- - Addresses: the address pools and addresses of src/db.rs. Addresses/Pools, Assign and Insert hold the
--   operations under the source's names, Addresses/Steps puts them into sequences.
-- - Archive: `validate_archive_path` of src/bin/vexa-update-helper/archive.rs, which the update helper
--   asks before it unpacks a file of a release.
-- - Protocol: the types of guest-tools/crates/protocol/src/lib.rs; Protocol/Checks the checks of
--   commands and of responses, Protocol/Replay the `ReplayCache`, Protocol/Frame the frames, and
--   Protocol/Messages the signing, verification and encryption of requests and responses.
-- - Traffic: the quota reconciliation of src/services/traffic.rs with its table in src/db.rs, over a
--   hypervisor that is a parameter; Traffic/Reconcile proves what it promises.
--
-- How state and operations correspond. A row is a record with the columns of its table, and a table is
-- a list of rows. A database method is a function from the tables to a `Result`: it runs in one
-- transaction (or is one statement), so that an error carries no tables, and the constraints that
-- SQLite checks (primary and unique keys, foreign keys, CHECK) are tests that return a database
-- error. The in-memory backend is different: its closures change a machine in place, so an operation
-- returns its result beside the state, also on an error; so does the reconciliation of traffic, which
-- makes several calls. The lock is held while an operation reads and writes, so an interleaving is
-- a sequence of operations: a list of them (Jobs/Queue, Hypervisor/Mock/Run) or a step relation
-- (Tokens/Steps, Admins/Steps, Addresses/Steps). `set_ip_status` is different: it takes the lock
-- for its check, again for its write and again for its last read, so that its step has tables for
-- each of these.
--
-- Numbers. Times are Unix seconds as natural numbers, in the rate limiter signed; where the source saturates (i64 in the rate
-- limiter and in the end of a session, u64 in the size of a disk) or wraps around (the u32 counter of
-- console ports), so does the model. A hash is the number that its bytes spell. Text is text, with
-- its length in bytes. Every function is structurally recursive, so no fuel is used.
--
-- Parameters. Random ids, the clock and UUIDs are arguments of the operations that draw them.
-- Parsing and printing an IP address is the argument `canonical` of the token operations and, with
-- networks, the record `IpLibrary` of the address operations, whose JSON values are `Json`. What the
-- protocol takes from other packages (base64, HMAC-SHA256, SHA-256, AES-256-GCM and serde_json) is the
-- record `Crypto`, and what it relies on (decoding and decryption are inverses) is `IsFaithful`.
--
-- Not modelled: the libvirt backend, firewall and host networking, which run external commands; the HTTP
-- layer and the asynchronous worker around the operations; the reset of traffic usage; images, DNS
-- servers, metrics and the audit log of src/db.rs; the updater but for archive paths, and the Guest
-- Tools agent, which work on files and the operating system; security primitives, which call
-- cryptographic packages; read-only listings.
pub mod Common
pub mod Error
pub mod RateLimit
pub mod Db
pub mod Jobs
pub mod Tokens
pub mod Addresses
pub mod Admins
pub mod Archive
pub mod Hypervisor
pub mod Traffic
pub mod Protocol

-- ===== src/Lib.antt =====
-- The secretsd daemon: a broker that hands decrypted secrets to agent sessions and terminals after
-- a human has approved each one by touching a hardware key.
--
-- The parts, and how they work together:
-- - Names (src/secret.rs, src/capability.rs): secret names, the file names made of them, capability
--   names and the single assignment that a decrypted file holds.
-- - Proto (src/proto.rs, src/proto/response.rs): the failure codes, the request lines and the response
--   lines.
-- - Peer (src/peer.rs): which process calls, and whether it descends from another. The files of
--   `/proc` are the parameter `ProcFs`.
-- - Store (src/store.rs): which one file backs a key, and its identity. The file system is the
--   parameter `FileSystem`.
-- - Grants (src/grants.rs): `Registry`, the sessions and their tokens; `GrantTable`, the decrypted
--   values by scope and key.
-- - Requests (src/requests.rs): `Queue`, the requests that wait for the one hardware key.
--   Requests/Calls has every call of it, Requests/Step those that the daemon makes.
-- - Receipts (src/receipts.rs): `ReceiptTable`, single-use proofs of an approved capability.
-- - Server (src/server.rs, src/server/dispatch.rs, src/server/approval.rs, src/server/worker.rs):
--   `State` holds a registry, a grant table, a receipt table and a queue under one lock. A function
--   of Server/Control, Server/Approval or Server/Worker is what a thread does between taking the
--   lock and releasing it. Server/Step makes each of them a step, in any order and with any
--   arguments, which covers every interleaving of the connection threads and the one worker. The
--   worker cleans up and picks its job under one acquisition of the lock; these are two steps there,
--   which allows more orders than the source does, not fewer.
--   Server/Dispatch composes these functions into the answer to one request. A `Schedule` there says
--   what the other threads do to the state wherever the lock is not held, and what the clock reads.
--   Server/Connections reads a frame from the socket, has it dispatched and writes the answer.
--   Server/Lanes are the bounded queues of accepted connections and the workers of each; a connection
--   carries what was peeked of it when it was accepted.
-- - Decrypt (src/decrypt.rs): one run of sops. What the child process does is a list of rounds, one
--   for each time that the loop asks after it. Once it has exited, a pipe may be held open by another
--   process, and reading it then does not end.
-- - Config (src/config.rs, src/lib.rs): the source roots, the configuration of the daemon, and its
--   start. Hardening (src/hardening.rs): what is applied before. Audit (src/audit.rs): values in the
--   log.
-- - Client (src/client.rs and src/client): the command line tool. Client/Frame, Client/Response and
--   Client/Stream are the frames that it sends and how it reads the answers (src/client/human.rs,
--   src/client/response.rs); Client/Dotenv reads agent files (src/client/agent.rs); Client/Tiers
--   chooses between the tiers (src/client/cli.rs, src/client/human.rs, src/client/status.rs);
--   Client/Commands and Client/Arguments read the command line (src/client/cli.rs,
--   src/client/status.rs, src/client/edit.rs);
--   Client/Seal makes new sealed files (src/client/edit/new.rs).
-- - Base: lists, texts as lists of UTF-8 bytes, tests and searches that the parts share.
-- - Tests: the theorems at concrete inputs.
--
-- Instants and durations are numbers of nanoseconds; a function that reads the clock takes the
-- reading as an argument, one for each critical section. Counters of 64 bits that saturate do so
-- here (`saturating_succ`); ids are distinct while fewer than 2^64 - 1 have been issued. A method
-- that changes its receiver returns the new one beside its result. The ancestor walk has the 64
-- rounds of the source; the loop that draws a receipt recurses on the blocks that the entropy source
-- yields. Process groups that are sent a SIGKILL are listed in the field `killed` of `State`.
--
-- Not modelled: sockets and threads themselves, what is logged, the `Debug` and `Display` texts,
-- zeroing of memory and scrubbing of files, what the client prints (src/client/sources.rs among it)
-- and the programs that it starts in its own place.
pub mod Audit
pub mod Base
pub mod Client
pub mod Config
pub mod Decrypt
pub mod Grants
pub mod Hardening
pub mod Names
pub mod Peer
pub mod Proto
pub mod Receipts
pub mod Requests
pub mod Server
pub mod Store
pub mod Tests

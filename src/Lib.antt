-- ===== src/Lib.antt =====
-- The verification development of omafiled, the daemon in daemon/ that copies, moves, renames and deletes
-- files for the panel plugin. The daemon's promise is that a file is never reported as transferred
-- unless it is there whole, and never lost on the way.
--
-- The parts of the program, and the files that model them:
--
--   Paths, Host       std::path and std::fs, as the daemon uses them. Host/Machine has the state, a
--                     `World` of files, and the record `Host` of all that the machine decides: which
--                     call fails, what reads return, which paths share a device. Host/Calls has one
--                     definition for each system call, Host/Keeps and Host/Renamed what each one
--                     changes, Host/Works what each one does where none fails, Host/Reads what
--                     reading a file gives, Host/Dirs the calls on directories.
--                     Paths/Text reads a path from its text, and Paths/Join is `join`. The crates
--                     sha2 and serde_json are fields
--                     of `Host`.
--   Error, Tier       daemon/src/error.rs, daemon/src/tier.rs.
--   FsOps             daemon/src/fs_ops.rs: the clone of a file's extents, the device test.
--   Journal           daemon/src/journal.rs: the record of unfinished work.
--   Engine            daemon/src/engine.rs. Engine/FreeName is `free_name_beside` and the conflict
--                     policy, Engine/Stream `stream` and `resume_offset`, Engine/Verify the checksum
--                     with its retry, Engine/Copy `copy_file_with`, Engine/Move `move_file_with`,
--                     Engine/Silent the methods without a progress callback. Each
--                     child module proves one thing: Engine/Copy/Whole what the commits establish,
--                     Engine/Copy/Atomic the whole copy, Engine/Copy/Safety its consequences,
--                     Engine/Verify/Agreed, Engine/Copy/Content and Engine/Copy/Reported what a tier says
--                     of the content, Engine/Move/NoLoss and Engine/Move/Succeeds the move,
--                     Engine/Copy/Succeeds and Engine/Verify/Passes a copy on a machine without faults,
--                     Engine/Stream/Restarts what `resume_offset` makes of a record.
--   Server            daemon/src/protocol.rs (Server/Protocol) and daemon/src/server.rs: Server/Tally is
--                     `Tally`, Server/Job `start_job` with its thread, Server/Job/Puts the
--                     views that it puts, Server/Rename `rename_in_place`,
--                     Server/Registry `Shared`, Server/Writer the writer thread of `handle`.
--                     Server/Interleaved is one connection, with its writer and the answers of its
--                     reader, as steps between those of the other threads.
--                     Server/Listener is `bind_fresh`, Server/Activation `activated_listener` and `serve`.
--                     Server/Session is what one connection works on, with `send`; Server/Dispatch is
--                     `dispatch` with `start_job` up to its thread, and Server/Connection the loop of
--                     `handle` over its lines.
--   Trash             daemon/src/trash.rs: Trash/Escape is `uri_escape` and `uri_unescape`, Trash/Bin
--                     `trash_in` with what it calls, Trash/Restore `restore` and `delete_permanently`,
--                     Trash/Date `civil_from_unix`, Trash/Date/Zone `iso8601_local_now` with
--                     `local_utc_offset_secs`.
--   Space             daemon/src/space.rs.
--   CommandLine       daemon/src/main.rs: `main`.
--   Tests             runs on a concrete machine, and the theorems at concrete data.
--
-- A job calls the engine for each of its files and records the outcome in a tally; the engine calls the
-- file system and the journal; the job's views go to the registry, and each connection's writer tells
-- its client of them.
--
-- How code is modelled: fallible code is a function from a state to a result and a state
-- (Prelude/Action), so what was done before an error is still done, and `?` is the bind. A crash is a
-- machine on which every later call fails with no effect, so a theorem about every machine is about
-- every crash. Reads return a finite row of results, of any sizes, and may end in an error. Numbers
-- are natural numbers with the wrap of u32 and u64 written out; offsets stay below 2^63, which is
-- what a file can have.
--
-- Bounds: `free_name_beside` tries the names 2 to 9999, as the code does; `decimal` writes the twenty
-- digits that a u64 can have; `unique_name` tries 10000 names, as the code
-- does; all other recursion is on lists and paths.
--
-- What is assumed of paths: they are absolute, without `.` or `..`, and are lists of components, the
-- innermost first; names are UTF-8; there are no symbolic links. The dashes in messages are ASCII.
-- While an engine operation runs, no other process changes the files. Flushing a `File` and the advice
-- to drop the page cache have no effect in the model, and encoding an entry never fails.
--
-- Texts are bytes; what the standard library takes for UTF-8 or for a blank request is a parameter, and
-- `date` prints ASCII. The dates of the trash record are of days from year 0 on, and the clock stands so
-- low that no i64 overflows. Parsing requests and encoding events are serde_json's:
-- the parser is a parameter of Server/Connection, and whether the socket takes an event one of
-- Server/Session.
--
-- Not modelled: the socket's bytes, the clock and the program `date`, whose outputs are parameters; the
-- QML plugin, the prototypes, scripts and packaging.
pub mod Prelude
pub mod Paths
pub mod Error
pub mod Tier
pub mod Host
pub mod FsOps
pub mod Journal
pub mod Engine
pub mod Trash
pub mod Server
pub mod Space
pub mod CommandLine
mod Tests

-- ===== src/Lib.antt =====
-- A model of the replicated key/value store of libp2p-kv-raft, and theorems about it: the state
-- machine that every raft replica applies log entries to, the store that it writes, and the
-- formats of the keys and payloads that it reads.
--
-- The parts, from the bottom up:
--   Base        Boolean tests, lists measured by native numbers, byte strings in the order of
--               SQLite BLOBs, and big-endian integers (encoding/binary).
--   Outcome     Go's errors as values: one constructor for each message, `wrapped` for %w.
--   Exec        calls that change a state and may fail; what was written before an error stays.
--   Store       pkg/store/store.go. SQLite is a parameter, the record Database of Store.Sqlite: each
--               statement may fail with a code, and where it succeeds it does to the rows what SQL
--               documents. A state that is begun, written and committed is a transaction; `*Store`
--               and `*Tx` share one definition, as they share `dbExecer`. Store.Rows says what the
--               statements do to a table; Store.Writes has Set, Delete, WithTx and LoadAll, and
--               Store itself the reads and DumpAll. Store.Disk (its disk can be full) and
--               Store.Memory (nothing fails, IsReliable) are databases to run the code on.
--   Shmevent    pkg/shmevent: keys of system records (system.go), catalog payloads (catalog.go, in
--               Catalog and CommandPayload), transactions (txn.go), invites (joininvite.go,
--               execinvite.go), command requests (commandrequest.go), channel frames
--               (channelframe.go) and the names of events (event.go).
--               A Go string is its bytes; names that are only compared are texts.
--   Logrecord   pkg/logrecord/key.go: keys of log records and the bounds of their scans.
--   Kvfsm       pkg/kvfsm: Encoding (fsm_encoding.go), Acl (fsm_acl.go), Cascade (fsm_cascade.go),
--               Compare and Apply (fsm.go). `Apply.apply` is FSM.Apply on one log entry; each case
--               of its switch is an `apply_…` of its own, and composes the calls as the code does.
--   Chandata    pkg/chandata/chandata.go: chunks framed in the byte stream of a ring of shmring, which
--               is a parameter, the record Ring of Chandata.Stream.
--   Croncmd     examples/croncmd: commands submitted on cron schedules. Spec is spec.go
--               (Spec.Parse and Spec.Expression parse, Spec.Next has the theorem about the
--               search), over the calendar of Time, which is UTC by the minute, the bit masks of
--               Bits and the ASCII text of Text. Schedule is croncmd.go with the packages it
--               calls, time and json, as the records Calendar and Json, and the search of
--               Spec.Next in any location; Steady says what a location without daylight saving
--               promises, and Utc is a Calendar whose location does. Program is what a scheduler
--               or an editor asks of its Store, its Submitter and the clock, one call after the
--               other; Scheduler has the pass of scheduler.go as such a program, Catalog the
--               operations of croncmd.go's Catalog. Scheduler.System lets any number of schedulers
--               make their calls in any order over memoryStore (store.go), each call atomic and
--               free to fail; Scheduler.Alone runs one program to its end. Node has the scan of a
--               store that is a node, with shmclient as the record Client.
--   Examples    runs on small stores, at which the theorems are applied.
--
-- The state is the database alone: FSM has no field but its Store, and Apply runs once for each log
-- entry, in log order, so that one call is one step. Bytes are native numbers; a theorem that needs
-- them below 256 says so. Integers of fixed width have their wrap-around written out.
--
-- Fuel: LoadAll's loop has as much fuel as the snapshot has bytes; each round reads eight bytes at
-- least, so the fuel is enough. The search for the next fire has the minutes to its deadline as
-- fuel, since each round moves on by one at least; the search in a location has the seconds to it,
-- which are enough where a round moves on, as in a location without transitions (a round that does
-- not, across a midnight that a location skips, is a loop without end in the code and finds
-- nothing in the model); the loop over the values of a term of a cron field has 64 rounds, which
-- are enough for a field up to 59 and every step; the loop that fills a buffer has the bytes to
-- go, since a read returns one at least. All other loops are structural.
--
-- Not modelled: the Cap'n Proto messages and their signatures, the JSON metadata, raft itself,
-- libp2p, the table of registered values (pkg/shmevent/registry.go), the daemon's processes and
-- IPC, the client programs and the other examples, which are I/O or code of other packages around
-- the state machine; Open and Close of the database file. Texts that are only formatted into an
-- error message are left out of the errors.
pub mod Base
pub mod Outcome
pub mod Exec
pub mod Store
pub mod Shmevent
pub mod Logrecord
pub mod Kvfsm
pub mod Chandata
pub mod Croncmd
pub mod Examples

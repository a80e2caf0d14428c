-- ===== src/Lib.antt =====
-- A distributed key-value store: its scheduler, coordinator, instances and scripts.
--
-- Scripts of operations on keys (ESIs) run as clients of a scheduler (planificador/) and of a
-- coordinator (coordinador/), which hands each operation to one of several instances (instancia/).
-- The scheduler lets one ESI at a time execute one operation; the coordinator asks it whether a key is
-- locked, and tells it to lock and to release keys. This development models the scheduler, where each
-- function of planificador/planificador.c and of planificador/consola.c that changes its state is a
-- function of the same name on a record of the global variables; the part of the coordinator that
-- chooses an instance for a key and carries out the requests; the ESI program (esi/esi.c); the
-- instance's table of entries and its storage; and the messages between them (libs/).
--
-- Prelude and its children hold what the other files share. Commons states the list functions of
-- so-commons, the library that every process is linked with and that is not in the repository: they
-- are a parameter, `ListLib`, with their manual as laws, `Documented`. The functions of that manual over
-- some sort are `sequences`; Commons.Insertion gives a sort, so that the laws can be met. Floats is the
-- C `float`, a parameter with the laws of its comparisons. Outcome says how a run ends: with a result,
-- at a null or dangling pointer (`crash`), or waiting for ever (`hang`).
--
-- Planner.State has the globals, Planner.Queues the five queues and what is known of each ESI,
-- Planner.Keys the locked keys and those who wait for them, Planner.Death what happens to an ESI that
-- finishes, fails or is killed, Planner.Schedule the choice of an ESI and its authorisation,
-- Planner.Block the orders of the console to block an ESI, Planner.Console the commands that leave
-- those orders, Planner.Deadlock the console's search for deadlocks, Planner.Loop and Planner.Round the
-- main loop, one event at a time. The loops of the search run on fuel that the caller gives, since there
-- are states from which they do not end (Planner.Circles); Planner.Reports is about what they report.
-- The pointer variables `last_key_inquired` and `key_to_unlock` of the main loop's body keep their value
-- from one round to the next in the model, as they must for the code to work; C leaves it undefined.
--
-- Planner.Inv says when the lists are in order: an ESI stands in one of the four queues of the living
-- at most, is known exactly while it stands in one, and waits for one key exactly while it is blocked.
-- The modules after it prove what the operations do to that order, and what is chosen to execute.
-- Planner.Locks is about the locked keys at a death. Planner.Tests uses the theorems on a small scheduler.
--
-- Coordinator.State has the instances, which the list and the key table point to by number, their
-- requests, and the messages that are sent. Coordinator.KeyTable is coordinador/key-table/key-table.c,
-- Coordinator.InstanceList and Coordinator.Requests are coordinador/instance-list/,
-- Coordinator.Distribution is coordinador/distribution.c, and Coordinator.EsiConnection and
-- Coordinator.InstanceConnection are the handlers of coordinador/connection/, for one operation of an
-- ESI and one turn of an instance's thread. The dictionary of so-commons is a parameter, `DictLib`, and
-- so are `tolower(key[0])` and `strlen`. The critical sections are the steps of the model. Dispatch,
-- Load, Availability, Exclusion and Rotation prove what the distribution finds; Coordinator.Tests uses
-- that on two instances.
--
-- Wire.Chunk is libs/chunker.c and Wire.Package libs/serializador.c. The system's `send` and `recv` are a
-- parameter, `SocketLib`, and a connection that does not fail is `Connected` (Wire.RoundTrip): `send`
-- takes a part of the bytes, `recv` with MSG_WAITALL brings all of them unless a signal comes first.
-- The loops that repeat such a call run on fuel, one for each byte and one more, or more than the signals
-- to come. Wire.Messages has both sides of the messages between the coordinator and an instance
-- (coordinador/connection/instance-connection.c, instancia/coordinator_api.c); Exchange, Confirmation
-- and Reply relate the sides. A string is the list of its bytes, and a number of n bytes has them from
-- the lowest on (Wire.Bytes). Esi.Operation and Esi.Script are esi/esi.c, where each turn of the loop
-- is given what it meets. Instancia.EntryTable and Instancia.Continuous are instancia/entry_table.c,
-- Instancia.Storage is instancia/storage.c, and Instancia.Algorithms and Instancia.StatusTable are
-- instancia/algorithms.c, where a list of pointers is one of positions in the table of statuses; the
-- size of an entry is not 0, as C does not divide by 0. Layout, Removal, Cells and Placing prove where
-- the keys lie, Bytes what the storage holds, and Steps and Replacing what a replacement takes.
-- Instancia.Requests has the operations of instancia/instancia.c, Compaction is
-- instancia/compactation.c, and Service the loop over the coordinator's requests, the recovery and a
-- round of the dump; each turn of the loop is given what its receptions give, whether its answer goes
-- out, and whether the thread that dumps has the mutex between the two parts of a SET that compacts. The
-- loop of the compaction runs on fuel, one for each key and one more. Writing proves what a SET writes,
-- Packed, Values, Statuses, Moving, Compacting and Compacted what a compaction leaves, Answers,
-- Storing, Dumping and Serving what a request leaves.
--
-- Coordinator.SchedulerConnection is coordinador/connection/scheduler-connection.c: what the coordinator
-- asks the scheduler about a key, as an interface `Scheduler` with what the scheduler answers, and one
-- operation of an ESI with its questions and its order to lock the key. System.Dialogue gives that
-- interface by the scheduler's own main loop, with a connection that does not fail and no other event
-- between the question and the answer; System.Locking, System.Operations and System.Writes put both
-- processes together. Coordinator.Semaphores has the two semaphores by which the coordinator's threads
-- share the scheduler's socket, as steps of any number of threads. Wire.Value has the request of a key's value by
-- the coordinator, and Wire.ValueReply the answer of the instance. Wire.KeyStatus has the status of a key,
-- which the console of planificador/consola.c asks the coordinator for and prints, received by
-- libs/deserializador.c (Wire.Deserializer, where a variable keeps what it held if nothing comes); what
-- the key table and the instance say of the key is given to it. Wire.StatusReply relates the two sides.
--
-- `authorize_esi_execution` and `reschedule` call each other when a socket fails. The model runs that
-- recursion on fuel: an ESI that fails leaves the ready queue, and the release of its keys wakes an ESI
-- only by taking it out of the list of those that wait, so the length of both lists is enough fuel.
--
-- Not modelled: the files of the dump (instancia/dumper.c), of which only the calls are kept; the first
-- connection of the processes; threads and the text of the console, which are explicit sequences of
-- events; log lines, of which only the pointers that they follow are kept; and the freeing of memory.
-- An `int` that holds a count or a size (entries_left, the result of `send`) is a number without a bound:
-- the configuration gives entries as an `int`, a reception brings fewer bytes than an `int` can count, and
-- so does one call of `send`.
pub mod Prelude
pub mod Commons
pub mod Floats
pub mod Outcome
pub mod Planner
pub mod Coordinator
pub mod Wire
pub mod Esi
pub mod Instancia
pub mod System

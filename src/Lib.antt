-- ===== src/Lib.antt =====
-- Sylo, a syslog server: a receiver that takes messages from devices over UDP and TCP, an indexer
-- that keeps them in one SQLite database per month, a retention that drops what is too old, and a
-- web application with accounts. The program's parts are modelled as functions on their state; what
-- the operating system, SQLite, bcrypt, the clock and the random generator contribute is an
-- argument.
--
-- A datagram or line becomes a `RawMessage`. The writer of its device queues it, parses it, hands
-- the envelope to the indexer's queue, and appends its line to the file of the day. The indexer
-- flushes envelopes by month into the databases. The rebuild reads the text files back into the
-- databases. The web application keeps users and sessions in a database of its own, and reads the
-- receiver's status file.
--
-- Which file models what:
-- - Text, Text/Utf8: Python's `str` as code points, `bytes` as numbers below 256, and UTF-8 with
--   errors="replace".
-- - Dict, Groups: `dict` in insertion order, and `setdefault(key, []).append(x)` over a list.
-- - Parser: sylo/parser.py. Parser/Patterns has the regular expressions as matchers; they are
--   deterministic, since each repetition is followed by what it cannot match, or its next byte
--   decides. `int_digits` and the loops are by structural recursion, but for the loop over
--   SD-ELEMENTs, which has fuel: one more than there are bytes, and each element takes a byte or
--   more.
-- - Timeutil: sylo/timeutil.py, with a `datetime` in UTC as its fields.
-- - Envelope: sylo/receiver/envelope.py. Stats: sylo/stats.py.
-- - Schema: sylo/indexer/schema.py; a month's database is the list of its rows and the rows of its
--   full-text index. A row is taken into both or into neither.
-- - DeviceWriter: sylo/receiver/device_writer.py, the writer of one device. Arrivals, turns of the
--   task and `stop` are events; a run is a list of events, so every interleaving on the event loop
--   is a list. The data directory is a dictionary from paths to bytes, and what a refused write
--   leaves of a file, a part of its lines included, is an argument. Line ends are those of POSIX.
--   `fsync` has no effect on what a reader sees, so only its schedule is modelled.
-- - Health: sylo/receiver/health.py and sylo/webapp/receiver_health.py, writer and reader of the
--   status file.
-- - Indexer: sylo/indexer/core.py: `enqueue`, `_insert_batch`, `_flush`, `_run` and `stop`, with
--   events as for the writer. SQLite may refuse single rows, and the batch of a month before
--   anything of it is written.
-- - Rebuild: sylo/indexer/rebuild.py, `_rebuild_file`, with the newline translation of a file
--   opened as text. Rebuild/Index: `rebuild_indexer`, over the entries of the data directory as
--   names with their files; an open connection is the name of its month.
-- - AppDb: sylo/webapp/appdb.py, each statement as its effect on the tables. Auth and RateLimiter:
--   sylo/webapp/auth.py. Deps: sylo/webapp/deps.py. UserRoutes: sylo/webapp/routes/users.py, each
--   handler behind `require_admin`, and lists of requests. The handlers run in a thread pool, but a
--   handler is one step here; only UserRoutes/Race splits the deactivation into its reads and its
--   update. LoginRoutes: sylo/webapp/routes/auth.py, each form as one step: login, logout and the
--   change of one's password.
-- - Sort: Python's stable sort.
-- - Queries: sylo/webapp/queries.py, with `list_devices` in Queries/Devices. The index directory is
--   a dictionary of databases by month. The full-text match, the order of rows with equal times,
--   which is taken to be the same whatever the limit of a query, and the groups of devices are
--   SQLite's, given as records of operations with their laws.
-- - MessageRoutes: sylo/webapp/routes/messages.py. `datetime.fromisoformat` is an argument. The
--   tail is a run over its rounds, each with the index and the month that it meets.
-- - Retention: sylo/retention/core.py, on the names of the files; Retention/Calendar has the dates
--   as ordinals, Retention/Delete the deletions, Retention/Run the pass, Retention/Main the loop of
--   sylo/retention/main.py over its rounds. `int` and the files that cannot be deleted are
--   arguments.
-- - Server: sylo/receiver/server.py, the datagram handler and the loop of a TCP connection, with
--   asyncio's StreamReader as its buffer. The loop runs between two arrivals of data, with one
--   round of fuel more than there are bytes, and each round takes a byte or ends.
--   DeviceWriter/Registry: `DeviceRegistry` of sylo/receiver/device_writer.py.
-- - Receiver: `SyslogServer` of sylo/receiver/server.py, what a start binds and makes, and the
--   order of a stop, with `stop_all` of the devices' registry; a bind that fails, and the point at
--   which a stop raises, are arguments. Receiver/Main: sylo/receiver/main.py, the attempts to start
--   over their rounds, the heartbeat and a run. Receiver/System: registry and indexer on one event
--   loop, as a list of arrivals and turns. Receiver/Taken and Receiver/Sent have the messages that
--   the writers' turns hand to the indexer, and Receiver/Lifetime and Receiver/Indexed join start,
--   events and stop.
-- - WebApp: sylo/webapp/app.py, the start of the application, the answer to a request without a
--   session and the roots.
-- - WinService: sylo/receiver/winservice.py, the object between the thread that asks it to stop and
--   the thread that runs it.
-- - SettingsRoute: sylo/webapp/routes/settings.py. `int` and `str` of a number are arguments.
-- - Base: shared Boolean tests, list and option lemmas, and names of the library passed on. Tests:
--   examples.
--
-- Numbers are natural numbers: Python's integers are unbounded, and times are counts from an
-- origin.
--
-- Not modelled: the sockets and the connection resets of sylo/receiver/server.py, and connections
-- that outlive a stop; the devices, help and health routes; the process entry points, signals, the
-- Windows services of the retention and of the web application, whose objects are built alike,
-- configuration from the environment and templates. A failed commit in the middle of a batch, a
-- database that cannot be deleted for a rebuild, and a task that ends by an exception of its own,
-- are not modelled either.
pub mod Base
pub mod Text
pub mod Dict
pub mod Groups
pub mod Parser
pub mod Timeutil
pub mod Envelope
pub mod Stats
pub mod Schema
pub mod DeviceWriter
pub mod Health
pub mod Indexer
pub mod Rebuild
pub mod AppDb
pub mod Auth
pub mod RateLimiter
pub mod Deps
pub mod UserRoutes
pub mod LoginRoutes
pub mod Sort
pub mod Queries
pub mod MessageRoutes
pub mod Retention
pub mod Receiver
pub mod Server
pub mod SettingsRoute
pub mod WebApp
pub mod WinService
pub mod Tests

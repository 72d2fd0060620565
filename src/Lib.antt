-- ===== src/Lib.antt =====
-- The transcription service: clients submit audio to an ingress process, workers transcribe it, and
-- PostgreSQL keeps each job from its submission to its deletion.
--
-- The parts and how they interact. whisper/server.py (gRPC ingress) takes the uploads and answers the
-- clients; whisper/worker_api.py (gRPC for the workers) hands out jobs and takes their results; both
-- call the operations of `JobStore` in whisper/storage.py. A worker, whisper/remote_worker.py, polls
-- for jobs, or RabbitMQ delivers them: whisper/broker.py publishes the store's outbox and, in the
-- worker, consumes the tasks and asks the store to begin each attempt. All that the processes share is
-- the database, so the model of the store is one database and the operations on it, each of them one
-- transaction; the other parts are functions that call these operations. Beside them,
-- scripts/worker_updater.py replaces the workers' containers.
--
-- Storage models whisper/storage.py, the statements under whisper/sql and whisper/reconcile.py.
--   Storage/Schema: the tables' rows, the settings and the clock;
--   Storage/Statements: each SQL file, as an update (`Prelude.Table.Update`, the WHERE and the SET
--     on a row) or as a query on the list of rows: Jobs, Claims, Slots, Outbox;
--   Storage/Uploads, Attempts, Delivery: one function for each method of `JobStore`, under its name,
--     from a database to a database and the method's result; an exception is a constructor of the
--     result. `reserve_upload` ends at its `yield`; `release_upload` is its `finally`;
--   Storage/Steps: any operation with any arguments as a step, and the databases a run reaches;
--   Storage/Validity: the consistency of the rows, and that each operation keeps it;
--   Storage/Capacity: the limits of pools and slots, along runs in the order of the lock;
--   Storage/Outbox: the messages of the jobs that wait or run;
--   Storage/Finality: the results of finished jobs;
--   Storage/Requests: what a row keeps of the upload that made it, along runs;
--   Storage/Fencing, Turn, Queueing, Idempotence, Retention, Retry, Redelivery: single operations
--     and pairs of them;
--   Storage/Tests: the life of one job under concrete settings.
-- Admission models whisper/admission.py: the ingress processes' upload tokens and writes on a volume
--   (Bounds: the limits along runs; Slots: what an ended upload leaves to the next).
-- WorkerAuth models whisper/worker_auth.py: a header to a worker, SHA-256 being a parameter (Identity).
-- WorkerApi models the calls of whisper/worker_api.py on the job store: Heartbeat, Complete and Fail,
--   and in Claims the calls that hand out jobs (Isolation: what they leave alone; Access: who may
--   call). An abort is an error with its status code, after what the call has changed.
--   Runs: the steps of the store that a worker may take, in its own name; Callers: the calls as such
--   steps; Samples: a worker and a job for the tests of its callers.
-- Ingress models whisper/server.py: the checks of the first message, GetStatus, Cancel, Ack and the
--   polling of Transcribe; in Submit, an upload over the store and the admission (Submit,
--   _submit_reserved). The length stands for a chunk's data. Each thing that may raise, the messages,
--   the writes and the system's calls, is an argument, and other processes act on the database once,
--   while the audio arrives (Uploaded, Retried and Released: what an answered and a failed upload
--   leave; Delivered: what the client reads back). LocalWorker: a turn of its worker.
-- RemoteWorker models whisper/remote_worker.py: `process` and what it calls, the heartbeat's loop and
--   `_process_delivery`, as the requests that they send under given replies and given readings of the
--   events that other threads set; in Slots, the reports of availability and the flags of the pool
--   (Reports, Leases, Slots/Turns, Slots/Reported: single tasks and slots; EndToEnd: a task whose
--   Complete the modelled API answers, up to the client's GetStatus).
-- Broker models whisper/broker.py: the envelope of a task and `delivery`; in Consumer, the loop of
--   `consume_slot` over the broker's queues (Kept: where messages go); in Connection, the checks of
--   the connection file. json.loads and json.dumps are parameters.
-- Updater models scripts/worker_updater.py: `recover` as the requests to Docker that it plans from two
--   inspections, carried out until one raises, and in Replacement `update` around it. What Docker
--   answers is an argument (Recovery: what is touched, and what is left).
-- Config models whisper/scheduling.py, whisper/limits.py, the limits of whisper/admission.py and the
--   settings that `JobStore.__init__` accepts; json.loads is a parameter, and `int` has been applied.
-- Prelude has the shared names, tables (with laws of updates, counts and keys) and results.
--
-- Choices. Times are microseconds, REAL columns thousandths, both natural numbers; '-infinity' is 0.
-- NOW() is fixed in a transaction and clock_timestamp() is read once by each statement; the readings
-- are arguments of the operations, and nothing orders them except where a theorem says so. UUIDs are
-- arguments. The rows that other transactions have locked, which SKIP LOCKED passes over, are an
-- argument. The function that hashes a request ID to the key of its advisory lock is a parameter, and
-- two request IDs may share a key. A tie in ORDER BY created_at takes the earlier row of the list.
-- An UPDATE keeps the row in its place in the list. No definition uses fuel: each recursion is on a
-- list or a text. A loop that waits for others (the messages of an upload, the turns of a heartbeat or
-- of a consumer) is a recursion on the list of what it meets. A delivered message that is not
-- acknowledged stands at the head of its queue, where the broker returns it.
--
-- Not modelled: the database's failures (a transaction that fails leaves the database as it was),
-- the files of the jobs but for an upload's, the observation triggers of migration 0004 and the
-- metrics statements; of server.py the local worker's threads, of worker_api.py the stream of Download,
-- of worker_auth.py the file and its JSON, of admission.py the walk of the directory, of
-- remote_worker.py the configuration, the token file and the loops `run_forever`, of broker.py the
-- topology, the connections, the publisher's loop and `daemon_call`. Of scripts/worker_updater.py, Docker,
-- `replacement` and `reconcile`. whisper/inference.py, metrics.py and the other scripts, which call
-- the store or stand beside it, are not modelled either.
pub mod Prelude
pub mod Admission
pub mod Broker
pub mod Config
pub mod Ingress
pub mod RemoteWorker
pub mod Storage
pub mod Updater
pub mod WorkerApi
pub mod WorkerAuth

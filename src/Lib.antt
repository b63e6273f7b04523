-- ===== src/Lib.antt =====
-- TimeWeaver runs scheduled tasks on devices. An agent on each device (agent/services/time_weaver)
-- takes snapshots of its schedules from a server, runs the tasks, and reports each result through an
-- outbox; the server (server/repositories, server/services/agent) issues the devices' credentials,
-- grants claims of manual runs, and records the results. The agent meets the server in its HTTP
-- requests, which are calls of one model's functions on what the other's functions return.
--
-- Prelude passes on the names that all files use: comparisons, association lists for Python's dicts
-- with the semantics of get, [] = and pop, lists of distinct names for its sets, sorting, decimal
-- numerals and results that may raise.
--
-- The agent.
--   Agent/ApiErrors: the exceptions of api_client.py, and _raise_protocol_error, the exception that a
--   protocol error code raises.
--   Agent/Envelope: ResultEnvelope, OutboxItem and _bounded_envelope of outbox.py. The size of an
--   environment is that of its JSON text in UTF-8, character by character.
--   Agent/RetryBackoff: RetryBackoff of outbox.py, over fractions where the source has floats, but for
--   the overflow of its power.
--   Agent/LogGate: FailureLogGate of log_gate.py.
--   Agent/OperatingState: OperatingStateManager of operating_state.py, each method one function from
--   the manager to the manager and the listeners it calls; Event names the methods.
--   Agent/Outbox: ResultOutbox of outbox.py. Each part of a method that runs under the lock is one
--   function; Sections names them and runs sequences of them, which is every interleaving of threads;
--   Delivery composes them as the methods do, with the answers of the server as a list. Overflow is
--   about a drain whose backoff raises.
--   Agent/Json: the JSON values of Python's json module.
--   Agent/Models: the records of models.py, with Parsing for its readers of values and Groups for the
--   construction of snapshots and credentials from JSON; times and UUIDs are read by parameters.
--   Agent/ApiClient: AgentApiClient of api_client.py. The loop of _request takes the outcomes of the
--   transport by their number and has a round for the first request and for each retry; Endpoints has
--   the request of each operation and what it makes of the result, Attempts the laws of the loop.
--   Agent/CredentialManager: CredentialManager of credential_manager.py, with CredentialStore in Store.
--   Each read, write and removal of the file takes the fault that it meets. Outcomes, Fates and Backing
--   say what a call returns, leaves in the file and keeps in memory.
--   Agent/Application: app.py, its globals as one record: Sequences for the execution of a group,
--   Handlers for what results and transitions bring about, Calls for both as one type, and Tasks,
--   Manual, Events and Access for the rest.
--   Pending, Barrier and Runs are about the order of sequences, Balance, Slots, Landing and Dispatches
--   about the reservations in the outbox, Halting and Halted about HALTED, Latches about events, and
--   Stuck about a start that raises.
--   Agent/SyncCoordinator: build_reconcile_plan of sync_coordinator.py on the snapshots of Agent/Models,
--   with the SHA-256 fingerprints as parameters; Apply for apply_reconcile_plan, its mutations and its
--   compensation, over a record of the scheduler's operations, each of which may raise.
--   Agent/ApSchedulerAdapter: ApSchedulerAdapter of scheduler_adapter.py, which fills that record, over
--   the operations of APScheduler as a parameter.
--
-- The server.
--   Server/Database: the tables of the execution repository as lists of rows.
--   Server/Executions: AgentExecutionRepository of agent_execution.py, with accept_result in Results,
--   sweep_expired_claims in Sweep, _run_retryable in Retry, and the transactions as one type in
--   Operations. A transaction is one step, since each locks the rows that it goes by; what others
--   commit to execution_log between the look-up and the insert of accept_result is an argument, and
--   so are the rows that the sweep skips because they are locked.
--   Server/ExecutionService: the checks and the error codes of execution_service.py.
--   Server/Identity: AgentIdentityRepository of agent_identity.py, with Access for enroll, rotate and
--   the access check of identity_service.py, and Steps for its transactions as one type.
--   Server/AgentRuntime: AgentRuntimeRepository of agent_runtime.py, over tables as lists of rows.
--   Server/RuntimeService: the heartbeat and the snapshot of runtime_service.py, with the task fields
--   of task_contract.py; Order and Ranks are about the execution sequences.
--   Server/RateLimit: the token bucket of rate_limit.py, as its Lua script runs in Redis, over exact
--   fractions of a token, where the script rounds to doubles.
--
-- Times are numbers of seconds, delays of milliseconds, UUIDs and digests texts. An exception is an
-- error value, and a transaction that raises leaves the tables as they were. Loops are recursion on
-- their lists, but for sweep_loop, which runs on fuel: one more than the runs in processing is enough,
-- as each full batch frees one at least. The loop of drain_group runs on the answers of the server.
--
-- Not modelled: threads, timers and condition variables as such; in app.py configure_sync and the
-- composition of apply_snapshot, and in sync_coordinator.py validate_snapshot with its cron triggers;
-- the parts of URLs; the hash that makes the revision and the tag of a snapshot; task.py, which runs
-- the commands and file operations, and the entry point agent/timeweaver.py; the routers and the
-- dashboard; and the configuration, encryption, mail and logging of both sides.
pub mod Prelude
pub mod Agent
pub mod Server

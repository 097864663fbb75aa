-- ===== src/Lib.antt =====
-- A model of the decision core of the Zero Trust continuous authentication framework, and what is proved of it.
--
-- The manager scores endpoints and decides on responses. Findings change an agent's risk score, and idle time
-- lowers it (engine/risk/engine.py); findings come from sequences of events (engine/correlation/engine.py); the trust state is computed from the risk, open incidents and alerts
-- (engine/trust/engine.py); policies carry condition trees (engine/events/conditions.py), and the first policy in
-- the order of the sort keys that triggers decides the response (engine/policy/engine.py). On the endpoint the
-- agent follows a connection state machine (agent/connection.py) and keeps telemetry in a durable queue until the
-- manager has acknowledged it (agent/storage/offline_queue.py).
--
-- A response goes from the manager to the endpoint and back: a command is built from a decision and its event
-- (engine/response/command_builder.py), signed (agent/commands/authorization.py), claimed once in the agent's journal
-- (agent/agent_daemon.py), validated and dispatched (agent/commands/command_receiver.py), executed from an allowlist
-- (powershell/ps_executor.py, agent/execution), and its result is judged by the manager (api/ingestion.py).
--
-- Base.antt and its children have the shared names: Boolean tests, lists, the unbounded integers, Python
-- dicts with text keys, database tables and stable sorting. Json.antt has the JSON values that conditions and contexts are made of,
-- with Python's equality; a float is m / 2 ^ k, so NaN and the infinities are left out.
--
-- Risk.antt: `ZTARiskEngine` as explicit state (`Tables`); `apply_delta`, `apply_decay`, `get_risk_level`. The float
-- steps of the decay are the parameter `Floats`, of which nothing is assumed.
-- Trust.antt: `ZTATrustEngine.evaluate_trust`.
-- Connection.antt: `ConnectionStateMachine`; each call of `transition` is one step, since it holds a lock.
-- Condition.antt and Condition/Trace.antt: `ConditionEvaluator.validate` and `explain`. Case folding and the `regex`
-- package are the parameter `Host`; the one law asked of it is that a pattern which compiles is not refused by `search`.
-- Both recurse on the structure of the condition, so there is no fuel. `none` marks shapes that `validate` refuses.
-- Policy.antt: `policy_sort_key`, `evaluate_single_policy` and `evaluate`, for `ZTAPolicy` objects. Fresh ids and times
-- are left out, and `agent_id` stays the value that `str` is applied to.
-- Row.antt and Queue.antt: the rows of `offline_events` and the calls on `OfflineQueue`, each one transaction. Times are
-- seconds on one scale in place of ISO texts; the stored payload is the value that its JSON text encodes.
-- Correlation.antt: `ZTACorrelationEngine.process_event`. Lower case is the parameter `lower`, of which nothing is assumed.
-- Rule.antt and PolicyCheck.antt: `RuleValidator` and `PolicyValidator`; blank texts and JSON parsing are the parameter `Texts`,
-- of which only that the empty text is blank.
-- Authorization.antt: `sign` and `verify` of agent/commands/authorization.py; the HMAC, `str` and the parsing of times are the
-- parameter `Crypto`, of which only that `str` leaves a text as it is.
-- Auth.antt and its children: `OperatorAuth` of api/auth.py on the tables of users and sessions, which Base/Table.antt models. A SELECT
-- runs before the transaction of the writes, so each call takes the state that it read and the state that it writes to;
-- Auth/Steps.antt lets the calls of several threads read and write in any order. SHA-256, PBKDF2 and SQLite's NOCASE equality are parameters; fresh tokens and ids are arguments.
-- Executor.antt and its children: `PowerShellExecutor` of powershell/ps_executor.py. What it asks of Windows, of subprocesses and of
-- Python's texts is the record `System`; a call gives its effects and its end.
-- Script.antt: agent/execution/validators.py and agent/execution/script_executor.py, with the handlers as a parameter; a call of a
-- handler is recorded with all its arguments.
-- Receiver.antt and Receiver/Process.antt: `process_command` of agent/commands/command_receiver.py over the two executors.
-- Journal.antt and its children: `validate_command`, `execute_command` and `upload_results` of agent/agent_daemon.py and
-- `recover_interrupted_commands` of the offline queue. Journal/Steps.antt has the threads, crashes and restarts as steps;
-- each transaction is one step, and so is the run of `process_command`.
-- Results.antt, Results/Rows.antt and Results/Receive.antt: `command_result` of api/ingestion.py, where an exception leaves the tables as they were, and
-- the expiry of commands in api/background.py.
-- Builder.antt: `build_command` of engine/response/command_builder.py, over the executor's dry run.
--
-- Not modelled: the HTTP server, collectors, operating system actions, the SQL layer, the dashboard and the scripts, which
-- are input and output; the ingestion of events.
pub mod Base
pub mod Risk
pub mod Trust
pub mod Connection
pub mod Json
pub mod Condition
pub mod Policy
pub mod Row
pub mod Auth
pub mod Executor
pub mod Script
pub mod Receiver
pub mod Journal
pub mod Results
pub mod Builder
pub mod Queue
pub mod Correlation
pub mod Rule
pub mod PolicyCheck
pub mod Authorization

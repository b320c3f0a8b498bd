-- ===== src/Lib.antt =====
-- pingachock: a service that checks from many places of the internet whether a target can be reached.
-- An operator's clients create checks over the public API; each check becomes one run per chosen node;
-- the nodes (cmd/agent) poll for their runs, execute them and report results; a sweeper times out runs
-- that nobody reports; and the backend itself is one virtual node.
--
-- The program's parts and the files that model them:
--   * Base: lists, options, texts and numbers; sorts; the row operations of the SQL statements.
--   * Store: internal/store. Store/Models are the rows of the tables, Store/Db the tables, a statement and
--     a transaction. Store/{Runs,Claim,Finish} are check_runs.go (CreateCheckRuns; ClaimQueuedRuns;
--     CompleteCheckRun, TimeoutStaleRuns, finalizeCheckStatusTx), Store/Checks is checks.go, Store/Nodes
--     is nodes.go, Store/Accounts is accounts.go and api_keys.go, Store/Results is results.go,
--     Store/Migrations is RunMigrations of store.go.
--     Store/Triple and Store/Total are the rules for calls, Store/Answers the calls of the loops while
--     the database answers; Store/Claim/Once follows a run after its claim; Store/Lifecycle and its
--     children the invariant of checks and runs.
--   * Dispatch: internal/dispatch, the nodes that a selector chooses.
--   * Auth: internal/auth, the middlewares.
--   * Api: internal/api/agent and internal/api/public, the handlers as functions from a decoded body to a
--     reply and the tables. Api/ServerPing is serverping.go and serverupgradescan.go.
--   * Probe: internal/checks. Probe.antt is the registry, Probe/Address the choice of an address and the
--     classes of errors, Probe/Connect is tcp.go and http.go, Probe/Dns, Probe/Ping, Probe/Tls,
--     Probe/Upgrade and Probe/Vless are the files of these names; Probe/Coherent relates results.
--   * ServerAgent: internal/serveragent, the backend's own node.
--   * Agent: the agent. Agent/State is internal/agentstate and the messages of
--     internal/transport/transport.go, Agent/Failover is internal/transport/failover.go, Agent/Transport
--     is the rest of internal/transport, Agent/Poller is internal/poller, Agent/Config is
--     internal/config, Agent/Log is internal/agentlog, Agent/Interface is internal/netiface. Agent/Setup
--     and its children are cmd/agent/main.go: CommandLine the flags and the action, Input the prompts
--     and the tidying up of what is typed, Choice the interface, Resolve resolveConfig, Install
--     relocation and update.
--   * Server: cmd/server, the requests and loops as steps on the tables; Server/Routes is the groups of
--     routes of cmd/server/main.go, each behind its middleware.
--
-- State and failure: a call of the store is a function of a `World`, which holds the tables, the clock,
-- the ids to come and which of the coming statements fail. A call gives a value or an error; the
-- deferred Rollback is `close_tx`. Requests are steps that follow one another, each run to its end, so
-- that what happens where transactions overlap is not modelled, but for a row that another transaction
-- holds, which the argument `locked` gives; the order of a map or of goroutines is an argument `order`.
--
-- Numbers and texts: an id is a number, a time is a number of seconds on one clock, and a difference of
-- times is written as a sum. JSON is its text. Rows with the same time are sorted in the order of the
-- table, which SQL leaves open. Nothing needs fuel: every loop is over a list.
--
-- Regular expressions, JSON, strconv's parsing of integers, path/filepath, floating-point numbers and
-- what the service manager answers are arguments. A text whose bytes the program looks at is a list of
-- them, and its white space and letter case are those of ASCII.
--
-- Not modelled: how a path is matched to its route, PostgreSQL beyond the statements, hashing and
-- random numbers (parameters); of the probes the sockets and the processes of ping and xray; of the
-- agent its menu and the binding of sockets to an interface; ipconfig's output.
pub mod Base
pub mod Store
pub mod Dispatch
pub mod Auth
pub mod Api
pub mod Probe
pub mod ServerAgent
pub mod Agent
pub mod Server

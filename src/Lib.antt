-- ===== src/Lib.antt =====
-- SignalLab: an investment research platform of a Python API over packages that share no code. This
-- library models the packages that hold its decisions, each over the interfaces it is given.
--
-- Parts and files:
-- - Common: Python's integers, floats, text and lists, and methods that change a state and may raise.
-- - Live (packages/live): the queue of real orders. `LiveService` keeps intents until a person decides
--   them and hands the confirmed ones to a broker. Live/Models, Repo, Service model the modules of the
--   same names; Live/Broker is the port and the stub of broker.py, Live/Miniqmt its `MiniqmtBroker`.
-- - Paper (packages/papertrade): the simulated account. Paper/Models, Engine, Repo, Ports, Service
--   model the modules of the same names. A trading day matches the pending orders at the open and
--   values every account at the close.
-- - Contracts (packages/contracts): Contracts/Events, Job, Package model runner_events.py,
--   research_job.py and strategy_package.py, each record with what its validators refuse.
-- - Research (packages/research): research jobs. A runner started elsewhere reports by signed messages
--   and leaves a file of events; its package becomes a strategy. Research/Models, Repo, Ports, Expr
--   model the modules of the same names, Research/Validator and Ranking validator.py, and Session,
--   Create, Jobs, Decode, Reports, Probe, Strategies and Calls the parts of service.py. Research/Ssh and
--   Remote model ssh_ops.py and the provisioner of remote hosts in provisioners.py, and Research/Local
--   the two that start a process and a container on the platform itself.
-- - Datahub (packages/datahub): market data. Datahub/Symbols models the codes of symbols.py,
--   Datahub/Upsert and Repo the tables, and Datahub/Sync the synchronisation with the providers.
-- - Agents (packages/agents): what to buy or sell. Agents/Pool and Snapshot model candidates.py,
--   Agents/Rules its score and rule_engine.py, Agents/Llm the debate of llm_engine.py, Agents/Repo the
--   tables, Agents/Service and Adopt the service: a run decides about each symbol of the pool, and a
--   signal that is adopted becomes an order of the simulated account.
-- - Tracker (packages/tracker): recommendations out of chats. Tracker/Models, Extract, Resolve,
--   EventStudy, Repo and Service model the modules of the same names, and Tracker/Stats the ranking of
--   repo.py. An import stores what is new, and the event study gives each the returns of its windows.
-- - Runners (runners): the process that researches elsewhere. Runners/Reporter models
--   common/reporter.py, and Runners/Runner the runner.py and to_package.py of both frameworks with
--   their stubs. Its reports are what Research reads: Runners/Delivered joins the two.
--
-- The API (apps/api) calls one service per request, in a session of its own; a run of requests is a
-- list of calls, and a sequence of calls a reachability relation. What a method raises is a value of
-- its result, and the state at that point comes with it.
--
-- Correspondence: functions keep the names of the source. A SQLAlchemy table is the list of its
-- rows in the order of insertion; a write to a row object is a write to the row of its id. Fresh
-- uuids and readings of the clock are arguments. Ids are numbers, since they are only compared;
-- times are whole seconds and dates days since 1970. The time of a chat message may be without a
-- zone, and a column then reads it as one of its session, which lies `lag` seconds behind the
-- market (Tracker/Repo). Floats are a parameter (Common/Float), with the laws of a total order as
-- the hypothesis where a theorem compares; Common/Fixed is an instance for runs. Text is the list
-- of its code points; `isspace`, `lower`, `upper` and `isdigit` are those of ASCII.
--
-- Bounds: all recursion is structural, but for two functions on fuel: the digits of a number, of which
-- there are at most as many as its successor has units; and the rounds of a runner, one more than its
-- budget allows, which is enough since each round counts a loop.
--
-- Not modelled: the rounding of Numeric(18, 2) columns when a row is read back; float division by
-- zero; commits that fail; logging; HTTP routes and their replies; the web client; deployment; the
-- real backends of the runners, the texts of the agents' roles and prompts, the export for Qlib,
-- and the packages that the manifest lists as such. The package xtquant is the record `Xtquant`,
-- and the market data of the simulated account the record `PriceReader`. For research, the
-- provisioners, the market data, the decoders of JSON and archives, HMAC, pandas and Python's
-- parser are the records of Research/Ports, Research/Expr and Research/Validator; the hosts that a
-- remote job runs on (the connection, commands and files of paramiko), rsync and the local files
-- are the record `Hosts` of Research/Ssh, the processes of the platform `Machine` of
-- Research/Local; the settings of a reverse tunnel, which nothing reads but the answer of `start`,
-- are left out. The network, the clock and the writes of events.jsonl of a runner are the record
-- `Machine`; a write that fails leaves no part of its line, and the other files of a runner are
-- written without an error. What a probe raises drops what it did since its last commit. The
-- answers of a language model and of the other packages to the agents are `Llm` and `Ports`, and
-- those of the market data to a synchronisation `Provider`. An upsert is that of PostgreSQL, which
-- refuses one key twice. A call of the service is one step: reports that arrive while a provisioner
-- starts a runner come before or after it.
pub mod Common
pub mod Live
pub mod Paper
pub mod Contracts
pub mod Research
pub mod Datahub
pub mod Agents
pub mod Tracker
pub mod Runners

-- ===== src/Lib.antt =====
-- A model of agents-admin, the control plane that hands the tasks of coding agents to compute nodes.
-- A task is run by a run. Handlers of the HTTP API create runs and move them; the scheduler assigns
-- queued runs to nodes; the process on a node reports events, statuses and heartbeats. All of them
-- meet in the tables of one database.
--
-- Model      internal/shared/model: runs and events (Run), tasks (Task), nodes and the part of agent
--            instances that scheduling reads (Node), approvals, interventions and confirmations
--            (Hitl), operations and actions (Operation), accounts and types of agents
--            (Account), the tool permissions of security
--            policies (Security). A Go string type is a data type; where a
--            client may send any text, it has a case for any other text.
-- Json       the documents that encoding/json presents to the scheduler; its parser is outside, and a
--            message is either absent, not a document, or a document.
-- Storage    internal/shared/storage/repository: the tables (World.Db) and one function per statement
--            (Runs, Tasks, Listing, Tree, Events, Nodes, Hitl, Actions, Accounts), named as the methods of the store.
--            Listing and Tree are the pages and the tree of tasks; Ties is ORDER BY where rows are read in
--            any order; Tree/Descent and Tree/Forest say what
--            the tree holds and when its query ends. Order is
--            ORDER BY. View says what a statement does to the run of one id, Writes what UpdateRunStatus
--            leaves. An action of the monad M (World) issues statements in sequence. Each may fail,
--            without effect; an arbitrary function of their number says which do. Leads carries
--            properties of the tables through such code.
-- Nodes      internal/apiserver/node: Status is utils.go, Manager is manager.go, Heartbeat holds
--            Heartbeat and Delete of handler.go. Directives and Standing have their
--            theorems.
-- Scheduler  internal/apiserver/scheduler: Strategy holds the strategy_*.go files, Chain strategy.go and
--            config.go, Loop scheduler.go. Balance, RoundRobin, Selection, Serving, Optimal, Setup and
--            Assigning have the theorems. rand.Intn is a parameter.
-- Api        the handlers that change runs and what belongs to them: Runs (apiserver/run/handler.go),
--            Events (apiserver/server/events.go), Approvals and Interventions (apiserver/hitl/handler.go),
--            Actions (apiserver/operation/action.go), Operations (operation/create.go and
--            operation/auth/create.go), Accounts (the rest of operation/auth, and operation/result.go), Tasks and TaskRequest (apiserver/task). A handler is an action that returns a status code
--            with a body or a message. Decisions, Controls,
--            Effects, Reporting, Accounting, Refusals, Successes, Browsing and Planting have theorems.
-- System     the requests together: `serve` calls the handler of a request, `step` serves one arrival,
--            with its time and its failing statements, and `run` a sequence of them. Lifecycle is the
--            abstract life of runs, a step relation on the tables; Refine to Serving show that every
--            handler follows it; Settled, Keyed, Begun and Idle are invariants by induction on it.
-- Machine    internal/nodemanager, the process on a node: Adapters and Parsing are adapter/*, Workspaces is
--            workspace_manager.go, Containers, Execution and Process are manager.go. An execution is the
--            list of the requests that it sends, each a request of System; what Docker, Git, the disk
--            and the command do is given by parameters, and so is when it is cancelled. Reporting,
--            Statuses, Cancelling, Rounds, Lines, Ends and Created have theorems; Nodes puts executions
--            and control plane together.
-- Tests      one concrete input for every theorem.
--
-- Numbers are natural numbers without bound: times in seconds, counts, sizes; capacities are signed.
-- Go's int is 64 bits wide and the program comes nowhere near its end. Every loop is over a list, but
-- for the recursive query of the tree of a task: its rounds run on fuel, and where the parents of tasks
-- form no cycle the bound on the ranks of tasks and two more rounds are enough. What the database does
-- for ILIKE, OFFSET and rows that ORDER BY does not tell apart, and the readers of numbers and times in a query, are parameters. A handler reads the clock once. Requests are served one after the other: two handlers
-- do not interleave their statements. The trigger of deployments/init-db.sql on updated_at is a choice of
-- the tables (World.stamp), since the schema of the SQLite driver has none.
--
-- Not modelled: the queues (messages come in as a list, notices go out into a log), web sockets,
-- logging, authentication, setup, the workers of a node other than the one that
-- executes runs, templates, terminals, proxies,
-- and the stores other than the SQL repository.
mod Prelude
mod Tests
pub mod Machine
pub mod Json
pub mod Model
pub mod Storage
pub mod Nodes
pub mod Scheduler
pub mod Api
pub mod System

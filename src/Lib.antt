-- ===== src/Lib.antt =====
-- Boreas runs web tasks as Docker containers behind a reverse proxy: users own projects, projects hold
-- tasks, and a task's container is created, started, routed to, redeployed and reconciled. This
-- library models the core of the program and proves what makes it correct.
--
-- Parts and files:
--   * Core: internal/core/core.go. Errors are its sentinels with their text, Roles is ProjectRole with
--     Rank and Max, Names, Spec, Routes and Revision hold the validators, Model the records.
--   * Store: internal/infra/postgres. The tables of the migrations are lists of rows (Store.Db), each
--     query is a function on them, with the unique keys, foreign keys and cascades that it relies on.
--     Store.Inbox has the tables of notifications and of push subscriptions, beside the others.
--   * Proxy: internal/infra/proxy. Registry is the map of sites that the proxy serves, by route key;
--     Serve is ServeHTTP up to the choice of a hop, Lock the signed cookie of a locked site, Rewrite what
--     a hop does to a request and to a redirect or a base tag of the answer, Cookie the lock's cookie on
--     the way to a task, Seconds the decimal text of a time.
--   * App: what a service runs in. A request is a function from a World (tables, registry, login codes
--     that wait, log of the calls of Docker and of the notices, and a count of the calls) to a result
--     and a World. An Env answers for everything else: Docker, the clock, randomness, hashing, the
--     parsing of addresses, and whether the database driver fails a call for a reason of its own.
--   * Project: internal/service/project_service.go. Access, members and grants, Settings the projects
--     and registry credentials, Fleet all that a user reaches at once.
--   * Task: internal/service/task_service.go. The life of a task: Reply has the shared parts, Ready the
--     wait for a container, Lifecycle create, start, stop, restart and delete, Update the edit of a
--     task and Deploy, Builds the reports of a pipeline, Reconcile the repair at start-up, and
--     Metrics the hub that shares one stream of samples per container among its viewers, Console what
--     operators ask of tasks.
--   * Auth: internal/service/auth_service.go. Tokens, login and pairing, and users.
--   * Http: internal/transport/http. Routes is the table of routes, Policy their access levels, Errors
--     the status of an error, Authorize the guard that stands before every handler but a public one,
--     Events the hub that wakes the open streams after a change.
--   * Bora: the assistant, internal/service/bora_tools.go and bora.go and
--     internal/infra/llm/assistant.go. Rounds is the loop of one answer, in which a model calls tools:
--     Tools has the calls, Lookup what they reach by name, Code, Diff and Views those that read, and
--     Propose the one that offers the user a button for a change, with the checks of what it carries in
--     Checks, Person and Fields. Action, State and Aid hold the ops and buttons, what an answer has
--     gathered, and what the tools ask of other packages; Redact is core.Redact. About is what a
--     question is about and the projects that its answer covers. Turns is the gate of the turns that
--     run at once, Follow the events of a turn and a stream that follows them.
--   * Examples: runs at concrete inputs.
-- Services call the stores, Docker and the registry, each through a function of the World; Http
-- asks Auth who calls and Project what the caller may do, Task moves the registry and the rows, and the
-- proxy reads the registry for each request. The tools of the assistant read the fleet of Project and
-- the stores, and change nothing but the answer they are part of.
--
-- Bounds and loops: numbers are natural numbers; times are nanoseconds, and seconds in the proxy's
-- cookie, whose text is read as an int64; the code's other integers stay far below their width
-- (ports, counts). The wait for a container polls as often as the ticker fires before the deadline,
-- a number that the environment gives, and once at first; the digits of a time are written on fuel
-- 19, as many as the largest int64 has; an answer of the assistant runs on fuel 7, one more than
-- its rounds, which is proved to be enough; the other loops run over lists. Every function is
-- total, so that each request returns a result.
--
-- Not modelled: the order of rows (ORDER BY), but for notifications, and timestamps of other rows;
-- the CHECK constraints, which repeat what the services check; the locks per task and requests that
-- interleave, as a request runs by itself (the hubs of samples and of changes, whose state outlives
-- requests, take events in any order, as do the turns of the assistant); avatars and other files;
-- the limiter on password tries, of which a request sees the answer; the handlers that decode and
-- encode JSON, the senders of notifications, the Docker client and the web client, which are I/O;
-- of the assistant, six tools that only list what the fleet holds, the stored conversations and
-- their images, the text that streams while the model writes and the line that is read aloud, while
-- what the model says is a parameter. Parsing of URLs, bcrypt, SHA-256, HMAC and Unicode tables
-- belong to other packages and are parameters.
pub mod Prelude
pub mod Core
pub mod Store
pub mod Proxy
pub mod App
pub mod Project
pub mod Task
pub mod Auth
pub mod Http
pub mod Bora
pub mod Examples

-- ===== src/Lib.antt =====
-- PocketDev: a developer's projects from a phone. The API server (server) keeps users, projects, jobs
-- and sessions, and the files that an agent on the developer's machine (services/cli-agent) syncs to
-- it. A job runs in a terminal, either in a container of the cloud worker
-- (services/execution-worker) or on the developer's own desktop (services/desktop-agent); both serve
-- the terminal with the gateway of packages/pty-core, and all speak the contracts of
-- packages/shared.
--
-- How the parts meet. `JobsService.create` checks the project and the quota, picks the desktop or the
-- cloud, writes the job and the session, signs a token for the terminal and, for the cloud, queues the
-- job. The worker takes it, starts a container, enters the session in its registry and waits. The
-- client sends the token to the gateway, which asks its service what to run (`resolveSpawn`); when the
-- terminal ends, or a kill signal or a timer comes, the job is released, the container destroyed and
-- the exit published, and the server's reconciler writes it to the rows.
--
-- The agent on the developer's machine lists its files, opens a socket with the user's token, sends the
-- list, gets the difference, and sends the files and the removals; the server writes them below the
-- project's directory, where the git panel and the file browser find them.
--
-- Which file models what:
--   Base          Booleans on native numbers, lists, texts as code units (Base.Names reads them as strings,
--                 Base.Patterns has the matches of the expressions used), results, and a JavaScript map
--                 as an association list (Base.Dict)
--   Pty           packages/pty-core: Gateway is one connection of gateway.ts (`handleConnection`,
--                 `onStart`, `finish`, `applyBackpressure`), Token is auth.ts, Spawn is spawn.ts, Root is
--                 `findRepoRoot` of env.ts; Messages has the contracts. Exits, Access, Refusal and Flow
--                 hold the theorems on the gateway
--   Worker        services/execution-worker: Registry is session-registry.ts, Jobs the handler of
--                 index.ts with its timers, Gateway is gateway.ts, Containers is docker.ts; Events has
--                 packages/shared's domain words and messages. Held joins the worker to the terminal
--   Sync          Manifest is packages/shared/src/sync-protocol.ts with `computeDiff`; Upgrade and Gateway
--                 are server/src/sync/sync.gateway.ts, Client is services/cli-agent/src/sync-client.ts;
--                 Serial is `makeSerializedSync` and Watch the options and the watcher of
--                 services/cli-agent/src/index.ts. Round joins the agent and the gateway over a store that
--                 keeps a contract, Stored fills the contract with the store on a disk, and Stored.Disks
--                 takes the agent's manifest and files from a disk as well
--   Files         server/src/files/file-store.service.ts: Paths is what it uses of node:path, SafePath
--                 its confinement of paths, Disk the calls on the disk, Store the operations on
--                 one file, Tree the tree for the browser, Manifest the list of the files, with that of
--                 services/cli-agent/src/manifest.ts; Keys has the paths as the keys of a manifest,
--                 Disk.Fits compares two disks, SafePath.Portable has the names that both sides read alike
--   Server        Db has the tables (server/prisma/schema.prisma), Execute the methods that may throw;
--                 Sessions, Reconciler, Quota, Desktop, Jobs, Projects and Auth are the services of these
--                 names, Guard is the guard of the routes with the user's profile, Git is
--                 server/src/git/git.service.ts over the interface of SimpleGit, GitProtocol its answers,
--                 Http the controllers of files and git, Lifecycle all that writes to the rows of jobs
--                 and sessions
--   Agent         services/desktop-agent/src: the owner check of index.ts and `shellArgs` of config.ts;
--                 Presence joins the agent's requests to the server that hears them
--   Config        server/src/config/configuration.ts, the two config.ts of services and `loadSharedEnv` of
--                 packages/pty-core: the settings that are read from the environment
--   Client        scripts/pty-client.mjs; Journey follows a session from its request to its terminal
-- In each, Tests has runs on concrete values.
--
-- State and order. Code that waits is cut at its awaits: a component is a step function on a record
-- with one event for each callback, and a run takes any list of events, so that every interleaving of
-- callbacks is a run. An event that cannot come in a state changes nothing there. What a step does
-- to the outside is a list of effects. A service method of the server runs as a whole on the state of
-- the database, and keeps what it wrote before it threw; the two calls that race in the quota are
-- written out as its reading and its writing half.
--
-- Numbers and texts. Counters and times are natural numbers: the source compares and adds them and
-- never goes below zero or near 2 ^ 53. Exit codes are natural numbers too; a number
-- that is read from the environment may also be negative, or none. A text that the code takes
-- apart is a list of code units, another one a string. Paths are POSIX paths.
--
-- Fuel. The wait of the registry takes rounds of fuel: with a clock that moves on between two rounds,
-- `timeout_ms + 2` rounds are enough. The search for the repository's root has the ten rounds of its
-- loop. All else is structural.
--
-- Parameters, with what is assumed of them where it matters: the verification and the signing of
-- tokens, hashing of passwords, SHA-256, text encodings and base64, the times of files, the calls of
-- simple-git, the answers of the container daemon, what a file of variables holds, the ids that the
-- database and the queue draw, and the time of each call.
--
-- Not modelled: Prisma, Redis, BullMQ, Docker, node-pty, simple-git, chokidar, commander and the WebSocket
-- library beyond the answers and callbacks named above; symbolic links, which a container or git may put
-- into a project and which the calls on the disk follow, so that all that is said of paths is said of them
-- as texts; calls of the quota that overlap, but for the one race written out; the time between the removal
-- of a container and the report of its exit; which hosts `URL` takes and what it escapes in a path; the controllers that only hand on their
-- arguments, and framework modules; logging; the local side of the terminal client; the mobile
-- application; a database or a disk that fails for reasons of its own.
pub mod Base
pub mod Pty
pub mod Worker
pub mod Sync
pub mod Files
pub mod Server
pub mod Agent
pub mod Config
pub mod Client

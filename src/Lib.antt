-- ===== src/Lib.antt =====
-- The parts of neals that hold its state and decide what happens, as functions, with theorems on
-- what they do.
--
-- neals starts development projects side by side: the daemon gives each TCP service of a project
-- a loopback address and a port of its own, tells the proxy (Caddy) which host name leads to
-- which of them, and starts the project in a network namespace. The command line registers
-- projects, sends requests to the daemon and shows the projects' logs.
--
--   Daemon.Ports      crates/daemon/src/ports.rs: the leases of 127.53.x.y and the search for a port
--   Daemon.Routes     crates/daemon/src/state.rs (BoundRoute): routes, and what a status reports of
--                     them
--   Daemon.Caddy      crates/daemon/src/caddy.rs: the proxy's configuration and its manager
--   Daemon.State      crates/daemon/src/state.rs: the state behind the lock, stop and reap
--   Daemon.Signals    crates/daemon/src/state.rs: the walk over a process tree, and what is signalled
--   Daemon.Netns      crates/daemon/src/netns.rs: command lines of the namespace, its proxies, its pid
--   Daemon.Binding    crates/daemon/src/handler.rs: bind_services
--   Daemon.Handler    crates/daemon/src/handler.rs: the start of a project, part by part
--   Common.Devenv     crates/common/src/devenv.rs: names and their checks (Devenv), the literals of
--                     devenv.nix (Nix), the services that they declare (Services), and the text that
--                     `neals init` writes into it (Inject)
--   Common.Hosts      crates/common/src/hosts.rs: the block of neals in a hosts file
--   Common.Registry   crates/common/src/registry.rs: the registered projects
--   Daemon.Requests   crates/daemon/src/handler.rs: handle_request
--   Daemon.Commands   crates/daemon/src/handler.rs and caddy.rs: commands, addresses, the log's tail
--   Daemon.Hosts      crates/daemon/src/hosts.rs: the entries of running services, published
--   Common.Ipc        crates/common/src/ipc.rs: messages and their lines
--   Common.Xdg        crates/common/src/xdg.rs: directories, and the rotation of logs
--   Common.Flags      crates/common/src/lib.rs: flags and quoted words
--   Cli.Dedup         crates/cli/src/live.rs: lines that stand in two logs are shown once
--   Cli.Logs          crates/cli/src/logs.rs: the last lines of a log, a log that is followed
--                     (Follower), the processes that have one (Names), and all of them together (Mux)
--   Cli.Live          crates/cli/src/live.rs: the turns of the live view, over the followed logs; Waits
--                     has the waits of crates/cli/src/logs.rs
--   Cli.Commands      crates/cli/src/main.rs: the commands on the registry, and those that ask the daemon
--   Cli.Refresh       crates/cli/src/refresh.rs: the refresh of a project and what it may remove
--   Prelude           text, decimal numbers, lists, results
--   Tests             concrete runs
--
-- State is passed explicitly. AppState of crates/daemon/src/state.rs is a record of the running
-- projects, the proxy manager, the leases and the effects on the host in the order they were
-- brought about, the newest first; a hash map keyed by the projects' names is the list of its
-- projects, in which insert_project puts a project in the place of one of its name. The lock is
-- tokio's Mutex: what runs under one guard is one step. up_project of
-- crates/daemon/src/handler.rs gives the guard back between its parts, so a start is a task
-- (UpTask), task_step does the next part, and Daemon.Handler.Interleave has the steps of the
-- whole daemon: a request, one part of one start, a stop, the reaping of an exited project.
-- run_task runs one start alone, for six parts: Daemon.Handler.Serving counts those that are left
-- (parts_left), and no start has more.
--
-- Files, sockets, processes, the proxy and the clock are not in the repository. What they answer
-- is a parameter: Sockets (which addresses and ports bind), CaddyEnv (the proxy, its admin socket
-- and its files, and whether the proxy has taken a configuration from a post that failed), UpEnv
-- (all that one start asks of the host). Ports and pids are natural numbers, with u16's bounds
-- written out. Text is a list of code points. Error messages are kept as constructors. Loops with
-- a fixed number of rounds recurse on the rounds that are left: 256 times 255 for the addresses,
-- 1024 for the ports. The walk over a process tree has 2^32 + 1 rounds, since each pid of 32 bits
-- is in its queue once at most.
--
-- Log files are lists of bytes, read as UTF-8 the way String::from_utf8_lossy does
-- (Prelude.Utf8). A path names a file by a number (Disk), and a follower holds the number of the
-- file that it opened, so a log that is rotated under it is another file. The loop of tail_lines
-- recurses on the length of the file, since each round reads a byte at least.
--
-- SyncEnv, Write and MirrorEnv are the same for the hosts file, Serde for serde_json, and the
-- data type Expr for what the walk over devenv.nix sees of the tree of rnix. An insertion into
-- devenv.nix works on its bytes, at the offsets behind tokens of that tree (Tree), which lie in
-- the text.
--
-- Not modelled: the system calls of crates/daemon/src/netns.rs, which stand behind UpEnv with the
-- rest of that file; the server loop, the client, the shells, the checks of doctor and the
-- terminal output of crates/cli, which are input and output.
pub mod Prelude
pub mod Common
pub mod Daemon
pub mod Cli
mod Tests

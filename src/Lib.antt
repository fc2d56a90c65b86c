-- ===== src/Lib.antt =====
-- edison-stdiod: a daemon that runs local MCP servers for a backend.
--
-- The daemon keeps a WebSocket to the backend. The backend sends frames with the servers that are
-- to run on this machine, their environment values, and MCP messages for them. The daemon starts
-- and stops child processes, stores the values in a private file, and answers through the same
-- connection. Paths below are from crates/edison-stdiod/src unless they say otherwise.
--
-- * Protocol is crates/edison-tunnel-protocol/src/lib.rs: the frames as data.
-- * EnvStore is env_store.rs: `EnvStore` in memory beside its file (`Disk`); each method that
--   writes through returns the store, the disk and whether the write succeeded. A write that fails
--   leaves the file as it was or, on Windows, gone (`WriteFault`); SecureFile.Faults relates this to
--   the calls of `write_private`.
-- * Tunnel is tunnel.rs: the broker `OutgoingHandle`, the classification of connection errors and
--   close frames, and the receive loop over a list of messages.
-- * Proc is proc.rs: `ChildServer` as the supervisor sees it, with its queue of 64 frames;
--   Proc.Diagnostics is `ChildDiagnostics`, Proc.Sanitize is `sanitize_diagnostic_line`.
-- * State is state.rs: the status record and `StateWriter::update`.
-- * Supervisor is `Supervisor` of daemon.rs: the child map with its operations; Commands has the
--   methods that frames trigger (`apply_snapshot`, `apply_delta`, `apply_env_update`,
--   `apply_spec_update`, `restart_unresponsive`), Drain has `drain_incoming`. The methods take the
--   lock of the supervisor, so that a frame is one step.
-- * Config is config.rs: the persisted configuration; Config.Backend has `normalize_backend_url`
--   and `ensure_installable`, Config.Merge has `Resolved::merge`.
-- * DaemonAuth is daemon_auth.rs: the connection values `ResolvedRun` and what follows from a
--   change of them.
-- * Daemon is the rest of daemon.rs: heartbeat and backoff; Daemon.Waiting has the loops that poll
--   the configuration, over a list of what each poll finds; Daemon.Session has `run_one_session`
--   and the rounds of `run`, over what happens in each round. Times are in milliseconds.
-- * Protocol.Wire and Protocol.Decode are `to_json` and `from_json` of the frames, on JSON values.
-- * Proc.Search is the module `linux` of proc.rs, Proc.CommandLine the module `win`: how the
--   program of a child is found, and the command line of a batch file.
-- * Http is http.rs: the client's requests and the classification of responses.
-- * Auth is auth.rs: the requests of a device authorization and the checks on what comes back;
--   Auth.Poll is `poll_with_sleep`, in nanoseconds, over what the backend answers to each poll.
-- * Cli.Login, Cli.Logout and Cli.Server are the commands of cli/login.rs, cli/logout.rs and
--   cli/server.rs, from the configuration file to what is saved, sent and printed.
-- * SecureFile is secure_file.rs: `write_private` with `replace` for Unix and for Windows, as calls
--   of a file system any of which may fail, with the states that the directory goes through.
-- * Platform.Linux is platform/linux.rs: the unit file and the calls of `systemctl`.
-- * Proc.Pumps is the pumps of proc.rs between a child's pipes and the channels, over what each
--   read and write comes to.
--
-- Parameters stand for what the program calls: `Supervisor.Host` has the operating system's answers
-- to spawns, the iteration order of a hash map and the faults of writes; the parser of the `url`
-- crate is an argument of `normalize_backend_url`; `Environment` has the machine's names and the
-- digest that names a store's file; sending a request, decoding a body, dates, random bytes and
-- SHA-256 are arguments of Http, Auth and Cli; `SecureFile.Os` and `Platform.Linux.Os` have what
-- each call of the host comes to. Most loops run over a list that they consume. Three take
-- fuel: `poll_loop` gets one unit for every five seconds of the code's lifetime and one more, which
-- is enough since no interval is shorter and the time of a turn only adds to it;
-- `create_temp` has the 32 attempts of the source; `decimal` prints up to twenty-one digits, more
-- than a 64-bit number has.
--
-- A part's directory has its proofs, in modules named for what they prove, and its tests, where
-- the theorems are applied to concrete inputs. Supervisor.Steps describes every handler as a
-- sequence of elementary steps (start, stop, send, publish, touch, store), on which the invariants
-- on processes rest; Cli.Login.Outcomes does the same for the ways a login can end, and
-- SecureFile.Pending for the ways through a write.
--
-- Not modelled: the cancellation of a handler in the middle of a frame, the text of JSON and TOML,
-- tracing, the WebSocket library, the modes of files, the parsing of the command line, the commands
-- status, logs and install, and the service managers of macOS and Windows.
pub mod Base
pub mod Protocol
pub mod EnvStore
pub mod Tunnel
pub mod Proc
pub mod State
pub mod Supervisor
pub mod Config
pub mod DaemonAuth
pub mod Daemon
pub mod Http
pub mod Auth
pub mod SecureFile
pub mod Platform
pub mod Cli

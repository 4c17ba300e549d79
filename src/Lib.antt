-- ===== src/Lib.antt =====
-- A model of claude-bridge, a daemon through which agent sessions send each other messages, and
-- theorems about it.
--
-- The daemon's broker (internal/broker) keeps the sessions, their inboxes, their broadcast limits and
-- their push subscriptions in one state that a single goroutine owns. Every public method of the
-- broker posts a closure that this run loop executes; a cleanup tick reaps stale sessions; and for
-- each subscription a pusher's goroutine forwards events from a mailbox to the subscriber's channel.
--
-- Base, Text and Dict hold what the parts share: lists, integers, strings as bytes with the functions
-- of `strings` and `path/filepath` that the source calls, and maps as entry lists.
-- Broker models internal/broker:
--   Broker.Clock, Broker.Config, Broker.Session, Broker.Message: the types of broker.go, session.go
--     and message.go, `withDefaults` and `newID`;
--   Broker.Bucket: `tokenBucket` of broker.go (Bucket.Rate: the rate it enforces);
--   Broker.Livelock: livelock.go (children PairKey, Body, Prune and Breaker for its theorems);
--   Broker.Pusher: pusher.go, each case of a select that is ready being one turn of the goroutine
--     (children Delivery and Stopping);
--   Broker.State: `state`, `sessEntry`, `New` and the helpers `stamp`, `enqueue`, `deliver`,
--     `notifyPeers`;
--   Broker.Sessions, Broker.Messages, Broker.Subscriptions, Broker.Reaping: the commands
--     `RegisterSession`, `Touch`, `UnregisterSession`, `ListPeers`, `Session`, `Send`, `Broadcast`,
--     `Poll`, `Subscribe` with its cancel function, and the tick's `reap` (Reaping.Survivors: what it
--     leaves of a session). A command is a function on the state, with the source's early returns as
--     results;
--   Broker.RunLoop: one step for each command, tick, goroutine turn and receipt, and any sequence of
--     them (children Subscribers and Inboxes for its invariants, Closing for its end, Ending and Ids
--     for what commands leave of sessions and identifiers;
--     Broker.Liveness, Broker.Managed and Broker.Soundness hold the lemmas on the parts of the state);
--   Broker.Commands: the buffered channel through which `do` posts commands to the loop, and `Close`,
--     as a transition system (child Order).
-- Rpc models internal/daemonrpc:
--   Rpc.Frame: frame.go (children RoundTrip and Stream). A writer takes a number of bytes and then
--     fails; a reader sees bytes and then the end of the stream;
--   Rpc.Request: the requests of server.go and `invoke`; Rpc.Server: `handleConn`, one input of a
--     connection after another, and the server's count of connections (children Serving, Binding
--     and Registering; Answering for one request over a writer that takes the answer). Their broker
--     is that of Broker, called through its commands;
--   Rpc.Client: client.go. What the other end of a connection does with the bytes that it gets is a
--     parameter; Rpc.Client.Calling puts the server there.
-- Mcp models internal/mcp, the server that the shim of a session runs:
--   Mcp.Json: the JSON values that the source builds out of maps; Mcp.Schema: schema.go;
--   Mcp.Codec: the types that are decoded and the daemon as `daemonClient` of tools.go;
--   Mcp.Tools: the handlers and the registry of tools.go (children Shape and Typing); Mcp.Response:
--     the results and errors of server.go; Mcp.Server: `dispatch`, `handleLine` and `Serve` (children
--     Relay for `handlePermissionRequest`, Keeping, Serving, Calls, Relaying and Answering for the
--     theorems);
--   Mcp.Channel: the events that are pushed (child Forwarding); Mcp.Verdict: a permission verdict from
--     the tool through the broker to the frame that the other shim writes.
-- Cmd models cmd/claude-bridge, over an operating system that is a parameter (Cmd.Os):
--   Cmd.Main: main.go (child Codes); Cmd.Shim: mcp.go (child Closing); Cmd.Spawn: spawn.go and
--     `acquireLock` (child Ending); Cmd.Serve: the start of serve.go (child Starting); Cmd.Idle: its
--     idle timer and shutdown; Cmd.Status: `stop` of status.go (child Stopping); Cmd.Peers and
--     Cmd.Install: `status` and `install`.
-- Daemon models the process that Rpc.Server and Cmd.Serve are parts of, with all its connections:
--   Daemon.Goroutine: `handleConn` in turns, between which other goroutines come; Daemon.System: the
--     accept loop, the goroutines, the timer, signals and the end (children History, Exiting, Keeping,
--     Owning, Leaving, Ending and Dropping of Daemon for the theorems; Solo: beside Rpc.Server).
-- Config models `Load` of internal/config/config.go and `brokerConfig` of cmd/claude-bridge/serve.go
-- (child Loading), and its runtime paths (Config.Paths).
-- Examples instantiates the theorems at a small scene.
--
-- Representation. A time is a count of nanoseconds since the zero time. `since` is `Time.Sub` with
-- its saturation at the largest duration; a negative difference is 0, which every comparison of the
-- source with a positive duration treats alike. The answers of the clock and of the uuid package
-- come from a `World`, at counters that the state keeps. A string is its bytes; `strings.Fields` and
-- `strings.ToLower` are those of ASCII text. A map is an entry list in any order, since Go leaves the
-- order of iteration open. A pusher has an address in a heap that stands for its pointer; it stays
-- there after it has left the map. The configuration is signed where the source's is, and what
-- `withDefaults` returns is in natural numbers. Counts of tokens and of repetitions do not overflow.
--
-- JSON, YAML, the syntax of durations and of flags, files, the environment and the operating system
-- are parameters (`Codec`, `ClientCodec`, `Host`, `Os`). A function that the source does not name
-- stands where a writer, a daemon or a system is needed: `direct` calls the broker as a connection
-- would, and the recording ones keep the calls that were made, with any answers.
--
-- Fuel: `read_all` counts the frames to read, one more than were written; `read_events` counts them
-- too, and the number of bytes is enough, since a frame has a header; `dial_until` counts the rounds
-- of the wait for a daemon, 41, which its theorem shows to be enough; `digits` counts digits, of which
-- a number has no more than its value and one. Every other loop is recursion on a list.
--
-- Interleaving: a call of the broker takes effect at once, at the point at which the run loop executes
-- its command (Broker.Commands). Between two turns of a goroutine anything else can happen.
--
-- Not modelled: the reply channel of `ask`, `IsStale`, which only tests call, what goroutines do
-- between the end of the accept loop and that of the process, the deadline of the shim's
-- unregistration, and in cmd/claude-bridge what is printed and logged, and the usage text.
pub mod Base
pub mod Broker
pub mod Cmd
pub mod Config
pub mod Daemon
pub mod Dict
pub mod Examples
pub mod Mcp
pub mod Rpc
pub mod Text

-- ===== src/Lib.antt =====
-- AnyCable-Go, a server for WebSocket clients: the brokers, which keep the history, the sessions and
-- the presence of streams, the hub, which spreads messages over the sessions of a node, and the node,
-- which carries out the commands of a client with the answers of a controller.
--
-- A publication reaches a broker (broker/), which stamps and keeps it and hands it to the pub/sub
-- layer; the node hands what comes back to the hub (hub/), which sends it to every session that is
-- subscribed. A client's command goes to the node (node/), which asks a controller, the application or
-- streams/controller.go, and subscribes the session through the broker, which listens upstream, and
-- through the hub.
--
--   Common           common/common.go: messages, presence events and replies
--                    Common.Env: SessionEnv, Common.Commands: messages and results of commands
--   Broker.Calls     Broadcaster of broker/broker.go: what a broker asks of the pub/sub layer
--   Broker.Tracker   StreamsTracker of broker/broker.go
--   Broker.Legacy    LegacyBroker of broker/broker.go
--   Broker.Memstream memstream of broker/memory.go: one stream's history
--   Broker.Presence  presenceState of broker/memory.go, with Presence.Expiry for expirePresence
--   Broker.Memory    Memory of broker/memory.go: the broker as a whole
--   Broker.Nats      NATS of broker/nats.go: Nats.Lru and Nats.Sync for lru and streamsSynchronizer,
--                    Nats.JetStream for the service it asks, Nats.Streams for its streams and their
--                    copies, Nats.Publish for what is published and read, Nats.Sessions for the
--                    sessions, Nats.Buckets for the buckets, the epoch and the initialization
--   Hub              hub/hub.go: registration and subscriptions, Hub.Index for the choice of a gate,
--                    Hub.Streams for the stream list of a session
--   Hub.Gates        hub/gate.go: one shard of the subscriptions, and the delivery of messages
--   Common.PubSub    PubSubMessageFromJSON of common/common.go
--   PubSub           pubsub/: what the subscribers publish and take
--   Node.Broadcasts  HandleBroadcast, HandlePubSub, ExecuteRemoteCommand, Shutdown and disconnectAll of
--                    node/node.go
--   Node.Subscriptions  node/subscription_state.go
--   Node.Steps       Session of node/session.go with its lock smu, and the effects of a command
--   Node.Replies     handleCommandReply and handleCallReply of node/node.go, with markDisconnectable
--   Node.Commands    HandleCommand of node/node.go and the commands it runs
--   Node.DisconnectQueue  node/disconnect_queue.go: its loop, Shutdown and the callers of Enqueue as
--                    interleaved steps; its Drain and Stranded for how it ends
--   Node.Cache       ToCacheEntry and RestoreFromCache of node/session.go
--   Node.Lifecycle   Authenticate, Authenticated, TryRestoreSession, Disconnect and DisconnectNow of
--                    node/node.go
--   Node.Link        the connection of node/session.go: the send channel, closing, pings and pongs;
--                    Node.Link.Threads has its goroutines as interleaved steps
--   StreamsController  streams/controller.go: streams without an application
--   Controllers      node/controller.go: the interface of a controller, with Controllers.Router for
--                    router/router.go and Controllers.Identity for identity/identity.go and
--                    identity/jwt.go
--   Sse              sse/: Sse.Encoder for encoder.go, Sse.Requests for sse.go, Sse.Connection for
--                    connection.go
--   Protocol         protocol/protocol.go: answers of the application as results
--   Rpc.Retry        the loop of rpc/rpc.go that repeats a call
--   Rpc.Barrier      rpc/barrier.go: the bound on calls in flight
--   Rpc.Controller   the operations of the controller of rpc/rpc.go
--   Rpc.Shutdown     Shutdown and grpcClientHelper of rpc/rpc.go
--   MessageVerifier  utils/message_verifier.go
--   Prelude          Boolean tests, lists, results and association lists
--
-- State is a record and an operation is a function on it with the name of the Go function in snake
-- case, and is one step. The operations of the streams tracker, of a memstream, of the presence
-- state, of the sessions of the memory broker and of a gate hold one lock throughout. Others take
-- several locks in turn, or give a lock back before they go on, and are taken as one step all the
-- same, so that what other goroutines do in the middle of them is not covered: Subscribe and
-- Unsubscribe of the brokers (broker/broker.go, broker/memory.go, broker/nats.go), where the
-- tracker gives its lock back before the broadcaster is called; HandleBroadcast, Store, the history
-- and the expiry of the memory broker, which look a stream up, work on it and read the epoch under
-- a lock each; the operations of NATS as a whole, with touch and sync of its streamsSynchronizer;
-- RemoveSession, SubscribeSession, UnsubscribeSession and disconnectSessions of hub/hub.go, which
-- work under the lock of the hub and those of its gates in turn; Subscribe of pubsub/nats.go; and
-- the commands of the node. Where goroutines meet in between, they are step relations: the
-- disconnect queue, the goroutines of a session's connection (Node.Link.Threads), the barrier of
-- the calls (Rpc.Barrier), and the timers and a reader of a stream of NATS
-- (Broker.Nats.Sync.Waits). What a broker or a hub sends is a list, in order. Errors are values,
-- and so is a run-time panic. A command of the node runs on one session, and what it asks of the
-- hub, the broker and the connection are its effects, a list in order; the answers of the
-- controller and the broker during the command are the record World. The session's lock is part of
-- the session: a command that takes a held lock waits without an end, since only the command that
-- holds it could give it back. A Go map is an association list, and a loop over a map goes in the
-- order of the list, where Go leaves the order open.
--
-- Offsets, and the tracker's counts, are 64-bit and wrap as in the code. Times are seconds from 1970
-- on, and milliseconds in Broker.Nats; limits and times to live are not negative. One expiry pass
-- reads the clock once. Loops are by recursion on lists and on the attempts that are left, but for
-- two that have fuel: the repeated call of Rpc.Retry, for which 302 rounds are enough, since each
-- adds at least 10 milliseconds to an age that must not pass 3000, and the setup of a bucket in
-- Broker.Nats.Buckets, for which 7 rounds are enough as long as no other client gives the bucket
-- another time to live once it was deleted.
-- A gate's channel holds 256 messages, and `none` says that the sender waits. A session of the hub
-- is a number that stands for its address; the hub asks it for its ID and its identifiers. A
-- session's send channel holds 256 frames, and a frame that finds it full closes it.
--
-- Parameters: decoding JSON, writing a presence event as JSON, the text of a cached session, and what
-- a session says of itself; the controller's and the broker's answers; the verifier of signed stream
-- names and the reading of identifiers; the library for tokens and the one that reads URLs; HMAC and
-- base64; the answers of an application over gRPC; the answers of JetStream. What a client sends as
-- presence information is of any type.
--
-- Not modelled: reading from a session's connection and the encoders (encoders/), dialling and the
-- metrics of a gRPC connection (rpc/), the connections to NATS and Redis, the broadcasters that listen
-- to NATS, Redis and HTTP (broadcast/), the HTTP handlers, the configuration and the command line,
-- logging, metrics, and the goroutines and timers that call the operations.
mod Prelude
pub mod Common
pub mod Broker
pub mod Hub
pub mod Node
pub mod Controllers
pub mod MessageVerifier
pub mod Protocol
pub mod Rpc
pub mod StreamsController
pub mod PubSub
pub mod Sse

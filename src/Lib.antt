-- ===== src/Lib.antt =====
-- atomic_websocket: a WebSocket server and client that keep their connections alive and reconnect.
--
-- A server holds a registry of clients. Each connection has a writer behind a bounded channel; the
-- registry hands messages to these channels, refreshes the client that took one, drops the client
-- that did not, and drops those that were silent for too long. A client holds one connection to a
-- server: it sends with retries, and when the connection is lost it dials the address that its store
-- remembers, or scans the subnet. Both pass what they receive to the application through a bounded
-- channel with a queue behind it, so that a slow application never stops a socket. Messages are frames
-- of a category and a payload that bebop encodes.
--
-- The build that is modelled is the default one: features `native-db` and `bebop`, without `rustls`.
-- What differs without `bebop` is in Server/Raw, Connect/Raw and Store/Raw, what differs without
-- `native-db` in Store/Memory, and the connect call of a client that lacks one of them in
-- Connect/Discovery.
--
-- Base: shared names and lemmas; texts as lists of bytes; machine integers as bit patterns, with their
--   wrap-around written out (Base/Word).
-- Runtime: the crates, as records of operations and laws that every theorem takes as a parameter: the
--   bounded channel of tokio with `try_send` (Channel), DashMap (Table), the codecs of bebop (Codec),
--   the transactions of native_db (Database). Runtime/Lists, Bytes and Rows are concrete values, which
--   show that the laws can be met.
-- Metrics, Retry: src/helpers/metrics.rs and src/helpers/retry.rs, name by name. Metrics/Snapshot has
--   the loads of a snapshot apart.
-- Address: `parse_port`, `valid_port`, `to_ws_url` of src/helpers/server_sender.rs and `outer_ws_url`
--   of src/helpers/get_outer_websocket.rs, with the `rustls` feature as a flag.
-- Schema: src/generated/schema.rs, a codec for each record; `serialized_size` is in
--   Schema/Sizes, and the owned copies of the records are left out.
-- Message: the frames of src/helpers/common.rs.
-- Options: the options of src/helpers/internal_server.rs and src/helpers/internal_client.rs.
-- Spillover: `send_handle_message` of src/helpers/client_sender.rs and src/helpers/server_sender.rs,
--   which are alike; `offer` is one call.
-- Clients: `ClientSenders` and its trait, src/helpers/client_sender.rs. `send` is the method of the
--   struct and `send_and_track` that of the trait. Clients/Race has `add` and the tracked `send` as two
--   steps each, around what they await.
-- Builder: src/helpers/builder.rs; a chain of setters is a list of calls.
-- Server: src/helpers/internal_server.rs: a connection's reader, from the first message on, its writer
--   (`write_loop`), the permits of the accept loop (Server/Slots), and the server with its accept loop,
--   its checker and the calls of its registry in any order (Server/Lifetime). Server/Reader is the
--   reader's loop while other tasks use the registry, and the messages that are for the application;
--   Server/Middlewares is the calls that a connection makes of its middlewares, Server/Messages
--   follows a client's messages to the application, and Server/Calls has the calls that the reader
--   makes of the registry.
-- Store: the settings of src/helpers/common.rs and src/helpers/connection_store.rs.
-- Sender: `ServerSender`, src/helpers/server_sender.rs, with the tasks that it spawns as a list.
--   Sender/Persist has the methods that write the store as well.
-- Connect: src/helpers/internal_client.rs and the guard and session of
--   src/helpers/get_internal_websocket.rs. A call that waits for a scan is `begin_scan` and
--   `finish_scan`, so that any step may stand between them (Connect/Flights). Connect/Pings is one
--   round of a ping loop. Connect/Stream is `handle_websocket` once the stream is open: its reader and
--   the tasks that it spawns as events in any order, and the turns of its writer. Connect/Dials is
--   `get_internal_websocket` and `get_outer_websocket`, from the guard to the end of the session.
-- Scan: src/helpers/traits/connection_state.rs and src/helpers/scan_manager.rs; the task of an address
--   is `task_begin` and `task_end`, around its dial. Scan/Subnet is the list of addresses, Scan/Tasks
--   the looks of `run`, `scan_network` address by address, the end of its time and the tasks,
--   interleaved: a step is only whose turn it is, and the code's own tests decide what is done.
-- Entry: `AtomicWebsocket` of src/lib.rs, and how an `AtomicClient` is initialized. A sender that is
--   given keeps its own store.
-- Examples: concrete runs.
--
-- The clock, a drawn identifier, what a channel answers, what a scan finds and how a dial ends are
-- arguments. An attempt of a client's send is taken, is refused, or is never answered, where the
-- channel is full and nothing empties it; then the send does not return, which is `none`. A task
-- that only sends then hangs and the session goes on; the first ping of a session then hangs its
-- dial, and no theorem is about the state of the sender meanwhile. Operations are modelled one at
-- a time, under the lock or between the awaits of the code; where other tasks matter, the steps
-- are a relation. An `Arc` of shared state is the state. Times are i64 and counters u64; theorems
-- on times ask for values far from the ends of the type.
--
-- Fuel: the retry loop of a client's send runs on fuel, two more than the retry limit, which is
-- one more than the attempts it can make; it ends with the attempts, or with one that is never
-- answered. `sleeps` runs a backoff on fuel from its maximal count on.
--
-- Not modelled: TLS, in builds with `rustls`; what a middleware does when it is called, of which its
-- answers are an argument; the errors of src/helpers/error.rs, which no other module uses; the log
-- macros; the example programs and tests, which are glue. `accept_async` and `connect_async` are of
-- crates: how they end is an argument.
pub mod Base
pub mod Metrics
pub mod Retry
pub mod Address
pub mod Runtime
pub mod Spillover
pub mod Schema
pub mod Message
pub mod Options
pub mod Builder
pub mod Clients
pub mod Server
pub mod Store
pub mod Sender
pub mod Scan
pub mod Connect
pub mod Entry
pub mod Examples

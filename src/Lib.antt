-- ===== src/Lib.antt =====
-- Verification of PlaceNet Hamlet, the home node of PlaceNet: a process that supervises a local MQTT
-- broker, an MQTT client, an HTTP gateway and clients of a cloud gateway, that signs the certificates
-- of devices, and that broadcasts its URL to beacons under rotating keys.
--
-- The parts, how they interact, and the files that model them:
--
-- - Supervisor.antt, Supervisor/: src/supervisor.rs. The supervisor owns the services and runs one
--   command at a time: `execute` is a round of the loop of `spawn`, `run` the loop, `handle_start`,
--   `handle_stop` and `handle_restart` the handlers. It reaches a service through the trait
--   `ManagedService`, here a record of operations that is an instance argument. Supervisor/View has
--   the abstract machine of one service, Supervisor/Machine that of all. Supervisor/Handles has
--   `SupervisorHandle` and the task of `spawn` as a relation `Step` on the bounded channel, the task
--   and the replies, with the interleavings of any number of callers. ServiceId.antt:
--   src/services/mod.rs.
-- - Services/: the five implementations of the trait (src/services/*/*_service.rs), `new`, `start`,
--   `stop` and `is_running` of each; Services/Managed is the dynamic dispatch that fills the
--   supervisor's interface. `Answers` is what the system answers to one call, and a channel or a task
--   is a number. Services/Registration is `register_onto` of the managers.
-- - BroadcastKeys.antt, BroadcastKeys/: src/services/beacon_management/key_management.rs over the table
--   `broadcast_keys` (migrations/). BroadcastKeys/Rows has the SQL, BroadcastKeys/Token the token.
-- - Broadcast.antt, Broadcast/: `run_broadcast_loop` of src/app.rs over the key manager, cycle by cycle.
-- - Beacons/: src/services/beacon_management/registry.rs (Beacons/Registry) and
--   `run_beacon_message_loop` of src/app.rs (Beacons/MessageLoop), which feeds the registry with
--   handshakes, sweeps and messages and connects to the gateways that beacons advertise. A run is
--   the sequence of the events that `select!` takes, in any order; a sweep runs to its end or is
--   given up at one of its awaits (`check_timeouts_until`). A connection is closed when its shutdown sender is dropped.
-- - CloudGateway/: src/services/cloud_gateway/cloud_gateway_service.rs: the WebSocket connection task
--   (CloudGateway/Connection) and `compute_ws_url`.
-- - GatewayLink/: src/services/gateway_mqtt: the login over HTTPS (GatewayLink/Url, GatewayLink/Login)
--   and the connection task (GatewayLink/Task), which logs in, connects with the credentials that it
--   got, and waits between attempts. Both connection tasks are step functions on where the task waits
--   and its local variables, from one event that it waits for to the next, with what it does as a list
--   of actions.
-- - Mqtt/: src/services/mqtt_client: `build_mqtt_opts`, with rustls and the files as the interface
--   `Tls` (Mqtt/Options), the handle, the command task and the event loop (Mqtt/Client), and
--   `provision_node_identity` (Mqtt/Identity).
-- - Http/: src/services/beacon_management/internals: what is read of a request (Http/Requests), the
--   handlers and `dispatch` (Http/Handlers), over the CA's database, the files of the certificates and
--   the queue of topic channels that the message loop of Beacons/ takes up; Http/Serving has the accept
--   loop and the connections (tasks.rs, internals/proxy.rs, internals/tls.rs).
-- - Broker/: the broker's certificates and the identities of devices, with the password file and the
--   detection of programs (src/services/mqtt_brokerage, src/services/capabilities.rs).
-- - Startup.antt, Startup/: `App::initialize` of src/app.rs, over the registrations of the managers
--   (Services/Registration) and the supervisor.
-- - Node.antt, Node/: the tasks that src/main.rs leaves running, over the models of Http/, Beacons/ and
--   Broadcast.antt: a relation `Step` of their steps, with the queue and the lock that they share; a step
--   ends where a task can wait.
-- - Peer.antt, Peer/: `send_message` of src/services/peer, which nothing in the program calls.
-- - Ca.antt, Ca/: src/infra/ca: the root CA, the node's identity and the device certificates. The crate
--   rcgen is the interface `Rcgen`.
-- - Config.antt, Config/: src/config.rs and `build_brokerage_info` of
--   src/services/beacon_management/manager.rs. Config/Parsing has what is used of Rust's standard
--   library.
-- - Prelude.antt, Prelude/: results, lists, association lists, texts as lists of code points.
--
-- The database, the broker, the file system and the clock are not modelled: a call takes their answers
-- as arguments, and theorems hold for all of them. A failing statement leaves its table as it was. A
-- seconds count that the source keeps in an `i64` is a natural number; it cannot wrap, since only `u32`
-- durations are added to the clock. A hash map is an association list without repeated keys, and the
-- order in which it is iterated is its list's. HMAC-SHA256 is a parameter with its digest's size. The
-- only fuel is that of `to_string`, one more than the number, which has no more digits than that.
--
-- A network, rustls, serde_json and a shell are parameters or the answers that an event carries; an
-- event that a task does not wait for where it stands changes nothing, and whatever is asked of a client
-- counts as done, since its failures are only logged.
--
-- Not modelled: the call of libc that lists the network interfaces, and logging.
pub mod Prelude
pub mod Mqtt
pub mod Broker
pub mod Http
pub mod Startup
pub mod Node
pub mod Peer
pub mod GatewayLink
pub mod ServiceId
pub mod Supervisor
pub mod Services
pub mod BroadcastKeys
pub mod CloudGateway
pub mod Beacons
pub mod Ca
pub mod Config
pub mod Broadcast

-- ===== src/Lib.antt =====
-- Verification of the entrance server: a tracker that lets browsers find each other.
--
-- A client posts a signed request to `/enter` (hubserv/src/entrance_server_router.rs), which sets up a
-- WebRTC connection and registers it in the server's state (hubserv/src/state.rs) under the session and
-- under the URL of the world that the client is in (hubserv/src/state/url_data.rs). Over the data
-- channel the client then exchanges routing info and has messages passed on to other clients
-- (hubserv/src/rtc_api.rs, hubserv/src/swarm.rs), in the protobuf messages of proto/. Several servers
-- share the URLs by a hash (cluster/src/client.rs), redirect requests to each other
-- (hubserv/src/cluster.rs), and keep their name server records (cluster/src/manager.rs, cf.rs). The
-- settings (hubserv/src/args.rs) decide at the start which of this is done (hubserv/src/main.rs).
--
-- Files and the code they model:
--   Base               names, lists, bytes and association lists that all parts share
--   Hub/Client         hubserv/src/state/client_data.rs: `ClientData`, its mutable fields in cells
--   Hub/UrlData        hubserv/src/state/url_data.rs: `UrlData`
--   Hub/State          hubserv/src/state.rs: `State`; its children hold the invariant, what keeps it, and
--                      the registry that it implements (Hub/State/Registry)
--   Hub/State/Threads  `add_connection` and `remove_connection` by several threads at once
--   Hub/State/UrlThreads  the same for the entry of one URL, its counters and its lists
--   Hub/Types          hubserv/src/types.rs: `normalize`, `normalize_url`, `verify`
--   Hub/Swarm          hubserv/src/swarm.rs: `transfer`, `exchange_routeing_info`; `send_rpc_response`
--   Hub/RtcApi         hubserv/src/rtc_api.rs, and `on_swarm_message` of hubserv/src/swarm.rs
--   Hub/Router         hubserv/src/entrance_server_router.rs: `enter`, `candidate`, the callbacks
--                      (Hub/Router/SetUp: the end of `setup_pc`)
--   Hub/Redirect       hubserv/src/cluster.rs: `redirect_if_needed`, `load_node_list`
--   Hub/NodeList       hubserv/src/cluster.rs: `start_client`
--   Hub/Args           hubserv/src/args.rs: `Args`, `replace_tags`, printing; Hub/Args/Load: `load`
--   Hub/Start          hubserv/src/main.rs: what `main` asks of the name server; `create_client`
--   Hub/Main           hubserv/src/main.rs: `main` up to where the servers run, with the panics of the
--                      access logger (`State::new`) and of the WebRTC library's role
--   Hub/Dns            hubserv/src/dns.rs: `set_arecord`
--   Hub/ApiServer      hubserv/src/api_server.rs: `update_cluster`, the access log, where it listens
--   Hub/StatusServer   hubserv/src/status_server.rs: the metrics and the status page
--   Cluster/Func       cluster/src/func.rs: host names
--   Cluster/Node       cluster/src/client.rs: `Client`, here `Node.Client`
--   Cluster/Cf         cluster/src/cf.rs: the requests; Cluster/Cf/Laws: what is asked of the service
--   Cluster/Manager    cluster/src/manager.rs: `split_records`, `diff_records`, `update_dns`;
--                      Cluster/Manager/Run: `Manager`, `update`, and cluster/src/node_source.rs; the
--                      other children hold what an update does to the records
--   Proto/Swarm        proto/pb/swarm.proto and the accessors of proto/src/lib.rs
--   Proto/SendData     proto/src/routing_info_ex.rs: `to_send_data`
--   Proto/Iter         proto/src/routing_info_ex.rs: the iterators, `get_min_depth`, `is_known`
--   Proto/Gateways     proto/src/routing_info_ex.rs: `get_known_gateway_session_ids`
--   Proto/Rpc          proto/src/lib.rs: `encode_packet`, `decode_packet`
--   Proto/Conversions  proto/src/lib.rs: `set_encrypted_payload`, the conversion of `SignatureSet`
--   Common             common/src: band width, compression, encryption, signal future, errors, time,
--                      logging of failed results, and posting over HTTP
--   Tests              concrete inputs
--
-- Conventions. A handler takes a state and returns the new one. A `DashMap` is an association list; a
-- session id, a string or a byte vector is a list of numbers. Addresses stand for `Arc` pointers.
-- Numbers are naturals with the wrap-around of a release build written out (`% 2 ^ w`); where the code
-- panics the result is `none`, `panic` or the like. Calls run one after the other, except in
-- Hub/State/Races, Hub/State/Threads, Hub/State/UrlThreads, and `interrupted_poll` of
-- Common/SignalFuture, which take the steps of several threads in turn. In Hub/State/Threads a step is
-- one access to the counter or to the map of connections, and what the map of URLs answers is any
-- answer; in Hub/State/UrlThreads it is one access to a URL's entry, which is locked while a client is
-- added to it, or to the counter or the list of a `UrlData`.
--
-- Parameters, for code that is not in the repository: the WebRTC library, the generated protobuf code,
-- zlib, the cipher, signatures, the URL and JSON parsers, the random choice, the hash of a URL, the
-- digest behind a node's id, `clap` with the environment, the server of the list of nodes, the UDP
-- socket, the library of the access log, and the services of AWS and Cloudflare, as operations on a
-- state of what is outside. What the theorems ask of them is among their hypotheses; the effect of a
-- request to the name server is the record `Laws` of Cluster/Cf/Laws.
--
-- The breadth-first iterator runs on fuel, as much as the forest has nodes, since a step takes one
-- node off the queue and never queues a node twice; the digits of a printed number run on fuel 20, for
-- numbers below 2^64; `start_client` has the five tries of the source. All else is structural
-- recursion.
--
-- Not modelled: the set-up of sockets, TLS and the WebRTC library but for the steps of it that Hub/Main
-- has, the routing of requests, log messages other than of failed results, timers and tasks (of
-- `start_client` the seconds slept are counted), the throttled job runner (a buffered stream of the
-- futures library), and threads other than as said above.
pub mod Base
pub mod Common
pub mod Proto
pub mod Cluster
pub mod Hub
pub mod Tests

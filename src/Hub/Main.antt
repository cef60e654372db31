-- ===== src/Hub/Main.antt =====
-- `main` of hubserv/src/main.rs once the settings are loaded: the name server, the state and the list of
-- nodes, up to where the servers run. What is outside is a state `Net`; the socket, the logger and the
-- WebRTC library are a record `Machine`.
pub mod Serving
use verse_entrance_server.Base.{
  ℕ, zero, suc, ◌+◌, ◌-◌, ◌*◌, ◌/◌, ◌%◌, ◌^◌, ◌≤◌, ◌<◌, max, min, ◌≡◌, refl, sym, ap, ap₂, subst,
  ◌∙◌, ◌≢◌, ◌↔◌, ◌⊎◌, inl, inr, Bool, true, false, ◌&&◌, ◌||◌, not, Option, none, some, List, [],
  ◌∷◌, ◌++◌, map, append_assoc, append-nil, arith, ltb, leb, ◌==◌, if◌then◌else◌, leb→le, leb-false,
  ==_iff, Bool-cases, Option-cases, unwrap_or, usize_max, dec_u64, length, retain, any, take, All,
  In, In-append_left, In-append_right, In-append_cases, length-append, length-map, length-retain-le,
  retain-append, length-take, any-append_true, Bytes, codes, bytes_eq, bytes_eq_refl,
  bytes_eq_sound, bytes_eq_iff, contains, starts_with, ends_with, lookup, insert, remove, values,
  lookup-insert, lookup-remove, insert_missing, remove_missing, remove-append, values-append,
  List-cases, get_elem?, get_elem?-In, set, set_ind, total, total-set, le-total, total-zero, if_ind,
}
use verse_entrance_server.Cluster.Node
use verse_entrance_server.Cluster.Node.{NodeListNode}
use verse_entrance_server.Cluster.Cf.{NameServer, Outcome, ok, err, Failure}
use verse_entrance_server.Cluster.Manager.Run.{Aws, Manager, update}
use verse_entrance_server.Hub.Args.{Args}
use verse_entrance_server.Hub.State.{Config, State, open_state}
use verse_entrance_server.Hub.Start.{
  Start, manages, sets_arecord, no_dns, panics, start, create_client,
}
use verse_entrance_server.Hub.Dns.{NamedRecords, set_arecord}
use verse_entrance_server.Hub.NodeList.{Loading, start_client}
use verse_entrance_server.Hub.ApiServer.{Listening, listening}

-- The limits that `State::new` gets.
abbrev pub config_of : Args → Config
config_of a = record {
  max_connections = a.max_connections;
  max_connections_by_url = a.max_connections_by_url;
  max_routing_results = a.max_routing_results;
}

-- What the system and the libraries do at the start: whether the UDP port can be had, whether the WebRTC
-- library takes the role that `create_webrtc_api` sets, and whether a logger can be built for a path.
pub record Machine (Net : Type 0) : Type 0 where
  pub binds_udp : Net → Bool
  pub sets_role : Bool
  pub builds_logger : Net → Bytes → Bool

-- What the servers are started with.
pub record Running : Type 0 where
  pub state : State
  pub cluster_manager : Option Manager
  pub cluster_client : Option Node.Client
  pub loading : Option Loading
  pub api : Listening
  pub status_port : ℕ

-- The manager that is kept if a request succeeded; `unwrap` panics if not.
abbrev pub kept : {Net : Type 0} → Option Manager → Net × Outcome → Net × Option (Option Manager)
kept manager (after, ok) = (after, some manager)
kept manager (after, err e) = (after, none)

module _ {Net Addr : Type 0} (aws : Aws Net) (ns : NameServer Net Addr)
    (named : NamedRecords Net Addr) (node_id : Bytes → Bytes) where
  -- The part of `main` that asks the name server, and the manager that it keeps; `none` is a panic.
  unfoldable pub set_up_dns : Start → Net → Net × Option (Option Manager)
  unfolding update set_arecord
  set_up_dns (manages m) net = kept (some m) (update aws ns node_id m net)
  set_up_dns (sets_arecord http_host public_ip email api_key) net =
      kept none (set_arecord ns named net http_host public_ip email api_key)
  set_up_dns no_dns net = (net, some none)
  set_up_dns panics net = (net, none)

module _ {Net : Type 0} (answer : ℕ → Option (List NodeListNode)) (machine : Machine Net) where
  -- The rest of `main`, up to the servers; `none` is a panic.
  unfoldable pub set_up_servers : Args → Net → Option Manager → Option Running
  unfolding create_client start_client open_state listening
  set_up_servers a net manager =
      if machine.binds_udp net && machine.sets_role
      then (elim (create_client a) [
        | none ↦ none
        | some client ↦
            elim (open_state (machine.builds_logger net) a.access_log_path (config_of a)) [
              | none ↦ none
              | some state ↦ some (record {
                state = state;
                cluster_manager = manager;
                cluster_client = client;
                loading = start_client answer a client;
                api = listening a;
                status_port = a.status_port;
              })
            ]
      ])
      else none

module _ {Net Addr : Type 0} (aws : Aws Net) (ns : NameServer Net Addr)
    (named : NamedRecords Net Addr) (node_id : Bytes → Bytes)
    (answer : ℕ → Option (List NodeListNode)) (machine : Machine Net) where
  -- What follows the name server.
  abbrev pub go_on : Args → Net × Option (Option Manager) → Net × Option Running
  go_on a (after, none) = (after, none)
  go_on a (after, some manager) = (after, set_up_servers answer machine a after manager)

  -- `main`; `none` is a panic.
  unfoldable pub main : Args → Net → Net × Option Running
  unfolding start set_up_dns set_up_servers
  main a net = go_on a (set_up_dns aws ns named node_id (start a) net)

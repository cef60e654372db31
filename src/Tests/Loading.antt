-- ===== src/Tests/Loading.antt =====
-- The start of a node, the list of nodes from a server that fails twice, and results that come to a
-- future.
use verse_entrance_server.Base.{
  ℕ, ◌+◌, ◌*◌, ◌≤◌, ◌≡◌, refl, inr, true, false, not, length, Option, none, some, List, [], ◌∷◌,
  arith, ◌==◌, if◌then◌else◌, Bytes, codes,
}
use verse_entrance_server.Common.SignalFuture.{
  new_future, Op, resolve, timeout, poll_with, woken, polled, run, empty, slot_run, finish, poll,
  step, future_refines,
}
use verse_entrance_server.Cluster.Node.{NodeListNode, Client}
use verse_entrance_server.Hub.Args.{Args}
use verse_entrance_server.Hub.NodeList.{Loading, start_client, rounds}
use verse_entrance_server.Hub.NodeList.Latest.{latest, or_else}
use verse_entrance_server.Hub.NodeList.Starts.{start_client-latest, start_client-first}
use verse_entrance_server.Tests.Settings.{args}
use verse_entrance_server.Cluster.Func.{get_node_host}
use verse_entrance_server.Cluster.Node
use verse_entrance_server.Cluster.Manager.Run.{run_update_dns, new_manager}
use verse_entrance_server.Hub.Args.{set_other_args}
use verse_entrance_server.Hub.State.Invariant.{Inv, IsWordSized}
use verse_entrance_server.Hub.Start.{manages, start}
use verse_entrance_server.Hub.Dns.{NamedRecords}
use verse_entrance_server.Hub.Main.{config_of, Machine, Running, set_up_dns, set_up_servers, main}
use verse_entrance_server.Hub.State.{open_state}
use verse_entrance_server.Hub.Main.Serving.{main-serves}
use verse_entrance_server.Tests.NameServer.{Slot, toy, toy_zone, toy_laws}
use verse_entrance_server.Tests.Services.{
  manager, node_id, net, aws, host_dotless, host_prefixed, reliable, nodes_read,
}
use verse_entrance_server.Tests.Services

abbrev node_args : Args
node_args = record args { cluster_node_list_url = some (codes "https://example.com/nodes.json") }

abbrev client : Client
client = record { node_host = codes "n"; cluster_host = codes "c"; node_list = none }

abbrev nodes : List NodeListNode
nodes = record { host = codes "n" } ∷ []

abbrev answer : ℕ → Option (List NodeListNode)
answer i = if i == 2 then some nodes else none

start_client-latest_example :
    (l : Loading) × (start_client answer node_args (some client) ≡ some l)
    × (1 ≤ l.requests)
    × (l.requests ≤ 5)
    × (l.slept ≤ 45)
    × ((rounds answer 3 l).slept ≡ l.slept + 60 * 3)
    × ((rounds answer 3 l).client
        ≡ record client { node_list = or_else (latest answer (l.requests + 3)) client.node_list })
start_client-latest_example =
    start_client-latest answer node_args client (codes "https://example.com/nodes.json") 3 refl

start_client-first_example :
    start_client answer node_args (some client)
    ≡ some (record { client = record client { node_list = some nodes }; requests = 3; slept = 9 })
start_client-first_example =
    start_client-first answer node_args client (codes "https://example.com/nodes.json") 2 nodes refl
      (omega arith) (λ i h. ground arith) refl

abbrev ops : List (Op ℕ Bytes ℕ)
ops = poll_with 1 ∷ resolve 7 ∷ timeout (codes "timeout") ∷ poll_with 2 ∷ poll_with 3 ∷ []

future_refines_example : run new_future ops ≡ slot_run empty ops
future_refines_example = future_refines ops

-- A time-out that comes before the poll hides the result that came in time.
late_timeout :
    run new_future ops
    ≡ polled none
      ∷ woken (some 1)
      ∷ woken none
      ∷ polled (some (inr (codes "timeout")))
      ∷ polled none
      ∷ []
unfolding run step new_future finish poll
late_timeout = refl

-- The settings of the manager of the tests.
abbrev hub_args : Args
hub_args = record node_args {
  http_host = some (codes "hub.example.com");
  cloudflare_email = some (codes "e");
  cloudflare_api_key = some (codes "a");
  cluster_node_role = some (codes "CellServer");
  cluster_node_stage = some (codes "dev");
  cluster_json_s3_bucket = some (codes "b");
  cluster_json_s3_key = some (codes "k");
  access_log_path = some (codes "access.log");
}

abbrev named : NamedRecords (List Slot) Bytes
named = record { list_named = λ n zone name. none; update_record = λ n zone id label a. (n, false) }

-- No logger can be built for a path of no characters.
abbrev machine : Machine (List Slot)
machine = record {
  binds_udp = λ n. true;
  sets_role = true;
  builds_logger = λ n path. not (length path == 0);
}

hub_manages : start (set_other_args node_id hub_args) ≡ manages manager
unfolding start new_manager set_other_args
hub_manages = refl

hub-IsWordSized : IsWordSized (config_of (set_other_args node_id hub_args))
unfolding set_other_args
hub-IsWordSized = record { total = omega arith; by_url = omega arith }

main-serves_example :
    let ran = main aws toy named node_id answer machine (set_other_args node_id hub_args) net in
    (r : Running) × (ran.1 ≡ some r)
    × Inv r.state
    × (r.cluster_manager ≡ some manager)
    × (r.cluster_client
        ≡ some (
            Node.new_client
              (get_node_host node_id (codes "192.0.2.1") (codes "hub.example.com"))
              (codes "hub.example.com")))
    × ((run_update_dns toy node_id manager ran.0 Services.nodes).0 ≡ ran.0)
main-serves_example =
    main-serves aws toy named node_id answer machine hub_args manager (codes "192.0.2.1") toy_zone
      reliable toy_laws (λ ip. refl) host_dotless host_prefixed refl refl hub_manages
      hub-IsWordSized (λ n. refl) refl (λ n. refl) net Services.nodes nodes_read

-- With such a path `main` panics.
main_panics :
    (main aws toy named node_id answer machine (record args { access_log_path = some [] }) net).1
    ≡ none
unfolding main start set_up_dns set_up_servers open_state
main_panics = refl

-- ===== src/Hub/Main/Serving.antt =====
-- When `main` gets to serve, and with what.
use verse_entrance_server.Base.{
  ℕ, ◌≡◌, refl, sym, ap, subst, ◌∙◌, ◌≢◌, inl, inr, Bool, true, false, Option, none, some, List, [],
  Option-cases, length, Bytes, codes, starts_with,
}
use verse_entrance_server.Cluster.Func.{node_id_len, split_host, get_node_host}
use verse_entrance_server.Cluster.Node
use verse_entrance_server.Cluster.Node.{NodeListNode}
use verse_entrance_server.Cluster.Cf.{NameServer, Outcome, ok}
use verse_entrance_server.Cluster.Manager.{Node}
use verse_entrance_server.Cluster.Cf.Laws.{Laws}
use verse_entrance_server.Cluster.Manager.Run.{Aws, Manager, get_nodes, update, run_update_dns}
use verse_entrance_server.Cluster.Manager.Reliable.{Reliable, update-repairs}
use verse_entrance_server.Hub.Args.{Args, set_other_args}
use verse_entrance_server.Hub.State.{Config, State, new_state, open_state}
use verse_entrance_server.Hub.State.Invariant.{Inv, IsWordSized, new_state-Inv}
use verse_entrance_server.Hub.Start.{Start, manages, sets_arecord, no_dns, start, create_client}
use verse_entrance_server.Hub.Start.Cluster.{create_client-node}
use verse_entrance_server.Hub.Dns.{NamedRecords, set_arecord}
use verse_entrance_server.Hub.NodeList.{start_client}
use verse_entrance_server.Hub.ApiServer.{listening}
use verse_entrance_server.Hub.Main.{
  config_of, Machine, Running, kept, set_up_dns, set_up_servers, go_on, main,
}

module _ {Net Addr : Type 0} (aws : Aws Net) (ns : NameServer Net Addr)
    (named : NamedRecords Net Addr) (node_id : Bytes → Bytes)
    (answer : ℕ → Option (List NodeListNode)) (machine : Machine Net) where
  -- No setting that `main` takes for given is missing, and the requests to the name server that the
  -- settings ask for have succeeded.
  pub data DnsIsSet (a : Args) (net after : Net) : Type 0 where
    by_manager :
        (m : Manager)
        → start a ≡ manages m
        → update aws ns node_id m net ≡ (after, ok)
        → DnsIsSet a net after
    by_record :
        (http_host public_ip email api_key : Bytes)
        → start a ≡ sets_arecord http_host public_ip email api_key
        → set_arecord ns named net http_host public_ip email api_key ≡ (after, ok)
        → DnsIsSet a net after
    not_asked : start a ≡ no_dns → net ≡ after → DnsIsSet a net after

  -- Whether there is no access log to write, or a logger for it can be built.
  abbrev pub can_log : Net → Option Bytes → Bool
  can_log after none = true
  can_log after (some path) = machine.builds_logger after path

  -- What `main` needs besides the name server.
  pub record Startable (a : Args) (after : Net) : Type 0 where
    pub has_udp : machine.binds_udp after ≡ true
    pub has_role : machine.sets_role ≡ true
    pub client : Option Node.Client
    pub distinct_hosts : create_client a ≡ some client
    pub logs : can_log after a.access_log_path ≡ true

  can_log-open_state :
      (after : Net) (path : Option Bytes) (c : Config)
      → can_log after path ≡ true
      → open_state (machine.builds_logger after) path c ≡ some (new_state c)
  unfolding open_state
  can_log-open_state after none c e = refl
  can_log-open_state after (some path) c e = rw e

  abbrev running : Args → Option Manager → Option Node.Client → Running
  running a manager client = record {
    state = new_state (config_of a);
    cluster_manager = manager;
    cluster_client = client;
    loading = start_client answer a client;
    api = listening a;
    status_port = a.status_port;
  }

  Startable-set_up_servers :
      (a : Args) (after : Net) (manager : Option Manager) (s : Startable a after)
      → set_up_servers answer machine a after manager ≡ some (running a manager s.client)
  unfolding set_up_servers
  Startable-set_up_servers a after manager s =
      rw
        (
          s.has_udp,
          s.has_role,
          s.distinct_hosts,
          can_log-open_state after a.access_log_path (config_of a) s.logs,
          set_up_servers,
        )
        refl

  set_other_args-access_log_path :
      (a : Args) → (set_other_args node_id a).access_log_path ≡ a.access_log_path
  unfolding set_other_args
  set_other_args-access_log_path a = elim (Option-cases a.http_host) [
    | inl h ↦ rw h
    | inr (http_host, h) ↦ elim (Option-cases a.public_ip) [
      | inl i ↦ rw (h, i)
      | inr (public_ip, i) ↦ rw (h, i)
    ]
  ]

  -- Let the settings of a node, as they are loaded, make a manager for its host, and give the host and a
  -- public address, with limits below the word size. Let the UDP port be free, the WebRTC library take its
  -- role, a logger be built where the settings give the path of an access log, the name server keep its
  -- laws and no request fail, node ids have 16 characters, and the host have three labels at least and
  -- not begin with a dot. Then `main` reaches the start of its servers: its state satisfies the
  -- invariant, it has that manager and a client of the node's own name, and what it leaves at the name
  -- server needs no change for the nodes that were read.
  pub main-serves :
      (a : Args) (m : Manager) (public_ip zone_id : Bytes) (reliable : Reliable aws ns m zone_id)
      → Laws ns (split_host m.cluster_host).1 zone_id
      → ((ip : Bytes) → length (node_id ip) ≡ node_id_len)
      → starts_with m.cluster_host (codes ".") ≡ false
      → (split_host m.cluster_host).0 ≢ []
      → a.http_host ≡ some m.cluster_host
      → a.public_ip ≡ some public_ip
      → start (set_other_args node_id a) ≡ manages m
      → IsWordSized (config_of (set_other_args node_id a))
      → ((n : Net) → machine.binds_udp n ≡ true)
      → machine.sets_role ≡ true
      → ((n : Net) → can_log n a.access_log_path ≡ true)
      → (net : Net) (nodes : List Node) → get_nodes aws m net ≡ some nodes
      → let ran = main aws ns named node_id answer machine (set_other_args node_id a) net in
        (r : Running) × (ran.1 ≡ some r)
        × Inv r.state
        × (r.cluster_manager ≡ some m)
        × (r.cluster_client
            ≡ some
                (Node.new_client (get_node_host node_id public_ip m.cluster_host) m.cluster_host))
        × ((run_update_dns ns node_id m ran.0 nodes).0 ≡ ran.0)
  unfolding main set_up_dns
  main-serves a m public_ip zone_id reliable laws lengths dotless prefixed h i st w free role logs
        net nodes g =
      let b : Args = set_other_args node_id a in
      let client : Option Node.Client =
        some (Node.new_client (get_node_host node_id public_ip m.cluster_host) m.cluster_host) in
      let after : Net = (update aws ns node_id m net).0 in
      let logs_after : can_log after b.access_log_path ≡ true =
        ap (can_log after) (set_other_args-access_log_path a) ∙ logs after in
      let (fine, settled) =
        update-repairs aws ns m zone_id reliable node_id laws lengths dotless prefixed net nodes
          g in
      let ran : main aws ns named node_id answer machine b net
          ≡ (after, some (running b (some m) client)) =
        ap
          (λ (s : Start).
            go_on aws ns named node_id answer machine b (set_up_dns aws ns named node_id s net))
          st
        ∙ ap
            (λ (o : Outcome).
              go_on aws ns named node_id answer machine b (kept (some m) (after, o)))
            fine
        ∙ ap (λ (r : Option Running). (after, r))
            (Startable-set_up_servers b after (some m) (record {
              has_udp = free after;
              has_role = role;
              client = client;
              distinct_hosts =
                  create_client-node node_id a m.cluster_host public_ip lengths dotless h i;
              logs = logs_after;
            })) in
      subst
        (λ (p : Net × Option Running).
          (r : Running) × (p.1 ≡ some r)
          × Inv r.state
          × (r.cluster_manager ≡ some m)
          × (r.cluster_client ≡ client)
          × ((run_update_dns ns node_id m p.0 nodes).0 ≡ p.0))
        (sym ran)
        (running b (some m) client, refl, new_state-Inv (config_of b) w, refl, refl, settled)

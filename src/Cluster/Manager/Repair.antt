-- ===== src/Cluster/Manager/Repair.antt =====
-- `update_dns` of cluster/src/manager.rs as a whole: what holds after a run that succeeds, whatever an
-- earlier run that failed half way left behind.
use verse_entrance_server.Base.{
  ◌≡◌, refl, sym, ap, ◌∙◌, ◌≢◌, inl, inr, true, false, Option, none, some, List, [], ◌∷◌, arith,
  Bool-cases, Option-cases, unwrap_or, length, In, Bytes, codes, bytes_eq, bytes_eq_sound,
  starts_with,
}
use verse_entrance_server.Cluster.Func.{node_id_len, split_host}
use verse_entrance_server.Cluster.Manager.{CfARecord, Node, diff_records, split_records, is_single}
use verse_entrance_server.Cluster.Manager.Groups.{groups_of}
use verse_entrance_server.Cluster.Manager.Loops.{
  no_difference, no_difference-covered, no_difference-current,
}
use verse_entrance_server.Cluster.Manager.Update.{DnsCall, update_dns, IsOwn}
use verse_entrance_server.Cluster.Manager.Run.{execute, Manager, run_update_dns, ips_of_nodes}
use verse_entrance_server.Cluster.Manager.Effects.{view}
use verse_entrance_server.Cluster.Manager.Converge.{execute-settles, no_calls}
use verse_entrance_server.Cluster.Cf.{
  NameServer, DnsRecord, arecords, get_arecords, get_zone_id, Outcome, ok, err, Failure,
  request_failed, zone_not_found,
}
use verse_entrance_server.Cluster.Cf.Laws.{Laws}

failed : {f : Failure} → err f ≡ ok → ⊥
failed e = cc

module _ {Net Addr : Type 0} (ns : NameServer Net Addr) (node_id : Bytes → Bytes) (m : Manager)
    (zone_id : Bytes) (laws : Laws ns (split_host m.cluster_host).1 zone_id) where
  -- The A records of the zone as the name server has them.
  abbrev pub zone_records : Net → List CfARecord
  zone_records net = view ns (split_host m.cluster_host).1 zone_id laws net

  get_zone_id-zone :
      (net : Net) (z : Bytes)
      → get_zone_id ns net (split_host m.cluster_host).1 ≡ some (some z)
      → z ≡ zone_id
  unfolding get_zone_id
  get_zone_id-zone net z e = elim (Option-cases (ns.list_zones net (split_host m.cluster_host).1)) [
    | inl f ↦ absurd (ground arith)
    | inr ([], f) ↦ absurd (ground arith)
    | inr (x ∷ [], f) ↦
        ap (λ (o : Option (Option Bytes)). unwrap_or (unwrap_or o none) z)
          (sym (rw (f, get_zone_id) at e))
        ∙ laws.zone net x f
    | inr (x ∷ y ∷ zs, f) ↦ absurd (ground arith)
  ]

  get_arecords-view :
      (net : Net) (l : List CfARecord) → get_arecords ns net zone_id ≡ some l → l ≡ zone_records net
  unfolding get_arecords
  get_arecords-view net l e = elim (Option-cases (ns.list_records net zone_id)) [
    | inl f ↦ absurd (ground arith)
    | inr (ds, f) ↦
        ap (λ (o : Option (List CfARecord)). unwrap_or o l) (sym (rw (f, get_arecords) at e))
        ∙ ap (λ (k : List (DnsRecord Addr)). arecords ns k) (laws.listed net ds f)
  ]

  abbrev calls : Net → List Node → List DnsCall
  calls net nodes = update_dns node_id (zone_records net) m.cluster_host (ips_of_nodes nodes)

  abbrev pub run_dns : Net → List Node → Net × Outcome
  run_dns net nodes = run_update_dns ns node_id m net nodes

  -- A run either stops before its first call, or carries the calls out.
  data Ran (net : Net) (nodes : List Node) : Net × Outcome → Type 0 where
    stopped : (f : Failure) → Ran net nodes (net, err f)
    carried_out : Ran net nodes (execute ns zone_id net (calls net nodes))

  run_dns-Ran : (net : Net) (nodes : List Node) → Ran net nodes (run_dns net nodes)
  unfolding run_update_dns
  run_dns-Ran net nodes = elim (Bool-cases (ns.connects net m.cf_auth)) [
    | inr off ↦ rw off (stopped request_failed)
    | inl on ↦ elim (Option-cases (get_zone_id ns net (split_host m.cluster_host).1)) [
      | inl f ↦ rw (on, f, run_update_dns) (stopped request_failed)
      | inr (none, f) ↦ rw (on, f, run_update_dns) (stopped zone_not_found)
      | inr (some z, f) ↦
          let here : get_zone_id ns net (split_host m.cluster_host).1 ≡ some (some zone_id) =
            f ∙ ap (λ (w : Bytes). some (some w)) (get_zone_id-zone net z f) in
          elim (Option-cases (get_arecords ns net zone_id)) [
            | inl g ↦ rw (on, here, g, run_update_dns) (stopped request_failed)
            | inr (l, g) ↦ rw (on, here, g, get_arecords-view net l g, run_update_dns) carried_out
          ]
    ]
  ]

  Ran-idle :
      (net : Net) (nodes : List Node) (p : Net × Outcome)
      → Ran net nodes p
      → calls net nodes ≡ []
      → p.0 ≡ net
  unfolding execute
  Ran-idle net nodes p (stopped f) e = refl
  Ran-idle net nodes p carried_out e = ap (λ (cs : List DnsCall). (execute ns zone_id net cs).0) e

  module _ (node_id_length : (ip : Bytes) → length (node_id ip) ≡ node_id_len)
      (dotless : starts_with m.cluster_host (codes ".") ≡ false)
      (prefixed : (split_host m.cluster_host).0 ≢ []) where
    Ran-settled :
        (net : Net) (nodes : List Node) (p : Net × Outcome)
        → Ran net nodes p
        → p.1 ≡ ok
        → (diff_records
              (groups_of (zone_records p.0) m.cluster_host).cluster_records
              (ips_of_nodes nodes)
            ≡ no_difference)
          × (diff_records
                (groups_of (zone_records p.0) m.cluster_host).single_records
                (ips_of_nodes nodes)
              ≡ no_difference)
    Ran-settled net nodes p (stopped f) e = absurd (failed e)
    Ran-settled net nodes p carried_out e =
        execute-settles ns node_id node_id_length m.cluster_host zone_id laws dotless prefixed net
          (ips_of_nodes nodes) e

    -- Let the name server keep its laws, node ids have 16 characters, and the cluster's host have three
    -- labels at least and not begin with a dot. After a run of `update_dns` that succeeds, a second one
    -- for the same nodes changes nothing, whether it succeeds or not.
    pub update_dns-settles :
        (net : Net) (nodes : List Node)
        → (run_dns net nodes).1 ≡ ok
        → (run_dns (run_dns net nodes).0 nodes).0 ≡ (run_dns net nodes).0
    update_dns-settles net nodes e =
        let after = (run_dns net nodes).0 in
        let (p, q) = Ran-settled net nodes (run_dns net nodes) (run_dns-Ran net nodes) e in
        Ran-idle after nodes (run_dns after nodes) (run_dns-Ran after nodes) (
          no_calls ns node_id node_id_length m.cluster_host zone_id laws dotless prefixed after
            (ips_of_nodes nodes) p q)

    -- Let the name server keep its laws, node ids have 16 characters, and the cluster's host have three
    -- labels at least and not begin with a dot. After a run of `update_dns` that succeeds, every node's address has a
    -- record under the cluster's host, and one of the form of a single node's.
    pub update_dns-covers :
        (net : Net) (nodes : List Node) (ip : Bytes)
        → (run_dns net nodes).1 ≡ ok
        → In ip (ips_of_nodes nodes)
        → ((r : CfARecord) × In r (zone_records (run_dns net nodes).0)
            × (r.name ≡ m.cluster_host)
            × (r.ip ≡ ip))
          × ((r : CfARecord) × In r (zone_records (run_dns net nodes).0)
              × (is_single (split_host m.cluster_host).0 (split_host m.cluster_host).1 r.name
                  ≡ true)
              × (r.ip ≡ ip))
    unfolding split_records
    update_dns-covers net nodes ip e k =
        let after = zone_records (run_dns net nodes).0 in
        let (p, q) = Ran-settled net nodes (run_dns net nodes) (run_dns-Ran net nodes) e in
        let (r, l, n, i) =
          no_difference-covered (λ x. bytes_eq x.name m.cluster_host) after (ips_of_nodes nodes) p
            ip k in
        (
          (r, l, bytes_eq_sound r.name m.cluster_host n, i),
          no_difference-covered
              (λ x. is_single (split_host m.cluster_host).0 (split_host m.cluster_host).1 x.name)
              after (ips_of_nodes nodes) q ip k,
        )

    -- Let the name server keep its laws, node ids have 16 characters, and the cluster's host have three
    -- labels at least and not begin with a dot. After a run of `update_dns` that succeeds, every record of the cluster
    -- has the address of a node.
    update_dns-current :
        (net : Net) (nodes : List Node) (r : CfARecord)
        → (run_dns net nodes).1 ≡ ok
        → In r (zone_records (run_dns net nodes).0)
        → IsOwn m.cluster_host r
        → In r.ip (ips_of_nodes nodes)
    unfolding split_records
    update_dns-current net nodes r e k own =
        let after = zone_records (run_dns net nodes).0 in
        let (p, q) = Ran-settled net nodes (run_dns net nodes) (run_dns-Ran net nodes) e in
        elim own [
          | inl h ↦
              no_difference-current (λ x. bytes_eq x.name m.cluster_host) after (ips_of_nodes nodes)
                p r k h
          | inr h ↦
              no_difference-current
                (λ x. is_single (split_host m.cluster_host).0 (split_host m.cluster_host).1 x.name)
                after (ips_of_nodes nodes) q r k h
        ]

-- ===== src/Cluster/Manager/Reliable.antt =====
-- `update` of cluster/src/manager.rs while no request fails.
use verse_entrance_server.Base.{
  ◌≡◌, refl, sym, ap, subst, ◌∙◌, ◌≢◌, inl, inr, Bool, true, false, some, List, [], ◌∷◌, ◌++◌,
  length, retain, All, In, Bytes, codes, bytes_eq, starts_with,
}
use verse_entrance_server.Cluster.Func.{node_id_len, split_host, get_node_prefix}
use verse_entrance_server.Cluster.Node.{NodeListNode}
use verse_entrance_server.Cluster.Manager.{
  CfARecord, Node, diff_records, split_records, cluster_nodes, is_single,
}
use verse_entrance_server.Cluster.Manager.Loops.{adds-current}
use verse_entrance_server.Cluster.Manager.Update.{
  DnsCall, delete_arecord, add_arecord, deletions, additions, loops, update_dns,
}
use verse_entrance_server.Cluster.Manager.Run.{
  Aws, call, execute, Manager, update, get_nodes, update_cluster_json, run_update_dns, ips_of_nodes,
}
use verse_entrance_server.Cluster.Manager.Repair.{update_dns-settles}
use verse_entrance_server.Cluster.Cf.{
  NameServer, DnsRecord, arecords, get_arecords, get_zone_id, Outcome, ok, err, and_then, checked,
  Failure, request_failed, zone_not_found,
}
use verse_entrance_server.Cluster.Cf
use verse_entrance_server.Cluster.Cf.Laws.{Laws}

-- No request fails, the zone is there, and the instances' addresses are IPv4 addresses.
pub record Reliable {Net Addr : Type 0} (aws : Aws Net) (ns : NameServer Net Addr) (m : Manager)
    (zone_id : Bytes) : Type 0 where
  pub prints : (l : List NodeListNode) → (js : Bytes) × (aws.print_json l ≡ some js)
  pub puts :
      (net : Net) (js : Bytes)
      → (aws.put_object net m.cluster_json_s3_path.bucket m.cluster_json_s3_path.key js).1 ≡ true
  pub connects : (net : Net) → ns.connects net m.cf_auth ≡ true
  pub zones : (net : Net) → ns.list_zones net (split_host m.cluster_host).1 ≡ some (zone_id ∷ [])
  pub lists : (net : Net) → (l : List (DnsRecord Addr)) × (ns.list_records net zone_id ≡ some l)
  pub deletes : (net : Net) (id : Bytes) → (ns.delete_record net zone_id id).1 ≡ true
  pub creates :
      (net : Net) (prefix : Bytes) (a : Addr) → (ns.create_record net zone_id prefix a).1 ≡ true
  pub parses :
      (net : Net) (nodes : List Node) (ip : Bytes)
      → get_nodes aws m net ≡ some nodes
      → In ip (ips_of_nodes nodes)
      → (a : Addr) × (ns.parse_addr ip ≡ some a)

checked-true : {Net : Type 0} (p : Net × Bool) → p.1 ≡ true → (checked p).1 ≡ ok
checked-true (net, true) e = refl
checked-true (net, false) e = cc

and_then-both :
    {Net : Type 0} (p : Net × Outcome) (next : Net → Net × Outcome)
    → p.1 ≡ ok
    → and_then p next ≡ next p.0
and_then-both (net, ok) next e = refl
and_then-both (net, err f) next e = cc

module _ {Net Addr : Type 0} (aws : Aws Net) (ns : NameServer Net Addr) (m : Manager)
    (zone_id : Bytes) (r : Reliable aws ns m zone_id) where
  -- A call that the name server can carry out.
  abbrev Callable : DnsCall → Type 0
  Callable (delete_arecord id) = Unit
  Callable (add_arecord prefix ip) = (a : Addr) × (ns.parse_addr ip ≡ some a)

  call-ok : (net : Net) (c : DnsCall) → Callable c → (call ns zone_id net c).1 ≡ ok
  unfolding Cf.delete_arecord Cf.add_arecord
  call-ok net (delete_arecord id) h =
      checked-true (ns.delete_record net zone_id id) (r.deletes net id)
  call-ok net (add_arecord prefix ip) (a, e) =
      rw (e, Cf.add_arecord)
        (checked-true (ns.create_record net zone_id prefix a) (r.creates net prefix a))

  execute-ok :
      (net : Net) (cs : List DnsCall) → All Callable cs → (execute ns zone_id net cs).1 ≡ ok
  unfolding execute
  execute-ok net [] h = refl
  execute-ok net (c ∷ cs) (h, hs) =
      let first = call ns zone_id net c in
      ap (λ (p : Net × Outcome). p.1)
        (and_then-both first (λ after. execute ns zone_id after cs) (call-ok net c h))
      ∙ execute-ok first.0 cs hs

  All-append : (xs ys : List DnsCall) → All Callable xs → All Callable ys → All Callable (xs ++ ys)
  All-append [] ys h k = k
  All-append (x ∷ xs) ys (h, hs) k = (h, All-append xs ys hs k)

  deletions-Callable : (dels : List CfARecord) → All Callable (deletions dels)
  deletions-Callable [] = tt
  deletions-Callable (d ∷ dels) = (tt, deletions-Callable dels)

  additions-Callable :
      (prefix_of : Bytes → Bytes) (ips : List Bytes)
      → ((ip : Bytes) → In ip ips → (a : Addr) × (ns.parse_addr ip ≡ some a))
      → All Callable (additions prefix_of ips)
  additions-Callable prefix_of [] h = tt
  additions-Callable prefix_of (ip ∷ ips) h =
      (h ip (inl refl), additions-Callable prefix_of ips (λ j k. h j (inr k)))

  loops-Callable :
      (prefix_of : Bytes → Bytes) (t : CfARecord → Bool) (records : List CfARecord)
      (ips : List Bytes)
      → ((ip : Bytes) → In ip ips → (a : Addr) × (ns.parse_addr ip ≡ some a))
      → All Callable (loops prefix_of (diff_records (retain t records) ips))
  loops-Callable prefix_of t records ips h =
      let d = diff_records (retain t records) ips in
      All-append (deletions d.dels) (additions prefix_of d.adds) (deletions-Callable d.dels)
        (additions-Callable prefix_of d.adds (λ ip k. h ip (adds-current t records ips ip k)))

  module _ (node_id : Bytes → Bytes) where
    run_dns-ok :
        (net : Net) (nodes : List Node)
        → ((ip : Bytes) → In ip (ips_of_nodes nodes) → (a : Addr) × (ns.parse_addr ip ≡ some a))
        → (run_update_dns ns node_id m net nodes).1 ≡ ok
    unfolding run_update_dns get_zone_id get_arecords update_dns split_records
    run_dns-ok net nodes h =
        let (ds, e) = r.lists net in
        rw (r.connects net, r.zones net, e, run_update_dns)
          (execute-ok net (update_dns node_id (arecords ns ds) m.cluster_host (ips_of_nodes nodes))
            (All-append _ _
              (loops-Callable (λ ip. (split_host m.cluster_host).0)
                (λ x. bytes_eq x.name m.cluster_host) (arecords ns ds) (ips_of_nodes nodes) h)
              (loops-Callable (λ ip. get_node_prefix node_id ip m.cluster_host)
                (λ x. is_single (split_host m.cluster_host).0 (split_host m.cluster_host).1 x.name)
                (arecords ns ds) (ips_of_nodes nodes) h)))

    -- Let the name server keep its laws and no request fail, node ids have 16 characters, and the
    -- cluster's host have three labels at least and not begin with a dot. Whatever the state, one that
    -- an update which failed half way left behind included, `update` succeeds, and afterwards
    -- `update_dns` for the nodes that it read has nothing to change.
    pub update-repairs :
        (laws : Laws ns (split_host m.cluster_host).1 zone_id)
        → ((ip : Bytes) → length (node_id ip) ≡ node_id_len)
        → starts_with m.cluster_host (codes ".") ≡ false
        → (split_host m.cluster_host).0 ≢ []
        → (net : Net) (nodes : List Node) → get_nodes aws m net ≡ some nodes
        → ((update aws ns node_id m net).1 ≡ ok)
          × ((run_update_dns ns node_id m (update aws ns node_id m net).0 nodes).0
              ≡ (update aws ns node_id m net).0)
    unfolding update update_cluster_json
    update-repairs laws lengths dotless prefixed net nodes e =
        let (js, printed) = r.prints (cluster_nodes node_id m.cluster_host nodes) in
        let put = aws.put_object net m.cluster_json_s3_path.bucket m.cluster_json_s3_path.key js in
        let next = λ (after : Net). run_update_dns ns node_id m after nodes in
        let whole : update aws ns node_id m net ≡ next (checked put).0 =
          rw (e, printed, update, update_cluster_json)
            (and_then-both (checked put) next (checked-true put (r.puts net js))) in
        let fine : (next (checked put).0).1 ≡ ok =
          run_dns-ok (checked put).0 nodes (λ ip k. r.parses net nodes ip e k) in
        subst
          (λ (p : Net × Outcome). (p.1 ≡ ok) × ((run_update_dns ns node_id m p.0 nodes).0 ≡ p.0))
          (sym whole)
          (
            fine,
            update_dns-settles ns node_id m zone_id laws lengths dotless prefixed (checked put).0
                nodes fine,
          )

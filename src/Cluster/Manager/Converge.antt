-- ===== src/Cluster/Manager/Converge.antt =====
-- Where `update` of cluster/src/manager.rs leads: a run that ends well leaves nothing for the next.
use verse_entrance_server.Base.{
  ◌≡◌, refl, sym, ap, ap₂, subst, ◌∙◌, ◌≢◌, false, List, [], ◌∷◌, ◌++◌, length, Bytes, codes,
  starts_with,
}
use verse_entrance_server.Cluster.Func.{node_id_len, split_host, get_node_prefix}
use verse_entrance_server.Cluster.Manager.{CfARecord, diff_records, split_records}
use verse_entrance_server.Cluster.Manager.Groups.{groups_of}
use verse_entrance_server.Cluster.Manager.Loops.{no_difference, Adds}
use verse_entrance_server.Cluster.Manager.Settled.{Loops, cluster_settled, single_settled}
use verse_entrance_server.Cluster.Manager.Update.{DnsCall, deletions, additions, loops, update_dns}
use verse_entrance_server.Cluster.Manager.Run.{execute, call}
use verse_entrance_server.Cluster.Manager.Effects.{
  and_then-ok, view, view_unique, execute-Deletes, execute-Adds,
}
use verse_entrance_server.Cluster.Cf.{NameServer, Outcome, ok, err, and_then}
use verse_entrance_server.Cluster.Cf.Laws.{Laws}
use verse_entrance_server.Cluster.Manager.Names.{
  tc, ts, cluster_named, single_named, node_prefixed, apart,
}

and_then_assoc :
    {Net : Type 0} (p : Net × Outcome) (f g h : Net → Net × Outcome)
    → ((n : Net) → f n ≡ and_then (g n) h)
    → and_then p f ≡ and_then (and_then p g) h
and_then_assoc (n, ok) f g h e = e n
and_then_assoc (n, err x) f g h e = refl

module _ {Net Addr : Type 0} (ns : NameServer Net Addr) (zone_id : Bytes) where
  execute-append :
      (net : Net) (xs ys : List DnsCall)
      → execute ns zone_id net (xs ++ ys)
        ≡ and_then (execute ns zone_id net xs) (λ n. execute ns zone_id n ys)
  unfolding execute
  execute-append net [] ys = refl
  execute-append net (x ∷ xs) ys =
      and_then_assoc (call ns zone_id net x) (λ n. execute ns zone_id n (xs ++ ys))
        (λ n. execute ns zone_id n xs) (λ n. execute ns zone_id n ys) (λ n. execute-append n xs ys)

  -- A sequence that ends well ran its first part well, and the second one from there.
  execute-split :
      (net : Net) (xs ys : List DnsCall)
      → (execute ns zone_id net (xs ++ ys)).1 ≡ ok
      → ((execute ns zone_id net xs).1 ≡ ok)
        × (execute ns zone_id net (xs ++ ys) ≡ execute ns zone_id (execute ns zone_id net xs).0 ys)
  execute-split net xs ys e =
      let (first, rest) =
        and_then-ok (execute ns zone_id net xs) (λ n. execute ns zone_id n ys)
          (ap (λ (p : Net × Outcome). p.1) (sym (execute-append net xs ys)) ∙ e) in
      (first, execute-append net xs ys ∙ rest)

module _ {Net Addr : Type 0} (ns : NameServer Net Addr) (node_id : Bytes → Bytes)
    (node_id_length : (ip : Bytes) → length (node_id ip) ≡ node_id_len) (host zone_id : Bytes)
    (laws : Laws ns (split_host host).1 zone_id) (dotless : starts_with host (codes ".") ≡ false)
    (prefixed : (split_host host).0 ≢ []) where
  abbrev seen : Net → List CfARecord
  seen net = view ns (split_host host).1 zone_id laws net

  abbrev run_calls : Net → List DnsCall → Net × Outcome
  run_calls net cs = execute ns zone_id net cs

  execute-Loops :
      (net : Net) (ips : List Bytes)
      → (run_calls net (update_dns node_id (seen net) host ips)).1 ≡ ok
      → (l1 l2 l3 : List CfARecord) × Loops
          (tc node_id node_id_length host dotless)
          (ts node_id node_id_length host dotless)
          ips
          (seen net)
          l1
          l2
          l3
          (seen (run_calls net (update_dns node_id (seen net) host ips)).0)
  unfolding update_dns split_records
  execute-Loops net ips e =
      let d1 = diff_records (groups_of (seen net) host).cluster_records ips in
      let d2 = diff_records (groups_of (seen net) host).single_records ips in
      let f1 = λ (ip : Bytes). (split_host host).0 in
      let f2 = λ (ip : Bytes). get_node_prefix node_id ip host in
      let (e_a, s_a) = execute-split ns zone_id net (loops f1 d1) (loops f2 d2) e in
      let (e_1, s_1) =
        execute-split ns zone_id net (deletions d1.dels) (additions f1 d1.adds) e_a in
      let n1 = (run_calls net (deletions d1.dels)).0 in
      let n2 = (run_calls net (loops f1 d1)).0 in
      let (e_3, s_3) =
        execute-split ns zone_id n2 (deletions d2.dels) (additions f2 d2.adds) (rw s_a at e) in
      let n3 = (run_calls n2 (deletions d2.dels)).0 in
      let base = (split_host host).1 in
      let clustered = tc node_id node_id_length host dotless in
      let single = ts node_id node_id_length host dotless in
      let a_1 =
        execute-Adds ns base zone_id laws clustered f1 (λ ip. prefixed)
          (λ ip r n. cluster_named node_id node_id_length host dotless r prefixed n) n1 d1.adds
          (rw s_1 at e_a) in
      let a_2 =
        execute-Adds ns base zone_id laws single f2
          (node_prefixed node_id node_id_length host dotless)
          (single_named node_id node_id_length host dotless) n3 d2.adds (rw s_3 at (rw s_a at e)) in
      let end' : run_calls net (loops f1 d1 ++ loops f2 d2) ≡ run_calls n3 (additions f2 d2.adds) =
        s_a ∙ s_3 in
      (
        seen n1,
        seen n2,
        seen n3,
        subst
            (λ (p : Net × Outcome).
              Loops clustered single ips (seen net) (seen n1) (seen n2) (seen n3) (seen p.0))
            (sym end')
            record {
              disjoint = apart node_id node_id_length host dotless;
              unique_0 = view_unique ns base zone_id laws net;
              unique_2 = view_unique ns base zone_id laws n2;
              dels_1 = execute-Deletes ns base zone_id laws net d1.dels e_1;
              adds_1 =
                  subst (λ (p : Net × Outcome). Adds clustered d1.adds (seen n1) (seen p.0))
                    (sym s_1) a_1;
              dels_2 = execute-Deletes ns base zone_id laws n2 d2.dels e_3;
              adds_2 = a_2;
            },
      )

  -- After calls that all succeeded neither group differs from the addresses.
  pub execute-settles :
      (net : Net) (ips : List Bytes)
      → (run_calls net (update_dns node_id (seen net) host ips)).1 ≡ ok
      → (diff_records
            (groups_of
              (seen (run_calls net (update_dns node_id (seen net) host ips)).0)
              host).cluster_records
            ips
          ≡ no_difference)
        × (diff_records
              (groups_of
                (seen (run_calls net (update_dns node_id (seen net) host ips)).0)
                host).single_records
              ips
            ≡ no_difference)
  unfolding split_records
  execute-settles net ips e =
      let (l1, l2, l3, v) = execute-Loops net ips e in
      let l4 = seen (run_calls net (update_dns node_id (seen net) host ips)).0 in
      let clustered = tc node_id node_id_length host dotless in
      let single = ts node_id node_id_length host dotless in
      (
        cluster_settled clustered single ips (seen net) l1 l2 l3 l4 v,
        single_settled clustered single ips (seen net) l1 l2 l3 l4 v,
      )

  pub no_calls :
      (net : Net) (ips : List Bytes)
      → diff_records (groups_of (seen net) host).cluster_records ips ≡ no_difference
      → diff_records (groups_of (seen net) host).single_records ips ≡ no_difference
      → update_dns node_id (seen net) host ips ≡ []
  unfolding update_dns
  no_calls net ips p q =
      ap₂
        (λ d e.
          loops (λ (ip : Bytes). (split_host host).0) d
          ++ loops (λ (ip : Bytes). get_node_prefix node_id ip host) e)
        p q

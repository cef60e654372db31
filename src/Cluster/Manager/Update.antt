-- ===== src/Cluster/Manager/Update.antt =====
-- `update_dns` of cluster/src/manager.rs: the calls that it makes of the name server, in their order. The
-- first call that fails ends it, so what is done is a first part of the list.
use verse_entrance_server.Base.{
  ◌≡◌, refl, ap, ◌⊎◌, inl, inr, true, false, not, List, [], ◌∷◌, ◌++◌, arith, In, In-append_cases,
  Bytes, bytes_eq,
}
use verse_entrance_server.Cluster.Func.{split_host, get_node_prefix}
use verse_entrance_server.Cluster.Manager.{
  CfARecord, split_records, DiffResult, diff_records, has_ip, is_single,
}
use verse_entrance_server.Cluster.Manager.Groups.{groups_of}
use verse_entrance_server.Cluster.Manager.Diff.{In-retain}

-- `cf::delete_arecord` of an id, and `cf::add_arecord` of a prefix and an address.
pub data DnsCall : Type 0 where
  delete_arecord : Bytes → DnsCall
  add_arecord : Bytes → Bytes → DnsCall

abbrev pub deletions : List CfARecord → List DnsCall
deletions [] = []
deletions (r ∷ rs) = delete_arecord r.id ∷ deletions rs

abbrev pub additions : (Bytes → Bytes) → List Bytes → List DnsCall
additions prefix_of [] = []
additions prefix_of (ip ∷ ips) = add_arecord (prefix_of ip) ip ∷ additions prefix_of ips

-- One of the two loops over a difference.
abbrev pub loops : (Bytes → Bytes) → DiffResult → List DnsCall
loops prefix_of d = deletions d.dels ++ additions prefix_of d.adds

module _ (node_id : Bytes → Bytes) where
  unfoldable pub update_dns : List CfARecord → Bytes → List Bytes → List DnsCall
  unfolding split_records diff_records split_host get_node_prefix
  update_dns records cluster_host current_ips =
      let groups = groups_of records cluster_host in
      loops (λ ip. (split_host cluster_host).0) (diff_records groups.cluster_records current_ips)
      ++ loops (λ ip. get_node_prefix node_id ip cluster_host)
          (diff_records groups.single_records current_ips)

-- A record of the cluster: it has the cluster's name or one of a single node's form.
abbrev pub IsOwn : Bytes → CfARecord → Type 0
IsOwn cluster_host r =
    (bytes_eq r.name cluster_host ≡ true)
    ⊎ (is_single (split_host cluster_host).0 (split_host cluster_host).1 r.name ≡ true)

In-deletions :
    (id : Bytes) (rs : List CfARecord)
    → In (delete_arecord id) (deletions rs)
    → (r : CfARecord) × In r rs × (r.id ≡ id)
In-deletions id [] m = elim m [ ]
In-deletions id (r ∷ rs) (inl e) = (r, inl refl, ap deleted e)
  where
    deleted : DnsCall → Bytes
    deleted (delete_arecord i) = i
    deleted (add_arecord p ip) = ip
In-deletions id (r ∷ rs) (inr m) = let (q, n, e) = In-deletions id rs m in (q, inr n, e)

additions_delete_nothing :
    (id : Bytes) (prefix_of : Bytes → Bytes) (ips : List Bytes)
    → ¬ (In (delete_arecord id) (additions prefix_of ips))
additions_delete_nothing id prefix_of [] m = m
additions_delete_nothing id prefix_of (ip ∷ ips) (inl e) = different e
  where
    different : {p ip i : Bytes} → add_arecord p ip ≡ delete_arecord i → ⊥
    different k = cc
additions_delete_nothing id prefix_of (ip ∷ ips) (inr m) =
    additions_delete_nothing id prefix_of ips m

loops-delete :
    (id : Bytes) (prefix_of : Bytes → Bytes) (records : List CfARecord) (ips : List Bytes)
    → In (delete_arecord id) (loops prefix_of (diff_records records ips))
    → (r : CfARecord) × In r records × (r.id ≡ id) × (has_ip ips r.ip ≡ false)
unfolding diff_records
loops-delete id prefix_of records ips m =
    elim (In-append_cases (delete_arecord id) (deletions (diff_records records ips).dels) _ m) [
      | inl n ↦
          let (r, k, e) = In-deletions id (diff_records records ips).dels n in
          let (listed, stale) = In-retain (λ q. not (has_ip ips q.ip)) r records k in
          (r, listed, e, ground arith)
      | inr n ↦ absurd (additions_delete_nothing id prefix_of _ n)
    ]

-- Every record that `update_dns` deletes is the cluster's own and has an address that no node has.
pub update_dns-IsOwn :
    (node_id : Bytes → Bytes) (records : List CfARecord) (cluster_host id : Bytes)
    (ips : List Bytes)
    → In (delete_arecord id) (update_dns node_id records cluster_host ips)
    → (r : CfARecord) × In r records
      × (r.id ≡ id)
      × (has_ip ips r.ip ≡ false)
      × IsOwn cluster_host r
unfolding update_dns split_records
update_dns-IsOwn node_id records cluster_host id ips m =
    elim (In-append_cases (delete_arecord id)
      (loops (λ ip. (split_host cluster_host).0)
        (diff_records (groups_of records cluster_host).cluster_records ips))
      _ m) [
        | inl n ↦
            let (r, listed, e, stale) = loops-delete id _ _ ips n in
            let (k, named) = In-retain (λ q. bytes_eq q.name cluster_host) r records listed in
            (r, k, e, stale, inl named)
        | inr n ↦
            let (r, listed, e, stale) = loops-delete id _ _ ips n in
            let (k, named) =
              In-retain
                (λ q. is_single (split_host cluster_host).0 (split_host cluster_host).1 q.name) r
                records listed in
            (r, k, e, stale, inr named)
      ]

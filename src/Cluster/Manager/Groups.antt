-- ===== src/Cluster/Manager/Groups.antt =====
-- `split_records`: a node's own record is found again, and the two groups do not meet.
use verse_entrance_server.Base.{
  ℕ, ◌+◌, ◌≡◌, refl, inl, inr, Bool, true, false, List, [], ◌∷◌, ◌++◌, append_assoc, arith, length,
  In, length-append, Bytes, codes, bytes_eq, bytes_eq_refl, bytes_eq_sound, starts_with, ends_with,
  List-cases,
}
use verse_entrance_server.Cluster.Func.{
  node_id_len, split_host, get_node_host, in_domain, split_host-in_domain,
}
use verse_entrance_server.Cluster.Manager.{CfARecord, RecordGroups, is_single, split_records}
use verse_entrance_server.Cluster.Manager.Diff.{In-retain, retain-In}

starts_with_self : (xs ys : Bytes) → starts_with (xs ++ ys) xs ≡ true
unfolding starts_with
starts_with_self [] ys = refl
starts_with_self (x ∷ xs) ys = ground (arith, starts_with_self xs ys)

ends_with_self : (t : Bytes) → ends_with t t ≡ true
unfolding ends_with
ends_with_self [] = bytes_eq_refl []
ends_with_self (x ∷ xs) = rw (bytes_eq_refl (x ∷ xs))

ends_with-append : (xs t : Bytes) → ends_with (xs ++ t) t ≡ true
unfolding ends_with
ends_with-append [] t = ends_with_self t
ends_with-append (x ∷ xs) t = ground (arith, ends_with-append xs t)

lone_single :
    (id base : Bytes) → length id ≡ node_id_len → is_single [] base (id ++ codes "." ++ base) ≡ true
unfolding is_single
lone_single id base h =
    rw (append_assoc id (codes ".") base, ends_with-append id (codes "." ++ base))
      (ground (arith, length-append id (codes "." ++ base)))

-- A name `q` + `id` + "." + `base`.
module _ (q id base : Bytes) where
  abbrev name : Bytes
  name = q ++ id ++ codes "." ++ base

  length-name :
      length id ≡ node_id_len → length name ≡ node_id_len + length q + length (codes "." ++ base)
  length-name h = omega (
    arith,
    length-append (q ++ id ++ codes ".") base,
    length-append (q ++ id) (codes "."),
    length-append q id,
  )

  name_starts : starts_with name q ≡ true
  name_starts =
      rw (append_assoc (q ++ id) (codes ".") base, append_assoc q id (codes "." ++ base))
        (starts_with_self q (id ++ (codes "." ++ base)))

  name_ends : ends_with name (codes "." ++ base) ≡ true
  name_ends =
      rw (append_assoc (q ++ id) (codes ".") base) (ends_with-append (q ++ id) (codes "." ++ base))

prefixed_single :
    (c : ℕ) (cs id base : Bytes)
    → length id ≡ node_id_len
    → is_single (c ∷ cs) base ((c ∷ cs) ++ codes "-" ++ id ++ codes "." ++ base) ≡ true
unfolding is_single
prefixed_single c cs id base h = ground (
  arith,
  length-name ((c ∷ cs) ++ codes "-") id base h,
  name_starts ((c ∷ cs) ++ codes "-") id base,
  name_ends ((c ∷ cs) ++ codes "-") id base,
)

module _ (node_id : Bytes → Bytes)
    (node_id_length : (ip : Bytes) → length (node_id ip) ≡ node_id_len) where
  pub node_host_single :
      (ip cluster_host : Bytes)
      → is_single
          (split_host cluster_host).0
          (split_host cluster_host).1
          (get_node_host node_id ip cluster_host)
        ≡ true
  unfolding get_node_host
  node_host_single ip cluster_host = elim (List-cases (split_host cluster_host).0) [
    | inl e ↦
        rw (e, get_node_host)
          (lone_single (node_id ip) (split_host cluster_host).1 (node_id_length ip))
    | inr (c, cs, e) ↦
        rw (e, get_node_host)
          (prefixed_single c cs (node_id ip) (split_host cluster_host).1 (node_id_length ip))
  ]

pub cluster_host_not_single : (p base : Bytes) → is_single p base (in_domain p base) ≡ false
unfolding is_single
cluster_host_not_single [] base = ground arith
cluster_host_not_single (c ∷ cs) base = ground (
  arith,
  length-append cs (codes "-"),
  length-append (cs ++ codes ".") base,
  length-append cs (codes "."),
)

-- The groups as `update_dns` takes them.
abbrev pub groups_of : List CfARecord → Bytes → RecordGroups
groups_of records cluster_host =
    split_records records (split_host cluster_host).0 (split_host cluster_host).1 cluster_host

-- Let node ids have 16 characters. A record named for a node is in the group of single nodes.
split_records-node_host :
    (node_id : Bytes → Bytes)
    → ((ip : Bytes) → length (node_id ip) ≡ node_id_len)
    → (records : List CfARecord) (cluster_host ip : Bytes) (r : CfARecord) → In r records
    → r.name ≡ get_node_host node_id ip cluster_host
    → In r (groups_of records cluster_host).single_records
unfolding split_records
split_records-node_host node_id node_id_length records cluster_host ip r m e =
    retain-In (λ x. is_single (split_host cluster_host).0 (split_host cluster_host).1 x.name) r
      records m (rw e (node_host_single node_id node_id_length ip cluster_host))

-- Unless the cluster's host begins with a dot, no record is in both groups.
split_records-disjoint :
    (records : List CfARecord) (cluster_host : Bytes) (r : CfARecord)
    → starts_with cluster_host (codes ".") ≡ false
    → In r (groups_of records cluster_host).cluster_records
    → ¬ (In r (groups_of records cluster_host).single_records)
unfolding split_records
split_records-disjoint records cluster_host r h m k =
    clash
      (In-retain (λ x. is_single (split_host cluster_host).0 (split_host cluster_host).1 x.name) r
        records k).1
      (rw
        (bytes_eq_sound r.name cluster_host
          (In-retain (λ x. bytes_eq x.name cluster_host) r records m).1)
        (rw (split_host-in_domain cluster_host h).0 at
          (cluster_host_not_single (split_host cluster_host).0 (split_host cluster_host).1)))
  where
    clash : {b : Bool} → b ≡ true → b ≡ false → ⊥
    clash p q = cc

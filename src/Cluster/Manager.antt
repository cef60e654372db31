-- ===== src/Cluster/Manager.antt =====
-- cluster/src/manager.rs: which name server records belong to the cluster, and which ones to add and
-- delete. Sets of addresses are lists; only membership is asked of them.
pub mod Groups
pub mod Diff
pub mod Update
pub mod Loops
pub mod Run
pub mod Effects
pub mod Names
pub mod Converge
pub mod Repair
pub mod Reliable
pub mod Settled
use verse_entrance_server.Base.{
  ℕ, zero, suc, ◌+◌, ◌-◌, ◌*◌, ◌/◌, ◌%◌, ◌^◌, ◌≤◌, ◌<◌, max, min, ◌≡◌, refl, sym, ap, ap₂, subst,
  ◌∙◌, ◌≢◌, ◌↔◌, ◌⊎◌, inl, inr, Bool, true, false, ◌&&◌, ◌||◌, not, Option, none, some, List, [],
  ◌∷◌, ◌++◌, map, append_assoc, append-nil, arith, ltb, leb, ◌==◌, if◌then◌else◌, leb→le, leb-false,
  ==_iff, Bool-cases, Option-cases, unwrap_or, usize_max, dec_u64, length, retain, any, take, All,
  In, In-append_left, In-append_right, In-append_cases, length-append, length-map, length-retain-le,
  retain-append, length-take, any-append_true, Bytes, codes, bytes_eq, bytes_eq_refl,
  bytes_eq_sound, bytes_eq_iff, contains, starts_with, ends_with, lookup, insert, remove, values,
  lookup-insert, lookup-remove, insert_missing, remove_missing, remove-append, values-append,
  List-cases, get_elem?, get_elem?-In,
}
use verse_entrance_server.Cluster.Func.{node_id_len, get_node_host}
use verse_entrance_server.Cluster.Node.{NodeListNode}

-- `CfARecord` of cluster/src/cf.rs.
pub record CfARecord : Type 0 where
  pub id : Bytes
  pub name : Bytes
  pub ip : Bytes

-- `Node` of cluster/src/node_source.rs.
pub record Node : Type 0 where
  pub public_ip : Bytes

pub record RecordGroups : Type 0 where
  pub cluster_records : List CfARecord
  pub single_records : List CfARecord

-- The test of `split_records` for the record of a single node.
unfoldable pub is_single : Bytes → Bytes → Bytes → Bool
is_single [] base_domain name =
    length name == node_id_len + length (codes "." ++ base_domain)
    && ends_with name (codes "." ++ base_domain)
is_single (c ∷ cs) base_domain name =
    length name == node_id_len + length ((c ∷ cs) ++ codes "-") + length (codes "." ++ base_domain)
    && (starts_with name ((c ∷ cs) ++ codes "-") && ends_with name (codes "." ++ base_domain))

unfoldable pub split_records : List CfARecord → Bytes → Bytes → Bytes → RecordGroups
unfolding is_single
split_records records prefix base_domain cluster_host = record {
  cluster_records = retain (λ r. bytes_eq r.name cluster_host) records;
  single_records = retain (λ r. is_single prefix base_domain r.name) records;
}

pub record DiffResult : Type 0 where
  pub adds : List Bytes
  pub dels : List CfARecord

-- `HashSet::contains`
abbrev pub has_ip : List Bytes → Bytes → Bool
has_ip ips ip = any (λ i. bytes_eq i ip) ips

abbrev pub ips_of : List CfARecord → List Bytes
ips_of [] = []
ips_of (r ∷ rs) = r.ip ∷ ips_of rs

unfoldable pub diff_records : List CfARecord → List Bytes → DiffResult
diff_records records current_ips = record {
  adds = retain (λ ip. not (has_ip (ips_of records) ip)) current_ips;
  dels = retain (λ r. not (has_ip current_ips r.ip)) records;
}

-- The data of `create_cluster_json`, which `serde_json` then prints.
module _ (node_id : Bytes → Bytes) where
  unfoldable pub cluster_nodes : Bytes → List Node → List NodeListNode
  unfolding get_node_host
  cluster_nodes cluster_host [] = []
  cluster_nodes cluster_host (v ∷ vs) =
      record { host = get_node_host node_id v.public_ip cluster_host }
      ∷ cluster_nodes cluster_host vs

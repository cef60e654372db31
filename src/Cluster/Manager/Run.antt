-- ===== src/Cluster/Manager/Run.antt =====
-- The whole of `update` of cluster/src/manager.rs and cluster/src/node_source.rs, run against the services:
-- the nodes are read, their list is put to the object store, then the name server is brought up to date.
use verse_entrance_server.Base.{Bool, Option, none, some, List, [], ◌∷◌, if◌then◌else◌, Bytes}
use verse_entrance_server.Cluster.Func.{split_host}
use verse_entrance_server.Cluster.Node.{NodeListNode}
use verse_entrance_server.Cluster.Manager.{Node, cluster_nodes}
use verse_entrance_server.Cluster.Manager.Update.{DnsCall, delete_arecord, add_arecord, update_dns}
use verse_entrance_server.Cluster.Cf.{
  CfAuthInfo, Failure, request_failed, bad_address, unprintable, zone_not_found, Outcome, ok, err,
  and_then, checked, NameServer, get_arecords, get_zone_id,
}
use verse_entrance_server.Cluster.Cf

pub record S3Path : Type 0 where
  pub bucket : Bytes
  pub key : Bytes

pub record Manager : Type 0 where
  pub cluster_host : Bytes
  pub role : Bytes
  pub stage : Bytes
  pub aws_region : Bytes
  pub cluster_json_s3_path : S3Path
  pub cf_auth : CfAuthInfo

-- `Manager::new`
unfoldable pub new_manager : Bytes → Bytes → Bytes → Bytes → S3Path → CfAuthInfo → Manager
new_manager cluster_host role stage aws_region cluster_json_s3_path cf_auth = record {
  cluster_host = cluster_host;
  role = role;
  stage = stage;
  aws_region = aws_region;
  cluster_json_s3_path = cluster_json_s3_path;
  cf_auth = cf_auth;
}

-- The running instances of a region with a role and a stage, each with its public address if it has
-- one; the object store; and `serde_json`.
pub record Aws (Net : Type 0) : Type 0 where
  pub running_instances : Net → Bytes → Bytes → Bytes → Option (List (Option Bytes))
  pub put_object : Net → Bytes → Bytes → Bytes → Net × Bool
  pub print_json : List NodeListNode → Option Bytes

abbrev pub public_nodes : List (Option Bytes) → List Node
public_nodes [] = []
public_nodes (none ∷ rest) = public_nodes rest
public_nodes (some ip ∷ rest) = record { public_ip = ip } ∷ public_nodes rest

abbrev pub ips_of_nodes : List Node → List Bytes
ips_of_nodes [] = []
ips_of_nodes (v ∷ vs) = v.public_ip ∷ ips_of_nodes vs

module _ {Net : Type 0} (aws : Aws Net) where
  unfoldable pub load_nodes_from_ec2 : Net → Bytes → Bytes → Bytes → Option (List Node)
  load_nodes_from_ec2 net stage role region = elim (aws.running_instances net region role stage) [
    | none ↦ none
    | some instances ↦ some (public_nodes instances)
  ]

  unfoldable pub get_nodes : Manager → Net → Option (List Node)
  unfolding load_nodes_from_ec2
  get_nodes m net = load_nodes_from_ec2 net m.role m.stage m.aws_region

module _ {Net : Type 0} (aws : Aws Net) (node_id : Bytes → Bytes) where
  unfoldable pub update_cluster_json : Manager → Net → List Node → Net × Outcome
  unfolding cluster_nodes
  update_cluster_json m net nodes =
      elim (aws.print_json (cluster_nodes node_id m.cluster_host nodes)) [
        | none ↦ (net, err unprintable)
        | some js ↦
            checked (aws.put_object net m.cluster_json_s3_path.bucket m.cluster_json_s3_path.key js)
      ]

module _ {Net Addr : Type 0} (ns : NameServer Net Addr) where
  abbrev pub call : Bytes → Net → DnsCall → Net × Outcome
  call zone_id net (delete_arecord id) = Cf.delete_arecord ns net zone_id id
  call zone_id net (add_arecord prefix ip) = Cf.add_arecord ns net zone_id prefix ip

  -- The calls of the loops, up to the first one that fails.
  unfoldable pub execute : Bytes → Net → List DnsCall → Net × Outcome
  execute zone_id net [] = (net, ok)
  execute zone_id net (c ∷ cs) = and_then (call zone_id net c) (λ after. execute zone_id after cs)

module _ {Net Addr : Type 0} (ns : NameServer Net Addr) (node_id : Bytes → Bytes) where
  unfoldable pub run_update_dns : Manager → Net → List Node → Net × Outcome
  unfolding execute
  run_update_dns m net nodes =
      if ns.connects net m.cf_auth
      then (elim (get_zone_id ns net (split_host m.cluster_host).1) [
        | none ↦ (net, err request_failed)
        | some none ↦ (net, err zone_not_found)
        | some (some zone_id) ↦ elim (get_arecords ns net zone_id) [
          | none ↦ (net, err request_failed)
          | some records ↦
              execute ns zone_id net
                (update_dns node_id records m.cluster_host (ips_of_nodes nodes))
        ]
      ])
      else (net, err request_failed)

module _ {Net Addr : Type 0} (aws : Aws Net) (ns : NameServer Net Addr)
    (node_id : Bytes → Bytes) where
  -- `Manager::update`
  unfoldable pub update : Manager → Net → Net × Outcome
  unfolding get_nodes update_cluster_json run_update_dns
  update m net = elim (get_nodes aws m net) [
    | none ↦ (net, err request_failed)
    | some nodes ↦
        and_then (update_cluster_json aws node_id m net nodes)
          (λ after. run_update_dns ns node_id m after nodes)
  ]

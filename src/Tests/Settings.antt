-- ===== src/Tests/Settings.antt =====
-- Settings of a server, and what it does with them.
use verse_entrance_server.Base.{
  ◌≡◌, ℕ, refl, ◌≢◌, true, false, none, some, [], ◌∷◌, Bytes, codes, starts_with,
}
use verse_entrance_server.Hub.Args.{Args, set_other_args}
use verse_entrance_server.Hub.Args.Load.{Platform, load}
use verse_entrance_server.Hub.Start.{start, sets_arecord, manages}
use verse_entrance_server.Hub.Start.Missing.{start-never_sets}
use verse_entrance_server.Cluster.Manager.Run.{Manager, Aws, new_manager}

-- The command of README.md: no settings of a cluster.
abbrev pub args : Args
args = record {
  http_host = some (codes "verse.example.org");
  use_https = true;
  lets_encrypt_email = [];
  cache = some (codes "/home/ec2-user/certs");
  http_port = 443;
  udp_port = 8000;
  status_port = 9098;
  max_connections = none;
  max_connections_by_url = some 100;
  max_routing_results = 10;
  public_ip = some (codes "192.0.2.1");
  ice_servers = codes "stun:stun.l.google.com:19302" ∷ [];
  cloudflare_api_key = none;
  cloudflare_email = none;
  aws_secretsmanager_name = none;
  aws_secretsmanager_region = none;
  aws_secretsmanager_enabled = false;
  aws_ec2_instance_id = none;
  aws_ec2_region = some (codes "ap-northeast-1");
  prometheus_prefix = none;
  access_log_path = none;
  http_log_path = none;
  cluster_node_list_url = none;
  cluster_node_host = none;
  cluster_node_role = none;
  cluster_node_stage = none;
  cluster_json_s3_bucket = none;
  cluster_json_s3_key = none;
  update_cluster_key = none;
}

abbrev node_id : Bytes → Bytes
node_id ip = codes "0123456789abcdef"

-- An environment that holds the settings.
abbrev platform : Platform Args
platform = record {
  parse = λ env. env;
  ec2_tags = λ env instance_id region. some [];
  secret_string = λ env name region. some none;
  from_json = λ secret. some [];
  to_uppercase = λ k. k;
  set_var = λ env k v. env;
}

loaded : load platform node_id args ≡ some (set_other_args node_id args)
unfolding load
loaded = refl

start-never_sets_example :
    start (set_other_args node_id args)
    ≢ sets_arecord (codes "verse.example.org") (codes "192.0.2.1") (codes "e") (codes "k")
start-never_sets_example =
    start-never_sets platform node_id args (set_other_args node_id args) (codes "verse.example.org")
      (codes "192.0.2.1") (codes "e") (codes "k") loaded

undotted : starts_with (codes "verse.example.org") (codes ".") ≡ false
unfolding starts_with
undotted = refl

-- The settings of a node of a cluster.
abbrev cluster_args : Args
cluster_args = record args {
  cloudflare_email = some (codes "e");
  cloudflare_api_key = some (codes "k");
  cluster_node_host = some (codes "n");
  cluster_node_role = some (codes "CellServer");
  cluster_node_stage = some (codes "dev");
  cluster_json_s3_bucket = some (codes "b");
  cluster_json_s3_key = some (codes "j");
}

abbrev manager : Manager
manager = record {
  cluster_host = codes "verse.example.org";
  role = codes "dev";
  stage = codes "CellServer";
  aws_region = codes "ap-northeast-1";
  cluster_json_s3_path = record { bucket = codes "b"; key = codes "j" };
  cf_auth = record { email = codes "e"; api_key = codes "k" };
}

managed : start cluster_args ≡ manages manager
unfolding start new_manager
managed = refl

-- Instances that answer with the role that they are asked for.
abbrev aws : Aws ℕ
aws = record {
  running_instances = λ n region role stage. some (some role ∷ none ∷ []);
  put_object = λ n bucket key body. (n, true);
  print_json = λ l. none;
}

-- ===== src/Hub/Start.antt =====
-- The start of the server (hubserv/src/main.rs, and `create_client` of hubserv/src/cluster.rs): what the
-- settings make it do before it serves.
pub mod Missing
pub mod Cluster
use verse_entrance_server.Base.{
  ◌≡◌, refl, sym, ap, ap₂, unwrap_or, Option-cases, ◌∙◌, ◌≢◌, inl, inr, Bool, true, false, Option,
  none, some, List, [], ◌∷◌, arith, if◌then◌else◌, Bool-cases, length, In, Bytes, codes, bytes_eq,
  bytes_eq_sound, starts_with,
}
use verse_entrance_server.Cluster.Func.{
  node_id_len, split_host, get_node_host, split_host-in_domain,
}
use verse_entrance_server.Cluster.Node
use verse_entrance_server.Cluster.Manager.{is_single, Node}
use verse_entrance_server.Cluster.Manager.Groups.{node_host_single, cluster_host_not_single}
use verse_entrance_server.Cluster.Manager.Run.{
  Manager, new_manager, Aws, get_nodes, load_nodes_from_ec2, public_nodes,
}
use verse_entrance_server.Hub.Args.{Args, set_other_args}
use verse_entrance_server.Hub.Args.Load.{Platform, load, load-set_other_args}

-- What `main` does about the name server. `panics` is an `unwrap` of a setting that is not given.
pub data Start : Type 0 where
  manages : Manager → Start
  sets_arecord : Bytes → Bytes → Bytes → Bytes → Start
  no_dns : Start
  panics : Start

-- `as_ref().unwrap()`
abbrev pub unwrap : Option Bytes → (Bytes → Start) → Start
unwrap none k = panics
unwrap (some v) k = k v

-- `else if let (Some(..), ..)`
abbrev pub if_some : Option Bytes → (Bytes → Start) → Start
if_some none k = no_dns
if_some (some v) k = k v

-- The settings of a cluster, in the order in which they are unwrapped.
abbrev pub start_manager :
    (http_host cf_email cf_api_key aws_region role stage bucket key : Option Bytes) → Start
start_manager http_host cf_email cf_api_key aws_region role stage bucket key =
    unwrap http_host (λ h. unwrap cf_email (λ e. unwrap cf_api_key (λ k. unwrap aws_region (λ g.
      unwrap role (λ r. unwrap stage (λ s. unwrap bucket (λ b. unwrap key (λ j. manages (
        new_manager h s r g record { bucket = b; key = j }
          record { email = e; api_key = k })))))))))

-- The settings of a host without a cluster.
abbrev pub start_host : (http_host public_ip cf_email cf_api_key : Option Bytes) → Start
start_host http_host public_ip cf_email cf_api_key = if_some http_host (λ h.
    if_some public_ip (λ p. if_some cf_email (λ e. if_some cf_api_key (λ k. sets_arecord h p e k))))

unfoldable pub start : Args → Start
unfolding new_manager
start a = elim a.cluster_node_host [
  | some node_host ↦
      start_manager a.http_host a.cloudflare_email a.cloudflare_api_key a.aws_ec2_region
        a.cluster_node_role a.cluster_node_stage a.cluster_json_s3_bucket a.cluster_json_s3_key
  | none ↦ start_host a.http_host a.public_ip a.cloudflare_email a.cloudflare_api_key
]

-- `create_client`: `none` is the panic of `assert_ne!`.
unfoldable pub create_client : Args → Option (Option Node.Client)
unfolding Node.new_client
create_client a = elim a.http_host [
  | none ↦ some none
  | some cluster_host ↦ elim a.cluster_node_host [
    | none ↦ some none
    | some cluster_node_host ↦
        if bytes_eq cluster_host cluster_node_host
        then none
        else some (some (Node.new_client cluster_node_host cluster_host))
  ]
]

-- The settings that a manager is made from.
abbrev pub required : Args → List (Option Bytes)
required a =
    a.cloudflare_email ∷ a.cloudflare_api_key ∷ a.aws_ec2_region ∷ a.cluster_node_role
    ∷ a.cluster_node_stage ∷ a.cluster_json_s3_bucket ∷ a.cluster_json_s3_key ∷ []

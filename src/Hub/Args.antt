-- ===== src/Hub/Args.antt =====
-- hubserv/src/args.rs: the settings, how they are completed, and how they are printed.
pub mod Load
use verse_entrance_server.Base.{
  ℕ, zero, suc, ◌+◌, ◌-◌, ◌*◌, ◌/◌, ◌%◌, ◌^◌, ◌≤◌, ◌<◌, max, min, ◌≡◌, refl, sym, ap, ap₂, subst,
  ◌∙◌, ◌≢◌, ◌↔◌, ◌⊎◌, inl, inr, Bool, true, false, ◌&&◌, ◌||◌, not, Option, none, some, List, [],
  ◌∷◌, ◌++◌, map, append_assoc, append-nil, arith, ltb, leb, ◌==◌, if◌then◌else◌, leb→le, leb-false,
  ==_iff, Bool-cases, Option-cases, unwrap_or, usize_max, dec_u64, length, retain, any, take, All,
  In, In-append_left, In-append_right, In-append_cases, length-append, length-map, length-retain-le,
  retain-append, length-take, any-append_true, Bytes, codes, bytes_eq, bytes_eq_refl,
  bytes_eq_sound, bytes_eq_iff, contains, starts_with, ends_with, lookup, insert, remove, values,
  lookup-insert, lookup-remove, insert_missing, remove_missing, remove-append, values-append,
  List-cases, get_elem?, get_elem?-In,
}
use verse_entrance_server.Cluster.Func.{get_node_host}

pub record Args : Type 0 where
  pub http_host : Option Bytes
  pub use_https : Bool
  pub lets_encrypt_email : List Bytes
  pub cache : Option Bytes
  pub http_port : ℕ
  pub udp_port : ℕ
  pub status_port : ℕ
  pub max_connections : Option ℕ
  pub max_connections_by_url : Option ℕ
  pub max_routing_results : ℕ
  pub public_ip : Option Bytes
  pub ice_servers : List Bytes
  pub cloudflare_api_key : Option Bytes
  pub cloudflare_email : Option Bytes
  pub aws_secretsmanager_name : Option Bytes
  pub aws_secretsmanager_region : Option Bytes
  pub aws_secretsmanager_enabled : Bool
  pub aws_ec2_instance_id : Option Bytes
  pub aws_ec2_region : Option Bytes
  pub prometheus_prefix : Option Bytes
  pub access_log_path : Option Bytes
  pub http_log_path : Option Bytes
  pub cluster_node_list_url : Option Bytes
  pub cluster_node_host : Option Bytes
  pub cluster_node_role : Option Bytes
  pub cluster_node_stage : Option Bytes
  pub cluster_json_s3_bucket : Option Bytes
  pub cluster_json_s3_key : Option Bytes
  pub update_cluster_key : Option Bytes

module _ (node_id : Bytes → Bytes) where
  unfoldable pub set_other_args : Args → Args
  unfolding get_node_host
  set_other_args a = elim a.http_host [
    | none ↦ a
    | some http_host ↦ elim a.public_ip [
      | none ↦ a
      | some public_ip ↦ record a {
        cluster_node_host = some (get_node_host node_id public_ip http_host);
      }
    ]
  ]

-- `str::replace`: the occurrences from the left that do not overlap; `skip` bytes of one are left.
abbrev replace_from : Bytes → Bytes → ℕ → Bytes → Bytes
replace_from old new skip [] = []
replace_from old new (suc skip) (c ∷ cs) = replace_from old new skip cs
replace_from old new zero (c ∷ cs) =
    let found = starts_with (c ∷ cs) old in
    let rest = replace_from old new (if found then length old - 1 else 0) cs in
    if found then new ++ rest else c ∷ rest

abbrev pub replace : Bytes → Bytes → Bytes → Bytes
replace v old new = replace_from old new 0 v

unfoldable pub replace_tags : Bytes → List (Bytes × Bytes) → Bytes
replace_tags v [] = v
replace_tags v ((key, value) ∷ tags) =
    replace_tags (replace v (codes "{tag:" ++ key ++ codes "}") value) tags

-- What a field prints.
pub data Shown : Type 0 where
  text : Option Bytes → Shown
  texts : List Bytes → Shown
  flag : Bool → Shown
  number : ℕ → Shown
  numeral : Option ℕ → Shown

-- `"*".repeat(n)`
abbrev pub stars : ℕ → Bytes
stars zero = []
stars (suc n) = b'*' ∷ stars n

abbrev pub masked : Option Bytes → Option Bytes
masked none = none
masked (some v) = some (stars (length v))

-- `fmt::Debug`: the fields that are printed, by their names.
unfoldable pub debug : Args → List (Bytes × Shown)
debug a =
    (codes "http_host", text a.http_host)
    ∷ (codes "use_https", flag a.use_https)
    ∷ (codes "lets_encrypt_email", texts a.lets_encrypt_email)
    ∷ (codes "cache", text a.cache)
    ∷ (codes "http_port", number a.http_port)
    ∷ (codes "udp_port", number a.udp_port)
    ∷ (codes "status_port", number a.status_port)
    ∷ (codes "max_connections", numeral a.max_connections)
    ∷ (codes "max_connections_by_url", numeral a.max_connections_by_url)
    ∷ (codes "public_ip", text a.public_ip)
    ∷ (codes "ice_servers", texts a.ice_servers)
    ∷ (codes "cloudflare_api_key", text (masked a.cloudflare_api_key))
    ∷ (codes "cloudflare_email", text a.cloudflare_email)
    ∷ (codes "aws_secretsmanager_enabled", flag a.aws_secretsmanager_enabled)
    ∷ (codes "aws_secretsmanager_name", text a.aws_secretsmanager_name)
    ∷ (codes "aws_secretsmanager_region", text a.aws_secretsmanager_region)
    ∷ (codes "aws_ec2_instance_id", text a.aws_ec2_instance_id)
    ∷ (codes "aws_ec2_region", text a.aws_ec2_region)
    ∷ (codes "access_log_path", text a.access_log_path)
    ∷ (codes "http_log_path", text a.http_log_path)
    ∷ (codes "cluster_node_list_url", text a.cluster_node_list_url)
    ∷ (codes "cluster_node_host", text a.cluster_node_host)
    ∷ (codes "cluster_node_role", text a.cluster_node_role)
    ∷ (codes "cluster_node_stage", text a.cluster_node_stage)
    ∷ (codes "cluster_json_s3_bucket", text a.cluster_json_s3_bucket)
    ∷ (codes "cluster_json_s3_key", text a.cluster_json_s3_key)
    ∷ []

-- The printed settings tell of the two keys no more than the length of the name server's: with another
-- such key of the same length, and any other key for updates, they print alike.
debug-hides :
    (a : Args) (key key' : Bytes) (update update' : Option Bytes)
    → length key ≡ length key'
    → debug (record a { cloudflare_api_key = some key; update_cluster_key = update })
      ≡ debug (record a { cloudflare_api_key = some key'; update_cluster_key = update' })
unfolding debug
debug-hides a key key' update update' same = rw same

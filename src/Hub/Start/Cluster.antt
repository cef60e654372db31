-- ===== src/Hub/Start/Cluster.antt =====
-- The node's own client and the manager's instances (hubserv/src/main.rs, hubserv/src/cluster.rs).
use verse_entrance_server.Base.{
  ◌≡◌, sym, ap, ap₂, unwrap_or, ◌∙◌, ◌≢◌, inl, inr, Bool, true, false, Option, none, some, List,
  arith, Bool-cases, length, Bytes, codes, bytes_eq, bytes_eq_sound, starts_with,
}
use verse_entrance_server.Cluster.Func.{
  node_id_len, split_host, get_node_host, split_host-in_domain,
}
use verse_entrance_server.Cluster.Node
use verse_entrance_server.Cluster.Manager.{is_single, Node}
use verse_entrance_server.Cluster.Manager.Groups.{node_host_single, cluster_host_not_single}
use verse_entrance_server.Cluster.Manager.Run.{
  Manager, new_manager, Aws, get_nodes, load_nodes_from_ec2, public_nodes,
}
use verse_entrance_server.Hub.Args.{Args, set_other_args}
-- What `main` does about the name server. `panics` is an `unwrap` of a setting that is not given.
use verse_entrance_server.Hub.Start.{
  Start, manages, sets_arecord, no_dns, panics, start_manager, start_host, start, create_client,
}

module _ (node_id : Bytes → Bytes) where
  -- A node's host name is not its cluster's.
  not_both :
      (ip host : Bytes)
      → ((i : Bytes) → length (node_id i) ≡ node_id_len)
      → starts_with host (codes ".") ≡ false
      → ¬ (host ≡ get_node_host node_id ip host)
  not_both ip host lengths dotless same =
      let single : is_single (split_host host).0 (split_host host).1 host ≡ true =
        ap (λ (h : Bytes). is_single (split_host host).0 (split_host host).1 h) same
        ∙ node_host_single node_id lengths ip host in
      let not_single : is_single (split_host host).0 (split_host host).1 host ≡ false =
        ap (λ (h : Bytes). is_single (split_host host).0 (split_host host).1 h)
          (sym (split_host-in_domain host dotless).0)
        ∙ cluster_host_not_single (split_host host).0 (split_host host).1 in
      clash single not_single
    where
      clash : {b : Bool} → b ≡ true → b ≡ false → ⊥
      clash p q = cc

  -- Let node ids have 16 characters. With a host that does not begin with a dot and a public address,
  -- the settings as they are loaded make `create_client` give a client of the node's own host name, and
  -- not panic.
  pub create_client-node :
      (a : Args) (http_host public_ip : Bytes)
      → ((ip : Bytes) → length (node_id ip) ≡ node_id_len)
      → starts_with http_host (codes ".") ≡ false
      → a.http_host ≡ some http_host
      → a.public_ip ≡ some public_ip
      → create_client (set_other_args node_id a)
        ≡ some (some (Node.new_client (get_node_host node_id public_ip http_host) http_host))
  unfolding create_client set_other_args
  create_client-node a http_host public_ip lengths dotless e f =
      let differ : bytes_eq http_host (get_node_host node_id public_ip http_host) ≡ false =
        elim (Bool-cases (bytes_eq http_host (get_node_host node_id public_ip http_host))) [
          | inr other ↦ other
          | inl same ↦
              absurd
                (not_both public_ip http_host lengths dotless (bytes_eq_sound http_host _ same))
        ] in
      ground (arith, differ)

manages_inj : {m m' : Manager} → manages m ≡ manages m' → m ≡ m'
manages_inj {m} e = ap (managed m) e
  where
    managed : Manager → Start → Manager
    managed d (manages w) = w
    managed d (sets_arecord a b c f) = d
    managed d no_dns = d
    managed d panics = d

panics-manages : {m : Manager} → panics ≡ manages m → ⊥
panics-manages e = cc

-- What a manager has of the settings; its role is their stage, and the other way round.
start_manager-fields :
    (o1 o2 o3 o4 o5 o6 o7 o8 : Option Bytes) (m : Manager)
    → start_manager o1 o2 o3 o4 o5 o6 o7 o8 ≡ manages m
    → (o4 ≡ some m.aws_region) × (o5 ≡ some m.stage) × (o6 ≡ some m.role)
unfolding new_manager
start_manager-fields none o2 o3 o4 o5 o6 o7 o8 m q = absurd (panics-manages q)
start_manager-fields (some a) none o3 o4 o5 o6 o7 o8 m q = absurd (panics-manages q)
start_manager-fields (some a) (some b) none o4 o5 o6 o7 o8 m q = absurd (panics-manages q)
start_manager-fields (some a) (some b) (some c) none o5 o6 o7 o8 m q = absurd (panics-manages q)
start_manager-fields (some a) (some b) (some c) (some d) none o6 o7 o8 m q =
    absurd (panics-manages q)
start_manager-fields (some a) (some b) (some c) (some d) (some e) none o7 o8 m q =
    absurd (panics-manages q)
start_manager-fields (some a) (some b) (some c) (some d) (some e) (some f) none o8 m q =
    absurd (panics-manages q)
start_manager-fields (some a) (some b) (some c) (some d) (some e) (some f) (some g) none m q =
    absurd (panics-manages q)
start_manager-fields (some a) (some b) (some c) (some d) (some e) (some f) (some g) (some h) m q =
    let w = manages_inj q in
    (
      ap (λ (n : Manager). some n.aws_region) w,
      ap (λ (n : Manager). some n.stage) w,
      ap (λ (n : Manager). some n.role) w,
    )

start_host-other : (o1 o2 o3 o4 : Option Bytes) (m : Manager) → start_host o1 o2 o3 o4 ≢ manages m
start_host-other none o2 o3 o4 m e = absurd (ground arith)
start_host-other (some a) none o3 o4 m e = absurd (ground arith)
start_host-other (some a) (some b) none o4 m e = absurd (ground arith)
start_host-other (some a) (some b) (some c) none m e = absurd (ground arith)
start_host-other (some a) (some b) (some c) (some d) m e = absurd (ground arith)

node_or_host :
    (o : Option Bytes) (x y : Start) (m : Manager)
    → y ≢ manages m
    → (elim o [ some h ↦ x | none ↦ y ]) ≡ manages m
    → x ≡ manages m
node_or_host none x y m n e = absurd (n e)
node_or_host (some h) x y m n e = e

started-fields :
    (a : Args) (m : Manager)
    → start a ≡ manages m
    → (a.aws_ec2_region ≡ some m.aws_region)
      × (a.cluster_node_role ≡ some m.stage)
      × (a.cluster_node_stage ≡ some m.role)
unfolding start
started-fields a m e =
    let host = start_host a.http_host a.public_ip a.cloudflare_email a.cloudflare_api_key in
    let other =
      start_host-other a.http_host a.public_ip a.cloudflare_email a.cloudflare_api_key m in
    start_manager-fields a.http_host a.cloudflare_email a.cloudflare_api_key a.aws_ec2_region
      a.cluster_node_role a.cluster_node_stage a.cluster_json_s3_bucket a.cluster_json_s3_key m
      (node_or_host a.cluster_node_host _ host m other e)

-- The manager that the server starts with asks for the running instances that are tagged with the role
-- and the stage of the settings, in their region, and takes those with a public address: the role and
-- the stage change places twice on the way.
start-get_nodes :
    {Net : Type 0} (aws : Aws Net) (a : Args) (m : Manager) (net : Net) (role stage region : Bytes)
    → start a ≡ manages m
    → a.cluster_node_role ≡ some role
    → a.cluster_node_stage ≡ some stage
    → a.aws_ec2_region ≡ some region
    → get_nodes aws m net ≡ (elim (aws.running_instances net region role stage) [
      | none ↦ none
      | some instances ↦ some (public_nodes instances)
    ])
unfolding get_nodes load_nodes_from_ec2
start-get_nodes {Net} aws a m net role stage region e r s g =
    let (h, i, j) = started-fields a m e in
    ap₂ (λ (x y : Bytes). asked m.aws_region x y) (some_inj (sym i ∙ r)) (some_inj (sym j ∙ s))
    ∙ ap (λ (x : Bytes). asked x role stage) (some_inj (sym h ∙ g))
  where
    asked : Bytes → Bytes → Bytes → Option (List Node)
    asked x y z = elim (aws.running_instances net x y z) [
      | none ↦ none
      | some instances ↦ some (public_nodes instances)
    ]

    some_inj : {v w : Bytes} → ◌≡◌ {A = Option Bytes} (some v) (some w) → v ≡ w
    some_inj {v} q = ap (λ (o : Option Bytes). unwrap_or o v) q

-- ===== src/Cluster/Node.antt =====
-- cluster/src/client.rs and cluster/src/data.rs: a node's view of its cluster. The hash of a URL
-- (`DefaultHasher`) is a parameter, the same function on every node.
use verse_entrance_server.Base.{
  ℕ, ◌%◌, ◌<◌, ◌≡◌, refl, sym, ◌∙◌, ◌↔◌, inl, inr, Bool, true, false, Option, none, some, List, [],
  arith, ◌==◌, if◌then◌else◌, Option-cases, length, In, Bytes, bytes_eq, bytes_eq_refl,
  bytes_eq_sound, get_elem?, get_elem?-In,
}

pub record NodeListNode : Type 0 where
  pub host : Bytes

pub data Worker : Type 0 where
  me : Worker
  other : Bytes → Worker
  nothing : Worker

pub record Client : Type 0 where
  pub node_host : Bytes
  pub cluster_host : Bytes
  pub node_list : Option (List NodeListNode)

-- `Client::new`
unfoldable pub new_client : Bytes → Bytes → Client
new_client node_host cluster_host = record {
  node_host = node_host;
  cluster_host = cluster_host;
  node_list = none;
}

unfoldable pub set_node_list : Client → List NodeListNode → Client
set_node_list c nodes = record c { node_list = some nodes }

unfoldable pub can_redirect : Client → Bytes → Bool
can_redirect c request_host = bytes_eq c.cluster_host request_host

module _ (to_hash : Bytes → ℕ) where
  -- `ar[to_hash(world_url) as usize % ar.len()]`; an index out of range would panic, which is `none`
  -- here too, and never happens (`get_assigned_node_total`).
  unfoldable pub get_assigned_node : Client → Bytes → Option NodeListNode
  get_assigned_node c world_url = elim c.node_list [
    | none ↦ none
    | some ar ↦ if length ar == 0 then none else get_elem? ar (to_hash world_url % length ar)
  ]

  unfoldable pub is_my_work : Client → Bytes → Bool
  unfolding get_assigned_node
  is_my_work c world_url = elim (get_assigned_node c world_url) [
    | none ↦ false
    | some node ↦ bytes_eq node.host c.node_host
  ]

  unfoldable pub get_worker : Client → Bytes → Worker
  unfolding get_assigned_node
  get_worker c world_url = elim (get_assigned_node c world_url) [
    | none ↦ nothing
    | some node ↦ if bytes_eq node.host c.node_host then me else other node.host
  ]

module _ (to_hash : Bytes → ℕ) where
  -- A node list that is not empty assigns every URL to one of its nodes.
  pub get_assigned_node_total :
      (c : Client) (ar : List NodeListNode) (world_url : Bytes)
      → c.node_list ≡ some ar
      → 0 < length ar
      → (node : NodeListNode) × (get_assigned_node to_hash c world_url ≡ some node) × In node ar
  unfolding get_assigned_node
  get_assigned_node_total c ar world_url e h =
      let (node, found, m) = get_elem?-In ar (to_hash world_url % length ar) (omega arith) in
      (node, rw (e, get_assigned_node) (ground (arith, found)), m)

  -- Two nodes with one list assign a URL alike.
  pub assigned_alike :
      (c d : Client) (world_url : Bytes)
      → c.node_list ≡ d.node_list
      → get_assigned_node to_hash c world_url ≡ get_assigned_node to_hash d world_url
  unfolding get_assigned_node
  assigned_alike c d world_url e = rw (e, get_assigned_node)

  -- A node works for a URL exactly when the worker of the URL is that node.
  pub is_my_work-get_worker :
      (c : Client) (world_url : Bytes)
      → (is_my_work to_hash c world_url ≡ true) ↔ (get_worker to_hash c world_url ≡ me)
  unfolding is_my_work get_worker
  is_my_work-get_worker c world_url = elim (Option-cases (get_assigned_node to_hash c world_url)) [
    | inl e ↦ rw (e, is_my_work, get_worker) (λ h. cc, λ h. cc)
    | inr (node, e) ↦ rw (e, is_my_work, get_worker) (ground arith, ground arith)
  ]

  works_for :
      (c : Client) (node : NodeListNode) (world_url : Bytes)
      → get_assigned_node to_hash c world_url ≡ some node
      → c.node_host ≡ node.host
      → is_my_work to_hash c world_url ≡ true
  unfolding is_my_work
  works_for c node world_url e h = rw (e, is_my_work, h) (bytes_eq_refl node.host)

  -- Two nodes that hold the same list and both work for a URL have the same host name.
  pub is_my_work_unique :
      (c d : Client) (world_url : Bytes)
      → c.node_list ≡ d.node_list
      → is_my_work to_hash c world_url ≡ true
      → is_my_work to_hash d world_url ≡ true
      → c.node_host ≡ d.node_host
  unfolding is_my_work
  is_my_work_unique c d world_url l h k =
      elim (Option-cases (get_assigned_node to_hash d world_url)) [
        | inl e ↦ absurd (idle (rw (e, is_my_work) at k))
        | inr (node, e) ↦
            let f : get_assigned_node to_hash c world_url ≡ some node =
              assigned_alike c d world_url l ∙ e in
            sym (bytes_eq_sound node.host c.node_host (rw (f, is_my_work) at h))
            ∙ bytes_eq_sound node.host d.node_host (rw (e, is_my_work) at k)
      ]
    where
      idle : false ≡ true → ⊥
      idle q = cc

  -- If the node list is not empty, some host of it works for the URL, once it holds the list.
  pub is_my_work_total :
      (ar : List NodeListNode) (cluster_host world_url : Bytes)
      → 0 < length ar
      → (node : NodeListNode) × In node ar
        × (is_my_work to_hash (set_node_list (new_client node.host cluster_host) ar) world_url
            ≡ true)
  unfolding set_node_list new_client
  is_my_work_total ar cluster_host world_url h =
      let listed : Bytes → Client = λ host. set_node_list (new_client host cluster_host) ar in
      let (node, e, m) = get_assigned_node_total (listed []) ar world_url refl h in
      (
        node,
        m,
        works_for (listed node.host) node world_url
            (assigned_alike (listed node.host) (listed []) world_url refl ∙ e) refl,
      )

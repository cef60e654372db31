-- ===== src/Hub/Redirect.antt =====
-- `redirect_if_needed` and `load_node_list` of hubserv/src/cluster.rs.
use verse_entrance_server.Base.{
  ℕ, ◌≡◌, refl, sym, ap, ◌∙◌, inl, inr, Bool, true, false, ◌&&◌, Option, none, some, List, [], ◌∷◌,
  ◌++◌, arith, if◌then◌else◌, Bool-cases, Option-cases, Bytes, codes, bytes_eq, bytes_eq_refl,
  bytes_eq_iff,
}
use verse_entrance_server.Cluster.Node.{
  NodeListNode, me, other, nothing, Client, get_worker, can_redirect, set_node_list, assigned_alike,
  get_assigned_node,
}

-- `Ok(())`, or the response that ends the request.
pub data Verdict : Type 0 where
  proceed : Verdict
  forbidden : Verdict
  redirect : Bytes → Verdict

module _ (to_hash : Bytes → ℕ) where
  unfoldable pub redirect_if_needed : Client → Bytes → Bytes → Bytes → Verdict
  unfolding can_redirect
  redirect_if_needed c host world_url path = elim (get_worker to_hash c world_url) [
    | me ↦ proceed
    | nothing ↦ forbidden
    | other other_host ↦
        if can_redirect c host then redirect (codes "https://" ++ other_host ++ path) else forbidden
  ]

same_node : NodeListNode → NodeListNode → Bool
same_node a b = bytes_eq a.host b.host

unfoldable pub same_nodes : List NodeListNode → List NodeListNode → Bool
unfolding same_node
same_nodes [] [] = true
same_nodes [] (b ∷ bs) = false
same_nodes (a ∷ as') [] = false
same_nodes (a ∷ as') (b ∷ bs) = same_node a b && same_nodes as' bs

-- `load_node_list`, once the list has been fetched and decoded: an equal list is not set again.
unfoldable pub load_node_list : Client → List NodeListNode → Client
unfolding same_nodes set_node_list
load_node_list c nodes = elim c.node_list [
  | none ↦ set_node_list c nodes
  | some exists ↦ if same_nodes exists nodes then c else set_node_list c nodes
]

same_nodes_sound : (xs ys : List NodeListNode) → same_nodes xs ys ≡ true → xs ≡ ys
unfolding same_nodes
same_nodes_sound [] [] h = refl
same_nodes_sound [] (b ∷ bs) h = cc
same_nodes_sound (a ∷ as') [] h = cc
same_nodes_sound (a ∷ as') (b ∷ bs) h =
    ground (arith, bytes_eq_iff a.host b.host, same_nodes_sound as' bs)

-- After loading a list the client holds that list, whether or not it was set again, and its own names
-- are unchanged.
pub load_node_list_lem :
    (c : Client) (nodes : List NodeListNode)
    → load_node_list c nodes ≡ record c { node_list = some nodes }
unfolding load_node_list
load_node_list_lem c nodes = elim (Option-cases c.node_list) [
  | inl e ↦ rw (e, load_node_list)
  | inr (exists, e) ↦
      rw (e, load_node_list)
        (elim (Bool-cases (same_nodes exists nodes)) [
          | inl same ↦ rw same (kept (e ∙ ap some (same_nodes_sound exists nodes same)))
          | inr changed ↦ rw changed
        ])
]
  where
    kept : c.node_list ≡ some nodes → c ≡ record c { node_list = some nodes }
    kept k = ap (λ (l : Option (List NodeListNode)). record c { node_list = l }) k

other_host : (b : Bool) (x y : Bytes) → (if b then me else other x) ≡ other y → x ≡ y
other_host b x y h = ground arith

module _ (to_hash : Bytes → ℕ) where
  get_worker-other :
      (c d : Client) (world_url host : Bytes)
      → get_worker to_hash c world_url ≡ other host
      → c.node_list ≡ d.node_list
      → d.node_host ≡ host
      → get_worker to_hash d world_url ≡ me
  unfolding get_worker get_assigned_node
  get_worker-other c d world_url host e l h =
      elim (Option-cases (get_assigned_node to_hash c world_url)) [
        | inl f ↦ absurd (idle (rw (f, get_worker) at e))
        | inr (node, f) ↦
            let g : get_assigned_node to_hash d world_url ≡ some node =
              sym (assigned_alike to_hash c d world_url l) ∙ f in
            let same : node.host ≡ host =
              other_host (bytes_eq node.host c.node_host) node.host host
                (rw (f, get_worker) at e) in
            rw (g, get_worker) (rw (h, same, bytes_eq_refl host))
      ]
    where
      idle : nothing ≡ other host → ⊥
      idle q = cc

  -- Let two nodes hold the same list, and the first find that the second works for a URL. Then the
  -- first redirects a request to the cluster's own host to the second, and forbids any other; and
  -- the second proceeds with the URL, so that the redirect ends there.
  pub redirect_if_needed-ends :
      (c d : Client) (host host' world_url path : Bytes)
      → c.node_list ≡ d.node_list
      → get_worker to_hash c world_url ≡ other d.node_host
      → (redirect_if_needed to_hash c host world_url path ≡ (
          if bytes_eq c.cluster_host host
          then redirect (codes "https://" ++ d.node_host ++ path)
          else forbidden))
        × (redirect_if_needed to_hash d host' world_url path ≡ proceed)
  unfolding redirect_if_needed can_redirect
  redirect_if_needed-ends c d host host' world_url path l e = (
    rw (e, redirect_if_needed),
    rw (get_worker-other c d world_url d.node_host e l refl, redirect_if_needed),
  )

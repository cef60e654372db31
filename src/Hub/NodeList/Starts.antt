-- ===== src/Hub/NodeList/Starts.antt =====
-- What `start_client` does, and the task that it starts.
use verse_entrance_server.Base.{
  ℕ, suc, ◌+◌, ◌*◌, ◌≤◌, ◌<◌, ◌≡◌, refl, ap, ap₂, subst, ◌∙◌, Option, none, some, List, arith,
  Bytes,
}
use verse_entrance_server.Cluster.Node.{NodeListNode, Client}
use verse_entrance_server.Hub.Args.{Args}
use verse_entrance_server.Hub.Redirect.{load_node_list_lem}
use verse_entrance_server.Hub.NodeList.{Loading, tries, start_client, rounds}
use verse_entrance_server.Hub.NodeList.Latest.{or_else, latest, IsLatest, after_rounds}
use verse_entrance_server.Hub.NodeList.Counts.{
  naps, rounds_counts, tries_counts, tries_some, first_came,
}

module _ (answer : ℕ → Option (List NodeListNode)) where
  abbrev begun : Client → Loading
  begun c = record { client = c; requests = 0; slept = 0 }

  begins :
      (a : Args) (c : Client) (url : Bytes)
      → a.cluster_node_list_url ≡ some url
      → start_client answer a (some c) ≡ some (tries answer 5 0 (begun c))
  unfolding start_client
  begins a c url e = rw e refl

  -- Let the list's URL be given, and take any sequence of answers of its server. With a client
  -- `start_client` makes between one and five requests, sleeps at most 45 seconds, and ends; and after
  -- any number of rounds of the task that it starts, one a minute, the client is as it was but for the
  -- list, which is that of the last request that succeeded, or its old list if none did.
  pub start_client-latest :
      (a : Args) (c : Client) (url : Bytes) (k : ℕ)
      → a.cluster_node_list_url ≡ some url
      → (l : Loading) × (start_client answer a (some c) ≡ some l)
        × (1 ≤ l.requests)
        × (l.requests ≤ 5)
        × (l.slept ≤ 45)
        × ((rounds answer k l).slept ≡ l.slept + 60 * k)
        × ((rounds answer k l).client
            ≡ record c { node_list = or_else (latest answer (l.requests + k)) c.node_list })
  unfolding IsLatest
  start_client-latest a c url k e =
      let l = tries answer 5 0 (begun c) in
      let (few, short) = tries_counts answer 5 0 (begun c) in
      let (r, t) = rounds_counts answer k l in
      (
        l,
        begins a c url e,
        omega (arith, tries_some answer 4 0 (begun c)),
        omega (arith, few),
        omega (arith, short),
        t,
        after_rounds answer c k
            ∙ ap (λ (i : ℕ). record c { node_list = or_else (latest answer i) c.node_list }) r,
      )

  -- Let the list's URL be given, and let the first requests to its server fail, four at most, and the
  -- next one succeed. With a client `start_client` stops there: it holds that list, having slept 3
  -- seconds after the first failure and 3 more each time.
  pub start_client-first :
      (a : Args) (c : Client) (url : Bytes) (m : ℕ) (nodes : List NodeListNode)
      → a.cluster_node_list_url ≡ some url
      → m < 5
      → ((i : ℕ) → i < m → answer i ≡ none)
      → answer m ≡ some nodes
      → start_client answer a (some c)
        ≡ some (record {
          client = record c { node_list = some nodes };
          requests = suc m;
          slept = naps m 0;
        })
  start_client-first a c url m nodes e h missed came =
      begins a c url e
      ∙ ap (λ (l : Loading). some l)
          (first_came answer m 5 0 (begun c) nodes h
            (λ i b. subst (λ (j : ℕ). answer j ≡ none) (omega arith) (missed i b))
            (subst (λ (j : ℕ). answer j ≡ some nodes) (omega arith) came))
      ∙ ap
          (λ (d : Client).
            some (record { client = d; requests = suc (m + 0); slept = 0 + naps m 0 }))
          (load_node_list_lem c nodes)
      ∙ ap₂
          (λ (r t : ℕ).
            some (record { client = record c { node_list = some nodes }; requests = r; slept = t }))
          (omega arith) (omega arith)

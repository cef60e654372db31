-- ===== src/Hub/NodeList/Latest.antt =====
-- The list that the client holds: the last one that came.
use verse_entrance_server.Base.{
  ℕ, zero, suc, ◌+◌, ◌*◌, ◌≡◌, refl, sym, ap, subst, ◌∙◌, inl, inr, Bool, true, false, Option, none,
  some, List, Option-cases, if_ind,
}
use verse_entrance_server.Cluster.Node.{NodeListNode, Client}
use verse_entrance_server.Hub.Redirect.{load_node_list, load_node_list_lem}
use verse_entrance_server.Hub.NodeList.{Loading, sleep, load, tries, rounds}

abbrev pub or_else : {A : Type 0} → Option A → Option A → Option A
or_else none o = o
or_else (some a) o = some a

-- The last list that came with the first requests.
abbrev pub latest : (ℕ → Option (List NodeListNode)) → ℕ → Option (List NodeListNode)
latest answer zero = none
latest answer (suc i) = or_else (answer i) (latest answer i)

module _ (answer : ℕ → Option (List NodeListNode)) where
  pub load_missed :
      (l : Loading)
      → answer l.requests ≡ none
      → load answer l ≡ (record l { requests = suc l.requests }, false)
  unfolding load
  load_missed l e = rw (e, load) refl

  pub load_came :
      (l : Loading) (nodes : List NodeListNode)
      → answer l.requests ≡ some nodes
      → load answer l
        ≡ (record l { client = load_node_list l.client nodes; requests = suc l.requests }, true)
  unfolding load
  load_came l nodes e = rw (e, load) refl

module _ (answer : ℕ → Option (List NodeListNode)) (c : Client) where
  -- The client holds the last list that came, or the one it had.
  unfoldable pub IsLatest : Loading → Type 0
  IsLatest l = l.client ≡ record c { node_list = or_else (latest answer l.requests) c.node_list }

  latest_missed : (i : ℕ) → answer i ≡ none → latest answer i ≡ latest answer (suc i)
  latest_missed i e = rw e refl

  latest_came :
      (i : ℕ) (nodes : List NodeListNode)
      → answer i ≡ some nodes
      → some nodes ≡ or_else (latest answer (suc i)) c.node_list
  latest_came i nodes e = rw e refl

  load-IsLatest : (l : Loading) → IsLatest l → IsLatest (load answer l).0
  unfolding IsLatest
  load-IsLatest l h = elim (Option-cases (answer l.requests)) [
    | inl e ↦
        subst (λ (p : Loading × Bool). IsLatest p.0) (sym (load_missed answer l e))
          (h
            ∙ ap
                (λ (o : Option (List NodeListNode)). record c { node_list = or_else o c.node_list })
                (latest_missed l.requests e))
    | inr (nodes, e) ↦
        subst (λ (p : Loading × Bool). IsLatest p.0) (sym (load_came answer l nodes e))
          (load_node_list_lem l.client nodes
            ∙ ap (λ (k : Client). record k { node_list = some nodes }) h
            ∙ ap (λ (o : Option (List NodeListNode)). record c { node_list = o })
                (latest_came l.requests nodes e))
  ]

  tries-IsLatest : (k n : ℕ) (l : Loading) → IsLatest l → IsLatest (tries answer k n l)
  unfolding IsLatest tries
  tries-IsLatest zero n l h = h
  tries-IsLatest (suc k) n l h =
      if_ind IsLatest (load answer l).1 (load answer l).0
        (tries answer k (n + 1) (sleep ((n + 1) * 3) (load answer l).0)) (λ e. load-IsLatest l h)
        (λ e. tries-IsLatest k (n + 1) (sleep ((n + 1) * 3) (load answer l).0) (load-IsLatest l h))

  rounds-IsLatest : (k : ℕ) (l : Loading) → IsLatest l → IsLatest (rounds answer k l)
  unfolding IsLatest rounds
  rounds-IsLatest zero l h = h
  rounds-IsLatest (suc k) l h = load-IsLatest (sleep 60 (rounds answer k l)) (rounds-IsLatest k l h)

  pub after_rounds :
      (k : ℕ)
      → IsLatest
          (rounds answer k (tries answer 5 0 (record { client = c; requests = 0; slept = 0 })))
  unfolding IsLatest
  after_rounds k =
      rounds-IsLatest k (tries answer 5 0 (record { client = c; requests = 0; slept = 0 }))
        (tries-IsLatest 5 0 (record { client = c; requests = 0; slept = 0 }) refl)

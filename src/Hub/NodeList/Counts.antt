-- ===== src/Hub/NodeList/Counts.antt =====
-- The requests that are made, and the seconds that are slept.
use verse_entrance_server.Base.{
  ℕ, zero, suc, ◌+◌, ◌*◌, ◌≤◌, ◌<◌, ◌≡◌, refl, ap, ap₂, subst, ◌∙◌, inl, inr, Bool, true, false,
  Option, none, some, List, arith, if◌then◌else◌, Option-cases, if_ind,
}
use verse_entrance_server.Cluster.Node.{NodeListNode}
use verse_entrance_server.Hub.Redirect.{load_node_list}
use verse_entrance_server.Hub.NodeList.{Loading, sleep, load, tries, rounds}
use verse_entrance_server.Hub.NodeList.Latest.{load_missed, load_came}

-- The seconds slept after `k` tries that fail, from the try `n` on.
abbrev pub naps : ℕ → ℕ → ℕ
naps zero n = 0
naps (suc k) n = (n + 1) * 3 + naps k (n + 1)

module _ (answer : ℕ → Option (List NodeListNode)) where
  load_counts :
      (l : Loading)
      → ((load answer l).0.requests ≡ suc l.requests) × ((load answer l).0.slept ≡ l.slept)
  unfolding load
  load_counts l = elim (Option-cases (answer l.requests)) [
    | inl e ↦ rw (e, load) (refl, refl)
    | inr (nodes, e) ↦ rw (e, load) (refl, refl)
  ]

  pub rounds_counts :
      (k : ℕ) (l : Loading)
      → ((rounds answer k l).requests ≡ l.requests + k)
        × ((rounds answer k l).slept ≡ l.slept + 60 * k)
  unfolding rounds
  rounds_counts zero l = (omega arith, omega arith)
  rounds_counts (suc k) l =
      let (r, t) = rounds_counts k l in
      let (r', t') = load_counts (sleep 60 (rounds answer k l)) in
      (omega (arith, r, r'), omega (arith, t, t'))

  pub tries_counts :
      (k n : ℕ) (l : Loading)
      → ((tries answer k n l).requests ≤ l.requests + k)
        × ((tries answer k n l).slept ≤ l.slept + naps k n)
  unfolding tries
  tries_counts zero n l = (omega arith, omega arith)
  tries_counts (suc k) n l =
      let (r, t) = load_counts l in
      let (r', t') = tries_counts k (n + 1) (sleep ((n + 1) * 3) (load answer l).0) in
      if_ind (λ x. (x.requests ≤ l.requests + suc k) × (x.slept ≤ l.slept + naps (suc k) n))
        (load answer l).1 (load answer l).0
        (tries answer k (n + 1) (sleep ((n + 1) * 3) (load answer l).0))
        (λ e. (omega (arith, r), omega (arith, t)))
        (λ e. (omega (arith, r, r'), omega (arith, t, t')))

  tries_more : (k n : ℕ) (l : Loading) → l.requests ≤ (tries answer k n l).requests
  unfolding tries
  tries_more zero n l = omega arith
  tries_more (suc k) n l =
      let (r, t) = load_counts l in
      let r' = tries_more k (n + 1) (sleep ((n + 1) * 3) (load answer l).0) in
      if_ind (λ x. l.requests ≤ x.requests) (load answer l).1 (load answer l).0
        (tries answer k (n + 1) (sleep ((n + 1) * 3) (load answer l).0)) (λ e. omega (arith, r))
        (λ e. omega (arith, r, r'))

  pub tries_some : (k n : ℕ) (l : Loading) → suc l.requests ≤ (tries answer (suc k) n l).requests
  unfolding tries
  tries_some k n l =
      let (r, t) = load_counts l in
      let r' = tries_more k (n + 1) (sleep ((n + 1) * 3) (load answer l).0) in
      if_ind (λ x. suc l.requests ≤ x.requests) (load answer l).1 (load answer l).0
        (tries answer k (n + 1) (sleep ((n + 1) * 3) (load answer l).0)) (λ e. omega (arith, r))
        (λ e. omega (arith, r, r'))

  after_load :
      (k n : ℕ) (l : Loading) (p : Loading × Bool)
      → load answer l ≡ p
      → tries answer (suc k) n l
        ≡ (if p.1 then p.0 else tries answer k (n + 1) (sleep ((n + 1) * 3) p.0))
  unfolding tries
  after_load k n l p e =
      ap
        (λ (q : Loading × Bool).
          if q.1 then q.0 else tries answer k (n + 1) (sleep ((n + 1) * 3) q.0))
        e

  pub first_came :
      (m k n : ℕ) (l : Loading) (nodes : List NodeListNode)
      → m < k
      → ((i : ℕ) → i < m → answer (i + l.requests) ≡ none)
      → answer (m + l.requests) ≡ some nodes
      → tries answer k n l ≡ record {
        client = load_node_list l.client nodes;
        requests = suc (m + l.requests);
        slept = l.slept + naps m n;
      }
  first_came m zero n l nodes h missed came = absurd (omega arith)
  first_came zero (suc k) n l nodes h missed came =
      after_load k n l
        (record l { client = load_node_list l.client nodes; requests = suc l.requests }, true)
        (load_came answer l nodes (subst (λ (i : ℕ). answer i ≡ some nodes) (omega arith) came))
      ∙ ap₂
          (λ (r t : ℕ). record { client = load_node_list l.client nodes; requests = r; slept = t })
          (omega arith) (omega arith)
  first_came (suc m) (suc k) n l nodes h missed came =
      after_load k n l (record l { requests = suc l.requests }, false)
        (load_missed answer l
          (subst (λ (i : ℕ). answer i ≡ none) (omega arith) (missed 0 (omega arith))))
      ∙ first_came m k (n + 1) (sleep ((n + 1) * 3) (record l { requests = suc l.requests })) nodes
          (omega arith)
          (λ i b. subst (λ (j : ℕ). answer j ≡ none) (omega arith) (missed (suc i) (omega arith)))
          (subst (λ (j : ℕ). answer j ≡ some nodes) (omega arith) came)
      ∙ ap₂
          (λ (r t : ℕ). record { client = load_node_list l.client nodes; requests = r; slept = t })
          (omega arith) (omega arith)

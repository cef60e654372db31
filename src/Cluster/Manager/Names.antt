-- ===== src/Cluster/Manager/Names.antt =====
-- The names that `update_dns` (cluster/src/manager.rs) gives: each lands in the group that it is looked
-- for in.
use verse_entrance_server.Base.{
  ℕ, ◌≡◌, sym, ap, ◌∙◌, ◌≢◌, inl, inr, Bool, true, false, [], ◌∷◌, ◌++◌, append_assoc, arith,
  length, Bytes, codes, bytes_eq, bytes_eq_refl, bytes_eq_sound, starts_with, List-cases,
}
use verse_entrance_server.Cluster.Func.{
  dot, node_id_len, split_host, get_node_prefix, get_node_host-prefix, in_domain,
  split_host-in_domain,
}
use verse_entrance_server.Cluster.Manager.{CfARecord, is_single}
use verse_entrance_server.Cluster.Manager.Groups.{node_host_single, cluster_host_not_single}

module _ (node_id : Bytes → Bytes)
    (node_id_length : (ip : Bytes) → length (node_id ip) ≡ node_id_len) (host : Bytes)
    (dotless : starts_with host (codes ".") ≡ false) where
  abbrev pub tc : CfARecord → Bool
  tc r = bytes_eq r.name host

  abbrev pub ts : CfARecord → Bool
  ts r = is_single (split_host host).0 (split_host host).1 r.name

  pub cluster_named :
      (r : CfARecord)
      → (split_host host).0 ≢ []
      → r.name ≡ (split_host host).0 ++ dot ∷ (split_host host).1
      → tc r ≡ true
  cluster_named r some' e = elim (List-cases (split_host host).0) [
    | inl none' ↦ absurd (some' none')
    | inr (c, cs, p) ↦
        let whole : r.name ≡ host =
          e
          ∙ ap (λ (q : Bytes). q ++ dot ∷ (split_host host).1) p
          ∙ sym (append_assoc (c ∷ cs) (dot ∷ []) (split_host host).1)
          ∙ ap (λ (q : Bytes). in_domain q (split_host host).1) (sym p)
          ∙ (split_host-in_domain host dotless).0 in
        rw whole (bytes_eq_refl host)
  ]

  pub single_named :
      (ip : Bytes) (r : CfARecord)
      → r.name ≡ get_node_prefix node_id ip host ++ dot ∷ (split_host host).1
      → ts r ≡ true
  single_named ip r e =
      rw (e ∙ sym (get_node_host-prefix node_id ip host))
        (node_host_single node_id node_id_length ip host)

  pub node_prefixed : (ip : Bytes) → get_node_prefix node_id ip host ≢ []
  unfolding get_node_prefix
  node_prefixed ip e = elim (List-cases (split_host host).0) [
    | inl f ↦
        let empty : node_id ip ≡ [] = rw (f, get_node_prefix) at e in
        absurd (omega (arith, node_id_length ip, ap (λ (q : Bytes). length q) empty))
    | inr (c, cs, f) ↦ absurd (not_empty (rw (f, get_node_prefix) at e))
  ]
    where
      not_empty : {c : ℕ} {cs : Bytes} → c ∷ cs ≡ [] → ⊥
      not_empty k = cc

  pub apart : (r : CfARecord) → tc r ≡ true → ts r ≡ false
  apart r e =
      let named : r.name ≡ in_domain (split_host host).0 (split_host host).1 =
        bytes_eq_sound r.name host e ∙ sym (split_host-in_domain host dotless).0 in
      rw named (cluster_host_not_single (split_host host).0 (split_host host).1)

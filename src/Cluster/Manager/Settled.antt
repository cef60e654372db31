-- ===== src/Cluster/Manager/Settled.antt =====
-- After the four loops of `update_dns` (cluster/src/manager.rs) neither group of records differs from the
-- current addresses.
use verse_entrance_server.Base.{
  ◌≡◌, refl, subst, ◌⊎◌, inl, inr, Bool, true, false, List, retain, In, Bytes,
}
use verse_entrance_server.Cluster.Manager.{CfARecord, diff_records, has_ip}
use verse_entrance_server.Cluster.Manager.Diff.{HasUniqueIds, has_ip-In}
use verse_entrance_server.Cluster.Manager.Loops.{
  Deletes, Adds, no_difference, diff_records-nothing, dels-stale, cleared, adds-current,
  add_or_found, spared,
}

-- Two tests for two groups, and the listing before, between and after the loops.
module _ (tc ts : CfARecord → Bool) (ips : List Bytes) (l0 l1 l2 l3 l4 : List CfARecord) where
  pub record Loops : Type 0 where
    pub disjoint : (r : CfARecord) → tc r ≡ true → ts r ≡ false
    pub unique_0 : HasUniqueIds l0
    pub unique_2 : HasUniqueIds l2
    pub dels_1 : Deletes (diff_records (retain tc l0) ips).dels l0 l1
    pub adds_1 : Adds tc (diff_records (retain tc l0) ips).adds l1 l2
    pub dels_2 : Deletes (diff_records (retain ts l0) ips).dels l2 l3
    pub adds_2 : Adds ts (diff_records (retain ts l0) ips).adds l3 l4

  module _ (v : Loops) where
    -- What the second loops delete was not touched by the first ones.
    second-stale :
        (d : CfARecord)
        → In d (diff_records (retain ts l0) ips).dels
        → In d l2 × (has_ip ips d.ip ≡ false)
    second-stale d m =
        let (listed, single, stale) = dels-stale ts l0 ips d m in
        (
          v.adds_1.kept d (
              (v.dels_1 d).1 (
                listed,
                λ c k same.
                    let (here, clustered, gone) = dels-stale tc l0 ips c k in
                    let e : c ≡ d = v.unique_0 c d here listed same in
                    both d (subst (λ (r : CfARecord). tc r ≡ true) e clustered) single,
              )),
          stale,
        )
      where
        both : (d : CfARecord) → tc d ≡ true → ts d ≡ true → ⊥
        both d p q = clash q (v.disjoint d p)
          where
            clash : {b : Bool} → b ≡ true → b ≡ false → ⊥
            clash p' q' = cc

    to_l4 : (q : CfARecord) → In q l2 → has_ip ips q.ip ≡ true → In q l4
    to_l4 q m current = v.adds_2.kept q (
        spared ips (diff_records (retain ts l0) ips).dels l2 l3 q second-stale v.unique_2 v.dels_2 m
          current)

    to_l2 : (q : CfARecord) → In q l0 → has_ip ips q.ip ≡ true → In q l2
    to_l2 q m current = v.adds_1.kept q (
        spared ips (diff_records (retain tc l0) ips).dels l0 l1 q
          (λ d k. let (listed, clustered, stale) = dels-stale tc l0 ips d k in (listed, stale))
          v.unique_0 v.dels_1 m current)

    -- A record at the end is from the start and spared, or has a current address.
    from_start :
        (q : CfARecord)
        → In q l4
        → (has_ip ips q.ip ≡ true)
          ⊎ (In q l0
              × (¬ (In q (diff_records (retain tc l0) ips).dels))
              × (¬ (In q (diff_records (retain ts l0) ips).dels)))
    from_start q m = elim (v.adds_2.origin q m) [
      | inr new ↦ inl (has_ip-In ips q.ip (adds-current ts l0 ips q.ip new))
      | inl m3 ↦
          let (m2, alive_2) = (v.dels_2 q).0 m3 in
          elim (v.adds_1.origin q m2) [
            | inr new ↦ inl (has_ip-In ips q.ip (adds-current tc l0 ips q.ip new))
            | inl m1 ↦
                let (m0, alive_1) = (v.dels_1 q).0 m1 in
                inr (m0, (λ k. alive_1 q k refl), (λ k. alive_2 q k refl))
          ]
    ]

    pub cluster_settled : diff_records (retain tc l4) ips ≡ no_difference
    cluster_settled = diff_records-nothing tc l4 ips covered current
      where
        covered : (ip : Bytes) → In ip ips → (r : CfARecord) × In r l4 × (tc r ≡ true) × (r.ip ≡ ip)
        covered ip m = elim (add_or_found tc l0 ips ip m) [
          | inl new ↦
              let (r, k, passes, e) = v.adds_1.filled ip new in
              (r, to_l4 r k (rw e (has_ip-In ips ip m)), passes, e)
          | inr (r, k, passes, e) ↦
              let now : has_ip ips r.ip ≡ true = rw e (has_ip-In ips ip m) in
              (r, to_l4 r (to_l2 r k now) now, passes, e)
        ]

        current : (r : CfARecord) → In r l4 → tc r ≡ true → has_ip ips r.ip ≡ true
        current r m passes = elim (from_start r m) [
          | inl now ↦ now
          | inr (m0, alive, alive_2) ↦ cleared tc l0 ips r m0 passes alive
        ]

    pub single_settled : diff_records (retain ts l4) ips ≡ no_difference
    single_settled = diff_records-nothing ts l4 ips covered current
      where
        covered : (ip : Bytes) → In ip ips → (r : CfARecord) × In r l4 × (ts r ≡ true) × (r.ip ≡ ip)
        covered ip m = elim (add_or_found ts l0 ips ip m) [
          | inl new ↦ v.adds_2.filled ip new
          | inr (r, k, passes, e) ↦
              let now : has_ip ips r.ip ≡ true = rw e (has_ip-In ips ip m) in
              (r, to_l4 r (to_l2 r k now) now, passes, e)
        ]

        current : (r : CfARecord) → In r l4 → ts r ≡ true → has_ip ips r.ip ≡ true
        current r m passes = elim (from_start r m) [
          | inl now ↦ now
          | inr (m0, alive_1, alive) ↦ cleared ts l0 ips r m0 passes alive
        ]

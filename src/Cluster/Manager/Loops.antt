-- ===== src/Cluster/Manager/Loops.antt =====
-- The two loops of `update_dns` (cluster/src/manager.rs), one after the other, on the listing: what each
-- may do to it, and that nothing is left to do after both.
use verse_entrance_server.Base.{
  ◌≡◌, ap₂, subst, ◌≢◌, ◌↔◌, ◌⊎◌, inl, inr, Bool, true, false, not, List, [], Bool-cases, retain,
  In, Bytes,
}
use verse_entrance_server.Cluster.Manager.{CfARecord, DiffResult, diff_records, has_ip, ips_of}
use verse_entrance_server.Cluster.Manager.Diff.{
  HasUniqueIds, In-retain, retain-In, retain-nil, not-true, true_of_not, has_ip-In, In-has_ip,
  ips_of-In, In-ips_of, false-not,
}

-- The records of `dels` are gone, by their ids, and no others.
abbrev pub Deletes : List CfARecord → List CfARecord → List CfARecord → Type 0
Deletes dels before after =
    (r : CfARecord) → In r after ↔ (In r before × ((d : CfARecord) → In d dels → d.id ≢ r.id))

-- Nothing is gone, what is new has an address of `adds`, and every address of `adds` has a record
-- that passes the test.
pub record Adds (t : CfARecord → Bool) (adds : List Bytes) (before after : List CfARecord)
    : Type 0 where
  pub kept : (r : CfARecord) → In r before → In r after
  pub origin : (r : CfARecord) → In r after → In r before ⊎ In r.ip adds
  pub filled : (ip : Bytes) → In ip adds → (r : CfARecord) × In r after × (t r ≡ true) × (r.ip ≡ ip)

abbrev pub no_difference : DiffResult
no_difference = record { adds = []; dels = [] }

clash : {b : Bool} → b ≡ true → b ≡ false → ⊥
clash p q = cc

pub diff_records-nothing :
    (t : CfARecord → Bool) (records : List CfARecord) (ips : List Bytes)
    → ((ip : Bytes) → In ip ips → (r : CfARecord) × In r records × (t r ≡ true) × (r.ip ≡ ip))
    → ((r : CfARecord) → In r records → t r ≡ true → has_ip ips r.ip ≡ true)
    → diff_records (retain t records) ips ≡ no_difference
unfolding diff_records
diff_records-nothing t records ips covered current =
    ap₂ (λ a d. record { adds = a; dels = d })
      (retain-nil (λ ip. not (has_ip (ips_of (retain t records)) ip)) ips
        (λ ip m. not-true _ (found ip m)))
      (retain-nil (λ r. not (has_ip ips r.ip)) (retain t records)
        (λ r m.
          let (listed, passes) = In-retain t r records m in not-true _ (current r listed passes)))
  where
    found : (ip : Bytes) → In ip ips → has_ip (ips_of (retain t records)) ip ≡ true
    found ip m =
        let (r, listed, passes, e) = covered ip m in
        has_ip-In (ips_of (retain t records)) ip (
          subst (λ (i : Bytes). In i (ips_of (retain t records))) e
            (ips_of-In r (retain t records) (retain-In t r records listed passes)))

module _ (t : CfARecord → Bool) (records : List CfARecord) (ips : List Bytes) where
  pub dels-stale :
      (r : CfARecord)
      → In r (diff_records (retain t records) ips).dels
      → In r records × (t r ≡ true) × (has_ip ips r.ip ≡ false)
  unfolding diff_records
  dels-stale r m =
      let (k, stale) = In-retain (λ q. not (has_ip ips q.ip)) r (retain t records) m in
      let (listed, passes) = In-retain t r records k in (listed, passes, true_of_not _ stale)

  -- A record that passes the test and is not to be deleted has a current address.
  pub cleared :
      (r : CfARecord)
      → In r records
      → t r ≡ true
      → ¬ (In r (diff_records (retain t records) ips).dels)
      → has_ip ips r.ip ≡ true
  unfolding diff_records
  cleared r m passes n = elim (Bool-cases (has_ip ips r.ip)) [
    | inl e ↦ e
    | inr e ↦ absurd (
        n (
          retain-In (λ q. not (has_ip ips q.ip)) r (retain t records)
            (retain-In t r records m passes) (false-not _ e)))
  ]

  pub adds-current : (ip : Bytes) → In ip (diff_records (retain t records) ips).adds → In ip ips
  unfolding diff_records
  adds-current ip m = (In-retain (λ i. not (has_ip (ips_of (retain t records)) i)) ip ips m).0

  -- A current address has a record already, or it is to be added.
  pub add_or_found :
      (ip : Bytes)
      → In ip ips
      → In ip (diff_records (retain t records) ips).adds
        ⊎ ((r : CfARecord) × In r records × (t r ≡ true) × (r.ip ≡ ip))
  unfolding diff_records
  add_or_found ip m = elim (Bool-cases (has_ip (ips_of (retain t records)) ip)) [
    | inl e ↦
        let (r, k, f) =
          In-ips_of ip (retain t records) (In-has_ip (ips_of (retain t records)) ip e) in
        let (listed, passes) = In-retain t r records k in inr (r, listed, passes, f)
    | inr e ↦
        inl (retain-In (λ i. not (has_ip (ips_of (retain t records)) i)) ip ips m (false-not _ e))
  ]

-- Deletions of stale records spare a record with a current address.
pub spared :
    (ips : List Bytes) (dels before after : List CfARecord) (q : CfARecord)
    → ((d : CfARecord) → In d dels → In d before × (has_ip ips d.ip ≡ false))
    → HasUniqueIds before
    → Deletes dels before after
    → In q before
    → has_ip ips q.ip ≡ true
    → In q after
spared ips dels before after q stale unique deleted m current = (deleted q).1 (
  m,
  λ d k same.
      let (listed, gone) = stale d k in
      clash current
        (subst (λ (r : CfARecord). has_ip ips r.ip ≡ false) (unique d q listed m same) gone),
)

-- What no difference means.
module _ (t : CfARecord → Bool) (records : List CfARecord) (ips : List Bytes)
    (none' : diff_records (retain t records) ips ≡ no_difference) where
  pub no_difference-covered :
      (ip : Bytes) → In ip ips → (r : CfARecord) × In r records × (t r ≡ true) × (r.ip ≡ ip)
  unfolding diff_records
  no_difference-covered ip m = elim (add_or_found t records ips ip m) [
    | inr found ↦ found
    | inl new ↦ absurd (subst (λ (d : DiffResult). In ip d.adds) none' new)
  ]

  pub no_difference-current : (r : CfARecord) → In r records → t r ≡ true → In r.ip ips
  no_difference-current r m passes =
      In-has_ip ips r.ip
        (cleared t records ips r m passes (λ k. subst (λ (d : DiffResult). In r d.dels) none' k))

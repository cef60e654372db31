-- ===== src/Cluster/Manager/Diff.antt =====
-- `diff_records`: carrying out a difference leaves none.
use verse_entrance_server.Base.{
  ◌≡◌, refl, sym, ap, ap₂, subst, ◌↔◌, inl, inr, Bool, true, false, not, List, [], ◌∷◌, ◌++◌, arith,
  Bool-cases, retain, any, In, In-append_left, In-append_right, In-append_cases, Bytes, bytes_eq,
  bytes_eq_refl, bytes_eq_sound,
}
use verse_entrance_server.Cluster.Manager.{CfARecord, has_ip, ips_of, diff_records}

-- The name server deletes by id.
abbrev pub delete_all : List CfARecord → List CfARecord → List CfARecord
delete_all dels records = retain (λ r. not (any (λ d. bytes_eq d.id r.id) dels)) records

-- An id names one record only.
abbrev pub HasUniqueIds : List CfARecord → Type 0
HasUniqueIds records = (a b : CfARecord) → In a records → In b records → a.id ≡ b.id → a ≡ b

pub retain-nil :
    {A : Type 0} (p : A → Bool) (xs : List A) → ((x : A) → In x xs → p x ≡ false) → retain p xs ≡ []
retain-nil p [] h = refl
retain-nil p (x ∷ xs) h = rw (h x (inl refl)) (retain-nil p xs (λ y m. h y (inr m)))

pub In-retain :
    {A : Type 0} (p : A → Bool) (x : A) (xs : List A) → In x (retain p xs) → In x xs × (p x ≡ true)
In-retain p x [] m = elim m [ ]
In-retain p x (y ∷ ys) m = elim (Bool-cases (p y)) [
  | inl kept ↦ elim (rw kept at m) [
    | inl e ↦ (inl e, rw (← e) kept)
    | inr k ↦ let (l, e) = In-retain p x ys k in (inr l, e)
  ]
  | inr dropped ↦ let (k, e) = In-retain p x ys (rw dropped at m) in (inr k, e)
]

pub retain-In :
    {A : Type 0} (p : A → Bool) (x : A) (xs : List A) → In x xs → p x ≡ true → In x (retain p xs)
retain-In p x [] m e = m
retain-In p x (y ∷ ys) (inl h) e = rw (h, e) (inl refl)
retain-In p x (y ∷ ys) (inr m) e = elim (Bool-cases (p y)) [
  | inl kept ↦ rw kept (inr (retain-In p x ys m e))
  | inr dropped ↦ rw dropped (retain-In p x ys m e)
]

any-In :
    {A : Type 0} (p : A → Bool) (xs : List A) → any p xs ≡ true → (x : A) × In x xs × (p x ≡ true)
any-In p [] h = cc
any-In p (x ∷ xs) h = elim (Bool-cases (p x)) [
  | inl e ↦ (x, inl refl, e)
  | inr e ↦ let (y, m, f) = any-In p xs (rw e at h) in (y, inr m, f)
]

In-any : {A : Type 0} (p : A → Bool) (x : A) (xs : List A) → In x xs → p x ≡ true → any p xs ≡ true
In-any p x [] m e = elim m [ ]
In-any p x (y ∷ ys) (inl h) e = rw (h, e)
In-any p x (y ∷ ys) (inr m) e = ground (arith, In-any p x ys m e)

pub has_ip-In : (ips : List Bytes) (ip : Bytes) → In ip ips → has_ip ips ip ≡ true
has_ip-In ips ip m = In-any (λ i. bytes_eq i ip) ip ips m (bytes_eq_refl ip)

pub ips_of-In : (r : CfARecord) (rs : List CfARecord) → In r rs → In r.ip (ips_of rs)
ips_of-In r [] m = m
ips_of-In r (x ∷ rs) (inl e) = inl (ap (λ (y : CfARecord). y.ip) e)
ips_of-In r (x ∷ rs) (inr m) = inr (ips_of-In r rs m)

pub In-ips_of :
    (ip : Bytes) (rs : List CfARecord) → In ip (ips_of rs) → (r : CfARecord) × In r rs × (r.ip ≡ ip)
In-ips_of ip [] m = elim m [ ]
In-ips_of ip (x ∷ rs) (inl e) = (x, inl refl, e)
In-ips_of ip (x ∷ rs) (inr m) = let (r, k, e) = In-ips_of ip rs m in (r, inr k, e)

pub In-has_ip : (ips : List Bytes) (ip : Bytes) → has_ip ips ip ≡ true → In ip ips
In-has_ip ips ip h =
    let (i, m, e) = any-In (λ i. bytes_eq i ip) ips h in
    subst (λ (j : Bytes). In j ips) (bytes_eq_sound i ip e) m

pub not-true : (b : Bool) → b ≡ true → not b ≡ false
not-true true e = refl
not-true false e = sym e

pub true_of_not : (b : Bool) → not b ≡ true → b ≡ false
true_of_not true e = sym e
true_of_not false e = refl

pub false-not : (b : Bool) → b ≡ false → not b ≡ true
false-not b e = rw e

module _ (records : List CfARecord) (ips : List Bytes) where
  abbrev to_delete : List CfARecord
  to_delete = retain (λ r. not (has_ip ips r.ip)) records

  -- A record stays exactly if its address is current.
  survives :
      (r : CfARecord)
      → HasUniqueIds records
      → In r records
      → has_ip ips r.ip ≡ true
      → In r (delete_all to_delete records)
  survives r unique m h =
      retain-In (λ x. not (any (λ d. bytes_eq d.id x.id) to_delete)) r records m
        (elim (Bool-cases (any (λ d. bytes_eq d.id r.id) to_delete)) [
          | inr e ↦ false-not _ e
          | inl e ↦ absurd (condemned (any-In (λ d. bytes_eq d.id r.id) to_delete e))
        ])
    where
      condemned : (d : CfARecord) × In d to_delete × (bytes_eq d.id r.id ≡ true) → ⊥
      condemned (d, k, e) =
          let (l, f) = In-retain (λ x. not (has_ip ips x.ip)) d records k in
          let same : d ≡ r = unique d r l m (bytes_eq_sound d.id r.id e) in
          clash (rw (← same) at h) (true_of_not (has_ip ips d.ip) f)
        where
          clash : {b : Bool} → b ≡ true → b ≡ false → ⊥
          clash p q = cc

  stayed : (r : CfARecord) → In r (delete_all to_delete records) → has_ip ips r.ip ≡ true
  stayed r m =
      let (k, e) = In-retain (λ x. not (any (λ d. bytes_eq d.id x.id) to_delete)) r records m in
      elim (Bool-cases (has_ip ips r.ip)) [
        | inl h ↦ h
        | inr h ↦ absurd (
            clash
              (In-any (λ d. bytes_eq d.id r.id) r to_delete
                (retain-In (λ x. not (has_ip ips x.ip)) r records k (false-not _ h))
                (bytes_eq_refl r.id))
              (true_of_not _ e))
      ]
    where
      clash : {b : Bool} → b ≡ true → b ≡ false → ⊥
      clash p q = cc

  module _ (added : List CfARecord) (unique : HasUniqueIds records)
      (fills : ips_of added ≡ (diff_records records ips).adds) where
    abbrev after : List CfARecord
    after = delete_all to_delete records ++ added

    covered : (ip : Bytes) → In ip ips → has_ip (ips_of after) ip ≡ true
    unfolding diff_records
    covered ip m = elim (Bool-cases (has_ip (ips_of records) ip)) [
      | inl old ↦
          let (r, k, e) = In-ips_of ip records (In-has_ip (ips_of records) ip old) in
          has_ip-In (ips_of after) ip (
            subst (λ (i : Bytes). In i (ips_of after)) e
              (ips_of-In r after (
                In-append_left r (delete_all to_delete records) added
                  (survives r unique k (has_ip-In ips r.ip (rw e m))))))
      | inr new ↦
          let (r, k, e) = In-ips_of ip added (
            rw fills
              (retain-In (λ i. not (has_ip (ips_of records) i)) ip ips m (false-not _ new))) in
          has_ip-In (ips_of after) ip (
            subst (λ (i : Bytes). In i (ips_of after)) e
              (ips_of-In r after (In-append_right r (delete_all to_delete records) added k)))
    ]

    current : (r : CfARecord) → In r after → has_ip ips r.ip ≡ true
    unfolding diff_records
    current r m = elim (In-append_cases r (delete_all to_delete records) added m) [
      | inl k ↦ stayed r k
      | inr k ↦ has_ip-In ips r.ip (
          (In-retain (λ i. not (has_ip (ips_of records) i)) r.ip ips
            (rw (← fills) (ips_of-In r added k))).0)
    ]

    after-settled : diff_records after ips ≡ record { adds = []; dels = [] }
    unfolding diff_records
    after-settled =
        ap₂ (λ a d. record { adds = a; dels = d })
          (retain-nil (λ ip. not (has_ip (ips_of after) ip)) ips
            (λ ip m. not-true _ (covered ip m)))
          (retain-nil (λ r. not (has_ip ips r.ip)) after (λ r m. not-true _ (current r m)))

-- Let the records have distinct ids. After the deletions of `diff_records` and records for its
-- additions, a second difference is empty: every current address has a record, and every record a
-- current address.
diff_records-settles :
    (records added : List CfARecord) (ips : List Bytes)
    → HasUniqueIds records
    → ips_of added ≡ (diff_records records ips).adds
    → diff_records (delete_all (diff_records records ips).dels records ++ added) ips
      ≡ record { adds = []; dels = [] }
unfolding diff_records
diff_records-settles records added ips unique fills = after-settled records ips added unique fills

-- Let the records have distinct ids. Of the records exactly those with a current address are left
-- after the deletions of `diff_records`.
diff_records-keeps :
    (records : List CfARecord) (ips : List Bytes) (r : CfARecord)
    → HasUniqueIds records
    → In r records
    → In r (delete_all (diff_records records ips).dels records) ↔ (has_ip ips r.ip ≡ true)
unfolding diff_records
diff_records-keeps records ips r unique m = (stayed records ips r, survives records ips r unique m)

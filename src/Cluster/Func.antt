-- ===== src/Cluster/Func.antt =====
-- cluster/src/func.rs. The node id, a hash of the address in hexadecimal digits, is a parameter.
use verse_entrance_server.Base.{
  ℕ, ◌≡◌, refl, ap, inl, inr, true, false, Option, none, some, [], ◌∷◌, ◌++◌, append_assoc, arith,
  ◌==◌, if◌then◌else◌, List-cases, ==_iff, Bool-cases, Option-cases, Bytes, codes, contains,
  starts_with,
}

abbrev pub node_id_len : ℕ
node_id_len = 16

abbrev pub dot : ℕ
dot = b'.'

-- `host.splitn(2, '.')`: what stands before and after the first dot.
unfoldable pub split_once : Bytes → Option (Bytes × Bytes)
split_once [] = none
split_once (c ∷ cs) =
    if c == dot
    then some ([], cs)
    else (elim (split_once cs) [ none ↦ none | some (a, b) ↦ some (c ∷ a, b) ])

unfoldable pub split_host : Bytes → Bytes × Bytes
unfolding split_once contains
split_host host = elim (split_once host) [
  | none ↦ ([], host)
  | some (a, b) ↦ if contains dot b then (a, b) else ([], host)
]

module _ (node_id : Bytes → Bytes) where
  unfoldable pub get_node_prefix : Bytes → Bytes → Bytes
  unfolding split_host
  get_node_prefix ip cluster_host = elim (split_host cluster_host).0 [
    | [] ↦ node_id ip
    | c ∷ cs ↦ (c ∷ cs) ++ codes "-" ++ node_id ip
  ]

  unfoldable pub get_node_host : Bytes → Bytes → Bytes
  unfolding split_host
  get_node_host ip cluster_host = elim (split_host cluster_host).0 [
    | [] ↦ node_id ip ++ codes "." ++ (split_host cluster_host).1
    | c ∷ cs ↦ (c ∷ cs) ++ codes "-" ++ node_id ip ++ codes "." ++ (split_host cluster_host).1
  ]

-- A prefix in front of a domain, as the name server completes it.
abbrev pub in_domain : Bytes → Bytes → Bytes
in_domain [] base = base
in_domain (c ∷ cs) base = (c ∷ cs) ++ codes "." ++ base

-- The two parts of a pair under `some`.
some_pair :
    {A B : Type 0} {a a' : A} {b b' : B}
    → ◌≡◌ {A = Option (A × B)} (some (a, b)) (some (a', b'))
    → (a' ≡ a) × (b' ≡ b)
some_pair e = (ground arith, ground arith)

split_once-append :
    (host a b : Bytes)
    → split_once host ≡ some (a, b)
    → (host ≡ a ++ dot ∷ b) × (contains dot a ≡ false)
unfolding split_once contains
split_once-append [] a b e = absurd (missing e)
  where
    missing : ◌≡◌ {A = Option (Bytes × Bytes)} none (some (a, b)) → ⊥
    missing k = cc
split_once-append (c ∷ cs) a b e = elim (Bool-cases (c == dot)) [
  | inl here ↦
      let (f, g) = some_pair (rw here at e) in
      rw (f, g) (ap (λ (x : ℕ). x ∷ cs) ((==_iff c dot).0 here), refl)
  | inr later ↦ elim (Option-cases (split_once cs)) [
    | inl e' ↦ absurd (missing (rw (later, e') at e))
    | inr ((a', b'), e') ↦
        let (f, g) = some_pair (rw (later, e') at e) in
        let (ih, no_dot) = split_once-append cs a' b' e' in
        rw (f, g) (ap (◌∷◌ c) ih, rw later no_dot)
  ]
]
  where
    missing : ◌≡◌ {A = Option (Bytes × Bytes)} none (some (a, b)) → ⊥
    missing k = cc

-- Unless the host begins with a dot, its two parts make it up again, and the prefix has no dot.
pub split_host-in_domain :
    (host : Bytes)
    → starts_with host (codes ".") ≡ false
    → (in_domain (split_host host).0 (split_host host).1 ≡ host)
      × (contains dot (split_host host).0 ≡ false)
unfolding split_host starts_with
split_host-in_domain host h = elim (Option-cases (split_once host)) [
  | inl e ↦ rw (e, split_host) (refl, refl)
  | inr ((a, b), e) ↦
      rw (e, split_host)
        (elim (Bool-cases (contains dot b)) [
          | inr short ↦ rw short (refl, refl)
          | inl deep ↦ rw deep (joined a b (split_once-append host a b e))
        ])
]
  where
    dotted : true ≡ false → ⊥
    dotted k = cc

    joined :
        (a b : Bytes)
        → (host ≡ a ++ dot ∷ b) × (contains dot a ≡ false)
        → (in_domain a b ≡ host) × (contains dot a ≡ false)
    joined [] b (e, n) = absurd (dotted (rw e at h))
    joined (c ∷ cs) b (e, n) = (rw e (append_assoc (c ∷ cs) (dot ∷ []) b), n)

module _ (node_id : Bytes → Bytes) where
  -- A node's host name is its record's prefix in the cluster's base domain.
  pub get_node_host-prefix :
      (ip cluster_host : Bytes)
      → get_node_host node_id ip cluster_host
        ≡ get_node_prefix node_id ip cluster_host ++ dot ∷ (split_host cluster_host).1
  unfolding get_node_host get_node_prefix
  get_node_host-prefix ip cluster_host = elim (List-cases (split_host cluster_host).0) [
    | inl e ↦
        rw (e, get_node_host, get_node_prefix)
          (append_assoc (node_id ip) (dot ∷ []) (split_host cluster_host).1)
    | inr (c, cs, e) ↦
        rw (e, get_node_host, get_node_prefix)
          (append_assoc ((c ∷ cs) ++ codes "-" ++ node_id ip) (dot ∷ [])
            (split_host cluster_host).1)
  ]

-- ===== src/Tests/NameServer.antt =====
-- A name server for the tests: slots, whose places are the ids, and an object store.
use verse_entrance_server.Base.{
  ℕ, suc, ◌+◌, ◌≤◌, ◌≡◌, refl, sym, ap, subst, ◌∙◌, ◌≢◌, ◌⊎◌, inl, inr, true, false, Option, none,
  some, List, [], ◌∷◌, ◌++◌, arith, if◌then◌else◌, Bool-cases, unwrap_or, length, In,
  In-append_left, In-append_right, In-append_cases, Bytes, codes, bytes_eq, bytes_eq_sound,
  bytes_eq_iff, get_elem?,
}
use verse_entrance_server.Cluster.Func.{dot, split_host}
use verse_entrance_server.Cluster.Cf.{NameServer, DnsRecord}
use verse_entrance_server.Cluster.Cf.Laws.{Laws}

abbrev pub Slot : Type 0
Slot = Option (Bytes × Bytes)

abbrev pub contents : ℕ → List Slot → List (DnsRecord Bytes)
contents i [] = []
contents i (none ∷ ss) = contents (suc i) ss
contents i (some (n, a) ∷ ss) =
    record { id = i ∷ []; name = n; content = some a } ∷ contents (suc i) ss

abbrev pub clear : ℕ → Bytes → List Slot → List Slot
clear i id [] = []
clear i id (s ∷ ss) = (if bytes_eq (i ∷ []) id then none else s) ∷ clear (suc i) id ss

abbrev pub base : Bytes
base = codes "example.com"

abbrev pub toy_zone : Bytes
toy_zone = codes "z"

abbrev pub toy : NameServer (List Slot) Bytes
toy = record {
  parse_addr = λ ip. some ip;
  print_addr = λ a. a;
  connects = λ net auth. true;
  list_zones = λ net domain. some (toy_zone ∷ []);
  list_records = λ net z. some (contents 0 net);
  delete_record = λ net z id. (clear 0 id net, true);
  create_record = λ net z prefix a. (net ++ some (prefix ++ dot ∷ base, a) ∷ [], true);
}

contents-id :
    (i : ℕ) (ss : List Slot) (d : DnsRecord Bytes)
    → In d (contents i ss)
    → (j : ℕ) × (d.id ≡ j ∷ []) × (i ≤ j)
contents-id i [] d m = elim m [ ]
contents-id i (none ∷ ss) d m = let (j, e, l) = contents-id (suc i) ss d m in (j, e, omega arith)
contents-id i (some (n, a) ∷ ss) d (inl e) =
    (i, sym (ap (λ (q : DnsRecord Bytes). q.id) e), omega arith)
contents-id i (some (n, a) ∷ ss) d (inr m) =
    let (j, e, l) = contents-id (suc i) ss d m in (j, e, omega arith)

head_same : {i j : ℕ} → ◌≡◌ {A = Bytes} (i ∷ []) (j ∷ []) → i ≡ j
head_same e = ground arith

later-id :
    (i : ℕ) (ss : List Slot) (d : DnsRecord Bytes) → In d (contents (suc i) ss) → d.id ≢ i ∷ []
later-id i ss d m e =
    let (j, f, l) = contents-id (suc i) ss d m in absurd (omega (arith, head_same (sym f ∙ e)))

pub contents_unique :
    (i : ℕ) (ss : List Slot) (x y : DnsRecord Bytes)
    → In x (contents i ss)
    → In y (contents i ss)
    → x.id ≡ y.id
    → x ≡ y
contents_unique i [] x y m n e = elim m [ ]
contents_unique i (none ∷ ss) x y m n e = contents_unique (suc i) ss x y m n e
contents_unique i (some (a, b) ∷ ss) x y (inl p) (inl q) e = sym p ∙ q
contents_unique i (some (a, b) ∷ ss) x y (inl p) (inr n) e =
    absurd (later-id i ss y n (sym e ∙ sym (ap (λ (r : DnsRecord Bytes). r.id) p)))
contents_unique i (some (a, b) ∷ ss) x y (inr m) (inl q) e =
    absurd (later-id i ss x m (e ∙ sym (ap (λ (r : DnsRecord Bytes). r.id) q)))
contents_unique i (some (a, b) ∷ ss) x y (inr m) (inr n) e = contents_unique (suc i) ss x y m n e

pub clear-less :
    (i : ℕ) (id : Bytes) (ss : List Slot) (d : DnsRecord Bytes)
    → In d (contents i (clear i id ss))
    → In d (contents i ss) × (id ≢ d.id)
clear-less i id [] d m = elim m [ ]
clear-less i id (none ∷ ss) d m = elim (Bool-cases (bytes_eq (i ∷ []) id)) [
  | inl h ↦ clear-less (suc i) id ss d (rw h at m)
  | inr h ↦ clear-less (suc i) id ss d (rw h at m)
]
clear-less i id (some (n, a) ∷ ss) d m = elim (Bool-cases (bytes_eq (i ∷ []) id)) [
  | inl h ↦ let (k, o) = clear-less (suc i) id ss d (rw h at m) in (inr k, o)
  | inr h ↦ elim (rw h at m) [
    | inl e ↦ (inl e, λ same. differ h (ap (λ (q : DnsRecord Bytes). q.id) e ∙ sym same))
    | inr k ↦ let (l, o) = clear-less (suc i) id ss d k in (inr l, o)
  ]
]
  where
    differ : bytes_eq (i ∷ []) id ≡ false → i ∷ [] ≡ id → ⊥
    differ h e = absurd (ground (arith, (bytes_eq_iff (i ∷ []) id).1 e))

pub clear-keeps :
    (i : ℕ) (id : Bytes) (ss : List Slot) (d : DnsRecord Bytes)
    → In d (contents i ss)
    → id ≢ d.id
    → In d (contents i (clear i id ss))
clear-keeps i id [] d m o = elim m [ ]
clear-keeps i id (none ∷ ss) d m o = elim (Bool-cases (bytes_eq (i ∷ []) id)) [
  | inl h ↦ rw h (clear-keeps (suc i) id ss d m o)
  | inr h ↦ rw h (clear-keeps (suc i) id ss d m o)
]
clear-keeps i id (some (n, a) ∷ ss) d (inr m) o = elim (Bool-cases (bytes_eq (i ∷ []) id)) [
  | inl h ↦ rw h (clear-keeps (suc i) id ss d m o)
  | inr h ↦ rw h (inr (clear-keeps (suc i) id ss d m o))
]
clear-keeps i id (some (n, a) ∷ ss) d (inl e) o = elim (Bool-cases (bytes_eq (i ∷ []) id)) [
  | inl h ↦ absurd (o (sym (bytes_eq_sound (i ∷ []) id h) ∙ ap (λ (q : DnsRecord Bytes). q.id) e))
  | inr h ↦ rw h (inl e)
]

abbrev pub entry : Bytes → Bytes → ℕ → DnsRecord Bytes
entry n a k = record { id = k ∷ []; name = n; content = some a }

contents-snoc :
    (i : ℕ) (ss : List Slot) (n a : Bytes)
    → contents i (ss ++ some (n, a) ∷ []) ≡ contents i ss ++ entry n a (i + length ss) ∷ []
contents-snoc i [] n a = let e : i ≡ i + 0 = omega arith in ap (λ (k : ℕ). entry n a k ∷ []) e
contents-snoc i (none ∷ ss) n a =
    let e : suc i + length ss ≡ i + suc (length ss) = omega arith in
    contents-snoc (suc i) ss n a ∙ ap (λ (k : ℕ). contents (suc i) ss ++ entry n a k ∷ []) e
contents-snoc i (some (m, b) ∷ ss) n a =
    let e : suc i + length ss ≡ i + suc (length ss) = omega arith in
    ap (λ (l : List (DnsRecord Bytes)). entry m b i ∷ l)
      (contents-snoc (suc i) ss n a ∙ ap (λ (k : ℕ). contents (suc i) ss ++ entry n a k ∷ []) e)

pub snoc-cases :
    (net : List Slot) (n a : Bytes) (d : DnsRecord Bytes)
    → In d (contents 0 (net ++ some (n, a) ∷ []))
    → In d (contents 0 net) ⊎ (d.content ≡ some a)
snoc-cases net n a d m =
    elim (In-append_cases d (contents 0 net) (entry n a (0 + length net) ∷ [])
      (subst (λ (l : List (DnsRecord Bytes)). In d l) (contents-snoc 0 net n a) m)) [
        | inl k ↦ inl k
        | inr (inl e) ↦ inr (sym (ap (λ (q : DnsRecord Bytes). q.content) e))
        | inr (inr k) ↦ elim k [ ]
      ]

pub snoc-In :
    (net : List Slot) (n a : Bytes) (d : DnsRecord Bytes)
    → In d (contents 0 net ++ entry n a (0 + length net) ∷ [])
    → In d (contents 0 (net ++ some (n, a) ∷ []))
snoc-In net n a d m =
    subst (λ (l : List (DnsRecord Bytes)). In d l) (sym (contents-snoc 0 net n a)) m

pub host_split : (split_host (codes "hub.example.com")).1 ≡ base
unfolding split_host
host_split = refl

abbrev pub toy_laws : Laws toy (split_host (codes "hub.example.com")).1 toy_zone
toy_laws = record {
  contents = contents 0;
  zone = λ net z e.
      sym (ap (λ (o : Option (List Bytes)). unwrap_or (get_elem? (unwrap_or o []) 0) z) e);
  listed = λ net l e. sym (ap (λ (o : Option (List (DnsRecord Bytes))). unwrap_or o l) e);
  printed = λ ip a e. sym (ap (λ (o : Option Bytes). unwrap_or o ip) e);
  unique = λ net x y m n e. contents_unique 0 net x y m n e;
  deleted = λ net id d e. (λ m. clear-less 0 id net d m, λ p. clear-keeps 0 id net d p.0 p.1);
  created_kept = λ net prefix a d e m.
      snoc-In net (prefix ++ dot ∷ base) a d (In-append_left d (contents 0 net) _ m);
  created_origin = λ net prefix a d e m. snoc-cases net (prefix ++ dot ∷ base) a d m;
  created_new = λ net prefix a p e. (
    entry (prefix ++ dot ∷ base) a (0 + length net),
    snoc-In net (prefix ++ dot ∷ base) a _ (In-append_right _ (contents 0 net) _ (inl refl)),
    ap (λ (b : Bytes). prefix ++ dot ∷ b) (sym host_split),
    refl,
  );
}

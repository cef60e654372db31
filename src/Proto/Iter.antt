-- ===== src/Proto/Iter.antt =====
-- The breadth-first iterators of proto/src/routing_info_ex.rs and what the crate computes with them.
-- A `VecDeque` is a list whose head is the front. The iterator is run on fuel; `run_all` gives it as
-- much as there are nodes in the queue, which Iter/Visits proves to be enough.
pub mod Visits
pub mod Search
pub mod Known
use verse_entrance_server.Base.{
  ℕ, zero, suc, ◌+◌, ◌-◌, ◌*◌, ◌/◌, ◌%◌, ◌^◌, ◌≤◌, ◌<◌, max, min, ◌≡◌, refl, sym, ap, ap₂, subst,
  ◌∙◌, ◌≢◌, ◌↔◌, ◌⊎◌, inl, inr, Bool, true, false, ◌&&◌, ◌||◌, not, Option, none, some, List, [],
  ◌∷◌, ◌++◌, map, append_assoc, append-nil, arith, ltb, leb, ◌==◌, if◌then◌else◌, leb→le, leb-false,
  ==_iff, Bool-cases, Option-cases, unwrap_or, usize_max, dec_u64, length, retain, any, take, All,
  In, In-append_left, In-append_right, In-append_cases, length-append, length-map, length-retain-le,
  retain-append, length-take, any-append_true, Bytes, codes, bytes_eq, bytes_eq_refl,
  bytes_eq_sound, bytes_eq_iff, contains, starts_with, ends_with, lookup, insert, remove, values,
  lookup-insert, lookup-remove, insert_missing, remove_missing, remove-append, values-append,
}
use verse_entrance_server.Proto.Swarm.{
  RoutingInfo, Relation, RoutingInfos, routing_info, absent, count, routing_infos, nil, cons,
  relation, infos, relation_infos, get_relations, has_session_id, u32_mod,
}

abbrev pub Stack : Type 0
Stack = List (RoutingInfo × ℕ)

abbrev pub with_depth : ℕ → List RoutingInfo → Stack
with_depth d [] = []
with_depth d (c ∷ cs) = (c, d) ∷ with_depth d cs

-- `Iterator::next`: the front of the queue, whose children go to the back, one level deeper.
unfoldable pub next : Stack → Option ((RoutingInfo × ℕ) × Stack)
unfolding get_relations
next [] = none
next ((v, d) ∷ stack) = elim (get_relations v) [
  | some relations ↦ some ((v, d), stack ++ with_depth ((d + 1) % u32_mod) relations)
  | none ↦ some ((v, d), stack)
]

-- The items that `next` yields, up to `fuel` of them.
unfoldable pub run : ℕ → Stack → List (RoutingInfo × ℕ)
unfolding next
run zero stack = []
run (suc fuel) stack = elim (next stack) [ none ↦ [] | some (item, rest) ↦ item ∷ run fuel rest ]

unfoldable mutual
  pub size : RoutingInfo → ℕ
  size (routing_info i r) = suc (size_below r)

  pub size_below : Relation → ℕ
  size_below absent = 0
  size_below (count n) = 0
  size_below (routing_infos vs) = size_list vs

  pub size_list : RoutingInfos → ℕ
  size_list nil = 0
  size_list (cons v vs) = size v + size_list vs

unfoldable pub stack_size : Stack → ℕ
unfolding size
stack_size [] = 0
stack_size ((v, d) ∷ stack) = size v + stack_size stack

unfoldable pub run_all : Stack → List (RoutingInfo × ℕ)
unfolding run stack_size
run_all stack = run (stack_size stack) stack

-- `recursive_iter_with_depth` of one node, and of a slice of nodes.
unfoldable pub recursive_iter_with_depth : List RoutingInfo → List (RoutingInfo × ℕ)
unfolding run_all
recursive_iter_with_depth roots = run_all (with_depth 0 roots)

abbrev pub nodes : List (RoutingInfo × ℕ) → List RoutingInfo
nodes [] = []
nodes ((v, d) ∷ items) = v ∷ nodes items

unfoldable pub recursive_iter : List RoutingInfo → List RoutingInfo
unfolding recursive_iter_with_depth
recursive_iter roots = nodes (recursive_iter_with_depth roots)

unfoldable pub fold {ℓ} : {B : Type ℓ} → B → (B → RoutingInfo → B) → List RoutingInfo → B
fold init f [] = init
fold init f (v ∷ vs) = fold (f init v) f vs

-- `RoutingInfo::fold`
unfoldable pub fold_nodes {ℓ} : {B : Type ℓ} → RoutingInfo → B → (B → RoutingInfo → B) → B
unfolding fold recursive_iter
fold_nodes v init f = fold init f (recursive_iter (v ∷ []))

unfoldable pub is_known : RoutingInfo → Bytes → Bool
unfolding recursive_iter has_session_id
is_known v sid = any (has_session_id sid) (recursive_iter (v ∷ []))

unfoldable pub depths_of : Bytes → List (RoutingInfo × ℕ) → List ℕ
unfolding has_session_id
depths_of sid [] = []
depths_of sid ((v, d) ∷ items) =
    if has_session_id sid v then d ∷ depths_of sid items else depths_of sid items

-- `sorted_by(|a, b| a.cmp(b))`
unfoldable pub insert_sorted : ℕ → List ℕ → List ℕ
insert_sorted a [] = a ∷ []
insert_sorted a (b ∷ bs) = if leb a b then a ∷ b ∷ bs else b ∷ insert_sorted a bs

unfoldable pub sorted : List ℕ → List ℕ
unfolding insert_sorted
sorted [] = []
sorted (a ∷ ds) = insert_sorted a (sorted ds)

abbrev pub first : List ℕ → Option ℕ
first [] = none
first (a ∷ ds) = some a

unfoldable pub get_min_depth : RoutingInfo → Bytes → Option ℕ
unfolding recursive_iter_with_depth depths_of sorted
get_min_depth v sid = first (sorted (depths_of sid (recursive_iter_with_depth (v ∷ []))))

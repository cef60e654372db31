-- ===== src/Proto/Iter/Visits.antt =====
-- The iterator visits each node of the forest once, with its depth, and then stops.
use verse_entrance_server.Base.{
  ℕ, zero, suc, ◌+◌, ◌%◌, ◌≤◌, ◌≡◌, refl, ap, List, [], ◌∷◌, ◌++◌, append_assoc, arith,
}
use mathlib.Core.List.{Permᴰ}
use mathlib.Core.List.Permᴰ
use verse_entrance_server.Proto.Swarm.{
  RoutingInfo, Relation, RoutingInfos, routing_info, absent, count, routing_infos, nil, cons, infos,
  u32_mod,
}
use verse_entrance_server.Proto.Iter.{
  Stack, with_depth, run, size_list, stack_size, recursive_iter_with_depth,
}

-- The nodes of a tree, each with its depth, parents first.
abbrev mutual
  pub tree_nodes : RoutingInfo → ℕ → List (RoutingInfo × ℕ)
  tree_nodes (routing_info i r) d = (routing_info i r, d) ∷ below_nodes r ((d + 1) % u32_mod)

  pub below_nodes : Relation → ℕ → List (RoutingInfo × ℕ)
  below_nodes absent d = []
  below_nodes (count n) d = []
  below_nodes (routing_infos vs) d = forest_nodes vs d

  pub forest_nodes : RoutingInfos → ℕ → List (RoutingInfo × ℕ)
  forest_nodes nil d = []
  forest_nodes (cons v vs) d = tree_nodes v d ++ forest_nodes vs d

abbrev pub stack_nodes : Stack → List (RoutingInfo × ℕ)
stack_nodes [] = []
stack_nodes ((v, d) ∷ stack) = tree_nodes v d ++ stack_nodes stack

stack_nodes-append : (s t : Stack) → stack_nodes (s ++ t) ≡ stack_nodes s ++ stack_nodes t
stack_nodes-append [] t = refl
stack_nodes-append ((v, d) ∷ s) t = rw (stack_nodes-append s t, append_assoc)

stack_nodes-with_depth :
    (d : ℕ) (vs : RoutingInfos) → stack_nodes (with_depth d (infos vs)) ≡ forest_nodes vs d
stack_nodes-with_depth d nil = refl
stack_nodes-with_depth d (cons v vs) = ap (◌++◌ (tree_nodes v d)) (stack_nodes-with_depth d vs)

stack_size-append : (s t : Stack) → stack_size (s ++ t) ≡ stack_size s + stack_size t
unfolding stack_size
stack_size-append [] t = omega arith
stack_size-append ((v, d) ∷ s) t = omega (arith, stack_size-append s t)

stack_size-with_depth :
    (d : ℕ) (vs : RoutingInfos) → stack_size (with_depth d (infos vs)) ≡ size_list vs
unfolding stack_size
stack_size-with_depth d nil = refl
stack_size-with_depth d (cons v vs) = omega (arith, stack_size-with_depth d vs)

-- Children put at the back are visited after the rest of the queue.
children_last :
    (x : RoutingInfo × ℕ) (s : Stack) (d : ℕ) (vs : RoutingInfos)
    → Permᴰ
        (x ∷ stack_nodes (s ++ with_depth d (infos vs)))
        (x ∷ forest_nodes vs d ++ stack_nodes s)
children_last x s d vs = Permᴰ.cons refl (
    rw (stack_nodes-append s (with_depth d (infos vs)), stack_nodes-with_depth d vs)
      (Permᴰ.append_comm (stack_nodes s) (forest_nodes vs d)))

-- With fuel for every node, the items are the nodes of the queue, each once.
run-perm : (fuel : ℕ) (s : Stack) → stack_size s ≤ fuel → Permᴰ (run fuel s) (stack_nodes s)
unfolding run stack_size
run-perm zero [] h = Permᴰ.refl []
run-perm (suc fuel) [] h = Permᴰ.refl []
run-perm zero ((routing_info i r, d) ∷ s) h = absurd (omega arith)
run-perm (suc fuel) ((routing_info i absent, d) ∷ s) h =
    Permᴰ.cons refl (run-perm fuel s (omega arith))
run-perm (suc fuel) ((routing_info i (count n), d) ∷ s) h =
    Permᴰ.cons refl (run-perm fuel s (omega arith))
run-perm (suc fuel) ((routing_info i (routing_infos vs), d) ∷ s) h =
    let d' : ℕ = (d + 1) % u32_mod in
    Permᴰ.trans
      (Permᴰ.cons refl (
        run-perm fuel (s ++ with_depth d' (infos vs)) (
          omega
            (arith, stack_size-append s (with_depth d' (infos vs)), stack_size-with_depth d' vs))))
      (children_last _ s d' vs)

-- The fuel makes no difference once there is enough: the queue is empty by then.
run_stable : (f g : ℕ) (s : Stack) → stack_size s ≤ f → stack_size s ≤ g → run f s ≡ run g s
unfolding run stack_size
run_stable zero zero [] h k = refl
run_stable zero (suc g) [] h k = refl
run_stable (suc f) zero [] h k = refl
run_stable (suc f) (suc g) [] h k = refl
run_stable zero g ((routing_info i r, d) ∷ s) h k = absurd (omega arith)
run_stable (suc f) zero ((routing_info i r, d) ∷ s) h k = absurd (omega arith)
run_stable (suc f) (suc g) ((routing_info i absent, d) ∷ s) h k =
    rw (run_stable f g s (omega arith) (omega arith))
run_stable (suc f) (suc g) ((routing_info i (count n), d) ∷ s) h k =
    rw (run_stable f g s (omega arith) (omega arith))
run_stable (suc f) (suc g) ((routing_info i (routing_infos vs), d) ∷ s) h k =
    let d' : ℕ = (d + 1) % u32_mod in
    let t : Stack = with_depth d' (infos vs) in
    rw (
      run_stable f g (s ++ t) (omega (arith, stack_size-append s t, stack_size-with_depth d' vs))
        (omega (arith, stack_size-append s t, stack_size-with_depth d' vs)))

-- The breadth-first iterator over a forest yields exactly the nodes of the forest, each once and
-- with its depth modulo 2^32, and then stops: with any larger fuel it yields the same items.
pub recursive_iter_with_depth-perm :
    (vs : RoutingInfos) (extra : ℕ)
    → Permᴰ (recursive_iter_with_depth (infos vs)) (forest_nodes vs 0)
      × (run (size_list vs + extra) (with_depth 0 (infos vs))
          ≡ recursive_iter_with_depth (infos vs))
unfolding recursive_iter_with_depth
recursive_iter_with_depth-perm vs extra = (
  rw (← stack_nodes-with_depth 0 vs)
      (run-perm (stack_size (with_depth 0 (infos vs))) (with_depth 0 (infos vs)) (omega arith)),
  run_stable (size_list vs + extra) (stack_size (with_depth 0 (infos vs))) (with_depth 0 (infos vs))
      (omega (arith, stack_size-with_depth 0 vs)) (omega arith),
)

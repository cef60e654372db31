-- ===== src/Tests/Trees.antt =====
-- Trees of routing info.
use verse_entrance_server.Base.{
  ℕ, ◌+◌, ◌≤◌, ◌≡◌, refl, ◌↔◌, ◌||◌, none, some, List, [], ◌∷◌, arith, unwrap_or, length, All,
  Bytes, codes, bytes_eq,
}
use mathlib.Core.List.{Permᴰ}
use verse_entrance_server.Proto.Swarm.{
  has_session_id, NodeType, normal, gateway, tracker, SessionIdWithTtl, RoutingInfo, routing_info,
  absent, routing_infos, nil, cons, default_info, add_known, get_relation_count, get_relations,
}
use verse_entrance_server.Proto.SendData.{
  to_send_data, IsSendable, node_type, to_send_data-IsSendable,
}
use verse_entrance_server.Proto.Iter.{
  run, run_all, next, size_list, stack_size, size, with_depth, depths_of, sorted, insert_sorted,
  recursive_iter, recursive_iter_with_depth, get_min_depth, is_known,
}
use verse_entrance_server.Proto.Iter.Visits.{
  recursive_iter_with_depth-perm, forest_nodes, tree_nodes,
}
use verse_entrance_server.Proto.Iter.Search.{Holds, get_min_depth_iff}
use verse_entrance_server.Proto.Iter.Known.{is_known-add_known}
use verse_entrance_server.Proto.Gateways.{get_known_gateway_session_ids, find_tracker, entry}
use verse_entrance_server.Proto.Gateways.Hints.{hints, max_hint, join, InRange}
use verse_entrance_server.Proto.Gateways.Types.{
  find_ttl, last_type, typed, get_known_gateway_session_ids-ttl,
}

abbrev leaf : Bytes → NodeType → List SessionIdWithTtl → RoutingInfo
leaf id t known =
    routing_info
      (record default_info {
        session_id = some id;
        node_type = t;
        known_gateway_session_ids = known;
      })
      absent

-- A root with a gateway, and a normal node that has the root's id again.
abbrev tree : RoutingInfo
tree =
    routing_info (record default_info { session_id = some (codes "r"); node_type = normal })
      (routing_infos (
        cons (leaf (codes "g") gateway [])
          (cons (leaf (codes "r") normal (record { session_id = codes "x"; ttl = 3 } ∷ [])) nil)))

abbrev under_tracker : RoutingInfo
under_tracker =
    routing_info (record default_info { session_id = some (codes "t"); node_type = tracker })
      (routing_infos (cons (leaf (codes "g") gateway []) nil))

abbrev zero_hint : RoutingInfo
zero_hint = leaf (codes "n") normal (record { session_id = codes "x"; ttl = 0 } ∷ [])

recursive_iter_with_depth-perm_example :
    Permᴰ (recursive_iter_with_depth (tree ∷ [])) (forest_nodes (cons tree nil) 0)
    × (run (size_list (cons tree nil) + 5) (with_depth 0 (tree ∷ []))
        ≡ recursive_iter_with_depth (tree ∷ []))
recursive_iter_with_depth-perm_example = recursive_iter_with_depth-perm (cons tree nil) 5

root_depth : get_min_depth tree (codes "r") ≡ some 0
unfolding run run_all next size size_list stack_size recursive_iter recursive_iter_with_depth
    get_relations has_session_id bytes_eq get_min_depth depths_of sorted insert_sorted
root_depth = refl

get_min_depth_iff_example : (get_min_depth tree (codes "r") ≡ some 0) ↔ (
    Holds (codes "r") (tree_nodes tree 0) 0
    × ((e : ℕ) → Holds (codes "r") (tree_nodes tree 0) e → 0 ≤ e))
get_min_depth_iff_example = get_min_depth_iff tree (codes "r") 0

is_known-add_known_example :
    (is_known (add_known (codes "s") tree) (codes "s")
      ≡ (is_known tree (codes "s") || bytes_eq (codes "s") (codes "s")))
    × (get_relation_count (add_known (codes "s") tree)
        ≡ length (unwrap_or (get_relations tree) []) + 1)
is_known-add_known_example = is_known-add_known tree (codes "s") (codes "s")

to_send_data-IsSendable_example :
    IsSendable (to_send_data tree 1) 1 × (node_type (to_send_data tree 1) ≡ node_type tree)
to_send_data-IsSendable_example = to_send_data-IsSendable tree 1

no_tracker : find_tracker (recursive_iter (tree ∷ [])) ≡ none
unfolding run run_all next size size_list stack_size recursive_iter recursive_iter_with_depth
    get_relations has_session_id bytes_eq find_tracker
no_tracker = refl

in_range : All InRange (hints (recursive_iter (tree ∷ [])))
unfolding run run_all next size size_list stack_size recursive_iter recursive_iter_with_depth
    get_relations has_session_id bytes_eq
in_range = (omega arith, tt)

get_known_gateway_session_ids-ttl_example :
    find_ttl (codes "x") (get_known_gateway_session_ids (tree ∷ []))
    ≡ typed
        (last_type (codes "x") (recursive_iter (tree ∷ [])))
        (join none (max_hint (codes "x") (hints (recursive_iter (tree ∷ [])))))
get_known_gateway_session_ids-ttl_example =
    get_known_gateway_session_ids-ttl (tree ∷ []) (codes "x") no_tracker in_range

zero_no_tracker : find_tracker (recursive_iter (zero_hint ∷ [])) ≡ none
unfolding run run_all next size size_list stack_size recursive_iter recursive_iter_with_depth
    get_relations has_session_id bytes_eq find_tracker
zero_no_tracker = refl

zero_no_node : last_type (codes "x") (recursive_iter (zero_hint ∷ [])) ≡ none
unfolding run run_all next size size_list stack_size recursive_iter recursive_iter_with_depth
    get_relations has_session_id bytes_eq
zero_no_node = refl

zero_hints : hints (recursive_iter (zero_hint ∷ [])) ≡ entry (codes "x") 0 ∷ []
unfolding run run_all next size size_list stack_size recursive_iter recursive_iter_with_depth
    get_relations has_session_id bytes_eq
zero_hints = refl

tracker_found : find_tracker (recursive_iter (under_tracker ∷ [])) ≡ some under_tracker
unfolding run run_all next size size_list stack_size recursive_iter recursive_iter_with_depth
    get_relations has_session_id bytes_eq find_tracker
tracker_found = refl

lists_gateway : get_relations under_tracker ≡ some (leaf (codes "g") gateway [] ∷ [])
unfolding get_relations
lists_gateway = refl

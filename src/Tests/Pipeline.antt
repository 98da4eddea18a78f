-- ===== src/Tests/Pipeline.antt =====
-- The topology of a pipeline of three nodes, which join out of order.
use mo_link.Prelude.{
  String, ℤ, pos, negsuc, contains, insert, pop_key, sorted, index, ◌≡◌, refl, true, some, List, [],
  ◌∷◌, map, Perm,
}
use mo_link.Topology.{
  NodeInfo, PipelineTopology, init, remove_node, get_sorted_server_list, get_next_server,
  is_last_server, get_pp_rank, get_pp_size,
}
use mo_link.Topology.Invariant.{
  Change, joins, leaves, apply, IsConsistent, apply-IsConsistent, entry,
}
use mo_link.Topology.Order.{
  get_sorted_server_list-IsSorted, IsPlaced, IsPipelineOrder, member-IsPlaced,
}
use mo_link.Topology.Walk.{follow, follow-servers}

program : Unit {0}
unfolding init apply remove_node get_sorted_server_list get_next_server is_last_server get_pp_rank
    get_pp_size contains insert pop_key sorted index
program = tt

abbrev last_node : NodeInfo
last_node = record { ip = "c:1"; start_layer = pos 20; end_layer = negsuc 0 }

abbrev middle_node : NodeInfo
middle_node = record { ip = "b:1"; start_layer = pos 10; end_layer = pos 20 }

abbrev history : List Change
history =
    joins last_node
    ∷ joins (record middle_node { start_layer = pos 30 })
    ∷ joins (record middle_node { ip = "d:1" })
    ∷ joins middle_node
    ∷ leaves "d:1"
    ∷ []

abbrev three : PipelineTopology
three = apply (init "a:1" (pos 0) (pos 10)) history

servers_of_three : get_sorted_server_list three ≡ "a:1" ∷ "b:1" ∷ "c:1" ∷ []
unfolding program
servers_of_three = refl

ranks_of_three :
    (get_pp_rank three "c:1" ≡ 2)
    × (get_next_server three "a:1" ≡ some "b:1")
    × (is_last_server three "c:1" ≡ true)
    × (get_pp_size three ≡ 3)
unfolding program
ranks_of_three = (refl, refl, refl, refl)

three-IsConsistent : IsConsistent three
three-IsConsistent = apply-IsConsistent "a:1" (pos 0) (pos 10) history

apply-IsConsistent_example : IsConsistent (apply (init "a:1" (pos 0) (pos 10)) history)
apply-IsConsistent_example = apply-IsConsistent "a:1" (pos 0) (pos 10) history

get_sorted_server_list-IsSorted_example :
    (items : List (String × ℤ)) × (get_sorted_server_list three ≡ map (λ e. e.0) items)
    × IsPipelineOrder items
    × Perm items (map entry three.node_pool)
get_sorted_server_list-IsSorted_example = get_sorted_server_list-IsSorted three three-IsConsistent

member-IsPlaced_example : IsPlaced three "b:1"
unfolding program
member-IsPlaced_example = member-IsPlaced three "b:1" three-IsConsistent refl

follow-servers_example : follow 3 three "a:1" ≡ "a:1" ∷ "b:1" ∷ "c:1" ∷ []
follow-servers_example =
    follow-servers three three-IsConsistent "a:1" ("b:1" ∷ "c:1" ∷ []) servers_of_three

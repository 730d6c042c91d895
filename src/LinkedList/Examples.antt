-- ===== src/LinkedList/Examples.antt =====
-- The theorems on lists at a list of two nodes.
use fantom_os.Base.{◌≡◌, refl, some, none, [], ◌∷◌, ◌==◌, if◌then◌else◌, null, arith}
use fantom_os.NodeHeap.{Heap, node}
use fantom_os.NodeHeap.Ran.{Ran}
use fantom_os.LinkedList.{LinkedList, add_node, remove_node, get_node_by_index, get_node_by_data}
use fantom_os.LinkedList.Add.{Added, add_node-Added}
use fantom_os.LinkedList.Get.{get_node_by_index_lem, get_node_by_data_lem}
use fantom_os.LinkedList.Remove.{Removed, remove_node-Removed}
use fantom_os.LinkedList.Seg.{Cells, IsList}

abbrev two_nodes : Heap
two_nodes p =
    if p == 16 then some (node 5 32 null) else if p == 32 then some (node 6 null 16) else none

abbrev two_list : LinkedList
two_list = record { items = 2; front = 16; back = 32 }

abbrev two_cells : Cells
two_cells = (16, 5) ∷ (32, 6) ∷ []

two_list-IsList : IsList two_nodes two_list two_cells
two_list-IsList = record {
  count = refl;
  small = omega arith;
  front = refl;
  back = refl;
  chain = (omega arith, refl, (omega arith, refl, tt));
  distinct = (refl, (refl, tt));
}

add_node-Added_example : Ran (Added two_nodes two_cells (48, 7)) (add_node 48 two_list 7 two_nodes)
add_node-Added_example =
    add_node-Added 48 7 two_cells (omega arith) refl two_list-IsList (omega arith)

remove_node-Removed_example :
    Ran (Removed two_nodes [] 16 5 ((32, 6) ∷ [])) (remove_node two_list 16 two_nodes)
remove_node-Removed_example = remove_node-Removed [] 16 5 ((32, 6) ∷ []) two_list-IsList

get_node_by_index_lem_example : get_node_by_index two_list 1 two_nodes ≡ some (32, two_nodes)
get_node_by_index_lem_example = get_node_by_index_lem two_cells 1 two_list-IsList

get_node_by_data_lem_example : get_node_by_data two_list 6 two_nodes ≡ some (32, two_nodes)
get_node_by_data_lem_example = get_node_by_data_lem two_cells 6 two_list-IsList

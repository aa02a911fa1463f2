-- ===== src/LinkedList/Tests.antt =====
-- A list of two nodes, for the tests of kernel/lib/src/DataStructures/LinkedList.cpp.
use frosty_os.Prelude.{
  ◌≡◌, refl, not, [], ◌∷◌, Outcome, done, assert_failed, diverged, true, ◌==◌, if◌then◌else◌,
}
use frosty_os.VmRegions.Pool as Pool
use frosty_os.LinkedList.{Heap, length_of, find_node, insert_node, delete_node}
use frosty_os.LinkedList.{find_last, delete_first, delete_later, seek}
use frosty_os.LinkedList.Simple.{
  SimpleLinkedList, rotate_left, rotate_right, node_at, insert_at, place_of, link_behind, get,
  enumerate, visit, destroy_from, remove,
}
use frosty_os.LinkedList.Rear as Rear
use frosty_os.LinkedList.Rear.{
  RearInsertLinkedList, IteratorDecision, delete, enumerate_delete, enumerate_delete_from, cut,
  skip,
}
use frosty_os.LinkedList.Search.{IsList, contents, first_with, walk_lem}
use frosty_os.LinkedList.Insert.{insert_node_lem}
use frosty_os.LinkedList.Delete.{delete_node_lem}

-- The words 7 and 9, in the nodes 16 and 32
abbrev two_nodes : Heap
two_nodes a =
    if a == 16
    then record { previous = 0; value = 7; next = 32 }
    else record { previous = 16; value = 9; next = 0 }

two_nodes-IsList : IsList two_nodes (16 ∷ 32 ∷ [])
two_nodes-IsList = (refl, refl, refl, (refl, tt), (refl, refl, refl, tt, tt))

walk_lem_example :
    (length_of two_nodes 2 16 ≡ done 2)
    × (find_node two_nodes 2 16 9 ≡ done (first_with two_nodes 9 (16 ∷ 32 ∷ [])))
    × ((first_with two_nodes 9 (16 ∷ 32 ∷ []) == 0)
        ≡ not (Pool.has_node (contents two_nodes (16 ∷ 32 ∷ [])) 9))
walk_lem_example = walk_lem two_nodes 9 (16 ∷ 32 ∷ []) two_nodes-IsList

insert_node_lem_example :
    (g : Heap) × (insert_node two_nodes 2 16 5 48 ≡ done (g, 16))
    × IsList g (16 ∷ 32 ∷ 48 ∷ [])
    × (contents g (16 ∷ 32 ∷ 48 ∷ []) ≡ 7 ∷ 9 ∷ 5 ∷ [])
insert_node_lem_example =
    insert_node_lem two_nodes 5 48 (16 ∷ 32 ∷ []) two_nodes-IsList (refl, (refl, tt)) refl

delete_node_lem_example :
    (g : Heap) × (delete_node two_nodes 2 16 9 ≡ done (g, 16))
    × IsList g (16 ∷ [])
    × (contents g (16 ∷ []) ≡ Pool.delete_node (7 ∷ 9 ∷ []) 9)
delete_node_lem_example =
    delete_node_lem two_nodes 9 32 (16 ∷ []) [] two_nodes-IsList (refl, tt) refl

abbrev two_objects : SimpleLinkedList
two_objects = record { heap = two_nodes; count = 2; start = 16 }

abbrev or_two : Outcome SimpleLinkedList → SimpleLinkedList
or_two (done l) = l
or_two assert_failed = two_objects
or_two diverged = two_objects

-- `rotateLeft` puts the first object last.
left_run : enumerate (or_two (rotate_left two_objects 2)) (λ x. true) ≡ 9 ∷ 7 ∷ []
unfolding rotate_left visit find_last
left_run = refl

-- After `rotateRight` the second node still points to the first: no node is the last.
right_run : node_at (or_two (rotate_right two_objects 2)).heap 2 32 ≡ 32
unfolding rotate_right node_at find_last
right_run = refl

-- An object that is inserted at index 1 of two is at index 2.
insert_at_run : get (insert_at two_objects 1 5 48) 2 ≡ 5
unfolding insert_at get node_at place_of link_behind
insert_at_run = refl

-- The destructor of a list of two objects leaves one.
destroy_run : (or_two (destroy_from two_objects 2 0)).count ≡ 1
unfolding destroy_from remove get node_at delete_node delete_first
destroy_run = refl

-- The removal of an object that is not there is counted.
absent_run : (or_two (remove two_objects 2 8)).count ≡ 1
unfolding remove delete_node seek
absent_run = refl

abbrev two_rear : RearInsertLinkedList
two_rear = record { heap = two_nodes; count = 2; start = 16; end = 32 }

abbrev or_rear : Outcome RearInsertLinkedList → RearInsertLinkedList
or_rear (done l) = l
or_rear assert_failed = two_rear
or_rear diverged = two_rear

-- After the removal of the last object, the node that was freed is still the last one.
rear_run : (or_rear (Rear.remove two_rear 2 9)).end ≡ 32
unfolding Rear.remove delete_node seek delete_later
rear_run = refl

-- `EnumerateDelete` that deletes each object empties the list.
delete_all_run : (or_rear (enumerate_delete two_rear 2 (λ x i. delete) 0)).start ≡ 0
unfolding enumerate_delete_from cut skip
delete_all_run = refl

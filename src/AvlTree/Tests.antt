-- ===== src/AvlTree/Tests.antt =====
-- A tree of two entries, for the tests of kernel/lib/include/DataStructures/AVLTree.hpp.
use frosty_os.Prelude.{ℕ, ◌≡◌, refl, List, [], ◌∷◌, none, some}
use frosty_os.AvlTree.{find_node_or_lower, previous_node, next_node}
use frosty_os.AvlTree.Assoc.{assoc_tree, list_order, best, add}

abbrev two_entries : List (ℕ × ℕ)
two_entries = (3, 30) ∷ (5, 50) ∷ []

lower_run : find_node_or_lower assoc_tree (list_order ℕ) two_entries 4 ≡ some 3
unfolding find_node_or_lower best add
lower_run = refl

next_run : next_node assoc_tree (list_order ℕ) two_entries 3 ≡ some 5
unfolding best
next_run = refl

previous_run : previous_node assoc_tree (list_order ℕ) two_entries 3 ≡ none
unfolding best
previous_run = refl

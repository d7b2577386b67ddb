-- ===== src/LinkedList/Tests.antt =====
-- source/linkedlist.c at concrete lists.
use iosdbg.Base.{◌≡◌, refl, false, none, some, [], ◌∷◌, arith}
use iosdbg.LinkedList.{
  null, Heap, LinkedList, write, linkedlist_new, linkedlist_add, linkedlist_delete,
  linkedlist_contains, linkedlist_add_front,
}
use iosdbg.LinkedList.Chain.{Cells, Holds, node}
use iosdbg.LinkedList.Add.{AddPost, linkedlist_add-add_item}
use iosdbg.LinkedList.Delete.{DeletePost, linkedlist_delete-delete_item}
use iosdbg.LinkedList.Contains.{linkedlist_contains-but_last}

-- Two nodes, at 16 and 32, with the items 7 and 8.
abbrev two : Heap
unfolding write
two = write (write (λ _. none) 32 (some (node 8 null))) 16 (some (node 7 32))

abbrev two_list : LinkedList
two_list = record { front = 16 }

abbrev two_cells : Cells
two_cells = (16, 7) ∷ (32, 8) ∷ []

two-Holds : Holds two two_list two_cells
unfolding write
two-Holds = record {
  front = refl;
  chain = (omega arith, refl, refl, (omega arith, refl, refl, tt));
}

add_to_empty :
    linkedlist_add 1 48 linkedlist_new 9 two ≡ some (linkedlist_add_front 48 linkedlist_new 9 two)
unfolding linkedlist_add linkedlist_new
add_to_empty = refl

linkedlist_add-add_item_example : AddPost two 48 9 two_cells (linkedlist_add 3 48 two_list 9 two)
unfolding write
linkedlist_add-add_item_example =
    linkedlist_add-add_item 3 48 two_list 9 two two_cells two-Holds (omega arith) refl (omega arith)

linkedlist_delete-delete_item_example :
    DeletePost two 8 two_cells (linkedlist_delete 3 two_list 8 two)
linkedlist_delete-delete_item_example =
    linkedlist_delete-delete_item 3 two_list 8 two two_cells two-Holds (omega arith)

-- The last item is not found.
linkedlist_contains-but_last_example : linkedlist_contains 3 two_list 8 two ≡ some false
linkedlist_contains-but_last_example =
    linkedlist_contains-but_last 3 two_list 8 two two_cells two-Holds (omega arith)

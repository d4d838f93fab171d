-- ===== src/SkipList/Tests.antt =====
-- Runs of a skip list with two nodes.
use mirdb.Prelude.{◌≤◌, ◌≡◌, refl, arith, none, some, List, [], ◌∷◌, codes}
use mirdb.Memtable.{MapLaws}
use mirdb.SkipList.{SkipListNode, Heap, SkipList, set_node, get, entries}
use mirdb.SkipList.Cells.{Cell}
use mirdb.SkipList.Invariant.{IsList}
use mirdb.SkipList.Lookup.{get-find}
use mirdb.SkipList.Replace.{IsPut, insert-IsPut}
use mirdb.SkipList.Remove.{IsDeleted, remove-IsDeleted}
use mirdb.SkipList.Clear.{entries_lem, IsCleared, clear-IsCleared}
use mirdb.SkipList.AsMap.{list_ops, list_ops-MapLaws}

abbrev low_cell : Cell
low_cell = record { ptr = 1; key = codes "a"; value = codes "x"; height = 0 }

abbrev high_cell : Cell
high_cell = record { ptr = 2; key = codes "c"; value = codes "y"; height = 1 }

abbrev two_cells : List Cell
two_cells = low_cell ∷ high_cell ∷ []

abbrev head_node : SkipListNode
head_node = record { nexts = some 1 ∷ some 2 ∷ []; key = []; value = [] }

abbrev low_node : SkipListNode
low_node = record { nexts = some 2 ∷ []; key = codes "a"; value = codes "x" }

abbrev high_node : SkipListNode
high_node = record { nexts = none ∷ none ∷ []; key = codes "c"; value = codes "y" }

abbrev no_nodes : Heap
no_nodes p = none

abbrev two_list : SkipList
two_list = record {
  heap =
      set_node (set_node (set_node no_nodes 0 (some head_node)) 1 (some low_node)) 2
        (some high_node);
  top = 3;
  head = 0;
  length = 2;
  height = 1;
  max_height = 1;
}

two_list-IsList : IsList two_list two_cells
two_list-IsList = record {
  head_key = [];
  head_value = [];
  head_at = refl;
  run = (refl, (refl, tt));
  fresh = ((λ e. omega arith), ((λ e. omega arith), tt));
  distinct = (((λ e. omega arith), tt), (tt, tt));
  head_below = omega arith;
  below_top = (omega arith, (omega arith, tt));
  heights = (omega arith, (omega arith, tt));
  height_max = omega arith;
  sorted = ((refl, tt), (tt, tt));
  count = refl;
}

get-find_example : get (codes "c") two_list ≡ some (some (codes "y"))
get-find_example = get-find two_list two_cells (codes "c") two_list-IsList

insert-IsPut_example : IsPut two_list two_cells 1 (codes "b") (codes "z")
insert-IsPut_example =
    insert-IsPut two_list two_cells 1 (codes "b") (codes "z") two_list-IsList (omega arith)

remove-IsDeleted_example : IsDeleted two_list two_cells (codes "a")
remove-IsDeleted_example = remove-IsDeleted two_list two_cells (codes "a") two_list-IsList

entries_lem_example : entries two_list ≡ some ((codes "a", codes "x") ∷ (codes "c", codes "y") ∷ [])
entries_lem_example = entries_lem two_list two_cells two_list-IsList

clear-IsCleared_example : IsCleared two_list two_cells ([], [])
clear-IsCleared_example = clear-IsCleared two_list two_cells ([], []) two_list-IsList

zero_max : (l : SkipList) → 0 ≤ l.max_height
zero_max l = omega arith

list_ops-MapLaws_example : MapLaws (list_ops (λ l. 0) zero_max ([], []) 10)
list_ops-MapLaws_example = list_ops-MapLaws (λ l. 0) zero_max ([], []) 10

-- ===== src/SkipList/AsMap.antt =====
-- The skip list as the map that the tables in memory use.
use mirdb.Prelude.{
  ℕ, ◌≤◌, ◌≡◌, refl, sym, ap, ◌∙◌, Bool, true, false, Option, none, some, List, [], ◌∷◌,
  if◌then◌else◌, Slice, bytes_eq, bytes_eq→eq, bytes_lt, bytes_lt_irrefl,
}
use mirdb.Memtable.{MapOps, MapLaws}
use mirdb.SkipList.{SkipList, Heap, new, get, insert}
use mirdb.SkipList.Spec
use mirdb.SkipList.Cells.{Cell}
use mirdb.SkipList.Sorted.{cell_entries}
use mirdb.SkipList.Invariant.{IsList}
use mirdb.SkipList.Lookup.{get-find}
use mirdb.SkipList.Replace.{insert-IsPut}
use mirdb.SkipList.Clone.{clone-IsCloned}
use mirdb.SkipList.Clear.{new-IsList, clear-IsCleared}

find-put :
    (k j v : Slice) (es : Spec.Entries)
    → Spec.find j (Spec.put k v es) ≡ (if bytes_eq k j then some v else Spec.find j es)
find-put k j v [] = refl
find-put k j v (e ∷ es) = go (bytes_lt e.0 k) refl (bytes_eq e.0 k) refl (find-put k j v es)
  where
    apart :
        (b c : Bool)
        → bytes_eq e.0 j ≡ b
        → bytes_eq k j ≡ c
        → bytes_lt e.0 k ≡ true
        → {A : Type 0} (x y z : A)
        → (if b then x else if c then y else z) ≡ (if c then y else if b then x else z)
    apart true true p q h x y z =
        let a = bytes_eq→eq e.0 j p in
        let b = bytes_eq→eq k j q in
        let i = bytes_lt_irrefl k in
        let h' : bytes_lt k k ≡ true = ap (λ t. bytes_lt t k) (b ∙ sym a) ∙ h in cc
    apart true false p q h x y z = refl
    apart false c p q h x y z = refl

    go :
        (b : Bool)
        → bytes_lt e.0 k ≡ b
        → (c : Bool) → bytes_eq e.0 k ≡ c
        → Spec.find j (Spec.put k v es) ≡ (if bytes_eq k j then some v else Spec.find j es)
        → Spec.find j
            (if b then e ∷ Spec.put k v es else if c then (e.0, v) ∷ es else (k, v) ∷ e ∷ es)
          ≡ (if bytes_eq k j then some v else Spec.find j (e ∷ es))
    go true h c y ih =
        rw (ih)
          (apart (bytes_eq e.0 j) (bytes_eq k j) refl refl h (some e.1) (some v) (Spec.find j es))
    go false h true y ih = let x = bytes_eq→eq e.0 k y in rw (x) (same (bytes_eq k j))
      where
        same :
            (b : Bool)
            → (if b then some v else Spec.find j es)
              ≡ (if b then some v else if b then some e.1 else Spec.find j es)
        same true = refl
        same false = refl
    go false h false y ih = refl

-- A well-formed list with its cells.
pub record WellList : Type 0 where
  pub list : SkipList
  pub cells : List Cell
  pub well : IsList list cells

-- An answer that is there.
abbrev pub answer : Option (Option Slice) → Option Slice
answer none = none
answer (some v) = v

-- The map of the skip list, for heights that a generator chooses below the maximum.
module _ (choose : SkipList → ℕ) (choose_max : (l : SkipList) → choose l ≤ l.max_height)
    (junk : Slice × Slice) (max_height : ℕ) where
  abbrev pub no_heap : Heap
  no_heap p = none

  abbrev pub list_find : Slice → WellList → Option Slice
  list_find k m = answer (get k m.list)

  abbrev pub list_put : Slice → Slice → WellList → WellList × Option Slice
  list_put k v m =
      let p = insert-IsPut m.list m.cells (choose m.list) k v m.well (choose_max m.list) in
      (
        record { list = p.list; cells = p.cells'; well = p.well },
        Spec.find k (cell_entries m.cells),
      )

  abbrev pub list_cleared : WellList → WellList
  list_cleared m =
      let p = clear-IsCleared m.list m.cells junk m.well in
      record { list = p.list; cells = []; well = p.well }

  abbrev pub list_clone : WellList → WellList
  list_clone m =
      let p = clone-IsCloned choose choose_max junk m.list m.cells m.well in
      record { list = p.list; cells = p.cells'; well = p.well }

  abbrev pub list_ops : MapOps
  list_ops = record {
    Map = WellList;
    empty = record {
      list = new junk no_heap 0 max_height;
      cells = [];
      well = new-IsList junk no_heap 0 max_height;
    };
    find = list_find;
    put = list_put;
    cleared = list_cleared;
    clone = list_clone;
  }

  -- What `put` answers and leaves is what `insert` does.
  list_put-insert :
      (k v : Slice) (m : WellList)
      → insert (choose m.list) k v m.list ≡ some ((list_put k v m).0.list, (list_put k v m).1)
  list_put-insert k v m =
      (insert-IsPut m.list m.cells (choose m.list) k v m.well (choose_max m.list)).done

  found : (k : Slice) (m : WellList) → list_find k m ≡ Spec.find k (cell_entries m.cells)
  found k m = ap answer (get-find m.list m.cells k m.well)

  -- The skip list keeps the laws of the map that the tables in memory rely on: what is put under a key is
  -- found under it, other keys keep their values, a copy has what the list has, and nothing is found in a
  -- cleared list. This holds
  -- for every choice of heights up to the maximum.
  pub list_ops-MapLaws : MapLaws list_ops
  list_ops-MapLaws = record {
    find_put = λ k j v m.
        let p = insert-IsPut m.list m.cells (choose m.list) k v m.well (choose_max m.list) in
        found j (list_put k v m).0
        ∙ ap (Spec.find j) p.holds
        ∙ find-put k j v (cell_entries m.cells)
        ∙ ap (λ t. if bytes_eq k j then some v else t) (sym (found j m));
    find_cleared = λ k m. found k (list_cleared m);
    find_clone = λ k m.
        let p = clone-IsCloned choose choose_max junk m.list m.cells m.well in
        found k (list_clone m) ∙ ap (Spec.find k) p.holds ∙ sym (found k m);
  }

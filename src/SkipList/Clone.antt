-- ===== src/SkipList/Clone.antt =====
-- A copy of a skip list.
use mirdb.Prelude.{
  ℕ, ◌≤◌, ◌≡◌, refl, sym, ap, ◌∙◌, true, some, List, [], ◌∷◌, ◌++◌, append_assoc, append-nil, Slice,
  All, bytes_lt, bind,
}
use mathlib.Core.Path.{subst}
use mirdb.SkipList.{SkipList, new, insert_all, clone}
use mirdb.SkipList.Spec
use mirdb.SkipList.Cells.{Cell}
use mirdb.SkipList.Search.{IsBelow}
use mirdb.SkipList.Sorted.{cell_entries, cell_entries-append, IsSorted, put-before}
use mirdb.SkipList.Invariant.{IsList}
use mirdb.SkipList.Replace.{insert-IsPut}
use mirdb.SkipList.Clear.{new-IsList, entries_lem}

-- A well-formed list with the same entries.
pub record IsCloned (choose : SkipList → ℕ) (junk : Slice × Slice) (l : SkipList)
    (cells : List Cell) : Type 0 where
  pub list : SkipList
  pub cells' : List Cell
  pub done : clone choose junk l ≡ some list
  pub well : IsList list cells'
  pub holds : cell_entries cells' ≡ cell_entries cells

-- The cells before others in a sorted list are below the first of these.
sorted-IsBelow :
    (before : List Cell) (c : Cell) (cs : List Cell)
    → IsSorted (before ++ (c ∷ cs))
    → IsBelow c.key before
sorted-IsBelow [] c cs s = tt
sorted-IsBelow (b ∷ before) c cs s = (middle before s.0, sorted-IsBelow before c cs s.1)
  where
    middle :
        (xs : List Cell)
        → All (λ d. bytes_lt b.key d.key ≡ true) (xs ++ (c ∷ cs))
        → bytes_lt b.key c.key ≡ true
    middle [] h = h.0
    middle (x ∷ xs) h = middle xs h.1

module _ (choose : SkipList → ℕ) (choose_max : (l : SkipList) → choose l ≤ l.max_height) where
  -- Entries that come behind those of the list are put at its end, one by one.
  insert_all_lem :
      (cs before : List Cell) (l : SkipList) (cells : List Cell)
      → IsList l cells
      → cell_entries cells ≡ cell_entries before
      → IsSorted (before ++ cs)
      → (list : SkipList) × (cells' : List Cell) × (insert_all choose (cell_entries cs) l
          ≡ some list)
        × IsList list cells'
        × (cell_entries cells' ≡ cell_entries (before ++ cs))
  unfolding insert_all
  insert_all_lem [] before l cells w h s =
      (l, cells, refl, w, h ∙ ap cell_entries (sym (append-nil before)))
  insert_all_lem (c ∷ cs) before l cells w h s =
      let p = insert-IsPut l cells (choose l) c.key c.value w (choose_max l) in
      let put : Spec.put c.key c.value (cell_entries before) ≡ cell_entries (before ++ (c ∷ [])) =
        ap (λ b. Spec.put c.key c.value (cell_entries b)) (sym (append-nil before))
        ∙ put-before c.key c.value before [] (sorted-IsBelow before c cs s)
        ∙ sym (cell_entries-append before (c ∷ [])) in
      let one : before ++ (c ∷ cs) ≡ (before ++ (c ∷ [])) ++ cs =
        sym (append_assoc before (c ∷ []) cs) in
      let (list, cells', e, w', h') =
        insert_all_lem cs (before ++ (c ∷ [])) p.list p.cells' p.well
          (p.holds ∙ ap (Spec.put c.key c.value) h ∙ put) (subst IsSorted one s) in
      (list, cells', rw (insert_all, p.done, bind) e, w', h' ∙ ap cell_entries (sym one))

  -- `clone` makes of a well-formed list a well-formed one with the same entries, whatever heights up to
  -- the maximum the generator gives, and without undefined behaviour.
  pub clone-IsCloned :
      (junk : Slice × Slice) (l : SkipList) (cells : List Cell)
      → IsList l cells
      → IsCloned choose junk l cells
  unfolding clone
  clone-IsCloned junk l cells w =
      let (list, cells', e, w', h) =
        insert_all_lem cells [] (new junk l.heap l.top l.max_height) []
          (new-IsList junk l.heap l.top l.max_height) refl w.sorted in
      record {
        list = list;
        cells' = cells';
        done = rw (clone, entries_lem l cells w, bind) e;
        well = w';
        holds = h;
      }

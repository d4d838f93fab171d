-- ===== src/SkipList/Remove.antt =====
-- `remove` on a well-formed list.
use mirdb.Prelude.{
  Option, false, All-map, ℕ, zero, suc, ◌+◌, ◌≤◌, ◌<◌, ◌≡◌, refl, sym, ap, ◌∙◌, Bool, true, false,
  none, some, List, [], ◌∷◌, ◌++◌, length-append, get_elem?, leb, ◌==◌, if◌then◌else◌, Slice,
  bytes_eq, bytes_lt, All, arith, bind, Bool-cases, inl, inr,
}
use mathlib.Core.Path.{subst}
use mirdb.SkipList.{
  Ptr, SkipListNode, Heap, SkipList, set_node, shrunk, node_height, unlink, remove,
}
use mirdb.SkipList.Spec
use mirdb.SkipList.Cells.{
  levels, length-levels, get_elem?-levels, put, put_other, Cell, first, first-append, first_ext,
  pred, node_of, node_of_ext, IsRun-ext, IsRun-join, IsDistinct,
}
use mirdb.SkipList.Search.{IsBelow}
use mirdb.SkipList.Sorted.{
  cell_entry, cell_entries, cell_entries-append, IsSorted, IsAbove, split, find-before, find-behind,
  delete-before, lt-not_eq',
}
use mirdb.SkipList.Invariant.{null, IsList, All-split, updates_lem}
use mirdb.SkipList.Lookup.{found_lem, IsSorted-split, IsDistinct-split}
use mirdb.SkipList.Link.{IsApart, IsOpen, IsNew, IsOpen-set_node, write-IsStep}
use mirdb.SkipList.Insert.{list-IsApart, list-IsOpen}
use mirdb.SkipList.Replace.{above-strict}

-- The levels below `i` are unlinked.
record IsUnlinking (heap : Heap) (head n : ℕ) (hk hv : Slice) (before after : List Cell) (c : Cell)
    (i : ℕ) : Type 0 where
  base : ℕ → Ptr
  opened : IsOpen heap head n hk hv base before (c ∷ after)
  todo : (j : ℕ) → i ≤ j → base j ≡ first (c ∷ after) null j
  done : (j : ℕ) → j < i → base j ≡ first after null j

module _ (head n : ℕ) (hk hv : Slice) (before after : List Cell) (c : Cell)
    (a : IsApart head before (c ∷ after)) where
  abbrev node : SkipListNode
  node = node_of (first after null) (c.height + 1) c.key c.value

  unlink-step :
      (rounds i : ℕ) (updates : List ℕ) (heap : Heap)
      → IsUnlinking heap head n hk hv before after c i
      → get_elem? updates i ≡ some (pred head i before)
      → i < n
      → i < c.height + 1
      → (heap' : Heap) × (unlink (suc rounds) i updates node heap
          ≡ unlink rounds (suc i) updates node heap')
        × IsUnlinking heap' head n hk hv before after c (suc i)
  unfolding unlink
  unlink-step rounds i updates heap s u l k =
      let x = first after null i in
      let z : 0 + i ≡ i = omega arith in
      let g : get_elem? node.nexts i ≡ some x =
        get_elem?-levels (first after null) 0 (c.height + 1) i k
        ∙ ap (λ j. some (first after null j)) z in
      let m = write-IsStep heap head n hk hv s.base before (c ∷ after) i x a s.opened l in
      (
        m.heap',
        rw (unlink, u, g, m.done),
        record {
          base = put s.base i x;
          opened = m.opened;
          todo = λ j q. put_other s.base i x j (omega arith) ∙ s.todo j (omega arith);
          done = λ j q. go s j q (j == i) refl;
        },
      )
    where
      go :
          (s : IsUnlinking heap head n hk hv before after c i) (j : ℕ)
          → j < suc i
          → (b : Bool) → (j == i) ≡ b
          → (if b then first after null i else s.base j) ≡ first after null j
      go s j q true e = let f : j ≡ i = ground arith in ap (first after null) (sym f)
      go s j q false e = s.done j (ground arith)

  unlink_lem :
      (rounds i : ℕ) (updates : List ℕ) (heap : Heap)
      → IsUnlinking heap head n hk hv before after c i
      → updates ≡ levels (λ j. pred head j before) 0 n
      → i + rounds ≡ c.height + 1
      → c.height < n
      → (heap' : Heap) × (unlink rounds i updates node heap ≡ some heap')
        × IsUnlinking heap' head n hk hv before after c (c.height + 1)
  unfolding unlink
  unlink_lem zero i updates heap s u k l =
      (heap, refl, subst (IsUnlinking heap head n hk hv before after c) (omega arith) s)
  unlink_lem (suc rounds) i updates heap s u k l =
      let z : 0 + i ≡ i = omega arith in
      let g : get_elem? updates i ≡ some (pred head i before) =
        ap (λ t. get_elem? t i) u
        ∙ get_elem?-levels (λ j. pred head j before) 0 n i (omega arith)
        ∙ ap (λ j. some (pred head j before)) z in
      let (heap1, e, s1) = unlink-step rounds i updates heap s g (omega arith) (omega arith) in
      let (heap', e', s') = unlink_lem rounds (suc i) updates heap1 s1 u (omega arith) l in
      (heap', e ∙ e', s')

All-remove {κ} :
    (P : Cell → Type κ) (xs ys : List Cell) (c : Cell) → All P (xs ++ (c ∷ ys)) → All P (xs ++ ys)
All-remove P [] ys c h = h.1
All-remove P (x ∷ xs) ys c h = (h.0, All-remove P xs ys c h.1)

IsDistinct-remove :
    (xs ys : List Cell) (c : Cell) → IsDistinct (xs ++ (c ∷ ys)) → IsDistinct (xs ++ ys)
IsDistinct-remove [] ys c d = d.1
IsDistinct-remove (x ∷ xs) ys c d = (All-remove _ xs ys c d.0, IsDistinct-remove xs ys c d.1)

IsSorted-remove : (xs ys : List Cell) (c : Cell) → IsSorted (xs ++ (c ∷ ys)) → IsSorted (xs ++ ys)
IsSorted-remove [] ys c d = d.1
IsSorted-remove (x ∷ xs) ys c d = (All-remove _ xs ys c d.0, IsSorted-remove xs ys c d.1)

delete_absent :
    (key : Slice) (cs : List Cell)
    → All (λ d. bytes_lt key d.key ≡ true) cs
    → Spec.delete key (cell_entries cs) ≡ cell_entries cs
delete_absent key [] s = refl
delete_absent key (c ∷ cs) s =
    rw (lt-not_eq' c.key key s.0) (ap (λ t. cell_entry c ∷ t) (delete_absent key cs s.1))

-- The list behind the removal of a cell.
record IsUnlinked (l : SkipList) (updates : List ℕ) (before after : List Cell) (c : Cell)
    : Type 0 where
  heap' : Heap
  done :
      unlink
        (node_height (node_of (first after null) (c.height + 1) c.key c.value) + 1)
        0
        updates
        (node_of (first after null) (c.height + 1) c.key c.value)
        l.heap
      ≡ some heap'
  well : IsList (shrunk l (set_node heap' c.ptr none)) (before ++ after)

unlink-IsUnlinked :
    (l : SkipList) (updates : List ℕ) (before after : List Cell) (c : Cell)
    → IsList l (before ++ (c ∷ after))
    → updates ≡ levels (λ j. pred l.head j before) 0 (l.max_height + 1)
    → IsUnlinked l updates before after c
unlink-IsUnlinked l updates before after c w u =
    let apart = list-IsApart l before (c ∷ after) w in
    let n = l.max_height + 1 in
    let h = (All-split _ before (c ∷ after) w.heights).1.0 in
    let start : IsUnlinking l.heap l.head n w.head_key w.head_value before after c 0 = record {
      base = first (c ∷ after) null;
      opened = list-IsOpen l before (c ∷ after) w;
      todo = λ j k. refl;
      done = λ j k. absurd (omega arith);
    } in
    let rounds : node_height (node_of (first after null) (c.height + 1) c.key c.value) + 1
        ≡ c.height + 1 =
      omega (arith, length-levels (first after null) 0 (c.height + 1)) in
    let (heap', e, s) =
      unlink_lem l.head n w.head_key w.head_value before after c apart (c.height + 1) 0 updates
        l.heap start u (omega arith) (omega (arith, w.height_max)) in
    let fresh : IsNew l.head before after c.ptr = record {
      not_head = apart.behind.0.0;
      fresh = All-map _ _ before (λ x k e. k e) apart.behind.0.1;
      fresh_behind = (IsDistinct-split before (c ∷ after) w.distinct).1.0;
    } in
    let o : IsOpen heap' l.head n w.head_key w.head_value s.base before after = record {
      head_at = s.opened.head_at;
      run_before = s.opened.run_before;
      run_after = s.opened.run_after.1;
    } in
    let o' =
      IsOpen-set_node heap' l.head n w.head_key w.head_value s.base before after c.ptr none fresh
        o in
    let based : (j : ℕ) → s.base j ≡ first after null j = λ j.
      go (leb j c.height) (s.base j) (first after null j) (λ k. s.done j (ground arith))
        (λ k. s.todo j (ground arith) ∙ rw (k)) in
    record {
      heap' = heap';
      done = rw (rounds) e;
      well = record {
        head_key = w.head_key;
        head_value = w.head_value;
        head_at =
            o'.head_at
            ∙ ap some (
                node_of_ext _ _ n w.head_key w.head_value (λ k lk.
                  first_ext before s.base (first after null) k (based k)
                  ∙ sym (first-append before after null k)));
        run =
            IsRun-join _ null before after
              (IsRun-ext _ s.base (first after null) before based o'.run_before) o'.run_after;
        fresh = All-remove _ before after c w.fresh;
        distinct = IsDistinct-remove before after c w.distinct;
        head_below = w.head_below;
        below_top = All-remove _ before after c w.below_top;
        heights = All-remove _ before after c w.heights;
        height_max = w.height_max;
        sorted = IsSorted-remove before after c w.sorted;
        count =
            omega (arith, w.count, length-append before (c ∷ after), length-append before after);
      };
    }
  where
    go : (b : Bool) (x y : Ptr) → (b ≡ true → x ≡ y) → (b ≡ false → x ≡ y) → x ≡ y
    go true x y h k = h refl
    go false x y h k = k refl

-- What `remove` promises: where a value may be left uninitialised, a list without the key; where not, it
-- is undefined exactly if the key is there.
pub record IsDeleted (l : SkipList) (cells : List Cell) (key : Slice) : Type 0 where
  pub list : SkipList
  pub cells' : List Cell
  pub done : remove true key l ≡ some (list, Spec.find key (cell_entries cells))
  pub slices :
      remove false key l
      ≡ elim (Spec.find key (cell_entries cells)) as (λ x. Option (SkipList × Option Slice)) [
        | none ↦ some (l, none)
        | some v ↦ none
      ]
  pub well : IsList list cells'
  pub holds : cell_entries cells' ≡ Spec.delete key (cell_entries cells)

split-delete :
    (l : SkipList) (key : Slice) (before after : List Cell)
    → IsList l (before ++ after)
    → IsBelow key before
    → IsAbove key after
    → IsDeleted l (before ++ after) key
unfolding remove
split-delete l key before [] w b a = record {
  list = l;
  cells' = before ++ [];
  done = rw (
    remove,
    updates_lem l key before [] w b a,
    bind,
    found_lem l before [] w,
    find-before key before [] b,
  );
  slices = rw (
    remove,
    updates_lem l key before [] w b a,
    bind,
    found_lem l before [] w,
    find-before key before [] b,
  );
  well = w;
  holds = cell_entries-append before [] ∙ sym (delete-before key before [] b);
}
split-delete l key before (c ∷ cs) w b a = elim (Bool-cases (bytes_eq c.key key)) [
  | inr n ↦
      let s = above-strict key c cs a.0 n (IsSorted-split before (c ∷ cs) w.sorted).1 in
      let f = find-before key before (c ∷ cs) b ∙ find-behind key (c ∷ cs) s in
      record {
        list = l;
        cells' = before ++ (c ∷ cs);
        done = rw (
          remove,
          updates_lem l key before (c ∷ cs) w b a,
          bind,
          found_lem l before (c ∷ cs) w,
          n,
          f,
        );
        slices = rw (
          remove,
          updates_lem l key before (c ∷ cs) w b a,
          bind,
          found_lem l before (c ∷ cs) w,
          n,
          f,
        );
        well = w;
        holds =
            cell_entries-append before (c ∷ cs)
            ∙ ap (λ t. cell_entries before ++ t) (sym (delete_absent key (c ∷ cs) s))
            ∙ sym (delete-before key before (c ∷ cs) b);
      }
  | inl y ↦
      let m =
        unlink-IsUnlinked l (levels (λ j. pred l.head j before) 0 (l.max_height + 1)) before cs c w
          refl in
      let f : Spec.find key (cell_entries (before ++ (c ∷ cs))) ≡ some c.value =
        find-before key before (c ∷ cs) b ∙ rw y in
      let d : Spec.delete key (cell_entries (c ∷ cs)) ≡ cell_entries cs = rw y in
      record {
        list = shrunk l (set_node m.heap' c.ptr none);
        cells' = before ++ cs;
        done = rw (
          remove,
          updates_lem l key before (c ∷ cs) w b a,
          bind,
          found_lem l before (c ∷ cs) w,
          y,
          m.done,
          f,
        );
        slices = rw (
          remove,
          updates_lem l key before (c ∷ cs) w b a,
          bind,
          found_lem l before (c ∷ cs) w,
          y,
          m.done,
          f,
        );
        well = m.well;
        holds =
            cell_entries-append before cs
            ∙ ap (λ t. cell_entries before ++ t) (sym d)
            ∙ sym (delete-before key before (c ∷ cs) b);
      }
]

-- `remove`, for values that may be left uninitialised, turns a well-formed list into one that holds the
-- map without the key, and answers the value that the key had: it reads no pointer that it must not, and
-- unlinks the node from every level before it frees it. For other values, as slices are, a removal of a key
-- that is there is undefined, since the value that is dropped with the node is not initialised, and a
-- removal of a key that is not there leaves the list.
pub remove-IsDeleted :
    (l : SkipList) (cells : List Cell) (key : Slice) → IsList l cells → IsDeleted l cells key
remove-IsDeleted l cells key w =
    let s = split key cells w.sorted in
    subst (λ x. IsDeleted l x key) (sym s.whole)
      (split-delete l key s.before s.after (subst (IsList l) s.whole w) s.below s.above)

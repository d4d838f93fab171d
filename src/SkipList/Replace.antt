-- ===== src/SkipList/Replace.antt =====
-- `insert` as a whole: a new node, or another value in the node that has the key.
use mirdb.Prelude.{
  All-map, ℕ, ◌+◌, ◌≤◌, ◌≡◌, ◌≢◌, refl, sym, ap, ◌∙◌, Bool, true, false, none, some, List, [], ◌∷◌,
  ◌++◌, length-append, if◌then◌else◌, Slice, bytes_eq, bytes_eq_refl, bytes_lt, bytes_lt_trans,
  bytes_lt_total, All, All-append, arith, bind, Bool-cases, inl, inr,
}
use mathlib.Core.Path.{subst}
use mirdb.SkipList.{SkipList, set_node, with_heap, replaced, insert_node, insert}
use mirdb.SkipList.Spec
use mirdb.SkipList.Cells.{
  levels, Cell, first, first-append, pred, node_of, node_of_ext, IsRun-frame, IsRun-join,
  IsDistinct, set_node_other, set_node_same,
}
use mirdb.SkipList.Search.{IsBelow}
use mirdb.SkipList.Sorted.{
  cell_entries, cell_entries-append, IsSorted, IsAbove, split, find-before, find-behind, put-before,
}
use mirdb.SkipList.Invariant.{null, IsList, All-split, updates_lem}
use mirdb.SkipList.Lookup.{found_lem, IsSorted-split, IsDistinct-split}
use mirdb.SkipList.Insert.{insert_node_lem, list-IsApart, list-IsOpen}

abbrev revalued : Cell → Slice → Cell
revalued c value = record { ptr = c.ptr; key = c.key; value = value; height = c.height }

All-revalued {κ} :
    (P : Cell → Type κ) (xs ys : List Cell) (c : Cell) (value : Slice)
    → (P c → P (revalued c value))
    → All P (xs ++ (c ∷ ys))
    → All P (xs ++ (revalued c value ∷ ys))
All-revalued P xs ys c value f h =
    let s = All-split P xs (c ∷ ys) h in
    All-append P xs (revalued c value ∷ ys) s.0 (f s.1.0, s.1.1)

IsDistinct-revalued :
    (xs ys : List Cell) (c : Cell) (value : Slice)
    → IsDistinct (xs ++ (c ∷ ys))
    → IsDistinct (xs ++ (revalued c value ∷ ys))
IsDistinct-revalued [] ys c value d = d
IsDistinct-revalued (x ∷ xs) ys c value d =
    (All-revalued _ xs ys c value (λ h. h) d.0, IsDistinct-revalued xs ys c value d.1)

IsSorted-revalued :
    (xs ys : List Cell) (c : Cell) (value : Slice)
    → IsSorted (xs ++ (c ∷ ys))
    → IsSorted (xs ++ (revalued c value ∷ ys))
IsSorted-revalued [] ys c value d = d
IsSorted-revalued (x ∷ xs) ys c value d =
    (All-revalued _ xs ys c value (λ h. h) d.0, IsSorted-revalued xs ys c value d.1)

replaced-IsList :
    (l : SkipList) (before after : List Cell) (c : Cell) (value : Slice)
    → IsList l (before ++ (c ∷ after))
    → IsList
        (with_heap l
          (replaced l.heap c.ptr (node_of (first after null) (c.height + 1) c.key c.value) value))
        (before ++ (revalued c value ∷ after))
replaced-IsList l before after c value w =
    let around = list-IsOpen l before (c ∷ after) w in
    let apart = list-IsApart l before (c ∷ after) w in
    let d = (IsDistinct-split before (c ∷ after) w.distinct).1 in
    let node = node_of (first after null) (c.height + 1) c.key value in
    let heap' = set_node l.heap c.ptr (some node) in
    let keep : (x : Cell) → x.ptr ≢ c.ptr → heap' x.ptr ≡ l.heap x.ptr =
      λ x h. set_node_other l.heap c.ptr x.ptr (some node) h in
    record {
      head_key = w.head_key;
      head_value = w.head_value;
      head_at =
          set_node_other l.heap c.ptr l.head (some node) (λ e. apart.behind.0.0 (sym e))
          ∙ around.head_at
          ∙ ap some (
              node_of_ext _ _ (l.max_height + 1) w.head_key w.head_value
                (λ k lk. sym (first-append before (revalued c value ∷ after) null k)));
      run =
          IsRun-join heap' null before (revalued c value ∷ after)
            (IsRun-frame l.heap heap' (first (c ∷ after) null) before
              (All-map _ _ before keep apart.behind.0.1) around.run_before)
            (
              set_node_same l.heap c.ptr (some node),
              IsRun-frame l.heap heap' null after (All-map _ _ after keep d.0) around.run_after.1,
            );
      fresh = All-revalued _ before after c value (λ h. h) w.fresh;
      distinct = IsDistinct-revalued before after c value w.distinct;
      head_below = w.head_below;
      below_top = All-revalued _ before after c value (λ h. h) w.below_top;
      heights = All-revalued _ before after c value (λ h. h) w.heights;
      height_max = w.height_max;
      sorted = IsSorted-revalued before after c value w.sorted;
      count = omega (
        arith,
        w.count,
        length-append before (c ∷ after),
        length-append before (revalued c value ∷ after),
      );
    }

-- What `insert` promises.
pub record IsPut (l : SkipList) (cells : List Cell) (height : ℕ) (key value : Slice) : Type 0 where
  pub list : SkipList
  pub cells' : List Cell
  pub done : insert height key value l ≡ some (list, Spec.find key (cell_entries cells))
  pub well : IsList list cells'
  pub holds : cell_entries cells' ≡ Spec.put key value (cell_entries cells)

-- The cells behind are above the key.
pub above-strict :
    (key : Slice) (c : Cell) (cs : List Cell)
    → bytes_lt c.key key ≡ false
    → bytes_eq c.key key ≡ false
    → IsSorted (c ∷ cs)
    → All (λ d. bytes_lt key d.key ≡ true) (c ∷ cs)
above-strict key c cs a n s = go (bytes_lt key c.key) refl
  where
    go : (b : Bool) → bytes_lt key c.key ≡ b → All (λ d. bytes_lt key d.key ≡ true) (c ∷ cs)
    go true e = (e, All-map _ _ cs (λ d k. bytes_lt_trans key c.key d.key e k) s.0)
    go false e =
        let k = bytes_lt_total c.key key a e in
        let n' : bytes_eq c.key c.key ≡ false = ap (bytes_eq c.key) k ∙ n in
        let r = bytes_eq_refl c.key in cc

put_in_front :
    (key value : Slice) (cs : List Cell)
    → All (λ d. bytes_lt key d.key ≡ true) cs
    → IsAbove key cs
    → (find : Spec.find key (cell_entries cs) ≡ none)
    → Spec.put key value (cell_entries cs) ≡ (key, value) ∷ cell_entries cs
put_in_front key value [] s a f = refl
put_in_front key value (c ∷ cs) s a f = go (bytes_eq c.key key) refl f
  where
    go :
        (b : Bool)
        → bytes_eq c.key key ≡ b
        → (if b then some c.value else Spec.find key (cell_entries cs)) ≡ none
        → Spec.put key value (cell_entries (c ∷ cs)) ≡ (key, value) ∷ cell_entries (c ∷ cs)
    go true e f = cc
    go false e f = rw (a.0, e)

module _ (l : SkipList) (height : ℕ) (key value : Slice) (before : List Cell)
    (hm : height ≤ l.max_height) (b : IsBelow key before) where
  IsPut-new :
      (after : List Cell) (w : IsList l (before ++ after))
      → IsAbove key after
      → All (λ d. bytes_lt key d.key ≡ true) after
      → ((l' : SkipList)
          → insert_node height key value (levels (λ j. pred l.head j before) 0 (l.max_height + 1)) l
            ≡ some l'
          → insert height key value l ≡ some (l', none))
      → IsPut l (before ++ after) height key value
  IsPut-new after w a s k =
      let r =
        insert_node_lem l height key value (levels (λ j. pred l.head j before) 0 (l.max_height + 1))
          before after w hm refl b s in
      let f = find-behind key after s in
      let f' = find-before key before after b ∙ f in
      record {
        list = r.list;
        cells' = before ++ (r.cell ∷ after);
        done = k r.list r.done ∙ ap (λ t. some (r.list, t)) (sym f');
        well = r.well;
        holds =
            cell_entries-append before (r.cell ∷ after)
            ∙ ap (λ e. cell_entries before ++ (e ∷ cell_entries after))
                (ap (λ t. (t, r.cell.value)) r.is_key ∙ ap (λ t. (key, t)) r.is_value)
            ∙ ap (λ t. cell_entries before ++ t) (sym (put_in_front key value after s a f))
            ∙ sym (put-before key value before after b);
      }

  split-IsPut :
      (after : List Cell)
      → IsList l (before ++ after)
      → IsAbove key after
      → IsPut l (before ++ after) height key value
  unfolding insert
  split-IsPut [] w a =
      IsPut-new [] w a tt
        (λ l' e. rw (insert, updates_lem l key before [] w b a, bind, found_lem l before [] w, e))
  split-IsPut (c ∷ cs) w a = elim (Bool-cases (bytes_eq c.key key)) [
    | inr n ↦
        let s = above-strict key c cs a.0 n (IsSorted-split before (c ∷ cs) w.sorted).1 in
        IsPut-new (c ∷ cs) w a s (λ l' e. rw (
          insert,
          updates_lem l key before (c ∷ cs) w b a,
          bind,
          found_lem l before (c ∷ cs) w,
          n,
          e,
        ))
    | inl y ↦
        let f = find-before key before (c ∷ cs) b in
        let f' : Spec.find key (cell_entries (before ++ (c ∷ cs))) ≡ some c.value = f ∙ rw y in
        let p : Spec.put key value (cell_entries (c ∷ cs)) ≡ cell_entries (revalued c value ∷ cs) =
          rw (a.0, y) in
        record {
          list =
              with_heap l (
                replaced l.heap c.ptr (node_of (first cs null) (c.height + 1) c.key c.value) value);
          cells' = before ++ (revalued c value ∷ cs);
          done = rw (
            insert,
            updates_lem l key before (c ∷ cs) w b a,
            bind,
            found_lem l before (c ∷ cs) w,
            y,
            f',
          );
          well = replaced-IsList l before cs c value w;
          holds =
              cell_entries-append before (revalued c value ∷ cs)
              ∙ ap (λ t. cell_entries before ++ t) (sym p)
              ∙ sym (put-before key value before (c ∷ cs) b);
        }
  ]

-- `insert` turns a well-formed list into one, whatever height the generator gives below the
-- maximum: the new list holds what putting the value under the key into the map gives, in the order of
-- the keys, and the answer is the value that was there before. No step of it reads a pointer that it must not.
pub insert-IsPut :
    (l : SkipList) (cells : List Cell) (height : ℕ) (key value : Slice)
    → IsList l cells
    → height ≤ l.max_height
    → IsPut l cells height key value
insert-IsPut l cells height key value w h =
    let s = split key cells w.sorted in
    let r =
      split-IsPut l height key value s.before h s.below s.after (subst (IsList l) s.whole w)
        s.above in
    subst (λ x. IsPut l x height key value) (sym s.whole) r

-- ===== src/SkipList/Insert.antt =====
-- `insert` of a node for a new key.
use mirdb.Prelude.{
  All-map, ℕ, ◌+◌, ◌≤◌, ◌≡◌, ◌≢◌, refl, sym, ap, ◌∙◌, Bool, true, false, none, some, List, [], ◌∷◌,
  ◌++◌, length-append, leb, if◌then◌else◌, Slice, bytes_lt, All, arith,
}
use mirdb.SkipList.{Ptr, SkipList, new_node, set_node, grown, insert_node}
use mirdb.SkipList.Cells.{
  levels, levels-repeat, Cell, first, first-append, first_ext, pred, node_of_ext, IsRun-ext,
  IsRun-join, IsRun-split, IsFresh, IsDistinct, set_node_same,
}
use mirdb.SkipList.Search.{IsBelow}
use mirdb.SkipList.Sorted.{IsSorted}
use mirdb.SkipList.Invariant.{null, IsList, All-split}
use mirdb.SkipList.Lookup.{IsDistinct-split}
use mirdb.SkipList.Link.{IsApart, IsOpen, IsNew, IsOpen-set_node, IsLinking, link_lem}

pub All-insert {κ} :
    (P : Cell → Type κ) (xs ys : List Cell) (c : Cell)
    → All P (xs ++ ys)
    → P c
    → All P (xs ++ (c ∷ ys))
All-insert P [] ys c h p = (p, h)
All-insert P (x ∷ xs) ys c h p = (h.0, All-insert P xs ys c h.1 p)

All-both {κ κ'} :
    (P : Cell → Type κ) (Q : Cell → Type κ') (xs : List Cell)
    → All P xs
    → All Q xs
    → All (λ x. P x × Q x) xs
All-both P Q [] h k = tt
All-both P Q (x ∷ xs) h k = ((h.0, k.0), All-both P Q xs h.1 k.1)

All-unit : (xs : List Cell) → All (λ x. Unit {0}) xs
All-unit [] = tt
All-unit (x ∷ xs) = (tt, All-unit xs)

cross :
    (before after : List Cell)
    → IsDistinct (before ++ after)
    → All (λ a. IsFresh a.ptr before) after
cross [] after d = All-unit after
cross (c ∷ before) after d =
    let apart =
      All-map _ (λ a. c.ptr ≢ a.ptr) after (λ a h e. h (sym e)) (All-split _ before after d.0).1 in
    All-both _ _ after apart (cross before after d.1)

-- The nodes of a list around a place in it.
pub list-IsApart :
    (l : SkipList) (before after : List Cell)
    → IsList l (before ++ after)
    → IsApart l.head before after
list-IsApart l before after w =
    let f = All-split _ before after w.fresh in
    record {
      fresh = f.0;
      distinct = (IsDistinct-split before after w.distinct).0;
      behind = All-both _ _ after f.1 (cross before after w.distinct);
    }

pub list-IsOpen :
    (l : SkipList) (before after : List Cell) (w : IsList l (before ++ after))
    → IsOpen l.heap l.head
        (l.max_height + 1)
        w.head_key
        w.head_value
        (first after null)
        before
        after
list-IsOpen l before after w =
    let r = IsRun-split l.heap null before after w.run in
    record {
      head_at =
          w.head_at
          ∙ ap some (
              node_of_ext _ _ (l.max_height + 1) w.head_key w.head_value
                (λ k lk. first-append before after null k));
      run_before = r.0;
      run_after = r.1;
    }

top-IsNew :
    (l : SkipList) (before after : List Cell)
    → IsList l (before ++ after)
    → IsNew l.head before after l.top
top-IsNew l before after w =
    let b = All-split _ before after (
      All-map _ (λ c. c.ptr ≢ l.top) (before ++ after) (λ c h e. let k = h in omega arith)
        w.below_top) in
    record { not_head = λ e. omega (arith, w.head_below); fresh = b.0; fresh_behind = b.1 }

IsDistinct-insert :
    (xs ys : List Cell) (c : Cell)
    → IsDistinct (xs ++ ys)
    → IsFresh c.ptr xs
    → IsFresh c.ptr ys
    → IsDistinct (xs ++ (c ∷ ys))
IsDistinct-insert [] ys c d f g = (g, d)
IsDistinct-insert (x ∷ xs) ys c d f g =
    (All-insert _ xs ys c d.0 (λ e. f.0 (sym e)), IsDistinct-insert xs ys c d.1 f.1 g)

IsSorted-insert :
    (xs ys : List Cell) (c : Cell)
    → IsSorted (xs ++ ys)
    → IsBelow c.key xs
    → All (λ d. bytes_lt c.key d.key ≡ true) ys
    → IsSorted (xs ++ (c ∷ ys))
IsSorted-insert [] ys c s b a = (a, s)
IsSorted-insert (x ∷ xs) ys c s b a =
    (All-insert _ xs ys c s.0 b.0, IsSorted-insert xs ys c s.1 b.1 a)

-- What an insertion gives.
pub record IsInserted (l : SkipList) (height : ℕ) (key value : Slice) (updates : List ℕ)
    (before after : List Cell) : Type 0 where
  pub list : SkipList
  pub cell : Cell
  pub is_key : cell.key ≡ key
  pub is_value : cell.value ≡ value
  pub done : insert_node height key value updates l ≡ some list
  pub well : IsList list (before ++ (cell ∷ after))

pub insert_node_lem :
    (l : SkipList) (height : ℕ) (key value : Slice) (updates : List ℕ) (before after : List Cell)
    → IsList l (before ++ after)
    → height ≤ l.max_height
    → updates ≡ levels (λ j. pred l.head j before) 0 (l.max_height + 1)
    → IsBelow key before
    → All (λ d. bytes_lt key d.key ≡ true) after
    → IsInserted l height key value updates before after
unfolding insert_node
insert_node_lem l height key value updates before after w hm u b a =
    let new = top-IsNew l before after w in
    let apart = list-IsApart l before after w in
    let node = new_node key value height in
    let heap0 = set_node l.heap l.top (some node) in
    let start : IsLinking heap0 l.head (l.max_height + 1) w.head_key w.head_value before after l.top
        height key value 0 =
      record {
        base = first after null;
        behind = null;
        opened =
            IsOpen-set_node l.heap l.head (l.max_height + 1) w.head_key w.head_value
              (first after null) before after l.top (some node) new (list-IsOpen l before after w);
        new_at =
            set_node_same l.heap l.top (some node)
            ∙ ap (λ t. some (record { nexts = t; key = key; value = value }))
                (sym (levels-repeat none 0 (height + 1)));
        todo = λ j k. refl;
        done = λ j k. absurd (omega arith);
        done_behind = λ j k. absurd (omega arith);
      } in
    let (heap', e, s) =
      link_lem l.head (l.max_height + 1) w.head_key w.head_value before after l.top height key value
        apart new (height + 1) 0 updates heap0 start u (omega arith) (omega arith) in
    let cell : Cell = record { ptr = l.top; key = key; value = value; height = height } in
    let based : (j : ℕ) → s.base j ≡ first (cell ∷ after) null j = λ j.
      go (leb j height) (s.base j) (first after null j) (λ k. s.done j (ground arith))
        (λ k. s.todo j (ground arith)) in
    record {
      list = grown l height heap';
      cell = cell;
      is_key = refl;
      is_value = refl;
      done = rw (insert_node, e);
      well = record {
        head_key = w.head_key;
        head_value = w.head_value;
        head_at =
            s.opened.head_at
            ∙ ap some (
                node_of_ext _ _ (l.max_height + 1) w.head_key w.head_value (λ k lk.
                  first_ext before s.base (first (cell ∷ after) null) k (based k)
                  ∙ sym (first-append before (cell ∷ after) null k)));
        run =
            IsRun-join heap' null before (cell ∷ after)
              (IsRun-ext heap' s.base (first (cell ∷ after) null) before based s.opened.run_before)
              (
                s.new_at
                    ∙ ap some (
                        node_of_ext s.behind (first after null) (height + 1) key value
                          (λ k lk. s.done_behind k lk)),
                s.opened.run_after,
              );
        fresh = All-insert _ before after cell w.fresh new.not_head;
        distinct = IsDistinct-insert before after cell w.distinct new.fresh new.fresh_behind;
        head_below = omega (arith, w.head_below);
        below_top =
            All-insert _ before after cell
              (All-map _ _ (before ++ after) (λ c h. omega arith) w.below_top) (omega arith);
        heights =
            All-insert _ before after cell
              (All-map _ _ (before ++ after) (λ c h. omega arith) w.heights) (omega arith);
        height_max = omega (arith, w.height_max);
        sorted = IsSorted-insert before after cell w.sorted b a;
        count =
            omega (arith, w.count, length-append before after, length-append before (cell ∷ after));
      };
    }
  where
    go :
        (c : Bool) (x y : Ptr)
        → (c ≡ true → x ≡ some l.top)
        → (c ≡ false → x ≡ y)
        → x ≡ (if c then some l.top else y)
    go true x y h k = h refl
    go false x y h k = k refl

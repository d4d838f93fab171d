-- ===== src/SkipList/Invariant.antt =====
-- The well-formed skip lists, and where a search in one ends.
use mirdb.Prelude.{
  ℕ, ◌+◌, ◌-◌, ◌≤◌, ◌<◌, ◌≡◌, refl, sym, ◌∙◌, Bool, true, false, none, some, List, [], ◌∷◌, ◌++◌,
  length, length-append, leb, if◌then◌else◌, Slice, All, arith, bind,
}
use mirdb.SkipList.{
  Ptr, SkipListNode, Heap, SkipList, repeat, next, get_lower_bound, get_lower_bound_and_updates,
}
use mirdb.SkipList.Cells.{
  levels, levels-append, levels_ext, levels-repeat, Cell, first, first-append, pred, node_of,
  next-node_of, IsRun, IsRun-split, IsFresh, IsDistinct,
}
use mirdb.SkipList.Search.{IsEnd, IsBelow, IsSpot, descend_lem, descend_updates_lem}
use mirdb.SkipList.Write.{write_IsWritten}
use mirdb.SkipList.Sorted.{IsSorted, IsAbove}

-- Behind the last cell.
abbrev pub null : ℕ → Ptr
null i = none

-- The cells of a list: their nodes stand in the heap below `top`, each at a pointer of its own, and
-- point on every level to the next node so high; their keys ascend, and they are counted.
pub record IsList (l : SkipList) (cells : List Cell) : Type 0 where
  pub head_key : Slice
  pub head_value : Slice
  pub head_at :
      l.heap l.head ≡ some (node_of (first cells null) (l.max_height + 1) head_key head_value)
  pub run : IsRun l.heap null cells
  pub fresh : IsFresh l.head cells
  pub distinct : IsDistinct cells
  pub head_below : l.head < l.top
  pub below_top : All (λ c. c.ptr < l.top) cells
  pub heights : All (λ c. c.height ≤ l.height) cells
  pub height_max : l.height ≤ l.max_height
  pub sorted : IsSorted cells
  pub count : length cells ≡ l.length

-- Every cell that is not below the key ends a walk.
above-IsEnd :
    (heap : Heap) (key : Slice) (cs : List Cell) (i : ℕ)
    → IsRun heap null cs
    → IsAbove key cs
    → IsEnd heap key (first cs null i)
above-IsEnd heap key [] i r a = tt
above-IsEnd heap key (c ∷ cs) i r a = go (leb i c.height) (above-IsEnd heap key cs i r.1 a.1)
  where
    go :
        (b : Bool)
        → IsEnd heap key (first cs null i)
        → IsEnd heap key (if b then some c.ptr else first cs null i)
    go true e = (_, r.0, a.0)
    go false e = e

pub All-split {κ} :
    {A : Type 0} (P : A → Type κ) (xs ys : List A) → All P (xs ++ ys) → All P xs × All P ys
All-split P [] ys h = (tt, h)
All-split P (x ∷ xs) ys h = let m = All-split P xs ys h.1 in ((h.0, m.0), m.1)

pub pred_above :
    (p i : ℕ) (cs : List Cell) (height : ℕ)
    → All (λ c. c.height ≤ height) cs
    → height < i
    → pred p i cs ≡ p
pred_above p i [] height h l = refl
pred_above p i (c ∷ cs) height h l =
    let b : leb i c.height ≡ false = let k = h.0 in ground arith in
    rw (b) (pred_above p i cs height h.1 l)

module _ (l : SkipList) (key : Slice) (before after : List Cell) (w : IsList l (before ++ after))
    (below : IsBelow key before) where
  abbrev pub base : ℕ → Ptr
  base = first after null

  head-IsSpot : IsAbove key after → IsSpot l.heap key base l.height l.head before
  head-IsSpot above =
      let runs = IsRun-split l.heap null before after w.run in
      record {
        node = node_of (first (before ++ after) null) (l.max_height + 1) w.head_key w.head_value;
        at = w.head_at;
        links = λ j k.
            next-node_of (first (before ++ after) null) (l.max_height + 1) w.head_key w.head_value j
              (omega (arith, w.height_max))
            ∙ first-append before after null j;
        run = runs.0;
        below = below;
        ends = λ j k. above-IsEnd l.heap key after j runs.1 above;
      }

  fuel_enough : length before < l.length + 1
  fuel_enough = omega (arith, w.count, length-append before after)

  pub lower_bound_lem : IsAbove key after → get_lower_bound key l ≡ some (pred l.head 0 before)
  unfolding get_lower_bound
  lower_bound_lem above =
      descend_lem l.heap key base l.height (l.length + 1) l.head before (head-IsSpot above)
        fuel_enough

  pub updates_lem :
      IsAbove key after
      → get_lower_bound_and_updates key l
        ≡ some (pred l.head 0 before, levels (λ j. pred l.head j before) 0 (l.max_height + 1))
  unfolding get_lower_bound_and_updates
  updates_lem above =
      let u =
        descend_updates_lem l.heap key base l.height (l.length + 1) l.head before
          (head-IsSpot above) fuel_enough in
      let f : ℕ → ℕ = λ j. pred l.head j before in
      let h = (All-split _ before after w.heights).0 in
      let e =
        levels_ext (λ j. l.head) f (0 + (l.height + 1)) (l.max_height - l.height)
          (λ j k k'. sym (pred_above l.head j before l.height h (omega arith))) in
      let r : repeat (l.max_height - l.height) l.head
          ≡ levels f (0 + (l.height + 1)) (l.max_height - l.height) =
        sym (levels-repeat l.head (0 + (l.height + 1)) (l.max_height - l.height)) ∙ e in
      let s = sym (levels-append f 0 (l.height + 1) (l.max_height - l.height)) in
      let n : l.height + 1 + (l.max_height - l.height) ≡ l.max_height + 1 =
        omega (arith, w.height_max) in
      rw (get_lower_bound_and_updates, u, bind, r, s, n)

-- The node behind the last cell of a run, or behind the node at `p`.
pub next_node_lem :
    (heap : Heap) (p n : ℕ) (f : ℕ → Ptr) (key value : Slice) (before after : List Cell)
    → heap p ≡ some (node_of f n key value)
    → 0 < n
    → f 0 ≡ first before (first after null) 0
    → IsRun heap (first after null) before
    → IsFresh p before
    → IsDistinct before
    → (target : SkipListNode) × (heap (pred p 0 before) ≡ some target)
      × (next target 0 ≡ first after null 0)
next_node_lem heap p n f key value before after h l e r q d =
    let m = write_IsWritten before heap (first after null) 0 none p n f key value h l e r q d in
    (m.target, m.read, rw (next, m.old))

-- ===== src/SkipList/Lookup.antt =====
-- `get` on a well-formed list.
use mirdb.Prelude.{
  All-map, ℕ, ◌+◌, ◌≡◌, refl, sym, ap, ◌∙◌, Bool, true, false, Option, none, some, List, [], ◌∷◌,
  ◌++◌, if◌then◌else◌, leb, Slice, bytes_eq, bytes_lt, bytes_lt_total, bytes_lt_trans,
  bytes_eq_refl, arith, bind,
}
use mathlib.Core.Path.{subst}
use mirdb.SkipList.{SkipListNode, Heap, SkipList, next, next_node, get}
use mirdb.SkipList.Spec
use mirdb.SkipList.Cells.{Cell, first, first-append, pred, node_of, IsRun, IsRun-split, IsDistinct}
use mirdb.SkipList.Search.{IsBelow}
use mirdb.SkipList.Sorted.{cell_entries, IsSorted, IsAbove, split, find-before, find-behind}
use mirdb.SkipList.Invariant.{null, IsList, All-split, lower_bound_lem, next_node_lem}

pub IsDistinct-split : (xs ys : List Cell) → IsDistinct (xs ++ ys) → IsDistinct xs × IsDistinct ys
IsDistinct-split [] ys d = (tt, d)
IsDistinct-split (c ∷ xs) ys d =
    let m = IsDistinct-split xs ys d.1 in (((All-split _ xs ys d.0).0, m.0), m.1)

pub IsSorted-split : (xs ys : List Cell) → IsSorted (xs ++ ys) → IsSorted xs × IsSorted ys
IsSorted-split [] ys d = (tt, d)
IsSorted-split (c ∷ xs) ys d =
    let m = IsSorted-split xs ys d.1 in (((All-split _ xs ys d.0).0, m.0), m.1)

-- What `next_node` answers for the cells behind.
abbrev pub found_in : List Cell → Option (ℕ × SkipListNode)
found_in [] = none
found_in (c ∷ cs) = some (c.ptr, node_of (first cs null) (c.height + 1) c.key c.value)

pub next_node-found :
    (heap : Heap) (p : ℕ) (target : SkipListNode) (after : List Cell)
    → heap p ≡ some target
    → next target 0 ≡ first after null 0
    → IsRun heap null after
    → next_node heap p ≡ some (found_in after)
unfolding next_node
next_node-found heap p target [] h e r = rw (next_node, h, bind, e)
next_node-found heap p target (c ∷ after) h e r =
    let z : leb 0 c.height ≡ true = ground arith in
    let e' : next target 0 ≡ some c.ptr = rw (z) at e in rw (next_node, h, bind, e', r.0)

pub found_lem :
    (l : SkipList) (before after : List Cell)
    → IsList l (before ++ after)
    → next_node l.heap (pred l.head 0 before) ≡ some (found_in after)
found_lem l before after w =
    let runs = IsRun-split l.heap null before after w.run in
    let (target, read, e) =
      next_node_lem l.heap l.head (l.max_height + 1) (first (before ++ after) null) w.head_key
        w.head_value before after w.head_at (omega arith) (first-append before after null 0) runs.0
        (All-split _ before after w.fresh).0 (IsDistinct-split before after w.distinct).0 in
    next_node-found l.heap (pred l.head 0 before) target after read e runs.1

-- The value under the key, if it is that of the first of the cells.
pub first-find :
    (key : Slice) (c : Cell) (cs : List Cell)
    → IsSorted (c ∷ cs)
    → bytes_lt c.key key ≡ false
    → Spec.find key (cell_entries (c ∷ cs)) ≡ (if bytes_eq c.key key then some c.value else none)
first-find key c cs s a = go (bytes_eq c.key key) refl (bytes_lt key c.key) refl
  where
    go :
        (b : Bool)
        → bytes_eq c.key key ≡ b
        → (d : Bool) → bytes_lt key c.key ≡ d
        → (if b then some c.value else Spec.find key (cell_entries cs))
          ≡ (if b then some c.value else none)
    go true e d f = refl
    go false e true f =
        let behind = All-map _ _ cs (λ x k. bytes_lt_trans key c.key x.key f k) s.0 in
        find-behind key cs behind
    go false e false f =
        let k = bytes_lt_total c.key key a f in
        let e' : bytes_eq c.key c.key ≡ false = ap (bytes_eq c.key) k ∙ e in
        let e'' = bytes_eq_refl c.key in cc

split-get :
    (l : SkipList) (key : Slice) (before after : List Cell)
    → IsList l (before ++ after)
    → IsBelow key before
    → IsAbove key after
    → get key l ≡ some (Spec.find key (cell_entries after))
unfolding get
split-get l key before [] w b a =
    rw (get, lower_bound_lem l key before [] w b a, bind, found_lem l before [] w)
split-get l key before (c ∷ cs) w b a =
    let s = (IsSorted-split before (c ∷ cs) w.sorted).1 in
    rw (
      get,
      lower_bound_lem l key before (c ∷ cs) w b a,
      bind,
      found_lem l before (c ∷ cs) w,
      first-find key c cs s a.0,
    )

-- `get` finds the value that the map of the list's entries has for the key, for every key and
-- whatever the heights of the nodes; it reads no pointer that it must not.
pub get-find :
    (l : SkipList) (cells : List Cell) (key : Slice)
    → IsList l cells
    → get key l ≡ some (Spec.find key (cell_entries cells))
get-find l cells key w =
    let s = split key cells w.sorted in
    let w' = subst (IsList l) s.whole w in
    split-get l key s.before s.after w' s.below s.above
    ∙ ap some (
        sym (
          ap (λ t. Spec.find key (cell_entries t)) s.whole
          ∙ find-before key s.before s.after s.below))

-- ===== src/SkipList/Clear.antt =====
-- New and cleared lists, the iterator, and the generator of heights.
use mirdb.Prelude.{
  All-map, ℕ, zero, suc, ◌+◌, ◌≤◌, ◌<◌, ◌≡◌, ◌≢◌, refl, sym, ap, ◌∙◌, Bool, true, false, Option,
  none, some, List, [], ◌∷◌, length, ltb, ltb→lt, leb, Slice, All, arith, bind,
}
use mirdb.SkipList.{
  Ptr, SkipListNode, Heap, SkipList, set_node, new_node, next, new, entries_from, entries,
  dispose_from, clear, gen_height,
}
use mirdb.SkipList.Cells.{
  levels-repeat, Cell, first, node_of, next-node_of, IsRun, IsRun-frame, IsFresh, IsDistinct,
  set_node_other, set_node_same,
}
use mirdb.SkipList.Sorted.{cell_entries}
use mirdb.SkipList.Invariant.{null, IsList}
use mirdb.SkipList.Lookup.{next_node-found}

pub new-IsList :
    (junk : Slice × Slice) (heap : Heap) (top max_height : ℕ)
    → IsList (new junk heap top max_height) []
new-IsList junk heap top max_height = record {
  head_key = junk.0;
  head_value = junk.1;
  head_at =
      set_node_same heap top (some (new_node junk.0 junk.1 max_height))
      ∙ ap (λ t. some (record { nexts = t; key = junk.0; value = junk.1 }))
          (sym (levels-repeat none 0 (max_height + 1)));
  run = tt;
  fresh = tt;
  distinct = tt;
  head_below = omega arith;
  below_top = tt;
  heights = tt;
  height_max = omega arith;
  sorted = tt;
  count = refl;
}

entries_from_lem :
    (cs : List Cell) (fuel : ℕ) (heap : Heap) (p : ℕ) (node : SkipListNode)
    → heap p ≡ some node
    → next node 0 ≡ first cs null 0
    → IsRun heap null cs
    → length cs < fuel
    → entries_from fuel heap p ≡ some (cell_entries cs)
unfolding entries_from
entries_from_lem cs zero heap p node h e r l = absurd (omega arith)
entries_from_lem [] (suc fuel) heap p node h e r l =
    rw (entries_from, next_node-found heap p node [] h e r)
entries_from_lem (c ∷ cs) (suc fuel) heap p node h e r l =
    let n = next-node_of (first cs null) (c.height + 1) c.key c.value 0 (omega arith) in
    let more = entries_from_lem cs fuel heap c.ptr _ r.0 n r.1 (omega arith) in
    rw (entries_from, next_node-found heap p node (c ∷ cs) h e r, bind, more)

-- The iterator of a well-formed list gives its entries, in the order of the keys.
pub entries_lem :
    (l : SkipList) (cells : List Cell) → IsList l cells → entries l ≡ some (cell_entries cells)
entries_lem l cells w =
    let n =
      next-node_of (first cells null) (l.max_height + 1) w.head_key w.head_value 0 (omega arith) in
    entries_from_lem cells (l.length + 1) l.heap l.head _ w.head_at n w.run (omega (arith, w.count))

-- The cells are freed, and nothing else.
pub record IsFreed (heap : Heap) (p : ℕ) (cs : List Cell) (o : Option Heap) (gone : Ptr)
    : Type 0 where
  pub heap' : Heap
  pub done : o ≡ some heap'
  pub freed : All (λ c. heap' c.ptr ≡ none) cs
  pub own : (gone ≡ some p) → heap' p ≡ none
  pub others : (q : ℕ) → q ≢ p → IsFresh q cs → heap' q ≡ heap q

dispose_from-IsFreed :
    (cs : List Cell) (fuel : ℕ) (heap : Heap) (p : ℕ) (node : SkipListNode)
    → heap p ≡ some node
    → next node 0 ≡ first cs null 0
    → IsRun heap null cs
    → IsFresh p cs
    → IsDistinct cs
    → length cs < fuel
    → IsFreed heap p cs (dispose_from fuel heap p false) (some p)
unfolding dispose_from
dispose_from-IsFreed cs zero heap p node h e r f d l = absurd (omega arith)
dispose_from-IsFreed [] (suc fuel) heap p node h e r f d l = record {
  heap' = set_node heap p none;
  done = rw (dispose_from, h, bind, e);
  freed = tt;
  own = λ x. set_node_same heap p none;
  others = λ q ne fr. set_node_other heap p q none ne;
}
dispose_from-IsFreed (c ∷ cs) (suc fuel) heap p node h e r f d l =
    let heap1 = set_node heap p none in
    let z : leb 0 c.height ≡ true = ground arith in
    let e' : next node 0 ≡ some c.ptr = rw (z) at e in
    let n = next-node_of (first cs null) (c.height + 1) c.key c.value 0 (omega arith) in
    let r1 =
      IsRun-frame heap heap1 null cs
        (All-map _ _ cs (λ x k. set_node_other heap p x.ptr none k) f.1) r.1 in
    let at = set_node_other heap p c.ptr none f.0 ∙ r.0 in
    let m = dispose_from-IsFreed cs fuel heap1 c.ptr _ at n r1 d.0 d.1 (omega arith) in
    record {
      heap' = m.heap';
      done = rw (dispose_from, h, bind, e') m.done;
      freed = (m.own refl, m.freed);
      own = λ x. m.others p (λ k. f.0 (sym k)) f.1 ∙ set_node_same heap p none;
      others = λ q ne fr. m.others q (λ k. fr.0 (sym k)) fr.1 ∙ set_node_other heap p q none ne;
    }

-- What `clear` promises.
pub record IsCleared (l : SkipList) (cells : List Cell) (junk : Slice × Slice) : Type 0 where
  pub list : SkipList
  pub done : clear junk l ≡ some list
  pub well : IsList list []
  pub freed : All (λ c. list.heap c.ptr ≡ none) cells

disposed :
    (l : SkipList) (cells : List Cell)
    → IsList l cells
    → (heap' : Heap) × (dispose_from (l.length + 1) l.heap l.head true ≡ some heap')
      × All (λ c. heap' c.ptr ≡ none) cells
unfolding dispose_from
disposed l [] w =
    let n = next-node_of null (l.max_height + 1) w.head_key w.head_value 0 (omega arith) in
    let s : l.length + 1 ≡ suc l.length = omega arith in
    (l.heap, rw (s, dispose_from, w.head_at, bind, n), tt)
disposed l (c ∷ cs) w =
    let z : leb 0 c.height ≡ true = ground arith in
    let n : next (node_of (first (c ∷ cs) null) (l.max_height + 1) w.head_key w.head_value) 0
        ≡ some c.ptr =
      next-node_of (first (c ∷ cs) null) (l.max_height + 1) w.head_key w.head_value 0 (omega arith)
      ∙ rw (z) in
    let n' = next-node_of (first cs null) (c.height + 1) c.key c.value 0 (omega arith) in
    let m =
      dispose_from-IsFreed cs l.length l.heap c.ptr _ w.run.0 n' w.run.1 w.distinct.0 w.distinct.1
        (omega (arith, w.count)) in
    let s : l.length + 1 ≡ suc l.length = omega arith in
    (m.heap', rw (s, dispose_from, w.head_at, bind, n, m.done), (m.own refl, m.freed))

-- `clear` frees the node of every entry, none of them twice, and leaves a well-formed empty list.
pub clear-IsCleared :
    (l : SkipList) (cells : List Cell) (junk : Slice × Slice)
    → IsList l cells
    → IsCleared l cells junk
unfolding clear
clear-IsCleared l cells junk w =
    let (heap', e, f) = disposed l cells w in
    record {
      list = new junk heap' l.top l.max_height;
      done = rw (clear, e);
      well = new-IsList junk heap' l.top l.max_height;
      freed = still heap' cells f w.below_top;
    }
  where
    still :
        (heap' : Heap) (cs : List Cell)
        → All (λ c. heap' c.ptr ≡ none) cs
        → All (λ c. c.ptr < l.top) cs
        → All (λ c. (new junk heap' l.top l.max_height).heap c.ptr ≡ none) cs
    still heap' [] f b = tt
    still heap' (c ∷ cs) f b = (
      set_node_other heap' l.top c.ptr _ (λ e. let k = b.0 in omega arith) ∙ f.0,
      still heap' cs f.1 b.1,
    )

-- The generated height is at most the maximum, whatever the coins.
gen_height_bound :
    (rounds : ℕ) (coins : ℕ → Bool) (n max_height l : ℕ)
    → l ≤ max_height
    → gen_height rounds coins n max_height l ≤ max_height
unfolding gen_height
gen_height_bound zero coins n max_height l h = h
gen_height_bound (suc rounds) coins n max_height l h =
    elim (coins n)
      as (λ x.
        elim x as (λ y. ℕ) [
          | true ↦ elim (ltb l max_height) as (λ y. ℕ) [
            | true ↦ gen_height rounds coins (suc n) max_height (suc l)
            | false ↦ l
          ]
          | false ↦ l
        ]
        ≤ max_height) [
          | true ↦
              go (ltb l max_height) refl
                (λ k. gen_height_bound rounds coins (suc n) max_height (suc l) k)
          | false ↦ h
        ]
  where
    go :
        (b : Bool)
        → ltb l max_height ≡ b
        → (suc l ≤ max_height → gen_height rounds coins (suc n) max_height (suc l) ≤ max_height)
        → elim b as (λ y. ℕ) [
          | true ↦ gen_height rounds coins (suc n) max_height (suc l)
          | false ↦ l
        ]
          ≤ max_height
    go true e k = k (ltb→lt l max_height e)
    go false e k = h

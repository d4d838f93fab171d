-- ===== src/SkipList/Link.antt =====
-- The loop of `insert` that links a new node between cells.
use mirdb.Prelude.{
  All-map, ℕ, zero, suc, ◌+◌, ◌≤◌, ◌<◌, ◌≡◌, ◌≢◌, refl, sym, ap, ◌∙◌, Bool, true, false, Option,
  none, some, List, get_elem?, ◌==◌, if◌then◌else◌, Slice, All, arith, bind,
}
use mathlib.Core.Path.{subst}
use mirdb.SkipList.{Ptr, SkipListNode, Heap, set_node, write_next, link}
use mirdb.SkipList.Cells.{
  levels, put, get_elem?-levels, put_other, Cell, first, pred, node_of, node_of_ext, IsRun,
  IsRun-frame, IsFresh, IsDistinct, set_node_other, set_node_same,
}
use mirdb.SkipList.Write.{write_IsWritten, write_next_lem, put-first}
use mirdb.SkipList.Invariant.{null}

-- What a loop over the levels leaves alone: the pointers of the nodes.
pub record IsApart (head : ℕ) (before after : List Cell) : Type 0 where
  pub fresh : IsFresh head before
  pub distinct : IsDistinct before
  pub behind : All (λ a. (a.ptr ≢ head) × IsFresh a.ptr before) after

-- The heap with `base` behind the cells before.
pub record IsOpen (heap : Heap) (head n : ℕ) (hk hv : Slice) (base : ℕ → Ptr)
    (before after : List Cell) : Type 0 where
  pub head_at : heap head ≡ some (node_of (first before base) n hk hv)
  pub run_before : IsRun heap base before
  pub run_after : IsRun heap null after

-- A write behind the cells before.
pub record IsStep (heap : Heap) (head n : ℕ) (hk hv : Slice) (base : ℕ → Ptr)
    (before after : List Cell) (i : ℕ) (x : Ptr) : Type 0 where
  pub heap' : Heap
  pub done : write_next heap (pred head i before) i x ≡ some heap'
  pub opened : IsOpen heap' head n hk hv (put base i x) before after
  pub others : (q : ℕ) → q ≢ head → IsFresh q before → heap' q ≡ heap q
  pub target : SkipListNode
  pub read : heap (pred head i before) ≡ some target
  pub old : get_elem? target.nexts i ≡ some (base i)

pub write-IsStep :
    (heap : Heap) (head n : ℕ) (hk hv : Slice) (base : ℕ → Ptr) (before after : List Cell) (i : ℕ)
    (x : Ptr)
    → IsApart head before after
    → IsOpen heap head n hk hv base before after
    → i < n
    → IsStep heap head n hk hv base before after i x
write-IsStep heap head n hk hv base before after i x a o l =
    let m =
      write_IsWritten before heap base i x head n (first before base) hk hv o.head_at l refl
        o.run_before a.fresh a.distinct in
    record {
      heap' = m.heap';
      done = m.done;
      opened = record {
        head_at = m.at ∙ ap some (node_of_ext _ _ n hk hv (λ k lk. put-first before base i x k));
        run_before = m.run;
        run_after =
            IsRun-frame heap m.heap' null after
              (All-map _ _ after (λ c h. m.others c.ptr h.0 h.1) a.behind) o.run_after;
      };
      others = m.others;
      target = m.target;
      read = m.read;
      old = m.old;
    }

-- A node that is none of the others.
pub record IsNew (head : ℕ) (before after : List Cell) (p : ℕ) : Type 0 where
  pub not_head : p ≢ head
  pub fresh : IsFresh p before
  pub fresh_behind : IsFresh p after

pub IsOpen-set_node :
    (heap : Heap) (head n : ℕ) (hk hv : Slice) (base : ℕ → Ptr) (before after : List Cell) (p : ℕ)
    (node : Option SkipListNode)
    → IsNew head before after p
    → IsOpen heap head n hk hv base before after
    → IsOpen (set_node heap p node) head n hk hv base before after
IsOpen-set_node heap head n hk hv base before after p node w o =
    let keep : (c : Cell) → c.ptr ≢ p → set_node heap p node c.ptr ≡ heap c.ptr =
      λ c h. set_node_other heap p c.ptr node h in
    record {
      head_at = set_node_other heap p head node (λ e. w.not_head (sym e)) ∙ o.head_at;
      run_before = IsRun-frame heap _ base before (All-map _ _ before keep w.fresh) o.run_before;
      run_after = IsRun-frame heap _ null after (All-map _ _ after keep w.fresh_behind) o.run_after;
    }

-- The levels below `i` are linked.
pub record IsLinking (heap : Heap) (head n : ℕ) (hk hv : Slice) (before after : List Cell) (p h : ℕ)
    (key value : Slice) (i : ℕ) : Type 0 where
  pub base : ℕ → Ptr
  pub behind : ℕ → Ptr
  pub opened : IsOpen heap head n hk hv base before after
  pub new_at : heap p ≡ some (node_of behind (h + 1) key value)
  pub todo : (j : ℕ) → i ≤ j → base j ≡ first after null j
  pub done : (j : ℕ) → j < i → base j ≡ some p
  pub done_behind : (j : ℕ) → j < i → behind j ≡ first after null j

module _ (head n : ℕ) (hk hv : Slice) (before after : List Cell) (p h : ℕ) (key value : Slice)
    (a : IsApart head before after) (w : IsNew head before after p) where
  -- One round.
  link-step :
      (rounds i : ℕ) (updates : List ℕ) (heap : Heap)
      → IsLinking heap head n hk hv before after p h key value i
      → get_elem? updates i ≡ some (pred head i before)
      → i < n
      → i < h + 1
      → (heap' : Heap) × (link (suc rounds) i updates p heap ≡ link rounds (suc i) updates p heap')
        × IsLinking heap' head n hk hv before after p h key value (suc i)
  unfolding link
  link-step rounds i updates heap s u l k =
      let m0 = write-IsStep heap head n hk hv s.base before after i none a s.opened l in
      let w1 = write_next_lem heap p i (h + 1) s.behind key value (s.base i) s.new_at k in
      let node = node_of (put s.behind i (s.base i)) (h + 1) key value in
      let heap1 = set_node heap p (some node) in
      let o1 = IsOpen-set_node heap head n hk hv s.base before after p (some node) w s.opened in
      let m = write-IsStep heap1 head n hk hv s.base before after i (some p) a o1 l in
      (
        m.heap',
        rw (link, u, bind, m0.read, m0.old, w1, m.done),
        record {
          base = put s.base i (some p);
          behind = put s.behind i (s.base i);
          opened = m.opened;
          new_at = m.others p w.not_head w.fresh ∙ set_node_same heap p (some node);
          todo = λ j q. put_other s.base i (some p) j (omega arith) ∙ s.todo j (omega arith);
          done = λ j q. go s j q (j == i) refl;
          done_behind = λ j q. go' s j q (j == i) refl;
        },
      )
    where
      go :
          (s : IsLinking heap head n hk hv before after p h key value i) (j : ℕ)
          → j < suc i
          → (b : Bool) → (j == i) ≡ b
          → (if b then some p else s.base j) ≡ some p
      go s j q true e = refl
      go s j q false e = s.done j (ground arith)

      go' :
          (s : IsLinking heap head n hk hv before after p h key value i) (j : ℕ)
          → j < suc i
          → (b : Bool) → (j == i) ≡ b
          → (if b then s.base i else s.behind j) ≡ first after null j
      go' s j q true e =
          let f : j ≡ i = ground arith in s.todo i (omega arith) ∙ ap (first after null) (sym f)
      go' s j q false e = s.done_behind j (ground arith)

  pub link_lem :
      (rounds i : ℕ) (updates : List ℕ) (heap : Heap)
      → IsLinking heap head n hk hv before after p h key value i
      → updates ≡ levels (λ j. pred head j before) 0 n
      → i + rounds ≡ h + 1
      → h < n
      → (heap' : Heap) × (link rounds i updates p heap ≡ some heap')
        × IsLinking heap' head n hk hv before after p h key value (h + 1)
  unfolding link
  link_lem zero i updates heap s u k l =
      (heap, refl, subst (IsLinking heap head n hk hv before after p h key value) (omega arith) s)
  link_lem (suc rounds) i updates heap s u k l =
      let z : 0 + i ≡ i = omega arith in
      let g : get_elem? updates i ≡ some (pred head i before) =
        ap (λ t. get_elem? t i) u
        ∙ get_elem?-levels (λ j. pred head j before) 0 n i (omega arith)
        ∙ ap (λ j. some (pred head j before)) z in
      let (heap1, e, s1) = link-step rounds i updates heap s g (omega arith) (omega arith) in
      let (heap', e', s') = link_lem rounds (suc i) updates heap1 s1 u (omega arith) l in
      (heap', e ∙ e', s')

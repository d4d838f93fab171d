-- ===== src/SkipList/Write.antt =====
-- One write of a pointer on a level, behind the last cell that is so high.
use mirdb.Prelude.{
  ℕ, ◌+◌, ◌<◌, ◌≡◌, ◌≢◌, refl, sym, ap, ◌∙◌, Bool, true, false, some, List, [], ◌∷◌, length,
  get_elem?, ltb, leb, lt→ltb, leb→le, ◌==◌, if◌then◌else◌, Slice, arith, Bool-cases, inl, inr,
  bind,
}
use mirdb.SkipList.{Ptr, SkipListNode, Heap, set_node, write_next}
use mirdb.SkipList.Cells.{
  levels, put, length-levels, get_elem?-levels, set_at-levels, put_same, Cell, first, pred, node_of,
  node_of_ext, IsRun, IsFresh, IsDistinct, first-put, set_node_other, set_node_same,
}

-- The write of `x` on the level `i` of the last cell so high, or of the node at `p`, has been done.
pub record IsWritten (heap : Heap) (base : ℕ → Ptr) (i : ℕ) (x : Ptr) (p n : ℕ) (f : ℕ → Ptr)
    (key value : Slice) (cs : List Cell) : Type 0 where
  pub heap' : Heap
  pub done : write_next heap (pred p i cs) i x ≡ some heap'
  pub at : heap' p ≡ some (node_of (put f i (first cs (put base i x) i)) n key value)
  pub run : IsRun heap' (put base i x) cs
  pub others : (q : ℕ) → q ≢ p → IsFresh q cs → heap' q ≡ heap q
  pub target : SkipListNode
  pub read : heap (pred p i cs) ≡ some target
  pub old : get_elem? target.nexts i ≡ some (base i)

-- A node that has the level.
pub write_next_lem :
    (heap : Heap) (p i n : ℕ) (f : ℕ → Ptr) (key value : Slice) (x : Ptr)
    → heap p ≡ some (node_of f n key value)
    → i < n
    → write_next heap p i x ≡ some (set_node heap p (some (node_of (put f i x) n key value)))
unfolding write_next
write_next_lem heap p i n f key value x h l =
    let a : ltb i (length (levels f 0 n)) ≡ true =
      lt→ltb _ _ (omega (arith, length-levels f 0 n)) in
    rw (write_next, h, bind, a, set_at-levels f n i x)

put_keeps : {A : Type 0} (f : ℕ → A) (i : ℕ) (v : A) (k : ℕ) → f i ≡ v → f k ≡ put f i v k
put_keeps f i v k e = ground arith

pub put-first :
    (cs : List Cell) (base : ℕ → Ptr) (i : ℕ) (x : Ptr) (k : ℕ)
    → put (first cs base) i (first cs (put base i x) i) k ≡ first cs (put base i x) k
put-first cs base i x k = go (k == i) refl
  where
    go :
        (b : Bool)
        → (k == i) ≡ b
        → (if b then first cs (put base i x) i else first cs base k) ≡ first cs (put base i x) k
    go true e = let f : k ≡ i = ground arith in ap (first cs (put base i x)) (sym f)
    go false e = sym (first-put cs base i x k (ground arith))

pub write_IsWritten :
    (cs : List Cell) (heap : Heap) (base : ℕ → Ptr) (i : ℕ) (x : Ptr) (p n : ℕ) (f : ℕ → Ptr)
    (key value : Slice)
    → heap p ≡ some (node_of f n key value)
    → i < n
    → f i ≡ first cs base i
    → IsRun heap base cs
    → IsFresh p cs
    → IsDistinct cs
    → IsWritten heap base i x p n f key value cs
write_IsWritten [] heap base i x p n f key value h l e r q d =
    let z : 0 + i ≡ i = omega arith in
    let get : get_elem? (levels f 0 n) i ≡ some (f i) = rw (get_elem?-levels f 0 n i l, z) in
    record {
      heap' = set_node heap p (some (node_of (put f i x) n key value));
      done = write_next_lem heap p i n f key value x h l;
      at = rw (put_same base i x) (set_node_same heap p _);
      run = tt;
      others = λ q ne fr. set_node_other heap p q _ ne;
      target = node_of f n key value;
      read = h;
      old = get ∙ ap some e;
    }
write_IsWritten (c ∷ cs) heap base i x p n f key value h l e r q d =
    elim (Bool-cases (leb i c.height)) [
      | inl b ↦
          let m =
            write_IsWritten cs heap base i x c.ptr (c.height + 1) (first cs base) c.key c.value r.0
              (omega (arith, leb→le i c.height b)) refl r.1 d.0 d.1 in
          let e' : f i ≡ some c.ptr = rw (b) at e in
          record {
            heap' = m.heap';
            done = rw (b) m.done;
            at = rw (b) (
                m.others p (λ z. q.0 (sym z)) q.1
                ∙ h
                ∙ ap some (
                    node_of_ext f (put f i (some c.ptr)) n key value
                      (λ k lk. put_keeps f i (some c.ptr) k e')));
            run = (
              m.at
                  ∙ ap some (
                      node_of_ext _ _ (c.height + 1) c.key c.value
                        (λ k lk. put-first cs base i x k)),
              m.run,
            );
            others = λ q' ne fr. m.others q' (λ z. fr.0 (sym z)) fr.1;
            target = m.target;
            read = rw (b) m.read;
            old = m.old;
          }
      | inr b ↦
          let e' : f i ≡ first cs base i = rw (b) at e in
          let m = write_IsWritten cs heap base i x p n f key value h l e' r.1 q.1 d.1 in
          record {
            heap' = m.heap';
            done = rw (b) m.done;
            at = rw (b) m.at;
            run = (
              m.others c.ptr q.0 d.0
                  ∙ r.0
                  ∙ ap some (
                      node_of_ext _ _ (c.height + 1) c.key c.value
                        (λ k lk. sym (first-put cs base i x k (ground arith)))),
              m.run,
            );
            others = λ q' ne fr. m.others q' ne fr.1;
            target = m.target;
            read = rw (b) m.read;
            old = m.old;
          }
    ]

-- ===== src/SkipList/Search.antt =====
-- The walks of a search, on cells.
use mirdb.Prelude.{
  ℕ, zero, suc, ◌+◌, ◌≤◌, ◌<◌, ◌≡◌, refl, ◌∙◌, Bool, true, false, none, some, List, [], ◌∷◌, ◌++◌,
  length, leb, leb→le, if◌then◌else◌, Slice, bytes_lt, All, arith, Bool-cases, inl, inr, bind,
}
use mirdb.SkipList.{Ptr, SkipListNode, Heap, next, walk, descend, descend_updates}
use mirdb.SkipList.Cells.{
  levels, levels_ext, levels_snoc, Cell, first, pred, node_of, IsRun, next-node_of,
}

-- Nothing below the key comes behind the cells.
abbrev pub IsEnd : Heap → Slice → Ptr → Type 0
IsEnd heap key none = Unit
IsEnd heap key (some q) = (n : SkipListNode) × (heap q ≡ some n) × (bytes_lt n.key key ≡ false)

abbrev pub IsBelow : Slice → List Cell → Type 0
IsBelow key = All (λ c. bytes_lt c.key key ≡ true)

-- A node in front of cells that it points to on the levels up to `i`.
pub record IsSpot (heap : Heap) (key : Slice) (base : ℕ → Ptr) (i p : ℕ) (cs : List Cell)
    : Type 0 where
  pub node : SkipListNode
  pub at : heap p ≡ some node
  pub links : (j : ℕ) → j ≤ i → next node j ≡ first cs base j
  pub run : IsRun heap base cs
  pub below : IsBelow key cs
  pub ends : (j : ℕ) → j ≤ i → IsEnd heap key (base j)

module _ (heap : Heap) (key : Slice) (base : ℕ → Ptr) where
  -- One round of the walk.
  walk_stop :
      (fuel i p : ℕ) (node : SkipListNode)
      → heap p ≡ some node
      → (q : Ptr) → next node i ≡ q
      → IsEnd heap key q
      → walk (suc fuel) heap key i p ≡ some p
  unfolding walk
  walk_stop fuel i p node h none e k = rw (walk, h, bind, e)
  walk_stop fuel i p node h (some q) e (n, k, b) = rw (walk, h, bind, e, k, b)

  walk_on :
      (fuel i p q : ℕ) (node n : SkipListNode)
      → heap p ≡ some node
      → next node i ≡ some q
      → heap q ≡ some n
      → bytes_lt n.key key ≡ true
      → walk (suc fuel) heap key i p ≡ walk fuel heap key i q
  unfolding walk
  walk_on fuel i p q node n h e k b = rw (walk, h, bind, e, k, b)

  pub walk_lem :
      (cs : List Cell) (fuel i p : ℕ) (node : SkipListNode)
      → heap p ≡ some node
      → next node i ≡ first cs base i
      → IsRun heap base cs
      → IsBelow key cs
      → IsEnd heap key (base i)
      → length cs < fuel
      → walk fuel heap key i p ≡ some (pred p i cs)
  walk_lem cs zero i p node h e r b k l = absurd (omega arith)
  walk_lem [] (suc fuel) i p node h e r b k l = walk_stop fuel i p node h (base i) e k
  walk_lem (c ∷ cs) (suc fuel) i p node h e r b k l = elim (Bool-cases (leb i c.height)) [
    | inl f ↦
        let n =
          next-node_of (first cs base) (c.height + 1) c.key c.value i
            (omega (arith, leb→le i c.height f)) in
        let e' : next node i ≡ some c.ptr = rw (f) at e in
        let more = walk_lem cs fuel i c.ptr _ r.0 n r.1 b.1 k (omega arith) in
        walk_on fuel i p c.ptr node _ h e' r.0 b.0 ∙ rw (f) more
    | inr f ↦
        let e' : next node i ≡ first cs base i = rw (f) at e in
        let more = walk_lem cs (suc fuel) i p node h e' r.1 b.1 k (omega arith) in rw (f) more
  ]

-- Whether one of the cells is so high.
abbrev pub any_high : ℕ → List Cell → Bool
any_high i [] = false
any_high i (c ∷ cs) = if leb i c.height then true else any_high i cs

pred_low : (p i : ℕ) (cs : List Cell) → any_high i cs ≡ false → pred p i cs ≡ p
pred_low p i [] h = refl
pred_low p i (c ∷ cs) h = elim (Bool-cases (leb i c.height)) [
  | inl f ↦ let h' : true ≡ false = rw (f) at h in cc
  | inr f ↦ let h' : any_high i cs ≡ false = rw (f) at h in rw (f) (pred_low p i cs h')
]

-- Behind a high cell the walk does not depend on where it has begun.
pred_high :
    (p q i j : ℕ) (cs : List Cell) → any_high i cs ≡ true → j ≤ i → pred p j cs ≡ pred q j cs
pred_high p q i j [] h l = cc
pred_high p q i j (c ∷ cs) h l = elim (Bool-cases (leb j c.height)) [
  | inl f ↦ rw f
  | inr f ↦
      let g : leb i c.height ≡ false = ground arith in
      let h' : any_high i cs ≡ true = rw (g) at h in rw (f) (pred_high p q i j cs h' l)
]

-- Where the walk on a level ends, with the cells behind it.
pub record IsReached (heap : Heap) (key : Slice) (base : ℕ → Ptr) (i p : ℕ) (cs : List Cell)
    : Type 0 where
  pub rest : List Cell
  pub spot : IsSpot heap key base i (pred p i cs) rest
  pub shorter : length rest ≤ length cs
  pub same : (j : ℕ) → j ≤ i → pred (pred p i cs) j rest ≡ pred p j cs

module _ (heap : Heap) (key : Slice) (base : ℕ → Ptr) where
  cell-IsSpot :
      (i : ℕ) (c : Cell) (cs : List Cell)
      → i ≤ c.height
      → IsRun heap base (c ∷ cs)
      → IsBelow key cs
      → ((j : ℕ) → j ≤ i → IsEnd heap key (base j))
      → IsSpot heap key base i c.ptr cs
  cell-IsSpot i c cs h r b e = record {
    node = node_of (first cs base) (c.height + 1) c.key c.value;
    at = r.0;
    links = λ j l. next-node_of (first cs base) (c.height + 1) c.key c.value j (omega arith);
    run = r.1;
    below = b;
    ends = e;
  }

  -- Where no cell is so high, the walk stays.
  reach_low :
      (i p : ℕ) (cs : List Cell)
      → any_high i cs ≡ false
      → IsSpot heap key base i p cs
      → IsReached heap key base i p cs
  reach_low i p cs h s =
      let e = pred_low p i cs h in
      record { rest = cs; spot = rw (e) s; shorter = omega arith; same = λ j l. rw e }

  reach_high :
      (i p : ℕ) (cs : List Cell)
      → any_high i cs ≡ true
      → IsRun heap base cs
      → IsBelow key cs
      → ((j : ℕ) → j ≤ i → IsEnd heap key (base j))
      → IsReached heap key base i p cs
  reach_high i p [] h r b e = cc
  reach_high i p (c ∷ cs) h r b e = elim (Bool-cases (leb i c.height)) [
    | inl f ↦
        let spot = cell-IsSpot i c cs (leb→le i c.height f) r b.1 e in
        let more = elim (Bool-cases (any_high i cs)) as (λ x. IsReached heap key base i c.ptr cs) [
          | inl g ↦ reach_high i c.ptr cs g r.1 b.1 e
          | inr g ↦ reach_low i c.ptr cs g spot
        ] in
        record {
          rest = more.rest;
          spot = rw (f) more.spot;
          shorter = omega (arith, more.shorter);
          same = λ j l. let g : leb j c.height ≡ true = ground arith in rw (f, g) (more.same j l);
        }
    | inr f ↦
        let g : any_high i cs ≡ true = rw (f) at h in
        let more = reach_high i p cs g r.1 b.1 e in
        record {
          rest = more.rest;
          spot = rw (f) more.spot;
          shorter = omega (arith, more.shorter);
          same = λ j l.
              rw (f) (more.same j l ∙ either (leb j c.height) (pred_high p c.ptr i j cs g l));
        }
  ]
    where
      either : (x : Bool) {a b : ℕ} → a ≡ b → a ≡ (if x then b else a)
      either true h = h
      either false h = refl

  reach : (i p : ℕ) (cs : List Cell) → IsSpot heap key base i p cs → IsReached heap key base i p cs
  reach i p cs s = elim (Bool-cases (any_high i cs)) [
    | inl g ↦ reach_high i p cs g s.run s.below s.ends
    | inr g ↦ reach_low i p cs g s
  ]

  lower :
      (i p : ℕ) (cs : List Cell) → IsSpot heap key base (suc i) p cs → IsSpot heap key base i p cs
  lower i p cs s = record {
    node = s.node;
    at = s.at;
    links = λ j l. s.links j (omega arith);
    run = s.run;
    below = s.below;
    ends = λ j l. s.ends j (omega arith);
  }

  walk_spot :
      (fuel i p : ℕ) (cs : List Cell)
      → IsSpot heap key base i p cs
      → length cs < fuel
      → walk fuel heap key i p ≡ some (pred p i cs)
  walk_spot fuel i p cs s l =
      walk_lem heap key base cs fuel i p s.node s.at (s.links i (omega arith)) s.run s.below
        (s.ends i (omega arith)) l

  pub descend_lem :
      (i fuel p : ℕ) (cs : List Cell)
      → IsSpot heap key base i p cs
      → length cs < fuel
      → descend fuel heap key i p ≡ some (pred p 0 cs)
  unfolding descend
  descend_lem zero fuel p cs s l = walk_spot fuel 0 p cs s l
  descend_lem (suc i) fuel p cs s l =
      let r = reach (suc i) p cs s in
      let more =
        descend_lem i fuel (pred p (suc i) cs) r.rest (lower i _ r.rest r.spot)
          (omega (arith, r.shorter)) in
      rw (descend, walk_spot fuel (suc i) p cs s l, bind, more, r.same 0 (omega arith))

  pub descend_updates_lem :
      (i fuel p : ℕ) (cs : List Cell)
      → IsSpot heap key base i p cs
      → length cs < fuel
      → descend_updates fuel heap key i p ≡ some (pred p 0 cs, levels (λ j. pred p j cs) 0 (i + 1))
  unfolding descend_updates
  descend_updates_lem zero fuel p cs s l = rw (descend_updates, walk_spot fuel 0 p cs s l)
  descend_updates_lem (suc i) fuel p cs s l =
      let r = reach (suc i) p cs s in
      let more =
        descend_updates_lem i fuel (pred p (suc i) cs) r.rest (lower i _ r.rest r.spot)
          (omega (arith, r.shorter)) in
      let e =
        levels_ext (λ j. pred (pred p (suc i) cs) j r.rest) (λ j. pred p j cs) 0 (i + 1)
          (λ j k k'. r.same j (omega arith)) in
      let snoc : levels (λ j. pred p j cs) 0 (suc i + 1)
          ≡ levels (λ j. pred p j cs) 0 (i + 1) ++ (pred p (suc i) cs ∷ []) =
        let a : suc i + 1 ≡ suc (i + 1) = omega arith in
        let b : i + 1 ≡ suc i = omega arith in rw (a, levels_snoc (λ j. pred p j cs) (i + 1), b) in
      rw (
        descend_updates,
        walk_spot fuel (suc i) p cs s l,
        bind,
        more,
        r.same 0 (omega arith),
        e,
        snoc,
      )

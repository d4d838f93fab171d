-- ===== src/SkipList/Cells.antt =====
-- A run of nodes in the heap, as a list of cells.
use mirdb.Prelude.{
  ℕ, zero, suc, ◌+◌, ◌≤◌, ◌<◌, ◌≡◌, ◌≢◌, refl, sym, ap, ◌∙◌, Option, some, List, [], ◌∷◌, ◌++◌,
  length, get_elem?, leb, ◌==◌, if◌then◌else◌, Slice, All, arith,
}
use mathlib.Core.Path.{subst}
use mirdb.SkipList.{Ptr, SkipListNode, Heap, set_node, set_at, repeat, next}

module _ {ℓ} {A : Type ℓ} where
  -- The values of a function at `i`, ..., `i + n - 1`.
  abbrev pub levels : (ℕ → A) → ℕ → ℕ → List A
  levels f i zero = []
  levels f i (suc n) = f i ∷ levels f (suc i) n

  -- The function with another value at one number.
  abbrev pub put : (ℕ → A) → ℕ → A → ℕ → A
  put f j v i = if i == j then v else f i

  pub length-levels : (f : ℕ → A) (i n : ℕ) → length (levels f i n) ≡ n
  length-levels f i zero = refl
  length-levels f i (suc n) = omega (arith, length-levels f (suc i) n)

  pub levels_ext :
      (f g : ℕ → A) (i n : ℕ)
      → ((k : ℕ) → i ≤ k → k < i + n → f k ≡ g k)
      → levels f i n ≡ levels g i n
  levels_ext f g i zero h = refl
  levels_ext f g i (suc n) h =
      let a = h i (omega arith) (omega arith) in
      let b = levels_ext f g (suc i) n (λ k p q. h k (omega arith) (omega arith)) in rw (a, b)

  pub get_elem?-levels :
      (f : ℕ → A) (i n j : ℕ) → j < n → get_elem? (levels f i n) j ≡ some (f (i + j))
  get_elem?-levels f i zero j h = absurd (omega arith)
  get_elem?-levels f i (suc n) zero h = let e : i + 0 ≡ i = omega arith in rw e
  get_elem?-levels f i (suc n) (suc j) h =
      let e : i + suc j ≡ suc i + j = omega arith in
      rw (e) (get_elem?-levels f (suc i) n j (omega arith))

  pub levels-append :
      (f : ℕ → A) (i m n : ℕ) → levels f i (m + n) ≡ levels f i m ++ levels f (i + m) n
  levels-append f i zero n =
      let e : i + 0 ≡ i = omega arith in let e' : 0 + n ≡ n = omega arith in rw (e, e')
  levels-append f i (suc m) n =
      let e : suc m + n ≡ suc (m + n) = omega arith in
      let e' : i + suc m ≡ suc i + m = omega arith in
      rw (e, e') (ap (λ t. f i ∷ t) (levels-append f (suc i) m n))

  pub levels_snoc : (f : ℕ → A) (n : ℕ) → levels f 0 (suc n) ≡ levels f 0 n ++ (f n ∷ [])
  levels_snoc f n =
      let e : n + 1 ≡ suc n = omega arith in
      let e' : 0 + n ≡ n = omega arith in
      subst (λ k. levels f 0 k ≡ levels f 0 n ++ (f n ∷ [])) e
        (levels-append f 0 n 1 ∙ ap (λ k. levels f 0 n ++ (f k ∷ [])) e')

  pub put_other : (f : ℕ → A) (j : ℕ) (v : A) (i : ℕ) → i ≢ j → put f j v i ≡ f i
  put_other f j v i h = ground arith

  pub put_same : (f : ℕ → A) (j : ℕ) (v : A) → put f j v j ≡ v
  put_same f j v = ground arith

module _ {A : Type 0} where
  pub levels-repeat : (x : A) (i n : ℕ) → levels (λ k. x) i n ≡ repeat n x
  levels-repeat x i zero = refl
  levels-repeat x i (suc n) = ap (λ t. x ∷ t) (levels-repeat x (suc i) n)

  set_at-levels_from :
      (f : ℕ → A) (i n j : ℕ) (v : A) → set_at (levels f i n) j v ≡ levels (put f (i + j) v) i n
  set_at-levels_from f i zero j v = refl
  set_at-levels_from f i (suc n) zero v =
      let e : i + 0 ≡ i = omega arith in
      let r = levels_ext f (put f i v) (suc i) n (λ k p q. ground arith) in
      subst (λ j. set_at (levels f i (suc n)) 0 v ≡ levels (put f j v) i (suc n)) (sym e)
        (rw (put_same f i v, r))
  set_at-levels_from f i (suc n) (suc j) v =
      let e : i + suc j ≡ suc i + j = omega arith in
      let o = put_other f (suc i + j) v i (λ p. omega arith) in
      subst (λ k. f i ∷ set_at (levels f (suc i) n) j v ≡ levels (put f k v) i (suc n)) (sym e)
        (rw (o, set_at-levels_from f (suc i) n j v))

  pub set_at-levels :
      (f : ℕ → A) (n j : ℕ) (v : A) → set_at (levels f 0 n) j v ≡ levels (put f j v) 0 n
  set_at-levels f n j v = let e : 0 + j ≡ j = omega arith in rw (set_at-levels_from f 0 n j v, e)

pub record Cell : Type 0 where
  pub ptr : ℕ
  pub key : Slice
  pub value : Slice
  pub height : ℕ

-- What a node points to on a level: the first of the cells behind it that is so high; `base` says what
-- comes behind the cells.
abbrev pub first : List Cell → (ℕ → Ptr) → ℕ → Ptr
first [] base i = base i
first (c ∷ cs) base i = if leb i c.height then some c.ptr else first cs base i

-- The last of the cells that is so high, or `p` before them.
abbrev pub pred : ℕ → ℕ → List Cell → ℕ
pred p i [] = p
pred p i (c ∷ cs) = if leb i c.height then pred c.ptr i cs else pred p i cs

abbrev pub node_of : (ℕ → Ptr) → ℕ → Slice → Slice → SkipListNode
node_of f n key value = record { nexts = levels f 0 n; key = key; value = value }

-- The cells stand in the heap, in front of what `base` gives.
abbrev pub IsRun : Heap → (ℕ → Ptr) → List Cell → Type 0
IsRun heap base [] = Unit
IsRun heap base (c ∷ cs) =
    (heap c.ptr ≡ some (node_of (first cs base) (c.height + 1) c.key c.value)) × IsRun heap base cs

-- None of the cells is at the pointer.
abbrev pub IsFresh : ℕ → List Cell → Type 0
IsFresh p = All (λ c. c.ptr ≢ p)

abbrev pub IsDistinct : List Cell → Type 0
IsDistinct [] = Unit
IsDistinct (c ∷ cs) = IsFresh c.ptr cs × IsDistinct cs

pub next-node_of :
    (f : ℕ → Ptr) (n : ℕ) (key value : Slice) (i : ℕ) → i < n → next (node_of f n key value) i ≡ f i
next-node_of f n key value i h =
    let e : 0 + i ≡ i = omega arith in rw (next, get_elem?-levels f 0 n i h, e)

pub first-put :
    (cs : List Cell) (base : ℕ → Ptr) (j : ℕ) (v : Ptr) (i : ℕ)
    → i ≢ j
    → first cs (put base j v) i ≡ first cs base i
first-put [] base j v i h = put_other base j v i h
first-put (c ∷ cs) base j v i h = rw (first-put cs base j v i h)

pub first_ext :
    (cs : List Cell) (base base' : ℕ → Ptr) (i : ℕ)
    → base i ≡ base' i
    → first cs base i ≡ first cs base' i
first_ext [] base base' i h = h
first_ext (c ∷ cs) base base' i h = rw (first_ext cs base base' i h)

pub first-append :
    (xs ys : List Cell) (base : ℕ → Ptr) (i : ℕ)
    → first (xs ++ ys) base i ≡ first xs (first ys base) i
first-append [] ys base i = refl
first-append (c ∷ xs) ys base i = rw (first-append xs ys base i)

-- Nodes whose pointers agree on the levels.
pub node_of_ext :
    (f g : ℕ → Ptr) (n : ℕ) (key value : Slice)
    → ((i : ℕ) → i < n → f i ≡ g i)
    → node_of f n key value ≡ node_of g n key value
node_of_ext f g n key value h = let e = levels_ext f g 0 n (λ k p q. h k (omega arith)) in rw e

pub IsRun-ext :
    (heap : Heap) (base base' : ℕ → Ptr) (cs : List Cell)
    → ((i : ℕ) → base i ≡ base' i)
    → IsRun heap base cs
    → IsRun heap base' cs
IsRun-ext heap base base' [] h r = r
IsRun-ext heap base base' (c ∷ cs) h r = (
  r.0
      ∙ ap some
          (node_of_ext _ _ (c.height + 1) c.key c.value (λ i l. first_ext cs base base' i (h i))),
  IsRun-ext heap base base' cs h r.1,
)

pub IsRun-join :
    (heap : Heap) (base : ℕ → Ptr) (xs ys : List Cell)
    → IsRun heap (first ys base) xs
    → IsRun heap base ys
    → IsRun heap base (xs ++ ys)
IsRun-join heap base [] ys r s = s
IsRun-join heap base (c ∷ xs) ys r s = (
  r.0
      ∙ ap some
          (node_of_ext _ _ (c.height + 1) c.key c.value (λ i l. sym (first-append xs ys base i))),
  IsRun-join heap base xs ys r.1 s,
)

pub IsRun-split :
    (heap : Heap) (base : ℕ → Ptr) (xs ys : List Cell)
    → IsRun heap base (xs ++ ys)
    → IsRun heap (first ys base) xs × IsRun heap base ys
IsRun-split heap base [] ys r = (tt, r)
IsRun-split heap base (c ∷ xs) ys r =
    let more = IsRun-split heap base xs ys r.1 in
    (
      (
        r.0
            ∙ ap some
                (node_of_ext _ _ (c.height + 1) c.key c.value (λ i l. first-append xs ys base i)),
        more.0,
      ),
      more.1,
    )

-- Cells whose nodes a step leaves as they are.
pub IsRun-frame :
    (heap heap' : Heap) (base : ℕ → Ptr) (cs : List Cell)
    → All (λ c. heap' c.ptr ≡ heap c.ptr) cs
    → IsRun heap base cs
    → IsRun heap' base cs
IsRun-frame heap heap' base [] h r = r
IsRun-frame heap heap' base (c ∷ cs) h r = (h.0 ∙ r.0, IsRun-frame heap heap' base cs h.1 r.1)

pub set_node_other :
    (heap : Heap) (p q : ℕ) (kept : Option SkipListNode) → q ≢ p → set_node heap p kept q ≡ heap q
set_node_other heap p q kept h = ground arith

pub set_node_same :
    (heap : Heap) (p : ℕ) (kept : Option SkipListNode) → set_node heap p kept p ≡ kept
set_node_same heap p kept = ground arith

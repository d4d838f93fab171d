-- ===== src/Levels/Search.antt =====
-- `search_readers` in one level, against a search through all readers of the level.
use mirdb.Prelude.{
  ℕ, zero, suc, ◌+◌, ◌-◌, ◌/◌, ◌≤◌, ◌<◌, ◌≡◌, ◌⊎◌, inl, inr, refl, sym, ap, ◌∙◌, Bool, true, false,
  Option, none, some, List, [], ◌∷◌, length, get_elem?, drop, All, ltb, if◌then◌else◌, Slice,
  bytes_lt, bytes_lt_trans, lt-le_trans, arith, Bool-cases, ltb→lt, ltb_irrefl, ==_refl,
}
use mathlib.Core.Path.{subst}
use mirdb.Levels.{ReaderOps, filter, covers, narrowed, bisect, scan, search_level}

module _ (ops : ReaderOps) where
  open ops use {Reader, min_key, max_key}

  -- The ranges of the readers follow each other and have no key in common.
  abbrev pub IsApart : List Reader → Type 0
  IsApart [] = Unit
  IsApart (x ∷ xs) =
      (bytes_lt (max_key x) (min_key x) ≡ false)
      × All (λ y. bytes_lt (max_key x) (min_key y) ≡ true) xs
      × IsApart xs

  -- The search starts at the front, or at a reader whose least key is below `key`.
  abbrev IsStart : List Reader → Slice → ℕ → Type 0
  IsStart rs key left =
      (left ≡ 0) ⊎ ((x : Reader) × (get_elem? rs left ≡ some x) × (bytes_lt (min_key x) key ≡ true))

  in_range : (rs : List Reader) (i : ℕ) → i < length rs → (x : Reader) × (get_elem? rs i ≡ some x)
  in_range [] i h = absurd (omega arith)
  in_range (x ∷ rs) zero h = (x, refl)
  in_range (x ∷ rs) (suc i) h = in_range rs i (omega arith)

  abbrev Found : List Reader → Slice → Option ℕ → Type 0
  Found rs key o = (left : ℕ) × (o ≡ some left) × IsStart rs key left

  -- A round leaves a shorter interval inside the old one.
  abbrev Round : List Reader → Slice → ℕ → ℕ → Option (ℕ × ℕ) → Type 0
  Round rs key left right o =
      (b : ℕ × ℕ) × (o ≡ some b)
      × (b.0 ≤ b.1)
      × (b.1 ≤ right)
      × (b.1 - b.0 < right - left)
      × IsStart rs key b.0

  narrowed-Round :
      (rs : List Reader) (key : Slice) (left right : ℕ)
      → left < right
      → right < length rs
      → IsStart rs key left
      → Round rs key left right (narrowed ops rs key left right)
  unfolding narrowed
  narrowed-Round rs key left right a b s =
      let middle = (left + right + 1) / 2 in
      let (x, e) = in_range rs middle (omega arith) in
      split middle (omega arith) (omega arith) x e (Bool-cases (bytes_lt (min_key x) key))
    where
      split :
          (m : ℕ)
          → left < m
          → m ≤ right
          → (x : Reader) → get_elem? rs m ≡ some x
          → (bytes_lt (min_key x) key ≡ true) ⊎ (bytes_lt (min_key x) key ≡ false)
          → Round rs key left right (elim (get_elem? rs m) [
            | none ↦ none
            | some r ↦ some (if bytes_lt (min_key r) key then (m, right) else (left, m - 1))
          ])
      split m l u x e (inl h) = ((m, right), rw (e, h), u, omega arith, omega arith, inr (x, e, h))
      split m l u x e (inr h) = ((left, m - 1), rw (e, h), omega arith, omega arith, omega arith, s)

  bisect-round :
      (fuel : ℕ) (rs : List Reader) (key : Slice) (left right : ℕ) (b : ℕ × ℕ)
      → ltb left right ≡ true
      → narrowed ops rs key left right ≡ some b
      → bisect ops (suc fuel) rs key left right ≡ bisect ops fuel rs key b.0 b.1
  unfolding bisect
  bisect-round fuel rs key left right b e n = rw (bisect, e, n)

  bisect-done :
      (fuel : ℕ) (rs : List Reader) (key : Slice) (i : ℕ)
      → bisect ops (suc fuel) rs key i i ≡ some i
  unfolding bisect
  bisect-done fuel rs key i = rw (bisect, ltb_irrefl i, ==_refl i)

  bisect-Found :
      (fuel : ℕ) (rs : List Reader) (key : Slice) (left right : ℕ)
      → left ≤ right
      → right < length rs
      → right - left < fuel
      → IsStart rs key left
      → Found rs key (bisect ops fuel rs key left right)
  bisect-Found zero rs key left right a b c s = absurd (omega arith)
  bisect-Found (suc fuel) rs key left right a b c s =
      split (Bool-cases (ltb left right)) (bisect-Found fuel rs key)
    where
      split :
          (ltb left right ≡ true) ⊎ (ltb left right ≡ false)
          → ((l r : ℕ)
              → l ≤ r
              → r < length rs
              → r - l < fuel
              → IsStart rs key l
              → Found rs key (bisect ops fuel rs key l r))
          → Found rs key (bisect ops (suc fuel) rs key left right)
      split (inl e) ih =
          let (q, n, ba, bb, bc, bs) = narrowed-Round rs key left right (ltb→lt left right e) b s in
          subst (Found rs key) (sym (bisect-round fuel rs key left right q e n))
            (ih q.0 q.1 ba (omega arith) (omega arith) bs)
      split (inr e) ih =
          let same : left ≡ right = ground arith in
          subst (λ r. Found rs key (bisect ops (suc fuel) rs key left r)) same
            (left, bisect-done fuel rs key left, s)

  filter-none :
      (key : Slice) (rs : List Reader)
      → All (λ y. bytes_lt key (min_key y) ≡ true) rs
      → filter (covers ops key) rs ≡ []
  filter-none key [] h = refl
  filter-none key (y ∷ rs) (h, k) = rw (h, filter-none key rs k)

  All-above :
      (key : Slice) (x : Reader) (rs : List Reader)
      → bytes_lt key (min_key x) ≡ true
      → bytes_lt (max_key x) (min_key x) ≡ false
      → All (λ y. bytes_lt (max_key x) (min_key y) ≡ true) rs
      → All (λ y. bytes_lt key (min_key y) ≡ true) rs
  All-above key x [] h o a = tt
  All-above key x (y ∷ rs) h o (b, a) = (
    bytes_lt_trans key (max_key x) (min_key y) (lt-le_trans key (min_key x) (max_key x) h o) b,
    All-above key x rs h o a,
  )

  scan-filter :
      (key : Slice) (rs : List Reader) → IsApart rs → scan ops key rs ≡ filter (covers ops key) rs
  unfolding scan
  scan-filter key [] a = refl
  scan-filter key (x ∷ rs) (o, n, a) =
      split (covers ops key x) (Bool-cases (bytes_lt key (min_key x))) (scan-filter key rs a)
    where
      split :
          (c : Bool)
          → (bytes_lt key (min_key x) ≡ true) ⊎ (bytes_lt key (min_key x) ≡ false)
          → scan ops key rs ≡ filter (covers ops key) rs
          → (if c
              then x ∷ scan ops key rs
              else if bytes_lt key (min_key x)
              then []
              else scan ops key rs)
            ≡ (if c then x ∷ filter (covers ops key) rs else filter (covers ops key) rs)
      split true e ih = ap (λ t. x ∷ t) ih
      split false (inl e) ih = rw (e, filter-none key rs (All-above key x rs e o n))
      split false (inr e) ih = rw e ih

  All-at :
      (P : Reader → Type 0) (rs : List Reader) (i : ℕ) (x : Reader)
      → All P rs
      → get_elem? rs i ≡ some x
      → P x
  All-at P [] i x a e = cc
  All-at P (y ∷ rs) zero x a e = subst P (cc e) a.0
  All-at P (y ∷ rs) (suc i) x a e = All-at P rs i x a.1 e

  filter-drop :
      (key : Slice) (rs : List Reader) (left : ℕ)
      → IsApart rs
      → IsStart rs key left
      → filter (covers ops key) (drop left rs) ≡ filter (covers ops key) rs
  filter-drop key rs zero a s = refl
  filter-drop key [] (suc i) a s = refl
  filter-drop key (y ∷ rs) (suc i) a (inl e) = absurd (omega arith)
  filter-drop key (y ∷ rs) (suc i) (o, n, a) (inr (x, e, h)) =
      let below : bytes_lt (max_key y) key ≡ true =
        bytes_lt_trans (max_key y) (min_key x) key (All-at _ rs i x n e) h in
      let skipped : covers ops key y ≡ false = ground arith in
      filter-drop key rs i a (inr (x, e, h)) ∙ rw skipped

  IsApart-drop : (rs : List Reader) (n : ℕ) → IsApart rs → IsApart (drop n rs)
  IsApart-drop rs zero a = a
  IsApart-drop [] (suc n) a = tt
  IsApart-drop (y ∷ rs) (suc n) a = IsApart-drop rs n a.2

-- In every level but the first, over readers whose ranges follow each other without a key in common,
-- `search_readers` does not panic: its binary search ends inside the level, and together with the
-- loop behind it finds exactly the readers whose range covers the key, in their order.
pub search_level-filter :
    (ops : ReaderOps) (level : ℕ) (rs : List ops.Reader) (key : Slice)
    → IsApart ops rs
    → search_level ops (suc level) rs key ≡ some (filter (covers ops key) rs)
unfolding search_level
search_level-filter ops level [] key a = refl
search_level-filter ops level (r ∷ rs) key a =
    let all = r ∷ rs in
    let (left, e, s) =
      bisect-Found ops (length all) all key 0 (length all - 1) (omega arith) (omega arith)
        (omega arith) (inl refl) in
    found all a left s _ e
  where
    found :
        (all : List ops.Reader)
        → IsApart ops all
        → (left : ℕ) → IsStart ops all key left
        → (o : Option ℕ) → o ≡ some left
        → elim o [ none ↦ none | some l ↦ some (scan ops key (drop l all)) ]
          ≡ some (filter (covers ops key) all)
    found all a left s o e = rw e (
        ap (λ t. some t)
          (scan-filter ops key (drop left all) (IsApart-drop ops all left a)
            ∙ filter-drop ops key all left a s))

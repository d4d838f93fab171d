-- ===== src/Levels/Overlap.antt =====
-- The inputs of a compaction, against the keys that they cover.
use mirdb.Prelude.{
  ℕ, ◌≡◌, refl, sym, Bool, true, false, ◌&&◌, not, Option, none, some, List, [], ◌∷◌, All, All-map,
  if◌then◌else◌, Slice, bytes_lt, bytes_le, bytes_lt_trans, bytes_lt_irrefl, bytes_lt_asym,
  lt-le_trans, bind,
}
use mathlib.Core.Path.{subst}
use mirdb.Levels.{ReaderOps, filter, covers}
use mirdb.Levels.Search.{IsApart}
use mirdb.Levels.Inputs.{
  greater_key, lesser_key, inputs_of, widened, range_from, take_while, get_other_readers,
  compaction_inputs,
}

-- `a` is not above `b`.
abbrev IsLe : Slice → Slice → Type 0
IsLe a b = bytes_lt b a ≡ false

IsLe-trans : (a b c : Slice) → IsLe a b → IsLe b c → IsLe a c
IsLe-trans a b c h k = go (bytes_lt c a) refl
  where
    go : (x : Bool) → bytes_lt c a ≡ x → bytes_lt c a ≡ false
    go false e = e
    go true e = let t = lt-le_trans c a b e h in cc

greater_key-left : (a b : Slice) → IsLe a (greater_key a b)
greater_key-left a b = go (bytes_lt b a) refl
  where
    go : (x : Bool) → bytes_lt b a ≡ x → IsLe a (if x then a else b)
    go true e = bytes_lt_irrefl a
    go false e = e

greater_key-right : (a b : Slice) → IsLe b (greater_key a b)
greater_key-right a b = go (bytes_lt b a) refl
  where
    go : (x : Bool) → bytes_lt b a ≡ x → IsLe b (if x then a else b)
    go true e = bytes_lt_asym b a e
    go false e = bytes_lt_irrefl b

lesser_key-left : (a b : Slice) → IsLe (lesser_key a b) a
lesser_key-left a b = go (bytes_lt b a) refl
  where
    go : (x : Bool) → bytes_lt b a ≡ x → IsLe (if x then b else a) a
    go true e = bytes_lt_asym b a e
    go false e = bytes_lt_irrefl a

lesser_key-right : (a b : Slice) → IsLe (lesser_key a b) b
lesser_key-right a b = go (bytes_lt b a) refl
  where
    go : (x : Bool) → bytes_lt b a ≡ x → IsLe (if x then b else a) b
    go true e = bytes_lt_irrefl b
    go false e = e

module _ (ops : ReaderOps) where
  open ops use {Reader, min_key, max_key}

  -- The range of the reader is inside.
  abbrev IsInside : Slice × Slice → Reader → Type 0
  IsInside range x = IsLe range.1 (min_key x) × IsLe (max_key x) range.0

  abbrev IsWider : Option (Slice × Slice) → Slice × Slice → Type 0
  IsWider none range = Unit
  IsWider (some (max, min)) range = IsLe range.1 min × IsLe max range.0

  range_from-IsInside :
      (xs : List Reader) (a : Option (Slice × Slice)) (range : Slice × Slice)
      → range_from ops a xs ≡ some range
      → IsWider a range × All (IsInside range) xs
  unfolding range_from
  range_from-IsInside [] none range e = (tt, tt)
  range_from-IsInside [] (some (max, min)) range e =
      let f : (max, min) ≡ range = cc in
      (subst (λ r. IsLe r.1 min × IsLe max r.0) f (bytes_lt_irrefl min, bytes_lt_irrefl max), tt)
  range_from-IsInside (x ∷ xs) none range e =
      let (w, r) = range_from-IsInside xs (widened ops none x) range e in (tt, (w, r))
  range_from-IsInside (x ∷ xs) (some (max, min)) range e =
      let (w, r) = range_from-IsInside xs (widened ops (some (max, min)) x) range e in
      (
        (
          IsLe-trans range.1 _ min w.0 (lesser_key-left min (min_key x)),
          IsLe-trans max _ range.0 (greater_key-left max (max_key x)) w.1,
        ),
        (
          (
            IsLe-trans range.1 _ (min_key x) w.0 (lesser_key-right min (min_key x)),
            IsLe-trans (max_key x) _ range.0 (greater_key-right max (max_key x)) w.1,
          ),
          r,
        ),
      )

  -- Readers that all begin above the key.
  none_covers :
      (key max : Slice) (xs : List Reader)
      → IsLe key max
      → All (λ y. bytes_lt max (min_key y) ≡ true) xs
      → filter (covers ops key) xs ≡ []
  none_covers key max [] l h = refl
  none_covers key max (x ∷ xs) l h =
      go (bytes_lt key (min_key x)) refl (none_covers key max xs l h.1)
    where
      go :
          (b : Bool)
          → bytes_lt key (min_key x) ≡ b
          → filter (covers ops key) xs ≡ []
          → filter (covers ops key) (x ∷ xs) ≡ []
      go true e more = rw (e) more
      go false e more = let k = IsLe-trans (min_key x) key max e l in let h' = h.0 in cc

  -- The readers of the next level that cover a key of the range are chosen.
  other_covers :
      (key min max : Slice) (xs : List Reader)
      → IsLe min key
      → IsLe key max
      → IsApart ops xs
      → filter (covers ops key) (get_other_readers ops min max xs) ≡ filter (covers ops key) xs
  unfolding get_other_readers take_while
  other_covers key min max [] l h a = refl
  other_covers key min max (x ∷ xs) l h a =
      go (bytes_lt max (min_key x)) refl (bytes_lt (max_key x) min) refl
        (other_covers key min max xs l h a.2)
    where
      chosen : List Reader
      chosen =
          filter (λ y. bytes_le min (max_key y)) (take_while ops (λ y. bytes_le (min_key y) max) xs)

      behind : bytes_lt max (min_key x) ≡ true → All (λ y. bytes_lt max (min_key y) ≡ true) xs
      behind p =
          All-map _ _ xs
            (λ y k.
              bytes_lt_trans max (max_key x) (min_key y)
                (lt-le_trans max (min_key x) (max_key x) p a.0) k)
            a.1

      drop : bytes_lt (max_key x) min ≡ true → covers ops key x ≡ false
      drop q = let m = lt-le_trans (max_key x) min key q l in no (bytes_lt key (min_key x)) m
        where
          no :
              (b : Bool)
              → bytes_lt (max_key x) key ≡ true
              → (not b && not (bytes_lt (max_key x) key)) ≡ false
          no true m = refl
          no false m = rw (m)

      go :
          (p : Bool)
          → bytes_lt max (min_key x) ≡ p
          → (q : Bool) → bytes_lt (max_key x) min ≡ q
          → filter (covers ops key) chosen ≡ filter (covers ops key) xs
          → filter (covers ops key) (
              filter
                (λ y. bytes_le min (max_key y))
                (if not p then x ∷ take_while ops (λ y. bytes_le (min_key y) max) xs else []))
            ≡ filter (covers ops key) (x ∷ xs)
      go true e q f ih = sym (none_covers key max (x ∷ xs) h (e, behind e))
      go false e true f ih = let d = drop f in rw (f, d) ih
      go false e false f ih = rw (f, ih)

  both_le : (a b : Bool) → (not a && not b) ≡ true → (a ≡ false) × (b ≡ false)
  both_le true b h = cc
  both_le false true h = cc
  both_le false false h = (refl, refl)

  inside_covers :
      (min max : Slice) (xs inputs : List Reader)
      → IsApart ops xs
      → All (IsInside (max, min)) inputs
      → All
          (λ x.
            (key : Slice)
            → covers ops key x ≡ true
            → filter (covers ops key) (get_other_readers ops min max xs)
              ≡ filter (covers ops key) xs)
          inputs
  inside_covers min max xs [] a h = tt
  inside_covers min max xs (x ∷ inputs) a h = (
    (λ key c.
        let (l, u) = both_le (bytes_lt key (min_key x)) (bytes_lt (max_key x) key) c in
        other_covers key min max xs (IsLe-trans min (min_key x) key h.0.0 l)
          (IsLe-trans key (max_key x) max u h.0.1) a),
    inside_covers min max xs inputs a h.1,
  )

  -- What a compaction by size takes of the level below covers, for every key in the range of one of its inputs, all
  -- readers that the level below has for the key, if their ranges follow each other without a key in
  -- common: no entry of the level below can hide one that comes down.
  pub compaction_inputs-covers :
      (level : ℕ) (last : Option Slice) (readers next inputs others : List Reader)
      → compaction_inputs ops level last readers next ≡ some (inputs, others)
      → IsApart ops next
      → All
          (λ x.
            (key : Slice)
            → covers ops key x ≡ true
            → filter (covers ops key) others ≡ filter (covers ops key) next)
          inputs
  unfolding compaction_inputs
  compaction_inputs-covers level last readers next inputs others e a =
      go (inputs_of ops level last readers) e
    where
      go' :
          (chosen : List Reader) (range : Option (Slice × Slice))
          → range_from ops none chosen ≡ range
          → (bind {B = List Reader × List Reader} range
              λ range. some (chosen, get_other_readers ops range.1 range.0 next))
            ≡ some (inputs, others)
          → All
              (λ x.
                (key : Slice)
                → covers ops key x ≡ true
                → filter (covers ops key) others ≡ filter (covers ops key) next)
              inputs
      go' chosen none r k = cc
      go' chosen (some (max, min)) r k =
          let both : List Reader × List Reader = (chosen, get_other_readers ops min max next) in
          let goal : List Reader × List Reader = (inputs, others) in
          let f : both ≡ goal = cc in
          subst
            (λ t.
              All
                (λ x.
                  (key : Slice)
                  → covers ops key x ≡ true
                  → filter (covers ops key) t.1 ≡ filter (covers ops key) next)
                t.0)
            f (inside_covers min max next chosen a (range_from-IsInside chosen none (max, min) r).1)

      go :
          (o : Option (List Reader))
          → (bind {B = List Reader × List Reader} o λ chosen.
              bind {B = List Reader × List Reader}
                (range_from ops none chosen)
                λ range. some (chosen, get_other_readers ops range.1 range.0 next))
            ≡ some (inputs, others)
          → All
              (λ x.
                (key : Slice)
                → covers ops key x ≡ true
                → filter (covers ops key) others ≡ filter (covers ops key) next)
              inputs
      go none k = cc
      go (some chosen) k = go' chosen (range_from ops none chosen) refl k

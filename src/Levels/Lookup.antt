-- ===== src/Levels/Lookup.antt =====
-- `SstableReader::get`, against the order of the tables from the newest to the oldest.
use mirdb.Prelude.{
  ℕ, zero, suc, ◌+◌, ◌≡◌, refl, sym, ap, ◌∙◌, Bool, true, false, Option, none, some, List, [], ◌∷◌,
  ◌++◌, reverse, length, get_elem?, if◌then◌else◌, Slice, arith,
}
use mirdb.Error.{MyResult}
use mirdb.Levels.{
  ReaderOps, filter, covers, search_level, search_readers, or_else, get_first, get_found, get_from,
}
use mirdb.Levels.Search.{IsApart, search_level-filter}

-- What the levels rely on of a reader: it has a map, and finds what that has; a key that the map has
-- is between the least and the greatest key.
pub record ReaderLaws (ops : ReaderOps) : Type 1 where
  pub content : ops.Reader → Slice → Option Slice
  pub get_content :
      (k : Slice) (r : ops.Reader) (o : Option Slice)
      → ops.get k r ≡ MyResult.ok o
      → o ≡ content r k
  pub content_covered :
      (k : Slice) (r : ops.Reader) (v : Slice) → content r k ≡ some v → covers ops k r ≡ true

-- The first value, if there is one.
abbrev pub first_some : {A : Type 0} → Option A → Option A → Option A
first_some none o = o
first_some (some a) o = some a

module _ (ops : ReaderOps) (laws : ReaderLaws ops) where
  open ops use {Reader}
  open laws use {content}

  abbrev pub first_content : Slice → List Reader → Option Slice
  first_content key [] = none
  first_content key (r ∷ rs) = first_some (content r key) (first_content key rs)

  -- The first level grows at its end; newer tables go first.
  abbrev pub in_order : ℕ → List Reader → List Reader
  in_order zero rs = reverse rs
  in_order (suc level) rs = rs

  abbrev pub candidates : ℕ → List (List Reader) → List Reader
  candidates level [] = []
  candidates level (rs ∷ levels) = in_order level rs ++ candidates (suc level) levels

  abbrev pub IsLevel : ℕ → List Reader → Type 0
  IsLevel zero rs = Unit
  IsLevel (suc level) rs = IsApart ops rs

  abbrev pub AreLevels : ℕ → List (List Reader) → Type 0
  AreLevels level [] = Unit
  AreLevels level (rs ∷ levels) = IsLevel level rs × AreLevels (suc level) levels

  first_content-append :
      (key : Slice) (xs ys : List Reader)
      → first_content key (xs ++ ys) ≡ first_some (first_content key xs) (first_content key ys)
  first_content-append key [] ys = refl
  first_content-append key (x ∷ xs) ys = go (content x key) (first_content-append key xs ys)
    where
      go :
          (o : Option Slice)
          → first_content key (xs ++ ys) ≡ first_some (first_content key xs) (first_content key ys)
          → first_some o (first_content key (xs ++ ys))
            ≡ first_some (first_some o (first_content key xs)) (first_content key ys)
      go none ih = ih
      go (some v) ih = refl

  not_covered : (key : Slice) (r : Reader) → covers ops key r ≡ false → content r key ≡ none
  not_covered key r h = go (content r key) refl
    where
      go : (o : Option Slice) → content r key ≡ o → o ≡ none
      go none e = refl
      go (some v) e = absurd (cc (laws.content_covered key r v e, h))

  first_content-filter :
      (key : Slice) (rs : List Reader)
      → first_content key (filter (covers ops key) rs) ≡ first_content key rs
  first_content-filter key [] = refl
  first_content-filter key (r ∷ rs) = go (covers ops key r) refl (first_content-filter key rs)
    where
      go :
          (c : Bool)
          → covers ops key r ≡ c
          → first_content key (filter (covers ops key) rs) ≡ first_content key rs
          → first_content key
              (if c then r ∷ filter (covers ops key) rs else filter (covers ops key) rs)
            ≡ first_some (content r key) (first_content key rs)
      go true e ih = ap (first_some (content r key)) ih
      go false e ih = rw (not_covered key r e) ih

  or_else-ok :
      (a b : MyResult (Option Slice)) (x y o : Option Slice)
      → ((o : Option Slice) → a ≡ MyResult.ok o → o ≡ x)
      → ((o : Option Slice) → b ≡ MyResult.ok o → o ≡ y)
      → or_else a b ≡ MyResult.ok o
      → o ≡ first_some x y
  or_else-ok (MyResult.ok none) b x y o f g h = let e = f none refl in rw (← e) (g o h)
  or_else-ok (MyResult.ok (some v)) b x y o f g h = let e = f (some v) refl in rw (← e) (cc h)
  or_else-ok (MyResult.err e) b x y o f g h = cc
  or_else-ok MyResult.panic b x y o f g h = cc

  get_first-content :
      (key : Slice) (rs : List Reader) (o : Option Slice)
      → get_first ops key rs ≡ MyResult.ok o
      → o ≡ first_content key rs
  unfolding get_first
  get_first-content key [] o h = cc
  get_first-content key (r ∷ rs) o h =
      or_else-ok (ops.get key r) (get_first ops key rs) (content r key) (first_content key rs) o
        (laws.get_content key r) (get_first-content key rs) h

  search-filter :
      (level : ℕ) (rs : List Reader) (key : Slice)
      → IsLevel level rs
      → search_level ops level rs key ≡ some (filter (covers ops key) (in_order level rs))
  unfolding search_level
  search-filter zero rs key a = refl
  search-filter (suc level) rs key a = search_level-filter ops level rs key a

  -- From `level` on, the levels are those of the list.
  abbrev From : ℕ → List (List Reader) → List (List Reader) → Type 0
  From level all levels = (i : ℕ) → get_elem? all (level + i) ≡ get_elem? levels i

  From-next :
      (level : ℕ) (all : List (List Reader)) (rs : List Reader) (levels : List (List Reader))
      → From level all (rs ∷ levels)
      → From (suc level) all levels
  From-next level all rs levels f i =
      let e : suc level + i ≡ level + suc i = omega arith in ap (get_elem? all) e ∙ f (suc i)

  From-first :
      (level : ℕ) (all : List (List Reader)) (rs : List Reader) (levels : List (List Reader))
      → From level all (rs ∷ levels)
      → get_elem? all level ≡ some rs
  From-first level all rs levels f =
      let e : level ≡ level + 0 = omega arith in ap (get_elem? all) e ∙ f 0

  search_readers-first :
      (level : ℕ) (all : List (List Reader)) (rs : List Reader) (key : Slice)
      → get_elem? all level ≡ some rs
      → IsLevel level rs
      → search_readers ops all level key ≡ some (filter (covers ops key) (in_order level rs))
  unfolding search_readers
  search_readers-first level all rs key e a = rw (search_readers, e) (search-filter level rs key a)

  get_found-content :
      (key : Slice) (rs : List Reader) (found : Option (List Reader))
      → found ≡ some (filter (covers ops key) rs)
      → (o : Option Slice) → get_found ops key found ≡ MyResult.ok o
      → o ≡ first_content key rs
  unfolding get_found
  get_found-content key rs found e o h =
      get_first-content key _ o (rw e at h) ∙ first_content-filter key rs

  get_from-candidates :
      (level : ℕ) (all levels : List (List Reader)) (key : Slice) (o : Option Slice)
      → From level all levels
      → AreLevels level levels
      → get_from ops (length levels) level all key ≡ MyResult.ok o
      → o ≡ first_content key (candidates level levels)
  unfolding get_from
  get_from-candidates level all [] key o f a h = cc
  get_from-candidates level all (rs ∷ levels) key o f (a, b) h =
      let next : level + 1 ≡ suc level = omega arith in
      let rest : (o : Option Slice)
          → get_from ops (length levels) (level + 1) all key ≡ MyResult.ok o
          → o ≡ first_content key (candidates (suc level) levels) =
        λ o k.
          get_from-candidates (suc level) all levels key o (From-next level all rs levels f) b
            (rw next at k) in
      or_else-ok _ _ (first_content key (in_order level rs))
        (first_content key (candidates (suc level) levels)) o
        (get_found-content key (in_order level rs) _
          (search_readers-first level all rs key (From-first level all rs levels f) a))
        rest h
      ∙ sym (first_content-append key (in_order level rs) (candidates (suc level) levels))

-- A lookup through all levels, the first in any order and the others with ranges that follow each other
-- without a key in common: if no reader fails, it finds what the first of all the readers that has the key
-- has for it, the readers of the first level from the newest to the oldest, then those of the next levels.
pub get_from-newest :
    (ops : ReaderOps) (laws : ReaderLaws ops) (levels : List (List ops.Reader)) (key : Slice)
    (o : Option Slice)
    → AreLevels ops laws 0 levels
    → get_from ops (length levels) 0 levels key ≡ MyResult.ok o
    → o ≡ first_content ops laws key (candidates ops laws 0 levels)
get_from-newest ops laws levels key o a h =
    get_from-candidates ops laws 0 levels levels key o (λ i. ap (get_elem? levels) (omega arith)) a
      h

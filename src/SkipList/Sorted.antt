-- ===== src/SkipList/Sorted.antt =====
-- Sorted cells around a key, and the entries that they hold.
use mirdb.Prelude.{
  All-map, ◌≡◌, refl, ap, Bool, true, false, none, List, [], ◌∷◌, ◌++◌, Slice, bytes_eq, bytes_lt,
  bytes_lt_trans, bytes_lt_irrefl, bytes_eq→eq, All, Bool-cases, inl, inr,
}
use mirdb.SkipList.Spec
use mirdb.SkipList.Cells.{Cell}
use mirdb.SkipList.Search.{IsBelow}

abbrev pub cell_entry : Cell → Slice × Slice
cell_entry c = (c.key, c.value)

abbrev pub cell_entries : List Cell → List (Slice × Slice)
cell_entries [] = []
cell_entries (c ∷ cs) = cell_entry c ∷ cell_entries cs

abbrev pub IsSorted : List Cell → Type 0
IsSorted [] = Unit
IsSorted (c ∷ cs) = All (λ d. bytes_lt c.key d.key ≡ true) cs × IsSorted cs

abbrev pub IsAbove : Slice → List Cell → Type 0
IsAbove key = All (λ c. bytes_lt c.key key ≡ false)

-- The cells below the key, and the others.
pub record Split (key : Slice) (cells : List Cell) : Type 0 where
  pub before : List Cell
  pub after : List Cell
  pub whole : cells ≡ before ++ after
  pub below : IsBelow key before
  pub above : IsAbove key after

above_lem :
    (key : Slice) (c : Cell) (cs : List Cell)
    → bytes_lt c.key key ≡ false
    → All (λ d. bytes_lt c.key d.key ≡ true) cs
    → IsAbove key cs
above_lem key c cs h = All-map _ _ cs (λ d l. go d l (bytes_lt d.key key) refl)
  where
    go :
        (d : Cell)
        → bytes_lt c.key d.key ≡ true
        → (b : Bool) → bytes_lt d.key key ≡ b
        → bytes_lt d.key key ≡ false
    go d l true e = let t = bytes_lt_trans c.key d.key key l e in cc
    go d l false e = e

pub split : (key : Slice) (cells : List Cell) → IsSorted cells → Split key cells
split key [] s = record { before = []; after = []; whole = refl; below = tt; above = tt }
split key (c ∷ cs) s = elim (Bool-cases (bytes_lt c.key key)) [
  | inl b ↦
      let more = split key cs s.1 in
      record {
        before = c ∷ more.before;
        after = more.after;
        whole = ap (λ t. c ∷ t) more.whole;
        below = (b, more.below);
        above = more.above;
      }
  | inr b ↦ record {
    before = [];
    after = c ∷ cs;
    whole = refl;
    below = tt;
    above = (b, above_lem key c cs b s.0);
  }
]

lt-not_eq : (a b : Slice) → bytes_lt a b ≡ true → bytes_eq a b ≡ false
lt-not_eq a b h = go (bytes_eq a b) refl
  where
    go : (x : Bool) → bytes_eq a b ≡ x → bytes_eq a b ≡ false
    go true e = let f = bytes_eq→eq a b e in let i = bytes_lt_irrefl b in cc
    go false e = e

pub lt-not_eq' : (a b : Slice) → bytes_lt b a ≡ true → bytes_eq a b ≡ false
lt-not_eq' a b h = go (bytes_eq a b) refl
  where
    go : (x : Bool) → bytes_eq a b ≡ x → bytes_eq a b ≡ false
    go true e = let f = bytes_eq→eq a b e in let i = bytes_lt_irrefl b in cc
    go false e = e

pub find-before :
    (key : Slice) (before after : List Cell)
    → IsBelow key before
    → Spec.find key (cell_entries (before ++ after)) ≡ Spec.find key (cell_entries after)
find-before key [] after b = refl
find-before key (c ∷ before) after b =
    rw (lt-not_eq c.key key b.0) (find-before key before after b.1)

-- Cells behind one with the key do not have it.
pub find-behind :
    (key : Slice) (cs : List Cell)
    → All (λ d. bytes_lt key d.key ≡ true) cs
    → Spec.find key (cell_entries cs) ≡ none
find-behind key [] h = refl
find-behind key (c ∷ cs) h = rw (lt-not_eq' c.key key h.0) (find-behind key cs h.1)

pub put-before :
    (key value : Slice) (before after : List Cell)
    → IsBelow key before
    → Spec.put key value (cell_entries (before ++ after))
      ≡ cell_entries before ++ Spec.put key value (cell_entries after)
put-before key value [] after b = refl
put-before key value (c ∷ before) after b =
    rw (b.0) (ap (λ t. cell_entry c ∷ t) (put-before key value before after b.1))

pub delete-before :
    (key : Slice) (before after : List Cell)
    → IsBelow key before
    → Spec.delete key (cell_entries (before ++ after))
      ≡ cell_entries before ++ Spec.delete key (cell_entries after)
delete-before key [] after b = refl
delete-before key (c ∷ before) after b =
    rw (lt-not_eq c.key key b.0) (ap (λ t. cell_entry c ∷ t) (delete-before key before after b.1))

pub cell_entries-append :
    (xs ys : List Cell) → cell_entries (xs ++ ys) ≡ cell_entries xs ++ cell_entries ys
cell_entries-append [] ys = refl
cell_entries-append (c ∷ xs) ys = ap (λ t. cell_entry c ∷ t) (cell_entries-append xs ys)

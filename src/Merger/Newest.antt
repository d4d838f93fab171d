-- ===== src/Merger/Newest.antt =====
-- Sorted inputs, and the newest entry of a key in them.
use mirdb.Prelude.{
  ◌≡◌, refl, sym, ap, ◌∙◌, Bool, true, false, Option, none, some, List, [], ◌∷◌, ◌++◌,
  if◌then◌else◌, All, Slice, bytes_eq, bytes_eq→eq, bytes_lt, bytes_lt_trans, bytes_lt_irrefl,
}

abbrev pub Input : Type 0
Input = List (Slice × Slice)

abbrev pub find_entry : Slice → Input → Option Slice
find_entry key [] = none
find_entry key (e ∷ es) = if bytes_eq e.0 key then some e.1 else find_entry key es

abbrev pub otherwise : Option Slice → Option Slice → Option Slice
otherwise (some v) rest = some v
otherwise none rest = rest

-- The value in the first input that has the key.
abbrev pub newest : Slice → List Input → Option Slice
newest key [] = none
newest key (r ∷ rs) = otherwise (find_entry key r) (newest key rs)

abbrev pub IsAbove : Slice → Input → Type 0
IsAbove key = All (λ e. bytes_lt key e.0 ≡ true)

abbrev pub IsAscending : Input → Type 0
IsAscending [] = Unit
IsAscending (e ∷ es) = IsAbove e.0 es × IsAscending es

pub newest-append :
    (key : Slice) (xs ys : List Input)
    → newest key (xs ++ ys) ≡ otherwise (newest key xs) (newest key ys)
newest-append key [] ys = refl
newest-append key (r ∷ rs) ys =
    rw (newest-append key rs ys) (assoc (find_entry key r) (newest key rs) (newest key ys))
  where
    assoc : (a b c : Option Slice) → otherwise a (otherwise b c) ≡ otherwise (otherwise a b) c
    assoc (some v) b c = refl
    assoc none b c = refl

pub otherwise-none : (a : Option Slice) → otherwise a none ≡ a
otherwise-none (some v) = refl
otherwise-none none = refl

pub above-not_eq : (key k : Slice) → bytes_lt key k ≡ true → bytes_eq k key ≡ false
above-not_eq key k h = go (bytes_eq k key) refl
  where
    go : (b : Bool) → bytes_eq k key ≡ b → bytes_eq k key ≡ false
    go true e =
        let f = bytes_eq→eq k key e in
        let i = bytes_lt_irrefl key in
        let h' : bytes_lt key key ≡ true = ap (bytes_lt key) (sym f) ∙ h in cc
    go false e = e

pub find_entry-IsAbove : (key : Slice) (r : Input) → IsAbove key r → find_entry key r ≡ none
find_entry-IsAbove key [] h = refl
find_entry-IsAbove key (e ∷ es) h = rw (above-not_eq key e.0 h.0) (find_entry-IsAbove key es h.1)

pub newest-IsAbove : (key : Slice) (rs : List Input) → All (IsAbove key) rs → newest key rs ≡ none
newest-IsAbove key [] h = refl
newest-IsAbove key (r ∷ rs) h = rw (find_entry-IsAbove key r h.0) (newest-IsAbove key rs h.1)

pub IsAbove-trans : (a b : Slice) (r : Input) → bytes_lt a b ≡ true → IsAbove b r → IsAbove a r
IsAbove-trans a b [] l h = tt
IsAbove-trans a b (e ∷ es) l h = (bytes_lt_trans a b e.0 l h.0, IsAbove-trans a b es l h.1)

pub All-IsAbove_trans :
    (a b : Slice) (rs : List Input) → bytes_lt a b ≡ true → All (IsAbove b) rs → All (IsAbove a) rs
All-IsAbove_trans a b [] l h = tt
All-IsAbove_trans a b (r ∷ rs) l h = (IsAbove-trans a b r l h.0, All-IsAbove_trans a b rs l h.1)

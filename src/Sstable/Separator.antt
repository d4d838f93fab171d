-- ===== src/Sstable/Separator.antt =====
-- sstable/src/util.rs: the keys of the index entries, `find_shortest_sep` and `find_short_succ`.
pub mod Bounds
mod Tests
use mirdb.Prelude.{
  ℕ, zero, suc, ◌+◌, ◌&&◌, Option, none, some, [], ◌∷◌, ◌++◌, ltb, ◌==◌, if◌then◌else◌, drop, Slice,
  bytes_eq,
}

-- The first loop, for `min` rounds: where the strings begin to differ, or the shorter one ends.
unfoldable pub diff_at : Slice → Slice → ℕ
diff_at [] b = 0
diff_at (x ∷ a) [] = 0
diff_at (x ∷ a) (y ∷ b) = let next = diff_at a b in if x == y then suc next else 0

-- The second loop from there on: how far it goes to a byte with room below the other string's.
unfoldable pub room_at : Slice → Slice → Option ℕ
room_at [] b = none
room_at (x ∷ a) [] = none
room_at (x ∷ a) (y ∷ b) =
    let next = room_at a b in
    if ltb x 0xff && ltb (x + 1) y
    then some 0
    else elim next [ none ↦ none | some i ↦ some (suc i) ]

-- `a[0..=i]` with its last byte increased.
abbrev pub increased : ℕ → Slice → Slice
increased i [] = []
increased zero (x ∷ a) = (x + 1) ∷ []
increased (suc i) (x ∷ a) = x ∷ increased i a

abbrev pub sep_at : Slice → ℕ → Option ℕ → Slice
sep_at a d none = a ++ 0 ∷ []
sep_at a d (some i) = increased (d + i) a

unfoldable pub find_shortest_sep : Slice → Slice → Slice
unfolding diff_at room_at
find_shortest_sep a b =
    let d = diff_at a b in if bytes_eq a b then a else sep_at a d (room_at (drop d a) (drop d b))

-- The loop for the first byte that can grow; `none` if there is no such byte.
abbrev short_succ : Slice → Option Slice
short_succ [] = none
short_succ (x ∷ a) =
    let next = short_succ a in
    if x == 0xff then elim next [ none ↦ none | some r ↦ some (x ∷ r) ] else some ((x + 1) ∷ [])

unfoldable pub find_short_succ : Slice → Slice
find_short_succ a = elim (short_succ a) [ none ↦ a ++ 255 ∷ [] | some r ↦ r ]

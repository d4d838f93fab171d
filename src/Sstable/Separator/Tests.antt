-- ===== src/Sstable/Separator/Tests.antt =====
-- Runs of the separators, taken from the tests of util.rs.
use mirdb.Prelude.{◌≡◌, refl, [], ◌∷◌, codes, true, ◌+◌, ◌≤◌, bytes_lt, length}
use mirdb.Sstable.Separator.{find_shortest_sep, find_short_succ}
use mirdb.Sstable.Separator.Bounds.{Separates, find_shortest_sep-Separates, find_short_succ-above}

runs :
    (find_shortest_sep (codes "abcd") (codes "abcf") ≡ codes "abce")
    × (find_shortest_sep (codes "abcdefghi") (codes "abcffghi") ≡ codes "abce")
    × (find_shortest_sep (codes "abc") (codes "zzz") ≡ codes "b")
    × (find_short_succ (codes "zzzz") ≡ codes "{")
    × (find_short_succ (255 ∷ 255 ∷ []) ≡ 255 ∷ 255 ∷ 255 ∷ [])
unfolding find_shortest_sep find_short_succ
runs = (refl, refl, refl, refl, refl)

find_shortest_sep-Separates_example :
    Separates (codes "abcd") (codes "abcf") (find_shortest_sep (codes "abcd") (codes "abcf"))
find_shortest_sep-Separates_example = find_shortest_sep-Separates (codes "abcd") (codes "abcf") refl

find_short_succ-above_example :
    (bytes_lt (codes "abc") (find_short_succ (codes "abc")) ≡ true)
    × (length (find_short_succ (codes "abc")) ≤ length (codes "abc") + 1)
find_short_succ-above_example = find_short_succ-above (codes "abc")

-- ===== src/Levels/Tests.antt =====
-- Runs of the search over tables of one entry.
use mirdb.Prelude.{
  All, ◌≡◌, refl, arith, true, Option, none, some, [], ◌∷◌, List, Slice, codes, bytes_eq,
  bytes_eq→eq, bytes_lt_irrefl, if◌then◌else◌,
}
use mirdb.Error.{MyResult}
use mirdb.Levels.Inputs.{compaction_inputs}
use mirdb.Levels.Overlap.{compaction_inputs-covers}
use mirdb.Levels.{ReaderOps, filter, covers, search_level, get_from}
use mirdb.Levels.Search.{IsApart, search_level-filter}
use mirdb.Levels.Lookup.{ReaderLaws, get_from-newest}

abbrev entry_get : Slice → Slice × Slice → Option Slice
entry_get k r = if bytes_eq k r.0 then some r.1 else none

abbrev entry_ops : ReaderOps
entry_ops = record {
  Reader = Slice × Slice;
  min_key = λ r. r.0;
  max_key = λ r. r.0;
  get = λ k r. MyResult.ok (entry_get k r);
}

same_covered : (k j : Slice) → k ≡ j → covers entry_ops k (j, j) ≡ true
same_covered k j e = rw (e, bytes_lt_irrefl j)

entry_get_key :
    (k : Slice) (r : Slice × Slice) (v : Slice) → entry_get k r ≡ some v → bytes_eq k r.0 ≡ true
entry_get_key k r v e = ground arith

abbrev entry_laws : ReaderLaws entry_ops
entry_laws = record {
  content = λ r k. entry_get k r;
  get_content = λ k r o e. cc;
  content_covered = λ k r v e. same_covered k r.0 (bytes_eq→eq k r.0 (entry_get_key k r v e));
}

abbrev level : List (Slice × Slice)
level =
    (codes "a", codes "1")
    ∷ (codes "b", codes "2")
    ∷ (codes "c", codes "3")
    ∷ (codes "d", codes "4")
    ∷ []

level-IsApart : IsApart entry_ops level
level-IsApart = (
  refl,
  (refl, (refl, (refl, tt))),
  (refl, (refl, (refl, tt)), (refl, (refl, tt), (refl, tt, tt))),
)

search_level-filter_example :
    search_level entry_ops 1 level (codes "c") ≡ some ((codes "c", codes "3") ∷ [])
search_level-filter_example = search_level-filter entry_ops 0 level (codes "c") level-IsApart

get_from-newest_example : some (codes "9") ≡ some (codes "9")
unfolding get_from
get_from-newest_example =
    get_from-newest entry_ops entry_laws
      (((codes "b", codes "8") ∷ (codes "b", codes "9") ∷ []) ∷ level ∷ []) (codes "b")
      (some (codes "9")) (tt, (level-IsApart, tt)) refl

abbrev upper : List (Slice × Slice)
upper = (codes "c", codes "7") ∷ (codes "a", codes "8") ∷ []

abbrev compacted_with : List (Slice × Slice)
compacted_with = (codes "a", codes "1") ∷ (codes "b", codes "2") ∷ (codes "c", codes "3") ∷ []

compaction_inputs-covers_example :
    All
      (λ x.
        (key : Slice)
        → covers entry_ops key x ≡ true
        → filter (covers entry_ops key) compacted_with ≡ filter (covers entry_ops key) level)
      ((codes "a", codes "8") ∷ (codes "c", codes "7") ∷ [])
unfolding compaction_inputs
compaction_inputs-covers_example =
    compaction_inputs-covers entry_ops 0 none upper level
      ((codes "a", codes "8") ∷ (codes "c", codes "7") ∷ []) compacted_with refl level-IsApart

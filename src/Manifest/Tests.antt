-- ===== src/Manifest/Tests.antt =====
-- Runs of a manifest whose numbers are written as tallies.
use mirdb.Prelude.{
  ℕ, zero, suc, ◌+◌, ◌<◌, true, none, ltb, if◌then◌else◌, ◌≡◌, ◌≢◌, refl, ap, arith, some, [], ◌∷◌,
  ◌++◌, length, All, Slice, codes,
}
use mirdb.Manifest.{
  FileMeta, Manifest, NameOps, make_file_name, next_file_number, add_file_meta, remove_file_metas,
}
use mirdb.ParserUtil.{usize_bound}
use mirdb.Manifest.Files.{IsChanged, IsRemoved, manifest-changes}
use mirdb.Manifest.Fresh.{NameLaws, HasNext, IsFreshName, next_file_number-IsFreshName}

abbrev tallies : ℕ → Slice
tallies zero = []
tallies (suc n) = 49 ∷ tallies n

length-tallies : (n : ℕ) → length (tallies n) ≡ n
length-tallies zero = refl
length-tallies (suc n) = omega (arith, length-tallies n)

tallies_no_dot : (n : ℕ) → All (λ c. c ≢ 46) (tallies n)
tallies_no_dot zero = tt
tallies_no_dot (suc n) = ((λ e. omega arith), tallies_no_dot n)

abbrev tally_names : NameOps
tally_names = record {
  show = tallies;
  parse = λ s. if ltb (length s) usize_bound then some (length s) else none;
}

tally_laws : NameLaws tally_names
tally_laws = record {
  parse_show = λ n l.
      let b : ltb (length (tallies n)) usize_bound ≡ true =
        let e = length-tallies n in ground arith in
      rw (b) (ap some (length-tallies n));
  show_no_dot = tallies_no_dot;
}

abbrev two_levels : Manifest
two_levels =
    (record { file_name = codes "1.sst" } ∷ [])
    ∷ (record { file_name = codes "111.sst" } ∷ record { file_name = codes "11.sst" } ∷ [])
    ∷ []

one_number : (n q : ℕ) → n + 1 < usize_bound → some n ≡ some q → q + 1 < usize_bound
one_number n q l e = let f : n ≡ q = cc in omega arith

small : All (All (HasNext tally_names tally_laws)) two_levels
small = (
  (λ q e. one_number 1 q (omega arith) e, tt),
  ((λ q e. one_number 3 q (omega arith) e, (λ q e. one_number 2 q (omega arith) e, tt)), tt),
)

next_file_number-IsFreshName_example :
    IsFreshName tally_names tally_laws (make_file_name tally_names 5 (codes "sst")) two_levels
unfolding next_file_number
next_file_number-IsFreshName_example =
    next_file_number-IsFreshName tally_names tally_laws two_levels 4 5 (codes "sst") small refl
      (omega arith) (omega arith)

abbrev added_file : FileMeta
added_file = record { file_name = codes "1111.sst" }

manifest-changes_example :
    IsChanged two_levels 1 (λ l. l ++ (added_file ∷ [])) (add_file_meta 1 added_file two_levels)
    × IsRemoved two_levels 1
        (codes "11.sst" ∷ [])
        (remove_file_metas 1 (codes "11.sst" ∷ []) two_levels)
manifest-changes_example = manifest-changes two_levels 1 added_file (codes "11.sst" ∷ [])

-- ===== src/Levels.antt =====
-- mirdb-server/src/sstable_reader.rs: the levels of table files. A reader of one file is the interface
-- `ReaderOps`: what the code uses of sstable/src/table_reader.rs.
pub mod Search
pub mod Lookup
pub mod Inputs
pub mod Overlap
mod Tests
use mirdb.Prelude.{
  ℕ, zero, suc, ◌+◌, ◌-◌, ◌/◌, Bool, true, false, ◌&&◌, Option, none, some, List, [], ◌∷◌, ◌++◌,
  reverse, length, get_elem?, drop, ltb, leb, ◌==◌, if◌then◌else◌, Slice, bytes_lt, bytes_le,
}
use mirdb.Error.{Status, MyResult}

pub record ReaderOps : Type 1 where
  pub Reader : Type 0
  pub min_key : Reader → Slice
  pub max_key : Reader → Slice
  pub get : Slice → Reader → MyResult (Option Slice)

-- `iter().filter(p)`
abbrev pub filter : {A : Type 0} → (A → Bool) → List A → List A
filter p [] = []
filter p (x ∷ xs) = let rest = filter p xs in if p x then x ∷ rest else rest

-- `let r = ..?; if r.is_some() { return Ok(r) }`, then the rest.
abbrev pub or_else : {A : Type 0} → MyResult (Option A) → MyResult (Option A) → MyResult (Option A)
or_else (MyResult.ok none) rest = rest
or_else (MyResult.ok (some v)) rest = MyResult.ok (some v)
or_else (MyResult.err e) rest = MyResult.err e
or_else MyResult.panic rest = MyResult.panic

module _ (ops : ReaderOps) where
  open ops use {Reader, min_key, max_key, get}

  -- `min_key <= key && max_key >= key`
  abbrev pub covers : Slice → Reader → Bool
  covers key reader = bytes_le (min_key reader) key && bytes_le key (max_key reader)

  -- The bounds after one round of the binary search; `none` if `readers[middle]` is out of range.
  unfoldable pub narrowed : List Reader → Slice → ℕ → ℕ → Option (ℕ × ℕ)
  narrowed readers key left right =
      let middle = (left + right + 1) / 2 in
      elim (get_elem? readers middle) [
        | none ↦ none
        | some reader ↦
            some (if bytes_lt (min_key reader) key then (middle, right) else (left, middle - 1))
      ]

  -- The binary search, on fuel; `none` also where the assertion behind it fails.
  unfoldable pub bisect : ℕ → List Reader → Slice → ℕ → ℕ → Option ℕ
  unfolding narrowed
  bisect zero readers key left right = none
  bisect (suc fuel) readers key left right = elim (ltb left right) [
    | true ↦ elim (narrowed readers key left right) [
      | none ↦ none
      | some b ↦ bisect fuel readers key (b.0) (b.1)
    ]
    | false ↦ if left == right then some left else none
  ]

  -- The loop over the readers from `left` on.
  unfoldable pub scan : Slice → List Reader → List Reader
  scan key [] = []
  scan key (reader ∷ readers) =
      let rest = scan key readers in
      if covers key reader
      then reader ∷ rest
      else if bytes_lt key (min_key reader)
      then []
      else rest

  -- `search_readers` in one level; `none` is a panic. The fuel is the number of readers.
  unfoldable pub search_level : ℕ → List Reader → Slice → Option (List Reader)
  unfolding bisect scan
  search_level zero readers key = some (filter (covers key) (reverse readers))
  search_level (suc level) [] key = some []
  search_level (suc level) (r ∷ readers) key =
      let all = r ∷ readers in
      elim (bisect (length all) all key 0 (length all - 1)) [
        | none ↦ none
        | some left ↦ some (scan key (drop left all))
      ]

  unfoldable pub search_readers : List (List Reader) → ℕ → Slice → Option (List Reader)
  unfolding search_level
  search_readers levels level key = elim (get_elem? levels level) [
    | none ↦ some []
    | some readers ↦ search_level level readers key
  ]

  -- The inner loop of `get`: the first of the readers that has the key.
  unfoldable pub get_first : Slice → List Reader → MyResult (Option Slice)
  get_first key [] = MyResult.ok none
  get_first key (reader ∷ readers) = or_else (get key reader) (get_first key readers)

  unfoldable pub get_found : Slice → Option (List Reader) → MyResult (Option Slice)
  unfolding get_first
  get_found key none = MyResult.panic
  get_found key (some readers) = get_first key readers

  -- `get`, for `rounds` levels from `level` on.
  unfoldable pub get_from : ℕ → ℕ → List (List Reader) → Slice → MyResult (Option Slice)
  unfolding search_readers get_found
  get_from zero level levels key = MyResult.ok none
  get_from (suc rounds) level levels key =
      or_else (get_found key (search_readers levels level key))
        (get_from rounds (level + 1) levels key)

-- ===== src/Levels/Inputs.antt =====
-- mirdb-server/src/data_manager.rs: the tables that a compaction of a level by size takes, in
-- `size_compaction` and `get_other_readers`. `none` is a panic.
use mirdb.Prelude.{
  ℕ, zero, suc, Bool, true, Option, none, some, List, [], ◌∷◌, reverse, if◌then◌else◌, Slice,
  bytes_lt, bytes_le, bind,
}
use mirdb.Levels.{ReaderOps, filter}

-- `std::cmp::max` and `min` of keys.
abbrev pub greater_key : Slice → Slice → Slice
greater_key a b = if bytes_lt b a then a else b

abbrev pub lesser_key : Slice → Slice → Slice
lesser_key a b = if bytes_lt b a then b else a

module _ (ops : ReaderOps) where
  open ops use {Reader, min_key, max_key}

  abbrev pub is_next : Option Slice → Reader → Bool
  is_next none reader = true
  is_next (some last) reader = bytes_lt last (max_key reader)

  -- `inputs0.push(&readers[0])` where nothing has been chosen.
  abbrev pub or_front : List Reader → List Reader → Option (List Reader)
  or_front readers [] = elim readers [ [] ↦ none | reader ∷ _ ↦ some (reader ∷ []) ]
  or_front readers (x ∷ xs) = some (x ∷ xs)

  -- The inputs of the level itself.
  unfoldable pub inputs_of : ℕ → Option Slice → List Reader → Option (List Reader)
  inputs_of zero last readers = some (reverse readers)
  inputs_of (suc level) last readers = or_front readers (filter (is_next last) readers)

  -- The `fold` over the inputs: the greatest and the least key.
  abbrev pub widened : Option (Slice × Slice) → Reader → Option (Slice × Slice)
  widened none b = some (max_key b, min_key b)
  widened (some (max, min)) b = some (greater_key max (max_key b), lesser_key min (min_key b))

  unfoldable pub range_from : Option (Slice × Slice) → List Reader → Option (Slice × Slice)
  range_from a [] = a
  range_from a (b ∷ bs) = range_from (widened a b) bs

  unfoldable pub take_while : (Reader → Bool) → List Reader → List Reader
  take_while p [] = []
  take_while p (x ∷ xs) = let rest = take_while p xs in if p x then x ∷ rest else []

  unfoldable pub get_other_readers : Slice → Slice → List Reader → List Reader
  unfolding take_while
  get_other_readers min max readers =
      filter (λ x. bytes_le min (max_key x)) (take_while (λ x. bytes_le (min_key x) max) readers)

  -- Both inputs of the compaction.
  unfoldable pub compaction_inputs :
      ℕ → Option Slice → List Reader → List Reader → Option (List Reader × List Reader)
  unfolding inputs_of range_from get_other_readers
  compaction_inputs level last readers next = bind (inputs_of level last readers) λ inputs.
      bind (range_from none inputs) λ range. some (inputs, get_other_readers range.1 range.0 next)

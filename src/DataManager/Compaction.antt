-- ===== src/DataManager/Compaction.antt =====
-- `minor_compaction` and the view.
use mirdb.Prelude.{
  ℕ, zero, suc, ◌-◌, ◌≡◌, refl, ap, ◌∙◌, List, [], ◌∷◌, reverse, length, length-append, Slice,
  arith,
}
use mathlib.Core.List.{reverse-cons}
use mirdb.Memtable
use mirdb.DataManager.{Parts, DataManager, consumed}
use mirdb.DataManager.View.{PartLaws, view, IsOpen}
use mirdb.DataManager.Moved.{BuildLaws, Moved}

pub length-reverse : {A : Type 0} (xs : List A) → length (reverse xs) ≡ length xs
length-reverse [] = refl
length-reverse (x ∷ xs) =
    ap length (reverse-cons x xs)
    ∙ omega (arith, length-append (reverse xs) (x ∷ []), length-reverse xs)

module _ (parts : Parts) where
  length-consume :
      (tables : List (Memtable.Memtable parts.maps))
      → length (Memtable.consume parts.maps tables) ≡ length tables - 1
  length-consume [] = refl
  length-consume (t ∷ []) = refl
  length-consume (t ∷ u ∷ tables) = omega (arith, length-consume (u ∷ tables))

  pub consumed-all :
      (c : ℕ) (tables : List (Memtable.Memtable parts.maps))
      → length tables ≡ c
      → consumed parts c tables ≡ []
  consumed-all zero [] h = refl
  consumed-all zero (t ∷ tables) h = absurd (omega arith)
  consumed-all (suc c) tables h =
      consumed-all c (Memtable.consume parts.maps tables) (omega (arith, length-consume tables))

module _ (parts : Parts) (laws : PartLaws parts) (builds : BuildLaws parts laws) where
  -- A state without immutable tables that shows what the first one shows.
  abbrev Emptied : DataManager parts → DataManager parts → Type 0
  Emptied s s' =
      IsOpen parts laws s'
      × (s'.immuttable ≡ [])
      × ((k : Slice) → view parts laws s' k ≡ view parts laws s k)

-- ===== src/DataManager/View.antt =====
-- The map from keys to payloads that clients see of the data manager and `get`.
use mirdb.Prelude.{◌≡◌, refl, sym, ap, ◌∙◌, List, [], ◌∷◌, Option, none, some, length, Slice}
use mathlib.Core.Path.{subst}
use mirdb.Error.{MyResult}
use mirdb.Payload.{StorePayload}
use mirdb.Memtable
use mirdb.Memtable.{MapLaws}
use mirdb.Levels.{get_from}
use mirdb.Levels.Lookup.{
  ReaderLaws, AreLevels, candidates, first_content, first_some, get_from-newest,
}
use mirdb.DataManager.{Parts, DataManager, find_memory, from_readers, unwrapped, get}

-- What reading and writing rely on of the parts of the data manager.
pub record PartLaws (parts : Parts) : Type 1 where
  pub maps_laws : MapLaws parts.maps
  pub readers_laws : ReaderLaws parts.readers
  pub deserialize_serialize :
      (v : Option StorePayload) (b : Slice)
      → parts.serialize v ≡ MyResult.ok b
      → parts.deserialize b ≡ MyResult.ok v

abbrev pub payload_of : MyResult (Option StorePayload) → Option StorePayload
payload_of (MyResult.ok o) = o
payload_of _ = none

module _ (parts : Parts) (laws : PartLaws parts) where
  -- What the first of the tables that has the key has for it.
  abbrev pub newest_in : List (Memtable.Memtable parts.maps) → Slice → Option Slice
  newest_in [] k = none
  newest_in (t ∷ tables) k = first_some (parts.maps.find k t.map) (newest_in tables k)

  -- The newest entry of a key: of the mutable table before the immutable ones, of these from the front,
  -- before the levels.
  abbrev pub raw : DataManager parts → Slice → Option Slice
  raw s k = first_some (newest_in (s.muttable ∷ s.immuttable) k) (
      first_content parts.readers laws.readers_laws k
        (candidates parts.readers laws.readers_laws 0 s.levels))

  get_list-newest_in :
      (tables : List (Memtable.Memtable parts.maps)) (k : Slice)
      → Memtable.get_list parts.maps k tables ≡ newest_in tables k
  get_list-newest_in [] k = refl
  get_list-newest_in (t ∷ tables) k = go (parts.maps.find k t.map) (get_list-newest_in tables k)
    where
      go :
          (o : Option Slice)
          → Memtable.get_list parts.maps k tables ≡ newest_in tables k
          → elim o [ none ↦ Memtable.get_list parts.maps k tables | some v ↦ some v ]
            ≡ first_some o (newest_in tables k)
      go none ih = ih
      go (some v) ih = refl

  -- The search in memory comes to the newest entry.
  pub find_memory-newest_in :
      (s : DataManager parts) (k : Slice)
      → find_memory parts s k ≡ newest_in (s.muttable ∷ s.immuttable) k
  unfolding find_memory
  find_memory-newest_in s k =
      go (parts.maps.find k s.muttable.map) (get_list-newest_in s.immuttable k)
    where
      go :
          (o : Option Slice)
          → Memtable.get_list parts.maps k s.immuttable ≡ newest_in s.immuttable k
          → elim o [ none ↦ Memtable.get_list parts.maps k s.immuttable | some v ↦ some v ]
            ≡ first_some o (newest_in s.immuttable k)
      go none ih = ih
      go (some v) ih = refl

  -- The bytes of a key, and the payload that they show: none if the key has been removed.
  abbrev pub shown : Option Slice → Option StorePayload
  shown none = none
  shown (some b) = payload_of (parts.deserialize b)

  abbrev pub view : DataManager parts → Slice → Option StorePayload
  view s k = shown (raw s k)

  abbrev pub IsOpen : DataManager parts → Type 0
  IsOpen s =
      (length s.levels ≡ parts.max_level) × AreLevels parts.readers laws.readers_laws 0 s.levels

  payload_of-ok :
      (a : MyResult (Option StorePayload)) (r : Option StorePayload)
      → a ≡ MyResult.ok r
      → r ≡ payload_of a
  payload_of-ok a r e = rw e refl

  unwrapped-ok :
      (a : MyResult (Option StorePayload)) (r : Option StorePayload)
      → unwrapped parts a ≡ MyResult.ok r
      → r ≡ payload_of a
  unwrapped-ok (MyResult.ok o) r e = cc
  unwrapped-ok (MyResult.err x) r e = cc
  unwrapped-ok MyResult.panic r e = cc

  from_readers-ok :
      (a : MyResult (Option Slice)) (x : Option Slice) (r : Option StorePayload)
      → ((o : Option Slice) → a ≡ MyResult.ok o → o ≡ x)
      → from_readers parts a ≡ MyResult.ok r
      → r ≡ shown x
  from_readers-ok (MyResult.ok none) x r f e = let g = f none refl in rw (← g) (cc e)
  from_readers-ok (MyResult.ok (some b)) x r f e =
      let g = f (some b) refl in rw (← g) (unwrapped-ok (parts.deserialize b) r e)
  from_readers-ok (MyResult.err y) x r f e = cc
  from_readers-ok MyResult.panic x r f e = cc

-- A lookup that succeeds, in a manager whose levels are in order, answers what the view shows, and
-- changes nothing. The newest entry counts: of the mutable table before the immutable ones, from the
-- newest to the oldest, before the levels; an entry that marks a removed key shows none.
pub get-view :
    (parts : Parts) (laws : PartLaws parts) (s : DataManager parts) (k : Slice)
    (r : Option StorePayload)
    → IsOpen parts laws s
    → (get parts k s).1 ≡ MyResult.ok r
    → (r ≡ view parts laws s k) × ((get parts k s).0 ≡ s)
unfolding get
get-view parts laws s k r (n, a) h = (
  go (find_memory parts s k) h
      ∙ ap
          (λ o. shown parts laws (
            first_some o (
              first_content parts.readers laws.readers_laws k
                (candidates parts.readers laws.readers_laws 0 s.levels))))
          (find_memory-newest_in parts laws s k),
  refl,
)
  where
    go :
        (o : Option Slice)
        → elim o [
          | some b ↦ parts.deserialize b
          | none ↦ from_readers parts (get_from parts.readers parts.max_level 0 s.levels k)
        ]
          ≡ MyResult.ok r
        → r
          ≡ shown parts laws (
              first_some o (
                first_content parts.readers laws.readers_laws k
                  (candidates parts.readers laws.readers_laws 0 s.levels)))
    go (some b) e = payload_of-ok parts laws (parts.deserialize b) r e
    go none e =
        from_readers-ok parts laws (get_from parts.readers parts.max_level 0 s.levels k) _ r
          (λ o f.
            get_from-newest parts.readers laws.readers_laws s.levels k o a
              (subst (λ m. get_from parts.readers m 0 s.levels k ≡ MyResult.ok o) (sym n) f))
          e

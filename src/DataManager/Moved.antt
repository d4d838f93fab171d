-- ===== src/DataManager/Moved.antt =====
-- What moving tables from memory to files does to the levels, table by table.
use mirdb.Prelude.{
  ℕ, ◌≡◌, refl, sym, ap, ◌∙◌, Option, none, some, List, [], ◌∷◌, ◌++◌, length, Slice, All,
}
use mathlib.Core.Path.{subst}
use mathlib.Core.List.{reverse-append}
use mirdb.Error.{MyResult, pass}
use mirdb.Memtable
use mirdb.Memtable.{MapOps}
use mirdb.Levels.Lookup.{AreLevels, candidates, first_content, first_some}
use mirdb.Wal.Segments.{consume_seg}
use mirdb.DataManager.{
  Parts, DataManager, on_wal, numbered, add_first, add_reader, add_built, compact_table,
  compact_tables,
}
use mirdb.DataManager.View.{PartLaws, IsOpen}

pub first_some_assoc :
    {A : Type 0} (a b c : Option A) → first_some (first_some a b) c ≡ first_some a (first_some b c)
first_some_assoc none b c = refl
first_some_assoc (some x) b c = refl

pub first_some-none : {A : Type 0} (a : Option A) → first_some a none ≡ a
first_some-none none = refl
first_some-none (some x) = refl

-- The maps that the table files keep: no key is empty, and none is another one with a zero byte behind
-- it.
abbrev pub IsStorable : (maps : MapOps) → maps.Map → Type 0
IsStorable maps m =
    (maps.find [] m ≡ none)
    × ((k : Slice) → maps.find k m ≡ none → maps.find (k ++ (0 ∷ [])) m ≡ none)

-- What a minor compaction relies on: a table file that is built from such a map has what that has; if
-- none is built, the map was empty.
pub record BuildLaws (parts : Parts) (laws : PartLaws parts) : Type 0 where
  pub build_none :
      (n : ℕ) (m : parts.maps.Map) (k : Slice)
      → parts.build_sstable n m ≡ MyResult.ok none
      → parts.maps.find k m ≡ none
  pub build_some :
      (n : ℕ) (m : parts.maps.Map) (r : parts.readers.Reader) (k : Slice)
      → IsStorable parts.maps m
      → parts.build_sstable n m ≡ MyResult.ok (some r)
      → laws.readers_laws.content r k ≡ parts.maps.find k m

module _ (parts : Parts) (laws : PartLaws parts) (builds : BuildLaws parts laws) where
  -- What the levels have for a key.
  abbrev pub below : List (List parts.readers.Reader) → Slice → Option Slice
  below levels k =
      first_content parts.readers laws.readers_laws k
        (candidates parts.readers laws.readers_laws 0 levels)

  -- The second state has the same tables in memory, and `m` on top of the first one's levels.
  abbrev pub Moved : (Slice → Option Slice) → DataManager parts → DataManager parts → Type 0
  Moved m s s' =
      (s'.muttable ≡ s.muttable)
      × (s'.immuttable ≡ s.immuttable)
      × IsOpen parts laws s'
      × ((k : Slice) → below s'.levels k ≡ first_some (m k) (below s.levels k))

  below-added :
      (level : List parts.readers.Reader) (levels : List (List parts.readers.Reader))
      (r : parts.readers.Reader) (k : Slice)
      → below ((level ++ r ∷ []) ∷ levels) k
        ≡ first_some (laws.readers_laws.content r k) (below (level ∷ levels) k)
  below-added level levels r k =
      ap
        (λ rs.
          first_content parts.readers laws.readers_laws k
            (rs ++ candidates parts.readers laws.readers_laws 1 levels))
        (reverse-append level (r ∷ []))

  add_built-Moved :
      (t : Memtable.Memtable parts.maps) (n : ℕ) (o : Option parts.readers.Reader)
      (s : DataManager parts)
      → IsStorable parts.maps t.map
      → parts.build_sstable n t.map ≡ MyResult.ok o
      → IsOpen parts laws s
      → (add_built parts o s).1 ≡ MyResult.ok tt
      → Moved (λ k. Memtable.get parts.maps k t) s (add_built parts o s).0
  unfolding add_built add_reader
  add_built-Moved t n none s st b i h = (
    refl,
    refl,
    i,
    λ k. ap (λ o. first_some o (below s.levels k)) (sym (builds.build_none n t.map k b)),
  )
  add_built-Moved t n (some r) s st b i h = go s.levels refl h
    where
      go :
          (levels : List (List parts.readers.Reader))
          → s.levels ≡ levels
          → (add_first parts r s levels).1 ≡ MyResult.ok tt
          → Moved (λ k. Memtable.get parts.maps k t) s (add_first parts r s levels).0
      go [] e h = cc
      go (level ∷ levels) e h =
          let order : AreLevels parts.readers laws.readers_laws 0 (level ∷ levels) =
            subst (AreLevels parts.readers laws.readers_laws 0) e i.1 in
          (
            refl,
            refl,
            (sym (ap length e) ∙ i.0, (tt, order.1)),
            λ k.
                below-added level levels r k
                ∙ ap (λ o. first_some o (below (level ∷ levels) k))
                    (builds.build_some n t.map r k st b)
                ∙ ap (λ l. first_some (Memtable.get parts.maps k t) (below l k)) (sym e),
          )

  compact_table-Moved :
      (t : Memtable.Memtable parts.maps) (s : DataManager parts)
      → IsStorable parts.maps t.map
      → IsOpen parts laws s
      → (compact_table parts t s).1 ≡ MyResult.ok tt
      → Moved (λ k. Memtable.get parts.maps k t) s (compact_table parts t s).0
  unfolding compact_table
  compact_table-Moved t s st i h = built (parts.build_sstable s.next_file_number t.map) refl h
    where
      logged :
          (p : DataManager parts × MyResult (Unit {0}))
          → (p.1 ≡ MyResult.ok tt → Moved (λ k. Memtable.get parts.maps k t) s p.0)
          → (pass (λ _. on_wal parts (consume_seg parts.logs)) p).1 ≡ MyResult.ok tt
          → Moved
              (λ k. Memtable.get parts.maps k t)
              s
              (pass (λ _. on_wal parts (consume_seg parts.logs)) p).0
      logged (s', MyResult.ok u) f h = f refl
      logged (s', MyResult.err x) f h = cc
      logged (s', MyResult.panic) f h = cc

      built :
          (o : MyResult (Option parts.readers.Reader))
          → parts.build_sstable s.next_file_number t.map ≡ o
          → (pass
              (λ _. on_wal parts (consume_seg parts.logs))
              (pass (add_built parts) (numbered parts s, o))).1
            ≡ MyResult.ok tt
          → Moved
              (λ k. Memtable.get parts.maps k t)
              s
              (pass
                (λ _. on_wal parts (consume_seg parts.logs))
                (pass (add_built parts) (numbered parts s, o))).0
      built (MyResult.ok o) e h =
          logged (add_built parts o (numbered parts s))
            (λ g. add_built-Moved t s.next_file_number o (numbered parts s) st e i g) h
      built (MyResult.err x) e h = cc
      built MyResult.panic e h = cc

  -- The newest table of a list that begins with the oldest.
  abbrev pub last_of : List (Memtable.Memtable parts.maps) → Slice → Option Slice
  last_of [] k = none
  last_of (t ∷ tables) k = first_some (last_of tables k) (Memtable.get parts.maps k t)

  Moved-trans :
      (m n : Slice → Option Slice) (s s' s'' : DataManager parts)
      → Moved m s s'
      → Moved n s' s''
      → Moved (λ k. first_some (n k) (m k)) s s''
  Moved-trans m n s s' s'' (a, b, i, f) (a', b', i', f') = (
    a' ∙ a,
    b' ∙ b,
    i',
    λ k. f' k ∙ ap (first_some (n k)) (f k) ∙ sym (first_some_assoc (n k) (m k) (below s.levels k)),
  )

  abbrev pub AreStorable : List (Memtable.Memtable parts.maps) → Type 0
  AreStorable = All (λ t. IsStorable parts.maps t.map)

  pub compact_tables-Moved :
      (tables : List (Memtable.Memtable parts.maps)) (s : DataManager parts)
      → AreStorable tables
      → IsOpen parts laws s
      → (compact_tables parts tables s).1 ≡ MyResult.ok tt
      → Moved (last_of tables) s (compact_tables parts tables s).0
  unfolding compact_tables
  compact_tables-Moved [] s st i h = (refl, refl, i, λ k. refl)
  compact_tables-Moved (t ∷ tables) s st i h =
      go (compact_table parts t s) (compact_table-Moved t s st.0 i)
        (λ s'. compact_tables-Moved tables s' st.1) h
    where
      go :
          (p : DataManager parts × MyResult (Unit {0}))
          → (p.1 ≡ MyResult.ok tt → Moved (λ k. Memtable.get parts.maps k t) s p.0)
          → ((s : DataManager parts)
              → IsOpen parts laws s
              → (compact_tables parts tables s).1 ≡ MyResult.ok tt
              → Moved (last_of tables) s (compact_tables parts tables s).0)
          → (pass (λ _. compact_tables parts tables) p).1 ≡ MyResult.ok tt
          → Moved (last_of (t ∷ tables)) s (pass (λ _. compact_tables parts tables) p).0
      go (s', MyResult.ok u) f ih h =
          let first = f refl in
          Moved-trans (λ k. Memtable.get parts.maps k t) (last_of tables) s s'
            (compact_tables parts tables s').0 first (ih s' first.2 h)
      go (s', MyResult.err x) f ih h = cc
      go (s', MyResult.panic) f ih h = cc

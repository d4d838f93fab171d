-- ===== src/Memtable.antt =====
-- mirdb-server/src/memtable.rs and memtable_list.rs: tables in memory, over the operations of the skip
-- list that they use. The limits of a table and of the list are not kept: nothing reads them here.
use mirdb.Prelude.{ℕ, ◌≡◌, Option, none, some, List, [], ◌∷◌, Slice, bytes_eq, if◌then◌else◌}

-- `SkipList<Slice, Slice>`
pub record MapOps : Type 1 where
  pub Map : Type 0
  pub empty : Map
  pub find : Slice → Map → Option Slice
  pub put : Slice → Slice → Map → Map × Option Slice
  pub cleared : Map → Map
  pub clone : Map → Map

pub record MapLaws (ops : MapOps) : Type 0 where
  pub find_put :
      (k j v : Slice) (m : ops.Map)
      → ops.find j (ops.put k v m).0 ≡ (if bytes_eq k j then some v else ops.find j m)
  pub find_cleared : (k : Slice) (m : ops.Map) → ops.find k (ops.cleared m) ≡ none
  pub find_clone : (k : Slice) (m : ops.Map) → ops.find k (ops.clone m) ≡ ops.find k m

module _ (ops : MapOps) where
  -- `Memtable`; nothing counts its size.
  pub record Memtable : Type 0 where
    pub size : ℕ
    pub map : ops.Map

  abbrev pub get : Slice → Memtable → Option Slice
  get k t = ops.find k t.map

  abbrev pub insert : Slice → Slice → Memtable → Memtable × Option Slice
  insert k v t = let done = ops.put k v t.map in (record { size = t.size; map = done.0 }, done.1)

  abbrev pub clear : Memtable → Memtable
  clear t = record { size = 0; map = ops.cleared t.map }

  -- The derived `clone`
  abbrev pub clone : Memtable → Memtable
  clone t = record { size = t.size; map = ops.clone t.map }

  -- `MemtableList::get`: the newest table stands in front.
  abbrev pub get_list : Slice → List Memtable → Option Slice
  get_list k [] = none
  get_list k (t ∷ tables) = elim (get k t) [ none ↦ get_list k tables | some v ↦ some v ]

  -- `MemtableList::add`
  abbrev pub add : Memtable → List Memtable → List Memtable
  add t tables = t ∷ tables

  -- `MemtableList::consume`: the oldest table goes.
  abbrev pub consume : List Memtable → List Memtable
  consume [] = []
  consume (t ∷ []) = []
  consume (t ∷ u ∷ tables) = t ∷ consume (u ∷ tables)

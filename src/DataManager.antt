-- ===== src/DataManager.antt =====
-- mirdb-server/src/data_manager.rs: the data manager. Each operation is one step of it; that other
-- threads can run where `remove` and `minor_compaction` let go of their locks is not modelled.
pub mod View
pub mod Changes
pub mod Moved
pub mod Compaction
pub mod Logged
pub mod Trimmed
pub mod Service
pub mod Steady
mod Tests
use mirdb.Prelude.{
  take, ◌==◌, ℕ, zero, suc, ◌+◌, Bool, Option, none, some, List, [], ◌∷◌, ◌++◌, length, reverse,
  leb, if◌then◌else◌, Slice,
}
use mirdb.Error.{Status, MyResult, Action, pure, crash, pass}
use mirdb.Payload.{StorePayload}
use mirdb.Memtable
use mirdb.Memtable.{MapOps, Memtable}
use mirdb.Levels.{ReaderOps, get_from}
use mirdb.Wal.{WalOps}
use mirdb.Wal.Segments.{Wal, append, new_seg, consume_seg, current_seg_size}
use mirdb.Store.{DataOps}

-- What the data manager is built of: the skip list, the readers of table files, the log, the
-- serialization library, the writing of a table file and of the manifest, and two options.
pub record Parts : Type 1 where
  pub maps : MapOps
  pub readers : ReaderOps
  pub logs : WalOps
  pub serialize : Option StorePayload → MyResult Slice
  pub deserialize : Slice → MyResult (Option StorePayload)
  pub build_sstable : ℕ → maps.Map → MyResult (Option readers.Reader)
  pub flush_manifest : List (List readers.Reader) → MyResult (Unit {0})
  pub mem_table_max_size : ℕ
  pub max_level : ℕ

module _ (parts : Parts) where
  open parts use {maps, readers, logs, serialize, deserialize, build_sstable, flush_manifest}

  pub record DataManager : Type 0 where
    pub muttable : Memtable maps
    pub immuttable : List (Memtable maps)
    pub levels : List (List readers.Reader)
    pub wal : Wal
    pub next_file_number : ℕ

  abbrev pub with_wal : DataManager → Wal → DataManager
  with_wal s w = record {
    muttable = s.muttable;
    immuttable = s.immuttable;
    levels = s.levels;
    wal = w;
    next_file_number = s.next_file_number;
  }

  abbrev pub with_muttable : DataManager → Memtable maps → DataManager
  with_muttable s t = record {
    muttable = t;
    immuttable = s.immuttable;
    levels = s.levels;
    wal = s.wal;
    next_file_number = s.next_file_number;
  }

  -- An operation of the log, on the manager.
  abbrev pub on_wal : {A : Type 0} → Action Wal A → Action DataManager A
  on_wal f s = let done = f s.wal in (with_wal s done.0, done.1)

  -- A copy of the table joins the immutable ones, and the table begins anew.
  abbrev pub rotated : DataManager → DataManager
  rotated s = record {
    muttable = Memtable.clear maps s.muttable;
    immuttable = Memtable.add maps (Memtable.clone maps s.muttable) s.immuttable;
    levels = s.levels;
    wal = s.wal;
    next_file_number = s.next_file_number;
  }

  -- The part of `insert_` behind the log: the new entry, and a new table if the segment is full.
  unfoldable pub insert_table : Slice → Slice → Action DataManager (Option Slice)
  insert_table k v s =
      let done = Memtable.insert maps k v s.muttable in
      let s' = with_muttable s done.0 in
      if leb parts.mem_table_max_size (current_seg_size s'.wal)
      then pass (λ _. pure done.1) (on_wal (new_seg logs) (rotated s'))
      else (s', MyResult.ok done.1)

  unfoldable pub insert_ : Slice → Slice → Action DataManager (Option Slice)
  unfolding insert_table
  insert_ k v s = pass (λ _. insert_table k v) (on_wal (append logs k v) s)

  -- `Ok(r.and_then(|_| v))`
  abbrev pub and_then : Option Slice → Option StorePayload → Option StorePayload
  and_then none v = none
  and_then (some _) v = v

  unfoldable pub insert_with_option :
      Slice → Option StorePayload → Action DataManager (Option StorePayload)
  unfolding insert_
  insert_with_option k v s =
      pass (λ encoded_v s'. pass (λ r. pure (and_then r v)) (insert_ k encoded_v s'))
        (s, serialize v)

  unfoldable pub insert : Slice → StorePayload → Action DataManager (Option StorePayload)
  unfolding insert_with_option
  insert k v = insert_with_option k (some v)

  -- `muttable.get(k)`, else `immuttable.get(k)`
  unfoldable pub find_memory : DataManager → Slice → Option Slice
  find_memory s k = elim (Memtable.get maps k s.muttable) [
    | none ↦ Memtable.get_list maps k s.immuttable
    | some r ↦ some r
  ]

  -- `deserialize(x).unwrap()`
  abbrev pub unwrapped : MyResult (Option StorePayload) → MyResult (Option StorePayload)
  unwrapped (MyResult.ok o) = MyResult.ok o
  unwrapped (MyResult.err e) = MyResult.panic
  unwrapped MyResult.panic = MyResult.panic

  -- `let x = readers.get(k)?; Ok(x.and_then(..))`
  abbrev pub from_readers : MyResult (Option Slice) → MyResult (Option StorePayload)
  from_readers (MyResult.ok none) = MyResult.ok none
  from_readers (MyResult.ok (some x)) = unwrapped (deserialize x)
  from_readers (MyResult.err e) = MyResult.err e
  from_readers MyResult.panic = MyResult.panic

  unfoldable pub get : Slice → Action DataManager (Option StorePayload)
  unfolding find_memory
  get k s = (
    s,
    elim (find_memory s k) [
      | some r ↦ deserialize r
      | none ↦ from_readers (get_from readers parts.max_level 0 s.levels k)
    ],
  )

  -- `remove`: where the key shows a payload, its absence is inserted.
  unfoldable pub remove_found :
      Slice → Option StorePayload → Action DataManager (Option StorePayload)
  unfolding insert_with_option
  remove_found k none s = (s, MyResult.ok none)
  remove_found k (some v) s = pass (λ _. pure (some v)) (insert_with_option k none s)

  unfoldable pub remove : Slice → Action DataManager (Option StorePayload)
  unfolding get remove_found
  remove k s = pass (remove_found k) (get k s)

  abbrev pub with_levels : DataManager → List (List readers.Reader) → DataManager
  with_levels s levels = record {
    muttable = s.muttable;
    immuttable = s.immuttable;
    levels = levels;
    wal = s.wal;
    next_file_number = s.next_file_number;
  }

  abbrev pub with_immuttable : DataManager → List (Memtable maps) → DataManager
  with_immuttable s tables = record {
    muttable = s.muttable;
    immuttable = tables;
    levels = s.levels;
    wal = s.wal;
    next_file_number = s.next_file_number;
  }

  -- `new_file_number`, and the state behind it.
  abbrev pub numbered : DataManager → DataManager
  numbered s = record {
    muttable = s.muttable;
    immuttable = s.immuttable;
    levels = s.levels;
    wal = s.wal;
    next_file_number = s.next_file_number + 1;
  }

  -- `readers.add(0, reader)`: the manifest is written behind the change in memory.
  unfoldable pub add_first :
      readers.Reader → DataManager → List (List readers.Reader) → DataManager × MyResult (Unit {0})
  add_first r s [] = (s, MyResult.panic)
  add_first r s (level ∷ levels) =
      let all = (level ++ r ∷ []) ∷ levels in (with_levels s all, flush_manifest all)

  unfoldable pub add_reader : readers.Reader → Action DataManager (Unit {0})
  unfolding add_first
  add_reader r s = add_first r s s.levels

  -- What is done with the reader of a new table, if there is one.
  unfoldable pub add_built : Option readers.Reader → Action DataManager (Unit {0})
  unfolding add_reader
  add_built none s = (s, MyResult.ok tt)
  add_built (some r) s = add_reader r s

  -- A round of the loop of `minor_compaction`.
  unfoldable pub compact_table : Memtable maps → Action DataManager (Unit {0})
  unfolding add_built
  compact_table t s =
      pass (λ _. on_wal (consume_seg logs))
        (pass add_built (numbered s, build_sstable s.next_file_number t.map))

  unfoldable pub compact_tables : List (Memtable maps) → Action DataManager (Unit {0})
  unfolding compact_table
  compact_tables [] s = (s, MyResult.ok tt)
  compact_tables (t ∷ tables) s = pass (λ _. compact_tables tables) (compact_table t s)

  abbrev pub consumed : ℕ → List (Memtable maps) → List (Memtable maps)
  consumed zero tables = tables
  consumed (suc c) tables = consumed c (Memtable.consume maps tables)

  -- `minor_compaction`, where `c` is the table count that it has read first.
  unfoldable pub compact : ℕ → Action DataManager (Unit {0})
  unfolding compact_tables
  compact c s =
      if c == 0
      then (s, MyResult.ok tt)
      else pass (λ _ s'. (with_immuttable s' (consumed c s'.immuttable), MyResult.ok tt))
          (compact_tables (take c (reverse s.immuttable)) s)

  unfoldable pub minor_compaction : Action DataManager (Unit {0})
  unfolding compact
  minor_compaction s = compact (length s.immuttable) s

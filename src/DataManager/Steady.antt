-- ===== src/DataManager/Steady.antt =====
-- The data manager does not panic in the states in which its lookups do not.
mod Tests
use mirdb.Prelude.{
  ℕ, ◌≡◌, ◌≢◌, refl, sym, Bool, true, false, Option, none, some, List, [], ◌∷◌, length, leb, ◌==◌,
  ◌+◌, ◌++◌, Slice, bytes_eq, if◌then◌else◌,
}
use mathlib.Core.Path.{subst}
use mirdb.Error.{MyResult, Action, pure, pass}
use mirdb.Payload.{StorePayload}
use mirdb.Memtable
use mirdb.Levels.{get_from}
use mirdb.Wal.{WalSeg, seg_append, write_record, flushed, grown, with_file, record_of}
use mirdb.Wal.Segments.{
  Wal, append, append_last, append_back, new_seg, new_file, with_segs, current_seg_size,
}
use mirdb.Store.Safety.{IsSteady, IsFine, ok-ne-panic, err-ne-panic, pass-IsFine, pass_ne_panic}
use mirdb.DataManager.{
  Parts, DataManager, with_wal, with_muttable, on_wal, rotated, find_memory, from_readers,
  insert_table, insert_, insert_with_option, insert, and_then, get, remove_found, remove,
}
use mirdb.DataManager.View.{PartLaws}
use mirdb.DataManager.Changes.{Entered, insert_table-Entered}
use mirdb.DataManager.Service.{manager_ops}

-- The libraries and the files fail with an error, never with a panic.
pub record PartsReturn (parts : Parts) : Type 0 where
  pub serialize_returns : (v : Option StorePayload) → parts.serialize v ≢ MyResult.panic
  pub compress_returns : (x : Slice) → parts.logs.compress x ≢ MyResult.panic
  pub write_returns : (file buf : Slice) → (parts.logs.write_all file buf).1 ≢ MyResult.panic
  pub flush_returns : (file : Slice) → parts.logs.flush file ≢ MyResult.panic
  pub create_returns : (n : ℕ) → parts.logs.create n ≢ MyResult.panic

module _ (parts : Parts) (laws : PartLaws parts) (returns : PartsReturn parts) where
  new_seg-returns : (w : Wal) → (new_seg parts.logs w).1 ≢ MyResult.panic
  unfolding new_seg
  new_seg-returns w =
      let next : Wal = record { segs = w.segs; current_file_num = w.current_file_num + 1 } in
      pass_ne_panic {S = Wal} {A = Unit {0}} {B = Unit {0}}
        (λ _ w'. (with_segs w' (w'.segs ++ new_file w.current_file_num ∷ []), MyResult.ok tt))
        (next, parts.logs.create w.current_file_num) (returns.create_returns w.current_file_num)
        (λ u w'. ok-ne-panic tt)

  flushed-returns : (n : ℕ) (seg : WalSeg) → (flushed parts.logs n seg).1 ≢ MyResult.panic
  unfolding flushed
  flushed-returns n seg =
      pass_ne_panic {S = WalSeg} {A = Unit {0}} {B = Unit {0}} (λ _ s. (grown s n, MyResult.ok tt))
        (seg, parts.logs.flush seg.file) (returns.flush_returns seg.file) (λ u s. ok-ne-panic tt)

  write_record-returns :
      (buf : Slice) (seg : WalSeg) → (write_record parts.logs buf seg).1 ≢ MyResult.panic
  unfolding write_record
  write_record-returns buf seg =
      let done = parts.logs.write_all seg.file buf in
      pass_ne_panic {S = WalSeg} {A = Unit {0}} {B = Unit {0}}
        (λ _. flushed parts.logs (length buf)) (with_file seg done.0, done.1)
        (returns.write_returns seg.file buf) (λ u s. flushed-returns (length buf) s)

  seg_append-returns :
      (k v : Slice) (seg : WalSeg) → (seg_append parts.logs k v seg).1 ≢ MyResult.panic
  unfolding seg_append
  seg_append-returns k v seg =
      pass_ne_panic {S = WalSeg} {A = Slice} {B = Unit {0}}
        (λ kb s.
          pass (λ vb. write_record parts.logs (record_of parts.logs kb vb))
            (s, parts.logs.compress v))
        (seg, parts.logs.compress k) (returns.compress_returns k)
        (λ kb s.
          pass_ne_panic {S = WalSeg} {A = Slice} {B = Unit {0}}
            (λ vb. write_record parts.logs (record_of parts.logs kb vb)) (s, parts.logs.compress v)
            (returns.compress_returns v)
            (λ vb t. write_record-returns (record_of parts.logs kb vb) t))

  append_back-returns :
      (k v : Slice) (segs : List WalSeg) → (append_back parts.logs k v segs).1 ≢ MyResult.panic
  unfolding append_back
  append_back-returns k v [] = err-ne-panic (Unit {0}) _ _ refl
  append_back-returns k v (seg ∷ []) = seg_append-returns k v seg
  append_back-returns k v (seg ∷ next ∷ segs) = append_back-returns k v (next ∷ segs)

  append-returns : (k v : Slice) (w : Wal) → (append parts.logs k v w).1 ≢ MyResult.panic
  unfolding append append_last
  append-returns k v w =
      pass_ne_panic {S = Wal} {A = Unit {0}} {B = Unit {0}} (λ _. append_last parts.logs k v)
        (if length w.segs == 0 then new_seg parts.logs w else (w, MyResult.ok tt))
        (go (length w.segs == 0)) (λ u w'. append_back-returns k v w'.segs)
    where
      go : (b : Bool) → (if b then new_seg parts.logs w else (w, MyResult.ok tt)).1 ≢ MyResult.panic
      go true = new_seg-returns w
      go false = ok-ne-panic tt

  -- No lookup panics.
  abbrev pub IsReadable : DataManager parts → Type 0
  IsReadable s = (k : Slice) → (get parts k s).1 ≢ MyResult.panic

  abbrev answered : DataManager parts → Slice → Option Slice → MyResult (Option StorePayload)
  answered s k o = elim o [
    | some r ↦ parts.deserialize r
    | none ↦ from_readers parts (get_from parts.readers parts.max_level 0 s.levels k)
  ]

  with_wal-IsReadable :
      (s : DataManager parts) (w : Wal) → IsReadable s → IsReadable (with_wal parts s w)
  unfolding get find_memory
  with_wal-IsReadable s w h = h

  Entered-IsReadable :
      (k b : Slice) (v : Option StorePayload) (s s' : DataManager parts)
      → parts.deserialize b ≡ MyResult.ok v
      → Entered parts laws k b s s'
      → IsReadable s
      → IsReadable s'
  unfolding get
  Entered-IsReadable k b v s s' e (l, m) h j =
      subst
        (λ levels.
          elim (find_memory parts s' j) as (λ x. MyResult (Option StorePayload)) [
            | some r ↦ parts.deserialize r
            | none ↦ from_readers parts (get_from parts.readers parts.max_level 0 levels j)
          ]
          ≢ MyResult.panic)
        (sym l) (subst (λ o. answered s j o ≢ MyResult.panic) (sym (m j)) (go (bytes_eq k j) (h j)))
    where
      go :
          (c : Bool)
          → answered s j (find_memory parts s j) ≢ MyResult.panic
          → answered s j (if c then some b else find_memory parts s j) ≢ MyResult.panic
      go true f = subst (λ r. r ≢ MyResult.panic) (sym e) (ok-ne-panic v)
      go false f = f

  insert_table-returns :
      (k b : Slice) (s : DataManager parts) → (insert_table parts k b s).1 ≢ MyResult.panic
  unfolding insert_table
  insert_table-returns k b s = go (leb parts.mem_table_max_size (current_seg_size s'.wal))
    where
      s' : DataManager parts
      s' = with_muttable parts s (Memtable.insert parts.maps k b s.muttable).0

      go :
          (c : Bool)
          → (if c
              then pass
                  (λ _. pure (Memtable.insert parts.maps k b s.muttable).1)
                  (on_wal parts (new_seg parts.logs) (rotated parts s'))
              else (s', MyResult.ok (Memtable.insert parts.maps k b s.muttable).1)).1
            ≢ MyResult.panic
      go true =
          pass_ne_panic {S = DataManager parts} {A = Unit {0}}
            (λ _. pure (Memtable.insert parts.maps k b s.muttable).1)
            (on_wal parts (new_seg parts.logs) (rotated parts s')) (new_seg-returns s'.wal)
            (λ u t. ok-ne-panic _)
      go false = ok-ne-panic _

  insert_-IsFine :
      (k b : Slice) (v : Option StorePayload) (s : DataManager parts)
      → parts.deserialize b ≡ MyResult.ok v
      → IsReadable s
      → IsFine IsReadable (insert_ parts k b s)
  unfolding insert_
  insert_-IsFine k b v s e h =
      pass-IsFine IsReadable (λ _. insert_table parts k b) (on_wal parts (append parts.logs k b) s)
        (append-returns k b s.wal, with_wal-IsReadable s (append parts.logs k b s.wal).0 h)
        (λ u s' h'. (
          insert_table-returns k b s',
          Entered-IsReadable k b v s' (insert_table parts k b s').0 e
              (insert_table-Entered parts laws k b s') h',
        ))

  insert_with_option-IsFine :
      (k : Slice) (v : Option StorePayload) (s : DataManager parts)
      → IsReadable s
      → IsFine IsReadable (insert_with_option parts k v s)
  unfolding insert_with_option
  insert_with_option-IsFine k v s h =
      go (parts.serialize v) (returns.serialize_returns v) (laws.deserialize_serialize v)
    where
      go :
          (c : MyResult Slice)
          → c ≢ MyResult.panic
          → ((b : Slice) → c ≡ MyResult.ok b → parts.deserialize b ≡ MyResult.ok v)
          → IsFine IsReadable
              (pass (λ b s'. pass (λ q. pure (and_then parts q v)) (insert_ parts k b s')) (s, c))
      go (MyResult.ok b) n d =
          pass-IsFine IsReadable (λ q. pure (and_then parts q v)) (insert_ parts k b s)
            (insert_-IsFine k b v s (d b refl) h) (λ q s' h'. (ok-ne-panic _, h'))
      go (MyResult.err x) n d = (err-ne-panic (Option StorePayload) x (MyResult.err x) refl, h)
      go MyResult.panic n d = absurd (n refl)

  remove-IsFine :
      (k : Slice) (s : DataManager parts) → IsReadable s → IsFine IsReadable (remove parts k s)
  unfolding remove remove_found get
  remove-IsFine k s h = pass-IsFine IsReadable (remove_found parts k) (get parts k s) (h k, h) found
    where
      found :
          (o : Option StorePayload) (s' : DataManager parts)
          → IsReadable s'
          → IsFine IsReadable (remove_found parts k o s')
      found none s' h' = (ok-ne-panic none, h')
      found (some v) s' h' =
          pass-IsFine IsReadable (λ _. pure (some v)) (insert_with_option parts k none s')
            (insert_with_option-IsFine k none s' h') (λ q t g. (ok-ne-panic (some v), g))

  -- The data manager as the store needs it: where no lookup panics, no operation does, and no lookup does
  -- behind it. The major compaction is given.
  pub manager_steady :
      (info : DataManager parts → Slice) (major_compaction : Action (DataManager parts) (Unit {0}))
      → ((s : DataManager parts) → IsReadable s → IsFine IsReadable (major_compaction s))
      → IsSteady (manager_ops parts info major_compaction)
  unfolding get insert
  manager_steady info major_compaction m = record {
    IsSafe = IsReadable;
    get_safe = λ k s h. (h k, h);
    insert_safe = λ k v s h. insert_with_option-IsFine k (some v) s h;
    remove_safe = remove-IsFine;
    compaction_safe = m;
  }

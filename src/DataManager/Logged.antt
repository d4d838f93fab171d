-- ===== src/DataManager/Logged.antt =====
-- The segments of the log and the tables in memory.
use mirdb.Prelude.{
  ℕ, zero, suc, ◌+◌, ◌≡◌, refl, ap, ◌∙◌, Bool, true, false, Option, List, [], ◌∷◌, ◌++◌, length,
  length-append, leb, ◌==◌, if◌then◌else◌, Slice, arith,
}
use mirdb.Error.{MyResult, pure, pass}
use mirdb.Memtable
use mirdb.Wal.{WalOps, WalSeg}
use mirdb.Wal.Segments.{
  Wal, with_segs, new_file, append_back, append_last, append, new_seg, current_seg_size,
}
use mirdb.DataManager.{
  Parts, DataManager, with_wal, with_muttable, on_wal, rotated, insert_table, insert_,
}

length-append_back :
    (ops : WalOps) (k v : Slice) (segs : List WalSeg)
    → length (append_back ops k v segs).0 ≡ length segs
unfolding append_back
length-append_back ops k v [] = refl
length-append_back ops k v (s ∷ []) = refl
length-append_back ops k v (s ∷ t ∷ segs) = ap suc (length-append_back ops k v (t ∷ segs))

-- A new segment adds one, unless it fails.
length-new_seg :
    (ops : WalOps) (w : Wal)
    → (new_seg ops w).1 ≡ MyResult.ok tt
    → length (new_seg ops w).0.segs ≡ length w.segs + 1
unfolding new_seg
length-new_seg ops w h = go (ops.create w.current_file_num) h
  where
    go :
        (r : MyResult (Unit {0}))
        → (pass
            (λ _ w'. (with_segs w' (w'.segs ++ new_file w.current_file_num ∷ []), MyResult.ok tt))
            (record { segs = w.segs; current_file_num = w.current_file_num + 1 }, r)).1
          ≡ MyResult.ok tt
        → length
            (pass
              (λ _ w'. (with_segs w' (w'.segs ++ new_file w.current_file_num ∷ []), MyResult.ok tt))
              (record { segs = w.segs; current_file_num = w.current_file_num + 1 }, r)).0.segs
          ≡ length w.segs + 1
    go (MyResult.ok u) h = length-append w.segs (new_file w.current_file_num ∷ [])
    go (MyResult.err x) h = cc
    go MyResult.panic h = cc

-- The segments behind an append: one more if there was none.
abbrev pub counted : ℕ → ℕ
counted zero = 1
counted (suc n) = suc n

opened-length :
    (ops : WalOps) (w : Wal) (segs : List WalSeg)
    → w.segs ≡ segs
    → (if length segs == 0 then new_seg ops w else (w, MyResult.ok tt)).1 ≡ MyResult.ok tt
    → length (if length segs == 0 then new_seg ops w else (w, MyResult.ok tt)).0.segs
      ≡ counted (length segs)
opened-length ops w [] e h = length-new_seg ops w h ∙ ap (λ l. length l + 1) e
opened-length ops w (s ∷ segs) e h =
    some_segs (length segs) (suc (length segs) == 0) (ground arith) h
  where
    some_segs :
        (n : ℕ) (b : Bool)
        → b ≡ false
        → (if b then new_seg ops w else (w, MyResult.ok tt)).1 ≡ MyResult.ok tt
        → length (if b then new_seg ops w else (w, MyResult.ok tt)).0.segs ≡ suc (length segs)
    some_segs n true f h = absurd (cc f)
    some_segs n false f h = ap length e

length-append_seg :
    (ops : WalOps) (k v : Slice) (w : Wal)
    → (append ops k v w).1 ≡ MyResult.ok tt
    → length (append ops k v w).0.segs ≡ counted (length w.segs)
unfolding append append_last
length-append_seg ops k v w h =
    go (if length w.segs == 0 then new_seg ops w else (w, MyResult.ok tt))
      (opened-length ops w w.segs refl) h
  where
    go :
        (p : Wal × MyResult (Unit {0}))
        → (p.1 ≡ MyResult.ok tt → length p.0.segs ≡ counted (length w.segs))
        → (pass (λ _. append_last ops k v) p).1 ≡ MyResult.ok tt
        → length (pass (λ _. append_last ops k v) p).0.segs ≡ counted (length w.segs)
    go (w', MyResult.ok u) f h = length-append_back ops k v w'.segs ∙ f refl
    go (w', MyResult.err x) f h = cc
    go (w', MyResult.panic) f h = cc

module _ (parts : Parts) where
  -- A segment for each immutable table and one for the mutable one; none at all before the first entry.
  abbrev pub IsLogged : DataManager parts → Type 0
  IsLogged s = counted (length s.wal.segs) ≡ length s.immuttable + 1

  -- The same where something has been entered.
  abbrev pub HasLog : DataManager parts → Type 0
  HasLog s = length s.wal.segs ≡ length s.immuttable + 1

  insert_table-HasLog :
      (k v : Slice) (s : DataManager parts) (r : Option Slice)
      → HasLog s
      → (insert_table parts k v s).1 ≡ MyResult.ok r
      → HasLog (insert_table parts k v s).0
  unfolding insert_table
  insert_table-HasLog k v s r l h = go (leb parts.mem_table_max_size (current_seg_size s.wal)) h
    where
      s' : DataManager parts
      s' = with_muttable parts s (Memtable.insert parts.maps k v s.muttable).0

      old : Option Slice
      old = (Memtable.insert parts.maps k v s.muttable).1

      new_table :
          (p : Wal × MyResult (Unit {0}))
          → (p.1 ≡ MyResult.ok tt → length p.0.segs ≡ length s.wal.segs + 1)
          → (pass (λ _. pure old) (with_wal parts (rotated parts s') p.0, p.1)).1 ≡ MyResult.ok r
          → HasLog (pass (λ _. pure old) (with_wal parts (rotated parts s') p.0, p.1)).0
      new_table (w, MyResult.ok u) f h = omega (arith, f refl, l)
      new_table (w, MyResult.err x) f h = cc
      new_table (w, MyResult.panic) f h = cc

      go :
          (b : Bool)
          → (if b
              then pass (λ _. pure old) (on_wal parts (new_seg parts.logs) (rotated parts s'))
              else (s', MyResult.ok old)).1
            ≡ MyResult.ok r
          → HasLog
              (if b
                then pass (λ _. pure old) (on_wal parts (new_seg parts.logs) (rotated parts s'))
                else (s', MyResult.ok old)).0
      go true h = new_table (new_seg parts.logs s.wal) (length-new_seg parts.logs s.wal) h
      go false h = l

-- If before an insert there is a segment of the log for each immutable table and one for the mutable
-- one, or neither a segment nor an immutable table, then after an insert that succeeds there is a segment
-- for each immutable table and one for the mutable one, also where the insert began a new table.
pub insert_-HasLog :
    (parts : Parts) (k v : Slice) (s : DataManager parts) (r : Option Slice)
    → IsLogged parts s
    → (insert_ parts k v s).1 ≡ MyResult.ok r
    → HasLog parts (insert_ parts k v s).0
unfolding insert_
insert_-HasLog parts k v s r l h =
    go (append parts.logs k v s.wal) (length-append_seg parts.logs k v s.wal) h
  where
    go :
        (p : Wal × MyResult (Unit {0}))
        → (p.1 ≡ MyResult.ok tt → length p.0.segs ≡ counted (length s.wal.segs))
        → (pass (λ _. insert_table parts k v) (with_wal parts s p.0, p.1)).1 ≡ MyResult.ok r
        → HasLog parts (pass (λ _. insert_table parts k v) (with_wal parts s p.0, p.1)).0
    go (w, MyResult.ok u) f h = insert_table-HasLog parts k v (with_wal parts s w) r (f refl ∙ l) h
    go (w, MyResult.err x) f h = cc
    go (w, MyResult.panic) f h = cc

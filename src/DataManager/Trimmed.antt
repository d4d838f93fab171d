-- ===== src/DataManager/Trimmed.antt =====
-- `minor_compaction` and the segments of the log.
use mirdb.Prelude.{
  ℕ, zero, suc, ◌+◌, ◌-◌, ◌≡◌, refl, sym, ap, ◌∙◌, Bool, true, false, Option, none, some, List, [],
  ◌∷◌, reverse, length, length-take, take, ◌==◌, if◌then◌else◌, arith,
}
use mirdb.Error.{MyResult, Action, pass}
use mirdb.Memtable
use mirdb.Wal.{WalOps, WalSeg}
use mirdb.Wal.Segments.{Wal, consume_front, consume_seg}
use mirdb.DataManager.{
  Parts, DataManager, with_immuttable, on_wal, numbered, add_first, add_reader, add_built,
  compact_table, compact_tables, consumed, compact, minor_compaction,
}
use mirdb.DataManager.Compaction.{consumed-all, length-reverse}
use mirdb.DataManager.Logged.{IsLogged, counted}

length-consume_seg :
    (ops : WalOps) (w : Wal) → length (consume_seg ops w).0.segs ≡ length w.segs - 1
unfolding consume_seg consume_front
length-consume_seg ops w = go w.segs refl
  where
    go :
        (segs : List WalSeg)
        → w.segs ≡ segs
        → length (consume_front ops w segs).0.segs ≡ length segs - 1
    go [] e = ap length e
    go (s ∷ segs) e = omega arith

module _ (parts : Parts) where
  -- The second state has the same immutable tables, and `n` segments less.
  abbrev Trimmed : ℕ → DataManager parts → DataManager parts → Type 0
  Trimmed n s s' = (s'.immuttable ≡ s.immuttable) × (length s'.wal.segs ≡ length s.wal.segs - n)

  add_built-Trimmed :
      (o : Option parts.readers.Reader) (s : DataManager parts)
      → Trimmed 0 s (add_built parts o s).0
  unfolding add_built add_reader add_first
  add_built-Trimmed none s = (refl, omega arith)
  add_built-Trimmed (some r) s = go s.levels
    where
      go : (levels : List (List parts.readers.Reader)) → Trimmed 0 s (add_first parts r s levels).0
      go [] = (refl, omega arith)
      go (l ∷ levels) = (refl, omega arith)

  compact_table-Trimmed :
      (t : Memtable.Memtable parts.maps) (s : DataManager parts)
      → (compact_table parts t s).1 ≡ MyResult.ok tt
      → Trimmed 1 s (compact_table parts t s).0
  unfolding compact_table
  compact_table-Trimmed t s h = built (parts.build_sstable s.next_file_number t.map) h
    where
      logged :
          (p : DataManager parts × MyResult (Unit {0}))
          → Trimmed 0 s p.0
          → (pass (λ _. on_wal parts (consume_seg parts.logs)) p).1 ≡ MyResult.ok tt
          → Trimmed 1 s (pass (λ _. on_wal parts (consume_seg parts.logs)) p).0
      logged (s', MyResult.ok u) (a, b) h =
          (a, omega (arith, length-consume_seg parts.logs s'.wal, b))
      logged (s', MyResult.err x) f h = cc
      logged (s', MyResult.panic) f h = cc

      built :
          (o : MyResult (Option parts.readers.Reader))
          → (pass
              (λ _. on_wal parts (consume_seg parts.logs))
              (pass (add_built parts) (numbered parts s, o))).1
            ≡ MyResult.ok tt
          → Trimmed 1 s
              (pass
                (λ _. on_wal parts (consume_seg parts.logs))
                (pass (add_built parts) (numbered parts s, o))).0
      built (MyResult.ok o) h =
          logged (add_built parts o (numbered parts s)) (add_built-Trimmed o (numbered parts s)) h
      built (MyResult.err x) h = cc
      built MyResult.panic h = cc

  compact_tables-Trimmed :
      (tables : List (Memtable.Memtable parts.maps)) (s : DataManager parts)
      → (compact_tables parts tables s).1 ≡ MyResult.ok tt
      → Trimmed (length tables) s (compact_tables parts tables s).0
  unfolding compact_tables
  compact_tables-Trimmed [] s h = (refl, omega arith)
  compact_tables-Trimmed (t ∷ tables) s h =
      go (compact_table parts t s) (compact_table-Trimmed t s) (compact_tables-Trimmed tables) h
    where
      go :
          (p : DataManager parts × MyResult (Unit {0}))
          → (p.1 ≡ MyResult.ok tt → Trimmed 1 s p.0)
          → ((s : DataManager parts)
              → (compact_tables parts tables s).1 ≡ MyResult.ok tt
              → Trimmed (length tables) s (compact_tables parts tables s).0)
          → (pass (λ _. compact_tables parts tables) p).1 ≡ MyResult.ok tt
          → Trimmed (suc (length tables)) s (pass (λ _. compact_tables parts tables) p).0
      go (s', MyResult.ok u) f ih h =
          let (a, b) = f refl in let (a', b') = ih s' h in (a' ∙ a, omega (arith, b, b'))
      go (s', MyResult.err x) f ih h = cc
      go (s', MyResult.panic) f ih h = cc

counted-some : (n m : ℕ) → counted n ≡ m + 1 → (m == 0) ≡ false → n ≡ m + 1
counted-some zero m h e = ground arith
counted-some (suc n) m h e = h

-- If there is a segment of the log for each immutable table and one for the mutable one, or neither a
-- segment nor an immutable table, then it is so after a minor compaction that succeeds, which leaves no
-- immutable table.
pub minor_compaction-IsLogged :
    (parts : Parts) (s : DataManager parts)
    → IsLogged parts s
    → (minor_compaction parts s).1 ≡ MyResult.ok tt
    → IsLogged parts (minor_compaction parts s).0 × ((minor_compaction parts s).0.immuttable ≡ [])
unfolding minor_compaction compact
minor_compaction-IsLogged parts s l h =
    go (length s.immuttable == 0) refl
      (compact_tables parts (take (length s.immuttable) (reverse s.immuttable)) s)
      (compact_tables-Trimmed parts (take (length s.immuttable) (reverse s.immuttable)) s) h
  where
    emptied : Action (DataManager parts) (Unit {0})
    emptied s' = (
      with_immuttable parts s' (consumed parts (length s.immuttable) s'.immuttable),
      MyResult.ok tt,
    )

    size : length (take (length s.immuttable) (reverse s.immuttable)) ≡ length s.immuttable
    size = omega (
      arith,
      length-take (length s.immuttable) (reverse s.immuttable),
      length-reverse s.immuttable,
    )

    none_left :
        (s' : DataManager parts)
        → s'.immuttable ≡ s.immuttable
        → consumed parts (length s.immuttable) s'.immuttable ≡ []
    none_left s' a = consumed-all parts (length s.immuttable) s'.immuttable (ap length a)

    no_tables :
        (tables : List (Memtable.Memtable parts.maps)) → (length tables == 0) ≡ true → tables ≡ []
    no_tables [] e = refl
    no_tables (t ∷ tables) e = absurd (ground arith)

    go :
        (b : Bool)
        → (length s.immuttable == 0) ≡ b
        → (p : DataManager parts × MyResult (Unit {0}))
        → (p.1 ≡ MyResult.ok tt
            → Trimmed parts (length (take (length s.immuttable) (reverse s.immuttable))) s p.0)
        → (if b then (s, MyResult.ok tt) else pass (λ _. emptied) p).1 ≡ MyResult.ok tt
        → IsLogged parts (if b then (s, MyResult.ok tt) else pass (λ _. emptied) p).0
          × ((if b then (s, MyResult.ok tt) else pass (λ _. emptied) p).0.immuttable ≡ [])
    go true e p f h = (l, no_tables s.immuttable e)
    go false e (s', MyResult.ok u) f h =
        let (a, b) = f refl in
        let one : length s'.wal.segs ≡ 1 =
          omega (arith, b, size, counted-some (length s.wal.segs) (length s.immuttable) l e) in
        (ap counted one ∙ sym (ap (λ t. length t + 1) (none_left s' a)), none_left s' a)
    go false e (s', MyResult.err x) f h = cc
    go false e (s', MyResult.panic) f h = cc

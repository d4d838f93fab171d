-- ===== src/Wal/Append.antt =====
-- `WALSeg::append` and the entries of a segment.
use mirdb.Prelude.{
  ◌+◌, ◌<◌, ◌≡◌, refl, sym, ap, List, [], ◌∷◌, ◌++◌, length, length-append, Slice, arith,
}
use mathlib.Core.Path.{subst}
use mirdb.ParserUtil.{u32_bound}
use mirdb.Error.{MyResult, pass}
use mirdb.Wal.{WalOps, WalSeg, with_file, grown, record_of, flushed, write_record, seg_append}
use mirdb.Wal.Records.{WalLaws, IsLog, IsLog-append}

module _ (ops : WalOps) (laws : WalLaws ops) where
  -- The file holds the entries, and the size is the file's.
  abbrev pub IsSeg : List (Slice × Slice) → WalSeg → Type 0
  IsSeg entries seg = IsLog ops laws entries seg.file × (seg.size ≡ length seg.file)

  write_record-IsSeg :
      (entries : List (Slice × Slice)) (key value kb vb : Slice) (seg seg' : WalSeg)
      → IsSeg entries seg
      → ops.compress key ≡ MyResult.ok kb
      → ops.compress value ≡ MyResult.ok vb
      → length kb + length vb < u32_bound
      → write_record ops (record_of ops kb vb) seg ≡ (seg', MyResult.ok tt)
      → IsSeg (entries ++ (key, value) ∷ []) seg'
  unfolding write_record flushed
  write_record-IsSeg entries key value kb vb seg seg' (l, n) ck cv h e =
      written (ops.write_all seg.file buf).0 (ops.write_all seg.file buf).1
        (laws.write_all_appends seg.file buf) e
    where
      buf : Slice
      buf = record_of ops kb vb

      flush_done :
          (file : Slice) (r : MyResult (Unit {0}))
          → file ≡ seg.file ++ buf
          → pass (λ _ s. (grown s (length buf), MyResult.ok tt)) (with_file seg file, r)
            ≡ (seg', MyResult.ok tt)
          → IsSeg (entries ++ (key, value) ∷ []) seg'
      flush_done file (MyResult.ok u) a e =
          subst (IsSeg (entries ++ (key, value) ∷ [])) (ap (λ p. p.0) e) (
            subst (IsLog ops laws (entries ++ (key, value) ∷ [])) (sym a)
                (IsLog-append ops laws entries seg.file key value kb vb l (ck, cv, h)),
            omega (arith, n, ap length a, length-append seg.file buf),
          )
      flush_done file (MyResult.err x) a e = cc
      flush_done file MyResult.panic a e = cc

      written :
          (file : Slice) (r : MyResult (Unit {0}))
          → (r ≡ MyResult.ok tt → file ≡ seg.file ++ buf)
          → pass (λ _. flushed ops (length buf)) (with_file seg file, r) ≡ (seg', MyResult.ok tt)
          → IsSeg (entries ++ (key, value) ∷ []) seg'
      written file (MyResult.ok u) a e = flush_done file (ops.flush file) (a refl) e
      written file (MyResult.err x) a e = cc
      written file MyResult.panic a e = cc

-- An append that succeeds, to a segment that holds some entries and whose size is its file's, leaves a
-- segment that holds those entries and the new one behind them, and whose size is its file's, if the
-- compressed entry fits the 32 bits of its header.
pub seg_append-IsSeg :
    (ops : WalOps) (laws : WalLaws ops) (entries : List (Slice × Slice)) (key value : Slice)
    (seg seg' : WalSeg)
    → IsSeg ops laws entries seg
    → ((kb vb : Slice)
        → ops.compress key ≡ MyResult.ok kb
        → ops.compress value ≡ MyResult.ok vb
        → length kb + length vb < u32_bound)
    → seg_append ops key value seg ≡ (seg', MyResult.ok tt)
    → IsSeg ops laws (entries ++ (key, value) ∷ []) seg'
unfolding seg_append
seg_append-IsSeg ops laws entries key value seg seg' s fits e =
    go (ops.compress key) refl (ops.compress value) refl e
  where
    go :
        (r : MyResult Slice)
        → ops.compress key ≡ r
        → (q : MyResult Slice) → ops.compress value ≡ q
        → pass (λ kb s. pass (λ vb. write_record ops (record_of ops kb vb)) (s, q)) (seg, r)
          ≡ (seg', MyResult.ok tt)
        → IsSeg ops laws (entries ++ (key, value) ∷ []) seg'
    go (MyResult.ok kb) ck (MyResult.ok vb) cv e =
        write_record-IsSeg ops laws entries key value kb vb seg seg' s ck cv (fits kb vb ck cv) e
    go (MyResult.ok kb) ck (MyResult.err x) cv e = cc
    go (MyResult.ok kb) ck MyResult.panic cv e = cc
    go (MyResult.err x) ck q cv e = cc
    go MyResult.panic ck q cv e = cc

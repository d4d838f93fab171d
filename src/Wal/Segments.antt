-- ===== src/Wal/Segments.antt =====
-- `WAL` of mirdb-server/src/wal.rs: the queue of segments, the current one last.
use mirdb.Prelude.{ℕ, ◌+◌, ◌==◌, List, [], ◌∷◌, ◌++◌, length, Slice, codes, if◌then◌else◌}
use mirdb.Error.{StatusCode, MyResult, Action, pass}
use mirdb.Wal.{WalOps, WalSeg, seg_append}

pub record Wal : Type 0 where
  pub segs : List WalSeg
  pub current_file_num : ℕ

abbrev pub with_segs : Wal → List WalSeg → Wal
with_segs w segs = record { segs = segs; current_file_num = w.current_file_num }

-- A new segment's file is empty: the names of files that hold something are in use no more, since the
-- log is redone and deleted before it is written.
abbrev pub new_file : ℕ → WalSeg
new_file n = record { file = []; size = 0; number = n }

module _ (ops : WalOps) where
  -- `new_seg`: the number is taken also where the file cannot be created.
  unfoldable pub new_seg : Action Wal (Unit {0})
  new_seg w =
      let n = w.current_file_num in
      pass (λ _ w'. (with_segs w' (w'.segs ++ new_file n ∷ []), MyResult.ok tt))
        (record { segs = w.segs; current_file_num = n + 1 }, ops.create n)

  -- The append to `segs.back_mut()`.
  unfoldable pub append_back : Slice → Slice → List WalSeg → List WalSeg × MyResult (Unit {0})
  append_back key value [] = (
    [],
    MyResult.err
        (record { code = StatusCode.wal_error; msg = codes "cannot get the tail wal seg" }),
  )
  append_back key value (seg ∷ []) =
      let done = seg_append ops key value seg in (done.0 ∷ [], done.1)
  append_back key value (seg ∷ next ∷ segs) =
      let done = append_back key value (next ∷ segs) in (seg ∷ done.0, done.1)

  unfoldable pub append_last : Slice → Slice → Action Wal (Unit {0})
  unfolding append_back
  append_last key value w = let done = append_back key value w.segs in (with_segs w done.0, done.1)

  -- `append`
  unfoldable pub append : Slice → Slice → Action Wal (Unit {0})
  unfolding new_seg append_last
  append key value w =
      pass (λ _. append_last key value)
        (if length w.segs == 0 then new_seg w else (w, MyResult.ok tt))

  -- `consume_seg`: the oldest segment leaves the queue also where its file cannot be deleted.
  unfoldable pub consume_front : Wal → List WalSeg → Wal × MyResult (Unit {0})
  consume_front w [] = (w, MyResult.ok tt)
  consume_front w (seg ∷ segs) = (with_segs w segs, ops.delete seg.number)

  unfoldable pub consume_seg : Action Wal (Unit {0})
  unfolding consume_front
  consume_seg w = consume_front w w.segs

-- `current_seg_size`
abbrev back_size : List WalSeg → ℕ
back_size [] = 0
back_size (seg ∷ []) = seg.size
back_size (seg ∷ next ∷ segs) = back_size (next ∷ segs)

unfoldable pub current_seg_size : Wal → ℕ
current_seg_size w = back_size w.segs

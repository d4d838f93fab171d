-- ===== src/Merger.antt =====
-- mirdb-server/src/merger.rs: the merge of tables, over the operations that it uses of their iterators
-- (`TableIter` of sstable/src/table_iter.rs).
pub mod Newest
pub mod Slots
pub mod Advance
pub mod Run
mod Tests
use mirdb.Prelude.{
  ℕ, zero, suc, Bool, true, false, Option, none, some, List, [], ◌∷◌, ◌++◌, length, get_elem?,
  if◌then◌else◌, Slice, bytes_lt, bind, ◌||◌,
}

pub record IterOps : Type 1 where
  pub Iter : Type 0
  pub valid : Iter → Bool
  pub advance : Iter → Bool × Iter
  pub prev : Iter → Bool × Iter
  pub current_k : Iter → Option Slice
  pub current_v : Iter → Option Slice

module _ (ops : IterOps) where
  open ops use {Iter, advance, prev}

  pub record Merger : Type 0 where
    pub iters : List Iter
    pub i : Option ℕ

  -- The iterators that the loop of `advance` has passed; where it has chosen one, this one with its key
  -- between those before it and those behind it.
  pub data Picked : Type 0 where
    none_yet : List Iter → Picked
    picked : List Iter → Iter → Slice → List Iter → Picked

  -- The body of the loop, for the key that the next iterator has come to.
  unfoldable pub taken : Picked → Iter → Option Slice → Picked
  taken (Picked.none_yet before) iter none = Picked.none_yet (before ++ (iter ∷ []))
  taken (Picked.none_yet before) iter (some nk) = Picked.picked before iter nk []
  taken (Picked.picked before chosen pk behind) iter none =
      Picked.picked before chosen pk (behind ++ (iter ∷ []))
  taken (Picked.picked before chosen pk behind) iter (some nk) =
      if bytes_lt nk pk
      then Picked.picked (before ++ ((prev chosen).1 ∷ behind)) iter nk []
      else if bytes_lt pk nk
      then Picked.picked before chosen pk (behind ++ ((prev iter).1 ∷ []))
      else Picked.picked before chosen pk (behind ++ (iter ∷ []))

  abbrev pub key_of : Bool × Iter → Option Slice
  key_of (true, iter) = ops.current_k iter
  key_of (false, iter) = none

  -- The loop of `advance`.
  unfoldable pub pick : Picked → List Iter → Picked
  unfolding taken
  pick s [] = s
  pick s (iter ∷ iters) = pick (taken s (advance iter).1 (key_of (advance iter))) iters

  abbrev pub settled : Picked → Bool × Merger
  settled (Picked.none_yet iters) = (false, record { iters = iters; i = none })
  settled (Picked.picked before chosen pk behind) =
      (true, record { iters = before ++ (chosen ∷ behind); i = some (length before) })

  -- `advance`
  unfoldable pub advance_merger : Merger → Bool × Merger
  unfolding pick
  advance_merger m = settled (pick (Picked.none_yet []) m.iters)

  -- `self.iters[i]`; the index is that of an iterator.
  abbrev pub current : Merger → Option Iter
  current m = bind m.i λ i. get_elem? m.iters i

  abbrev pub any_valid : List Iter → Bool
  any_valid [] = false
  any_valid (iter ∷ iters) = ops.valid iter || any_valid iters

  -- `current_kv` of the trait `SsIterator`.
  unfoldable pub merger_kv : Merger → Option (Slice × Slice)
  merger_kv m = elim (any_valid m.iters) [
    | true ↦
        bind (bind (current m) ops.current_k)
          λ k. bind (bind (current m) ops.current_v) λ v. some (k, v)
    | false ↦ none
  ]

  -- `next` of the trait `SsIterator`.
  unfoldable pub merger_next : Merger → Option (Slice × Slice) × Merger
  unfolding advance_merger merger_kv
  merger_next m = let r = advance_merger m in if r.0 then (merger_kv r.1, r.1) else (none, r.1)

  -- What `next` gives until its first `None`; `none` where the fuel is used up before.
  unfoldable pub merged : ℕ → Merger → Option (List (Slice × Slice))
  unfolding merger_next
  merged zero m = none
  merged (suc fuel) m =
      let r = merger_next m in
      elim r.0 [ none ↦ some [] | some e ↦ bind (merged fuel r.1) λ es. some (e ∷ es) ]

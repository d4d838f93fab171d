-- ===== src/Merger/Slots.antt =====
-- The iterators of a merge with what is to come of them.
use mirdb.Prelude.{
  arith, ◌+◌, ℕ, suc, ◌≤◌, ◌≡◌, refl, sym, ap, ◌∙◌, Bool, true, false, Option, none, some, List, [],
  ◌∷◌, ◌++◌, length, All, Slice, bytes_lt,
}
use mathlib.Core.Path.{subst}
use mirdb.Merger.{IterOps, Picked, key_of}
use mirdb.Merger.Newest.{
  Input, find_entry, otherwise, otherwise-none, newest, newest-append, find_entry-IsAbove, IsAbove,
  IsAbove-trans, IsAscending,
}

-- What the merge relies on of an iterator over entries that are still to come: it advances over them one by
-- one and shows the one it has come to, and goes back by one.
pub record IterLaws (ops : IterOps) : Type 1 where
  pub IsAt : ops.Iter → Input → Type 0
  pub advance_end :
      (iter : ops.Iter)
      → IsAt iter []
      → ((ops.advance iter).0 ≡ false) × IsAt (ops.advance iter).1 []
  pub advance_on :
      (iter : ops.Iter) (e : Slice × Slice) (es : Input)
      → IsAt iter (e ∷ es)
      → ((ops.advance iter).0 ≡ true) × IsAt (ops.advance iter).1 es
  pub current_on :
      (iter : ops.Iter) (e : Slice × Slice) (es : Input)
      → IsAt iter (e ∷ es)
      → (ops.valid (ops.advance iter).1 ≡ true)
        × (ops.current_k (ops.advance iter).1 ≡ some e.0)
        × (ops.current_v (ops.advance iter).1 ≡ some e.1)
  pub prev_back :
      (iter : ops.Iter) (e : Slice × Slice) (es : Input)
      → IsAt iter (e ∷ es)
      → IsAt (ops.prev (ops.advance iter).1).1 (e ∷ es)

module _ (ops : IterOps) (laws : IterLaws ops) where
  open ops use {Iter}
  open laws use {IsAt}

  -- An iterator with what is to come of it.
  pub record Slot : Type 0 where
    pub iter : Iter
    pub rest : Input
    pub at : IsAt iter rest
    pub ascending : IsAscending rest

  abbrev pub iters_of : List Slot → List Iter
  iters_of [] = []
  iters_of (s ∷ ss) = s.iter ∷ iters_of ss

  abbrev pub rests_of : List Slot → List Input
  rests_of [] = []
  rests_of (s ∷ ss) = s.rest ∷ rests_of ss

  abbrev pub total : List Slot → ℕ
  total [] = 0
  total (s ∷ ss) = length s.rest + total ss

  pub iters_of-append : (xs ys : List Slot) → iters_of (xs ++ ys) ≡ iters_of xs ++ iters_of ys
  iters_of-append [] ys = refl
  iters_of-append (x ∷ xs) ys = ap (λ t. x.iter ∷ t) (iters_of-append xs ys)

  rests_of-append : (xs ys : List Slot) → rests_of (xs ++ ys) ≡ rests_of xs ++ rests_of ys
  rests_of-append [] ys = refl
  rests_of-append (x ∷ xs) ys = ap (λ t. x.rest ∷ t) (rests_of-append xs ys)

  pub total-append : (xs ys : List Slot) → total (xs ++ ys) ≡ total xs + total ys
  total-append [] ys = omega arith
  total-append (x ∷ xs) ys = omega (arith, total-append xs ys)

  abbrev pub newest_of : Slice → List Slot → Option Slice
  newest_of key ss = newest key (rests_of ss)

  pub newest_of-append :
      (key : Slice) (xs ys : List Slot)
      → newest_of key (xs ++ ys) ≡ otherwise (newest_of key xs) (newest_of key ys)
  newest_of-append key xs ys =
      ap (newest key) (rests_of-append xs ys) ∙ newest-append key (rests_of xs) (rests_of ys)

  abbrev pub IsBehind : Slice → List Slot → Type 0
  IsBehind key = All (λ s. IsAbove key s.rest)

  pub IsBehind-trans :
      (a b : Slice) (ss : List Slot) → bytes_lt a b ≡ true → IsBehind b ss → IsBehind a ss
  IsBehind-trans a b [] l h = tt
  IsBehind-trans a b (s ∷ ss) l h = (IsAbove-trans a b s.rest l h.0, IsBehind-trans a b ss l h.1)

  pub newest_of-IsBehind :
      (key : Slice) (ss : List Slot) → IsBehind key ss → newest_of key ss ≡ none
  newest_of-IsBehind key [] h = refl
  newest_of-IsBehind key (s ∷ ss) h =
      rw (find_entry-IsAbove key s.rest h.0) (newest_of-IsBehind key ss h.1)

  -- The iterator that has been advanced to an entry.
  pub record IsOn (iter : Iter) (e : Slice × Slice) (rest : Input) : Type 0 where
    pub at : IsAt iter rest
    pub is_valid : ops.valid iter ≡ true
    pub is_key : ops.current_k iter ≡ some e.0
    pub is_value : ops.current_v iter ≡ some e.1
    pub back : IsAt (ops.prev iter).1 (e ∷ rest)

  -- No iterator has been chosen: nothing comes of those that the loop has passed.
  pub record IsNone (seen : List Slot) (iters : List Iter) : Type 0 where
    pub slots : List Slot
    pub is_iters : iters_of slots ≡ iters
    pub ended : All (λ s. s.rest ≡ []) slots
    pub nothing : (key : Slice) → newest_of key seen ≡ none

  -- One has been chosen: it stands on the least key, and with its entry put back the newest entries
  -- are those of the inputs that the loop has passed.
  pub record IsChosen (seen : List Slot) (before : List Iter) (chosen : Iter) (pk : Slice)
      (behind : List Iter) : Type 0 where
    pub front : List Slot
    pub back : List Slot
    pub entry : Slice × Slice
    pub rest : Input
    pub is_before : iters_of front ≡ before
    pub is_behind : iters_of back ≡ behind
    pub on : IsOn chosen entry rest
    pub is_key : entry.0 ≡ pk
    pub above_front : IsBehind entry.0 front
    pub above_back : IsBehind entry.0 back
    pub ascending : IsAscending (entry ∷ rest)
    pub same :
        (key : Slice)
        → otherwise
            (newest_of key front)
            (otherwise (find_entry key (entry ∷ rest)) (newest_of key back))
          ≡ newest_of key seen
    pub smaller : total front + suc (length rest) + total back ≤ total seen

  abbrev pub IsPicked : List Slot → Picked ops → Type 0
  IsPicked seen (Picked.none_yet iters) = IsNone seen iters
  IsPicked seen (Picked.picked before chosen pk behind) = IsChosen seen before chosen pk behind

  pub ended-newest :
      (key : Slice) (ss : List Slot) → All (λ s. s.rest ≡ []) ss → newest_of key ss ≡ none
  ended-newest key [] h = refl
  ended-newest key (s ∷ ss) h = rw (h.0) (ended-newest key ss h.1)

  pub ended-IsBehind : (key : Slice) (ss : List Slot) → All (λ s. s.rest ≡ []) ss → IsBehind key ss
  ended-IsBehind key [] h = tt
  ended-IsBehind key (s ∷ ss) h = (subst (IsAbove key) (sym h.0) tt, ended-IsBehind key ss h.1)

  pub ended-total : (ss : List Slot) → All (λ s. s.rest ≡ []) ss → total ss ≡ 0
  ended-total [] h = refl
  ended-total (s ∷ ss) h = omega (arith, ap length h.0, ended-total ss h.1)

  pub otherwise_assoc :
      (a b c : Option Slice) → otherwise a (otherwise b c) ≡ otherwise (otherwise a b) c
  otherwise_assoc (some v) b c = refl
  otherwise_assoc none b c = refl

  pub key_of-false : (r : Bool × Iter) → r.0 ≡ false → key_of ops r ≡ none
  key_of-false (true, iter) h = cc
  key_of-false (false, iter) h = refl

  pub key_of-true : (r : Bool × Iter) → r.0 ≡ true → key_of ops r ≡ ops.current_k r.1
  key_of-true (true, iter) h = refl
  key_of-true (false, iter) h = cc

  pub newest_of_snoc :
      (key : Slice) (seen : List Slot) (slot : Slot)
      → newest_of key (seen ++ (slot ∷ []))
        ≡ otherwise (newest_of key seen) (find_entry key slot.rest)
  newest_of_snoc key seen slot =
      newest_of-append key seen (slot ∷ [])
      ∙ ap (otherwise (newest_of key seen)) (otherwise-none (find_entry key slot.rest))

  pub snoc_ended :
      (key : Slice) (seen : List Slot) (slot : Slot)
      → slot.rest ≡ []
      → newest_of key (seen ++ (slot ∷ [])) ≡ newest_of key seen
  snoc_ended key seen slot e =
      newest_of_snoc key seen slot
      ∙ ap (λ r. otherwise (newest_of key seen) (find_entry key r)) e
      ∙ otherwise-none (newest_of key seen)

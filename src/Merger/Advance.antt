-- ===== src/Merger/Advance.antt =====
-- A round of the merge.
use mirdb.Prelude.{
  arith, ◌+◌, suc, ◌≡◌, refl, sym, ap, ◌∙◌, Bool, true, false, Option, none, some, List, [], ◌∷◌,
  ◌++◌, length, if◌then◌else◌, All-append, Slice, bytes_eq, bytes_lt, bytes_lt_total,
}
use mathlib.Core.Path.{subst}
use mirdb.Merger.{IterOps, Picked, taken, key_of}
use mirdb.Merger.Newest.{
  Input, find_entry, otherwise, otherwise-none, IsAbove, IsAbove-trans, IsAscending,
}
use mirdb.Merger.Slots.{
  IterLaws, otherwise_assoc, IsBehind-trans, IsPicked, Slot, ended-IsBehind, ended-newest,
  ended-total, iters_of, iters_of-append, newest_of, newest_of-append, newest_of_snoc, snoc_ended,
  total, total-append,
}

module _ (ops : IterOps) (laws : IterLaws ops) where
  open ops use {Iter}
  open laws use {IsAt}

  -- What the loop does with the next iterator.
  abbrev next_picked : Picked ops → Slot ops laws → Picked ops
  next_picked s slot = taken ops s (ops.advance slot.iter).1 (key_of ops (ops.advance slot.iter))

  -- The loop passes an iterator of which nothing comes.
  pub ended-IsPicked :
      (seen : List (Slot ops laws)) (s : Picked ops) (slot : Slot ops laws)
      → IsPicked ops laws seen s
      → slot.rest ≡ []
      → IsPicked ops laws (seen ++ (slot ∷ [])) (taken ops s (ops.advance slot.iter).1 none)
  unfolding taken
  ended-IsPicked seen (Picked.none_yet iters) slot p e =
      let a = laws.advance_end slot.iter (subst (IsAt slot.iter) e slot.at) in
      let slot' : Slot ops laws = record {
        iter = (ops.advance slot.iter).1;
        rest = [];
        at = a.1;
        ascending = tt;
      } in
      record {
        slots = p.slots ++ (slot' ∷ []);
        is_iters =
            iters_of-append ops laws p.slots (slot' ∷ [])
            ∙ ap (λ t. t ++ (slot'.iter ∷ [])) p.is_iters;
        ended = All-append _ p.slots (slot' ∷ []) p.ended (refl, tt);
        nothing = λ key. snoc_ended ops laws key seen slot e ∙ p.nothing key;
      }
  ended-IsPicked seen (Picked.picked before chosen pk behind) slot p e =
      let a = laws.advance_end slot.iter (subst (IsAt slot.iter) e slot.at) in
      let slot' : Slot ops laws = record {
        iter = (ops.advance slot.iter).1;
        rest = [];
        at = a.1;
        ascending = tt;
      } in
      record {
        front = p.front;
        back = p.back ++ (slot' ∷ []);
        entry = p.entry;
        rest = p.rest;
        is_before = p.is_before;
        is_behind =
            iters_of-append ops laws p.back (slot' ∷ [])
            ∙ ap (λ t. t ++ (slot'.iter ∷ [])) p.is_behind;
        on = p.on;
        is_key = p.is_key;
        above_front = p.above_front;
        above_back = All-append _ p.back (slot' ∷ []) p.above_back (tt, tt);
        ascending = p.ascending;
        same = λ key.
            ap
              (λ t.
                otherwise (newest_of ops laws key p.front)
                  (otherwise (find_entry key (p.entry ∷ p.rest)) t))
              (snoc_ended ops laws key p.back slot' refl)
            ∙ p.same key
            ∙ sym (snoc_ended ops laws key seen slot e);
        smaller = omega (
          arith,
          p.smaller,
          total-append ops laws p.back (slot' ∷ []),
          total-append ops laws seen (slot ∷ []),
        );
      }

  cell_same :
      (E F B X : Option Slice)
      → otherwise F (otherwise E (otherwise B X)) ≡ otherwise (otherwise F (otherwise E B)) X
  cell_same E F B X =
      ap (otherwise F) (otherwise_assoc ops laws E B X)
      ∙ otherwise_assoc ops laws F (otherwise E B) X

  dropped_same :
      (b : Bool) (F B X : Option Slice) (v w : Slice) (E : Option Slice)
      → otherwise F (otherwise (if b then some v else E) (otherwise B X))
        ≡ otherwise (otherwise F (otherwise (if b then some v else E) B)) (if b then some w else X)
  dropped_same true (some f) B X v w E = refl
  dropped_same true none B X v w E = refl
  dropped_same false F B X v w E = cell_same E F B X

  -- The loop passes an iterator that comes to an entry.
  pub came-IsPicked :
      (seen : List (Slot ops laws)) (s : Picked ops) (slot : Slot ops laws) (x : Slice × Slice)
      (xs : Input)
      → IsPicked ops laws seen s
      → slot.rest ≡ x ∷ xs
      → IsPicked ops laws (seen ++ (slot ∷ [])) (taken ops s (ops.advance slot.iter).1 (some x.0))
  unfolding taken
  came-IsPicked seen (Picked.none_yet iters) slot x xs p e =
      let at = subst (IsAt slot.iter) e slot.at in
      let (v, k, w) = laws.current_on slot.iter x xs at in
      record {
        front = p.slots;
        back = [];
        entry = x;
        rest = xs;
        is_before = p.is_iters;
        is_behind = refl;
        on = record {
          at = (laws.advance_on slot.iter x xs at).1;
          is_valid = v;
          is_key = k;
          is_value = w;
          back = laws.prev_back slot.iter x xs at;
        };
        is_key = refl;
        above_front = ended-IsBehind ops laws x.0 p.slots p.ended;
        above_back = tt;
        ascending = subst IsAscending e slot.ascending;
        same = λ key.
            ap (λ t. otherwise t (otherwise (find_entry key (x ∷ xs)) none))
              (ended-newest ops laws key p.slots p.ended)
            ∙ otherwise-none (find_entry key (x ∷ xs))
            ∙ sym (
                newest_of_snoc ops laws key seen slot
                ∙ ap (λ t. otherwise t (find_entry key slot.rest)) (p.nothing key)
                ∙ ap (find_entry key) e);
        smaller = omega (
          arith,
          ended-total ops laws p.slots p.ended,
          total-append ops laws seen (slot ∷ []),
          ap length e,
        );
      }
  came-IsPicked seen (Picked.picked before chosen pk behind) slot x xs p e =
      go (bytes_lt x.0 pk) refl (bytes_lt pk x.0) refl
    where
      at : IsAt slot.iter (x ∷ xs)
      at = subst (IsAt slot.iter) e slot.at

      asc : IsAscending (x ∷ xs)
      asc = subst IsAscending e slot.ascending

      snoc :
          (key : Slice)
          → newest_of ops laws key (seen ++ (slot ∷ []))
            ≡ otherwise (newest_of ops laws key seen) (find_entry key (x ∷ xs))
      snoc key =
          newest_of_snoc ops laws key seen slot
          ∙ ap (λ r. otherwise (newest_of ops laws key seen) (find_entry key r)) e

      more : total ops laws (seen ++ (slot ∷ [])) ≡ total ops laws seen + suc (length xs)
      more = omega (arith, total-append ops laws seen (slot ∷ []), ap length e)

      go :
          (b : Bool)
          → bytes_lt x.0 pk ≡ b
          → (c : Bool) → bytes_lt pk x.0 ≡ c
          → IsPicked ops laws (seen ++ (slot ∷ [])) (
              if b
              then Picked.picked
                  (before ++ ((ops.prev chosen).1 ∷ behind))
                  (ops.advance slot.iter).1
                  x.0
                  []
              else if c
              then Picked.picked before chosen pk
                  (behind ++ ((ops.prev (ops.advance slot.iter).1).1 ∷ []))
              else Picked.picked before chosen pk (behind ++ ((ops.advance slot.iter).1 ∷ [])))
      go true h c k =
          let (v, kk, w) = laws.current_on slot.iter x xs at in
          let old : Slot ops laws = record {
            iter = (ops.prev chosen).1;
            rest = p.entry ∷ p.rest;
            at = p.on.back;
            ascending = p.ascending;
          } in
          let h' : bytes_lt x.0 p.entry.0 ≡ true = ap (bytes_lt x.0) p.is_key ∙ h in
          record {
            front = p.front ++ (old ∷ p.back);
            back = [];
            entry = x;
            rest = xs;
            is_before =
                iters_of-append ops laws p.front (old ∷ p.back)
                ∙ ap (λ t. t ++ (old.iter ∷ iters_of ops laws p.back)) p.is_before
                ∙ ap (λ t. before ++ (old.iter ∷ t)) p.is_behind;
            is_behind = refl;
            on = record {
              at = (laws.advance_on slot.iter x xs at).1;
              is_valid = v;
              is_key = kk;
              is_value = w;
              back = laws.prev_back slot.iter x xs at;
            };
            is_key = refl;
            above_front =
                All-append _ p.front (old ∷ p.back)
                  (IsBehind-trans ops laws x.0 p.entry.0 p.front h' p.above_front)
                  (
                    (h', IsAbove-trans x.0 p.entry.0 p.rest h' p.ascending.0),
                    IsBehind-trans ops laws x.0 p.entry.0 p.back h' p.above_back,
                  );
            above_back = tt;
            ascending = asc;
            same = λ key.
                ap (otherwise (newest_of ops laws key (p.front ++ (old ∷ p.back))))
                  (otherwise-none (find_entry key (x ∷ xs)))
                ∙ ap (λ t. otherwise t (find_entry key (x ∷ xs)))
                    (newest_of-append ops laws key p.front (old ∷ p.back) ∙ p.same key)
                ∙ sym (snoc key);
            smaller = omega (arith, p.smaller, total-append ops laws p.front (old ∷ p.back), more);
          }
      go false h true k =
          let again : Slot ops laws = record {
            iter = (ops.prev (ops.advance slot.iter).1).1;
            rest = x ∷ xs;
            at = laws.prev_back slot.iter x xs at;
            ascending = asc;
          } in
          let k' : bytes_lt p.entry.0 x.0 ≡ true = ap (λ t. bytes_lt t x.0) p.is_key ∙ k in
          record {
            front = p.front;
            back = p.back ++ (again ∷ []);
            entry = p.entry;
            rest = p.rest;
            is_before = p.is_before;
            is_behind =
                iters_of-append ops laws p.back (again ∷ [])
                ∙ ap (λ t. t ++ (again.iter ∷ [])) p.is_behind;
            on = p.on;
            is_key = p.is_key;
            above_front = p.above_front;
            above_back =
                All-append _ p.back (again ∷ []) p.above_back
                  ((k', IsAbove-trans p.entry.0 x.0 xs k' asc.0), tt);
            ascending = p.ascending;
            same = λ key.
                ap
                  (λ t.
                    otherwise (newest_of ops laws key p.front)
                      (otherwise (find_entry key (p.entry ∷ p.rest)) t))
                  (newest_of_snoc ops laws key p.back again)
                ∙ cell_same (find_entry key (p.entry ∷ p.rest)) (newest_of ops laws key p.front)
                    (newest_of ops laws key p.back) (find_entry key (x ∷ xs))
                ∙ ap (λ t. otherwise t (find_entry key (x ∷ xs))) (p.same key)
                ∙ sym (snoc key);
            smaller = omega (arith, p.smaller, total-append ops laws p.back (again ∷ []), more);
          }
      go false h false k =
          let left : Slot ops laws = record {
            iter = (ops.advance slot.iter).1;
            rest = xs;
            at = (laws.advance_on slot.iter x xs at).1;
            ascending = asc.1;
          } in
          let q : x.0 ≡ p.entry.0 = bytes_lt_total x.0 pk h k ∙ sym p.is_key in
          record {
            front = p.front;
            back = p.back ++ (left ∷ []);
            entry = p.entry;
            rest = p.rest;
            is_before = p.is_before;
            is_behind =
                iters_of-append ops laws p.back (left ∷ [])
                ∙ ap (λ t. t ++ (left.iter ∷ [])) p.is_behind;
            on = p.on;
            is_key = p.is_key;
            above_front = p.above_front;
            above_back =
                All-append _ p.back (left ∷ []) p.above_back
                  (subst (λ t. IsAbove t xs) q asc.0, tt);
            ascending = p.ascending;
            same = λ key.
                ap
                  (λ t.
                    otherwise (newest_of ops laws key p.front)
                      (otherwise (find_entry key (p.entry ∷ p.rest)) t))
                  (newest_of_snoc ops laws key p.back left)
                ∙ dropped_same (bytes_eq p.entry.0 key) (newest_of ops laws key p.front)
                    (newest_of ops laws key p.back) (find_entry key xs) p.entry.1 x.1
                    (find_entry key p.rest)
                ∙ ap
                    (λ t.
                      otherwise
                        (otherwise (newest_of ops laws key p.front) (
                          otherwise (find_entry key (p.entry ∷ p.rest))
                            (newest_of ops laws key p.back)))
                        (if bytes_eq t key then some x.1 else find_entry key xs))
                    (sym q)
                ∙ ap (λ t. otherwise t (find_entry key (x ∷ xs))) (p.same key)
                ∙ sym (snoc key);
            smaller = omega (arith, p.smaller, total-append ops laws p.back (left ∷ []), more);
          }

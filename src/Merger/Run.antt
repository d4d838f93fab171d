-- ===== src/Merger/Run.antt =====
-- The merge from its first round to its end.
use mirdb.Prelude.{
  ℕ, zero, suc, ◌<◌, ◌≡◌, refl, sym, ap, ◌∙◌, ◌⊎◌, Bool, true, false, Option, none, some, List, [],
  ◌∷◌, ◌++◌, append_assoc, append-nil, length, get_elem?, if◌then◌else◌, ◌||◌, All-append, Slice,
  bytes_eq, bytes_eq→eq, bytes_eq_refl, bytes_lt, bytes_lt_total, bind, inl, inr, arith,
}
use mathlib.Core.Path.{subst}
use mirdb.Merger.{
  IterOps, Merger, Picked, taken, key_of, pick, settled, advance_merger, any_valid, merger_kv,
  merger_next, merged,
}
use mirdb.Merger.Newest.{Input, find_entry, otherwise, IsAbove, IsAscending}
use mirdb.Merger.Slots.{
  IterLaws, Slot, iters_of, total, newest_of, IsBehind, IsOn, IsNone, IsChosen, IsPicked,
  key_of-false, key_of-true, newest_of-append, newest_of-IsBehind, IsBehind-trans, iters_of-append,
  total-append,
}
use mirdb.Merger.Advance.{came-IsPicked, ended-IsPicked}

Input-cases : (r : Input) → (r ≡ []) ⊎ ((x : Slice × Slice) × (xs : Input) × (r ≡ x ∷ xs))
Input-cases [] = inl refl
Input-cases (x ∷ xs) = inr (x, xs, refl)

get_elem?-middle :
    {A : Type 0} (xs ys : List A) (a : A) → get_elem? (xs ++ (a ∷ ys)) (length xs) ≡ some a
get_elem?-middle [] ys a = refl
get_elem?-middle (x ∷ xs) ys a = get_elem?-middle xs ys a

module _ (ops : IterOps) (laws : IterLaws ops) where
  pick-IsPicked :
      (slots seen : List (Slot ops laws)) (s : Picked ops)
      → IsPicked ops laws seen s
      → IsPicked ops laws (seen ++ slots) (pick ops s (iters_of ops laws slots))
  unfolding pick
  pick-IsPicked [] seen s p = subst (λ t. IsPicked ops laws t s) (sym (append-nil seen)) p
  pick-IsPicked (slot ∷ slots) seen s p =
      let adv = ops.advance slot.iter in
      let one : IsPicked ops laws (seen ++ (slot ∷ [])) (taken ops s adv.1 (key_of ops adv)) =
        elim (Input-cases slot.rest) [
          | inl e ↦
              let a = laws.advance_end slot.iter (subst (laws.IsAt slot.iter) e slot.at) in
              subst (λ k. IsPicked ops laws (seen ++ (slot ∷ [])) (taken ops s adv.1 k))
                (sym (key_of-false ops laws adv a.0)) (ended-IsPicked ops laws seen s slot p e)
          | inr (x, xs, e) ↦
              let at = subst (laws.IsAt slot.iter) e slot.at in
              let a = laws.advance_on slot.iter x xs at in
              let (v, k, w) = laws.current_on slot.iter x xs at in
              subst (λ k. IsPicked ops laws (seen ++ (slot ∷ [])) (taken ops s adv.1 k))
                (sym (key_of-true ops laws adv a.0 ∙ k))
                (came-IsPicked ops laws seen s slot x xs p e)
        ] in
      subst
        (λ t.
          IsPicked ops laws t
            (pick ops (taken ops s adv.1 (key_of ops adv)) (iters_of ops laws slots)))
        (append_assoc seen (slot ∷ []) slots)
        (pick-IsPicked slots (seen ++ (slot ∷ [])) (taken ops s adv.1 (key_of ops adv)) one)

  -- A round that gives an entry.
  pub record IsGiven (slots : List (Slot ops laws)) (m : Merger ops) : Type 0 where
    pub entry : Slice × Slice
    pub m' : Merger ops
    pub slots' : List (Slot ops laws)
    pub done : merger_next ops m ≡ (some entry, m')
    pub is_iters : iters_of ops laws slots' ≡ m'.iters
    pub split :
        (key : Slice)
        → newest_of ops laws key slots
          ≡ (if bytes_eq entry.0 key then some entry.1 else newest_of ops laws key slots')
    pub above : IsBehind ops laws entry.0 slots'
    pub smaller : total ops laws slots' < total ops laws slots

  any_valid-append :
      (xs ys : List ops.Iter) (a : ops.Iter)
      → ops.valid a ≡ true
      → any_valid ops (xs ++ (a ∷ ys)) ≡ true
  any_valid-append [] ys a h = rw (h)
  any_valid-append (x ∷ xs) ys a h = go (ops.valid x) (any_valid-append xs ys a h)
    where
      go :
          (b : Bool)
          → any_valid ops (xs ++ (a ∷ ys)) ≡ true
          → (b || any_valid ops (xs ++ (a ∷ ys))) ≡ true
      go true e = refl
      go false e = e

  kv_lem :
      (before behind : List ops.Iter) (chosen : ops.Iter) (e : Slice × Slice) (rest : Input)
      → IsOn ops laws chosen e rest
      → merger_kv ops (record { iters = before ++ (chosen ∷ behind); i = some (length before) })
        ≡ some e
  unfolding merger_kv
  kv_lem before behind chosen e rest on =
      let v = any_valid-append before behind chosen on.is_valid in
      let g = get_elem?-middle before behind chosen in
      rw (merger_kv, v, g, bind, on.is_key, on.is_value)

  given :
      (slots : List (Slot ops laws)) (m : Merger ops) (before behind : List ops.Iter)
      (chosen : ops.Iter) (pk : Slice)
      → advance_merger ops m ≡ settled ops (Picked.picked before chosen pk behind)
      → IsChosen ops laws slots before chosen pk behind
      → IsGiven slots m
  unfolding merger_next
  given slots m before behind chosen pk a p =
      let here : Slot ops laws = record {
        iter = chosen;
        rest = p.rest;
        at = p.on.at;
        ascending = p.ascending.1;
      } in
      let m' : Merger ops = record {
        iters = before ++ (chosen ∷ behind);
        i = some (length before);
      } in
      record {
        entry = p.entry;
        m' = m';
        slots' = p.front ++ (here ∷ p.back);
        done = rw (merger_next, a, kv_lem before behind chosen p.entry p.rest p.on);
        is_iters =
            iters_of-append ops laws p.front (here ∷ p.back)
            ∙ ap (λ t. t ++ (chosen ∷ iters_of ops laws p.back)) p.is_before
            ∙ ap (λ t. before ++ (chosen ∷ t)) p.is_behind;
        split = λ key.
            sym (p.same key)
            ∙ go key (bytes_eq p.entry.0 key) refl
            ∙ ap (λ t. if bytes_eq p.entry.0 key then some p.entry.1 else t)
                (sym (newest_of-append ops laws key p.front (here ∷ p.back)));
        above = All-append _ p.front (here ∷ p.back) p.above_front (p.ascending.0, p.above_back);
        smaller = omega (arith, p.smaller, total-append ops laws p.front (here ∷ p.back));
      }
    where
      go :
          (key : Slice) (b : Bool)
          → bytes_eq p.entry.0 key ≡ b
          → otherwise (newest_of ops laws key p.front) (
              otherwise
                (if b then some p.entry.1 else find_entry key p.rest)
                (newest_of ops laws key p.back))
            ≡ (if b
                then some p.entry.1
                else otherwise
                    (newest_of ops laws key p.front)
                    (otherwise (find_entry key p.rest) (newest_of ops laws key p.back)))
      go key true e =
          let q = bytes_eq→eq p.entry.0 key e in
          let f =
            newest_of-IsBehind ops laws key p.front
              (subst (λ k. IsBehind ops laws k p.front) q p.above_front) in
          rw (f)
      go key false e = refl

  -- A round of the merge: nothing is left of any input, or it gives an entry.
  merger_next-cases :
      (slots : List (Slot ops laws)) (m : Merger ops)
      → iters_of ops laws slots ≡ m.iters
      → (((merger_next ops m).0 ≡ none) × ((key : Slice) → newest_of ops laws key slots ≡ none))
        ⊎ IsGiven slots m
  unfolding merger_next advance_merger
  merger_next-cases slots m e =
      let start : IsNone ops laws [] [] = record {
        slots = [];
        is_iters = refl;
        ended = tt;
        nothing = λ key. refl;
      } in
      let p =
        subst (λ t. IsPicked ops laws slots (pick ops (Picked.none_yet []) t)) e
          (pick-IsPicked slots [] (Picked.none_yet []) start) in
      go (pick ops (Picked.none_yet []) m.iters) refl p
    where
      go :
          (s : Picked ops)
          → pick ops (Picked.none_yet []) m.iters ≡ s
          → IsPicked ops laws slots s
          → (((merger_next ops m).0 ≡ none) × ((key : Slice) → newest_of ops laws key slots ≡ none))
            ⊎ IsGiven slots m
      go (Picked.none_yet iters) q p = inl (rw (merger_next, advance_merger, q), p.nothing)
      go (Picked.picked before chosen pk behind) q p =
          inr (given slots m before behind chosen pk (rw (advance_merger, q)) p)

  -- What comes below every key is below the entry that is given.
  below_given :
      (slots : List (Slot ops laws)) (m : Merger ops) (g : IsGiven slots m) (k : Slice)
      → IsBehind ops laws k slots
      → bytes_lt k g.entry.0 ≡ true
  below_given slots m g k h = go (bytes_lt k g.entry.0) refl (bytes_lt g.entry.0 k) refl
    where
      there : newest_of ops laws g.entry.0 slots ≡ some g.entry.1
      there = let r = bytes_eq_refl g.entry.0 in g.split g.entry.0 ∙ rw (r)

      go :
          (b : Bool)
          → bytes_lt k g.entry.0 ≡ b
          → (c : Bool) → bytes_lt g.entry.0 k ≡ c
          → bytes_lt k g.entry.0 ≡ true
      go true e c f = e
      go false e true f =
          let n =
            newest_of-IsBehind ops laws g.entry.0 slots
              (IsBehind-trans ops laws g.entry.0 k slots f h) in
          let t = there in cc
      go false e false f =
          let q = bytes_lt_total k g.entry.0 e f in
          let n =
            newest_of-IsBehind ops laws g.entry.0 slots
              (subst (λ x. IsBehind ops laws x slots) q h) in
          let t = there in cc

  -- What the merge gives.
  pub record IsMerged (slots : List (Slot ops laws)) (o : Option (List (Slice × Slice)))
      : Type 0 where
    pub entries : List (Slice × Slice)
    pub done : o ≡ some entries
    pub ascending : IsAscending entries
    pub newest : (key : Slice) → find_entry key entries ≡ newest_of ops laws key slots

  merged_from :
      (fuel : ℕ) (slots : List (Slot ops laws)) (m : Merger ops)
      → iters_of ops laws slots ≡ m.iters
      → total ops laws slots < fuel
      → (w : IsMerged slots (merged ops fuel m)) × ((k : Slice)
          → IsBehind ops laws k slots
          → IsAbove k w.entries)
  unfolding merged
  merged_from zero slots m e l = absurd (omega arith)
  merged_from (suc fuel) slots m e l = elim (merger_next-cases slots m e) [
    | inl (n, h) ↦ (
      record { entries = []; done = rw (merged, n); ascending = tt; newest = λ key. sym (h key) },
      λ k b. tt,
    )
    | inr g ↦
        let (w, a) = merged_from fuel g.slots' g.m' g.is_iters (omega (arith, g.smaller)) in
        let above = a g.entry.0 g.above in
        (
          record {
            entries = g.entry ∷ w.entries;
            done = rw (merged, g.done, g.done, w.done);
            ascending = (above, w.ascending);
            newest = λ key.
                ap (λ t. if bytes_eq g.entry.0 key then some g.entry.1 else t) (w.newest key)
                ∙ sym (g.split key);
          },
          λ k b.
              let u = below_given slots m g k b in
              (u, a k (IsBehind-trans ops laws k g.entry.0 g.slots' u g.above)),
        )
  ]

  -- The merge of iterators over ascending inputs comes to its end and gives each key once, in ascending
  -- order, with the value of the first input that has the key. One round more than the inputs have
  -- entries is enough.
  pub merged-IsMerged :
      (slots : List (Slot ops laws)) (fuel : ℕ)
      → total ops laws slots < fuel
      → IsMerged slots (merged ops fuel (record { iters = iters_of ops laws slots; i = none }))
  merged-IsMerged slots fuel l =
      (merged_from fuel slots (record { iters = iters_of ops laws slots; i = none }) refl l).0

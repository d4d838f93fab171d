-- ===== src/Merger/Tests.antt =====
-- A merge of iterators over lists.
use mirdb.Prelude.{◌≡◌, refl, Bool, true, false, Option, none, some, [], ◌∷◌, Slice, codes, arith}
use mirdb.Merger.{IterOps, merged}
use mirdb.Merger.Newest.{Input}
use mirdb.Merger.Slots.{IterLaws, Slot}
use mirdb.Merger.Run.{IsMerged, merged-IsMerged}

-- The entries passed, the last one first, and those to come.
record Place : Type 0 where
  passed : Input
  coming : Input
  live : Bool

abbrev step_on : Place → Bool × Place
step_on p = elim p.coming [
  | [] ↦ (false, record { passed = p.passed; coming = []; live = false })
  | e ∷ es ↦ (true, record { passed = e ∷ p.passed; coming = es; live = true })
]

abbrev step_back : Place → Bool × Place
step_back p = elim p.passed [
  | [] ↦ (false, p)
  | e ∷ es ↦ (true, record { passed = es; coming = e ∷ p.coming; live = true })
]

abbrev shown : Place → Option (Slice × Slice)
shown p = elim p.passed [ [] ↦ none | e ∷ es ↦ some e ]

abbrev list_iters : IterOps
list_iters = record {
  Iter = Place;
  valid = λ p. p.live;
  advance = step_on;
  prev = step_back;
  current_k = λ p. elim (shown p) [ none ↦ none | some e ↦ some e.0 ];
  current_v = λ p. elim (shown p) [ none ↦ none | some e ↦ some e.1 ];
}

abbrev came_to : Place → Input → Place
came_to p coming = record { passed = p.passed; coming = coming; live = p.live }

abbrev list_laws : IterLaws list_iters
list_laws = record {
  IsAt = λ p r. p.coming ≡ r;
  advance_end = λ p h. rw (h) (refl, refl);
  advance_on = λ p e es h. rw (h) (refl, refl);
  current_on = λ p e es h. rw (h) (refl, refl, refl);
  prev_back = λ p e es h. rw (h) refl;
}

abbrev start_of : Input → Place
start_of r = record { passed = []; coming = r; live = false }

abbrev newer : Slot list_iters list_laws
newer = record {
  iter = start_of ((codes "b", codes "1") ∷ (codes "c", codes "2") ∷ []);
  rest = (codes "b", codes "1") ∷ (codes "c", codes "2") ∷ [];
  at = refl;
  ascending = ((refl, tt), (tt, tt));
}

abbrev older : Slot list_iters list_laws
older = record {
  iter = start_of ((codes "a", codes "3") ∷ (codes "b", codes "4") ∷ []);
  rest = (codes "a", codes "3") ∷ (codes "b", codes "4") ∷ [];
  at = refl;
  ascending = ((refl, tt), (tt, tt));
}

merged-IsMerged_example :
    IsMerged list_iters list_laws
      (newer ∷ older ∷ [])
      (merged list_iters 5 (record { iters = newer.iter ∷ older.iter ∷ []; i = none }))
merged-IsMerged_example = merged-IsMerged list_iters list_laws (newer ∷ older ∷ []) 5 (omega arith)

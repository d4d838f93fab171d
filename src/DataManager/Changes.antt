-- ===== src/DataManager/Changes.antt =====
-- What `insert` and `remove` do to the view.
use mirdb.Prelude.{
  ◌≡◌, refl, sym, ap, ◌∙◌, Bool, true, false, Option, none, some, List, length, leb, Slice,
  bytes_eq, bytes_eq→eq, if◌then◌else◌,
}
use mathlib.Core.Path.{subst}
use mirdb.Error.{MyResult, Action, pure, pass}
use mirdb.Payload.{StorePayload}
use mirdb.Memtable
use mirdb.Levels.Lookup.{AreLevels, candidates, first_content, first_some}
use mirdb.Wal.Segments.{Wal, append, new_seg, current_seg_size}
use mirdb.DataManager.{
  Parts, DataManager, with_wal, with_muttable, on_wal, rotated, find_memory, insert_table, insert_,
  insert_with_option, insert, and_then, get, remove_found, remove,
}
use mirdb.DataManager.View.{
  PartLaws, payload_of, shown, view, IsOpen, find_memory-newest_in, get-view,
}

pass-state : {S A B : Type 0} (b : B) (p : S × MyResult A) → (pass (λ _. pure b) p).0 ≡ p.0
pass-state b (s, MyResult.ok a) = refl
pass-state b (s, MyResult.err e) = refl
pass-state b (s, MyResult.panic) = refl

module _ (parts : Parts) (laws : PartLaws parts) where
  -- The second state has the entry on top of what the first has, and the same levels.
  abbrev pub Entered : Slice → Slice → DataManager parts → DataManager parts → Type 0
  Entered k b s s' =
      (s'.levels ≡ s.levels)
      × ((j : Slice)
          → find_memory parts s' j ≡ (if bytes_eq k j then some b else find_memory parts s j))

  muttable-Entered :
      (k b : Slice) (s : DataManager parts)
      → Entered k b s (with_muttable parts s (Memtable.insert parts.maps k b s.muttable).0)
  unfolding find_memory
  muttable-Entered k b s = (refl, λ j. go j (bytes_eq k j) refl)
    where
      go :
          (j : Slice) (c : Bool)
          → bytes_eq k j ≡ c
          → find_memory parts
              (with_muttable parts s (Memtable.insert parts.maps k b s.muttable).0)
              j
            ≡ (if c then some b else find_memory parts s j)
      go j true e = rw (find_memory, laws.maps_laws.find_put k j b s.muttable.map, e)
      go j false e = rw (find_memory, laws.maps_laws.find_put k j b s.muttable.map, e)

  rotated-memory :
      (s : DataManager parts) (j : Slice)
      → find_memory parts (rotated parts s) j ≡ find_memory parts s j
  unfolding find_memory
  rotated-memory s j =
      ap
        (λ o. elim o as (λ x. Option Slice) [
          | none ↦ elim (parts.maps.find j (parts.maps.clone s.muttable.map)) [
            | none ↦ Memtable.get_list parts.maps j s.immuttable
            | some v ↦ some v
          ]
          | some r ↦ some r
        ])
        (laws.maps_laws.find_cleared j s.muttable.map)
      ∙ ap
          (λ o. elim o as (λ x. Option Slice) [
            | none ↦ Memtable.get_list parts.maps j s.immuttable
            | some v ↦ some v
          ])
          (laws.maps_laws.find_clone j s.muttable.map)

  on_wal-memory :
      {A : Type 0} (f : Action Wal A) (s : DataManager parts) (j : Slice)
      → find_memory parts (on_wal parts f s).0 j ≡ find_memory parts s j
  unfolding find_memory
  on_wal-memory f s j = refl

  pub insert_table-Entered :
      (k b : Slice) (s : DataManager parts) → Entered k b s (insert_table parts k b s).0
  unfolding insert_table
  insert_table-Entered k b s =
      go (leb parts.mem_table_max_size (current_seg_size (with_muttable parts s done.0).wal))
    where
      done : Memtable.Memtable parts.maps × Option Slice
      done = Memtable.insert parts.maps k b s.muttable

      s' : DataManager parts
      s' = with_muttable parts s (Memtable.insert parts.maps k b s.muttable).0

      rotation : Entered k b s (on_wal parts (new_seg parts.logs) (rotated parts s')).0
      rotation = (
        refl,
        λ j.
            on_wal-memory (new_seg parts.logs) (rotated parts s') j
            ∙ rotated-memory s' j
            ∙ (muttable-Entered k b s).1 j,
      )

      go :
          (c : Bool)
          → Entered k b s
              (if c
                then pass
                    (λ _. pure (Memtable.insert parts.maps k b s.muttable).1)
                    (on_wal parts (new_seg parts.logs) (rotated parts s'))
                else (s', MyResult.ok (Memtable.insert parts.maps k b s.muttable).1)).0
      go true = subst (Entered k b s) (sym (pass-state _ _)) rotation
      go false = muttable-Entered k b s

  insert_-Entered :
      (k b : Slice) (s : DataManager parts) (r : Option Slice)
      → (insert_ parts k b s).1 ≡ MyResult.ok r
      → Entered k b s (insert_ parts k b s).0
  unfolding insert_
  insert_-Entered k b s r h = go (append parts.logs k b s.wal) h
    where
      go :
          (p : Wal × MyResult (Unit {0}))
          → (pass (λ _. insert_table parts k b) (with_wal parts s p.0, p.1)).1 ≡ MyResult.ok r
          → Entered k b s (pass (λ _. insert_table parts k b) (with_wal parts s p.0, p.1)).0
      go (w, MyResult.ok u) h =
          let (l, m) = insert_table-Entered k b (with_wal parts s w) in
          (
            l,
            λ j.
                m j
                ∙ ap (λ o. if bytes_eq k j then some b else o)
                    (on_wal-memory (λ _. (w, MyResult.ok tt)) s j),
          )
      go (w, MyResult.err x) h = cc
      go (w, MyResult.panic) h = cc

  -- The view of the second state is that of the first but for one key.
  abbrev pub Changed : Slice → Option StorePayload → DataManager parts → DataManager parts → Type 0
  Changed k v s s' =
      IsOpen parts laws s'
      × ((j : Slice) → view parts laws s' j ≡ (if bytes_eq k j then v else view parts laws s j))

  Entered-Changed :
      (k b : Slice) (v : Option StorePayload) (s s' : DataManager parts)
      → IsOpen parts laws s
      → parts.deserialize b ≡ MyResult.ok v
      → Entered k b s s'
      → Changed k v s s'
  Entered-Changed k b v s s' (n, a) e (l, m) = (
    (ap length l ∙ n, subst (AreLevels parts.readers laws.readers_laws 0) (sym l) a),
    λ j.
        ap (λ o. shown parts laws (first_some o (below s'.levels j)))
          (sym (find_memory-newest_in parts laws s' j) ∙ m j)
        ∙ ap
            (λ levels. shown parts laws (
              first_some (if bytes_eq k j then some b else find_memory parts s j) (below levels j)))
            l
        ∙ entered j (bytes_eq k j),
  )
    where
      below : List (List parts.readers.Reader) → Slice → Option Slice
      below levels j =
          first_content parts.readers laws.readers_laws j
            (candidates parts.readers laws.readers_laws 0 levels)

      entered :
          (j : Slice) (c : Bool)
          → shown parts laws (
              first_some (if c then some b else find_memory parts s j) (
                first_content parts.readers laws.readers_laws j
                  (candidates parts.readers laws.readers_laws 0 s.levels)))
            ≡ (if c then v else view parts laws s j)
      entered j true = ap payload_of e
      entered j false =
          ap (λ o. shown parts laws (first_some o (below s.levels j)))
            (find_memory-newest_in parts laws s j)

  insert_with_option-Changed :
      (k : Slice) (v : Option StorePayload) (s : DataManager parts) (r : Option StorePayload)
      → IsOpen parts laws s
      → (insert_with_option parts k v s).1 ≡ MyResult.ok r
      → Changed k v s (insert_with_option parts k v s).0
  unfolding insert_with_option
  insert_with_option-Changed k v s r o h = go (parts.serialize v) refl h
    where
      stored :
          (b : Slice)
          → parts.serialize v ≡ MyResult.ok b
          → (p : DataManager parts × MyResult (Option Slice))
          → ((q : Option Slice) → p.1 ≡ MyResult.ok q → Entered k b s p.0)
          → (pass (λ q. pure (and_then parts q v)) p).1 ≡ MyResult.ok r
          → Changed k v s (pass (λ q. pure (and_then parts q v)) p).0
      stored b e (s', MyResult.ok q) f h =
          Entered-Changed k b v s s' o (laws.deserialize_serialize v b e) (f q refl)
      stored b e (s', MyResult.err x) f h = cc
      stored b e (s', MyResult.panic) f h = cc

      go :
          (c : MyResult Slice)
          → parts.serialize v ≡ c
          → (pass (λ b s'. pass (λ q. pure (and_then parts q v)) (insert_ parts k b s')) (s, c)).1
            ≡ MyResult.ok r
          → Changed k v s
              (pass (λ b s'. pass (λ q. pure (and_then parts q v)) (insert_ parts k b s')) (s, c)).0
      go (MyResult.ok b) e h = stored b e (insert_ parts k b s) (insert_-Entered k b s) h
      go (MyResult.err x) e h = cc
      go MyResult.panic e h = cc

-- An insert that succeeds shows the payload at its key from then on and leaves what the other keys show,
-- whether or not it made a new table; the levels stay in order.
pub insert-Changed :
    (parts : Parts) (laws : PartLaws parts) (k : Slice) (v : StorePayload) (s : DataManager parts)
    (r : Option StorePayload)
    → IsOpen parts laws s
    → (insert parts k v s).1 ≡ MyResult.ok r
    → Changed parts laws k (some v) s (insert parts k v s).0
unfolding insert
insert-Changed parts laws k v s r o h = insert_with_option-Changed parts laws k (some v) s r o h

absent-Changed :
    (parts : Parts) (laws : PartLaws parts) (k : Slice) (s : DataManager parts)
    → IsOpen parts laws s
    → none ≡ view parts laws s k
    → Changed parts laws k none s s
absent-Changed parts laws k s o e = (o, λ j. go j (bytes_eq k j) refl)
  where
    go :
        (j : Slice) (c : Bool)
        → bytes_eq k j ≡ c
        → view parts laws s j ≡ (if c then none else view parts laws s j)
    go j true h = ap (view parts laws s) (sym (bytes_eq→eq k j h)) ∙ sym e
    go j false h = refl

-- A removal that succeeds answers what the key has shown; from then on the key shows nothing, and the
-- other keys show what they did; the levels stay in order.
pub remove-Changed :
    (parts : Parts) (laws : PartLaws parts) (k : Slice) (s : DataManager parts)
    (r : Option StorePayload)
    → IsOpen parts laws s
    → (remove parts k s).1 ≡ MyResult.ok r
    → (r ≡ view parts laws s k) × Changed parts laws k none s (remove parts k s).0
unfolding remove remove_found get
remove-Changed parts laws k s r o h =
    go (get parts k s).1 (λ q e. (get-view parts laws s k q o e).0) h
  where
    removed :
        (v : StorePayload)
        → some v ≡ view parts laws s k
        → (p : DataManager parts × MyResult (Option StorePayload))
        → ((q : Option StorePayload) → p.1 ≡ MyResult.ok q → Changed parts laws k none s p.0)
        → (pass (λ _. pure (some v)) p).1 ≡ MyResult.ok r
        → (r ≡ view parts laws s k) × Changed parts laws k none s (pass (λ _. pure (some v)) p).0
    removed v e (s', MyResult.ok q) f h = (cc, f q refl)
    removed v e (s', MyResult.err x) f h = cc
    removed v e (s', MyResult.panic) f h = cc

    go :
        (c : MyResult (Option StorePayload))
        → ((q : Option StorePayload) → c ≡ MyResult.ok q → q ≡ view parts laws s k)
        → (pass (remove_found parts k) (s, c)).1 ≡ MyResult.ok r
        → (r ≡ view parts laws s k)
          × Changed parts laws k none s (pass (remove_found parts k) (s, c)).0
    go (MyResult.ok none) f h = (cc (f none refl), absent-Changed parts laws k s o (f none refl))
    go (MyResult.ok (some v)) f h =
        removed v (f (some v) refl) (insert_with_option parts k none s)
          (λ q e. insert_with_option-Changed parts laws k none s q o e) h
    go (MyResult.err x) f h = cc
    go MyResult.panic f h = cc

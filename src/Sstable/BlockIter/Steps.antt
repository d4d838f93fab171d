-- ===== src/Sstable/BlockIter/Steps.antt =====
-- The iterator over a run of entries.
use mirdb.Prelude.{
  bind, ℕ, zero, suc, ◌+◌, ◌-◌, ◌*◌, ◌≤◌, ◌<◌, ◌≡◌, refl, sym, ap, ◌∙◌, ◌≢◌, inl, inr, true, false,
  some, List, [], ◌∷◌, ◌++◌, append_assoc, length, length-append, length-drop, take, drop, ltb, leb,
  All, Slice, bytes_eq, Bool-cases, le→leb, lt→ltb, slice, slice-some, ltb→lt, arith,
}
use mathlib.Core.Path.{subst}
use mirdb.ParserUtil.{usize_bound}
use mirdb.Sstable.Codec.{CodecOps, CodecLaws}
use mirdb.Sstable.Builder.{entry_bytes}
use mirdb.Sstable.Builder.Runs.{Entry, IsShared, IsRun}
use mirdb.Sstable.BlockIter.{
  BlockIterState, at_offset, with_restart_idx, valid, restart_count, get_restart_point_offset,
  advance_idx, advance, current_k, current_v, current_kv, next_item, items,
}
use mirdb.Sstable.BlockIter.Reading.{head_size, entry_state, read_entry_lem, current_v_lem}

abbrev pub IsEntry : Entry → Type 0
IsEntry e = (e.0 ≢ []) × (length e.0 < usize_bound) × (length e.1 < usize_bound)

module _ (ops : CodecOps) (laws : CodecLaws ops) where
  open ops use {encode_var, decode_var, encode_fixed, decode_fixed}

  -- The restart points that a block ends with can be read.
  abbrev pub HasRestarts : Slice → ℕ → Type 0
  HasRestarts block offset =
      (count : ℕ) × (restart_count ops block ≡ some count) × (offset + 4 * count + 4 ≤ length block)

  get_restart_point_offset-some :
      (block : Slice) (offset idx : ℕ)
      → offset + 4 * idx + 4 ≤ length block
      → (n : ℕ) × (get_restart_point_offset ops block offset idx ≡ some n)
  unfolding get_restart_point_offset
  get_restart_point_offset-some block offset idx h =
      let e = slice-some block (offset + 4 * idx) (offset + 4 * idx + 4) (omega arith) h in
      (
        decode_fixed
            (take ((offset + 4 * idx + 4) - (offset + 4 * idx)) (drop (offset + 4 * idx) block)),
        rw (get_restart_point_offset, e),
      )

  -- The loop over the restart points changes the index of the current one only.
  abbrev AdvancesIdx : ℕ → Slice → ℕ → BlockIterState → Type 0
  AdvancesIdx rounds block count s =
      (idx : ℕ) × (advance_idx ops rounds block count s ≡ some (with_restart_idx s idx))

  advance_idx_step :
      (rounds : ℕ) (block : Slice) (count : ℕ) (s : BlockIterState) (n : ℕ)
      → ltb (s.current_restart_idx + 1) count ≡ true
      → get_restart_point_offset ops block s.restarts_offset (s.current_restart_idx + 1) ≡ some n
      → AdvancesIdx rounds block count (with_restart_idx s (s.current_restart_idx + 1))
      → AdvancesIdx (suc rounds) block count s
  unfolding advance_idx
  advance_idx_step rounds block count s n e r (idx, more) =
      elim (Bool-cases (ltb n s.current_offset)) [
        | inl f ↦ (idx, rw (advance_idx, e, r, bind, f) more)
        | inr f ↦ (s.current_restart_idx, rw (advance_idx, e, r, bind, f))
      ]

  advance_idx_some :
      (rounds : ℕ) (block : Slice) (count : ℕ) (s : BlockIterState)
      → s.restarts_offset + 4 * count + 4 ≤ length block
      → AdvancesIdx rounds block count s
  unfolding advance_idx
  advance_idx_some zero block count s h = (s.current_restart_idx, refl)
  advance_idx_some (suc rounds) block count s h =
      let more =
        advance_idx_some rounds block count (with_restart_idx s (s.current_restart_idx + 1)) h in
      elim (Bool-cases (ltb (s.current_restart_idx + 1) count)) [
        | inr e ↦ (s.current_restart_idx, rw (advance_idx, e))
        | inl e ↦
            let l = ltb→lt _ _ e in
            let (n, r) =
              get_restart_point_offset-some block s.restarts_offset (s.current_restart_idx + 1)
                (omega arith) in
            advance_idx_step rounds block count s n e r more
      ]

  -- The iterator behind the first item of a run.
  pub record IsAfter (block k v : Slice) (offset size : ℕ) (s s' : BlockIterState) : Type 0 where
    pub item : next_item ops block s ≡ some (some (k, v), s')
    pub key : s'.key ≡ k
    pub next : s'.next_offset ≡ offset + size
    pub restarts : s'.restarts_offset ≡ s.restarts_offset

  length-entry_bytes :
      (shared : ℕ) (k v : Slice)
      → length (entry_bytes ops shared k v)
        ≡ head_size ops laws shared k v + (length k - shared) + length v
  length-entry_bytes shared k v =
      let a = encode_var shared in
      let b = encode_var (length k - shared) in
      let c = encode_var (length v) in
      omega (
        arith,
        length-append a (b ++ (c ++ (drop shared k ++ v))),
        length-append b (c ++ (drop shared k ++ v)),
        length-append c (drop shared k ++ v),
        length-append (drop shared k) v,
        length-drop shared k,
      )

  advance_lem :
      (block pre post k v : Slice) (shared : ℕ) (s : BlockIterState)
      → block ≡ pre ++ (entry_bytes ops shared k v ++ post)
      → s.next_offset ≡ length pre
      → s.next_offset < s.restarts_offset
      → HasRestarts block s.restarts_offset
      → IsShared s.key k shared
      → length k < usize_bound
      → length v < usize_bound
      → (idx : ℕ) × (advance ops block s
          ≡ some (
            true,
            with_restart_idx
                (entry_state ops laws s.next_offset shared k v (at_offset s s.next_offset))
                idx,
          ))
  unfolding advance
  advance_lem block pre post k v shared s e f l (count, c, fits) sh hk hv =
      let r =
        read_entry_lem ops laws block pre post k v s.next_offset shared (at_offset s s.next_offset)
          e f sh hk hv in
      let (idx, a) =
        advance_idx_some count block count
          (entry_state ops laws s.next_offset shared k v (at_offset s s.next_offset)) fits in
      let n : leb s.restarts_offset s.next_offset ≡ false = ground arith in
      (idx, rw (advance, n, r, c, a))

  not_empty : (k : Slice) → k ≢ [] → bytes_eq k [] ≡ false
  not_empty [] h = absurd (h refl)
  not_empty (x ∷ k) h = refl

  current_kv_lem :
      (block v : Slice) (s : BlockIterState)
      → s.key ≢ []
      → 0 < s.val_offset
      → s.val_offset ≤ s.restarts_offset
      → slice block s.val_offset s.next_offset ≡ some v
      → current_kv ops block s ≡ some (some (s.key, v))
  unfolding current_kv current_k current_v valid
  current_kv_lem block v s hne a b c =
      let x = not_empty s.key hne in
      let y = lt→ltb 0 s.val_offset a in
      let z = le→leb s.val_offset s.restarts_offset b in
      let e : valid s ≡ true = rw (valid, x, y, z) in rw (current_kv, current_k, e, current_v, e, c)

  next_item-IsAfter :
      (block pre post k v : Slice) (shared : ℕ) (s : BlockIterState)
      → block ≡ pre ++ (entry_bytes ops shared k v ++ post)
      → s.next_offset ≡ length pre
      → s.next_offset + length (entry_bytes ops shared k v) ≤ s.restarts_offset
      → HasRestarts block s.restarts_offset
      → IsShared s.key k shared
      → k ≢ []
      → length k < usize_bound
      → length v < usize_bound
      → (s' : BlockIterState) × IsAfter block k v s.next_offset
          (length (entry_bytes ops shared k v))
          s
          s'
  unfolding next_item
  next_item-IsAfter block pre post k v shared s e f l hr sh hne hk hv =
      let n = length-entry_bytes shared k v in
      let pos = laws.encode_var_some shared in
      let (idx, a) = advance_lem block pre post k v shared s e f (omega arith) hr sh hk hv in
      let s' =
        with_restart_idx (entry_state ops laws s.next_offset shared k v (at_offset s s.next_offset))
          idx in
      let cv = current_v_lem ops laws block pre post k v s.next_offset shared s s' e f refl refl in
      let kv = current_kv_lem block v s' hne (omega arith) (omega arith) cv in
      (s', record { item = rw (next_item, a, kv); key = refl; next = omega arith; restarts = refl })

  pub items-run :
      (es : List Entry) (fuel : ℕ) (block pre run tail : Slice) (s : BlockIterState)
      → block ≡ pre ++ (run ++ tail)
      → IsRun ops s.key es run
      → All IsEntry es
      → s.next_offset ≡ length pre
      → s.restarts_offset ≡ length pre + length run
      → HasRestarts block s.restarts_offset
      → length es < fuel
      → items ops fuel block s ≡ some es
  unfolding items next_item advance
  items-run es zero block pre run tail s e r w f g hr l = absurd (omega arith)
  items-run [] (suc fuel) block pre run tail s e r w f g hr l =
      let n : leb s.restarts_offset s.next_offset ≡ true =
        le→leb _ _ (omega (arith, ap length r)) in
      rw (items, next_item, advance, n)
  items-run (x ∷ es) (suc fuel) block pre run tail s e (shared, rest, sh, eq, r) w f g hr l =
      let bytes = entry_bytes ops shared x.0 x.1 in
      let around : block ≡ pre ++ (bytes ++ (rest ++ tail)) =
        e ∙ ap (λ t. pre ++ t) (ap (λ t. t ++ tail) eq ∙ append_assoc bytes rest tail) in
      let n : length run ≡ length bytes + length rest = ap length eq ∙ length-append bytes rest in
      let (w0, w1, w2) = w.0 in
      let (s', a) =
        next_item-IsAfter block pre (rest ++ tail) x.0 x.1 shared s around f (omega arith) hr sh w0
          w1 w2 in
      let more =
        items-run es fuel block (pre ++ bytes) rest tail s'
          (around ∙ sym (append_assoc pre bytes (rest ++ tail)))
          (subst (λ k. IsRun ops k es rest) (sym a.key) r) w.1
          (omega (arith, a.next, length-append pre bytes))
          (omega (arith, a.restarts, length-append pre bytes))
          (subst (HasRestarts block) (sym a.restarts) hr) (omega arith) in
      rw (items, a.item, more)

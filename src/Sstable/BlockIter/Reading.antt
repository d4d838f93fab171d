-- ===== src/Sstable/BlockIter/Reading.antt =====
-- An entry of a builder, read where it stands in a block.
use mirdb.Prelude.{
  ℕ, ◌+◌, ◌-◌, ◌<◌, ◌≡◌, sym, ap, ◌∙◌, some, ◌++◌, append_assoc, length, length-append, length-drop,
  take, drop, take-append-drop, Slice, slice, slice-middle, slice_from-append, arith,
}
use mirdb.ParserUtil.{usize_bound}
use mirdb.Sstable.Codec.{CodecOps, CodecLaws}
use mirdb.Sstable.Builder.{entry_bytes}
use mirdb.Sstable.Builder.Runs.{IsShared}
use mirdb.Sstable.BlockIter.{BlockIterState, parse_head, read_entry}

module _ (ops : CodecOps) (laws : CodecLaws ops) where
  open ops use {encode_var, decode_var, encode_fixed, decode_fixed}

  parse_head_lem :
      (block pre rest : Slice) (offset a b c : ℕ)
      → block ≡ pre ++ (encode_var a ++ (encode_var b ++ (encode_var c ++ rest)))
      → offset ≡ length pre
      → a < usize_bound
      → b < usize_bound
      → c < usize_bound
      → parse_head ops block offset
        ≡ some (record {
          shared = a;
          non_shared = b;
          val_size = c;
          size = length (encode_var a) + length (encode_var b) + length (encode_var c);
        })
  unfolding parse_head
  parse_head_lem block pre rest offset a b c e f ha hb hc =
      let tail = encode_var c ++ rest in
      let e2 = e ∙ sym (append_assoc pre (encode_var a) (encode_var b ++ tail)) in
      let e3 = e2 ∙ sym (append_assoc (pre ++ encode_var a) (encode_var b) tail) in
      let s1 = slice_from-append pre _ block offset e f in
      let s2 =
        slice_from-append (pre ++ encode_var a) _ block (offset + length (encode_var a)) e2
          (omega (arith, length-append pre (encode_var a))) in
      let s3 =
        slice_from-append ((pre ++ encode_var a) ++ encode_var b) _ block
          (offset + (length (encode_var a) + length (encode_var b))) e3
          (omega (
            arith,
            length-append (pre ++ encode_var a) (encode_var b),
            length-append pre (encode_var a),
          )) in
      rw (
        parse_head,
        s1,
        laws.decode_encode_var a _ ha,
        s2,
        laws.decode_encode_var b _ hb,
        s3,
        laws.decode_encode_var c _ hc,
      )

  abbrev pub head_size : ℕ → Slice → Slice → ℕ
  head_size shared k v =
      length (encode_var shared)
      + length (encode_var (length k - shared))
      + length (encode_var (length v))

  -- The iterator's state behind an entry at the offset.
  abbrev pub entry_state : ℕ → ℕ → Slice → Slice → BlockIterState → BlockIterState
  entry_state offset shared k v s = record {
    key = k;
    current_offset = s.current_offset;
    next_offset = offset + head_size shared k v + (length k - shared) + length v;
    val_offset = offset + head_size shared k v + (length k - shared);
    restarts_offset = s.restarts_offset;
    current_restart_idx = s.current_restart_idx;
  }

  -- The parts of an entry, each in front of what follows it.
  entry_bytes_parts :
      (a b c d v post : Slice)
      → (a ++ (b ++ (c ++ (d ++ v)))) ++ post ≡ a ++ (b ++ (c ++ (d ++ (v ++ post))))
  entry_bytes_parts a b c d v post =
      append_assoc a _ post
      ∙ ap (λ t. a ++ t)
          (append_assoc b _ post
            ∙ ap (λ t. b ++ t) (append_assoc c _ post ∙ ap (λ t. c ++ t) (append_assoc d v post)))

  abbrev head_bytes : ℕ → Slice → Slice → Slice
  head_bytes shared k v =
      encode_var shared ++ (encode_var (length k - shared) ++ encode_var (length v))

  length-head_bytes :
      (shared : ℕ) (k v : Slice) → length (head_bytes shared k v) ≡ head_size shared k v
  length-head_bytes shared k v = omega (
    arith,
    length-append (encode_var shared) (encode_var (length k - shared) ++ encode_var (length v)),
    length-append (encode_var (length k - shared)) (encode_var (length v)),
  )

  -- The block around the rest of an entry's key.
  around_key :
      (block pre post k v : Slice) (shared : ℕ)
      → block ≡ pre ++ (entry_bytes ops shared k v ++ post)
      → block ≡ (pre ++ head_bytes shared k v) ++ (drop shared k ++ (v ++ post))
  around_key block pre post k v shared e =
      let a = encode_var shared in
      let b = encode_var (length k - shared) in
      let c = encode_var (length v) in
      let tail = drop shared k ++ (v ++ post) in
      e
      ∙ ap (λ t. pre ++ t)
          (entry_bytes_parts a b c (drop shared k) v post
            ∙ sym (append_assoc a (b ++ c) tail ∙ ap (λ t. a ++ t) (append_assoc b c tail)))
      ∙ sym (append_assoc pre (head_bytes shared k v) tail)

  pub read_entry_lem :
      (block pre post k v : Slice) (offset shared : ℕ) (s : BlockIterState)
      → block ≡ pre ++ (entry_bytes ops shared k v ++ post)
      → offset ≡ length pre
      → IsShared s.key k shared
      → length k < usize_bound
      → length v < usize_bound
      → read_entry ops block offset s ≡ some (entry_state offset shared k v s)
  unfolding read_entry
  read_entry_lem block pre post k v offset shared s e f sh hk hv =
      let e' =
        e
        ∙ ap (λ t. pre ++ t)
            (entry_bytes_parts (encode_var shared) (encode_var (length k - shared))
              (encode_var (length v)) (drop shared k) v post) in
      let p =
        parse_head_lem block pre _ offset shared (length k - shared) (length v) e' f
          (omega (arith, sh.fits)) (omega arith) hv in
      let h = head_size shared k v in
      let m =
        slice-middle (pre ++ head_bytes shared k v) (drop shared k) (v ++ post) block (offset + h)
          (offset + h + (length k - shared)) (around_key block pre post k v shared e)
          (omega (arith, length-append pre (head_bytes shared k v), length-head_bytes shared k v))
          (omega (arith, length-drop shared k)) in
      let key : take shared s.key ++ drop shared k ≡ k =
        ap (λ t. t ++ drop shared k) sh.same ∙ take-append-drop shared k in
      rw (read_entry, p, m, key)

  pub current_v_lem :
      (block pre post k v : Slice) (offset shared : ℕ) (s s' : BlockIterState)
      → block ≡ pre ++ (entry_bytes ops shared k v ++ post)
      → offset ≡ length pre
      → s'.val_offset ≡ offset + head_size shared k v + (length k - shared)
      → s'.next_offset ≡ s'.val_offset + length v
      → slice block s'.val_offset s'.next_offset ≡ some v
  current_v_lem block pre post k v offset shared s s' e f g h =
      let around =
        around_key block pre post k v shared e
        ∙ sym (append_assoc (pre ++ head_bytes shared k v) (drop shared k) (v ++ post)) in
      slice-middle ((pre ++ head_bytes shared k v) ++ drop shared k) v post block _ _ around
        (omega (
          arith,
          length-append (pre ++ head_bytes shared k v) (drop shared k),
          length-append pre (head_bytes shared k v),
          length-head_bytes shared k v,
          length-drop shared k,
        ))
        h

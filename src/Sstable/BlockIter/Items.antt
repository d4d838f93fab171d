-- ===== src/Sstable/BlockIter/Items.antt =====
-- The iterator over the block of a builder.
use mirdb.Prelude.{
  ℕ, ◌+◌, ◌-◌, ◌*◌, ◌%◌, ◌<◌, ◌≡◌, refl, sym, ap, ◌∙◌, true, some, List, [], ◌∷◌, ◌++◌,
  append_assoc, length, length-append, drop-append, drop, leb, All, Slice, le→leb, arith,
}
use mirdb.ParserUtil.{u32_bound}
use mirdb.Sstable.Codec.{CodecOps, CodecLaws, TableOptions}
use mirdb.Sstable.Builder.{BlockBuilder, new_builder, add_entries, restart_bytes, finished}
use mirdb.Sstable.Builder.Runs.{Entry, IsBuilt, add_entries-IsBuilt}
use mirdb.Sstable.BlockIter.{new_state, restart_count, restarts_offset, block_items}
use mirdb.Sstable.BlockIter.Steps.{IsEntry, HasRestarts, items-run}

module _ (ops : CodecOps) (laws : CodecLaws ops) where
  open ops use {encode_var, decode_var, encode_fixed, decode_fixed}

  length-restart_bytes :
      (restarts : List ℕ) → length (restart_bytes ops restarts) ≡ 4 * length restarts
  length-restart_bytes [] = refl
  length-restart_bytes (r ∷ restarts) = omega (
    arith,
    length-append (encode_fixed (r % u32_bound)) (restart_bytes ops restarts),
    laws.length_encode_fixed (r % u32_bound) (omega arith),
    length-restart_bytes restarts,
  )

  -- A block: the entries, the restart points and the number of these.
  abbrev tail_of : BlockBuilder → Slice
  tail_of b = restart_bytes ops b.restarts ++ encode_fixed (length b.restarts)

  finished-parts :
      (b : BlockBuilder) → length b.restarts < u32_bound → finished ops b ≡ b.buffer ++ tail_of b
  unfolding finished
  finished-parts b h =
      let n : length b.restarts % u32_bound ≡ length b.restarts = omega arith in rw (finished, n)

  length-finished :
      (b : BlockBuilder)
      → length b.restarts < u32_bound
      → length (finished ops b) ≡ length b.buffer + 4 * length b.restarts + 4
  length-finished b h = omega (
    arith,
    ap length (finished-parts b h),
    length-append b.buffer (tail_of b),
    length-append (restart_bytes ops b.restarts) (encode_fixed (length b.restarts)),
    length-restart_bytes b.restarts,
    laws.length_encode_fixed (length b.restarts) h,
  )

  drop_to_last : (a x : Slice) (n : ℕ) → n ≡ length a → drop n (a ++ x) ≡ x
  drop_to_last a x n e = rw (e, drop-append a x)

  restart_count-finished :
      (b : BlockBuilder)
      → length b.restarts < u32_bound
      → restart_count ops (finished ops b) ≡ some (length b.restarts)
  unfolding restart_count
  restart_count-finished b h =
      let n = length-finished b h in
      let c = encode_fixed (length b.restarts) in
      let parts =
        finished-parts b h ∙ sym (append_assoc b.buffer (restart_bytes ops b.restarts) c) in
      let u : leb 4 (length (finished ops b)) ≡ true = le→leb _ _ (omega arith) in
      let d : drop (length (finished ops b) - 4) (finished ops b) ≡ c =
        ap (λ t. drop (length (finished ops b) - 4) t) parts
        ∙ drop_to_last (b.buffer ++ restart_bytes ops b.restarts) c (length (finished ops b) - 4) (
            omega (
              arith,
              length-append b.buffer (restart_bytes ops b.restarts),
              length-restart_bytes b.restarts,
            )) in
      rw (restart_count, u, d, laws.decode_encode_fixed (length b.restarts) h)

  restarts_offset-finished :
      (b : BlockBuilder)
      → length b.restarts < u32_bound
      → restarts_offset ops (finished ops b) ≡ some (length b.buffer)
  unfolding restarts_offset
  restarts_offset-finished b h =
      let n = length-finished b h in
      let u : leb (4 + 4 * length b.restarts) (length (finished ops b)) ≡ true =
        le→leb _ _ (omega arith) in
      let d : length (finished ops b) - 4 - 4 * length b.restarts ≡ length b.buffer = omega arith in
      rw (restarts_offset, restart_count-finished b h, u, d)

  -- The iterator over the block that a new builder makes of entries gives these entries back, in their
  -- order, where each key has a byte, the keys and values are shorter than a usize counts, and
  -- the restart points are fewer than a u32 counts. A round for each entry and one more is enough.
  pub block_items-add_entries :
      (opt : TableOptions) (entries : List Entry) (b : BlockBuilder) (fuel : ℕ)
      → add_entries ops opt entries new_builder ≡ some b
      → All IsEntry entries
      → length b.restarts < u32_bound
      → length entries < fuel
      → block_items ops fuel (finished ops b) ≡ some entries
  unfolding block_items
  block_items-add_entries opt entries b fuel e w h l =
      let built : IsBuilt ops entries b =
        add_entries-IsBuilt ops opt entries [] new_builder b (record { run = refl; last = refl })
          e in
      let n = length-finished b h in
      let o = restarts_offset-finished b h in
      let hr : HasRestarts ops laws (finished ops b) (length b.buffer) =
        (length b.restarts, restart_count-finished b h, omega arith) in
      let r =
        items-run ops laws entries fuel (finished ops b) [] b.buffer (tail_of b)
          (new_state (length b.buffer)) (finished-parts b h) built.run w refl (omega arith) hr l in
      rw (block_items, o, r)

-- ===== src/Sstable/Block/Stored.antt =====
-- A block is read from where it was flushed to.
use mirdb.Prelude.{
  ℕ, ◌+◌, ◌-◌, ◌≤◌, ◌<◌, ◌≢◌, ◌≡◌, refl, sym, ap, ◌∙◌, Bool, true, false, some, [], ◌∷◌, ◌++◌,
  append-nil, length, length-append, length-take, take, drop, ltb, ◌==◌, ==_refl, Slice, zeros,
  length-zeros, arith, take_front, drop_front, drop_all, codes,
}
use mirdb.Error.{MyResult, SstableCode}
use mirdb.ParserUtil.{u32_bound}
use mirdb.Sstable.Codec.{
  CodecOps, CodecLaws, CompressType, TableOptions, int_to_compress_type, ctype_code,
}
use mirdb.Sstable.Builder.{BlockBuilder, finished}
use mirdb.Sstable.Masked.{
  mask_crc, unmask_crc, unmask_crc-mask_crc, mask_crc-unmask_crc, mask_crc_bound,
}
use mirdb.Sstable.Handle.{BlockHandle}
use mirdb.Sstable.Block.{
  FileOps, FileLaws, error, read_at, read_bytes, compressed, framed, reset_builder, with_buffer,
  write_block, flush_block, decode_body, open_body, open_block, new_from_location,
}

ctype_round : (t : CompressType) → int_to_compress_type (ctype_code t) ≡ some t
unfolding int_to_compress_type
ctype_round CompressType.plain = refl
ctype_round CompressType.snappy = refl

-- Bytes that stand in a file are what is read of it.
read_bytes_lem :
    (pre bytes post : Slice)
    → read_bytes (pre ++ (bytes ++ post)) (record { offset = length pre; size = length bytes })
      ≡ (bytes, length pre + length bytes)
unfolding read_bytes read_at
read_bytes_lem pre bytes post =
    let n = length-append pre (bytes ++ post) in
    let n' = length-append bytes post in
    let z = length-zeros (length bytes) in
    let a : ltb (length (pre ++ (bytes ++ post))) (length pre) ≡ false = ground arith in
    let c : ltb (length (pre ++ (bytes ++ post)) - length pre) (length bytes) ≡ false =
      ground arith in
    let d = drop_front (length pre) pre (bytes ++ post) refl in
    let t = take_front (length bytes) bytes post refl in
    let r = drop_all (length bytes) (zeros (length bytes)) (sym z) in
    rw (read_bytes, read_at, a, z, c, d, t, r, append-nil bytes)

module _ (ops : CodecOps) (laws : CodecLaws ops) where
  decode_body_lem :
      (t : CompressType) (block body : Slice) (offset : ℕ)
      → compressed ops t block ≡ MyResult.ok body
      → decode_body ops (some t) body offset ≡ MyResult.ok (block, offset)
  unfolding decode_body
  decode_body_lem CompressType.plain block body offset e = cc
  decode_body_lem CompressType.snappy block body offset e =
      rw (decode_body, laws.decompress_compress block body e)

  open_body_lem :
      (t : CompressType) (block body : Slice) (offset : ℕ)
      → compressed ops t block ≡ MyResult.ok body
      → open_body ops (body ++ (ctype_code t ∷ [])) offset ≡ MyResult.ok (block, offset)
  unfolding open_body
  open_body_lem t block body offset e =
      let c = ctype_code t ∷ [] in
      let n : length (body ++ c) - 1 ≡ length body = omega (arith, length-append body c) in
      rw
        (
          open_body,
          n,
          drop_front (length body) body c refl,
          ctype_round t,
          n,
          take_front (length body) body c refl,
        )
        (decode_body_lem t block body offset e)

  open_block_lem :
      (t : CompressType) (block body : Slice) (offset : ℕ)
      → compressed ops t block ≡ MyResult.ok body
      → open_block ops (framed ops t body) offset ≡ MyResult.ok (block, offset)
  unfolding open_block
  open_block_lem t block body offset e =
      let bytes = body ++ (ctype_code t ∷ []) in
      let sum = mask_crc (ops.sum32 bytes) in
      let small = mask_crc_bound (ops.sum32 bytes) in
      let c = ops.encode_fixed sum in
      let n = length-append bytes c in
      let m = laws.length_encode_fixed sum small in
      let u : ltb (length (bytes ++ c)) 4 ≡ false = ground arith in
      let d : length (bytes ++ c) - 4 ≡ length bytes = omega arith in
      let back = unmask_crc-mask_crc (ops.sum32 bytes) (laws.sum32_bound bytes) in
      rw
        (
          open_block,
          u,
          d,
          take_front (length bytes) bytes c refl,
          drop_front (length bytes) bytes c refl,
          laws.decode_encode_fixed sum small,
          back,
          ==_refl (ops.sum32 bytes),
        )
        (open_body_lem t block body offset e)

  -- A successful write.
  write_block_ok :
      (fops : FileOps) (offset : ℕ) (b b' : BlockBuilder) (file bytes file' : Slice)
      (h : BlockHandle)
      → write_block ops fops offset b file bytes ≡ (file', (b', MyResult.ok h))
      → ((fops.write_at file offset bytes).1 ≡ MyResult.ok tt)
        × ((fops.write_at file offset bytes).0 ≡ file')
        × (h ≡ record { offset = offset; size = length bytes })
  unfolding write_block
  write_block_ok fops offset b b' file bytes file' h e = go (fops.write_at file offset bytes) refl e
    where
      go :
          (w : Slice × MyResult (Unit {0}))
          → fops.write_at file offset bytes ≡ w
          → elim w.1 as (λ x. Slice × (BlockBuilder × MyResult BlockHandle)) [
            | MyResult.ok u ↦ (
              w.0,
              (reset_builder, MyResult.ok (record { offset = offset; size = length bytes })),
            )
            | MyResult.err e ↦ (w.0, (with_buffer b bytes, MyResult.err e))
            | MyResult.panic ↦ (w.0, (with_buffer b bytes, MyResult.panic))
          ]
            ≡ (file', (b', MyResult.ok h))
          → ((fops.write_at file offset bytes).1 ≡ MyResult.ok tt)
            × ((fops.write_at file offset bytes).0 ≡ file')
            × (h ≡ record { offset = offset; size = length bytes })
      go (f, MyResult.ok u) w k =
          let r = ap (λ t. t.1.1) k in (ap (λ t. t.1) w, ap (λ t. t.0) w ∙ ap (λ t. t.0) k, cc)
      go (f, MyResult.err x) w k = let r = ap (λ t. t.1.1) k in cc
      go (f, MyResult.panic) w k = let r = ap (λ t. t.1.1) k in cc

  written-new_from_location :
      (fops : FileOps) (flaws : FileLaws fops) (t : CompressType) (offset : ℕ) (b b' : BlockBuilder)
      (file file' block body : Slice) (h : BlockHandle)
      → offset ≤ length file
      → compressed ops t block ≡ MyResult.ok body
      → write_block ops fops offset b file (framed ops t body) ≡ (file', (b', MyResult.ok h))
      → new_from_location ops file' h ≡ MyResult.ok (block, h.offset + h.size)
  unfolding new_from_location
  written-new_from_location fops flaws t offset b b' file file' block body h l c e =
      let bytes = framed ops t body in
      let (w, f, eh) = write_block_ok fops offset b b' file bytes file' h e in
      let puts = sym f ∙ flaws.write_at_puts file offset bytes l w in
      let pre = take offset file in
      let n : length pre ≡ offset = omega (arith, length-take offset file) in
      let r = read_bytes_lem pre bytes (drop (offset + length bytes) file) in
      let at : read_bytes file' h ≡ (bytes, offset + length bytes) =
        ap (λ t. read_bytes t h) puts
        ∙ ap (λ t. read_bytes (pre ++ (bytes ++ drop (offset + length bytes) file)) t)
            (eh ∙ ap (λ k. record { offset = k; size = length bytes }) (sym n))
        ∙ r
        ∙ ap (λ k. (bytes, k + length bytes)) n in
      ap (λ x. open_block ops x.0 x.1) at
      ∙ open_block_lem t block body (offset + length bytes) c
      ∙ ap (λ x. MyResult.ok (block, x.offset + x.size)) (sym eh)

  -- What a flush that answers a handle has written is read back at this handle: the entries and the
  -- restart points that the builder had. The flush is at an offset within the file or at its end.
  pub new_from_location-flush_block :
      (fops : FileOps) (flaws : FileLaws fops) (opt : TableOptions) (offset : ℕ)
      (b b' : BlockBuilder) (file file' : Slice) (h : BlockHandle)
      → offset ≤ length file
      → flush_block ops fops opt offset b file ≡ (file', (b', MyResult.ok h))
      → new_from_location ops file' h ≡ MyResult.ok (finished ops b, h.offset + h.size)
  unfolding new_from_location flush_block
  new_from_location-flush_block fops flaws opt offset b b' file file' h l e =
      go (compressed ops opt.compress_type (finished ops b)) refl e
    where
      go :
          (c : MyResult Slice)
          → compressed ops opt.compress_type (finished ops b) ≡ c
          → elim c as (λ x. Slice × (BlockBuilder × MyResult BlockHandle)) [
            | MyResult.ok body ↦
                write_block ops fops offset b file (framed ops opt.compress_type body)
            | MyResult.err e ↦ (file, (with_buffer b (finished ops b), MyResult.err e))
            | MyResult.panic ↦ (file, (with_buffer b (finished ops b), MyResult.panic))
          ]
            ≡ (file', (b', MyResult.ok h))
          → new_from_location ops file' h ≡ MyResult.ok (finished ops b, h.offset + h.size)
      go (MyResult.ok body) c k =
          written-new_from_location fops flaws opt.compress_type offset b b' file file'
            (finished ops b) body h l c k
      go (MyResult.err x) c k = let r = ap (λ t. t.1.1) k in cc
      go MyResult.panic c k = let r = ap (λ t. t.1.1) k in cc

  -- Bytes whose last four are not the masked checksum of the others are refused with a checksum error,
  -- whatever else they are: no damaged block of which the checksum tells is opened.
  pub open_block-checksum :
      (bytes : Slice) (offset : ℕ)
      → 4 ≤ length bytes
      → ops.decode_fixed (drop (length bytes - 4) bytes) < u32_bound
      → ops.decode_fixed (drop (length bytes - 4) bytes)
        ≢ mask_crc (ops.sum32 (take (length bytes - 4) bytes))
      → open_block ops bytes offset
        ≡ MyResult.err (error SstableCode.checksum_error (codes "checksum error"))
  unfolding open_block
  open_block-checksum bytes offset l h ne =
      let long : ltb (length bytes) 4 ≡ false = ground arith in
      let damaged : (ops.sum32 (take (length bytes - 4) bytes)
            == unmask_crc (ops.decode_fixed (drop (length bytes - 4) bytes)))
          ≡ false =
        go
          (ops.sum32 (take (length bytes - 4) bytes)
            == unmask_crc (ops.decode_fixed (drop (length bytes - 4) bytes)))
          refl in
      rw (open_block, long, damaged)
    where
      go :
          (b : Bool)
          → (ops.sum32 (take (length bytes - 4) bytes)
              == unmask_crc (ops.decode_fixed (drop (length bytes - 4) bytes)))
            ≡ b
          → b ≡ false
      go false e = refl
      go true e =
          let same : ops.sum32 (take (length bytes - 4) bytes)
              ≡ unmask_crc (ops.decode_fixed (drop (length bytes - 4) bytes)) =
            ground arith in
          absurd (
            ne (
              sym (
                ap mask_crc same
                ∙ mask_crc-unmask_crc (ops.decode_fixed (drop (length bytes - 4) bytes)) h)))

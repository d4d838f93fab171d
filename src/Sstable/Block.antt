-- ===== src/Sstable/Block.antt =====
-- sstable/src/block_builder.rs (`flush`), block.rs, reader.rs and the buffer of types.rs: a block in a
-- file. An error carries the code as the server wraps it.
pub mod Stored
use mirdb.Prelude.{
  ℕ, ◌+◌, ◌-◌, ◌≤◌, ◌<◌, ◌≡◌, Bool, true, false, Option, none, some, [], ◌∷◌, ◌++◌, length, take,
  drop, ltb, leb, ◌==◌, if◌then◌else◌, min, Slice, zeros, codes,
}
use mirdb.Error.{MyResult, Status, StatusCode, SstableCode}
use mirdb.Sstable.Codec.{CodecOps, CompressType, TableOptions, int_to_compress_type, ctype_code}
use mirdb.Sstable.Builder.{BlockBuilder, finished}
use mirdb.Sstable.Masked.{mask_crc, unmask_crc}
use mirdb.Sstable.Handle.{BlockHandle}

-- `seek` and `write_all` on a file.
pub record FileOps : Type 0 where
  pub write_at : Slice → ℕ → Slice → Slice × MyResult (Unit {0})

-- A successful write has put the bytes at the offset.
pub record FileLaws (fops : FileOps) : Type 0 where
  pub write_at_puts :
      (file : Slice) (offset : ℕ) (buf : Slice)
      → offset ≤ length file
      → (fops.write_at file offset buf).1 ≡ MyResult.ok tt
      → (fops.write_at file offset buf).0
        ≡ take offset file ++ (buf ++ drop (offset + length buf) file)

abbrev pub error : SstableCode → Slice → Status
error code msg = record { code = StatusCode.sstable_error code; msg = msg }

-- `read_at` of a byte buffer: the destination, and the number of bytes that it got.
unfoldable pub read_at : Slice → ℕ → Slice → Slice × ℕ
read_at file offset dst =
    if ltb (length file) offset
    then (dst, 0)
    else let to_read =
        if ltb (length file - offset) (length dst) then length file - offset else length dst in
      (take to_read (drop offset file) ++ drop to_read dst, to_read)

-- `read_bytes`
unfoldable pub read_bytes : Slice → BlockHandle → Slice × ℕ
unfolding read_at
read_bytes file location =
    let r = read_at file location.offset (zeros location.size) in (r.0, location.offset + r.1)

abbrev pub with_buffer : BlockBuilder → Slice → BlockBuilder
with_buffer b buffer = record {
  buffer = buffer;
  count = b.count;
  restart_count = b.restart_count;
  last_key = b.last_key;
  restarts = b.restarts;
}

-- `reset`, which leaves no restart point where `new` has one.
abbrev pub reset_builder : BlockBuilder
reset_builder = record { buffer = []; count = 0; restart_count = 0; last_key = []; restarts = [] }

module _ (ops : CodecOps) where
  open ops use {decode_fixed, encode_fixed, sum32}

  abbrev pub compressed : CompressType → Slice → MyResult Slice
  compressed CompressType.plain block = MyResult.ok block
  compressed CompressType.snappy block = ops.compress block

  -- The compressed block with its type and its checksum.
  abbrev pub framed : CompressType → Slice → Slice
  framed ctype body =
      let bytes = body ++ (ctype_code ctype ∷ []) in bytes ++ encode_fixed (mask_crc (sum32 bytes))

  -- The end of `flush`.
  unfoldable pub write_block :
      FileOps → ℕ → BlockBuilder → Slice → Slice → Slice × (BlockBuilder × MyResult BlockHandle)
  write_block fops offset b file bytes =
      let w = fops.write_at file offset bytes in
      elim w.1 [
        | MyResult.ok u ↦
            (w.0, (reset_builder, MyResult.ok (record { offset = offset; size = length bytes })))
        | MyResult.err e ↦ (w.0, (with_buffer b bytes, MyResult.err e))
        | MyResult.panic ↦ (w.0, (with_buffer b bytes, MyResult.panic))
      ]

  -- `flush`: the file, the builder, and the place of the block.
  unfoldable pub flush_block :
      FileOps
      → TableOptions
      → ℕ
      → BlockBuilder
      → Slice
      → Slice × (BlockBuilder × MyResult BlockHandle)
  unfolding finished write_block
  flush_block fops opt offset b file = elim (compressed opt.compress_type (finished ops b)) [
    | MyResult.ok body ↦ write_block fops offset b file (framed opt.compress_type body)
    | MyResult.err e ↦ (file, (with_buffer b (finished ops b), MyResult.err e))
    | MyResult.panic ↦ (file, (with_buffer b (finished ops b), MyResult.panic))
  ]

  -- `verify_block`
  abbrev pub verify_block : Slice → ℕ → Bool
  verify_block bytes want = sum32 bytes == want

  -- The block of a body of the given type.
  unfoldable pub decode_body : Option CompressType → Slice → ℕ → MyResult (Slice × ℕ)
  decode_body none body offset =
      MyResult.err (error SstableCode.invalid_data (codes "invalid data"))
  decode_body (some CompressType.plain) body offset = MyResult.ok (body, offset)
  decode_body (some CompressType.snappy) body offset = elim (ops.decompress body) [
    | MyResult.ok block ↦ MyResult.ok (block, offset)
    | MyResult.err e ↦ MyResult.err e
    | MyResult.panic ↦ MyResult.panic
  ]

  -- The type and the body of verified bytes.
  unfoldable pub open_body : Slice → ℕ → MyResult (Slice × ℕ)
  unfolding decode_body int_to_compress_type
  open_body bytes offset = elim (drop (length bytes - 1) bytes) [
    | [] ↦ MyResult.panic
    | ctype ∷ _ ↦ decode_body (int_to_compress_type ctype) (take (length bytes - 1) bytes) offset
  ]

  -- What `new_from_location` does with the bytes that it has read.
  unfoldable pub open_block : Slice → ℕ → MyResult (Slice × ℕ)
  unfolding open_body unmask_crc
  open_block bytes offset =
      let checked = take (length bytes - 4) bytes in
      if ltb (length bytes) 4
      then MyResult.panic
      else if verify_block checked (unmask_crc (decode_fixed (drop (length bytes - 4) bytes)))
      then open_body checked offset
      else MyResult.err (error SstableCode.checksum_error (codes "checksum error"))

  -- `new_from_location`
  unfoldable pub new_from_location : Slice → BlockHandle → MyResult (Slice × ℕ)
  unfolding open_block read_bytes
  new_from_location file location = let r = read_bytes file location in open_block r.0 r.1

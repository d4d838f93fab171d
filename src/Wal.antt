-- ===== src/Wal.antt =====
-- mirdb-server/src/wal.rs: the segments of the write-ahead log, as the bytes of their files.
pub mod Records
pub mod Append
pub mod Segments
mod Tests
use mirdb.Prelude.{
  zeros, slice, slice-middle, ℕ, zero, suc, ◌+◌, ◌-◌, ◌*◌, ◌%◌, Bool, true, false, ◌&&◌, Option,
  none, some, List, [], ◌∷◌, ◌++◌, length, take, drop, ltb, leb, ◌==◌, if◌then◌else◌, Slice,
}
use mirdb.ParserUtil.{u32_bound, usize_bound}
use mirdb.Error.{Status, StatusCode, MyResult, Action, pure, pass}

-- What the log uses of libraries: the `snap` codec, `FixedInt` for u32 of `integer_encoding`, and files.
-- `write_all` and `create` are given what stands in the file, or its number.
pub record WalOps : Type 0 where
  pub compress : Slice → MyResult Slice
  pub decompress : Slice → MyResult Slice
  pub encode_fixed : ℕ → Slice
  pub decode_fixed : Slice → ℕ
  pub write_all : Slice → Slice → Slice × MyResult (Unit {0})
  pub flush : Slice → MyResult (Unit {0})
  pub create : ℕ → MyResult (Unit {0})
  pub delete : ℕ → MyResult (Unit {0})

-- `4usize.wrapping_sub(len) & 7`
unfoldable pub padding : ℕ → ℕ
padding len = ((usize_bound + 4 - len) % usize_bound) % 8

-- `WALSeg`: what its file holds, its size, and the number in the file's name.
pub record WalSeg : Type 0 where
  pub file : Slice
  pub size : ℕ
  pub number : ℕ

abbrev pub with_file : WalSeg → Slice → WalSeg
with_file seg file = record { file = file; size = seg.size; number = seg.number }

abbrev pub grown : WalSeg → ℕ → WalSeg
grown seg n = record { file = seg.file; size = seg.size + n; number = seg.number }

-- What `WALSegIter::next` answers; an item comes with the next offset.
pub data Next : Type 0 where
  ended : Next
  item : Slice → Slice → ℕ → Next
  panic : Next

module _ (ops : WalOps) where
  open ops use {compress, decompress, encode_fixed, decode_fixed, write_all, flush, create, delete}

  -- The bytes that `append` writes for a compressed key and value.
  unfoldable pub record_of : Slice → Slice → Slice
  record_of key value =
      let size = length key + length value in
      encode_fixed (size % u32_bound)
      ++ (encode_fixed (length key % u32_bound) ++ ((key ++ value) ++ zeros (padding size)))

  -- The end of `append`: flush, and count the bytes.
  unfoldable pub flushed : ℕ → Action WalSeg (Unit {0})
  flushed n seg = pass (λ _ s. (grown s n, MyResult.ok tt)) (seg, flush seg.file)

  -- The writing part of `append`.
  unfoldable pub write_record : Slice → Action WalSeg (Unit {0})
  unfolding flushed
  write_record buf seg =
      let done = write_all seg.file buf in
      pass (λ _. flushed (length buf)) (with_file seg done.0, done.1)

  unfoldable pub seg_append : Slice → Slice → Action WalSeg (Unit {0})
  unfolding record_of write_record
  seg_append key value seg =
      pass
        (λ key_buf s.
          pass (λ value_buf. write_record (record_of key_buf value_buf)) (s, compress value))
        (seg, compress key)

  -- The two `expect`s behind the slices of `next`.
  unfoldable pub decompressed : MyResult Slice → MyResult Slice → ℕ → Next
  decompressed (MyResult.ok key) (MyResult.ok value) offset = item key value offset
  decompressed _ _ offset = Next.panic

  -- The key and the value in the data of a record.
  unfoldable pub entry : Option Slice → ℕ → ℕ → Next
  unfolding decompressed
  entry none key_size offset = Next.panic
  entry (some bytes) key_size offset =
      if leb key_size (length bytes)
      then decompressed (decompress (take key_size bytes)) (decompress (drop key_size bytes)) offset
      else Next.panic

  -- From the second header field on, at `offset`.
  unfoldable pub next_body : Slice → ℕ → ℕ → Next
  unfolding entry
  next_body mmap offset size = elim (slice mmap offset (offset + 4)) [
    | none ↦ Next.panic
    | some field ↦
        entry (slice mmap (offset + 4) (offset + 4 + size)) (decode_fixed field)
          (offset + 4 + size + padding size)
  ]

  unfoldable pub next_sized : Slice → ℕ → Option Slice → Next
  unfolding next_body
  next_sized mmap offset none = Next.panic
  next_sized mmap offset (some field) =
      let size = decode_fixed field in if size == 0 then ended else next_body mmap (offset + 4) size

  -- `WALSegIter::next`
  unfoldable pub next : Slice → ℕ → Next
  unfolding next_sized
  next mmap offset =
      if leb (length mmap) offset
      then ended
      else next_sized mmap offset (slice mmap offset (offset + 4))

  -- All items of the iterator, on fuel; `none` is a panic.
  abbrev pub prepend_item :
      Slice × Slice → Option (List (Slice × Slice)) → Option (List (Slice × Slice))
  prepend_item i none = none
  prepend_item i (some is') = some (i ∷ is')

  unfoldable pub items_from : ℕ → Slice → ℕ → Option (List (Slice × Slice))
  unfolding next
  items_from zero mmap offset = none
  items_from (suc fuel) mmap offset = elim (next mmap offset) [
    | ended ↦ some []
    | item key value offset' ↦ prepend_item (key, value) (items_from fuel mmap offset')
    | panic ↦ none
  ]

  -- The items of a segment. Each takes a byte at least.
  unfoldable pub seg_items : Slice → Option (List (Slice × Slice))
  unfolding items_from
  seg_items file = items_from (length file + 1) file 0

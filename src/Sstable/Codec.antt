-- ===== src/Sstable/Codec.antt =====
-- What sstable/src uses of libraries: the integers of `integer_encoding`, the codec `snap` and the
-- checksum `crc32`. The options of a table are those of sstable/src/options.rs.
use mirdb.Prelude.{ℕ, ◌≤◌, ◌<◌, ◌≡◌, ◌==◌, if◌then◌else◌, Option, none, some, ◌++◌, length, Slice}
use mirdb.ParserUtil.{u32_bound, usize_bound}
use mirdb.Error.{MyResult}

pub data CompressType : Type 0 where
  plain snappy : CompressType

-- `plain` is `None`.
unfoldable pub int_to_compress_type : ℕ → Option CompressType
int_to_compress_type i =
    if i == 0 then some CompressType.plain else if i == 1 then some CompressType.snappy else none

-- `compress_type as u8`
abbrev pub ctype_code : CompressType → ℕ
ctype_code CompressType.plain = 0
ctype_code CompressType.snappy = 1

pub record TableOptions : Type 0 where
  pub block_size : ℕ
  pub block_restart_interval : ℕ
  pub compress_type : CompressType

-- A decoder of integers answers the number and the bytes that it has read.
pub record CodecOps : Type 0 where
  pub encode_var : ℕ → Slice
  pub decode_var : Slice → ℕ × ℕ
  pub encode_fixed : ℕ → Slice
  pub decode_fixed : Slice → ℕ
  pub compress : Slice → MyResult Slice
  pub decompress : Slice → MyResult Slice
  pub sum32 : Slice → ℕ

-- A usize takes one to ten bytes as a varint, a u32 four bytes of fixed width; both are decoded from
-- what they are encoded to, whatever follows a varint. The codec restores what it has compressed.
pub record CodecLaws (ops : CodecOps) : Type 0 where
  pub encode_var_some : (n : ℕ) → 0 < length (ops.encode_var n)
  pub length-encode_var : (n : ℕ) → n < usize_bound → length (ops.encode_var n) ≤ 10
  pub decode_encode_var :
      (n : ℕ) (rest : Slice)
      → n < usize_bound
      → ops.decode_var (ops.encode_var n ++ rest) ≡ (n, length (ops.encode_var n))
  pub length_encode_fixed : (n : ℕ) → n < u32_bound → length (ops.encode_fixed n) ≡ 4
  pub decode_encode_fixed : (n : ℕ) → n < u32_bound → ops.decode_fixed (ops.encode_fixed n) ≡ n
  pub decompress_compress :
      (x c : Slice) → ops.compress x ≡ MyResult.ok c → ops.decompress c ≡ MyResult.ok x
  pub sum32_bound : (x : Slice) → ops.sum32 x < u32_bound

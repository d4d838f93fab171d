-- ===== src/Sstable/Tests.antt =====
-- Runs of blocks, over a codec whose varints have eight bytes.
use mirdb.Prelude.{
  ℕ, ◌+◌, ◌*◌, ◌/◌, ◌%◌, ◌<◌, ◌≡◌, refl, sym, ap, arith, Option, none, some, List, [], ◌∷◌, ◌++◌,
  length, take, drop, All, Slice, codes, zeros,
}
use mirdb.ParserUtil.{u32_bound, usize_bound}
use mirdb.Error.{SstableCode, MyResult}
use mirdb.Sstable.Codec.{CodecOps, CodecLaws, CompressType, TableOptions}
use mirdb.Sstable.Builder.{BlockBuilder, new_builder, add_entries, finished}
use mirdb.Sstable.Builder.Runs.{Entry}
use mirdb.Sstable.BlockIter.{block_items}
use mirdb.Sstable.BlockIter.Steps.{IsEntry}
use mirdb.Sstable.BlockIter.Items.{block_items-add_entries}
use mirdb.Sstable.Masked.{mask_crc, unmask_crc, unmask_crc-mask_crc}
use mirdb.Sstable.Handle.{BlockHandle, Footer, encode_footer, decode_footer, full_footer_length}
use mirdb.Sstable.Handle.RoundTrip.{decode_footer-encode_footer}
use mirdb.Sstable.Block.{
  error, FileOps, FileLaws, reset_builder, framed, flush_block, new_from_location, open_block,
}
use mirdb.Sstable.Block.Stored.{new_from_location-flush_block, open_block-checksum}

abbrev four_bytes : ℕ → Slice
four_bytes n = n % 256 ∷ (n / 256) % 256 ∷ (n / 65536) % 256 ∷ (n / 16777216) % 256 ∷ []

abbrev four_value : Slice → ℕ
four_value (a ∷ b ∷ c ∷ d ∷ _) = a + 256 * b + 65536 * c + 16777216 * d
four_value _ = 0

abbrev eight_bytes : ℕ → Slice
eight_bytes n = four_bytes (n % u32_bound) ++ four_bytes (n / u32_bound)

abbrev eight_value : Slice → ℕ × ℕ
eight_value s = (four_value s + u32_bound * four_value (drop 4 s), 8)

four_bytes-value : (n : ℕ) (rest : Slice) → n < u32_bound → four_value (four_bytes n ++ rest) ≡ n
four_bytes-value n rest h = omega arith

eight_bytes-value :
    (n : ℕ) (rest : Slice) → n < usize_bound → eight_value (eight_bytes n ++ rest) ≡ (n, 8)
eight_bytes-value n rest h =
    let a = four_bytes-value (n % u32_bound) (four_bytes (n / u32_bound) ++ rest) (omega arith) in
    let b = four_bytes-value (n / u32_bound) rest (omega arith) in ap (λ x. (x, 8)) (omega arith)

abbrev plain_codec : CodecOps
plain_codec = record {
  encode_var = eight_bytes;
  decode_var = eight_value;
  encode_fixed = four_bytes;
  decode_fixed = four_value;
  compress = λ x. MyResult.ok (1 ∷ x);
  decompress = λ c. MyResult.ok (drop 1 c);
  sum32 = λ x. length x % u32_bound;
}

prefixed : (x c : Slice) → MyResult.ok (1 ∷ x) ≡ MyResult.ok c → 1 ∷ x ≡ c
prefixed x c e = cc

plain_laws : CodecLaws plain_codec
plain_laws = record {
  encode_var_some = λ n. omega arith;
  length-encode_var = λ n h. omega arith;
  decode_encode_var = eight_bytes-value;
  length_encode_fixed = λ n h. refl;
  decode_encode_fixed = λ n h. four_bytes-value n [] h;
  decompress_compress = λ x c e. ap (λ d. MyResult.ok (drop 1 d)) (sym (prefixed x c e));
  sum32_bound = λ x. omega arith;
}

abbrev options : TableOptions
options = record {
  block_size = 4096;
  block_restart_interval = 2;
  compress_type = CompressType.snappy;
}

abbrev three_entries : List Entry
three_entries = (codes "key1", codes "x") ∷ (codes "key2", codes "y") ∷ (codes "key3", []) ∷ []

abbrev built_by : Option BlockBuilder → BlockBuilder
built_by none = new_builder
built_by (some b) = b

abbrev three_built : BlockBuilder
three_built = built_by (add_entries plain_codec options three_entries new_builder)

three_entries-IsEntry : All IsEntry three_entries
three_entries-IsEntry = (
  ((λ e. cc), omega arith, omega arith),
  (((λ e. cc), omega arith, omega arith), (((λ e. cc), omega arith, omega arith), tt)),
)

block_items-add_entries_example :
    block_items plain_codec 4 (finished plain_codec three_built) ≡ some three_entries
unfolding add_entries
block_items-add_entries_example =
    block_items-add_entries plain_codec plain_laws options three_entries three_built 4 refl
      three_entries-IsEntry (omega arith) (omega arith)

unmask_crc-mask_crc_example : unmask_crc (mask_crc 0xe3069283) ≡ 0xe3069283
unmask_crc-mask_crc_example = unmask_crc-mask_crc 0xe3069283 (omega arith)

abbrev footer : Footer
footer = record {
  meta_index = record { offset = 0; size = 10 };
  index = record { offset = 11; size = 12 };
}

decode_footer-encode_footer_example :
    (buf : Slice) × (encode_footer plain_codec footer (zeros full_footer_length) ≡ some buf)
    × (length buf ≡ full_footer_length)
    × (decode_footer plain_codec buf ≡ some footer)
decode_footer-encode_footer_example =
    decode_footer-encode_footer plain_codec plain_laws footer (zeros full_footer_length)
      (omega arith, omega arith) (omega arith, omega arith) refl

abbrev plain_file : FileOps
plain_file = record {
  write_at = λ file offset buf.
      (take offset file ++ (buf ++ drop (offset + length buf) file), MyResult.ok tt);
}

plain_file_laws : FileLaws plain_file
plain_file_laws = record { write_at_puts = λ file offset buf h e. refl }

abbrev flushed_file : Slice
flushed_file = (flush_block plain_codec plain_file options 2 three_built (5 ∷ 6 ∷ [])).0

abbrev flushed_handle : BlockHandle
flushed_handle = record {
  offset = 2;
  size = length (framed plain_codec CompressType.snappy (1 ∷ finished plain_codec three_built));
}

new_from_location-flush_block_example :
    new_from_location plain_codec flushed_file flushed_handle
    ≡ MyResult.ok (finished plain_codec three_built, 2 + flushed_handle.size)
unfolding flush_block finished add_entries
new_from_location-flush_block_example =
    new_from_location-flush_block plain_codec plain_laws plain_file plain_file_laws options 2
      three_built reset_builder (5 ∷ 6 ∷ []) flushed_file flushed_handle (omega arith) refl

abbrev framed_bytes : Slice
framed_bytes = framed plain_codec CompressType.plain (8 ∷ 9 ∷ [])

-- The bytes without the first one.
abbrev damaged_bytes : Slice
damaged_bytes = drop 1 framed_bytes

open_block-checksum_example :
    open_block plain_codec damaged_bytes 7
    ≡ MyResult.err (error SstableCode.checksum_error (codes "checksum error"))
unfolding mask_crc
open_block-checksum_example =
    open_block-checksum plain_codec plain_laws damaged_bytes 7 (omega arith) (omega arith)
      (λ e. omega arith)

-- ===== src/Sstable/Handle.antt =====
-- sstable/src/block_handle.rs and footer.rs: the place of a block in a table file, and the end of
-- the file. `none` is a panic: a failed assertion or an index out of range.
pub mod RoundTrip
use mirdb.Prelude.{
  bind, ℕ, ◌+◌, ◌-◌, ◌*◌, ◌≤◌, ◌<◌, Bool, true, false, ◌&&◌, Option, none, some, [], ◌∷◌, ◌++◌,
  length, take, drop, ltb, leb, if◌then◌else◌, Slice, bytes_eq, slice_from, zeros,
}
use mirdb.Sstable.Codec.{CodecOps}

pub record BlockHandle : Type 0 where
  pub offset : ℕ
  pub size : ℕ

pub record Footer : Type 0 where
  pub meta_index : BlockHandle
  pub index : BlockHandle

abbrev pub footer_length : ℕ
footer_length = 40

abbrev pub full_footer_length : ℕ
full_footer_length = 48

abbrev pub magic_footer_encoded : Slice
magic_footer_encoded = 0x57 ∷ 0xfb ∷ 0x80 ∷ 0x8b ∷ 0x24 ∷ 0x75 ∷ 0x47 ∷ 0xdb ∷ []

-- `for i in a..b { to[i] = 0 }`, where `to` has `b` bytes.
abbrev pub zero_fill : ℕ → ℕ → Slice → Slice
zero_fill a b to = if ltb a b then take a to ++ (zeros (b - a) ++ drop b to) else to

module _ (ops : CodecOps) where
  open ops use {encode_var, decode_var}

  abbrev pub handle_bytes : BlockHandle → Slice
  handle_bytes h = encode_var h.offset ++ encode_var h.size

  -- `encode_to`: the buffer with the handle at its front, and the bytes written. The asserted
  -- `required_space` of a number is what its varint takes.
  unfoldable pub encode_to : BlockHandle → Slice → Option (Slice × ℕ)
  encode_to h dst =
      if leb (length (encode_var h.offset) + length (encode_var h.size)) (length dst)
      then some (
        handle_bytes h ++ drop (length (handle_bytes h)) dst,
        length (encode_var h.offset) + length (encode_var h.size),
      )
      else none

  unfoldable pub decode_handle : Slice → Option (BlockHandle × ℕ)
  decode_handle from =
      let a = decode_var from in
      bind (slice_from from a.1)
        λ rest. let b = decode_var rest in some (record { offset = a.0; size = b.0 }, a.1 + b.1)

  -- `Footer::encode`
  unfoldable pub encode_footer : Footer → Slice → Option Slice
  unfolding encode_to
  encode_footer f to = elim (leb full_footer_length (length to)) [
    | true ↦ bind (encode_to f.meta_index to) λ a. bind (slice_from a.0 a.1) λ rest.
        bind (encode_to f.index rest) λ b.
          let filled = zero_fill (a.1 + b.1) footer_length (take a.1 a.0 ++ b.0) in
          some
            (take footer_length filled ++ (magic_footer_encoded ++ drop full_footer_length filled))
    | false ↦ none
  ]

  -- `Footer::decode`
  unfoldable pub decode_footer : Slice → Option Footer
  unfolding decode_handle
  decode_footer from =
      elim (leb full_footer_length (length from)
        && bytes_eq (drop footer_length from) magic_footer_encoded) [
          | true ↦ bind (decode_handle from) λ meta. bind (slice_from from meta.1) λ rest.
              bind (decode_handle rest) λ idx. some (record { meta_index = meta.0; index = idx.0 })
          | false ↦ none
        ]

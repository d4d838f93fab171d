-- ===== src/Sstable/Handle/RoundTrip.antt =====
-- Handles and footers are decoded from what they are encoded to.
use mirdb.Prelude.{
  ◌+◌, ◌-◌, ◌≤◌, ◌<◌, ◌≡◌, refl, sym, ap, ◌∙◌, Bool-cases, inl, inr, true, some, ◌++◌, append_assoc,
  append-nil, length, length-append, length-drop, take, drop, ltb, leb, le→leb, Slice,
  slice_from-append, take_front, drop_front, drop_all, zeros, length-zeros, arith,
}
use mirdb.ParserUtil.{usize_bound}
use mirdb.Sstable.Codec.{CodecOps, CodecLaws}
use mirdb.Sstable.Handle.{
  BlockHandle, Footer, footer_length, full_footer_length, magic_footer_encoded, zero_fill,
  handle_bytes, encode_to, decode_handle, encode_footer, decode_footer,
}

module _ (ops : CodecOps) (laws : CodecLaws ops) where
  abbrev pub IsHandle : BlockHandle → Type 0
  IsHandle h = (h.offset < usize_bound) × (h.size < usize_bound)

  length-handle_bytes :
      (h : BlockHandle)
      → length (handle_bytes ops h)
        ≡ length (ops.encode_var h.offset) + length (ops.encode_var h.size)
  length-handle_bytes h = length-append (ops.encode_var h.offset) (ops.encode_var h.size)

  short : (h : BlockHandle) → IsHandle h → length (handle_bytes ops h) ≤ 20
  short h b = omega (
    arith,
    length-handle_bytes h,
    laws.length-encode_var h.offset b.0,
    laws.length-encode_var h.size b.1,
  )

  pub encode_to_fits :
      (h : BlockHandle) (dst : Slice)
      → length (handle_bytes ops h) ≤ length dst
      → encode_to ops h dst
        ≡ some (
          handle_bytes ops h ++ drop (length (handle_bytes ops h)) dst,
          length (handle_bytes ops h),
        )
  unfolding encode_to
  encode_to_fits h dst l =
      let n = length-handle_bytes h in
      let u =
        le→leb (length (ops.encode_var h.offset) + length (ops.encode_var h.size)) (length dst)
          (omega arith) in
      rw (encode_to, u, n)

  pub decode_handle_bytes :
      (h : BlockHandle) (rest : Slice)
      → IsHandle h
      → decode_handle ops (handle_bytes ops h ++ rest) ≡ some (h, length (handle_bytes ops h))
  unfolding decode_handle
  decode_handle_bytes h rest b =
      let a = append_assoc (ops.encode_var h.offset) (ops.encode_var h.size) rest in
      let s =
        slice_from-append (ops.encode_var h.offset) (ops.encode_var h.size ++ rest) _
          (length (ops.encode_var h.offset)) refl refl in
      rw (
        a,
        decode_handle,
        laws.decode_encode_var h.offset _ b.0,
        s,
        laws.decode_encode_var h.size rest b.1,
        length-handle_bytes h,
      )

  -- The bytes of a footer.
  abbrev footer_bytes : Footer → Slice
  footer_bytes f =
      let n = length (handle_bytes ops f.meta_index ++ handle_bytes ops f.index) in
      handle_bytes ops f.meta_index
      ++ (handle_bytes ops f.index ++ (zeros (footer_length - n) ++ magic_footer_encoded))

  zero_fill_lem :
      (a rest : Slice)
      → length a ≤ footer_length
      → length a + length rest ≡ full_footer_length
      → (tail : Slice) × (zero_fill (length a) footer_length (a ++ rest)
          ≡ (a ++ zeros (footer_length - length a)) ++ tail)
        × (length tail ≡ 8)
  zero_fill_lem a rest l n = elim (Bool-cases (ltb (length a) footer_length)) [
    | inl e ↦
        let t = take_front (length a) a rest refl in
        let tail = drop footer_length (a ++ rest) in
        (
          tail,
          rw (zero_fill, e, t) (sym (append_assoc a (zeros (footer_length - length a)) tail)),
          omega (arith, length-drop footer_length (a ++ rest), length-append a rest),
        )
    | inr e ↦
        let z : length a ≡ footer_length = ground arith in
        (rest, rw (zero_fill, e, z) (ap (λ t. t ++ rest) (sym (append-nil a))), omega arith)
  ]

  encode_footer_lem :
      (f : Footer) (to : Slice)
      → IsHandle f.meta_index
      → IsHandle f.index
      → length to ≡ full_footer_length
      → encode_footer ops f to ≡ some (footer_bytes f)
  unfolding encode_footer
  encode_footer_lem f to hm hi n =
      let m = handle_bytes ops f.meta_index in
      let i = handle_bytes ops f.index in
      let rest = drop (length m) to in
      let rest' = drop (length i) rest in
      let u = le→leb full_footer_length (length to) (omega arith) in
      let lm = short f.meta_index hm in
      let li = short f.index hi in
      let e1 = encode_to_fits f.meta_index to (omega arith) in
      let s = slice_from-append m rest (m ++ rest) (length m) refl refl in
      let e2 = encode_to_fits f.index rest (omega (arith, length-drop (length m) to)) in
      let lmi = length-append m i in
      let (tail, zf, lt) =
        zero_fill_lem (m ++ i) rest' (omega arith)
          (omega (arith, length-drop (length i) rest, length-drop (length m) to)) in
      let z = zeros (footer_length - length (m ++ i)) in
      let front =
        take_front footer_length ((m ++ i) ++ z) tail (
          omega
            (arith, length-append (m ++ i) z, length-zeros (footer_length - length (m ++ i)))) in
      let back = drop_all full_footer_length (((m ++ i) ++ z) ++ tail) (
        omega (
          arith,
          length-append ((m ++ i) ++ z) tail,
          length-append (m ++ i) z,
          length-zeros (footer_length - length (m ++ i)),
        )) in
      let t = take_front (length m) m rest refl in
      let fl : zero_fill (length m + length i) footer_length
            (take (length m) (m ++ rest) ++ (i ++ rest'))
          ≡ ((m ++ i) ++ z) ++ tail =
        rw (t, sym lmi, sym (append_assoc m i rest')) zf in
      rw (encode_footer, u, e1, s, e2, fl, front, back)
        (ap some (
          append_assoc (m ++ i) z magic_footer_encoded
          ∙ append_assoc m i (z ++ magic_footer_encoded)))

  length-footer_bytes :
      (f : Footer)
      → IsHandle f.meta_index
      → IsHandle f.index
      → length (footer_bytes f) ≡ full_footer_length
  length-footer_bytes f hm hi =
      let m = handle_bytes ops f.meta_index in
      let i = handle_bytes ops f.index in
      let z = zeros (footer_length - length (m ++ i)) in
      let lm = short f.meta_index hm in
      let li = short f.index hi in
      omega (
        arith,
        length-append m i,
        length-append m (i ++ (z ++ magic_footer_encoded)),
        length-append i (z ++ magic_footer_encoded),
        length-append z magic_footer_encoded,
        length-zeros (footer_length - length (m ++ i)),
      )

  decode_footer_lem :
      (f : Footer)
      → IsHandle f.meta_index
      → IsHandle f.index
      → decode_footer ops (footer_bytes f) ≡ some f
  unfolding decode_footer
  decode_footer_lem f hm hi =
      let m = handle_bytes ops f.meta_index in
      let i = handle_bytes ops f.index in
      let n = length-append m i in
      let z = zeros (footer_length - length (m ++ i)) in
      let lm = short f.meta_index hm in
      let li = short f.index hi in
      let u : leb full_footer_length (length (footer_bytes f)) ≡ true =
        le→leb _ _ (omega (arith, length-footer_bytes f hm hi)) in
      let e : footer_bytes f ≡ ((m ++ i) ++ z) ++ magic_footer_encoded = sym (
        append_assoc (m ++ i) z magic_footer_encoded
        ∙ append_assoc m i (z ++ magic_footer_encoded)) in
      let d : drop footer_length (footer_bytes f) ≡ magic_footer_encoded =
        ap (λ t. drop footer_length t) e
        ∙ drop_front footer_length ((m ++ i) ++ z) magic_footer_encoded (
            omega
              (arith, length-append (m ++ i) z, length-zeros (footer_length - length (m ++ i)))) in
      let dm = decode_handle_bytes f.meta_index (i ++ (z ++ magic_footer_encoded)) hm in
      let s = slice_from-append m (i ++ (z ++ magic_footer_encoded)) _ (length m) refl refl in
      let di = decode_handle_bytes f.index (z ++ magic_footer_encoded) hi in
      rw (decode_footer, u, d, dm, s, di)

  -- A footer is decoded from what it is encoded to in a buffer of its size, and the encoding does
  -- not panic, where the offsets and sizes of its handles fit in a usize.
  pub decode_footer-encode_footer :
      (f : Footer) (to : Slice)
      → IsHandle f.meta_index
      → IsHandle f.index
      → length to ≡ full_footer_length
      → (buf : Slice) × (encode_footer ops f to ≡ some buf)
        × (length buf ≡ full_footer_length)
        × (decode_footer ops buf ≡ some f)
  decode_footer-encode_footer f to hm hi n = (
    footer_bytes f,
    encode_footer_lem f to hm hi n,
    length-footer_bytes f hm hi,
    decode_footer_lem f hm hi,
  )

-- ===== src/Wal/Records.antt =====
-- The records of a segment, and the iterator over its file.
use mirdb.Prelude.{
  zeros, length-zeros, slice, slice-middle, ℕ, zero, suc, ◌+◌, ◌%◌, ◌≤◌, ◌<◌, ◌≡◌, refl, sym, ap,
  ◌∙◌, true, false, some, List, [], ◌∷◌, ◌++◌, append-nil, append_assoc, length, length-append,
  take-append, drop-append, leb, ◌==◌, le→leb, Slice, arith,
}
use mirdb.ParserUtil.{u32_bound}
use mirdb.Error.{MyResult}
use mirdb.Wal.{
  WalOps, item, padding, record_of, decompressed, entry, next_body, next_sized, next, prepend_item,
  items_from, seg_items,
}

-- What the log relies on of the libraries: a u32 is encoded in four bytes and decoded to itself, the
-- codec restores what it compressed to at least one byte, and a successful write has appended the bytes.
pub record WalLaws (ops : WalOps) : Type 0 where
  pub length_encode : (n : ℕ) → n < u32_bound → length (ops.encode_fixed n) ≡ 4
  pub decode_encode : (n : ℕ) → n < u32_bound → ops.decode_fixed (ops.encode_fixed n) ≡ n
  pub decompress_compress :
      (x c : Slice) → ops.compress x ≡ MyResult.ok c → ops.decompress c ≡ MyResult.ok x
  pub compress_some : (x c : Slice) → ops.compress x ≡ MyResult.ok c → 0 < length c
  pub write_all_appends :
      (file buf : Slice)
      → (ops.write_all file buf).1 ≡ MyResult.ok tt
      → (ops.write_all file buf).0 ≡ file ++ buf

lt-not_leb : (a b : ℕ) → b < a → leb a b ≡ false
lt-not_leb a b h = ground arith

pos-not_zero : (n : ℕ) → 0 < n → (n == 0) ≡ false
pos-not_zero n h = ground arith

module _ (ops : WalOps) (laws : WalLaws ops) where
  -- A compressed entry whose sizes fit their header fields.
  abbrev pub IsEntry : Slice → Slice → Slice → Slice → Type 0
  IsEntry key value kb vb =
      (ops.compress key ≡ MyResult.ok kb)
      × (ops.compress value ≡ MyResult.ok vb)
      × (length kb + length vb < u32_bound)

  -- A file that holds the records of the entries, one behind the other.
  abbrev pub IsLog : List (Slice × Slice) → Slice → Type 0
  IsLog [] file = file ≡ []
  IsLog (e ∷ entries) file =
      (kb : Slice) × (vb : Slice) × (rest : Slice) × IsEntry e.0 e.1 kb vb
      × (file ≡ record_of ops kb vb ++ rest)
      × IsLog entries rest

  small : (n : ℕ) → n < u32_bound → n % u32_bound ≡ n
  small n h = omega arith

  abbrev head_of : Slice → Slice → Slice
  head_of kb vb = ops.encode_fixed (length kb + length vb)

  abbrev key_head_of : Slice → Slice
  key_head_of kb = ops.encode_fixed (length kb)

  record-parts :
      (kb vb : Slice)
      → length kb + length vb < u32_bound
      → record_of ops kb vb
        ≡ head_of kb vb
          ++ (key_head_of kb ++ ((kb ++ vb) ++ zeros (padding (length kb + length vb))))
  unfolding record_of
  record-parts kb vb h =
      rw (record_of, small (length kb + length vb) h, small (length kb) (omega arith))

  length-record :
      (kb vb : Slice)
      → length kb + length vb < u32_bound
      → length (record_of ops kb vb)
        ≡ 4 + 4 + (length kb + length vb) + padding (length kb + length vb)
  length-record kb vb h =
      let n = length kb + length vb in
      rw
        (
          record-parts kb vb h,
          length-append,
          length-append,
          length-append,
          length-append,
          length-zeros,
          laws.length_encode n h,
          laws.length_encode (length kb) (omega arith),
        )
        (omega arith)

  -- The file around a record, its parts in order.
  file-parts :
      (pre kb vb post : Slice)
      → length kb + length vb < u32_bound
      → pre ++ (record_of ops kb vb ++ post)
        ≡ pre
          ++ (head_of kb vb
              ++ (key_head_of kb
                  ++ ((kb ++ vb) ++ (zeros (padding (length kb + length vb)) ++ post))))
  file-parts pre kb vb post h =
      let z = zeros (padding (length kb + length vb)) in
      let a = append_assoc (head_of kb vb) (key_head_of kb ++ ((kb ++ vb) ++ z)) post in
      let b = append_assoc (key_head_of kb) ((kb ++ vb) ++ z) post in
      let c = append_assoc (kb ++ vb) z post in
      ap (λ t. pre ++ t)
        (ap (λ t. t ++ post) (record-parts kb vb h)
          ∙ a
          ∙ ap (λ t. head_of kb vb ++ t) (b ∙ ap (λ t. key_head_of kb ++ t) c))

  entry-item :
      (key value kb vb : Slice) (offset : ℕ)
      → ops.compress key ≡ MyResult.ok kb
      → ops.compress value ≡ MyResult.ok vb
      → entry ops (some (kb ++ vb)) (length kb) offset ≡ item key value offset
  unfolding entry decompressed
  entry-item key value kb vb offset ck cv =
      let fits : leb (length kb) (length (kb ++ vb)) ≡ true =
        le→leb _ _ (omega (arith, length-append kb vb)) in
      rw (
        entry,
        fits,
        take-append kb vb,
        drop-append kb vb,
        laws.decompress_compress key kb ck,
        laws.decompress_compress value vb cv,
      )

  next-item :
      (pre key value kb vb post : Slice)
      → IsEntry key value kb vb
      → next ops (pre ++ (record_of ops kb vb ++ post)) (length pre)
        ≡ item key value (length pre + length (record_of ops kb vb))
  unfolding next next_sized next_body
  next-item pre key value kb vb post (ck, cv, h) =
      let file = pre ++ (record_of ops kb vb ++ post) in
      let n = length kb + length vb in
      let z = zeros (padding n) ++ post in
      let parts = file-parts pre kb vb post h in
      let l₁ = laws.length_encode n h in
      let l₂ = laws.length_encode (length kb) (omega arith) in
      let s₁ : slice file (length pre) (length pre + 4) ≡ some (head_of kb vb) =
        slice-middle pre (head_of kb vb) _ file _ _ parts refl (omega (arith, l₁)) in
      let s₂ : slice file (length pre + 4) (length pre + 4 + 4) ≡ some (key_head_of kb) =
        slice-middle (pre ++ head_of kb vb) (key_head_of kb) ((kb ++ vb) ++ z) file _ _
          (parts ∙ sym (append_assoc pre (head_of kb vb) _))
          (omega (arith, length-append pre (head_of kb vb), l₁)) (omega (arith, l₂)) in
      let s₃ : slice file (length pre + 4 + 4) (length pre + 4 + 4 + n) ≡ some (kb ++ vb) =
        slice-middle (pre ++ (head_of kb vb ++ key_head_of kb)) (kb ++ vb) z file _ _
          (parts
            ∙ ap (λ t. pre ++ t)
                (sym (append_assoc (head_of kb vb) (key_head_of kb) ((kb ++ vb) ++ z)))
            ∙ sym (append_assoc pre (head_of kb vb ++ key_head_of kb) ((kb ++ vb) ++ z)))
          (omega (
            arith,
            length-append pre (head_of kb vb ++ key_head_of kb),
            length-append (head_of kb vb) (key_head_of kb),
            l₁,
            l₂,
          ))
          (omega (arith, length-append kb vb)) in
      let l = length-record kb vb h in
      let inside : leb (length file) (length pre) ≡ false = lt-not_leb _ _ (
        omega (
          arith,
          length-append pre (record_of ops kb vb ++ post),
          length-append (record_of ops kb vb) post,
          l,
        )) in
      let some_bytes : (n == 0) ≡ false =
        pos-not_zero n (omega (arith, laws.compress_some key kb ck)) in
      rw
        (
          next,
          inside,
          s₁,
          next_sized,
          laws.decode_encode n h,
          some_bytes,
          next_body,
          s₂,
          laws.decode_encode n h,
          s₃,
          laws.decode_encode (length kb) (omega arith),
        )
        (entry-item key value kb vb _ ck cv ∙ ap (item key value) (omega (arith, l)))

  items-step :
      (fuel : ℕ) (mmap : Slice) (offset : ℕ) (key value : Slice) (offset' : ℕ)
      → next ops mmap offset ≡ item key value offset'
      → items_from ops (suc fuel) mmap offset
        ≡ prepend_item ops (key, value) (items_from ops fuel mmap offset')
  unfolding items_from
  items-step fuel mmap offset key value offset' e = rw (items_from, e)

  items-ended :
      (fuel : ℕ) (mmap : Slice) (offset : ℕ)
      → length mmap ≡ offset
      → items_from ops (suc fuel) mmap offset ≡ some []
  unfolding items_from next
  items-ended fuel mmap offset e =
      let over : leb (length mmap) offset ≡ true = le→leb _ _ (omega (arith, e)) in
      rw (items_from, next, over)

  IsLog-items :
      (entries : List (Slice × Slice)) (fuel : ℕ) (pre rest : Slice)
      → IsLog entries rest
      → length rest < fuel
      → items_from ops fuel (pre ++ rest) (length pre) ≡ some entries
  IsLog-items entries zero pre rest l h = absurd (omega arith)
  IsLog-items [] (suc fuel) pre rest l h =
      items-ended fuel (pre ++ rest) (length pre) (rw l (ap length (append-nil pre)))
  IsLog-items (e ∷ entries) (suc fuel) pre rest (kb, vb, post, c, f, l) h =
      let rec = record_of ops kb vb in
      let n : length rest ≡ length rec + length post = ap length f ∙ length-append rec post in
      let some_bytes : 8 ≤ length rec = omega (arith, length-record kb vb c.2) in
      let ih : items_from ops fuel ((pre ++ rec) ++ post) (length (pre ++ rec)) ≡ some entries =
        IsLog-items entries fuel (pre ++ rec) post l (omega arith) in
      let ih' : items_from ops fuel (pre ++ rest) (length pre + length rec) ≡ some entries =
        rw (append_assoc pre rec post, ← f, length-append pre rec) at ih in
      let e' : next ops (pre ++ rest) (length pre) ≡ item e.0 e.1 (length pre + length rec) =
        ap (λ t. next ops (pre ++ t) (length pre)) f ∙ next-item pre e.0 e.1 kb vb post c in
      items-step fuel (pre ++ rest) (length pre) e.0 e.1 (length pre + length rec) e'
      ∙ ap (prepend_item ops e) ih'

  pub IsLog-append :
      (entries : List (Slice × Slice)) (file : Slice) (key value kb vb : Slice)
      → IsLog entries file
      → IsEntry key value kb vb
      → IsLog (entries ++ (key, value) ∷ []) (file ++ record_of ops kb vb)
  IsLog-append [] file key value kb vb l c =
      (kb, vb, [], c, rw l (sym (append-nil (record_of ops kb vb))), refl)
  IsLog-append (e ∷ entries) file key value kb vb (kb', vb', rest, c', f, l) c = (
    kb',
    vb',
    rest ++ record_of ops kb vb,
    c',
    rw f (append_assoc (record_of ops kb' vb') rest (record_of ops kb vb)),
    IsLog-append entries rest key value kb vb l c,
  )

-- A segment whose file holds the records of some entries, as `append` writes them, gives back exactly
-- those entries, in their order: the iterator neither panics nor ends early, and the model's fuel is enough.
pub seg_items-IsLog :
    (ops : WalOps) (laws : WalLaws ops) (entries : List (Slice × Slice)) (file : Slice)
    → IsLog ops laws entries file
    → seg_items ops file ≡ some entries
unfolding seg_items
seg_items-IsLog ops laws entries file l =
    IsLog-items ops laws entries (length file + 1) [] file l (omega arith)

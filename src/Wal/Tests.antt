-- ===== src/Wal/Tests.antt =====
-- Runs of a log whose codec puts a byte in front.
use mirdb.Prelude.{
  ℕ, ◌+◌, ◌*◌, ◌/◌, ◌%◌, ◌<◌, ◌≡◌, refl, sym, ap, arith, some, [], ◌∷◌, ◌++◌, length, drop, Slice,
  codes,
}
use mirdb.ParserUtil.{u32_bound}
use mirdb.Error.{MyResult}
use mirdb.Wal.{WalOps, WalSeg, padding, record_of, seg_append, seg_items}
use mirdb.Wal.Records.{WalLaws, IsLog, seg_items-IsLog}
use mirdb.Wal.Append.{IsSeg, seg_append-IsSeg}

abbrev le_bytes : ℕ → Slice
le_bytes n = n % 256 ∷ (n / 256) % 256 ∷ (n / 65536) % 256 ∷ (n / 16777216) % 256 ∷ []

abbrev le_value : Slice → ℕ
le_value (a ∷ b ∷ c ∷ d ∷ _) = a + 256 * b + 65536 * c + 16777216 * d
le_value _ = 0

abbrev plain_ops : WalOps
plain_ops = record {
  compress = λ x. MyResult.ok (1 ∷ x);
  decompress = λ c. MyResult.ok (drop 1 c);
  encode_fixed = le_bytes;
  decode_fixed = le_value;
  write_all = λ file buf. (file ++ buf, MyResult.ok tt);
  flush = λ file. MyResult.ok tt;
  create = λ n. MyResult.ok tt;
  delete = λ n. MyResult.ok tt;
}

le_bytes-value : (n : ℕ) → n < u32_bound → le_value (le_bytes n) ≡ n
le_bytes-value n h = omega arith

prefixed : (x c : Slice) → MyResult.ok (1 ∷ x) ≡ MyResult.ok c → 1 ∷ x ≡ c
prefixed x c e = cc

plain_laws : WalLaws plain_ops
plain_laws = record {
  length_encode = λ n h. refl;
  decode_encode = le_bytes-value;
  decompress_compress = λ x c e. ap (λ d. MyResult.ok (drop 1 d)) (sym (prefixed x c e));
  compress_some = λ x c e. omega (arith, ap length (prefixed x c e));
  write_all_appends = λ file buf e. refl;
}

abbrev empty_seg : WalSeg
empty_seg = record { file = []; size = 0; number = 0 }

abbrev one_seg : WalSeg
one_seg = (seg_append plain_ops (codes "abc") (codes "x") empty_seg).0

abc_x-fits :
    (kb vb : Slice)
    → MyResult.ok (1 ∷ codes "abc") ≡ MyResult.ok kb
    → MyResult.ok (1 ∷ codes "x") ≡ MyResult.ok vb
    → length kb + length vb < u32_bound
abc_x-fits kb vb e f =
    omega (arith, ap length (prefixed (codes "abc") kb e), ap length (prefixed (codes "x") vb f))

seg_append-IsSeg_example : IsSeg plain_ops plain_laws ((codes "abc", codes "x") ∷ []) one_seg
unfolding seg_append
seg_append-IsSeg_example =
    seg_append-IsSeg plain_ops plain_laws [] (codes "abc") (codes "x") empty_seg one_seg
      (refl, refl) abc_x-fits refl

abbrev one_file : Slice
one_file = 6 ∷ 0 ∷ 0 ∷ 0 ∷ 4 ∷ 0 ∷ 0 ∷ 0 ∷ 1 ∷ 97 ∷ 98 ∷ 99 ∷ 1 ∷ 120 ∷ 0 ∷ 0 ∷ 0 ∷ 0 ∷ 0 ∷ 0 ∷ []

one_file-IsLog : IsLog plain_ops plain_laws ((codes "abc", codes "x") ∷ []) one_file
unfolding record_of padding
one_file-IsLog = (1 ∷ codes "abc", 1 ∷ codes "x", [], (refl, refl, omega arith), refl, refl)

seg_items-IsLog_example : seg_items plain_ops one_file ≡ some ((codes "abc", codes "x") ∷ [])
seg_items-IsLog_example =
    seg_items-IsLog plain_ops plain_laws ((codes "abc", codes "x") ∷ []) one_file one_file-IsLog

-- ===== src/Proto.antt =====
-- mirdb-server/src/proto.rs: the decoder that takes requests out of a connection's read buffer.
-- The encoder is `write` of Response.antt. The service loop around both is tokio's.
pub mod Fragments
pub mod Pipeline
mod Tests
use mirdb.Prelude.{
  ℕ, ◌+◌, ◌-◌, ◌<◌, ◌≡◌, refl, ap, ◌≢◌, ◌⊎◌, inl, inr, Option, none, some, List, [], ◌∷◌, ◌++◌,
  arith, length, drop, length-append, drop-append, drop-length, append-nil, Slice,
}
use mirdb.ParserUtil.{IrResult, ok, err, incomplete, stuck, alt, tag, compare, ◌>>=◌}
use mirdb.ParserUtil.Ends.{Front}
use mirdb.Request.{Request}
use mirdb.Parser.{parse, getter, getter_name_parser}
use mirdb.Parser.Fields.{parse-ne-stuck, parse-IsValid}

-- `(result, src_used)` of the match; the outer `none` is a panic of the parser.
unfoldable pub consumed : Slice → IrResult Request → Option (Option Request × ℕ)
consumed src (ok remaining req) = some (some req, length src - length remaining)
consumed src err = some (some Request.error, length src)
consumed src (incomplete n) = some (none, 0)
consumed src stuck = none

-- `src.split_to(src_used)` leaves what stands behind that many bytes.
abbrev split_to : Slice → Option (Option Request × ℕ) → Option (Option Request × Slice)
split_to src none = none
split_to src (some (result, src_used)) = some (result, drop src_used src)

unfoldable pub decode : Slice → Option (Option Request × Slice)
unfolding consumed
decode src = split_to src (consumed src (parse src))

pub drop-Front : (src rest : Slice) → Front src rest → drop (length src - length rest) src ≡ rest
drop-Front src rest (c, e) =
    let n : length src - length rest ≡ length c =
      omega (arith, ap length e, length-append c rest) in
    rw n (rw (← e) (drop-append c rest))

parse-nil : parse [] ≡ incomplete 4
unfolding parse getter getter_name_parser alt tag compare ◌>>=◌
parse-nil = refl

-- A step of the decoder: it waits, or returns a request and a shorter rest of the buffer.
abbrev pub Progress : Slice → Option (Option Request × Slice) → Type 0
Progress src d =
    (d ≡ some (none, src))
    ⊎ ((req : Request) × (rest : Slice) × (d ≡ some (some req, rest))
        × Front src rest
        × (length rest < length src))

not_empty : (src : Slice) → parse src ≡ err → 0 < length src
not_empty [] e = absurd (cc (parse-nil, e))
not_empty (c ∷ src) e = omega arith

-- What one call of the decoder does, for every buffer: it answers without a panic, and either waits
-- and leaves the buffer as it is, or returns a request and leaves a shorter rest of the buffer.
pub decode-Progress : (src : Slice) → Progress src (decode src)
unfolding decode
decode-Progress src = go (parse src) refl
  where
    go : (r : IrResult Request) → parse src ≡ r → Progress src (split_to src (consumed src r))
    go (ok rest req) e =
        let (f, l, v) = parse-IsValid src rest req e in
        inr (req, rest, rw (drop-Front src rest f), f, l)
    go err e = inr (Request.error, [], rw (drop-length src), (src, append-nil src), not_empty src e)
    go (incomplete n) e = inl refl
    go stuck e = absurd (parse-ne-stuck src e)

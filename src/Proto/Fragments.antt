-- ===== src/Proto/Fragments.antt =====
-- A storage command that reaches the read buffer in two pieces.
use mirdb.Prelude.{◌≡◌, refl, some, [], ◌∷◌, ◌++◌, append-nil, Slice, drop-length}
use mirdb.ParserUtil.{alt, tag, compare, space, ◌>>=◌, ◌>>◌}
use mirdb.ParserUtil.Exact.{Runs, Fails, Fails-bind, Fails-then, Fails-alt, Fails-first, is_not-All}
use mirdb.Request.{Request, SetterType}
use mirdb.Parser.{key_ends, key_parser, setter, deleter, info, major_compaction, parse}
use mirdb.Parser.Fields.{IsKey}
use mirdb.Parser.RoundTrip.{setter_name, getter-Fails, setter_name-Runs, space_key-Runs}
use mirdb.Proto.{decode}

key_end-Runs : (key : Slice) → IsKey key → Runs key_parser key [] key
unfolding key_parser
key_end-Runs key k = record { eq = is_not-All key_ends key k.1 }

space_key : (key : Slice) → IsKey key → Runs space (32 ∷ key) key (32 ∷ [])
space_key key k = record { eq = rw (append-nil key) at (space_key-Runs key [] k).eq }

-- `space` fails on no input at all, where it could ask for more.
setter-Fails :
    (s : SetterType) (key : Slice) → IsKey key → Fails setter (setter_name s ++ (32 ∷ key))
unfolding setter space
setter-Fails s key k = Fails-bind _ (setter_name-Runs s key) (
    Fails-then (space_key key k)
      (Fails-bind _ (key_end-Runs key k) (Fails-first {p = space} _ (record { eq = refl }))))

others-Fail :
    (s : SetterType) (r : Slice)
    → Fails (alt deleter (alt info major_compaction)) (setter_name s ++ (32 ∷ r))
unfolding alt deleter info major_compaction tag compare ◌>>◌ ◌>>=◌
others-Fail SetterType.set r = record { eq = refl }
others-Fail SetterType.add r = record { eq = refl }
others-Fail SetterType.replace r = record { eq = refl }
others-Fail SetterType.append r = record { eq = refl }
others-Fail SetterType.prepend r = record { eq = refl }

-- For every storage command and every valid key, a buffer that holds the command up to the end of its
-- key is answered at once as an erroneous request, and the decoder empties the buffer.
pub decode-cut_behind_key :
    (s : SetterType) (key : Slice)
    → IsKey key
    → decode (setter_name s ++ (32 ∷ key)) ≡ some (some Request.error, [])
unfolding decode parse
decode-cut_behind_key s key k =
    let i = setter_name s ++ (32 ∷ key) in
    rw (
      (Fails-alt (getter-Fails s key) (Fails-alt (setter-Fails s key k) (others-Fail s key))).eq,
      drop-length i,
    )

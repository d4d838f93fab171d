-- ===== src/Parser/Tests.antt =====
-- Runs of the parser, taken from the tests of parser.rs.
use mirdb.Prelude.{◌≡◌, refl, [], ◌∷◌, ◌++◌, codes, false, true}
use mirdb.ParserUtil.{
  IrResult, take_at_least, split, opt, alt, done, done_or_panic, ◌>>=◌, ◌>>◌, space, digit,
  u32_parser, usize_parser, tag,
}
use mirdb.Request.{Request, SetterType, GetterType}
use mirdb.Parser.{parse, getter, setter, deleter, info, major_compaction, key_parser, crlf}
use mirdb.Prelude.{◌<◌, ◌≢◌, length, Slice}
use mirdb.ParserUtil.{stuck}
use mirdb.ParserUtil.Ends.{Front}
use mirdb.Parser.Fields.{IsValid, parse-ne-stuck, parse-IsValid}

runs :
    (parse (codes "gets  abc def" ++ crlf ++ codes "get")
      ≡ IrResult.ok (codes "get") (Request.getter GetterType.gets (codes "abc" ∷ codes "def" ∷ [])))
    × (parse (codes "set abc 1 0 7" ++ crlf) ≡ IrResult.incomplete 7)
    × (parse (codes "set abc 1 0 6 noreply" ++ crlf ++ codes "abcd" ++ crlf ++ crlf)
        ≡ IrResult.ok []
            (Request.setter SetterType.set (codes "abc") 1 0 6 (codes "abcd" ++ crlf) true))
    × (parse (codes "delete abc" ++ crlf) ≡ IrResult.ok [] (Request.deleter (codes "abc") false))
unfolding parse getter setter deleter info major_compaction key_parser alt take_at_least split opt
    done done_or_panic ◌>>=◌ ◌>>◌ space digit u32_parser usize_parser tag
runs = (refl, refl, refl, refl)

abbrev abc : Slice
abc = codes "abc"

abbrev two_gets : Slice
two_gets = codes "gets  abc def" ++ crlf ++ codes "get"

abbrev cut_set : Slice
cut_set = codes "set abc 1 0 7" ++ crlf

parse-ne-stuck_example : parse cut_set ≢ stuck
parse-ne-stuck_example = parse-ne-stuck cut_set

parse-IsValid_example :
    Front two_gets (codes "get")
    × (length (codes "get") < length two_gets)
    × IsValid (Request.getter GetterType.gets (abc ∷ codes "def" ∷ []))
parse-IsValid_example =
    parse-IsValid two_gets (codes "get") (Request.getter GetterType.gets (abc ∷ codes "def" ∷ []))
      runs.0

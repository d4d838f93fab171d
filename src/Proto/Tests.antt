-- ===== src/Proto/Tests.antt =====
-- Runs of the decoder.
use mirdb.Prelude.{◌≡◌, refl, some, [], ◌∷◌, ◌++◌, arith, Slice, codes, true}
use mirdb.Request.{Request, SetterType}
use mirdb.Parser.Fields.{IsKey}
use mirdb.Parser.RoundTrip.{setter_name, print_setter}
use mirdb.Proto.{decode, Progress, decode-Progress}
use mirdb.Proto.Fragments.{decode-cut_behind_key}
use mirdb.Proto.Pipeline.{decode-print_setter}

abbrev key : Slice
key = codes "abc"

key-IsKey : IsKey key
key-IsKey = (λ e. cc, (refl, (refl, (refl, tt))))

decode-Progress_example : Progress (codes "set abc 1 0 7") (decode (codes "set abc 1 0 7"))
decode-Progress_example = decode-Progress (codes "set abc 1 0 7")

decode-cut_behind_key_example :
    decode (setter_name SetterType.set ++ (32 ∷ key)) ≡ some (some Request.error, [])
decode-cut_behind_key_example = decode-cut_behind_key SetterType.set key key-IsKey

decode-print_setter_example :
    decode (print_setter SetterType.set key 12 30 (codes "x y") true (codes "get"))
    ≡ some (some (Request.setter SetterType.set key 12 30 3 (codes "x y") true), codes "get")
decode-print_setter_example =
    decode-print_setter SetterType.set key 12 30 (codes "x y") true (codes "get") key-IsKey
      (omega arith) (omega arith) (omega arith)

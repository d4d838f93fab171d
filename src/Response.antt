-- ===== src/Response.antt =====
-- mirdb-server/src/response.rs: the responses, and the bytes that `write` puts into the buffer.
use mirdb.Prelude.{
  ℕ, zero, suc, Bool, true, false, ◌&&◌, Option, none, some, List, [], ◌∷◌, ◌++◌, leb, Slice, codes,
  if◌then◌else◌,
}
use mirdb.ParserUtil.Decimal.{decimal}
use mirdb.Parser.{crlf}

pub record GetRespItem : Type 0 where
  pub key : Slice
  pub value : Slice
  pub flags : ℕ
  pub bytes : ℕ

-- `value` is the field `data` of `GetRespItem`, a reserved word here.
pub data Response : Type 0 where
  stored not_stored exists not_found : Response
  get gets : List GetRespItem → Response
  deleted touched ok : Response
  busy badclass nospare notfull unsafe same : Slice → Response
  error : Response
  client_error server_error info : Slice → Response

-- `from_utf8(..).is_ok()`, by the table of well-formed byte sequences of the Unicode standard.
abbrev between : ℕ → ℕ → ℕ → Bool
between lo hi b = leb lo b && leb b hi

abbrev second_ok : ℕ → ℕ → Bool
second_ok a b =
    if between 0xE0 0xE0 a
    then between 0xA0 0xBF b
    else if between 0xED 0xED a
    then between 0x80 0x9F b
    else if between 0xF0 0xF0 a
    then between 0x90 0xBF b
    else if between 0xF4 0xF4 a
    then between 0x80 0x8F b
    else between 0x80 0xBF b

-- The bytes that are to follow a lead byte; `none` for a byte that leads nothing.
abbrev trailing : ℕ → Option ℕ
trailing a =
    if leb a 0x7F
    then some 0
    else if between 0xC2 0xDF a
    then some 1
    else if between 0xE0 0xEF a
    then some 2
    else if between 0xF0 0xF4 a
    then some 3
    else none

-- The state is the lead byte whose second byte comes next, if one does, and the bytes still due.
unfoldable pub utf8_from : Option ℕ → ℕ → Slice → Bool
utf8_from lead zero [] = true
utf8_from lead (suc due) [] = false
utf8_from lead zero (a ∷ s) = elim (trailing a) [
  | none ↦ false
  | some due ↦ utf8_from (some a) due s
]
utf8_from none (suc due) (b ∷ s) = between 0x80 0xBF b && utf8_from none due s
utf8_from (some a) (suc due) (b ∷ s) = second_ok a b && utf8_from none due s

unfoldable pub is_utf8 : Slice → Bool
unfolding utf8_from
is_utf8 s = utf8_from none 0 s

abbrev number_text : ℕ → Slice
number_text = decimal 19

-- One `VALUE` block; `none` is the panic of `to_str(key)`.
unfoldable pub write_item : GetRespItem → Option Slice
unfolding is_utf8
write_item item =
    if is_utf8 item.key
    then some (
        codes "VALUE "
        ++ (item.key
            ++ (32
                ∷ (number_text item.flags
                    ++ (32 ∷ (number_text item.bytes ++ (crlf ++ (item.value ++ crlf))))))))
    else none

abbrev prepend_some : Slice → Option Slice → Option Slice
prepend_some a none = none
prepend_some a (some b) = some (a ++ b)

unfoldable pub write_items : List GetRespItem → Option Slice
unfolding write_item
write_items [] = some (codes "END" ++ crlf)
write_items (item ∷ items) =
    let rest = write_items items in
    elim (write_item item) [ none ↦ none | some a ↦ prepend_some a rest ]

abbrev line : Slice → Option Slice
line text = some (text ++ crlf)

-- The bytes that `Response::write` writes; `none` is a panic (`unimplemented!()` in the last case).
unfoldable pub write : Response → Option Slice
unfolding write_items
write Response.stored = line (codes "STORED")
write Response.not_stored = line (codes "NOT_STORED")
write Response.exists = line (codes "EXISTS")
write Response.not_found = line (codes "NOT_FOUND")
write (Response.get v) = write_items v
write (Response.gets v) = write_items v
write Response.deleted = line (codes "DELETED")
write Response.touched = line (codes "TOUCHED")
write Response.ok = line (codes "OK")
write Response.error = line (codes "ERROR")
write (Response.client_error e) = line (codes "CLIENT_ERROR " ++ e)
write (Response.server_error e) = line (codes "SERVER_ERROR " ++ e)
write (Response.info s) =
    line (codes "INFO" ++ (crlf ++ (crlf ++ (s ++ (crlf ++ (crlf ++ codes "END"))))))
write _ = none

-- ===== src/Parser.antt =====
-- mirdb-server/src/parser.rs: the grammar of the requests.
pub mod Fields
pub mod RoundTrip
mod Tests
use mirdb.Prelude.{
  ℕ, Bool, true, false, Option, none, some, List, [], ◌∷◌, ◌++◌, map, Slice, codes, bytes_eq,
  if◌then◌else◌,
}
use mirdb.ParserUtil.{
  Parser, is_not, tag, take_at_least, split, opt, alt, done, done_or_panic, ◌>>=◌, ◌>>◌, space,
  u32_parser, usize_parser,
}
use mirdb.Request
use mirdb.Request.{Request, SetterType, GetterType}

abbrev pub crlf : Slice
crlf = 13 ∷ 10 ∷ []

-- `b" \t\r\n\0"`
abbrev pub key_ends : Slice
key_ends = 32 ∷ 9 ∷ 13 ∷ 10 ∷ 0 ∷ []

unfoldable pub key_parser : Parser Slice
unfolding is_not
key_parser = is_not key_ends

unfoldable pub getter_name_parser : Parser Slice
unfolding alt tag
getter_name_parser = alt (tag (codes "gets")) (tag (codes "get"))

unfoldable pub setter_name_parser : Parser Slice
unfolding alt tag
setter_name_parser = alt (tag (codes "set")) (
    alt (tag (codes "add"))
      (alt (tag (codes "replace")) (alt (tag (codes "append")) (tag (codes "prepend")))))

-- `none` is the panic on a name that is not known.
unfoldable pub to_getter_type : Slice → Option GetterType
to_getter_type x =
    if bytes_eq x (codes "get")
    then some GetterType.get
    else if bytes_eq x (codes "gets")
    then some GetterType.gets
    else none

unfoldable pub to_setter_type : Slice → Option SetterType
to_setter_type x =
    if bytes_eq x (codes "set")
    then some SetterType.set
    else if bytes_eq x (codes "add")
    then some SetterType.add
    else if bytes_eq x (codes "replace")
    then some SetterType.replace
    else if bytes_eq x (codes "append")
    then some SetterType.append
    else if bytes_eq x (codes "prepend")
    then some SetterType.prepend
    else none

unfoldable pub unwrap_no_reply : Option Slice → Bool
unwrap_no_reply none = false
unwrap_no_reply (some _) = true

abbrev make_getter : List Slice → Option GetterType → Option Request
make_getter keys none = none
make_getter keys (some g) = some (Request.getter g keys)

unfoldable pub getter : Parser Request
unfolding getter_name_parser to_getter_type
getter = do
  name ← getter_name_parser
  space
  keys ← split space key_parser
  tag crlf
  done_or_panic (make_getter keys (to_getter_type name))

abbrev make_setter : Slice → ℕ → ℕ → ℕ → Slice → Bool → Option SetterType → Option Request
make_setter key flags ttl bytes payload no_reply none = none
make_setter key flags ttl bytes payload no_reply (some s) =
    some (Request.setter s key flags ttl bytes payload no_reply)

unfoldable pub setter : Parser Request
unfolding setter_name_parser to_setter_type unwrap_no_reply
setter = do
  name ← setter_name_parser
  space
  key ← key_parser
  space
  flags ← u32_parser
  space
  ttl ← u32_parser
  space
  bytes ← usize_parser
  opt space
  no_reply ← opt (tag (codes "noreply"))
  tag crlf
  payload ← take_at_least bytes crlf
  tag crlf
  done_or_panic
      (make_setter key flags ttl bytes payload (unwrap_no_reply no_reply) (to_setter_type name))

unfoldable pub deleter : Parser Request
unfolding unwrap_no_reply
deleter = do
  tag (codes "delete")
  space
  key ← key_parser
  opt space
  no_reply ← opt (tag (codes "noreply"))
  tag crlf
  done (Request.deleter key (unwrap_no_reply no_reply))

unfoldable pub info : Parser Request
info = do tag (codes "info"); tag crlf; done Request.info

unfoldable pub major_compaction : Parser Request
major_compaction = do tag (codes "major_compaction"); tag crlf; done Request.major_compaction

-- `alt!(getter | setter | deleter | info | major_compaction)`
unfoldable pub parse : Parser Request
parse = alt getter (alt setter (alt deleter (alt info major_compaction)))

-- ===== src/Proto/Pipeline.antt =====
-- A read buffer that holds more than one command.
use mirdb.Prelude.{ℕ, ◌<◌, ◌≡◌, Bool, some, length, Slice}
use mirdb.ParserUtil.{u32_bound, usize_bound}
use mirdb.Request.{Request, SetterType}
use mirdb.Parser.Fields.{IsKey, parse-IsValid}
use mirdb.Parser.RoundTrip.{print_setter, parse-print_setter}
use mirdb.Proto.{decode, drop-Front}

-- A read buffer that begins with a storage command, with a valid key, numbers in range and a payload of
-- the announced length, gives the decoder that command as its request and leaves exactly the bytes behind
-- the command in the buffer.
pub decode-print_setter :
    (s : SetterType) (key : Slice) (flags ttl : ℕ) (payload : Slice) (no_reply : Bool)
    (rest : Slice)
    → IsKey key
    → flags < u32_bound
    → ttl < u32_bound
    → length payload < usize_bound
    → decode (print_setter s key flags ttl payload no_reply rest)
      ≡ some (some (Request.setter s key flags ttl (length payload) payload no_reply), rest)
unfolding decode
decode-print_setter s key flags ttl payload no_reply rest k f t n =
    let src = print_setter s key flags ttl payload no_reply rest in
    let e = parse-print_setter s key flags ttl payload no_reply rest k f t n in
    rw (e, drop-Front src rest (parse-IsValid src rest _ e).0)

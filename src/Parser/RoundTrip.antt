-- ===== src/Parser/RoundTrip.antt =====
-- Storage commands in the memcached text format, written out.
use mirdb.Prelude.{
  ℕ, ◌<◌, ◌≡◌, refl, Bool, true, false, not, Option, none, some, [], ◌∷◌, ◌++◌, arith, length,
  Slice, codes, ◌==◌,
}
use mirdb.ParserUtil.{
  ok, err, tag, take_at_least, opt, alt, done_or_panic, ◌>>=◌, ◌>>◌, space, contains, is_digit,
  compare, u32_parser, usize_parser, u32_bound, usize_bound,
}
use mirdb.ParserUtil.Exact.{
  Runs, Fails, Runs-bind, Runs-then, Runs-alt, Runs-alt_right, Runs-opt, space_one, tag-append,
  is_not-hit, take_at_least_exact,
}
use mirdb.ParserUtil.Decimal.{decimal, digit-decimal, AreDigits, decimal-AreDigits, length-decimal}
use mirdb.Request.{Request, SetterType}
use mirdb.Parser.{
  key_ends, key_parser, getter_name_parser, setter_name_parser, to_setter_type, make_setter,
  unwrap_no_reply, crlf, getter, setter, parse,
}
use mirdb.Parser.Fields.{IsKey}

abbrev pub setter_name : SetterType → Slice
setter_name SetterType.set = codes "set"
setter_name SetterType.add = codes "add"
setter_name SetterType.replace = codes "replace"
setter_name SetterType.append = codes "append"
setter_name SetterType.prepend = codes "prepend"

-- The numeral of a number below 10 ^ 20.
abbrev numeral : ℕ → Slice
numeral = decimal 19

abbrev no_reply_text : Bool → Slice → Slice
no_reply_text false rest = rest
no_reply_text true rest = 32 ∷ (codes "noreply" ++ rest)

-- A storage command, in front of what follows it.
abbrev pub print_setter : SetterType → Slice → ℕ → ℕ → Slice → Bool → Slice → Slice
print_setter s key flags ttl payload no_reply rest =
    setter_name s
    ++ (32
        ∷ (key
            ++ (32
                ∷ (numeral flags
                    ++ (32
                        ∷ (numeral ttl
                            ++ (32
                                ∷ (numeral (length payload)
                                    ++ no_reply_text no_reply
                                        (crlf ++ (payload ++ (crlf ++ rest)))))))))))

space-Runs : (c : ℕ) (r : Slice) → (c == 32) ≡ false → Runs space (32 ∷ c ∷ r) (c ∷ r) (32 ∷ [])
space-Runs c r h = record { eq = space_one c r h }

tag-Runs : (t r : Slice) → Runs (tag t) (t ++ r) r t
tag-Runs t r = record { eq = tag-append t r }

-- A byte of a key is no space, and a key is ended by one.
key-Runs : (key r : Slice) → IsKey key → Runs key_parser (key ++ 32 ∷ r) (32 ∷ r) key
unfolding key_parser
key-Runs key r k = record { eq = is_not-hit key_ends key 32 r k.0 k.1 refl }

pub no_space : (c : ℕ) → contains key_ends c ≡ false → (c == 32) ≡ false
no_space c h = ground arith

pub space_key-Runs : (key r : Slice) → IsKey key → Runs space (32 ∷ (key ++ r)) (key ++ r) (32 ∷ [])
space_key-Runs [] r k = absurd (k.0 refl)
space_key-Runs (c ∷ key) r k = space-Runs c (key ++ r) (no_space c k.1.0)

pub getter-Fails : (s : SetterType) (r : Slice) → Fails getter (setter_name s ++ (32 ∷ r))
unfolding getter getter_name_parser alt tag compare ◌>>=◌
getter-Fails SetterType.set r = record { eq = refl }
getter-Fails SetterType.add r = record { eq = refl }
getter-Fails SetterType.replace r = record { eq = refl }
getter-Fails SetterType.append r = record { eq = refl }
getter-Fails SetterType.prepend r = record { eq = refl }

pub miss : (t i : Slice) → tag t i ≡ err → Fails (tag t) i
miss t i e = record { eq = e }

pub setter_name-Runs :
    (s : SetterType) (r : Slice)
    → Runs setter_name_parser (setter_name s ++ (32 ∷ r)) (32 ∷ r) (setter_name s)
unfolding setter_name_parser tag compare
setter_name-Runs SetterType.set r = Runs-alt _ (tag-Runs (codes "set") (32 ∷ r))
setter_name-Runs SetterType.add r =
    Runs-alt_right (miss (codes "set") _ refl) (Runs-alt _ (tag-Runs (codes "add") (32 ∷ r)))
setter_name-Runs SetterType.replace r =
    Runs-alt_right (miss (codes "set") _ refl) (
      Runs-alt_right (miss (codes "add") _ refl) (Runs-alt _ (tag-Runs (codes "replace") (32 ∷ r))))
setter_name-Runs SetterType.append r = Runs-alt_right (miss (codes "set") _ refl) (
    Runs-alt_right (miss (codes "add") _ refl) (
      Runs-alt_right (miss (codes "replace") _ refl)
        (Runs-alt _ (tag-Runs (codes "append") (32 ∷ r)))))
setter_name-Runs SetterType.prepend r = Runs-alt_right (miss (codes "set") _ refl) (
    Runs-alt_right (miss (codes "add") _ refl) (
      Runs-alt_right (miss (codes "replace") _ refl)
        (Runs-alt_right (miss (codes "append") _ refl) (tag-Runs (codes "prepend") (32 ∷ r)))))

no_space_digit : (c : ℕ) → not (is_digit c) ≡ false → (c == 32) ≡ false
unfolding is_digit
no_space_digit c h = ground arith

digits_behind_space :
    (s r : Slice) → AreDigits s → 0 < length s → Runs space (32 ∷ (s ++ r)) (s ++ r) (32 ∷ [])
digits_behind_space [] r a h = absurd (omega arith)
digits_behind_space (c ∷ s) r a h = space-Runs c (s ++ r) (no_space_digit c a.0)

-- A numeral behind a space, and its value in front of a byte that is no digit.
space-numeral-Runs :
    (n : ℕ) (r : Slice) → Runs space (32 ∷ (numeral n ++ r)) (numeral n ++ r) (32 ∷ [])
space-numeral-Runs n r =
    digits_behind_space (numeral n) r (decimal-AreDigits 19 n) (length-decimal 19 n)

u32-Runs :
    (n c : ℕ) (r : Slice)
    → n < u32_bound
    → not (is_digit c) ≡ true
    → Runs u32_parser (numeral n ++ c ∷ r) (c ∷ r) n
unfolding u32_parser
u32-Runs n c r h d = record { eq = digit-decimal u32_bound 19 n c r (omega arith) h d }

usize-Runs :
    (n c : ℕ) (r : Slice)
    → n < usize_bound
    → not (is_digit c) ≡ true
    → Runs usize_parser (numeral n ++ c ∷ r) (c ∷ r) n
unfolding usize_parser
usize-Runs n c r h d = record { eq = digit-decimal usize_bound 19 n c r (omega arith) h d }

-- The line's end and the payload, for what the last step makes of the payload.
module _ (req : Slice → Bool → Option Request) (made : Slice → Bool → Request)
    (e : (p : Slice) (b : Bool) → req p b ≡ some (made p b)) (payload rest : Slice) where
  payload_end :
      (b : Bool)
      → Runs
          (tag crlf
            >> (take_at_least (length payload) crlf >>= λ p. tag crlf >> done_or_panic (req p b)))
          (crlf ++ (payload ++ (crlf ++ rest)))
          rest
          (made payload b)
  unfolding done_or_panic
  payload_end b = Runs-then (tag-Runs crlf (payload ++ (crlf ++ rest))) (
      Runs-bind _ (record { eq = take_at_least_exact payload rest 13 (10 ∷ []) })
        (Runs-then (tag-Runs crlf rest) (record { eq = rw (e payload b, done_or_panic) })))

  line_end :
      (no_reply : Bool)
      → Runs
          (opt space
            >> (opt (tag (codes "noreply")) >>= λ nr.
                tag crlf
                >> (take_at_least (length payload) crlf >>= λ p.
                    tag crlf >> done_or_panic (req p (unwrap_no_reply nr)))))
          (no_reply_text no_reply (crlf ++ (payload ++ (crlf ++ rest))))
          rest
          (made payload no_reply)
  unfolding opt space tag compare unwrap_no_reply
  line_end false =
      Runs-then {a = none} (record { eq = refl })
        (Runs-bind {a = none} _ (record { eq = refl }) (payload_end false))
  line_end true = Runs-then (Runs-opt (space-Runs 110 _ refl)) (
      Runs-bind _ (Runs-opt (tag-Runs (codes "noreply") (crlf ++ (payload ++ (crlf ++ rest)))))
        (payload_end true))

known_setter : (s : SetterType) → to_setter_type (setter_name s) ≡ some s
unfolding to_setter_type
known_setter SetterType.set = refl
known_setter SetterType.add = refl
known_setter SetterType.replace = refl
known_setter SetterType.append = refl
known_setter SetterType.prepend = refl

setter-Runs :
    (s : SetterType) (key : Slice) (flags ttl : ℕ) (payload : Slice) (no_reply : Bool)
    (rest : Slice)
    → IsKey key
    → flags < u32_bound
    → ttl < u32_bound
    → length payload < usize_bound
    → Runs setter
        (print_setter s key flags ttl payload no_reply rest)
        rest
        (Request.setter s key flags ttl (length payload) payload no_reply)
unfolding setter is_digit
setter-Runs s key flags ttl payload no_reply rest k f t n = Runs-bind _ (setter_name-Runs s _) (
    Runs-then (space_key-Runs key _ k) (
      Runs-bind _ (key-Runs key _ k) (
        Runs-then (space-numeral-Runs flags _) (
          Runs-bind _ (u32-Runs flags 32 _ f refl) (
            Runs-then (space-numeral-Runs ttl _) (
              Runs-bind _ (u32-Runs ttl 32 _ t refl) (
                Runs-then (space-numeral-Runs (length payload) _) (
                  Runs-bind _ (length-Runs no_reply) (
                    line_end
                      (λ p b.
                        make_setter key flags ttl (length payload) p b
                          (to_setter_type (setter_name s)))
                      (λ p b. Request.setter s key flags ttl (length payload) p b)
                      (λ p b. rw (known_setter s)) payload rest no_reply)))))))))
  where
    length-Runs :
        (b : Bool)
        → Runs usize_parser
            (numeral (length payload) ++ no_reply_text b (crlf ++ (payload ++ (crlf ++ rest))))
            (no_reply_text b (crlf ++ (payload ++ (crlf ++ rest))))
            (length payload)
    length-Runs false = usize-Runs (length payload) 13 _ n refl
    length-Runs true = usize-Runs (length payload) 32 _ n refl

-- A storage command with a valid key, numbers in range and a payload of the announced length, written
-- out in the text format, is parsed back to its request, with what follows it left over.
pub parse-print_setter :
    (s : SetterType) (key : Slice) (flags ttl : ℕ) (payload : Slice) (no_reply : Bool)
    (rest : Slice)
    → IsKey key
    → flags < u32_bound
    → ttl < u32_bound
    → length payload < usize_bound
    → parse (print_setter s key flags ttl payload no_reply rest)
      ≡ ok rest (Request.setter s key flags ttl (length payload) payload no_reply)
unfolding parse
parse-print_setter s key flags ttl payload no_reply rest k f t n =
    (Runs-alt_right (getter-Fails s _)
      (Runs-alt _ (setter-Runs s key flags ttl payload no_reply rest k f t n))).eq

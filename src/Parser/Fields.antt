-- ===== src/Parser/Fields.antt =====
-- What a successful parse returns: a proper rest of the input, and fields in their ranges.
use mirdb.Prelude.{
  ℕ, ◌≤◌, ◌<◌, ◌≡◌, refl, ap, sym, ◌≢◌, inl, inr, some, List, [], ◌++◌, arith, length,
  length-append, All, Slice, codes,
}
use mathlib.Core.Path.{subst}
use mirdb.ParserUtil.{
  ok, stuck, tag, take_at_least, split, opt, done, ◌>>◌, space, contains, u32_parser, usize_parser,
  u32_bound, usize_bound,
}
use mirdb.ParserUtil.Ends.{
  Ends, Ends-weaken, Gives, Meets, Meets-alt, Meets-opt, Gives-bind, Gives-then, Gives-done,
  Gives-done_or_panic, Front, Front-trans, length-Front,
}
use mirdb.ParserUtil.Basic.{Taken, is_not-Taken, space-Front, digit-lt, tag-exact, take_at_least-le}
use mirdb.ParserUtil.Split.{IsItem, length_pos, Items, split-Items}
use mirdb.Request.{Request, SetterType, GetterType}
use mirdb.Parser.{
  key_ends, key_parser, getter_name_parser, setter_name_parser, to_getter_type, to_setter_type,
  crlf, unwrap_no_reply, getter, setter, deleter, info, major_compaction, parse,
}

-- A key is not empty and has none of the bytes of `key_ends`.
abbrev pub IsKey : Slice → Type 0
IsKey = IsItem (contains key_ends)

abbrev pub IsValid : Request → Type 0
IsValid (Request.getter g keys) = (keys ≢ []) × All IsKey keys
IsValid (Request.setter s key flags ttl bytes payload no_reply) =
    IsKey key
    × (flags < u32_bound)
    × (ttl < u32_bound)
    × (bytes < usize_bound)
    × (bytes ≤ length payload)
IsValid (Request.deleter key no_reply) = IsKey key
IsValid _ = Unit

-- `rest` is a proper rest of `i`.
abbrev pub Below : Slice → Slice → Type 0
Below i rest = Front i rest × (length rest < length i)

Below-Front : {i r s : Slice} → Below i r → Front r s → Below i s
Below-Front {i} {r} {s} (f, l) g = (Front-trans f g, omega (arith, length-Front r s g))

abbrev pub Sound : Slice → Slice → Request → Type 0
Sound i rest req = Below i rest × IsValid req

Below-tag : (t i rest : Slice) → 0 < length t → t ++ rest ≡ i → Below i rest
Below-tag t i rest h e = ((t, e), omega (arith, length-append t rest, ap length e))

tag-Front : (t i : Slice) → Ends (λ rest o. Front i rest) (tag t i)
tag-Front t i =
    Ends-weaken (λ rest o. (o ≡ t) × (t ++ rest ≡ i)) (λ rest o. Front i rest) (tag t i)
      (λ rest o h. (t, h.1)) (tag-exact t i)

-- A tag of a name parser, with a property of the name.
tag_name :
    (P : Slice → Type 0) (t : Slice)
    → 0 < length t
    → P t
    → Meets (tag t) (λ i rest name. Below i rest × P name)
tag_name P t h pt = record {
  at = λ i.
      Ends-weaken (λ rest o. (o ≡ t) × (t ++ rest ≡ i)) (λ rest name. Below i rest × P name)
        (tag t i) (λ rest o e. (Below-tag t i rest h e.1, subst P (sym e.0) pt)) (tag-exact t i);
}

-- The names that `to_getter_type` and `to_setter_type` know.
abbrev IsGetterName : Slice → Type 0
IsGetterName name = (g : GetterType) × (to_getter_type name ≡ some g)

abbrev IsSetterName : Slice → Type 0
IsSetterName name = (s : SetterType) × (to_setter_type name ≡ some s)

IsGetterName-Meets : Meets getter_name_parser (λ i rest name. Below i rest × IsGetterName name)
unfolding getter_name_parser to_getter_type
IsGetterName-Meets =
    let named = tag_name IsGetterName in
    Meets-alt (named (codes "gets") (omega arith) (GetterType.gets, refl))
      (named (codes "get") (omega arith) (GetterType.get, refl))

IsSetterName-Meets : Meets setter_name_parser (λ i rest name. Below i rest × IsSetterName name)
unfolding setter_name_parser to_setter_type
IsSetterName-Meets =
    let named = tag_name IsSetterName in
    Meets-alt (named (codes "set") (omega arith) (SetterType.set, refl)) (
      Meets-alt (named (codes "add") (omega arith) (SetterType.add, refl)) (
        Meets-alt (named (codes "replace") (omega arith) (SetterType.replace, refl)) (
          Meets-alt (named (codes "append") (omega arith) (SetterType.append, refl))
            (named (codes "prepend") (omega arith) (SetterType.prepend, refl)))))

key-Meets : Meets key_parser (λ i rest o. Taken (contains key_ends) i rest o)
unfolding key_parser
key-Meets = record { at = is_not-Taken key_ends }

space-Meets : Meets space (λ i rest o. Front i rest × (length rest < length i))
space-Meets = record { at = space-Front }

keys-Meets : Meets (split space key_parser) (λ i rest os. Items (contains key_ends) i rest os)
keys-Meets = record {
  at = split-Items (contains key_ends) space key_parser space-Front key-Meets.at;
}

crlf-Meets : Meets (tag crlf) (λ i rest o. Front i rest × (i ≢ []))
crlf-Meets = record {
  at = λ i.
      Ends-weaken (λ rest o. (o ≡ crlf) × (crlf ++ rest ≡ i)) (λ rest o. Front i rest × (i ≢ [])) _
        (λ rest o h. ((crlf, h.1), λ e. cc (e, h.1))) (tag-exact crlf i);
}

space-opt-Meets : Meets (opt space) (λ i rest o. Front i rest)
space-opt-Meets = Meets-opt (record {
  at = λ i.
      Ends-weaken (λ rest o. Front i rest × (length rest < length i)) (λ rest o. Front i rest) _
        (λ rest o h. h.0) (space-Front i);
})

no_reply-Meets : Meets (opt (tag (codes "noreply"))) (λ i rest o. Front i rest)
no_reply-Meets = Meets-opt (record { at = tag-Front (codes "noreply") })

u32-Meets : Meets u32_parser (λ i rest n. Front i rest × (n < u32_bound))
unfolding u32_parser
u32-Meets = record { at = digit-lt u32_bound }

usize-Meets : Meets usize_parser (λ i rest n. Front i rest × (n < usize_bound))
unfolding usize_parser
usize-Meets = record { at = digit-lt usize_bound }

payload-Meets : (n : ℕ) → Meets (take_at_least n crlf) (λ i rest o. Front i rest × (n ≤ length o))
payload-Meets n = record { at = take_at_least-le n crlf }

good-Items :
    (i rest : Slice) (keys : List Slice)
    → Items (contains key_ends) i rest keys
    → rest ≢ []
    → All IsKey keys
good-Items i rest keys (f, ne, inl e) h = absurd (h e)
good-Items i rest keys (f, ne, inr a) h = a

-- The key is not empty where the input goes on behind it.
good-IsKey :
    (i rest key : Slice) → Taken (contains key_ends) i rest key → 0 < length rest → IsKey key
good-IsKey i rest key (e, a, z) h = ((λ q. absurd (omega (arith, ap length (z q)))), a)

getter_chain : (i : Slice) → Gives getter i (Sound i)
unfolding getter
getter_chain i = Gives-bind IsGetterName-Meets λ r₁ name h. Gives-then space-Meets λ r₂ _ s.
    Gives-bind keys-Meets λ r₃ keys k. Gives-then crlf-Meets λ r₄ _ (f, ne).
      Gives-done_or_panic (Request.getter h.1.0 keys) (rw h.1.1)
        (Below-Front (Below-Front (Below-Front h.0 s.0) k.0) f, (k.1, good-Items r₂ r₃ keys k ne))

setter_chain : (i : Slice) → Gives setter i (Sound i)
unfolding setter
setter_chain i = Gives-bind IsSetterName-Meets λ r₁ name h. Gives-then space-Meets λ r₂ _ s₁.
    Gives-bind key-Meets λ r₃ key k. Gives-then space-Meets λ r₄ _ s₂.
      Gives-bind u32-Meets λ r₅ flags f. Gives-then space-Meets λ r₆ _ s₃.
        Gives-bind u32-Meets λ r₇ ttl t. Gives-then space-Meets λ r₈ _ s₄.
          Gives-bind usize-Meets λ r₉ bytes n. Gives-then space-opt-Meets λ r₁₀ _ o₁.
            Gives-bind no_reply-Meets λ r₁₁ no_reply o₂. Gives-then crlf-Meets λ r₁₂ _ c₁.
              Gives-bind (payload-Meets bytes) λ r₁₃ payload p. Gives-then crlf-Meets λ r₁₄ _ c₂.
                Gives-done_or_panic
                  (Request.setter h.1.0 key flags ttl bytes payload (unwrap_no_reply no_reply))
                  (rw (h.1.1))
                  (
                    Below-Front h.0 (
                        Front-trans s₁.0 (
                          Front-trans (key, k.0)
                            (Front-trans s₂.0 (
                              Front-trans f.0 (
                                Front-trans s₃.0 (
                                  Front-trans t.0 (
                                    Front-trans s₄.0 (
                                      Front-trans n.0 (
                                        Front-trans o₁ (
                                          Front-trans o₂
                                            (Front-trans c₁.0 (Front-trans p.0 c₂.0)))))))))))),
                    (good-IsKey r₂ r₃ key k (omega arith), f.1, t.1, n.1, p.1),
                  )

deleter_chain : (i : Slice) → Gives deleter i (Sound i)
unfolding deleter
deleter_chain i = Gives-then (tag_name (λ _. Unit) (codes "delete") (omega arith) tt) λ r₁ _ b.
    Gives-then space-Meets λ r₂ _ s. Gives-bind key-Meets λ r₃ key k.
      Gives-then space-opt-Meets λ r₄ _ o₁. Gives-bind no_reply-Meets λ r₅ no_reply o₂.
        Gives-then crlf-Meets λ r₆ _ c.
          Gives-done (Request.deleter key (unwrap_no_reply no_reply)) (
            Below-Front b.0
                (Front-trans s.0 (Front-trans (key, k.0) (Front-trans o₁ (Front-trans o₂ c.0)))),
            good-IsKey r₂ r₃ key k
                (omega (arith, length-Front r₃ r₅ (Front-trans o₁ o₂), length_pos r₅ c.1)),
          )

word_chain :
    (t : Slice) (req : Request) (i : Slice)
    → 0 < length t
    → IsValid req
    → Gives (tag t >> (tag crlf >> done req)) i (Sound i)
word_chain t req i h v =
    Gives-then (tag_name (λ _. Unit) t h tt)
      λ r₁ _ b. Gives-then crlf-Meets λ r₂ _ c. Gives-done req (Below-Front b.0 c.0, v)

parse-Meets : Meets parse Sound
unfolding parse info major_compaction
parse-Meets =
    Meets-alt (record { at = λ i. (getter_chain i).ends })
      (Meets-alt (record { at = λ i. (setter_chain i).ends })
        (Meets-alt (record { at = λ i. (deleter_chain i).ends })
          (Meets-alt
            (record { at = λ i. (word_chain (codes "info") Request.info i (omega arith) tt).ends })
            (record {
              at = λ i.
                  (word_chain (codes "major_compaction") Request.major_compaction i (omega arith)
                    tt).ends;
            }))))

-- On no input does the parser panic, and no loop of its model runs out of fuel.
pub parse-ne-stuck : (i : Slice) → parse i ≢ stuck
parse-ne-stuck i e = rw (e, Ends) at (parse-Meets.at i)

-- Whenever the parser accepts, what is left is a proper rest of the input, behind the bytes of the
-- request; a getter has a key at least; every key is non-empty and free of the bytes that end a key;
-- flags and ttl fit a u32 and the announced length a usize; the payload has at least that length.
pub parse-IsValid :
    (i rest : Slice) (req : Request)
    → parse i ≡ ok rest req
    → Front i rest × (length rest < length i) × IsValid req
parse-IsValid i rest req e =
    let h : Sound i rest req = rw (e, Ends) at (parse-Meets.at i) in (h.0.0, h.0.1, h.1)

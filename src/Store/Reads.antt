-- ===== src/Store/Reads.antt =====
-- What GET and DELETE answer, and what a client reads back after a storage command.
use mathlib.Core.Path.{subst}
use mirdb.Prelude.{
  ℕ, ◌+◌, ◌≡◌, refl, sym, ap, ◌∙◌, Bool, Option, none, some, List, [], ◌∷◌, ◌++◌, append-nil,
  append_assoc, arith, length, ltb, ◌||◌, ◌==◌, Slice, bytes_eq, bytes_eq_refl, if◌then◌else◌,
}
use mirdb.Error.{MyResult, pure, pass}
use mirdb.Request.{Request, SetterType, GetterType}
use mirdb.Response.{Response, GetRespItem}
use mirdb.Payload.{StorePayload, is_expired}
use mirdb.Store.{DataOps, live_item, respond, get_all, apply, removed}
use mirdb.Store.Data.{DataLaws}
use mirdb.Store.Commands.{new_payload, apply-setter}

-- The items of the keys that show a payload whose ttl is 0 or has not run out, in the order of the keys.
abbrev pub items : ℕ → (Slice → Option StorePayload) → List Slice → List GetRespItem
items now view [] = []
items now view (key ∷ keys) =
    let rest = items now view keys in
    elim (view key) [
      | none ↦ rest
      | some sp ↦
          if sp.ttl == 0 || ltb now (sp.created_at + sp.ttl)
          then record { key = key; value = sp.value; flags = sp.flags; bytes = sp.bytes } ∷ rest
          else rest
    ]

abbrev pub answered : GetterType → List GetRespItem → Response
answered GetterType.get v = Response.get v
answered GetterType.gets v = Response.gets v

respond-answered : (g : GetterType) (v : List GetRespItem) → respond g v ≡ answered g v
unfolding respond
respond-answered GetterType.get v = refl
respond-answered GetterType.gets v = refl

live_item-items :
    (now : ℕ) (key : Slice) (old : Option StorePayload) (rest : List GetRespItem)
    → live_item now key old ++ rest ≡ elim old [
      | none ↦ rest
      | some sp ↦
          if sp.ttl == 0 || ltb now (sp.created_at + sp.ttl)
          then record { key = key; value = sp.value; flags = sp.flags; bytes = sp.bytes } ∷ rest
          else rest
    ]
unfolding live_item is_expired
live_item-items now key none rest = refl
live_item-items now key (some sp) rest = ground arith

module _ (d : DataOps) (laws : DataLaws d) where
  open d use {State}
  open laws use {IsOpen, view}

  abbrev Read :
      ℕ → List Slice → List GetRespItem → State → State × MyResult (List GetRespItem) → Type 0
  Read now keys v s p =
      (r : List GetRespItem) → p.1 ≡ MyResult.ok r → (r ≡ v ++ items now (view s) keys) × (p.0 ≡ s)

  get_all-items :
      (now : ℕ) (keys : List Slice) (v : List GetRespItem) (s : State)
      → IsOpen s
      → Read now keys v s (get_all d now keys v s)
  unfolding get_all
  get_all-items now [] v s o = λ r h. (cc (append-nil v), refl)
  get_all-items now (key ∷ keys) v s o = go (λ w. get_all-items now keys w s o) (d.get key s) refl
    where
      rest :
          ((w : List GetRespItem) → Read now keys w s (get_all d now keys w s))
          → (old : Option StorePayload) (s' : State) → s ≡ s'
          → old ≡ view s key
          → Read now (key ∷ keys) v s (get_all d now keys (v ++ live_item now key old) s')
      rest ih old s' same found r h =
          let w = v ++ live_item now key old in
          let (a, b) = subst (λ u. Read now keys w s (get_all d now keys w u)) same (ih w) r h in
          (
            a
                ∙ append_assoc v (live_item now key old) (items now (view s) keys)
                ∙ ap (λ t. v ++ t)
                    (live_item-items now key old (items now (view s) keys)
                      ∙ ap
                          (λ o. elim o as (λ x. List GetRespItem) [
                            | none ↦ items now (view s) keys
                            | some sp ↦
                                if sp.ttl == 0 || ltb now (sp.created_at + sp.ttl)
                                then record {
                                  key = key;
                                  value = sp.value;
                                  flags = sp.flags;
                                  bytes = sp.bytes;
                                }
                                  ∷ items now (view s) keys
                                else items now (view s) keys
                          ])
                          found),
            b,
          )

      go :
          ((w : List GetRespItem) → Read now keys w s (get_all d now keys w s))
          → (p : State × MyResult (Option StorePayload)) → d.get key s ≡ p
          → Read now
              (key ∷ keys)
              v
              s
              (pass (λ o s'. get_all d now keys (v ++ live_item now key o) s') p)
      go ih (s', MyResult.ok old) e =
          rest ih old s' (sym (laws.get_same key s) ∙ ap (λ p. p.0) e)
            (laws.get_view key s old o (ap (λ p. p.1) e))
      go ih (s', MyResult.err x) e = λ r h. cc
      go ih (s', MyResult.panic) e = λ r h. cc

-- A getter that does not fail answers, for each of its keys in order, with the payload that the key shows
-- if its ttl is 0 or has not run out, as GET or as GETS, and changes nothing.
pub apply-getter :
    (d : DataOps) (laws : DataLaws d) (now : ℕ) (g : GetterType) (keys : List Slice) (s : d.State)
    (r : Response)
    → laws.IsOpen s
    → (apply d now (Request.getter g keys) s).1 ≡ MyResult.ok r
    → (r ≡ answered g (items now (laws.view s) keys))
      × ((apply d now (Request.getter g keys) s).0 ≡ s)
unfolding apply
apply-getter d laws now g keys s r o =
    go (get_all d now keys [] s) (get_all-items d laws now keys [] s o)
  where
    go :
        (p : d.State × MyResult (List GetRespItem))
        → Read d laws now keys [] s p
        → (pass (λ v. pure (respond g v)) p).1 ≡ MyResult.ok r
        → (r ≡ answered g (items now (laws.view s) keys))
          × ((pass (λ v. pure (respond g v)) p).0 ≡ s)
    go (s', MyResult.ok v) f h =
        let (a, b) = f v refl in
        let e : respond g v ≡ answered g (items now (laws.view s) keys) =
          respond-answered g v ∙ ap (answered g) a in
        let h' : MyResult.ok (respond g v) ≡ MyResult.ok r = h in (cc, b)
    go (s', MyResult.err x) f h = cc
    go (s', MyResult.panic) f h = cc

-- A GET of a key that shows a payload.
pub get-seen :
    (d : DataOps) (laws : DataLaws d) (later : ℕ) (k : Slice) (sp : StorePayload) (s : d.State)
    (r : Response)
    → laws.IsOpen s
    → laws.view s k ≡ some sp
    → (apply d later (Request.getter GetterType.get (k ∷ [])) s).1 ≡ MyResult.ok r
    → r
      ≡ Response.get (
          if sp.ttl == 0 || ltb later (sp.created_at + sp.ttl)
          then record { key = k; value = sp.value; flags = sp.flags; bytes = sp.bytes } ∷ []
          else [])
get-seen d laws later k sp s r o seen h =
    let read = apply-getter d laws later GetterType.get (k ∷ []) s r o h in
    read.0
    ∙ ap
        (λ o. Response.get (elim o as (λ x. List GetRespItem) [
          | none ↦ []
          | some p ↦
              if p.ttl == 0 || ltb later (p.created_at + p.ttl)
              then record { key = k; value = p.value; flags = p.flags; bytes = p.bytes } ∷ []
              else []
        ]))
        seen

-- After a successful SET, a GET of the key returns the payload with its flags and length, as long as
-- the ttl is 0 or has not run out; from then on it returns nothing.
pub get-set :
    (d : DataOps) (laws : DataLaws d) (now later : ℕ) (k : Slice) (flags ttl : ℕ) (payload : Slice)
    (no_reply : Bool) (s s' : d.State) (r r' : Response)
    → laws.IsOpen s
    → apply d now (Request.setter SetterType.set k flags ttl (length payload) payload no_reply) s
      ≡ (s', MyResult.ok r)
    → (apply d later (Request.getter GetterType.get (k ∷ [])) s').1 ≡ MyResult.ok r'
    → (r ≡ Response.stored)
      × (r'
          ≡ Response.get (
              if ttl == 0 || ltb later (now + ttl)
              then record { key = k; value = payload; flags = flags; bytes = length payload } ∷ []
              else []))
get-set d laws now later k flags ttl payload no_reply s s' r r' o e h =
    let sp = new_payload now flags ttl payload in
    let (o₁, a, v) =
      apply-setter d laws now SetterType.set k flags ttl payload no_reply s r o (ap (λ p. p.1) e) in
    let state = ap (λ (p : d.State × MyResult Response). p.0) e in
    let seen : laws.view s' k ≡ some sp =
      subst (λ u. laws.view u k ≡ some sp) state (v k ∙ rw (bytes_eq_refl k)) in
    (a, get-seen d laws later k sp s' r' (subst laws.IsOpen state o₁) seen h)

-- A successful DELETE answers DELETED exactly if the key showed a payload, expired or not; afterwards
-- the key shows nothing and the other keys what they did.
pub apply-deleter :
    (d : DataOps) (laws : DataLaws d) (now : ℕ) (k : Slice) (no_reply : Bool) (s : d.State)
    (r : Response)
    → laws.IsOpen s
    → (apply d now (Request.deleter k no_reply) s).1 ≡ MyResult.ok r
    → (r ≡ elim (laws.view s k) [ none ↦ Response.not_found | some v ↦ Response.deleted ])
      × ((j : Slice)
          → laws.view (apply d now (Request.deleter k no_reply) s).0 j
            ≡ (if bytes_eq k j then none else laws.view s j))
unfolding apply removed
apply-deleter d laws now k no_reply s r o = go (d.remove k s) refl
  where
    go :
        (p : d.State × MyResult (Option StorePayload))
        → d.remove k s ≡ p
        → (pass (λ q. pure (removed d q)) p).1 ≡ MyResult.ok r
        → (r ≡ elim (laws.view s k) [ none ↦ Response.not_found | some v ↦ Response.deleted ])
          × ((j : Slice)
              → laws.view (pass (λ q. pure (removed d q)) p).0 j
                ≡ (if bytes_eq k j then none else laws.view s j))
    go (s', MyResult.ok q) e h =
        let (o', a, v) = laws.remove_view k s q o (ap (λ p. p.1) e) in
        (rw (← a) (cc h), λ j. rw (ap (λ p. p.0) e) at (v j))
    go (s', MyResult.err x) e h = cc
    go (s', MyResult.panic) e h = cc

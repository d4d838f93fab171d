-- ===== src/Store/Safety.antt =====
-- `apply` on the requests that the parser lets through, and panics.
use mirdb.Prelude.{
  ℕ, ◌≤◌, ◌≡◌, refl, ◌≢◌, Bool, true, false, Option, none, some, List, [], ◌∷◌, ◌++◌, arith, length,
  take, ltb, Slice, if◌then◌else◌,
}
use mirdb.ParserUtil.{ok}
use mirdb.Parser.{parse}
use mirdb.Parser.Fields.{IsValid, parse-IsValid}
use mirdb.Error.{Status, MyResult, Action, pure, pass}
use mirdb.Request.{Request, SetterType}
use mirdb.Response.{Response, GetRespItem}
use mirdb.Payload.{StorePayload}
use mirdb.Store.{
  DataOps, live_item, respond, get_all, store_it, set_found, set_payload, apply, removed, bad_chunk,
}

-- In the states of an invariant, which its operations keep also where they fail, the data manager does not
-- panic.
pub record IsSteady (d : DataOps) : Type 1 where
  pub IsSafe : d.State → Type 0
  pub get_safe :
      (k : Slice) (s : d.State) → IsSafe s → ((d.get k s).1 ≢ MyResult.panic) × IsSafe (d.get k s).0
  pub insert_safe :
      (k : Slice) (v : StorePayload) (s : d.State)
      → IsSafe s
      → ((d.insert k v s).1 ≢ MyResult.panic) × IsSafe (d.insert k v s).0
  pub remove_safe :
      (k : Slice) (s : d.State)
      → IsSafe s
      → ((d.remove k s).1 ≢ MyResult.panic) × IsSafe (d.remove k s).0
  pub compaction_safe :
      (s : d.State)
      → IsSafe s
      → ((d.major_compaction s).1 ≢ MyResult.panic) × IsSafe (d.major_compaction s).0

pub ok-ne-panic : {A : Type 0} (a : A) → MyResult.ok a ≢ MyResult.panic
ok-ne-panic a e = cc

pub err-ne-panic :
    (A : Type 0) (x : Status) (r : MyResult A) → r ≡ MyResult.err x → r ≢ MyResult.panic
err-ne-panic A x r h e = cc

leb-not_ltb : (a b : ℕ) → a ≤ b → ltb b a ≡ false
leb-not_ltb a b h = ground arith

-- A result that is no panic, in a state of the invariant.
abbrev pub IsFine : {S A : Type 0} → (S → Type 0) → S × MyResult A → Type 0
IsFine P p = (p.1 ≢ MyResult.panic) × P p.0

pub pass-IsFine :
    {S A B : Type 0} (P : S → Type 0) (f : A → Action S B) (p : S × MyResult A)
    → IsFine P p
    → ((a : A) (s : S) → P s → IsFine P (f a s))
    → IsFine P (pass f p)
pass-IsFine P f (s, MyResult.ok a) h g = g a s h.1
pass-IsFine {B = B} P f (s, MyResult.err x) h g = (err-ne-panic B x (MyResult.err x) refl, h.1)
pass-IsFine P f (s, MyResult.panic) h g = absurd (h.0 refl)

pub pass_ne_panic :
    {S A B : Type 0} (f : A → Action S B) (p : S × MyResult A)
    → p.1 ≢ MyResult.panic
    → ((a : A) (s : S) → (f a s).1 ≢ MyResult.panic)
    → (pass f p).1 ≢ MyResult.panic
pass_ne_panic f p h g = (pass-IsFine (λ s. Unit) f p (h, tt) (λ a s i. (g a s, tt))).0

module _ (d : DataOps) (steady : IsSteady d) where
  open d use {State}
  open steady use {IsSafe}

  if-IsFine :
      {A : Type 0} (b : Bool) (x y : State × MyResult A)
      → IsFine IsSafe x
      → IsFine IsSafe y
      → IsFine IsSafe (if b then x else y)
  if-IsFine true x y g h = g
  if-IsFine false x y g h = h

  else-IsFine :
      {A : Type 0} (b : Bool) (x y : State × MyResult A)
      → b ≡ false
      → IsFine IsSafe y
      → IsFine IsSafe (if b then x else y)
  else-IsFine true x y e h = cc
  else-IsFine false x y e h = h

  pure-IsFine : (r : Response) (s : State) → IsSafe s → IsFine IsSafe (pure {S = State} r s)
  pure-IsFine r s i = (ok-ne-panic r, i)

  get_all-IsFine :
      (now : ℕ) (keys : List Slice) (v : List GetRespItem) (s : State)
      → IsSafe s
      → IsFine IsSafe (get_all d now keys v s)
  unfolding get_all
  get_all-IsFine now [] v s i = (ok-ne-panic v, i)
  get_all-IsFine now (k ∷ keys) v s i =
      pass-IsFine IsSafe (λ p. get_all d now keys (v ++ live_item now k p)) (d.get k s)
        (steady.get_safe k s i) (λ p s' i'. get_all-IsFine now keys (v ++ live_item now k p) s' i')

  store_it-IsFine :
      (k : Slice) (sp : StorePayload) (s : State) → IsSafe s → IsFine IsSafe (store_it d k sp s)
  unfolding store_it
  store_it-IsFine k sp s i =
      pass-IsFine IsSafe (λ _. pure Response.stored) (d.insert k sp s) (steady.insert_safe k sp s i)
        (λ _ s' i'. pure-IsFine Response.stored s' i')

  set_found-IsFine :
      (t : SetterType) (k : Slice) (sp : StorePayload) (old : Option StorePayload) (s : State)
      → IsSafe s
      → IsFine IsSafe (set_found d t k sp old s)
  unfolding set_found
  set_found-IsFine SetterType.set k sp old s i = store_it-IsFine k sp s i
  set_found-IsFine SetterType.add k sp none s i = store_it-IsFine k sp s i
  set_found-IsFine SetterType.add k sp (some v) s i = pure-IsFine Response.not_stored s i
  set_found-IsFine SetterType.replace k sp none s i = pure-IsFine Response.not_stored s i
  set_found-IsFine SetterType.replace k sp (some v) s i = store_it-IsFine k sp s i
  set_found-IsFine SetterType.append k sp none s i = pure-IsFine Response.not_stored s i
  set_found-IsFine SetterType.append k sp (some v) s i = store_it-IsFine k _ s i
  set_found-IsFine SetterType.prepend k sp none s i = pure-IsFine Response.not_stored s i
  set_found-IsFine SetterType.prepend k sp (some v) s i = store_it-IsFine k _ s i

  set_payload-IsFine :
      (t : SetterType) (k : Slice) (sp : StorePayload) (s : State)
      → IsSafe s
      → IsFine IsSafe (set_payload d t k sp s)
  unfolding set_payload
  set_payload-IsFine SetterType.set k sp s i = set_found-IsFine SetterType.set k sp none s i
  set_payload-IsFine t k sp s i =
      pass-IsFine IsSafe (set_found d t k sp) (d.get k s) (steady.get_safe k s i)
        (λ old s' i'. set_found-IsFine t k sp old s' i')

  setter-IsFine :
      (now : ℕ) (t : SetterType) (k : Slice) (flags ttl bytes : ℕ) (payload : Slice)
      (no_reply : Bool) (s : State)
      → bytes ≤ length payload
      → IsSafe s
      → IsFine IsSafe (apply d now (Request.setter t k flags ttl bytes payload no_reply) s)
  unfolding apply
  setter-IsFine now t k flags ttl bytes payload no_reply s h i =
      let done =
        set_payload d t k
          (record {
            value = take bytes payload;
            flags = flags;
            ttl = ttl;
            bytes = bytes;
            created_at = now;
          })
          s in
      if-IsFine (ltb bytes (length payload)) (s, MyResult.ok _)
        (if ltb (length payload) bytes then (s, MyResult.panic) else done)
        (pure-IsFine (Response.client_error bad_chunk) s i)
        (else-IsFine (ltb (length payload) bytes) (s, MyResult.panic) done
          (leb-not_ltb bytes (length payload) h) (set_payload-IsFine t k _ s i))

  valid-IsFine :
      (now : ℕ) (req : Request) (s : State)
      → IsValid req
      → IsSafe s
      → IsFine IsSafe (apply d now req s)
  unfolding apply
  valid-IsFine now (Request.getter g keys) s v i =
      pass-IsFine IsSafe (λ items. pure (respond g items)) (get_all d now keys [] s)
        (get_all-IsFine now keys [] s i) (λ items s' i'. pure-IsFine (respond g items) s' i')
  valid-IsFine now (Request.setter t k flags ttl bytes payload no_reply) s v i =
      setter-IsFine now t k flags ttl bytes payload no_reply s v.4 i
  valid-IsFine now (Request.deleter k no_reply) s v i =
      pass-IsFine IsSafe (λ r. pure (removed d r)) (d.remove k s) (steady.remove_safe k s i)
        (λ r s' i'. pure-IsFine (removed d r) s' i')
  valid-IsFine now Request.info s v i = pure-IsFine _ s i
  valid-IsFine now Request.error s v i = pure-IsFine _ s i
  valid-IsFine now Request.major_compaction s v i =
      pass-IsFine IsSafe (λ _. pure Response.ok) (d.major_compaction s) (steady.compaction_safe s i)
        (λ _ s' i'. pure-IsFine Response.ok s' i')

-- The slice `payload[..bytes]` of `apply` is in range for whatever the parser accepts: in the states of an
-- invariant in which the operations of the data manager do not panic, no request that has been parsed
-- makes `apply` panic, and the next state is one of these again.
pub apply-parsed_safe :
    (d : DataOps) (steady : IsSteady d) (now : ℕ) (i rest : Slice) (req : Request) (s : d.State)
    → steady.IsSafe s
    → parse i ≡ ok rest req
    → ((apply d now req s).1 ≢ MyResult.panic) × steady.IsSafe (apply d now req s).0
apply-parsed_safe d steady now i rest req s o e =
    valid-IsFine d steady now req s (parse-IsValid i rest req e).2 o

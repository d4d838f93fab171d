-- ===== src/Store/Commands.antt =====
-- What the requests do to the map that clients see, and what they answer.
use mirdb.Prelude.{
  ℕ, ◌≡◌, refl, sym, ap, ◌∙◌, Bool, Option, none, some, ◌++◌, ◌+◌, ◌%◌, length, take-length,
  ltb_irrefl, Slice, bytes_eq, if◌then◌else◌,
}
use mathlib.Core.Path.{subst}
use mirdb.Error.{MyResult, pure, pass}
use mirdb.Request.{Request, SetterType}
use mirdb.Response.{Response}
use mirdb.Payload.{StorePayload}
use mirdb.ParserUtil.{usize_bound}
use mirdb.Store.{DataOps, joined, store_it, set_found, set_payload, apply}
use mirdb.Store.Data.{DataLaws}

-- The storage commands: what is stored for a key, given what stands there, expired or not; `none` if the
-- command is refused. APPEND and PREPEND keep nothing of the old payload but its bytes and its length.
abbrev pub expected : SetterType → Option StorePayload → StorePayload → Option StorePayload
expected SetterType.set old sp = some sp
expected SetterType.add none sp = some sp
expected SetterType.add (some v) sp = none
expected SetterType.replace none sp = none
expected SetterType.replace (some v) sp = some sp
expected SetterType.append none sp = none
expected SetterType.append (some v) sp = some (record {
  value = v.value ++ sp.value;
  flags = sp.flags;
  ttl = sp.ttl;
  bytes = (v.bytes + sp.bytes) % usize_bound;
  created_at = sp.created_at;
})
expected SetterType.prepend none sp = none
expected SetterType.prepend (some v) sp = some (record {
  value = sp.value ++ v.value;
  flags = sp.flags;
  ttl = sp.ttl;
  bytes = (v.bytes + sp.bytes) % usize_bound;
  created_at = sp.created_at;
})

abbrev pub answer : Option StorePayload → Response
answer none = Response.not_stored
answer (some v) = Response.stored

abbrev pub changed :
    Option StorePayload → Slice → (Slice → Option StorePayload) → Slice → Option StorePayload
changed none k view j = view j
changed (some v) k view j = if bytes_eq k j then some v else view j

module _ (d : DataOps) (laws : DataLaws d) where
  open d use {State}
  open laws use {IsOpen, view}

  -- A state and an answer that `new` describes.
  abbrev pub Described : Slice → State → Option StorePayload → State → Response → Type 0
  Described k s new s' r =
      IsOpen s' × (r ≡ answer new) × ((j : Slice) → view s' j ≡ changed new k (view s) j)

  store_it-Described :
      (k : Slice) (sp : StorePayload) (s : State) (r : Response)
      → IsOpen s
      → (store_it d k sp s).1 ≡ MyResult.ok r
      → Described k s (some sp) (store_it d k sp s).0 r
  unfolding store_it
  store_it-Described k sp s r o h = go (d.insert k sp s) refl h
    where
      go :
          (p : State × MyResult (Option StorePayload))
          → d.insert k sp s ≡ p
          → (pass (λ _. pure Response.stored) p).1 ≡ MyResult.ok r
          → Described k s (some sp) (pass (λ _. pure Response.stored) p).0 r
      go (s', MyResult.ok old) e h =
          let (o', v) = laws.insert_view k sp s old o (ap (λ p. p.1) e) in
          (rw (ap (λ p. p.0) e) at o', cc, λ j. rw (ap (λ p. p.0) e) at (v j))
      go (s', MyResult.err x) e h = cc
      go (s', MyResult.panic) e h = cc

  refused :
      (k : Slice) (s : State) (r : Response)
      → IsOpen s
      → MyResult.ok Response.not_stored ≡ MyResult.ok r
      → Described k s none s r
  refused k s r o h = (o, cc, λ j. refl)

  set_found-Described :
      (t : SetterType) (k : Slice) (sp : StorePayload) (old : Option StorePayload) (s : State)
      (r : Response)
      → IsOpen s
      → (set_found d t k sp old s).1 ≡ MyResult.ok r
      → Described k s (expected t old sp) (set_found d t k sp old s).0 r
  unfolding set_found joined
  set_found-Described SetterType.set k sp old s r o h = store_it-Described k sp s r o h
  set_found-Described SetterType.add k sp none s r o h = store_it-Described k sp s r o h
  set_found-Described SetterType.add k sp (some v) s r o h = refused k s r o h
  set_found-Described SetterType.replace k sp none s r o h = refused k s r o h
  set_found-Described SetterType.replace k sp (some v) s r o h = store_it-Described k sp s r o h
  set_found-Described SetterType.append k sp none s r o h = refused k s r o h
  set_found-Described SetterType.append k sp (some v) s r o h = store_it-Described k _ s r o h
  set_found-Described SetterType.prepend k sp none s r o h = refused k s r o h
  set_found-Described SetterType.prepend k sp (some v) s r o h = store_it-Described k _ s r o h

  looked_up :
      (t : SetterType) (k : Slice) (sp : StorePayload) (s : State) (r : Response)
      → IsOpen s
      → (pass (set_found d t k sp) (d.get k s)).1 ≡ MyResult.ok r
      → Described k s (expected t (view s k) sp) (pass (set_found d t k sp) (d.get k s)).0 r
  looked_up t k sp s r o h = go (d.get k s) refl h
    where
      go :
          (p : State × MyResult (Option StorePayload))
          → d.get k s ≡ p
          → (pass (set_found d t k sp) p).1 ≡ MyResult.ok r
          → Described k s (expected t (view s k) sp) (pass (set_found d t k sp) p).0 r
      go (s', MyResult.ok old) e h =
          let same : s ≡ s' = sym (laws.get_same k s) ∙ ap (λ p. p.0) e in
          let found : old ≡ view s k = laws.get_view k s old o (ap (λ p. p.1) e) in
          let base : Described k s' (expected t old sp) (set_found d t k sp old s').0 r =
            set_found-Described t k sp old s' r (subst IsOpen same o) h in
          subst (λ w. Described k s (expected t w sp) (set_found d t k sp old s').0 r) found
            (subst (λ u. Described k u (expected t old sp) (set_found d t k sp old s').0 r)
              (sym same) base)
      go (s', MyResult.err x) e h = cc
      go (s', MyResult.panic) e h = cc

  set_payload-Described :
      (t : SetterType) (k : Slice) (sp : StorePayload) (s : State) (r : Response)
      → IsOpen s
      → (set_payload d t k sp s).1 ≡ MyResult.ok r
      → Described k s (expected t (view s k) sp) (set_payload d t k sp s).0 r
  unfolding set_payload
  set_payload-Described SetterType.set k sp s r o h =
      set_found-Described SetterType.set k sp none s r o h
  set_payload-Described t k sp s r o h = looked_up t k sp s r o h

abbrev pub new_payload : ℕ → ℕ → ℕ → Slice → StorePayload
new_payload now flags ttl payload = record {
  value = payload;
  flags = flags;
  ttl = ttl;
  bytes = length payload;
  created_at = now;
}

apply-set_payload :
    (d : DataOps) (now : ℕ) (t : SetterType) (k : Slice) (flags ttl : ℕ) (payload : Slice)
    (no_reply : Bool) (s : d.State)
    → apply d now (Request.setter t k flags ttl (length payload) payload no_reply) s
      ≡ set_payload d t k (new_payload now flags ttl payload) s
unfolding apply
apply-set_payload d now t k flags ttl payload no_reply s =
    rw (apply, ltb_irrefl (length payload), take-length payload)

-- A storage command with a payload of the announced length that does not fail answers STORED, and the key
-- shows the new payload, or NOT_STORED where ADD finds a payload or REPLACE, APPEND or PREPEND finds none,
-- and nothing else changes. The payload that APPEND and PREPEND store has the bytes of both, the sum of
-- their lengths as a usize, and the flags, the ttl and the time of the command.
pub apply-setter :
    (d : DataOps) (laws : DataLaws d) (now : ℕ) (t : SetterType) (k : Slice) (flags ttl : ℕ)
    (payload : Slice) (no_reply : Bool) (s : d.State) (r : Response)
    → laws.IsOpen s
    → (apply d now (Request.setter t k flags ttl (length payload) payload no_reply) s).1
      ≡ MyResult.ok r
    → Described d laws k s
        (expected t (laws.view s k) (new_payload now flags ttl payload))
        (apply d now (Request.setter t k flags ttl (length payload) payload no_reply) s).0
        r
apply-setter d laws now t k flags ttl payload no_reply s r o =
    let sp = new_payload now flags ttl payload in
    subst
      (λ (q : d.State × MyResult Response).
        q.1 ≡ MyResult.ok r → Described d laws k s (expected t (laws.view s k) sp) q.0 r)
      (sym (apply-set_payload d now t k flags ttl payload no_reply s))
      (set_payload-Described d laws t k sp s r o)

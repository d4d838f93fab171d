-- ===== src/Store.antt =====
-- mirdb-server/src/store.rs: what a request does, over the operations of the data manager, and the
-- service of mirdb-server/src/main.rs that turns an error into a response.
pub mod Data
pub mod Commands
pub mod Reads
pub mod Safety
mod Tests
use mirdb.Prelude.{
  ℕ, ◌+◌, ◌%◌, ◌≡◌, Bool, true, false, Option, none, some, List, [], ◌∷◌, ◌++◌, length, take, ltb,
  Slice, codes, if◌then◌else◌,
}
use mirdb.ParserUtil.{usize_bound}
use mirdb.Error.{Status, MyResult, Action, pure, crash, pass}
use mirdb.Request.{Request, SetterType, GetterType}
use mirdb.Response.{Response, GetRespItem}
use mirdb.Payload.{StorePayload, is_expired}

-- The methods of the data manager that the store calls.
pub record DataOps : Type 1 where
  pub State : Type 0
  pub get : Slice → Action State (Option StorePayload)
  pub insert : Slice → StorePayload → Action State (Option StorePayload)
  pub remove : Slice → Action State (Option StorePayload)
  pub info : State → Slice
  pub major_compaction : Action State (Unit {0})

abbrev pub bad_chunk : Slice
bad_chunk = codes "bad data chunk"

-- The item of a response, unless the payload has expired.
unfoldable pub live_item : ℕ → Slice → Option StorePayload → List GetRespItem
unfolding is_expired
live_item now key none = []
live_item now key (some p) =
    if is_expired now p
    then []
    else record { key = key; value = p.value; flags = p.flags; bytes = p.bytes } ∷ []

-- `Response::Get(v)` or `Response::Gets(v)`
unfoldable pub respond : GetterType → List GetRespItem → Response
respond GetterType.get v = Response.get v
respond GetterType.gets v = Response.gets v

-- The payload that APPEND and PREPEND store: old or new bytes first, the rest from the request. The
-- sum of the lengths is a usize, which wraps.
unfoldable pub joined : Slice → StorePayload → StorePayload → StorePayload
joined value v sp = record {
  value = value;
  flags = sp.flags;
  ttl = sp.ttl;
  bytes = (v.bytes + sp.bytes) % usize_bound;
  created_at = sp.created_at;
}

module _ (d : DataOps) where
  open d use {State, get, insert, remove, info, major_compaction}

  -- The loop over the keys of a getter, with what it has collected.
  unfoldable pub get_all : ℕ → List Slice → List GetRespItem → Action State (List GetRespItem)
  unfolding live_item
  get_all now [] v s = (s, MyResult.ok v)
  get_all now (key ∷ keys) v s =
      pass (λ p s'. get_all now keys (v ++ live_item now key p) s') (get key s)

  -- `self.data.insert(key, sp)?; ... Ok(Response::Stored)`
  unfoldable pub store_it : Slice → StorePayload → Action State Response
  store_it key sp s = pass (λ _. pure Response.stored) (insert key sp s)

  -- The `match setter` behind a payload of the right length.
  unfoldable pub set_found :
      SetterType → Slice → StorePayload → Option StorePayload → Action State Response
  unfolding store_it joined
  set_found SetterType.set key sp old = store_it key sp
  set_found SetterType.add key sp none = store_it key sp
  set_found SetterType.add key sp (some v) = pure Response.not_stored
  set_found SetterType.replace key sp none = pure Response.not_stored
  set_found SetterType.replace key sp (some v) = store_it key sp
  set_found SetterType.append key sp none = pure Response.not_stored
  set_found SetterType.append key sp (some v) = store_it key (joined (v.value ++ sp.value) v sp)
  set_found SetterType.prepend key sp none = pure Response.not_stored
  set_found SetterType.prepend key sp (some v) = store_it key (joined (sp.value ++ v.value) v sp)

  -- SET does not look for the key, the others do.
  unfoldable pub set_payload : SetterType → Slice → StorePayload → Action State Response
  unfolding set_found
  set_payload SetterType.set key sp s = set_found SetterType.set key sp none s
  set_payload setter key sp s = pass (set_found setter key sp) (get key s)

  removed : Option StorePayload → Response
  removed (some v) = Response.deleted
  removed none = Response.not_found

  -- `apply`, where the clock shows `now`. `&payload[..bytes]` panics on a short payload.
  unfoldable pub apply : ℕ → Request → Action State Response
  unfolding respond get_all set_payload removed
  apply now (Request.getter g keys) s = pass (λ v. pure (respond g v)) (get_all now keys [] s)
  apply now (Request.setter setter key flags ttl bytes payload no_reply) s =
      if ltb bytes (length payload)
      then (s, MyResult.ok (Response.client_error bad_chunk))
      else if ltb (length payload) bytes
      then (s, MyResult.panic)
      else set_payload setter key
          (record {
            value = take bytes payload;
            flags = flags;
            ttl = ttl;
            bytes = bytes;
            created_at = now;
          })
          s
  apply now (Request.deleter key no_reply) s = pass (λ r. pure (removed r)) (remove key s)
  apply now Request.info s = (s, MyResult.ok (Response.info (info s)))
  apply now Request.error s = (s, MyResult.ok Response.error)
  apply now Request.major_compaction s = pass (λ _. pure Response.ok) (major_compaction s)

  -- `Server::call`: an error becomes a response; `none` is a panic.
  response_of : MyResult Response → Option Response
  response_of (MyResult.ok r) = some r
  response_of (MyResult.err e) = some (Response.server_error e.msg)
  response_of MyResult.panic = none

  unfoldable pub call : ℕ → Request → State → State × Option Response
  unfolding response_of
  call now req s = let (s', r) = apply now req s in (s', response_of r)

-- ===== src/Store/Tests.antt =====
-- Runs of the store over a data manager whose state is the map itself.
use mirdb.Prelude.{
  ◌≡◌, refl, false, Option, none, some, [], ◌∷◌, Slice, codes, bytes_eq, if◌then◌else◌,
}
use mirdb.Error.{MyResult}
use mirdb.Request.{Request, SetterType, GetterType}
use mirdb.Response.{Response, GetRespItem}
use mirdb.Payload.{StorePayload}
use mirdb.Store.{DataOps, apply, joined}
use mirdb.Store.Data.{DataLaws}
use mirdb.Store.Commands.{new_payload, Described, apply-setter}
use mirdb.Store.Reads.{items, answered, apply-getter, apply-deleter, get-set}

abbrev Map : Type 0
Map = Slice → Option StorePayload

abbrev map_ops : DataOps
map_ops = record {
  State = Map;
  get = λ k s. (s, MyResult.ok (s k));
  insert = λ k v s. ((λ j. if bytes_eq k j then some v else s j), MyResult.ok (s k));
  remove = λ k s. ((λ j. if bytes_eq k j then none else s j), MyResult.ok (s k));
  info = λ s. [];
  major_compaction = λ s. (s, MyResult.ok tt);
}

map_laws : DataLaws map_ops
map_laws = record {
  IsOpen = λ s. Unit;
  view = λ s. s;
  get_same = λ k s. refl;
  get_view = λ k s r o e. cc;
  insert_view = λ k v s r o e. (tt, λ j. refl);
  remove_view = λ k s r o e. (tt, cc, λ j. refl);
}

abbrev abc : Slice
abc = codes "abc"

abbrev xy : Slice
xy = codes "xy"

abbrev one : Map
one j = if bytes_eq abc j then some (new_payload 5 1 10 xy) else none

abbrev set_abc : Request
set_abc = Request.setter SetterType.set abc 1 10 2 xy false

abbrev item : GetRespItem
item = record { key = abc; value = xy; flags = 1; bytes = 2 }

abbrev get_abc : Request
get_abc = Request.getter GetterType.get (abc ∷ [])

apply-setter_example :
    Described map_ops map_laws abc one
      (some (record { value = codes "xyxy"; flags = 2; ttl = 0; bytes = 4; created_at = 7 }))
      (apply map_ops 7 (Request.setter SetterType.append abc 2 0 2 xy false) one).0
      Response.stored
unfolding map_laws apply joined
apply-setter_example =
    apply-setter map_ops map_laws 7 SetterType.append abc 2 0 xy false one Response.stored tt refl

apply-getter_example :
    (Response.get (item ∷ [])
      ≡ answered GetterType.get (items 6 (map_laws.view one) (abc ∷ xy ∷ [])))
    × ((apply map_ops 6 (Request.getter GetterType.get (abc ∷ xy ∷ [])) one).0 ≡ one)
unfolding map_laws apply
apply-getter_example =
    apply-getter map_ops map_laws 6 GetterType.get (abc ∷ xy ∷ []) one (Response.get (item ∷ [])) tt
      refl

get-set_example :
    (Response.stored ≡ Response.stored) × (Response.get (item ∷ []) ≡ Response.get (item ∷ []))
unfolding map_laws apply
get-set_example =
    get-set map_ops map_laws 5 14 abc 1 10 xy false one (apply map_ops 5 set_abc one).0
      Response.stored (Response.get (item ∷ [])) tt refl refl

apply-deleter_example :
    (Response.deleted ≡ Response.deleted)
    × ((j : Slice)
        → map_laws.view (apply map_ops 6 (Request.deleter abc false) one).0 j
          ≡ (if bytes_eq abc j then none else map_laws.view one j))
unfolding map_laws apply
apply-deleter_example = apply-deleter map_ops map_laws 6 abc false one Response.deleted tt refl

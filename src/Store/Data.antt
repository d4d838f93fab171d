-- ===== src/Store/Data.antt =====
-- What the store relies on of the data manager: what clients see is a map from keys to payloads.
use mirdb.Prelude.{◌≡◌, Option, none, some, Slice, bytes_eq, if◌then◌else◌}
use mirdb.Error.{MyResult}
use mirdb.Payload.{StorePayload}
use mirdb.Store.{DataOps}

-- An operation that fails promises nothing. `IsOpen` is the manager's own invariant.
pub record DataLaws (d : DataOps) : Type 1 where
  pub IsOpen : d.State → Type 0
  pub view : d.State → Slice → Option StorePayload
  pub get_same : (k : Slice) (s : d.State) → (d.get k s).0 ≡ s
  pub get_view :
      (k : Slice) (s : d.State) (r : Option StorePayload)
      → IsOpen s
      → (d.get k s).1 ≡ MyResult.ok r
      → r ≡ view s k
  pub insert_view :
      (k : Slice) (v : StorePayload) (s : d.State) (r : Option StorePayload)
      → IsOpen s
      → (d.insert k v s).1 ≡ MyResult.ok r
      → IsOpen (d.insert k v s).0
        × ((j : Slice) → view (d.insert k v s).0 j ≡ (if bytes_eq k j then some v else view s j))
  pub remove_view :
      (k : Slice) (s : d.State) (r : Option StorePayload)
      → IsOpen s
      → (d.remove k s).1 ≡ MyResult.ok r
      → IsOpen (d.remove k s).0
        × (r ≡ view s k)
        × ((j : Slice) → view (d.remove k s).0 j ≡ (if bytes_eq k j then none else view s j))

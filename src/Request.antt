-- ===== src/Request.antt =====
-- mirdb-server/src/request.rs: the requests of the memcached protocol.
use mirdb.Prelude.{ℕ, Bool, List, Slice}

pub data SetterType : Type 0 where
  set add replace append prepend : SetterType

pub data GetterType : Type 0 where
  get gets : GetterType

-- `setter` has the fields setter, key, flags, ttl, bytes, payload and no_reply.
pub data Request : Type 0 where
  getter : GetterType → List Slice → Request
  setter : SetterType → Slice → ℕ → ℕ → ℕ → Slice → Bool → Request
  deleter : Slice → Bool → Request
  info error major_compaction : Request

-- ===== src/Payload.antt =====
-- `StorePayload` of mirdb-server/src/store.rs.
use mirdb.Prelude.{ℕ, ◌+◌, Bool, false, leb, ◌==◌, if◌then◌else◌, Slice}

-- `value` is the field `data`, a reserved word here.
pub record StorePayload : Type 0 where
  pub value : Slice
  pub flags : ℕ
  pub ttl : ℕ
  pub bytes : ℕ
  pub created_at : ℕ

-- `now` is the clock in seconds. The sum is a u64 that cannot overflow: both come from u64 seconds
-- of the present era and a u32.
unfoldable pub is_expired : ℕ → StorePayload → Bool
is_expired now p = if p.ttl == 0 then false else leb (p.created_at + p.ttl) now

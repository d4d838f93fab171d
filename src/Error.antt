-- ===== src/Error.antt =====
-- mirdb-server/src/error.rs and sstable/src/error.rs: status codes, and the results of fallible code.
use mirdb.Prelude.{ℕ, Slice}

-- `sstable::StatusCode`
pub data SstableCode : Type 0 where
  not_found io_error checksum_error snap_error compress_error invalid_data build_error : SstableCode
  bincode_error cuckoo_error : SstableCode

pub data StatusCode : Type 0 where
  io_error not_found not_support other : StatusCode
  sstable_error : SstableCode → StatusCode
  bincode_error : StatusCode
  pattern_error : ℕ → StatusCode
  wal_error checksum_error snap_error config_error : StatusCode

pub record Status : Type 0 where
  pub code : StatusCode
  pub msg : Slice

-- `MyResult`, with a third case for a panic of the thread.
pub data MyResult {ℓ} (A : Type ℓ) : Type ℓ where
  ok : A → MyResult A
  err : Status → MyResult A
  panic : MyResult A

-- A method on shared state: it may change the state also where it fails.
abbrev pub Action : Type 0 → Type 0 → Type 0
Action S A = S → S × MyResult A

module _ {S A : Type 0} where
  abbrev pub pure : A → Action S A
  pure a s = (s, ok a)

  abbrev pub crash : Action S A
  crash s = (s, panic)

-- `?` on the first action, then the rest.
abbrev pub pass : {S A B : Type 0} → (A → Action S B) → S × MyResult A → S × MyResult B
pass f (s, ok a) = f a s
pass f (s, err e) = (s, err e)
pass f (s, panic) = (s, panic)

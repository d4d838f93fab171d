-- ===== src/Sstable/Builder.antt =====
-- sstable/src/block_builder.rs: a block's entries, with the prefixes that keys share left out, and its
-- restart points.
pub mod Runs
use mirdb.Prelude.{
  ℕ, zero, suc, ◌+◌, ◌-◌, ◌*◌, ◌%◌, Bool, true, false, ◌&&◌, ◌||◌, not, Option, none, some, List,
  [], ◌∷◌, ◌++◌, length, take, drop, ltb, leb, ◌==◌, if◌then◌else◌, Slice, bytes_lt,
}
use mirdb.ParserUtil.{u32_bound}
use mirdb.Sstable.Codec.{CodecOps, TableOptions}

pub record BlockBuilder : Type 0 where
  pub buffer : Slice
  pub count : ℕ
  pub restart_count : ℕ
  pub last_key : Slice
  pub restarts : List ℕ

abbrev pub new_builder : BlockBuilder
new_builder = record { buffer = []; count = 0; restart_count = 0; last_key = []; restarts = 0 ∷ [] }

-- The length of the prefix that the keys share, by the loop of `add`.
unfoldable pub shared_prefix : Slice → Slice → ℕ
shared_prefix [] k = 0
shared_prefix (x ∷ last) [] = 0
shared_prefix (x ∷ last) (y ∷ k) = let more = shared_prefix last k in if x == y then suc more else 0

abbrev pub is_empty : Slice → Bool
is_empty [] = true
is_empty (x ∷ s) = false

abbrev pub size_estimate : BlockBuilder → ℕ
size_estimate b = length b.buffer + 4 * length b.restarts + 4

module _ (ops : CodecOps) where
  open ops use {encode_var, encode_fixed}

  -- The bytes of an entry that shares `shared` bytes with the key before it.
  abbrev pub entry_bytes : ℕ → Slice → Slice → Slice
  entry_bytes shared k v =
      encode_var shared
      ++ (encode_var (length k - shared) ++ (encode_var (length v) ++ (drop shared k ++ v)))

  -- The end of `add`, with the restart points and the prefix chosen.
  abbrev pub push_entry : ℕ → ℕ → List ℕ → Slice → Slice → Slice → BlockBuilder → BlockBuilder
  push_entry shared restart_count restarts last_key k v b = record {
    buffer = b.buffer ++ entry_bytes shared k v;
    count = b.count + 1;
    restart_count = restart_count + 1;
    last_key = take shared last_key ++ drop shared k;
    restarts = restarts;
  }

  abbrev pub restart_bytes : List ℕ → Slice
  restart_bytes [] = []
  restart_bytes (r ∷ restarts) = encode_fixed (r % u32_bound) ++ restart_bytes restarts

  -- The first part of `flush`: the entries, the restart points and their number.
  unfoldable pub finished : BlockBuilder → Slice
  finished b =
      b.buffer ++ (restart_bytes b.restarts ++ encode_fixed (length b.restarts % u32_bound))

module _ (ops : CodecOps) (opt : TableOptions) where
  -- `add`; `none` is a failed assertion.
  unfoldable pub add_entry : Slice → Slice → BlockBuilder → Option BlockBuilder
  unfolding shared_prefix
  add_entry k v b =
      if ltb opt.block_restart_interval b.restart_count
        || (not (is_empty b.buffer) && bytes_lt k b.last_key)
      then none
      else some (
          if ltb b.restart_count opt.block_restart_interval
          then push_entry ops (shared_prefix b.last_key k) b.restart_count b.restarts b.last_key k v
              b
          else push_entry ops 0 0 (b.restarts ++ length b.buffer % u32_bound ∷ []) [] k v b)

  -- `add` for each of the entries.
  unfoldable pub add_entries : List (Slice × Slice) → BlockBuilder → Option BlockBuilder
  unfolding add_entry
  add_entries [] b = some b
  add_entries (e ∷ entries) b = elim (add_entry e.0 e.1 b) [
    | none ↦ none
    | some b' ↦ add_entries entries b'
  ]

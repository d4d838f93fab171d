-- ===== src/Sstable/BlockIter.antt =====
-- sstable/src/block_iter.rs, and `restarts_offset` of block.rs: the iterator over the bytes of a block.
-- `none` is a panic: an index out of range or a failed assertion.
pub mod Reading
pub mod Steps
pub mod Items
use mirdb.Prelude.{
  bind, ℕ, zero, suc, ◌+◌, ◌-◌, ◌*◌, ◌/◌, ◌%◌, Bool, true, false, ◌&&◌, not, Option, none, some,
  List, [], ◌∷◌, ◌++◌, length, take, drop, ltb, leb, ◌==◌, if◌then◌else◌, Slice, bytes_eq, bytes_lt,
  slice, slice_from,
}
use mirdb.Sstable.Codec.{CodecOps}

pub record BlockIterState : Type 0 where
  pub key : Slice
  pub current_offset : ℕ
  pub next_offset : ℕ
  pub val_offset : ℕ
  pub restarts_offset : ℕ
  pub current_restart_idx : ℕ

abbrev pub new_state : ℕ → BlockIterState
new_state restarts_offset = record {
  key = [];
  current_offset = 0;
  next_offset = 0;
  val_offset = 0;
  restarts_offset = restarts_offset;
  current_restart_idx = 0;
}

-- `reset` leaves the current offset.
abbrev pub reset_state : BlockIterState → BlockIterState
reset_state s = record {
  key = [];
  current_offset = s.current_offset;
  next_offset = 0;
  val_offset = 0;
  restarts_offset = s.restarts_offset;
  current_restart_idx = 0;
}

abbrev pub at_offset : BlockIterState → ℕ → BlockIterState
at_offset s offset = record {
  key = s.key;
  current_offset = offset;
  next_offset = offset;
  val_offset = s.val_offset;
  restarts_offset = s.restarts_offset;
  current_restart_idx = s.current_restart_idx;
}

abbrev pub with_restart_idx : BlockIterState → ℕ → BlockIterState
with_restart_idx s idx = record {
  key = s.key;
  current_offset = s.current_offset;
  next_offset = s.next_offset;
  val_offset = s.val_offset;
  restarts_offset = s.restarts_offset;
  current_restart_idx = idx;
}

unfoldable pub valid : BlockIterState → Bool
valid s = not (bytes_eq s.key []) && (ltb 0 s.val_offset && leb s.val_offset s.restarts_offset)

module _ (ops : CodecOps) where
  open ops use {decode_var, decode_fixed}

  -- The last four bytes.
  unfoldable pub restart_count : Slice → Option ℕ
  restart_count block =
      if leb 4 (length block) then some (decode_fixed (drop (length block - 4) block)) else none

  -- `Block::restarts_offset`, whose subtraction is in range for the blocks of a builder.
  unfoldable pub restarts_offset : Slice → Option ℕ
  unfolding restart_count
  restarts_offset block =
      bind (restart_count block)
        λ n. if leb (4 + 4 * n) (length block) then some (length block - 4 - 4 * n) else none

  unfoldable pub get_restart_point_offset : Slice → ℕ → ℕ → Option ℕ
  get_restart_point_offset block restarts idx =
      bind (slice block (restarts + 4 * idx) (restarts + 4 * idx + 4)) λ b. some (decode_fixed b)

  -- The numbers in front of an entry: what it shares, what not, the size of its value, and their bytes.
  pub record EntryHead : Type 0 where
    pub shared : ℕ
    pub non_shared : ℕ
    pub val_size : ℕ
    pub size : ℕ

  unfoldable pub parse_head : Slice → ℕ → Option EntryHead
  parse_head block offset = bind (slice_from block offset) λ b.
      let a = decode_var b in
      bind (slice_from block (offset + a.1)) λ b'.
        let c = decode_var b' in
        bind (slice_from block (offset + (a.1 + c.1))) λ b''.
          let d = decode_var b'' in
          some (record { shared = a.0; non_shared = c.0; val_size = d.0; size = a.1 + c.1 + d.1 })

  -- `parse_entry_and_advance` and `assemble_key` at an offset.
  unfoldable pub read_entry : Slice → ℕ → BlockIterState → Option BlockIterState
  unfolding parse_head
  read_entry block offset s = bind (parse_head block offset) λ h.
      bind (slice block (offset + h.size) (offset + h.size + h.non_shared)) λ rest. some (record {
        key = take h.shared s.key ++ rest;
        current_offset = s.current_offset;
        next_offset = offset + h.size + h.non_shared + h.val_size;
        val_offset = offset + h.size + h.non_shared;
        restarts_offset = s.restarts_offset;
        current_restart_idx = s.current_restart_idx;
      })

  -- The loop over the restart points in `advance`; as many rounds as there are points.
  unfoldable pub advance_idx : ℕ → Slice → ℕ → BlockIterState → Option BlockIterState
  advance_idx zero block count s = some s
  advance_idx (suc rounds) block count s = elim (ltb (s.current_restart_idx + 1) count) [
    | true ↦
        bind (get_restart_point_offset block s.restarts_offset (s.current_restart_idx + 1))
          λ offset. elim (ltb offset s.current_offset) [
            | true ↦ advance_idx rounds block count (with_restart_idx s (s.current_restart_idx + 1))
            | false ↦ some s
          ]
    | false ↦ some s
  ]

  -- `advance`
  unfoldable pub advance : Slice → BlockIterState → Option (Bool × BlockIterState)
  unfolding read_entry advance_idx restart_count
  advance block s =
      if leb s.restarts_offset s.next_offset
      then some (
        false,
        record {
          key = [];
          current_offset = s.current_offset;
          next_offset = s.next_offset;
          val_offset = s.val_offset;
          restarts_offset = s.restarts_offset;
          current_restart_idx = s.current_restart_idx;
        },
      )
      else bind (read_entry block s.next_offset (at_offset s s.next_offset)) λ s'.
        bind (restart_count block)
          λ count. bind (advance_idx count block count s') λ s''. some (true, s'')

  unfoldable pub current_k : BlockIterState → Option Slice
  unfolding valid
  current_k s = if valid s then some s.key else none

  unfoldable pub current_v : Slice → BlockIterState → Option (Option Slice)
  unfolding valid
  current_v block s = elim (valid s) [
    | true ↦ bind (slice block s.val_offset s.next_offset) λ v. some (some v)
    | false ↦ some none
  ]

  -- `current_kv` of the trait `SsIterator`.
  unfoldable pub current_kv : Slice → BlockIterState → Option (Option (Slice × Slice))
  unfolding current_k current_v
  current_kv block s = elim (current_k s) [
    | none ↦ some none
    | some k ↦
        bind (current_v block s) λ v. elim v [ none ↦ some none | some v ↦ some (some (k, v)) ]
  ]

  -- `next` of the trait `SsIterator`.
  unfoldable pub next_item :
      Slice → BlockIterState → Option (Option (Slice × Slice) × BlockIterState)
  unfolding advance current_kv
  next_item block s = bind (advance block s) λ r. elim r.0 [
    | true ↦ bind (current_kv block r.1) λ kv. some (kv, r.1)
    | false ↦ some (none, r.1)
  ]

  -- What `next` answers until its first `None`; `none` also when the fuel is used up.
  unfoldable pub items : ℕ → Slice → BlockIterState → Option (List (Slice × Slice))
  unfolding next_item
  items zero block s = none
  items (suc fuel) block s =
      bind (next_item block s)
        λ r. elim r.0 [ none ↦ some [] | some e ↦ bind (items fuel block r.1) λ es. some (e ∷ es) ]

  -- `Block::iter`, run to its end.
  unfoldable pub block_items : ℕ → Slice → Option (List (Slice × Slice))
  unfolding restarts_offset items
  block_items fuel block =
      bind (restarts_offset block) λ offset. items fuel block (new_state offset)

-- ===== src/DataManager/Tests.antt =====
-- Runs of a data manager whose tables are lists: every insert begins a new table.
use mirdb.Prelude.{
  ℕ, ◌≡◌, Bool, refl, sym, ap, ◌∙◌, true, false, Option, none, some, List, [], ◌∷◌, ◌++◌, Slice,
  codes, bytes_eq, bytes_eq→eq, bytes_lt, bytes_lt_trans, bytes_lt_irrefl, if◌then◌else◌,
}
use mathlib.Core.Path.{subst}
use mirdb.Error.{MyResult, StatusCode}
use mirdb.Payload.{StorePayload}
use mirdb.Response.{Response, GetRespItem}
use mirdb.Memtable.{MapOps}
use mirdb.Levels.{ReaderOps, covers}
use mirdb.Wal.{WalOps, seg_append, padding}
use mirdb.Wal.Segments.{append, current_seg_size, consume_seg}
use mirdb.Store.Commands.{new_payload}
use mirdb.DataManager.{Parts, DataManager, get, insert, insert_, remove, minor_compaction}
use mirdb.DataManager.Moved.{BuildLaws, IsStorable}
use mirdb.DataManager.View.{PartLaws, IsOpen, view, get-view}
use mirdb.DataManager.Changes.{Changed, insert-Changed, remove-Changed}
use mirdb.DataManager.Trimmed.{minor_compaction-IsLogged}
use mirdb.DataManager.Logged.{HasLog, IsLogged, insert_-HasLog}

abbrev Entries : Type 0
Entries = List (Slice × Slice)

abbrev lookup : Slice → Entries → Option Slice
lookup k [] = none
lookup k (e ∷ m) = if bytes_eq e.0 k then some e.1 else lookup k m

abbrev maps : MapOps
maps = record {
  Map = Entries;
  empty = [];
  find = lookup;
  put = λ k v m. ((k, v) ∷ m, lookup k m);
  cleared = λ m. [];
  clone = λ m. m;
}

abbrev greatest : Entries → Slice
greatest [] = []
greatest (e ∷ m) = let g = greatest m in if bytes_lt g e.0 then e.0 else g

-- A table file shows nothing for the empty key.
abbrev kept : Slice → Entries → Option Slice
kept [] m = none
kept (c ∷ k) m = lookup (c ∷ k) m

abbrev readers : ReaderOps
readers = record {
  Reader = Entries;
  min_key = λ r. [];
  max_key = greatest;
  get = λ k r. MyResult.ok (kept k r);
}

abbrev logs : WalOps
logs = record {
  compress = λ x. MyResult.ok x;
  decompress = λ c. MyResult.ok c;
  encode_fixed = λ n. n ∷ 0 ∷ 0 ∷ 0 ∷ [];
  decode_fixed = λ s. 0;
  write_all = λ file buf. (file ++ buf, MyResult.ok tt);
  flush = λ file. MyResult.ok tt;
  create = λ n. MyResult.ok tt;
  delete = λ n. MyResult.ok tt;
}

abbrev broken : {A : Type 0} → MyResult A
broken = MyResult.err (record { code = StatusCode.other; msg = [] })

abbrev pub encoded : Option StorePayload → Slice
encoded none = []
encoded (some p) = p.flags ∷ p.ttl ∷ p.bytes ∷ p.created_at ∷ p.value

abbrev decoded : Slice → MyResult (Option StorePayload)
decoded [] = MyResult.ok none
decoded (f ∷ t ∷ b ∷ c ∷ v) =
    MyResult.ok (some (record { value = v; flags = f; ttl = t; bytes = b; created_at = c }))
decoded _ = broken

abbrev built : ℕ → Entries → MyResult (Option Entries)
built n [] = MyResult.ok none
built n (e ∷ m) = MyResult.ok (some (e ∷ m))

abbrev pub parts : Parts
parts = record {
  maps = maps;
  readers = readers;
  logs = logs;
  serialize = λ o. MyResult.ok (encoded o);
  deserialize = decoded;
  build_sstable = built;
  flush_manifest = λ levels. MyResult.ok tt;
  mem_table_max_size = 0;
  max_level = 2;
}

pub decoded-encoded : (o : Option StorePayload) → decoded (encoded o) ≡ MyResult.ok o
decoded-encoded none = refl
decoded-encoded (some p) = refl

greatest_lem : (m : Entries) (k v : Slice) → lookup k m ≡ some v → bytes_lt (greatest m) k ≡ false
greatest_lem [] k v h = cc
greatest_lem (e ∷ m) k v h =
    go (bytes_eq e.0 k) refl (bytes_lt (greatest m) e.0) refl (greatest_lem m k v) h
  where
    below :
        (b : Bool)
        → bytes_lt e.0 k ≡ b
        → bytes_lt (greatest m) e.0 ≡ true
        → bytes_lt (greatest m) k ≡ false
        → bytes_lt e.0 k ≡ false
    below true x l n = let t = bytes_lt_trans (greatest m) e.0 k l x in cc
    below false x l n = x

    go :
        (b : Bool)
        → bytes_eq e.0 k ≡ b
        → (c : Bool) → bytes_lt (greatest m) e.0 ≡ c
        → (lookup k m ≡ some v → bytes_lt (greatest m) k ≡ false)
        → (if b then some e.1 else lookup k m) ≡ some v
        → bytes_lt (if c then e.0 else greatest m) k ≡ false
    go true x true y ih h =
        subst (λ t. bytes_lt e.0 t ≡ false) (bytes_eq→eq e.0 k x) (bytes_lt_irrefl e.0)
    go true x false y ih h = subst (λ t. bytes_lt (greatest m) t ≡ false) (bytes_eq→eq e.0 k x) y
    go false x true y ih h = below (bytes_lt e.0 k) refl y (ih h)
    go false x false y ih h = ih h

pub covered : (k : Slice) (r : Entries) (v : Slice) → kept k r ≡ some v → covers readers k r ≡ true
covered [] r v e = cc
covered (c ∷ k) r v e = rw (greatest_lem r (c ∷ k) v e)

pub ok-inj : {A : Type 0} (a b : A) → MyResult.ok a ≡ MyResult.ok b → a ≡ b
ok-inj a b e = cc

built-none : (n : ℕ) (m : Entries) (k : Slice) → built n m ≡ MyResult.ok none → lookup k m ≡ none
built-none n [] k e = refl
built-none n (x ∷ m) k e = absurd (cc e)

built-some :
    (n : ℕ) (m r : Entries) (k : Slice)
    → IsStorable maps m
    → built n m ≡ MyResult.ok (some r)
    → kept k r ≡ lookup k m
built-some n [] r k st e = absurd (cc e)
built-some n (x ∷ m) r [] st e = sym st.0
built-some n (x ∷ m) r (c ∷ k) st e = let f : x ∷ m ≡ r = cc in sym (ap (lookup (c ∷ k)) f)

abbrev pub laws : PartLaws parts
laws = record {
  maps_laws = record {
    find_put = λ k j v m. refl;
    find_cleared = λ k m. refl;
    find_clone = λ k m. refl;
  };
  readers_laws = record {
    content = λ r k. kept k r;
    get_content = λ k r o e. sym (ok-inj _ _ e);
    content_covered = covered;
  };
  deserialize_serialize = λ v b e. ap decoded (sym (ok-inj _ _ e)) ∙ decoded-encoded v;
}

abbrev builds : BuildLaws parts laws
builds = record { build_none = built-none; build_some = built-some }

abbrev pub start : DataManager parts
start = record {
  muttable = record { size = 0; map = [] };
  immuttable = [];
  levels = [] ∷ [] ∷ [];
  wal = record { segs = []; current_file_num = 0 };
  next_file_number = 0;
}

start-IsOpen : IsOpen parts laws start
start-IsOpen = (refl, (tt, (tt, tt)))

abbrev key : Slice
key = codes "abc"

abbrev payload : StorePayload
payload = new_payload 5 1 10 (codes "xy")

abbrev stored : DataManager parts
stored = (insert parts key payload start).0

insert-Changed_example : Changed parts laws key (some payload) start stored
unfolding insert append seg_append current_seg_size padding
insert-Changed_example = insert-Changed parts laws key payload start none start-IsOpen refl

stored-IsOpen : IsOpen parts laws stored
unfolding insert append seg_append current_seg_size padding
stored-IsOpen = (insert-Changed parts laws key payload start none start-IsOpen refl).0

get-view_example : (some payload ≡ view parts laws stored key) × ((get parts key stored).0 ≡ stored)
unfolding get insert append seg_append current_seg_size padding
get-view_example = get-view parts laws stored key (some payload) stored-IsOpen refl

remove-Changed_example :
    (some payload ≡ view parts laws stored key)
    × Changed parts laws key none stored (remove parts key stored).0
unfolding remove insert append seg_append current_seg_size padding
remove-Changed_example = remove-Changed parts laws key stored (some payload) stored-IsOpen refl

abbrev pub no_info : DataManager parts → Slice
no_info s = []

abbrev pub no_compaction : DataManager parts → DataManager parts × MyResult (Unit {0})
no_compaction s = (s, MyResult.ok tt)

abbrev item : GetRespItem
item = record { key = key; value = codes "xy"; flags = 1; bytes = 2 }

insert_-HasLog_example : HasLog parts (insert_ parts key (encoded (some payload)) start).0
unfolding insert_ append seg_append current_seg_size padding
insert_-HasLog_example = insert_-HasLog parts key (encoded (some payload)) start none refl refl

minor_compaction-IsLogged_example :
    IsLogged parts (minor_compaction parts stored).0
    × ((minor_compaction parts stored).0.immuttable ≡ [])
unfolding minor_compaction consume_seg insert append seg_append current_seg_size padding
minor_compaction-IsLogged_example = minor_compaction-IsLogged parts stored refl refl

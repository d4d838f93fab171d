-- ===== src/Manifest.antt =====
-- mirdb-server/src/manifest.rs: the files of each level. The numbers in the names of files are written and read
-- by the standard library, the interface `NameOps`. `none` is a panic.
pub mod Files
pub mod Fresh
mod Tests
use mirdb.Prelude.{
  ℕ, zero, suc, ◌+◌, ◌-◌, ◌%◌, Bool, true, false, ◌||◌, not, Option, none, some, List, [], ◌∷◌,
  ◌++◌, length, get_elem?, ltb, leb, ◌==◌, if◌then◌else◌, Slice, codes, bytes_eq, bind,
}
use mirdb.ParserUtil.{usize_bound}

pub record FileMeta : Type 0 where
  pub file_name : Slice

abbrev pub LevelMeta : Type 0
LevelMeta = List FileMeta

abbrev pub Manifest : Type 0
Manifest = List LevelMeta

-- `contains` of a set of names.
abbrev pub contains : List Slice → Slice → Bool
contains [] name = false
contains (n ∷ names) name = bytes_eq n name || contains names name

-- `remove_file_meta_by_file_names` of a level.
unfoldable pub retained : List Slice → LevelMeta → LevelMeta
retained names [] = []
retained names (fm ∷ fms) =
    let rest = retained names fms in if contains names fm.file_name then rest else fm ∷ rest

abbrev pub empty_levels : ℕ → Manifest
empty_levels zero = []
empty_levels (suc n) = [] ∷ empty_levels n

-- `ensure_level`
unfoldable pub ensure_level : ℕ → Manifest → Manifest
ensure_level level m = m ++ empty_levels (level + 1 - length m)

-- `level_metas[level]`, changed.
unfoldable pub change_level : Manifest → ℕ → (LevelMeta → LevelMeta) → Option Manifest
change_level [] level f = none
change_level (l ∷ ls) zero f = some (f l ∷ ls)
change_level (l ∷ ls) (suc level) f = bind (change_level ls level f) λ ls. some (l ∷ ls)

unfoldable pub add_file_meta : ℕ → FileMeta → Manifest → Option Manifest
unfolding ensure_level change_level
add_file_meta level fm m = change_level (ensure_level level m) level (λ l. l ++ (fm ∷ []))

unfoldable pub remove_file_metas : ℕ → List Slice → Manifest → Option Manifest
unfolding ensure_level change_level retained
remove_file_metas level names m = change_level (ensure_level level m) level (retained names)

unfoldable pub file_metas : ℕ → Manifest → Option LevelMeta
file_metas level m = if leb (length m) level then none else get_elem? m level

-- `{:08}` and `parse` of a usize, none where it fails.
pub record NameOps : Type 0 where
  pub show : ℕ → Slice
  pub parse : Slice → Option ℕ

-- `split('.')`, its first piece; 46 is the dot.
abbrev pub first_piece : Slice → Slice
first_piece [] = []
first_piece (c ∷ s) = let rest = first_piece s in if c == 46 then [] else c ∷ rest

module _ (ops : NameOps) where
  -- `make_file_name`
  unfoldable pub make_file_name : ℕ → Slice → Slice
  make_file_name n ext = ops.show n ++ (46 ∷ ext)

  abbrev pub greater : Option ℕ → ℕ → Option ℕ
  greater none n = some n
  greater (some m) n = if ltb m n then some n else some m

  -- The loop over the files of a level.
  unfoldable pub max_number : LevelMeta → Option ℕ → Option (Option ℕ)
  max_number [] m = some m
  max_number (fm ∷ fms) m =
      bind (ops.parse (first_piece fm.file_name)) λ n. max_number fms (greater m n)

  unfoldable pub max_numbers : Manifest → Option ℕ → Option (Option ℕ)
  unfolding max_number
  max_numbers [] m = some m
  max_numbers (l ∷ ls) m = bind (max_number l m) λ m'. max_numbers ls m'

  -- The sum is a usize; it wraps, in a build that does not check for it.
  unfoldable pub next_file_number : Manifest → Option ℕ
  unfolding max_numbers
  next_file_number manifest =
      bind (max_numbers manifest none)
        λ m. elim m [ none ↦ some 0 | some n ↦ some ((n + 1) % usize_bound) ]

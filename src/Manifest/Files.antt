-- ===== src/Manifest/Files.antt =====
-- The files of a level behind a change.
use mirdb.Prelude.{
  ℕ, zero, suc, ◌+◌, ◌-◌, ◌<◌, ◌≡◌, refl, sym, false, Option, none, some, List, [], ◌∷◌, ◌++◌,
  length, length-append, get_elem?, ◌==◌, if◌then◌else◌, ◌||◌, Slice, arith, true, Bool, ◌≢◌, ap,
  ◌∙◌, All, bytes_eq, bytes_eq→eq, bytes_eq_refl,
}
use mathlib.Core.Path.{subst}
use mirdb.Manifest.{
  FileMeta, LevelMeta, Manifest, contains, retained, empty_levels, ensure_level, change_level,
  add_file_meta, remove_file_metas,
}

abbrev pub files_of : Option LevelMeta → LevelMeta
files_of none = []
files_of (some l) = l

-- The files of a level; none where the manifest does not reach it.
abbrev pub files_at : Manifest → ℕ → LevelMeta
files_at m level = files_of (get_elem? m level)

files_at-empty_levels : (n j : ℕ) → files_at (empty_levels n) j ≡ []
files_at-empty_levels zero j = refl
files_at-empty_levels (suc n) zero = refl
files_at-empty_levels (suc n) (suc j) = files_at-empty_levels n j

files_at-append : (m : Manifest) (n j : ℕ) → files_at (m ++ empty_levels n) j ≡ files_at m j
files_at-append [] n j = files_at-empty_levels n j
files_at-append (l ∷ m) n zero = refl
files_at-append (l ∷ m) n (suc j) = files_at-append m n j

length-empty_levels : (n : ℕ) → length (empty_levels n) ≡ n
length-empty_levels zero = refl
length-empty_levels (suc n) = omega (arith, length-empty_levels n)

-- A change of one level.
pub record IsChanged (m : Manifest) (level : ℕ) (f : LevelMeta → LevelMeta) (o : Option Manifest)
    : Type 0 where
  pub manifest : Manifest
  pub done : o ≡ some manifest
  pub files :
      (j : ℕ) → files_at manifest j ≡ (if j == level then f (files_at m level) else files_at m j)

suc_eq : (a b : ℕ) → (suc a == suc b) ≡ (a == b)
suc_eq a b = ground arith

change_level-IsChanged :
    (m : Manifest) (level : ℕ) (f : LevelMeta → LevelMeta)
    → level < length m
    → IsChanged m level f (change_level m level f)
unfolding change_level
change_level-IsChanged [] level f h = absurd (omega arith)
change_level-IsChanged (l ∷ ls) zero f h = record { manifest = f l ∷ ls; done = refl; files = go }
  where
    go : (j : ℕ) → files_at (f l ∷ ls) j ≡ (if j == 0 then f l else files_at (l ∷ ls) j)
    go zero = refl
    go (suc j) = let e : (suc j == 0) ≡ false = ground arith in rw (e)
change_level-IsChanged (l ∷ ls) (suc level) f h =
    let r = change_level-IsChanged ls level f (omega arith) in
    record { manifest = l ∷ r.manifest; done = rw (change_level, r.done); files = go r }
  where
    go :
        (r : IsChanged ls level f (change_level ls level f)) (j : ℕ)
        → files_at (l ∷ r.manifest) j
          ≡ (if j == suc level then f (files_at ls level) else files_at (l ∷ ls) j)
    go r zero = let e : (0 == suc level) ≡ false = ground arith in rw (e)
    go r (suc j) = rw (suc_eq j level) (r.files j)

ensured :
    (m : Manifest) (level : ℕ) (f : LevelMeta → LevelMeta)
    → IsChanged m level f (change_level (ensure_level level m) level f)
unfolding ensure_level
ensured m level f =
    let n = level + 1 - length m in
    let r =
      change_level-IsChanged (m ++ empty_levels n) level f
        (omega (arith, length-append m (empty_levels n), length-empty_levels n)) in
    record {
      manifest = r.manifest;
      done = r.done;
      files = λ j. rw (sym (files_at-append m n j), sym (files_at-append m n level)) (r.files j);
    }

-- The second list has the files of the first, in their order, but for those with one of the names.
pub data IsRetained (names : List Slice) : LevelMeta → LevelMeta → Type 0 where
  nothing : IsRetained names [] []
  kept :
      {fm : FileMeta} {fms rest : LevelMeta}
      → All (λ n. n ≢ fm.file_name) names
      → IsRetained names fms rest
      → IsRetained names (fm ∷ fms) (fm ∷ rest)
  removed :
      {fm : FileMeta} {fms rest : LevelMeta} (before after : List Slice)
      → names ≡ before ++ (fm.file_name ∷ after)
      → IsRetained names fms rest
      → IsRetained names (fm ∷ fms) rest

-- A name is one of the names, or none of them.
abbrev IsContained : List Slice → Slice → Bool → Type 0
IsContained names name true =
    (before : List Slice) × (after : List Slice) × (names ≡ before ++ (name ∷ after))
IsContained names name false = All (λ n. n ≢ name) names

contains-IsContained :
    (names : List Slice) (name : Slice) → IsContained names name (contains names name)
contains-IsContained [] name = tt
contains-IsContained (n ∷ names) name =
    go (bytes_eq n name) refl (contains names name) (contains-IsContained names name)
  where
    go :
        (b : Bool)
        → bytes_eq n name ≡ b
        → (c : Bool) → IsContained names name c
        → IsContained (n ∷ names) name (b || c)
    go true e c h = ([], names, ap (λ t. t ∷ names) (bytes_eq→eq n name e))
    go false e true (before, after, h) = (n ∷ before, after, ap (λ t. n ∷ t) h)
    go false e false h = (differ, h)
      where
        differ : n ≢ name
        differ f =
            let g : bytes_eq n n ≡ false = subst (λ t. bytes_eq n t ≡ false) (sym f) e in
            let r = bytes_eq_refl n in cc

retained-IsRetained : (names : List Slice) (l : LevelMeta) → IsRetained names l (retained names l)
unfolding retained
retained-IsRetained names [] = IsRetained.nothing
retained-IsRetained names (fm ∷ fms) =
    go (contains names fm.file_name) (contains-IsContained names fm.file_name)
      (retained-IsRetained names fms)
  where
    go :
        (b : Bool)
        → IsContained names fm.file_name b
        → IsRetained names fms (retained names fms)
        → IsRetained names (fm ∷ fms) (if b then retained names fms else fm ∷ retained names fms)
    go true (before, after, h) ih = IsRetained.removed before after h ih
    go false h ih = IsRetained.kept h ih

-- A level without the files of some names; the other levels are left.
pub record IsRemoved (m : Manifest) (level : ℕ) (names : List Slice) (o : Option Manifest)
    : Type 0 where
  pub manifest : Manifest
  pub done : o ≡ some manifest
  pub files : IsRetained names (files_at m level) (files_at manifest level)
  pub others : (j : ℕ) → (j == level) ≡ false → files_at manifest j ≡ files_at m j

-- Adding a file to a level and removing named files from one do not panic, whether or not the manifest reaches
-- the level. The first puts the file at the end of its level; the second keeps exactly the files with
-- none of the names, in their order. Both leave the files of the other levels.
pub manifest-changes :
    (m : Manifest) (level : ℕ) (fm : FileMeta) (names : List Slice)
    → IsChanged m level (λ l. l ++ (fm ∷ [])) (add_file_meta level fm m)
      × IsRemoved m level names (remove_file_metas level names m)
unfolding add_file_meta remove_file_metas
manifest-changes m level fm names =
    let r = ensured m level (retained names) in
    let same : (level == level) ≡ true = ground arith in
    (
      ensured m level (λ l. l ++ (fm ∷ [])),
      record {
        manifest = r.manifest;
        done = r.done;
        files =
            subst (IsRetained names (files_at m level)) (sym (r.files level ∙ rw (same)))
              (retained-IsRetained names (files_at m level));
        others = λ j e. r.files j ∙ rw (e);
      },
    )

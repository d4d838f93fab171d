-- ===== src/Manifest/Fresh.antt =====
-- The next file number is that of no file.
use mirdb.Prelude.{
  ℕ, ◌+◌, ◌≤◌, ◌%◌, ◌<◌, ◌≡◌, ◌≢◌, refl, ap, ◌∙◌, Bool, true, false, Option, none, some, [], ◌∷◌,
  ◌++◌, ltb, ◌==◌, if◌then◌else◌, All, Slice, arith, Option-cases, inl, inr,
}
use mathlib.Core.Path.{subst}
use mirdb.ParserUtil.{usize_bound}
use mirdb.Manifest.{
  FileMeta, LevelMeta, Manifest, NameOps, first_piece, make_file_name, greater, max_number,
  max_numbers, next_file_number,
}

-- A usize is read from what it is written to, in which there is no dot.
pub record NameLaws (ops : NameOps) : Type 0 where
  pub parse_show : (n : ℕ) → n < usize_bound → ops.parse (ops.show n) ≡ some n
  pub show_no_dot : (n : ℕ) → All (λ c. c ≢ 46) (ops.show n)

abbrev IsAtMost : ℕ → Option ℕ → Type 0
IsAtMost q none = ⊥
IsAtMost q (some m) = q ≤ m

first_piece-append : (s ext : Slice) → All (λ c. c ≢ 46) s → first_piece (s ++ (46 ∷ ext)) ≡ s
first_piece-append [] ext h = refl
first_piece-append (c ∷ s) ext h =
    let k = h.0 in
    let e : (c == 46) ≡ false = ground arith in
    rw (e) (ap (λ t. c ∷ t) (first_piece-append s ext h.1))

module _ (ops : NameOps) (laws : NameLaws ops) where
  greater_new : (m : Option ℕ) (n : ℕ) → IsAtMost n (greater ops m n)
  greater_new none n = omega arith
  greater_new (some a) n = go (ltb a n) refl
    where
      go : (b : Bool) → ltb a n ≡ b → IsAtMost n (if b then some n else some a)
      go true e = omega arith
      go false e = ground arith

  greater_old : (m : Option ℕ) (n q : ℕ) → IsAtMost q m → IsAtMost q (greater ops m n)
  greater_old none n q h = absurd h
  greater_old (some a) n q h = go (ltb a n) refl
    where
      go : (b : Bool) → ltb a n ≡ b → IsAtMost q (if b then some n else some a)
      go true e = let k = h in ground arith
      go false e = h

  -- The number of the file is at most the bound.
  abbrev IsCounted : Option ℕ → FileMeta → Type 0
  IsCounted r fm = (q : ℕ) × (ops.parse (first_piece fm.file_name) ≡ some q) × IsAtMost q r

  abbrev IsBound : Option ℕ → Option ℕ → Type 0
  IsBound m r = (q : ℕ) → IsAtMost q m → IsAtMost q r

  max_number-IsCounted :
      (fms : LevelMeta) (m r : Option ℕ)
      → max_number ops fms m ≡ some r
      → IsBound m r × All (IsCounted r) fms
  unfolding max_number
  max_number-IsCounted [] m r e = let f : m ≡ r = cc in ((λ q h. subst (IsAtMost q) f h), tt)
  max_number-IsCounted (fm ∷ fms) m r e =
      elim (Option-cases (ops.parse (first_piece fm.file_name))) [
        | inl n ↦ let e' : none ≡ some r = rw (max_number, n) at e in cc
        | inr (n, p) ↦
            let e' : max_number ops fms (greater ops m n) ≡ some r = rw (max_number, p) at e in
            let (b, c) = max_number-IsCounted fms (greater ops m n) r e' in
            ((λ q h. b q (greater_old m n q h)), ((n, p, b n (greater_new m n)), c))
      ]

  IsCounted-IsBound :
      (m r : Option ℕ) (fms : LevelMeta)
      → IsBound m r
      → All (IsCounted m) fms
      → All (IsCounted r) fms
  IsCounted-IsBound m r [] b h = tt
  IsCounted-IsBound m r (fm ∷ fms) b h =
      let (q, p, k) = h.0 in ((q, p, b q k), IsCounted-IsBound m r fms b h.1)

  max_numbers-IsCounted :
      (ls : Manifest) (m r : Option ℕ)
      → max_numbers ops ls m ≡ some r
      → IsBound m r × All (All (IsCounted r)) ls
  unfolding max_numbers
  max_numbers-IsCounted [] m r e = let f : m ≡ r = cc in ((λ q h. subst (IsAtMost q) f h), tt)
  max_numbers-IsCounted (l ∷ ls) m r e = elim (Option-cases (max_number ops l m)) [
    | inl n ↦ let e' : none ≡ some r = rw (max_numbers, n) at e in cc
    | inr (m', p) ↦
        let e' : max_numbers ops ls m' ≡ some r = rw (max_numbers, p) at e in
        let (b, c) = max_number-IsCounted l m m' p in
        let (b', c') = max_numbers-IsCounted ls m' r e' in
        ((λ q h. b' q (b q h)), (IsCounted-IsBound m' r l b' c, c'))
  ]

  abbrev pub IsFreshName : Slice → Manifest → Type 0
  IsFreshName name = All (All (λ fm. fm.file_name ≢ name))

  level-IsFreshName :
      (n k : ℕ) (ext : Slice) (r : Option ℕ) (fms : LevelMeta)
      → ((q : ℕ) → IsAtMost q r → q < n)
      → n ≤ k
      → k < usize_bound
      → All (IsCounted r) fms
      → All (λ fm. fm.file_name ≢ make_file_name ops k ext) fms
  unfolding make_file_name
  level-IsFreshName n k ext r [] b l u h = tt
  level-IsFreshName n k ext r (fm ∷ fms) b l u h =
      let (q, p, c) = h.0 in
      (
        (λ e.
            let s =
              ap (λ t. ops.parse (first_piece t)) e
              ∙ ap ops.parse (first_piece-append (ops.show k) ext (laws.show_no_dot k))
              ∙ laws.parse_show k u in
            let f : q ≡ k = cc in let g = b q c in omega arith),
        level-IsFreshName n k ext r fms b l u h.1,
      )

  levels-IsFreshName :
      (n k : ℕ) (ext : Slice) (r : Option ℕ) (ls : Manifest)
      → ((q : ℕ) → IsAtMost q r → q < n)
      → n ≤ k
      → k < usize_bound
      → All (All (IsCounted r)) ls
      → IsFreshName (make_file_name ops k ext) ls
  levels-IsFreshName n k ext r [] b l u h = tt
  levels-IsFreshName n k ext r (fms ∷ ls) b l u h =
      (level-IsFreshName n k ext r fms b l u h.0, levels-IsFreshName n k ext r ls b l u h.1)

  -- A file whose number is not the greatest usize.
  abbrev pub HasNext : FileMeta → Type 0
  HasNext fm = (q : ℕ) → ops.parse (first_piece fm.file_name) ≡ some q → q + 1 < usize_bound

  abbrev IsSmall : Option ℕ → Type 0
  IsSmall m = (q : ℕ) → m ≡ some q → q + 1 < usize_bound

  greater-IsSmall :
      (m : Option ℕ) (n : ℕ) → IsSmall m → n + 1 < usize_bound → IsSmall (greater ops m n)
  greater-IsSmall none n h l = λ q e. let f : n ≡ q = cc in subst (λ t. t + 1 < usize_bound) f l
  greater-IsSmall (some a) n h l = go (ltb a n)
    where
      go : (b : Bool) → IsSmall (if b then some n else some a)
      go true = λ q e. let f : n ≡ q = cc in subst (λ t. t + 1 < usize_bound) f l
      go false = h

  max_number-IsSmall :
      (fms : LevelMeta) (m r : Option ℕ)
      → IsSmall m
      → All HasNext fms
      → max_number ops fms m ≡ some r
      → IsSmall r
  unfolding max_number
  max_number-IsSmall [] m r h a e = let f : m ≡ r = cc in subst IsSmall f h
  max_number-IsSmall (fm ∷ fms) m r h a e =
      elim (Option-cases (ops.parse (first_piece fm.file_name))) [
        | inl n ↦ let e' : none ≡ some r = rw (max_number, n) at e in cc
        | inr (n, p) ↦
            let e' : max_number ops fms (greater ops m n) ≡ some r = rw (max_number, p) at e in
            max_number-IsSmall fms (greater ops m n) r (greater-IsSmall m n h (a.0 n p)) a.1 e'
      ]

  max_numbers-IsSmall :
      (ls : Manifest) (m r : Option ℕ)
      → IsSmall m
      → All (All HasNext) ls
      → max_numbers ops ls m ≡ some r
      → IsSmall r
  unfolding max_numbers
  max_numbers-IsSmall [] m r h a e = let f : m ≡ r = cc in subst IsSmall f h
  max_numbers-IsSmall (l ∷ ls) m r h a e = elim (Option-cases (max_number ops l m)) [
    | inl n ↦ let e' : none ≡ some r = rw (max_numbers, n) at e in cc
    | inr (m', p) ↦
        let e' : max_numbers ops ls m' ≡ some r = rw (max_numbers, p) at e in
        max_numbers-IsSmall ls m' r (max_number-IsSmall l m m' h a.0 p) a.1 e'
  ]

  -- A file name made of the next file number, or of a greater usize, is that of no file of the manifest, on
  -- any level and whatever its extension, if no file has the greatest usize as its number.
  pub next_file_number-IsFreshName :
      (manifest : Manifest) (n k : ℕ) (ext : Slice)
      → All (All HasNext) manifest
      → next_file_number ops manifest ≡ some n
      → n ≤ k
      → k < usize_bound
      → IsFreshName (make_file_name ops k ext) manifest
  unfolding next_file_number
  next_file_number-IsFreshName manifest n k ext a e l u =
      elim (Option-cases (max_numbers ops manifest none)) [
        | inl x ↦ let e' : none ≡ some n = rw (next_file_number, x) at e in cc
        | inr (r, p) ↦
            let (b, c) = max_numbers-IsCounted manifest none r p in
            let s = max_numbers-IsSmall manifest none r (λ q f. cc) a p in
            let e' : elim r as (λ t. Option ℕ) [
              | none ↦ some 0
              | some m ↦ some ((m + 1) % usize_bound)
            ]
                ≡ some n =
              rw (next_file_number, p) at e in
            levels-IsFreshName n k ext r manifest (bound r s e') l u c
      ]
    where
      bound :
          (r : Option ℕ)
          → IsSmall r
          → elim r as (λ t. Option ℕ) [ none ↦ some 0 | some m ↦ some ((m + 1) % usize_bound) ]
            ≡ some n
          → (q : ℕ) → IsAtMost q r
          → q < n
      bound none s e q h = absurd h
      bound (some m) s e q h =
          let f : (m + 1) % usize_bound ≡ n = cc in let h' = h in let s' = s m refl in omega arith

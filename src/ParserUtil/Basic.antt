-- ===== src/ParserUtil/Basic.antt =====
-- Postconditions of the single parsers of macros.rs: what they take, what they leave, no panic.
use mirdb.Prelude.{
  ℕ, zero, ap, suc, ◌+◌, ◌-◌, ◌*◌, ◌≤◌, ◌<◌, ◌≡◌, refl, Bool, true, false, not, ◌&&◌, inl, inr,
  Option, none, some, List, [], ◌∷◌, ◌++◌, arith, ltb, leb, if◌then◌else◌, leb→le, Bool-cases,
  length, take, drop, All, position, take-append-drop, take-length, drop-length, length-take,
  length-append, length-drop, Slice,
}
use mirdb.ParserUtil.{
  IrResult, ok, err, incomplete, stuck, differs, compare, take_split, split_ok, take_front,
  contains, is_not, tag, find_tag, take_at_least, is_space, space, is_digit, from_str, number_ok,
  digits_front, digit,
}
use mirdb.ParserUtil.Ends.{Ends, Ends-weaken, Front}

-- What `position` finds: no element before it passes the test.
pub position-some {ℓ} :
    {A : Type ℓ} (p : A → Bool) (xs : List A) (v : ℕ)
    → position p xs ≡ some v
    → All (λ x. p x ≡ false) (take v xs) × (v < length xs)
position-some p [] v h = cc
position-some p (x ∷ xs) zero h = ground arith
position-some p (x ∷ xs) (suc v) h = ground (arith, position-some p xs v)

pub position-none {ℓ} :
    {A : Type ℓ} (p : A → Bool) (xs : List A) → position p xs ≡ none → All (λ x. p x ≡ false) xs
position-none p [] h = tt
position-none p (x ∷ xs) h = ground (arith, position-none p xs)

take-suc_ne : (v : ℕ) (i : Slice) → suc v < length i → take (suc v) i ≡ [] → ⊥
take-suc_ne v [] b h = absurd (omega arith)
take-suc_ne v (x ∷ i) b h = cc

-- Everything that a parser built on `position` takes fails the test that it looks for.
abbrev pub Taken : (ℕ → Bool) → Slice → Slice → Slice → Type 0
Taken p i rest o = (o ++ rest ≡ i) × All (λ x. p x ≡ false) o × (o ≡ [] → rest ≡ [])

take_front-Taken :
    (p : ℕ → Bool) (i : Slice) → Ends (λ rest o. Taken p i rest o) (take_front i (position p i))
unfolding take_front take_split
take_front-Taken p i = go (position p i) refl
  where
    go : (o : Option ℕ) → position p i ≡ o → Ends (λ rest o. Taken p i rest o) (take_front i o)
    go none e = (
      take-append-drop (length i) i,
      rw (take-length i) (position-none p i e),
      λ _. drop-length i,
    )
    go (some zero) e = tt
    go (some (suc v)) e =
        let (a, b) = position-some p i (suc v) e in
        (take-append-drop (suc v) i, a, λ h. absurd (take-suc_ne v i b h))

pub is_not-Taken :
    (e : Slice) (i : Slice) → Ends (λ rest o. Taken (contains e) i rest o) (is_not e i)
unfolding is_not
is_not-Taken e i = take_front-Taken (contains e) i

Taken-Front :
    (p : ℕ → Bool) (i : Slice) → Ends (λ rest o. Front i rest) (take_front i (position p i))
Taken-Front p i =
    Ends-weaken (λ rest o. Taken p i rest o) (λ rest o. Front i rest) _ (λ rest o h. (o, h.0))
      (take_front-Taken p i)

Taken-lt :
    (p : ℕ → Bool) (c : ℕ) (i rest o : Slice)
    → Taken p (c ∷ i) rest o
    → length rest < length (c ∷ i)
Taken-lt p c i rest [] (e, a, z) = absurd (cc (e, z refl))
Taken-lt p c i rest (x ∷ o) (e, a, z) = omega (arith, length-append (x ∷ o) rest, ap length e)

-- A separator is never empty.
pub space-Front : (i : Slice) → Ends (λ rest o. Front i rest × (length rest < length i)) (space i)
unfolding space
space-Front [] = tt
space-Front (c ∷ i) =
    let p : ℕ → Bool = λ x. not (is_space x) in
    Ends-weaken (λ rest o. Taken p (c ∷ i) rest o)
      (λ rest o. Front (c ∷ i) rest × (length rest < length (c ∷ i))) _
      (λ rest o h. ((o, h.0), Taken-lt p c i rest o h)) (take_front-Taken p (c ∷ i))

from_str-lt : (bound acc : ℕ) (s : Slice) (n : ℕ) → from_str bound acc s ≡ some n → n < bound
unfolding from_str
from_str-lt bound acc [] n h = ground arith
from_str-lt bound acc (c ∷ s) n h = from_str-lt bound (acc * 10 + (c - 0x30)) s n h

digits_front-lt :
    (bound : ℕ) (i : Slice) (r : IrResult Slice)
    → Ends (λ rest o. Front i rest) r
    → Ends (λ rest n. Front i rest × (n < bound)) (digits_front bound r)
unfolding digits_front
digits_front-lt bound i (ok rest o) h = go (from_str bound 0 o) refl
  where
    go :
        (m : Option ℕ)
        → from_str bound 0 o ≡ m
        → Ends (λ rest n. Front i rest × (n < bound)) (number_ok rest m)
    go none e = tt
    go (some n) e = (h, from_str-lt bound 0 o n e)
digits_front-lt bound i err h = tt
digits_front-lt bound i (incomplete n) h = tt
digits_front-lt bound i stuck h = h

pub digit-lt : (bound : ℕ) (i : Slice) → Ends (λ rest n. Front i rest × (n < bound)) (digit bound i)
unfolding digit
digit-lt bound [] = tt
digit-lt bound (c ∷ i) =
    digits_front-lt bound (c ∷ i) _ (Taken-Front (λ x. not (is_digit x)) (c ∷ i))

-- A tag takes exactly its own bytes.
differs-take : (i t : Slice) → differs i t ≡ false → length t ≤ length i → take (length t) i ≡ t
differs-take i [] e h = refl
differs-take [] (b ∷ t) e h = absurd (omega arith)
differs-take (a ∷ i) (b ∷ t) e h = ground (arith, differs-take i t)

pub tag-exact : (t i : Slice) → Ends (λ rest o. (o ≡ t) × (t ++ rest ≡ i)) (tag t i)
unfolding tag compare take_split
tag-exact t i = elim (Bool-cases (differs i t)) [
  | inl d ↦ rw (d, Ends) tt
  | inr d ↦ elim (Bool-cases (leb (length t) (length i))) [
    | inl l ↦
        let e = differs-take i t d (leb→le _ _ l) in
        rw (d, l, Ends) (e, rw e at (take-append-drop (length t) i))
    | inr l ↦ rw (d, l, Ends) tt
  ]
]

-- The payload has at least the bytes that were announced.
find_tag-bound :
    (rounds : ℕ) (ni t : Slice) (ii at : ℕ) → find_tag rounds ni t ii ≡ some at → at < ii + rounds
unfolding find_tag
find_tag-bound zero ni t ii at h = cc
find_tag-bound (suc rounds) ni t ii at h = ground (arith, find_tag-bound rounds ni t (ii + 1) at)

Split-long :
    (size n : ℕ) (i : Slice)
    → size ≤ n
    → n ≤ length i
    → Ends (λ rest o. Front i rest × (size ≤ length o)) (split_ok (take_split i n))
unfolding take_split
Split-long size n i h k = ((take n i, take-append-drop n i), omega (arith, length-take n i))

pub take_at_least-le :
    (size : ℕ) (t i : Slice)
    → Ends (λ rest o. Front i rest × (size ≤ length o)) (take_at_least size t i)
unfolding take_at_least
take_at_least-le size t i = elim (Bool-cases (leb size (length i))) [
  | inr l ↦ rw (l, Ends) tt
  | inl l ↦ rw (l, Ends) (go (leb→le _ _ l) _ refl)
]
  where
    whole :
        size ≤ length i
        → Ends (λ rest o. Front i rest × (size ≤ length o)) (split_ok (take_split i (length i)))
    whole l = Split-long size (length i) i l (omega arith)

    found :
        size ≤ length i
        → (o : Option ℕ) → find_tag (length (drop size i) - length t + 1) (drop size i) t 0 ≡ o
        → Ends
            (λ rest o. Front i rest × (size ≤ length o))
            (elim o [
              | some at ↦ split_ok (take_split i (at + size))
              | none ↦ split_ok (take_split i (length i))
            ])
    found l none e = whole l
    found l (some at) e =
        Split-long size (at + size) i (omega arith)
          (omega (arith, length-drop size i, find_tag-bound _ (drop size i) t 0 at e))

    go :
        size ≤ length i
        → (b : Bool)
        → (ltb 0 (length (drop size i))
            && (ltb 0 (length t) && leb (length t) (length (drop size i))))
          ≡ b
        → Ends
            (λ rest o. Front i rest × (size ≤ length o))
            (if b
              then elim (find_tag (length (drop size i) - length t + 1) (drop size i) t 0) [
                | some at ↦ split_ok (take_split i (at + size))
                | none ↦ split_ok (take_split i (length i))
              ]
              else split_ok (take_split i (length i)))
    go l false e = whole l
    go l true e = found l (find_tag (length (drop size i) - length t + 1) (drop size i) t 0) refl

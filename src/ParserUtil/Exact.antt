-- ===== src/ParserUtil/Exact.antt =====
-- What the parsers of macros.rs return on inputs of a known shape.
use mirdb.Prelude.{
  ℕ, suc, ◌+◌, ◌-◌, ◌≡◌, refl, Bool, true, false, ◌≢◌, none, some, List, [], ◌∷◌, ◌++◌, arith,
  le→leb, ◌==◌, length, All, position, length-append, take-append, drop-append, take-length,
  drop-length, Slice, bytes_eq_refl, ==_refl,
}
use native.Mathlib.Nat.{zero-add}
use native.Mathlib.Numerals.{add-one}
use mirdb.ParserUtil.{
  ok, err, Parser, differs, compare, take_split, split_ok, take_front, contains, is_not, tag,
  find_tag, take_at_least, space, ◌>>=◌, ◌>>◌, opt, alt,
}

pub position-hit {ℓ} :
    {A : Type ℓ} (p : A → Bool) (xs : List A) (y : A) (ys : List A)
    → All (λ x. p x ≡ false) xs
    → p y ≡ true
    → position p (xs ++ y ∷ ys) ≡ some (length xs)
position-hit p [] y ys a h = rw h
position-hit p (x ∷ xs) y ys a h = rw (a.0, position-hit p xs y ys a.1 h)

pub position-miss {ℓ} :
    {A : Type ℓ} (p : A → Bool) (xs : List A) → All (λ x. p x ≡ false) xs → position p xs ≡ none
position-miss p [] a = refl
position-miss p (x ∷ xs) a = rw (a.0, position-miss p xs a.1)

pub take_front-hit :
    (p : ℕ → Bool) (xs : Slice) (y : ℕ) (ys : Slice)
    → xs ≢ []
    → All (λ x. p x ≡ false) xs
    → p y ≡ true
    → take_front (xs ++ y ∷ ys) (position p (xs ++ y ∷ ys)) ≡ ok (y ∷ ys) xs
unfolding take_front take_split
take_front-hit p [] y ys ne a h = absurd (ne refl)
take_front-hit p (x ∷ xs) y ys ne a h =
    rw (position-hit p (x ∷ xs) y ys a h, take-append xs (y ∷ ys), drop-append xs (y ∷ ys))

take_front-All :
    (p : ℕ → Bool) (xs : Slice)
    → All (λ x. p x ≡ false) xs
    → take_front xs (position p xs) ≡ ok [] xs
unfolding take_front take_split
take_front-All p xs a = rw (position-miss p xs a, take-length xs, drop-length xs)

pub is_not-hit :
    (e xs : Slice) (y : ℕ) (ys : Slice)
    → xs ≢ []
    → All (λ x. contains e x ≡ false) xs
    → contains e y ≡ true
    → is_not e (xs ++ y ∷ ys) ≡ ok (y ∷ ys) xs
unfolding is_not
is_not-hit e xs y ys = take_front-hit (contains e) xs y ys

pub is_not-All : (e xs : Slice) → All (λ x. contains e x ≡ false) xs → is_not e xs ≡ ok [] xs
unfolding is_not
is_not-All e xs = take_front-All (contains e) xs

-- One space in front of another byte.
pub space_one : (c : ℕ) (r : Slice) → (c == 32) ≡ false → space (32 ∷ c ∷ r) ≡ ok (c ∷ r) (32 ∷ [])
unfolding space take_front
space_one c r h = rw h

differs-append : (t r : Slice) → differs (t ++ r) t ≡ false
differs-append [] [] = refl
differs-append [] (x ∷ r) = refl
differs-append (b ∷ t) r = rw (==_refl b) (differs-append t r)

pub tag-append : (t r : Slice) → tag t (t ++ r) ≡ ok r t
unfolding tag compare take_split
tag-append t r = rw (
  tag,
  differs-append t r,
  le→leb (length t) (length (t ++ r)) (omega (arith, length-append t r)),
  take-append t r,
  drop-append t r,
)

find_tag-here :
    (rounds : ℕ) (r : Slice) (a : ℕ) (t : Slice)
    → find_tag (suc rounds) ((a ∷ t) ++ r) (a ∷ t) 0 ≡ some 0
unfolding find_tag
find_tag-here rounds r a t = rw (take-append t r, ==_refl a, bytes_eq_refl t)

-- The payload of exactly the announced length, in front of its terminator.
pub take_at_least_exact :
    (p r : Slice) (a : ℕ) (t : Slice)
    → take_at_least (length p) (a ∷ t) (p ++ ((a ∷ t) ++ r)) ≡ ok ((a ∷ t) ++ r) p
unfolding take_at_least take_split
take_at_least_exact p r a t =
    let all : Slice = (a ∷ t) ++ r in
    rw
      (
        take_at_least,
        le→leb (length p) (length (p ++ all)) (omega (arith, length-append p all)),
        drop-append p all,
      )
      (ground (arith, length-append t r, found, split_at_p))
  where
    found : find_tag (length ((a ∷ t) ++ r) - length (a ∷ t) + 1) ((a ∷ t) ++ r) (a ∷ t) 0 ≡ some 0
    found = rw add-one (find_tag-here _ r a t)

    split_at_p : split_ok (take_split (p ++ ((a ∷ t) ++ r)) (0 + length p)) ≡ ok ((a ∷ t) ++ r) p
    split_at_p = rw (zero-add, take-append p ((a ∷ t) ++ r), drop-append p ((a ∷ t) ++ r))

-- A run of a parser that succeeds, and one that fails.
pub record Runs {ℓ} {A : Type ℓ} (p : Parser A) (i rest : Slice) (a : A) : Type ℓ where
  pub eq : p i ≡ ok rest a

pub record Fails {ℓ} {A : Type ℓ} (p : Parser A) (i : Slice) : Type ℓ where
  pub eq : p i ≡ err

-- The steps of `chain!`.
module _ {ℓ κ} {A : Type ℓ} {B : Type κ} {p : Parser A} {i r : Slice} {a : A} where
  pub Runs-bind :
      (f : A → Parser B) {s : Slice} {b : B}
      → Runs p i r a
      → Runs (f a) r s b
      → Runs (p >>= f) i s b
  unfolding ◌>>=◌
  Runs-bind f hp hf = record { eq = rw (hp.eq, ◌>>=◌) hf.eq }

  pub Runs-then :
      {q : Parser B} {s : Slice} {b : B} → Runs p i r a → Runs q r s b → Runs (p >> q) i s b
  unfolding ◌>>◌ ◌>>=◌
  Runs-then hp hq = record { eq = rw (hp.eq, ◌>>◌, ◌>>=◌) hq.eq }

  pub Fails-bind : (f : A → Parser B) → Runs p i r a → Fails (f a) r → Fails (p >>= f) i
  unfolding ◌>>=◌
  Fails-bind f hp hf = record { eq = rw (hp.eq, ◌>>=◌) hf.eq }

  pub Fails-then : {q : Parser B} → Runs p i r a → Fails q r → Fails (p >> q) i
  unfolding ◌>>◌ ◌>>=◌
  Fails-then hp hq = record { eq = rw (hp.eq, ◌>>◌, ◌>>=◌) hq.eq }

pub Runs-alt {ℓ} :
    {A : Type ℓ} {p : Parser A} (q : Parser A) {i rest : Slice} {a : A}
    → Runs p i rest a
    → Runs (alt p q) i rest a
unfolding alt
Runs-alt q h = record { eq = rw (alt, h.eq) }

module _ {ℓ} {A : Type ℓ} {p q : Parser A} {i : Slice} where
  pub Runs-alt_right :
      {rest : Slice} {a : A} → Fails p i → Runs q i rest a → Runs (alt p q) i rest a
  unfolding alt
  Runs-alt_right f h = record { eq = rw (alt, f.eq) h.eq }

  pub Fails-alt : Fails p i → Fails q i → Fails (alt p q) i
  unfolding alt
  Fails-alt f h = record { eq = rw (alt, f.eq) h.eq }

pub Runs-opt {ℓ} :
    {A : Type ℓ} {p : Parser A} {i rest : Slice} {a : A}
    → Runs p i rest a
    → Runs (opt p) i rest (some a)
unfolding opt
Runs-opt h = record { eq = rw (opt, h.eq) }

pub Fails-first {ℓ κ} :
    {A : Type ℓ} {B : Type κ} {p : Parser A} (q : Parser B) {i : Slice}
    → Fails p i
    → Fails (p >> q) i
unfolding ◌>>◌ ◌>>=◌
Fails-first q h = record { eq = rw (h.eq, ◌>>◌, ◌>>=◌) }

-- ===== src/Sstable/Separator/Bounds.antt =====
-- Where the separators lie between the keys.
use mirdb.Prelude.{
  ℕ, zero, suc, ◌+◌, ◌<◌, ◌≤◌, ◌≡◌, ◌⊎◌, inl, inr, refl, sym, ap, true, false, Option, none, some,
  [], ◌∷◌, ◌++◌, arith, ◌==◌, ==_refl, length, length-append, drop, Slice, bytes_eq, bytes_lt,
  Bool-cases, ==_iff,
}
use mathlib.Core.Path.{subst}
use mirdb.Sstable.Separator.{
  diff_at, room_at, increased, sep_at, find_shortest_sep, short_succ, find_short_succ,
}

-- What a separator of `a` and `b` is.
abbrev pub Separates : Slice → Slice → Slice → Type 0
Separates a b s =
    (bytes_lt a s ≡ true)
    × ((bytes_lt s b ≡ true) ⊎ ((s ≡ b) × (b ≡ a ++ 0 ∷ [])))
    × (length s ≤ length a + 1)

lt-longer : (a : Slice) (x : ℕ) → bytes_lt a (a ++ x ∷ []) ≡ true
lt-longer [] x = refl
lt-longer (y ∷ a) x = ground (arith, lt-longer a x)

lt-increased : (a b : Slice) (i : ℕ) → room_at a b ≡ some i → bytes_lt a (increased i a) ≡ true
unfolding room_at
lt-increased [] b i h = cc
lt-increased (x ∷ a) [] i h = cc
lt-increased (x ∷ a) (y ∷ b) zero h = ground arith
lt-increased (x ∷ a) (y ∷ b) (suc i) h = ground (arith, lt-increased a b i)

length-increased : (i : ℕ) (a : Slice) → length (increased i a) ≤ length a
length-increased i [] = omega arith
length-increased zero (x ∷ a) = omega arith
length-increased (suc i) (x ∷ a) = omega (arith, length-increased i a)

increased-lt :
    (x y : ℕ) (a b : Slice) (i : ℕ)
    → x < y
    → room_at (x ∷ a) (y ∷ b) ≡ some i
    → bytes_lt (increased i (x ∷ a)) (y ∷ b) ≡ true
unfolding room_at
increased-lt x y a b zero l h = ground arith
increased-lt x y a b (suc i) l h = ground arith

apart-Separates :
    (x y : ℕ) (a b : Slice)
    → x < y
    → (o : Option ℕ) → room_at (x ∷ a) (y ∷ b) ≡ o
    → Separates (x ∷ a) (y ∷ b) (sep_at (x ∷ a) 0 o)
apart-Separates x y a b l none h =
    (lt-longer (x ∷ a) 0, inl (ground arith), omega (arith, length-append a (0 ∷ [])))
apart-Separates x y a b l (some i) h =
    subst (λ j. Separates (x ∷ a) (y ∷ b) (increased j (x ∷ a))) (omega arith)
      (
        lt-increased (x ∷ a) (y ∷ b) i h,
        inl (increased-lt x y a b i l h),
        omega (arith, length-increased i (x ∷ a)),
      )

cons-Separates : (x : ℕ) (a b s : Slice) → Separates a b s → Separates (x ∷ a) (x ∷ b) (x ∷ s)
cons-Separates x a b s (l, inl u, n) = (ground arith, inl (ground arith), omega arith)
cons-Separates x a b s (l, inr (e, f), n) = (ground arith, inr (cc, cc), omega arith)

abbrev core : Slice → Slice → Slice
core a b = sep_at a (diff_at a b) (room_at (drop (diff_at a b) a) (drop (diff_at a b) b))

sep_at-cons :
    (x : ℕ) (a : Slice) (d : ℕ) (o : Option ℕ) → sep_at (x ∷ a) (suc d) o ≡ x ∷ sep_at a d o
sep_at-cons x a d none = refl
sep_at-cons x a d (some i) =
    let e : suc d + i ≡ suc (d + i) = omega arith in ap (λ j. increased j (x ∷ a)) e

core-same : (x : ℕ) (a b : Slice) → core (x ∷ a) (x ∷ b) ≡ x ∷ core a b
unfolding diff_at
core-same x a b =
    let e : diff_at (x ∷ a) (x ∷ b) ≡ suc (diff_at a b) = rw (diff_at, ==_refl x) in
    rw e (sep_at-cons x a (diff_at a b) _)

core-apart :
    (x y : ℕ) (a b : Slice)
    → (x == y) ≡ false
    → core (x ∷ a) (y ∷ b) ≡ sep_at (x ∷ a) 0 (room_at (x ∷ a) (y ∷ b))
unfolding diff_at
core-apart x y a b h = let e : diff_at (x ∷ a) (y ∷ b) ≡ 0 = rw (diff_at, h) in rw e

core-Separates : (a b : Slice) → bytes_lt a b ≡ true → Separates a b (core a b)
unfolding diff_at room_at
core-Separates [] [] h = cc
core-Separates [] (y ∷ b) h = (refl, below y b, omega arith)
  where
    below :
        (y : ℕ) (b : Slice)
        → (bytes_lt (0 ∷ []) (y ∷ b) ≡ true) ⊎ ((0 ∷ [] ≡ y ∷ b) × (y ∷ b ≡ 0 ∷ []))
    below zero [] = inr (refl, refl)
    below zero (z ∷ b) = inl refl
    below (suc y) b = inl (ground arith)
core-Separates (x ∷ a) [] h = cc
core-Separates (x ∷ a) (y ∷ b) h = split (Bool-cases (x == y)) (core-Separates a b)
  where
    split :
        ((x == y) ≡ true) ⊎ ((x == y) ≡ false)
        → (bytes_lt a b ≡ true → Separates a b (core a b))
        → Separates (x ∷ a) (y ∷ b) (core (x ∷ a) (y ∷ b))
    split (inl e) ih =
        let same : x ≡ y = (==_iff x y).0 e in
        let below : bytes_lt a b ≡ true = ground arith in
        subst (λ z. Separates (x ∷ a) (z ∷ b) (core (x ∷ a) (z ∷ b))) same
          (subst (Separates (x ∷ a) (x ∷ b)) (sym (core-same x a b))
            (cons-Separates x a b (core a b) (ih below)))
    split (inr e) ih =
        subst (Separates (x ∷ a) (y ∷ b)) (sym (core-apart x y a b e))
          (apart-Separates x y a b (ground arith) (room_at (x ∷ a) (y ∷ b)) refl)

not_eq : (a b : Slice) → bytes_lt a b ≡ true → bytes_eq a b ≡ false
not_eq [] [] h = cc
not_eq [] (y ∷ b) h = refl
not_eq (x ∷ a) [] h = cc
not_eq (x ∷ a) (y ∷ b) h = ground (arith, not_eq a b)

-- Of two keys `a` below `b`, the separator is above `a`; it is below `b`, unless `b` is `a` with a zero
-- byte behind it, when it is `b` itself; and it is at most one byte longer than `a`.
pub find_shortest_sep-Separates :
    (a b : Slice) → bytes_lt a b ≡ true → Separates a b (find_shortest_sep a b)
unfolding find_shortest_sep
find_shortest_sep-Separates a b h = rw (find_shortest_sep, not_eq a b h) (core-Separates a b h)

short_succ-above :
    (a r : Slice) → short_succ a ≡ some r → (bytes_lt a r ≡ true) × (length r ≤ length a)
short_succ-above [] r h = cc
short_succ-above (x ∷ a) r h =
    split (Bool-cases (x == 0xff)) (short_succ a) refl (short_succ-above a)
  where
    split :
        ((x == 0xff) ≡ true) ⊎ ((x == 0xff) ≡ false)
        → (o : Option Slice) → short_succ a ≡ o
        → ((r : Slice) → short_succ a ≡ some r → (bytes_lt a r ≡ true) × (length r ≤ length a))
        → (bytes_lt (x ∷ a) r ≡ true) × (length r ≤ length (x ∷ a))
    split (inr e) o k ih =
        let f : (x + 1) ∷ [] ≡ r = ground arith in
        subst (λ r. (bytes_lt (x ∷ a) r ≡ true) × (length r ≤ length (x ∷ a))) f
          (ground arith, omega arith)
    split (inl e) none k ih = absurd (ground arith)
    split (inl e) (some q) k ih =
        let f : x ∷ q ≡ r = ground arith in
        subst (λ r. (bytes_lt (x ∷ a) r ≡ true) × (length r ≤ length (x ∷ a))) f
          (ground (arith, (ih q k).0), omega (arith, (ih q k).1))

-- The short successor of a key is above it, and at most one byte longer.
pub find_short_succ-above :
    (a : Slice)
    → (bytes_lt a (find_short_succ a) ≡ true) × (length (find_short_succ a) ≤ length a + 1)
unfolding find_short_succ
find_short_succ-above a = go (short_succ a) refl
  where
    go :
        (o : Option Slice)
        → short_succ a ≡ o
        → (bytes_lt a (elim o [ none ↦ a ++ 255 ∷ [] | some r ↦ r ]) ≡ true)
          × (length (elim o [ none ↦ a ++ 255 ∷ [] | some r ↦ r ]) ≤ length a + 1)
    go none h = (lt-longer a 255, omega (arith, length-append a (255 ∷ [])))
    go (some r) h = let (l, n) = short_succ-above a r h in (l, omega arith)

-- ===== src/ParserUtil/Ends.antt =====
-- Postconditions of the parsers of macros.rs. `Ends Q r` says that `r` is no panic and that `Q`
-- holds of what a success returns.
use mirdb.Prelude.{
  Option, ◌≤◌, ◌≡◌, refl, ap, ◌∙◌, none, some, [], ◌++◌, append_assoc, arith, length, length-append,
  Slice,
}
use mirdb.ParserUtil.{
  IrResult, ok, err, incomplete, stuck, Parser, opt, alt, done, done_or_panic, ◌>>=◌, ◌>>◌,
}

abbrev pub Ends {ℓ} : {A : Type ℓ} → (Slice → A → Type 0) → IrResult A → Type 0
Ends Q (ok rest a) = Q rest a
Ends Q err = Unit
Ends Q (incomplete n) = Unit
Ends Q stuck = ⊥

-- `rest` is what is left of `i` after a front of it.
abbrev pub Front : Slice → Slice → Type 0
Front i rest = (c : Slice) × (c ++ rest ≡ i)

pub Front-trans : {i r s : Slice} → Front i r → Front r s → Front i s
Front-trans {s = s} (c, p) (d, q) = (c ++ d, append_assoc c d s ∙ ap (λ t. c ++ t) q ∙ p)

pub Front-refl : (i : Slice) → Front i i
Front-refl i = ([], refl)

pub length-Front : (i rest : Slice) → Front i rest → length rest ≤ length i
length-Front i rest (c, p) = omega (arith, length-append c rest, ap length p)

module _ {ℓ} {A : Type ℓ} where
  pub Ends-weaken :
      (P Q : Slice → A → Type 0) (r : IrResult A)
      → ((rest : Slice) (a : A) → P rest a → Q rest a)
      → Ends P r
      → Ends Q r
  Ends-weaken P Q (ok rest a) f h = f rest a h
  Ends-weaken P Q err f h = tt
  Ends-weaken P Q (incomplete n) f h = tt
  Ends-weaken P Q stuck f h = h

-- The rule for a `match` on a parser's result that passes `Incomplete` on.
pub Ends-cases {ℓ κ} :
    {A : Type ℓ} {B : Type κ} (Q : Slice → A → Type 0) (R : Slice → B → Type 0) (r : IrResult A)
    (k : Slice → A → IrResult B) (e : IrResult B)
    → Ends Q r
    → ((rest : Slice) (a : A) → Q rest a → Ends R (k rest a))
    → Ends R e
    → Ends R
        (elim r [ ok rest a ↦ k rest a | err ↦ e | incomplete n ↦ incomplete n | stuck ↦ stuck ])
Ends-cases Q R (ok rest a) k e h hk he = hk rest a h
Ends-cases Q R err k e h hk he = he
Ends-cases Q R (incomplete n) k e h hk he = tt
Ends-cases Q R stuck k e h hk he = h

-- `Ends` at one input, and at every input.
pub record Gives {ℓ} {A : Type ℓ} (p : Parser A) (i : Slice) (Q : Slice → A → Type 0) : Type 0 where
  pub ends : Ends Q (p i)

pub record Meets {ℓ} {A : Type ℓ} (p : Parser A) (Q : Slice → Slice → A → Type 0) : Type 0 where
  pub at : (i : Slice) → Ends (Q i) (p i)

module _ {ℓ} {A : Type ℓ} where
  pub Meets-alt :
      {Q : Slice → Slice → A → Type 0} {p q : Parser A} → Meets p Q → Meets q Q → Meets (alt p q) Q
  unfolding alt
  Meets-alt {Q} {p} {q} hp hq = record {
    at = λ i. Ends-cases (Q i) (Q i) (p i) ok (q i) (hp.at i) (λ rest a h. h) (hq.at i);
  }

  pub Meets-opt :
      {p : Parser A} → Meets p (λ i rest a. Front i rest) → Meets (opt p) (λ i rest a. Front i rest)
  unfolding opt
  Meets-opt {p} hp = record {
    at = λ i.
        Ends-cases (λ rest a. Front i rest) (λ rest a. Front i rest) (p i)
          (λ rest a. ok rest (some a)) (ok i none) (hp.at i) (λ rest a h. h) (Front-refl i);
  }

  pub Meets-Gives :
      {Q : Slice → Slice → A → Type 0} {p : Parser A} → Meets p Q → (i : Slice) → Gives p i (Q i)
  Meets-Gives h i = record { ends = h.at i }

  pub Gives-done : {i : Slice} {Q : Slice → A → Type 0} (a : A) → Q i a → Gives (done a) i Q
  unfolding done
  Gives-done a h = record { ends = h }

  -- The function at the end of a `chain!` does not panic.
  pub Gives-done_or_panic :
      {i : Slice} {o : Option A} {Q : Slice → A → Type 0} (a : A)
      → o ≡ some a
      → Q i a
      → Gives (done_or_panic o) i Q
  unfolding done_or_panic
  Gives-done_or_panic a e h = record { ends = rw (e, Ends) h }

-- The rules for a step of `chain!`.
module _ {ℓ κ} {A : Type ℓ} {B : Type κ} {Q : Slice → Slice → A → Type 0} {p : Parser A}
    {R : Slice → B → Type 0} {i : Slice} where
  pub Gives-bind :
      {f : A → Parser B}
      → Meets p Q
      → ((rest : Slice) (a : A) → Q i rest a → Gives (f a) rest R)
      → Gives (p >>= f) i R
  unfolding ◌>>=◌
  Gives-bind {f} hp hf = record {
    ends =
        Ends-cases (Q i) R (p i) (λ rest a. f a rest) err (hp.at i) (λ rest a h. (hf rest a h).ends)
          tt;
  }

  pub Gives-then :
      {q : Parser B}
      → Meets p Q
      → ((rest : Slice) (a : A) → Q i rest a → Gives q rest R)
      → Gives (p >> q) i R
  unfolding ◌>>◌ ◌>>=◌
  Gives-then {q} hp hq = record {
    ends =
        Ends-cases (Q i) R (p i) (λ rest a. q rest) err (hp.at i) (λ rest a h. (hq rest a h).ends)
          tt;
  }

-- ===== src/ParserUtil/Decimal.antt =====
-- Decimal numerals, and `digit` on them.
use mirdb.Prelude.{
  ℕ, zero, suc, ◌+◌, ◌-◌, ◌*◌, ◌/◌, ◌%◌, ◌^◌, ◌<◌, ◌≡◌, refl, ap, inl, inr, Bool-cases, ltb→lt,
  length-append, true, false, not, some, [], ◌∷◌, ◌++◌, arith, ltb, lt→ltb, if◌then◌else◌, length,
  All, All-append, position, Slice,
}
use mirdb.ParserUtil.{ok, is_digit, from_str, digits_front, digit, take_front}
use mirdb.ParserUtil.Exact.{take_front-hit}

-- The numeral of a number below 10 ^ (k + 1), with no zeros in front.
unfoldable pub decimal : ℕ → ℕ → Slice
decimal zero n = (48 + n % 10) ∷ []
decimal (suc k) n =
    let front = decimal k (n / 10) in
    if ltb n 10 then (48 + n) ∷ [] else front ++ (48 + n % 10) ∷ []

value : ℕ → Slice → ℕ
value acc [] = acc
value acc (c ∷ s) = value (acc * 10 + (c - 48)) s

value-snoc : (acc : ℕ) (s : Slice) (d : ℕ) → value acc (s ++ d ∷ []) ≡ value acc s * 10 + (d - 48)
unfolding value
value-snoc acc [] d = refl
value-snoc acc (c ∷ s) d = value-snoc (acc * 10 + (c - 48)) s d

value-decimal : (k n : ℕ) → n < 10 ^ suc k → value 0 (decimal k n) ≡ n
unfolding decimal
value-decimal zero n h = unfold value in omega arith
value-decimal (suc k) n h = ground (
  arith,
  value-decimal k (n / 10) (omega arith),
  value-snoc 0 (decimal k (n / 10)) (48 + n % 10),
  one_digit n,
)
  where
    one_digit : (n : ℕ) → value 0 ((48 + n) ∷ []) ≡ n
    one_digit n = unfold value in omega arith

from_str-value :
    (bound acc : ℕ) (s : Slice) → value acc s < bound → from_str bound acc s ≡ some (value acc s)
unfolding from_str value
from_str-value bound acc [] h = rw (lt→ltb _ _ h)
from_str-value bound acc (c ∷ s) h = from_str-value bound (acc * 10 + (c - 48)) s h

abbrev pub AreDigits : Slice → Type 0
AreDigits s = All (λ x. not (is_digit x) ≡ false) s

digit_char : (d : ℕ) → d < 10 → not (is_digit (48 + d)) ≡ false
unfolding is_digit
digit_char d h = ground arith

pub decimal-AreDigits : (k n : ℕ) → AreDigits (decimal k n)
unfolding decimal
decimal-AreDigits zero n = (digit_char (n % 10) (omega arith), tt)
decimal-AreDigits (suc k) n = elim (Bool-cases (ltb n 10)) [
  | inl small ↦ rw small (digit_char n (ltb→lt n 10 small), tt)
  | inr large ↦ rw large (
      All-append (λ x. not (is_digit x) ≡ false) (decimal k (n / 10)) ((48 + n % 10) ∷ [])
        (decimal-AreDigits k (n / 10)) (digit_char (n % 10) (omega arith), tt))
]

pub length-decimal : (k n : ℕ) → 0 < length (decimal k n)
unfolding decimal
length-decimal zero n = omega arith
length-decimal (suc k) n = ground (arith, length-append (decimal k (n / 10)) ((48 + n % 10) ∷ []))

digits_front-decimal :
    (bound k n : ℕ) (rest : Slice)
    → n < 10 ^ suc k
    → n < bound
    → digits_front bound (ok rest (decimal k n)) ≡ ok rest n
unfolding digits_front
digits_front-decimal bound k n rest hk hb =
    let v = value-decimal k n hk in rw (from_str-value bound 0 (decimal k n) (rw v hb), v)

digit-front :
    (bound : ℕ) (i : Slice)
    → 0 < length i
    → digit bound i ≡ digits_front bound (take_front i (position (λ x. not (is_digit x)) i))
unfolding digit
digit-front bound [] h = absurd (omega arith)
digit-front bound (c ∷ i) h = refl

-- `digit` reads a numeral up to the first byte that is no digit.
pub digit-decimal :
    (bound k n c : ℕ) (r : Slice)
    → n < 10 ^ suc k
    → n < bound
    → not (is_digit c) ≡ true
    → digit bound (decimal k n ++ c ∷ r) ≡ ok (c ∷ r) n
digit-decimal bound k n c r hk hb hc =
    rw
      (
        digit-front bound (decimal k n ++ c ∷ r)
            (omega (arith, length-append (decimal k n) (c ∷ r), length-decimal k n)),
        take_front-hit (λ x. not (is_digit x)) (decimal k n) c r
            (λ e. absurd (omega (arith, length-decimal k n, ap length e))) (decimal-AreDigits k n)
            hc,
      )
      (digits_front-decimal bound k n (c ∷ r) hk hb)

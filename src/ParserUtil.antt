-- ===== src/ParserUtil.antt =====
-- mirdb-server/src/parser_util/macros.rs: the result type, the parsers and the combinators.
--
-- A parser is a function from the input to an `IrResult`; `chain!` is a `do` block. The text that
-- `IRResult::Err` carries is left out (the request decoder drops it). `stuck` is no Rust value: it
-- stands for a panic of the thread, and for a loop of the model that has run out of its fuel.
pub mod Ends
pub mod Basic
pub mod Split
pub mod Decimal
pub mod Exact
use mirdb.Prelude.{
  ℕ, zero, suc, ◌+◌, ◌-◌, ◌*◌, ◌%◌, Bool, true, false, not, ◌&&◌, ◌||◌, Option, none, some, List,
  [], ◌∷◌, ◌++◌, ltb, leb, ◌==◌, if◌then◌else◌, length, take, drop, position, Slice, bytes_eq,
}

pub data IrResult {ℓ} (A : Type ℓ) : Type ℓ where
  ok : Slice → A → IrResult A
  err : IrResult A
  incomplete : ℕ → IrResult A
  stuck : IrResult A

abbrev pub Parser {ℓ} : Type ℓ → Type ℓ
Parser A = Slice → IrResult A

pub data CompareResult : Type 0 where
  ok err incomplete : CompareResult

-- `i.iter().zip(t.iter()).position(|(a, b)| a != b)`, as a test for such a position.
abbrev pub differs : Slice → Slice → Bool
differs [] t = false
differs (a ∷ i) [] = false
differs (a ∷ i) (b ∷ t) = if a == b then differs i t else true

unfoldable pub compare : Slice → Slice → CompareResult
compare i t =
    if differs i t
    then CompareResult.err
    else if leb (length t) (length i)
    then CompareResult.ok
    else CompareResult.incomplete

-- The remaining input first, then what was taken.
unfoldable pub take_split : Slice → ℕ → Slice × Slice
take_split i count = (drop count i, take count i)

abbrev pub split_ok : Slice × Slice → IrResult Slice
split_ok (rest, taken) = IrResult.ok rest taken

-- The common end of `is_not!`, `alpha`, `space`: everything, a non-empty front, or an error.
unfoldable pub take_front : Slice → Option ℕ → IrResult Slice
unfolding take_split
take_front i none = split_ok (take_split i (length i))
take_front i (some zero) = err
take_front i (some (suc v)) = split_ok (take_split i (suc v))

abbrev pub contains : Slice → ℕ → Bool
contains [] x = false
contains (a ∷ e) x = a == x || contains e x

-- `is_not!(e)`
unfoldable pub is_not : Slice → Parser Slice
unfolding take_front
is_not e i = take_front i (position (contains e) i)

-- `tag!(t)`
unfoldable pub tag : Slice → Parser Slice
unfolding compare take_split
tag t i = elim (compare i t) [
  | CompareResult.ok ↦ split_ok (take_split i (length t))
  | CompareResult.err ↦ err
  | CompareResult.incomplete ↦ incomplete (length t - length i)
]

-- The loop of `take_at_least!`: the first `ii` of the rounds left at which `ni` goes on with `tag`.
unfoldable pub find_tag : ℕ → Slice → Slice → ℕ → Option ℕ
find_tag zero ni t ii = none
find_tag (suc rounds) ni t ii =
    let next = find_tag rounds ni t (ii + 1) in
    if bytes_eq (take (length t) (drop ii ni)) t then some ii else next

-- `take_at_least!(size, tag)`
unfoldable pub take_at_least : ℕ → Slice → Parser Slice
unfolding find_tag take_split
take_at_least size t i =
    let ni = drop size i in
    let nl = length ni in
    let tl = length t in
    if leb size (length i)
    then (if ltb 0 nl && (ltb 0 tl && leb tl nl)
        then elim (find_tag (nl - tl + 1) ni t 0) [
          | some at ↦ split_ok (take_split i (at + size))
          | none ↦ split_ok (take_split i (length i))
        ]
        else split_ok (take_split i (length i)))
    else incomplete (size - length i)

module _ {ℓ} {A : Type ℓ} where
  -- The end of `split!`: at least one item.
  abbrev pub split_end : Slice → List A → IrResult (List A)
  split_end input [] = err
  split_end input (r ∷ res) = ok input (r ∷ res)

  -- The loop of `split!`: items and separators in turn (`even` is `i % 2 == 0`) up to an error.
  unfoldable pub split_loop :
      ℕ → Parser Slice → Parser A → Slice → Bool → List A → IrResult (List A)
  split_loop zero sep item input even res = stuck
  split_loop (suc fuel) sep item input true res = elim (item input) [
    | ok rest o ↦ split_loop fuel sep item rest false (res ++ o ∷ [])
    | err ↦ split_end input res
    | incomplete n ↦ incomplete n
    | stuck ↦ stuck
  ]
  split_loop (suc fuel) sep item input false res = elim (sep input) [
    | ok rest o ↦ split_loop fuel sep item rest true res
    | err ↦ split_end input res
    | incomplete n ↦ incomplete n
    | stuck ↦ stuck
  ]

  -- `split!(sep, item)`
  unfoldable pub split : Parser Slice → Parser A → Parser (List A)
  unfolding split_loop
  split sep item i = split_loop (length i + length i + 2) sep item i true []

  -- `opt!(p)`
  unfoldable pub opt : Parser A → Parser (Option A)
  opt p i = elim (p i) [
    | ok rest o ↦ ok rest (some o)
    | err ↦ ok i none
    | incomplete n ↦ incomplete n
    | stuck ↦ stuck
  ]

  -- `alt!(p | q)`: only an error leads to the next alternative.
  unfoldable pub alt : Parser A → Parser A → Parser A
  alt p q i = elim (p i) [
    | ok rest o ↦ ok rest o
    | err ↦ q i
    | incomplete n ↦ incomplete n
    | stuck ↦ stuck
  ]

  -- The last `(e)` of a `chain!`.
  unfoldable pub done : A → Parser A
  done a i = ok i a

  -- A call of a function that may panic, in the last `(e)` of a `chain!`.
  unfoldable pub done_or_panic : Option A → Parser A
  done_or_panic none i = stuck
  done_or_panic (some a) i = ok i a

-- One step of `chain!`: `x: p >> ...` and `p >> ...`.
infixl 5 ◌>>=◌ ◌>>◌
unfoldable pub ◌>>=◌ {ℓ κ} : {A : Type ℓ} {B : Type κ} → Parser A → (A → Parser B) → Parser B
◌>>=◌ p f i = elim (p i) [
  | ok rest a ↦ f a rest
  | err ↦ err
  | incomplete n ↦ incomplete n
  | stuck ↦ stuck
]

unfoldable pub ◌>>◌ {ℓ κ} : {A : Type ℓ} {B : Type κ} → Parser A → Parser B → Parser B
unfolding ◌>>=◌
p >> q = p >>= λ _. q

unfoldable pub is_alphabetic : ℕ → Bool
is_alphabetic c = leb 0x41 c && leb c 0x5A || leb 0x61 c && leb c 0x7A

unfoldable pub is_digit : ℕ → Bool
is_digit c = leb 0x30 c && leb c 0x39

unfoldable pub is_space : ℕ → Bool
is_space c = c == 0x20

unfoldable pub alpha : Parser Slice
unfolding take_front is_alphabetic
alpha [] = err
alpha (c ∷ i) = take_front (c ∷ i) (position (λ x. not (is_alphabetic x)) (c ∷ i))

unfoldable pub space : Parser Slice
unfolding take_front is_space
space [] = err
space (c ∷ i) = take_front (c ∷ i) (position (λ x. not (is_space x)) (c ∷ i))

-- `FromStr` of an unsigned integer below `bound`, on a text of digits: an overflow is an error.
unfoldable pub from_str : ℕ → ℕ → Slice → Option ℕ
from_str bound acc [] = if ltb acc bound then some acc else none
from_str bound acc (c ∷ s) = from_str bound (acc * 10 + (c - 0x30)) s

abbrev pub number_ok : Slice → Option ℕ → IrResult ℕ
number_ok rest none = err
number_ok rest (some n) = ok rest n

-- The middle of `digit`: the digits taken are ASCII, so `from_utf8` accepts them.
unfoldable pub digits_front : ℕ → IrResult Slice → IrResult ℕ
unfolding from_str
digits_front bound (ok rest o) = number_ok rest (from_str bound 0 o)
digits_front bound err = err
digits_front bound (incomplete n) = incomplete n
digits_front bound stuck = stuck

-- `digit::<T>` for an unsigned `T` whose values lie below `bound`.
unfoldable pub digit : ℕ → Parser ℕ
unfolding digits_front take_front is_digit
digit bound [] = err
digit bound (c ∷ i) =
    digits_front bound (take_front (c ∷ i) (position (λ x. not (is_digit x)) (c ∷ i)))

abbrev pub u32_bound : ℕ
u32_bound = 0x1_0000_0000

abbrev pub usize_bound : ℕ
usize_bound = 0x1_0000_0000_0000_0000

unfoldable pub u32_parser : Parser ℕ
unfolding digit
u32_parser = digit u32_bound

unfoldable pub usize_parser : Parser ℕ
unfolding digit
usize_parser = digit usize_bound

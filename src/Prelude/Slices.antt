-- ===== src/Prelude/Slices.antt =====
-- Ranges of byte strings, as Rust indexes them.
use Prim.Native.Nat.{ℕ, zero, suc, ◌+◌, ◌-◌, ◌≤◌}
use mathlib.Core.Path.{◌≡◌, refl, ap, ◌∙◌}
use mathlib.Core.Bool.{true, ◌&&◌}
use mathlib.Core.Option.{Option, none, some}
use mathlib.Core.List.{[], ◌∷◌, ◌++◌}
use native.Mathlib.Omega.{arith}
use mirdb.Prelude.Tests.{leb, le→leb, if◌then◌else◌}
use mirdb.Prelude.Lists.{length, take, drop, length-append, drop-append, take-append}
use mirdb.Prelude.Bytes.{Slice}

abbrev pub zeros : ℕ → Slice
zeros zero = []
zeros (suc n) = 0 ∷ zeros n

pub length-zeros : (n : ℕ) → length (zeros n) ≡ n
length-zeros zero = refl
length-zeros (suc n) = omega (arith, length-zeros n)

-- `&s[a..b]`; `none` is the panic of an index out of range.
unfoldable pub slice : Slice → ℕ → ℕ → Option Slice
slice s a b = if leb a b && leb b (length s) then some (take (b - a) (drop a s)) else none

-- `&s[a..]`
abbrev pub slice_from : Slice → ℕ → Option Slice
slice_from s a = if leb a (length s) then some (drop a s) else none

pub slice-middle :
    (pre x post s : Slice) (a b : ℕ)
    → s ≡ pre ++ (x ++ post)
    → a ≡ length pre
    → b ≡ a + length x
    → slice s a b ≡ some x
unfolding slice
slice-middle pre x post s a b e f g =
    let n : length s ≡ length pre + (length x + length post) =
      ap length e
      ∙ length-append pre (x ++ post)
      ∙ ap (λ k. length pre + k) (length-append x post) in
    let u : leb a b ≡ true = le→leb a b (omega arith) in
    let v : leb b (length s) ≡ true = le→leb b (length s) (omega arith) in
    let d : b - a ≡ length x = omega arith in
    rw (slice, u, v, d, e, f, drop-append pre (x ++ post), take-append x post)

pub slice_from-append :
    (pre post s : Slice) (a : ℕ) → s ≡ pre ++ post → a ≡ length pre → slice_from s a ≡ some post
slice_from-append pre post s a e f =
    let u : leb a (length s) ≡ true =
      le→leb a (length s) (omega (arith, ap length e, length-append pre post)) in
    rw (u, e, f, drop-append pre post)

pub slice-some :
    (s : Slice) (a b : ℕ) → a ≤ b → b ≤ length s → slice s a b ≡ some (take (b - a) (drop a s))
unfolding slice
slice-some s a b h k = rw (slice, le→leb a b h, le→leb b (length s) k)

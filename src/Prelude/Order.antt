-- ===== src/Prelude/Order.antt =====
-- The order of byte strings: `Ord` of `[u8]` and of `Slice`.
use mathlib.Core.Path.{◌≡◌, refl}
use mathlib.Core.Bool.{Bool, true, false, not}
use mathlib.Core.List.{[], ◌∷◌}
use native.Mathlib.Omega.{arith}
use mirdb.Prelude.Tests.{ltb, if◌then◌else◌}
use mirdb.Prelude.Bytes.{Slice}

-- `a < b`
abbrev pub bytes_lt : Slice → Slice → Bool
bytes_lt [] [] = false
bytes_lt [] (y ∷ b) = true
bytes_lt (x ∷ a) [] = false
bytes_lt (x ∷ a) (y ∷ b) = if ltb x y then true else if ltb y x then false else bytes_lt a b

-- `a <= b`
abbrev pub bytes_le : Slice → Slice → Bool
bytes_le a b = not (bytes_lt b a)

pub bytes_lt_irrefl : (a : Slice) → bytes_lt a a ≡ false
bytes_lt_irrefl [] = refl
bytes_lt_irrefl (x ∷ a) = ground (arith, bytes_lt_irrefl a)

pub bytes_lt_trans :
    (a b c : Slice) → bytes_lt a b ≡ true → bytes_lt b c ≡ true → bytes_lt a c ≡ true
bytes_lt_trans [] [] [] h k = cc
bytes_lt_trans [] (y ∷ b) [] h k = cc
bytes_lt_trans [] b (z ∷ c) h k = refl
bytes_lt_trans (x ∷ a) [] c h k = cc
bytes_lt_trans (x ∷ a) (y ∷ b) [] h k = cc
bytes_lt_trans (x ∷ a) (y ∷ b) (z ∷ c) h k = ground (arith, bytes_lt_trans a b c)

-- Strings that neither is below the other are equal.
pub bytes_lt_total : (a b : Slice) → bytes_lt a b ≡ false → bytes_lt b a ≡ false → a ≡ b
bytes_lt_total [] [] h k = refl
bytes_lt_total [] (y ∷ b) h k = cc
bytes_lt_total (x ∷ a) [] h k = cc
bytes_lt_total (x ∷ a) (y ∷ b) h k = ground (arith, bytes_lt_total a b)

pub bytes_lt_asym : (a b : Slice) → bytes_lt a b ≡ true → bytes_lt b a ≡ false
bytes_lt_asym [] [] h = cc
bytes_lt_asym [] (y ∷ b) h = refl
bytes_lt_asym (x ∷ a) [] h = cc
bytes_lt_asym (x ∷ a) (y ∷ b) h = ground (arith, bytes_lt_asym a b)

pub lt-le_trans : (a b c : Slice) → bytes_lt a b ≡ true → bytes_lt c b ≡ false → bytes_lt a c ≡ true
lt-le_trans [] [] c h k = cc
lt-le_trans [] (y ∷ b) [] h k = cc
lt-le_trans [] (y ∷ b) (z ∷ c) h k = refl
lt-le_trans (x ∷ a) [] c h k = cc
lt-le_trans (x ∷ a) (y ∷ b) [] h k = cc
lt-le_trans (x ∷ a) (y ∷ b) (z ∷ c) h k = ground (arith, lt-le_trans a b c)

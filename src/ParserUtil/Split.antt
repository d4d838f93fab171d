-- ===== src/ParserUtil/Split.antt =====
-- Postconditions of the loop of `split!`.
use mirdb.Prelude.{
  ℕ, zero, suc, ◌+◌, ◌≤◌, ◌<◌, ◌≡◌, refl, ap, Bool, true, false, ◌≢◌, ◌⊎◌, inl, inr, List, [], ◌∷◌,
  ◌++◌, arith, length, All, All-append, Slice,
}
use mirdb.ParserUtil.{Parser, split_end, split_loop, split}
use mirdb.ParserUtil.Ends.{Ends, Ends-cases, Front, Front-trans, Front-refl, length-Front}
use mirdb.ParserUtil.Basic.{Taken}

-- Not empty, and none of its bytes passes the test.
abbrev pub IsItem : (ℕ → Bool) → Slice → Type 0
IsItem p o = (o ≢ []) × All (λ x. p x ≡ false) o

-- The items are good, unless the input ended behind the last one.
abbrev pub Items : (ℕ → Bool) → Slice → Slice → List Slice → Type 0
Items p i rest os = Front i rest × (os ≢ []) × ((rest ≡ []) ⊎ All (IsItem p) os)

snoc_ne : {A : Type 0} (xs : List A) (x : A) → xs ++ x ∷ [] ≢ []
snoc_ne [] x e = cc
snoc_ne (y ∷ xs) x e = cc

pub length_pos : (o : Slice) → o ≢ [] → 0 < length o
length_pos [] h = absurd (h refl)
length_pos (x ∷ o) h = omega arith

module _ (p : ℕ → Bool) (sep item : Parser Slice)
    (sep_at : (i : Slice) → Ends (λ rest o. Front i rest × (length rest < length i)) (sep i))
    (item_at : (i : Slice) → Ends (λ rest o. Taken p i rest o) (item i)) where
  split_end-Items :
      (i input : Slice) (res : List Slice)
      → Front i input
      → (input ≡ []) ⊎ All (IsItem p) res
      → Ends (λ rest os. Items p i rest os) (split_end input res)
  split_end-Items i input [] f h = tt
  split_end-Items i input (r ∷ res) f h = (f, λ e. cc, h)

  -- What holds before a round, and the fuel that it needs: an item may be empty, a separator not.
  abbrev Inv : ℕ → Slice → Slice → Bool → List Slice → Type 0
  Inv fuel i input true res =
      (length input + length input + 2 ≤ fuel) × Front i input × All (IsItem p) res
  Inv fuel i input false res =
      (length input + length input + 1 ≤ fuel) × Front i input × ((input ≡ []) ⊎ All (IsItem p) res)

  after_item :
      (fuel : ℕ) (i input rest : Slice) (res : List Slice) (o : Slice)
      → Inv (suc fuel) i input true res
      → Taken p input rest o
      → Inv fuel i rest false (res ++ o ∷ [])
  after_item fuel i input rest res [] (n, f, g) (e, a, z) =
      (omega (arith, length-Front input rest ([], e)), Front-trans f ([], e), inl (z refl))
  after_item fuel i input rest res (c ∷ o) (n, f, g) (e, a, z) = (
    omega (arith, length-Front input rest (c ∷ o, e)),
    Front-trans f (c ∷ o, e),
    inr (All-append (IsItem p) res ((c ∷ o) ∷ []) g (((λ q. cc), a), tt)),
  )

  after_sep :
      (fuel : ℕ) (i input rest : Slice) (res : List Slice)
      → Inv (suc fuel) i input false res
      → Front input rest
      → length rest < length input
      → Inv fuel i rest true res
  after_sep fuel i input rest res (n, f, inl e) g l = absurd (omega (arith, ap length e))
  after_sep fuel i input rest res (n, f, inr a) g l = (omega arith, Front-trans f g, a)

  loop :
      (fuel : ℕ) (i input : Slice) (even : Bool) (res : List Slice)
      → Inv fuel i input even res
      → Ends (λ rest os. Items p i rest os) (split_loop fuel sep item input even res)
  unfolding split_loop
  loop zero i input true res inv = absurd (omega arith)
  loop zero i input false res inv = absurd (omega arith)
  loop (suc fuel) i input true res inv =
      Ends-cases (λ rest o. Taken p input rest o) (λ rest os. Items p i rest os) (item input)
        (λ rest o. split_loop fuel sep item rest false (res ++ o ∷ [])) (split_end input res)
        (item_at input)
        (λ rest o h.
          loop fuel i rest false (res ++ o ∷ []) (after_item fuel i input rest res o inv h))
        (split_end-Items i input res inv.1 (inr inv.2))
  loop (suc fuel) i input false res inv =
      Ends-cases (λ rest o. Front input rest × (length rest < length input))
        (λ rest os. Items p i rest os) (sep input)
        (λ rest o. split_loop fuel sep item rest true res) (split_end input res) (sep_at input)
        (λ rest o h. loop fuel i rest true res (after_sep fuel i input rest res inv h.0 h.1))
        (split_end-Items i input res inv.1 inv.2)

  pub split-Items : (i : Slice) → Ends (λ rest os. Items p i rest os) (split sep item i)
  unfolding split
  split-Items i = loop (length i + length i + 2) i i true [] (omega arith, Front-refl i, tt)

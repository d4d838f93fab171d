-- ===== src/Sstable/Builder/Runs.antt =====
-- The entries that a builder's buffer holds.
use mirdb.ParserUtil.{u32_bound}
use mirdb.Prelude.{
  ◌%◌, ℕ, suc, ◌≤◌, ◌≡◌, refl, sym, ap, ◌∙◌, Bool, true, false, ◌||◌, ◌&&◌, not, Option, none, some,
  List, [], ◌∷◌, ◌++◌, append_assoc, append-nil, length, take, drop, take-append-drop, ltb, ◌==◌,
  if◌then◌else◌, Slice, bytes_lt, arith,
}
use mathlib.Core.Path.{subst}
use mirdb.Sstable.Codec.{CodecOps, TableOptions}
use mirdb.Sstable.Builder.{
  BlockBuilder, shared_prefix, is_empty, entry_bytes, push_entry, add_entry, add_entries,
}

abbrev pub Entry : Type 0
Entry = Slice × Slice

abbrev pub last_key_of : Slice → List Entry → Slice
last_key_of prev [] = prev
last_key_of prev (e ∷ entries) = last_key_of e.0 entries

-- A number of bytes that two keys begin with.
pub record IsShared (prev k : Slice) (n : ℕ) : Type 0 where
  pub fits_prev : n ≤ length prev
  pub fits : n ≤ length k
  pub same : take n prev ≡ take n k

zero-IsShared : (prev k : Slice) → IsShared prev k 0
zero-IsShared prev k = record { fits_prev = omega arith; fits = omega arith; same = refl }

shared_prefix-IsShared : (prev k : Slice) → IsShared prev k (shared_prefix prev k)
unfolding shared_prefix
shared_prefix-IsShared [] k = zero-IsShared [] k
shared_prefix-IsShared (x ∷ prev) [] = zero-IsShared (x ∷ prev) []
shared_prefix-IsShared (x ∷ prev) (y ∷ k) = go (x == y) refl (shared_prefix-IsShared prev k)
  where
    go :
        (b : Bool)
        → (x == y) ≡ b
        → IsShared prev k (shared_prefix prev k)
        → IsShared (x ∷ prev) (y ∷ k) (if b then suc (shared_prefix prev k) else 0)
    go true e s =
        let f : x ≡ y = ground arith in
        record {
          fits_prev = omega (arith, s.fits_prev);
          fits = omega (arith, s.fits);
          same = cc (f, s.same);
        }
    go false e s = zero-IsShared (x ∷ prev) (y ∷ k)

module _ (ops : CodecOps) where
  -- The bytes of entries behind the key `prev`, one behind the other.
  abbrev pub IsRun : Slice → List Entry → Slice → Type 0
  IsRun prev [] buffer = buffer ≡ []
  IsRun prev (e ∷ entries) buffer =
      (shared : ℕ) × (rest : Slice) × IsShared prev e.0 shared
      × (buffer ≡ entry_bytes ops shared e.0 e.1 ++ rest)
      × IsRun e.0 entries rest

  IsRun-append :
      (prev : Slice) (es fs : List Entry) (a b : Slice)
      → IsRun prev es a
      → IsRun (last_key_of prev es) fs b
      → IsRun prev (es ++ fs) (a ++ b)
  IsRun-append prev [] fs a b h k = subst (λ t. IsRun prev fs (t ++ b)) (sym h) k
  IsRun-append prev (e ∷ es) fs a b h k =
      let (shared, rest, s, eq, r) = h in
      let eq' = ap (λ t. t ++ b) eq ∙ append_assoc (entry_bytes ops shared e.0 e.1) rest b in
      (shared, rest ++ b, s, eq', IsRun-append e.0 es fs rest b r k)

  single-IsRun :
      (prev : Slice) (e : Entry) (shared : ℕ)
      → IsShared prev e.0 shared
      → IsRun prev (e ∷ []) (entry_bytes ops shared e.0 e.1)
  single-IsRun prev e shared s = (shared, [], s, sym (append-nil _), refl)

  last_key_of-append :
      (prev : Slice) (es : List Entry) (e : Entry) → last_key_of prev (es ++ (e ∷ [])) ≡ e.0
  last_key_of-append prev [] e = refl
  last_key_of-append prev (f ∷ es) e = last_key_of-append f.0 es e

  -- A builder that holds the entries.
  pub record IsBuilt (es : List Entry) (b : BlockBuilder) : Type 0 where
    pub run : IsRun [] es b.buffer
    pub last : b.last_key ≡ last_key_of [] es

  take-drop :
      {A : Type 0} (prev k : List A) (n : ℕ) → take n prev ≡ take n k → take n prev ++ drop n k ≡ k
  take-drop prev k n e = ap (λ t. t ++ drop n k) e ∙ take-append-drop n k

  IsBuilt-push_entry :
      (es : List Entry) (b : BlockBuilder) (e : Entry) (shared restart_count : ℕ)
      (restarts : List ℕ) (last_key : Slice)
      → IsBuilt es b
      → IsShared (last_key_of [] es) e.0 shared
      → take shared last_key ≡ take shared e.0
      → IsBuilt (es ++ (e ∷ [])) (push_entry ops shared restart_count restarts last_key e.0 e.1 b)
  IsBuilt-push_entry es b e shared restart_count restarts last_key h s t = record {
    run = IsRun-append [] es (e ∷ []) b.buffer _ h.run (single-IsRun _ e shared s);
    last = take-drop last_key e.0 shared t ∙ sym (last_key_of-append [] es e);
  }

module _ (ops : CodecOps) (opt : TableOptions) where
  add_entry-IsBuilt :
      (es : List Entry) (b b' : BlockBuilder) (e : Entry)
      → IsBuilt ops es b
      → add_entry ops opt e.0 e.1 b ≡ some b'
      → IsBuilt ops (es ++ (e ∷ [])) b'
  unfolding add_entry
  add_entry-IsBuilt es b b' e h eq =
      let s =
        subst (λ k. IsShared k e.0 (shared_prefix b.last_key e.0)) h.last
          (shared_prefix-IsShared b.last_key e.0) in
      let p =
        IsBuilt-push_entry ops es b e (shared_prefix b.last_key e.0) b.restart_count b.restarts
          b.last_key h s (shared_prefix-IsShared b.last_key e.0).same in
      let q =
        IsBuilt-push_entry ops es b e 0 0 (b.restarts ++ length b.buffer % u32_bound ∷ []) [] h
          (zero-IsShared _ e.0) refl in
      go
        (ltb opt.block_restart_interval b.restart_count
          || (not (is_empty b.buffer) && bytes_lt e.0 b.last_key))
        (ltb b.restart_count opt.block_restart_interval) eq p q
    where
      go :
          (c d : Bool) {x y : BlockBuilder}
          → (if c then none else some (if d then x else y)) ≡ some b'
          → IsBuilt ops (es ++ (e ∷ [])) x
          → IsBuilt ops (es ++ (e ∷ [])) y
          → IsBuilt ops (es ++ (e ∷ [])) b'
      go true d eq p q = cc
      go false true {x} eq p q = let f : x ≡ b' = cc in subst (IsBuilt ops (es ++ (e ∷ []))) f p
      go false false {y = y} eq p q =
          let f : y ≡ b' = cc in subst (IsBuilt ops (es ++ (e ∷ []))) f q

  pub add_entries-IsBuilt :
      (fs es : List Entry) (b b' : BlockBuilder)
      → IsBuilt ops es b
      → add_entries ops opt fs b ≡ some b'
      → IsBuilt ops (es ++ fs) b'
  unfolding add_entries
  add_entries-IsBuilt [] es b b' h eq =
      let f : b ≡ b' = cc in
      subst (λ x. IsBuilt ops x b') (sym (append-nil es)) (subst (IsBuilt ops es) f h)
  add_entries-IsBuilt (f ∷ fs) es b b' h eq =
      go (add_entry ops opt f.0 f.1 b) refl eq
        (λ c d. add_entries-IsBuilt fs (es ++ (f ∷ [])) c b' d)
    where
      go :
          (o : Option BlockBuilder)
          → add_entry ops opt f.0 f.1 b ≡ o
          → elim o [ none ↦ none | some c ↦ add_entries ops opt fs c ] ≡ some b'
          → ((c : BlockBuilder)
              → IsBuilt ops (es ++ (f ∷ [])) c
              → add_entries ops opt fs c ≡ some b'
              → IsBuilt ops ((es ++ (f ∷ [])) ++ fs) b')
          → IsBuilt ops (es ++ (f ∷ fs)) b'
      go none e k ih = cc
      go (some c) e k ih =
          let r = ih c (add_entry-IsBuilt es b c f h e) k in
          subst (λ x. IsBuilt ops x b') (append_assoc es (f ∷ []) fs) r

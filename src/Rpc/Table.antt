-- ===== src/Rpc/Table.antt =====
-- The table of pending calls: what `put`, `find_call` and `erase` keep.
use nixd.Prelude.{
  ℕ, ◌+◌, ◌≤◌, Bool, true, false, some, List, [], ◌∷◌, ◌++◌, length, ℤ, to_int, int_lt, int_eq,
  if◌then◌else◌, ◌≡◌, refl, sym, subst, arith, All,
}
use nixd.Rpc.Pending.{Entry, put, find_call, erase}

module _ {C : Type 0} where
  -- How many entries pass a test.
  abbrev pub tally : (Entry C → Bool) → List (Entry C) → ℕ
  tally test [] = 0
  tally test (e ∷ es) = (if test e then 1 else 0) + tally test es

  abbrev pub Below : ℕ → Entry C → Type 0
  Below top e = int_lt e.id (to_int top) ≡ true

  pub tally-append :
      (test : Entry C → Bool) (xs ys : List (Entry C))
      → tally test (xs ++ ys) ≡ tally test xs + tally test ys
  tally-append test [] ys = omega arith
  tally-append test (x ∷ xs) ys = omega (arith, tally-append test xs ys)

  pub put-last :
      (top : ℕ) (e : Entry C) (m : List (Entry C))
      → e.id ≡ to_int top
      → All (Below top) m
      → put e m ≡ m ++ e ∷ []
  unfolding put
  put-last top e [] k h = refl
  put-last top e (f ∷ m) k h =
      let less : int_lt f.id e.id ≡ true = subst (λ (z : ℤ). int_lt f.id z ≡ true) (sym k) h.0 in
      let not_more : int_lt e.id f.id ≡ false = ground (arith, less) in
      rw (not_more, less, put-last top e m k h.1) refl

  -- `put` adds one entry or replaces one.
  pub length-put : (e : Entry C) (m : List (Entry C)) → length (put e m) ≤ length m + 1
  unfolding put
  length-put e [] = omega arith
  length-put e (f ∷ m) = ground (arith, length-put e m)

  pub tally-erase :
      (test : Entry C → Bool) (k : ℤ) (e : Entry C) (m : List (Entry C))
      → find_call k m ≡ some e
      → tally test (erase k m) + tally test (e ∷ []) ≡ tally test m
  unfolding find_call erase
  tally-erase test k e [] h = cc
  tally-erase test k e (f ∷ m) h = go (int_eq f.id k) refl h (tally-erase test k e m)
    where
      go :
          (b : Bool)
          → int_eq f.id k ≡ b
          → (if b then some f else find_call k m) ≡ some e
          → (find_call k m ≡ some e → tally test (erase k m) + tally test (e ∷ []) ≡ tally test m)
          → tally test (if b then m else f ∷ erase k m) + tally test (e ∷ []) ≡ tally test (f ∷ m)
      go true q g ih =
          let same : f ≡ e = cc in
          subst (λ (z : Entry C). tally test m + tally test (z ∷ []) ≡ tally test (f ∷ m)) same
            (omega arith)
      go false q g ih = omega (arith, ih g)

  pub All-erase : (P : Entry C → Type 0) (k : ℤ) (m : List (Entry C)) → All P m → All P (erase k m)
  unfolding erase
  All-erase P k [] h = h
  All-erase P k (f ∷ m) h = go (int_eq f.id k) (All-erase P k m h.1)
    where
      go : (b : Bool) → All P (erase k m) → All P (if b then m else f ∷ erase k m)
      go true ih = h.1
      go false ih = (h.0, ih)

  pub length-erase : (k : ℤ) (m : List (Entry C)) → length (erase k m) ≤ length m
  unfolding erase
  length-erase k [] = omega arith
  length-erase k (f ∷ m) = go (int_eq f.id k) (length-erase k m)
    where
      go :
          (b : Bool)
          → length (erase k m) ≤ length m
          → length (if b then m else f ∷ erase k m) ≤ length (f ∷ m)
      go true ih = omega arith
      go false ih = omega (arith, ih)

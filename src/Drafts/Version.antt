-- ===== src/Drafts/Version.antt =====
-- `increment` of lspserver/src/DraftStore.cpp, on the bytes of a version from its end. `llvm::isDigit`
-- is a parameter: it checks for one of the ten digits.
use nixd.Prelude.{
  ℕ, ◌+◌, ◌-◌, ◌*◌, Bool, true, false, ◌&&◌, [], ◌∷◌, ◌++◌, Bytes, leb, ◌==◌, if◌then◌else◌, ◌≡◌,
  refl, arith,
}

-- The bytes from the end, as `rbegin` and `rend` give them.
abbrev pub reversed : Bytes → Bytes
reversed [] = []
reversed (c ∷ cs) = reversed cs ++ c ∷ []

module _ (is_digit : ℕ → Bool) where
  -- The loop: what it makes of the bytes from `I` on.
  unfoldable pub increment_from : Bytes → Bytes
  increment_from [] = b'1' ∷ []
  increment_from (c ∷ cs) =
      let more = increment_from cs in
      if is_digit c then if c == b'9' then b'0' ∷ more else (c + 1) ∷ cs else b'1' ∷ c ∷ cs

  -- A numeric suffix is ensured, or counted up.
  unfoldable pub increment : Bytes → Bytes
  increment [] = b'0' ∷ []
  increment (c ∷ cs) = if is_digit c then increment_from (c ∷ cs) else b'0' ∷ c ∷ cs

  -- Whether there are digits at the end, the number that they stand for, and what is before them.
  abbrev pub has_suffix : Bytes → Bool
  has_suffix [] = false
  has_suffix (c ∷ cs) = is_digit c

  unfoldable pub suffix_value : Bytes → ℕ
  suffix_value [] = 0
  suffix_value (c ∷ cs) =
      let more = suffix_value cs in if is_digit c then (c - b'0') + 10 * more else 0

  unfoldable pub before_suffix : Bytes → Bytes
  before_suffix [] = []
  before_suffix (c ∷ cs) = let more = before_suffix cs in if is_digit c then more else c ∷ cs

module _ (is_digit : ℕ → Bool)
    (is_digit_lem : (c : ℕ) → is_digit c ≡ (leb b'0' c && leb c b'9')) where
  increment_from-suffix_value :
      (s : Bytes) → suffix_value is_digit (increment_from is_digit s) ≡ suffix_value is_digit s + 1
  unfolding increment_from suffix_value
  increment_from-suffix_value [] = rw (is_digit_lem b'1') refl
  increment_from-suffix_value (c ∷ cs) = ground (
    arith,
    increment_from-suffix_value cs,
    is_digit_lem c,
    is_digit_lem (c + 1),
    is_digit_lem b'0',
    is_digit_lem b'1',
  )

  increment_from-before_suffix :
      (s : Bytes) → before_suffix is_digit (increment_from is_digit s) ≡ before_suffix is_digit s
  unfolding increment_from before_suffix
  increment_from-before_suffix [] = rw (is_digit_lem b'1') refl
  increment_from-before_suffix (c ∷ cs) = ground (
    arith,
    increment_from-before_suffix cs,
    is_digit_lem c,
    is_digit_lem (c + 1),
    is_digit_lem b'0',
    is_digit_lem b'1',
  )

  has_suffix-increment_from :
      (c : ℕ) (s : Bytes) → has_suffix is_digit (increment_from is_digit (c ∷ s)) ≡ true
  unfolding increment_from
  has_suffix-increment_from c s =
      ground (arith, is_digit_lem c, is_digit_lem (c + 1), is_digit_lem b'0', is_digit_lem b'1')

  -- `increment` of a version that is not empty counts the digits at its end up by one and leaves what
  -- stands before them; one without digits at its end gets the digit 0 there; and the result always
  -- ends in digits.
  pub increment-suffix_value :
      (c : ℕ) (cs : Bytes)
      → (suffix_value is_digit (increment is_digit (c ∷ cs))
          ≡ (if has_suffix is_digit (c ∷ cs) then suffix_value is_digit (c ∷ cs) + 1 else 0))
        × (before_suffix is_digit (increment is_digit (c ∷ cs)) ≡ before_suffix is_digit (c ∷ cs))
        × (has_suffix is_digit (increment is_digit (c ∷ cs)) ≡ true)
  unfolding increment suffix_value before_suffix
  increment-suffix_value c cs = go (is_digit c) refl
    where
      go :
          (b : Bool)
          → is_digit c ≡ b
          → let t : Bytes = if b then increment_from is_digit (c ∷ cs) else b'0' ∷ c ∷ cs in
            (suffix_value is_digit t ≡ (if b then suffix_value is_digit (c ∷ cs) + 1 else 0))
            × (before_suffix is_digit t ≡ before_suffix is_digit (c ∷ cs))
            × (has_suffix is_digit t ≡ true)
      go true e = (
        increment_from-suffix_value (c ∷ cs),
        increment_from-before_suffix (c ∷ cs),
        has_suffix-increment_from c cs,
      )
      go false e = (
        ground (arith, e, is_digit_lem b'0'),
        rw (is_digit_lem b'0') refl,
        rw (is_digit_lem b'0') refl,
      )

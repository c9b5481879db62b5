-- ===== src/Support/Best.antt =====
-- What `latestMatchOr` and `bestMatchOr` choose.
use nixd.Prelude.{
  ℕ, ◌≤◌, ◌<◌, Bool, true, ◌&&◌, ◌||◌, none, some, List, [], ◌∷◌, ◌++◌, ltb, ◌==◌, if◌then◌else◌,
  All, ◌≡◌, refl, sym, ap, ◌∙◌, arith, Bool-cases, inl, inr, ◌⊎◌, subst,
}
use nixd.Support.Match.{
  reverse_onto, first_match, latest_match_or, best_from, value_or, best_match_or,
}

module _ {T : Type 0} where
  -- The last element that passes, by one scan from the start.
  unfoldable pub last_match : (T → Bool) → List T → T → T
  last_match metric [] kept = kept
  last_match metric (x ∷ xs) kept = last_match metric xs (if metric x then x else kept)

  first_match-reverse_onto :
      (metric : T → Bool) (xs acc : List T) (default : T)
      → first_match metric (reverse_onto xs acc) default
        ≡ last_match metric xs (first_match metric acc default)
  unfolding first_match reverse_onto last_match
  first_match-reverse_onto metric [] acc default = refl
  first_match-reverse_onto metric (x ∷ xs) acc default =
      first_match-reverse_onto metric xs (x ∷ acc) default

  -- latestMatchOr gives the last element that passes, and the default where none does.
  pub latest_match_or-last_match :
      (metric : T → Bool) (xs : List T) (default : T)
      → latest_match_or metric xs default ≡ last_match metric xs default
  unfolding latest_match_or first_match
  latest_match_or-last_match metric xs default = first_match-reverse_onto metric xs [] default

  abbrev pub AtMost : (T → ℕ) → ℕ → T → Type 0
  AtMost metric n x = metric x ≤ n

  abbrev pub Under : (T → ℕ) → ℕ → T → Type 0
  Under metric n x = metric x < n

  -- The answer is among the elements, those before it are no better, and those after it worse.
  abbrev pub IsLastOf : (T → ℕ) → List T → T → Type 0
  IsLastOf metric xs y =
      (before : List T) × (after : List T) × (xs ≡ before ++ y ∷ after)
      × All (AtMost metric (metric y)) before
      × All (Under metric (metric y)) after

  abbrev pub IsLastBest : (T → ℕ) → List T → T → T → Type 0
  IsLastBest metric [] default y = y ≡ default
  IsLastBest metric (x ∷ xs) default y = IsLastOf metric (x ∷ xs) y

  -- The best from `b` on is `b`, with only worse elements to come, or one of these.
  abbrev IsFrom : (T → ℕ) → T → List T → T → Type 0
  IsFrom metric b xs y =
      ((y ≡ b) × All (Under metric (metric y)) xs) ⊎ ((metric b ≤ metric y) × IsLastOf metric xs y)

  IsFrom-IsLastOf :
      (metric : T → ℕ) (b : T) (xs : List T) (y : T)
      → IsFrom metric b xs y
      → IsLastOf metric (b ∷ xs) y
  IsFrom-IsLastOf metric b xs y (inl (e, less)) = ([], xs, ap (λ (z : T). z ∷ xs) (sym e), tt, less)
  IsFrom-IsLastOf metric b xs y (inr (h, (before, after, e, most, less))) =
      (b ∷ before, after, ap (λ (zs : List T). b ∷ zs) e, (h, most), less)

  IsFrom-le :
      (metric : T → ℕ) (b : T) (xs : List T) (y : T) → IsFrom metric b xs y → metric b ≤ metric y
  IsFrom-le metric b xs y (inl (e, less)) = omega (arith, ap metric e)
  IsFrom-le metric b xs y (inr (h, more)) = h

  IsFrom-worse :
      (metric : T → ℕ) (b x : T) (xs : List T) (y : T)
      → metric x < metric b
      → IsFrom metric b xs y
      → IsFrom metric b (x ∷ xs) y
  IsFrom-worse metric b x xs y w (inl (e, less)) = inl (e, (omega (arith, w, ap metric e), less))
  IsFrom-worse metric b x xs y w (inr (h, (before, after, e, most, less))) =
      inr
        (h, (x ∷ before, after, ap (λ (zs : List T). x ∷ zs) e, (omega (arith, w, h), most), less))

  best_from-IsFrom :
      (metric : T → ℕ) (xs : List T) (b : T)
      → (y : T) × (best_from metric true xs (some b) (metric b) ≡ some y) × IsFrom metric b xs y
  unfolding best_from
  best_from-IsFrom metric [] b = (b, refl, inl (refl, tt))
  best_from-IsFrom metric (x ∷ xs) b =
      let choose = λ (t : Bool).
        if t
        then best_from metric true xs (some x) (metric x)
        else best_from metric true xs (some b) (metric b) in
      elim (Bool-cases (ltb (metric b) (metric x) || (metric x == metric b && true))) [
        | inl t ↦
            let (y, e, k) = best_from-IsFrom metric xs x in
            let up : metric b ≤ metric x = ground (arith, t) in
            (
              y,
              ap choose t ∙ e,
              inr (omega (arith, up, IsFrom-le metric x xs y k), IsFrom-IsLastOf metric x xs y k),
            )
        | inr t ↦
            let (y, e, k) = best_from-IsFrom metric xs b in
            (y, ap choose t ∙ e, IsFrom-worse metric b x xs y (ground (arith, t)) k)
      ]

  -- bestMatchOr, where equal values update the choice, gives the default of no elements, and else the
  -- last of the elements of the largest value: those before it have at most its value, and those
  -- after it less.
  pub best_match_or-IsLastBest :
      (metric : T → ℕ) (xs : List T) (default : T)
      → IsLastBest metric xs default (best_match_or metric true xs default)
  unfolding best_match_or best_from
  best_match_or-IsLastBest metric [] default = refl
  best_match_or-IsLastBest metric (x ∷ xs) default =
      let first : (ltb 0 (metric x) || (metric x == 0 && true)) ≡ true = ground arith in
      let (y, e, k) = best_from-IsFrom metric xs x in
      let found =
        ap
          (λ (t : Bool). value_or default (
            if t
            then best_from metric true xs (some x) (metric x)
            else best_from metric true xs none 0))
          first
        ∙ ap (value_or default) e in
      subst (λ z. IsLastOf metric (x ∷ xs) z) (sym found) (IsFrom-IsLastOf metric x xs y k)

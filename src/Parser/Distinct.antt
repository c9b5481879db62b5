-- ===== src/Parser/Distinct.antt =====
-- When `toFormals` reports an error, and which.
use nixd.Prelude.{
  ℕ, ◌≤◌, Bool, true, false, Option, none, some, List, [], ◌∷◌, ◌++◌, ◌==◌, ==_iff, if◌then◌else◌,
  count, ◌≡◌, ◌↔◌, ◌⊎◌, inl, inr, refl, sym, ◌∙◌, subst, arith, Bool-cases, not_both,
}
use nixd.Parser.Formals.{
  Formal, ParserFormals, Duplicate, sort_formals, find_duplicate, errors_of, to_formals,
}
use nixd.Parser.Duplicates.{
  names, IsSorted, Reports, find_duplicate-Reports, sort_formals-IsSorted, count-sort_formals,
}

-- The parameters have different names, that of the whole argument, if it has one, included.
abbrev pub AllDiffer : List Formal → ℕ → Type 0
AllDiffer fs arg = ((m : ℕ) → count m (names fs) ≤ 1) × ((arg ≡ 0) ⊎ (count arg (names fs) ≡ 0))

-- The first error is about the least of the symbols that are named twice.
abbrev pub IsFirst : List Formal → List Duplicate → Type 0
IsFirst fs [] = Unit
IsFirst fs (d ∷ ds) =
    (m : ℕ) → 2 ≤ count m (names fs) → (2 ≤ count d.symbol (names fs)) × (d.symbol ≤ m)

none-IsFirst :
    (fs : List Formal) (ds : List Duplicate) → ((m : ℕ) → count m (names fs) ≤ 1) → IsFirst fs ds
none-IsFirst fs [] h = tt
none-IsFirst fs (d ∷ ds) h = λ m k. absurd (omega (arith, k, h m))

abbrev extra : Bool → Bool → Duplicate → List Duplicate
extra unset named d = if unset then [] else if named then d ∷ [] else []

cons_ne : {d : Duplicate} {ds : List Duplicate} → d ∷ ds ≡ [] → ⊥
cons_ne h = cc

extra-nil :
    (unset named : Bool) (d : Duplicate)
    → extra unset named d ≡ []
    → (unset ≡ true) ⊎ (named ≡ false)
extra-nil true named d h = inl refl
extra-nil false true d h = absurd (cons_ne h)
extra-nil false false d h = inr refl

nil-extra :
    (unset named : Bool) (d : Duplicate)
    → (unset ≡ true) ⊎ (named ≡ false)
    → extra unset named d ≡ []
nil-extra true named d h = refl
nil-extra false true d (inl h) = absurd (not_both true refl (sym h))
nil-extra false true d (inr h) = absurd (not_both true refl h)
nil-extra false false d h = refl

module _ (has : List Formal → ℕ → Bool)
    (search : (fs : List Formal) (a : ℕ)
      → IsSorted fs
      → (has fs a ≡ true) ↔ (1 ≤ count a (names fs))) where
  unnamed :
      (fs : List Formal) (arg : ℕ) → IsSorted fs → (has fs arg ≡ false) ↔ (count arg (names fs) ≡ 0)
  unnamed fs arg s = (
    λ h. elim (Bool-cases (count arg (names fs) == 0)) [
      | inl e ↦ (==_iff (count arg (names fs)) 0).0 e
      | inr e ↦ absurd (not_both (has fs arg) ((search fs arg s).1 (ground (arith, e))) h)
    ],
    λ h. elim (Bool-cases (has fs arg)) [
      | inr e ↦ e
      | inl e ↦ absurd (omega (arith, h, (search fs arg s).0 e))
    ],
  )

  -- The errors, of what the loop found.
  found_errors :
      (fs gs : List Formal) (arg : ℕ) (d : Duplicate) (r : Option Duplicate)
      → IsSorted gs
      → ((m : ℕ) → count m (names gs) ≡ count m (names fs))
      → Reports gs none r
      → ((errors_of r ++ extra (arg == 0) (has gs arg) d ≡ []) ↔ AllDiffer fs arg)
        × IsFirst fs (errors_of r ++ extra (arg == 0) (has gs arg) d)
  found_errors fs gs arg d none s c (b, k) = (
    (
      λ h. (
        λ m. subst (λ n. n ≤ 1) (c m) (k m),
        elim (extra-nil (arg == 0) (has gs arg) d h) [
          | inl e ↦ inl ((==_iff arg 0).0 e)
          | inr e ↦ inr (sym (c arg) ∙ (unnamed gs arg s).0 e)
        ],
      ),
      λ h. nil-extra (arg == 0) (has gs arg) d (elim h.1 [
        | inl e ↦ inl ((==_iff arg 0).1 e)
        | inr e ↦ inr ((unnamed gs arg s).1 (c arg ∙ e))
      ]),
    ),
    none-IsFirst fs (extra (arg == 0) (has gs arg) d) (λ m. subst (λ n. n ≤ 1) (c m) (k m)),
  )
  found_errors fs gs arg d (some e) s c (inr k, b, low) = absurd k
  found_errors fs gs arg d (some e) s c (inl k, b, low) = (
    (λ h. absurd (cons_ne h), λ h. absurd (omega (arith, k, c e.symbol, h.0 e.symbol))),
    λ m h. (omega (arith, k, c e.symbol), b m (omega (arith, h, c m))),
  )

  -- Where `has` is a search in sorted formals, `toFormals` reports no error just where the parameters
  -- have different names, that of the whole argument included; and where formals are named twice,
  -- the first error is about the least such symbol.
  pub to_formals-AllDiffer :
      (parsed : ParserFormals) (pos arg : ℕ)
      → (((to_formals has parsed pos arg).0 ≡ []) ↔ AllDiffer parsed.formals arg)
        × IsFirst parsed.formals (to_formals has parsed pos arg).0
  unfolding to_formals
  to_formals-AllDiffer parsed pos arg =
      found_errors parsed.formals (sort_formals parsed.formals) arg
        (record { symbol = arg; position = pos })
        (find_duplicate (sort_formals parsed.formals) none) (sort_formals-IsSorted parsed.formals)
        (λ m. count-sort_formals m parsed.formals)
        (find_duplicate-Reports (sort_formals parsed.formals) none
          (sort_formals-IsSorted parsed.formals))

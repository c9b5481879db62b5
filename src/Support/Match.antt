-- ===== src/Support/Match.antt =====
-- `latestMatchOr` and `bestMatchOr` of nixd/include/nixd/Support/Support.h, where the type of the
-- answer is that of the elements.
use nixd.Prelude.{ℕ, Bool, ◌&&◌, ◌||◌, Option, none, some, List, [], ◌∷◌, ltb, ◌==◌, if◌then◌else◌}

module _ {T : Type 0} where
  -- `boost::adaptors::reverse`, in front of a list.
  unfoldable pub reverse_onto : List T → List T → List T
  reverse_onto [] acc = acc
  reverse_onto (x ∷ xs) acc = reverse_onto xs (x ∷ acc)

  unfoldable pub first_match : (T → Bool) → List T → T → T
  first_match metric [] default = default
  first_match metric (x ∷ xs) default =
      let rest = first_match metric xs default in if metric x then x else rest

  unfoldable pub latest_match_or : (T → Bool) → List T → T → T
  latest_match_or metric container default = first_match metric (reverse_onto container []) default

  -- The loop of `bestMatchOr`, with `BestIt` and `BestValue`.
  unfoldable pub best_from : (T → ℕ) → Bool → List T → Option T → ℕ → Option T
  best_from metric update_equal [] best value = best
  best_from metric update_equal (x ∷ xs) best value =
      let updated = best_from metric update_equal xs (some x) (metric x) in
      let kept = best_from metric update_equal xs best value in
      if ltb value (metric x) || (metric x == value && update_equal) then updated else kept

  abbrev pub value_or : T → Option T → T
  value_or default none = default
  value_or default (some x) = x

  unfoldable pub best_match_or : (T → ℕ) → Bool → List T → T → T
  best_match_or metric update_equal container default =
      value_or default (best_from metric update_equal container none 0)

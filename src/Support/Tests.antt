-- ===== src/Support/Tests.antt =====
-- Choices among numbers.
use nixd.Prelude.{ℕ, List, [], ◌∷◌, ltb, ◌≡◌, refl, true}
use nixd.Support.Match.{latest_match_or, reverse_onto, first_match, best_match_or, best_from}
use nixd.Support.Best.{last_match, IsLastBest, latest_match_or-last_match, best_match_or-IsLastBest}

abbrev numbers : List ℕ
numbers = 3 ∷ 7 ∷ 1 ∷ []

match_runs : (latest_match_or (ltb 2) numbers 0 ≡ 7) × (best_match_or (λ n. n) true numbers 0 ≡ 7)
unfolding latest_match_or reverse_onto first_match best_match_or best_from
match_runs = (refl, refl)

latest_match_or-last_match_example :
    latest_match_or (ltb 2) numbers 0 ≡ last_match (ltb 2) numbers 0
latest_match_or-last_match_example = latest_match_or-last_match (ltb 2) numbers 0

-- Of two best pairs the last is chosen.
abbrev pairs : List (ℕ × ℕ)
pairs = (7, 1) ∷ (3, 2) ∷ (7, 3) ∷ (1, 4) ∷ []

best_match_or-IsLastBest_example :
    IsLastBest
      (λ (p : ℕ × ℕ). p.0)
      pairs
      (0, 0)
      (best_match_or (λ (p : ℕ × ℕ). p.0) true pairs (0, 0))
best_match_or-IsLastBest_example = best_match_or-IsLastBest (λ (p : ℕ × ℕ). p.0) pairs (0, 0)

-- ===== src/Diagnostics/Tests.antt =====
-- Reports of three workers, one of them late.
use nixd.Prelude.{ℕ, List, [], ◌∷◌, codes, ◌≡◌, refl}
use nixd.Diagnostics.Status.{
  Report, Event, reported, cleared, on_eval_diagnostic, show, handle, handle_all, nothing_shown,
}
use nixd.Diagnostics.Shown.{last_for, handle-last_for}

abbrev first : Report ℕ
first = record {
  workspace_version = 2;
  params =
      record { uri = codes "/a"; diagnostics = 1 ∷ [] }
      ∷ record { uri = codes "/b"; diagnostics = 2 ∷ [] }
      ∷ [];
}

abbrev late : Report ℕ
late = record {
  workspace_version = 1;
  params = record { uri = codes "/a"; diagnostics = 3 ∷ [] } ∷ [];
}

abbrev next : Report ℕ
next = record {
  workspace_version = 3;
  params = record { uri = codes "/b"; diagnostics = 4 ∷ [] } ∷ [];
}

abbrev before : List (Event ℕ)
before = reported first ∷ reported late ∷ cleared (codes "/c") ∷ []

handle_runs :
    ((handle_all before nothing_shown).0 (codes "/a") ≡ 1 ∷ [])
    × ((handle (reported next) (handle_all before nothing_shown)).0 (codes "/a") ≡ [])
    × ((handle (reported next) (handle_all before nothing_shown)).0 (codes "/b") ≡ 4 ∷ [])
unfolding handle handle_all show on_eval_diagnostic
handle_runs = (refl, refl, refl)

handle-last_for_example :
    (handle (reported next) (handle_all before nothing_shown)).0 (codes "/a")
    ≡ last_for (codes "/a") [] next.params
unfolding handle handle_all show on_eval_diagnostic
handle-last_for_example = handle-last_for before next (codes "/a") refl

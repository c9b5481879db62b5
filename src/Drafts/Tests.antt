-- ===== src/Drafts/Tests.antt =====
-- Runs of `increment`, on versions from their end.
use nixd.Prelude.{
  none, some, true, ℕ, ◌+◌, Bool, ◌&&◌, [], Bytes, codes, leb, if◌then◌else◌, ◌≡◌, refl,
}
use nixd.Drafts.Store.{DraftStore, get_draft, remove_draft, add_draft, get_draft-add_draft}
use nixd.Drafts.Version.{
  increment_from, increment, has_suffix, suffix_value, before_suffix, increment-suffix_value,
}

abbrev digit : ℕ → Bool
digit c = leb b'0' c && leb c b'9'

-- From `v199` to `v200`, from `99` to `100`, from `v` to `v0`, and from nothing to `0`.
increment_runs :
    (increment digit (codes "991v") ≡ codes "002v")
    × (increment digit (codes "99") ≡ codes "001")
    × (increment digit (codes "v") ≡ codes "0v")
    × (increment digit [] ≡ codes "0")
unfolding increment increment_from
increment_runs = (refl, refl, refl, refl)

increment-suffix_value_example :
    (suffix_value digit (increment digit (codes "991v"))
      ≡ (if has_suffix digit (codes "991v") then suffix_value digit (codes "991v") + 1 else 0))
    × (before_suffix digit (increment digit (codes "991v")) ≡ before_suffix digit (codes "991v"))
    × (has_suffix digit (increment digit (codes "991v")) ≡ true)
increment-suffix_value_example = increment-suffix_value digit (λ c. refl) b'9' (codes "91v")

abbrev added : Bytes × DraftStore
added = add_draft digit (codes "/a") [] (codes "x") 7 []

added_run : added.0 ≡ codes "0"
unfolding add_draft get_draft increment
added_run = refl

get_draft-add_draft_example :
    (get_draft (codes "/a") added.1
      ≡ some (record { contents = codes "x"; version = added.0; mtime = 7 }))
    × (get_draft (codes "/b") added.1 ≡ get_draft (codes "/b") [])
    × (get_draft (codes "/a") (remove_draft (codes "/a") added.1) ≡ none)
get_draft-add_draft_example =
    get_draft-add_draft digit (codes "/a") (codes "/b") [] (codes "x") 7 [] refl

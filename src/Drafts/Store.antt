-- ===== src/Drafts/Store.antt =====
-- `DraftStore` of lspserver/src/DraftStore.cpp: `getDraft`, `addDraft` and `removeDraft`, over the
-- table of the open files. The time that `addDraft` takes is an argument; the lock is held by each
-- operation from its start to its end.
use nixd.Prelude.{
  ℕ, Bool, true, false, Option, none, some, List, [], ◌∷◌, Bytes, bytes_eq, bytes_eq_iff, inl, inr,
  if◌then◌else◌, ◌≡◌, refl, Bool-cases,
}
use nixd.Drafts.Version.{increment, reversed}

pub record Draft : Type 0 where
  pub contents : Bytes
  pub version : Bytes
  pub mtime : ℕ

abbrev pub DraftStore : Type 0
DraftStore = List (Bytes × Draft)

unfoldable pub get_draft : Bytes → DraftStore → Option Draft
get_draft file [] = none
get_draft file ((f, d) ∷ ds) =
    let rest = get_draft file ds in if bytes_eq f file then some d else rest

-- `Drafts[File] = d`.
unfoldable pub set_draft : Bytes → Draft → DraftStore → DraftStore
set_draft file d [] = (file, d) ∷ []
set_draft file d ((f, e) ∷ ds) =
    let rest = set_draft file d ds in if bytes_eq f file then (f, d) ∷ ds else (f, e) ∷ rest

unfoldable pub remove_draft : Bytes → DraftStore → DraftStore
remove_draft file [] = []
remove_draft file ((f, e) ∷ ds) =
    let rest = remove_draft file ds in if bytes_eq f file then rest else (f, e) ∷ rest

module _ (is_digit : ℕ → Bool) where
  -- `updateVersion`: a version that is given replaces the old one, even a later one.
  abbrev pub update_version : Bytes → Bytes → Bytes
  update_version old [] = reversed (increment is_digit (reversed old))
  update_version old (c ∷ cs) = c ∷ cs

  -- The version of a draft; a new one's is empty.
  abbrev pub old_version : Option Draft → Bytes
  old_version none = []
  old_version (some d) = d.version

  -- `addDraft`: the version that it returns, and the store that it leaves.
  unfoldable pub add_draft : Bytes → Bytes → Bytes → ℕ → DraftStore → Bytes × DraftStore
  add_draft file version contents now ds =
      let v = update_version (old_version (get_draft file ds)) version in
      (v, set_draft file (record { contents = contents; version = v; mtime = now }) ds)

bytes_eq_refl : (a : Bytes) → bytes_eq a a ≡ true
bytes_eq_refl a = (bytes_eq_iff a a).1 refl

get_draft-set_draft_same :
    (file : Bytes) (d : Draft) (ds : DraftStore) → get_draft file (set_draft file d ds) ≡ some d
unfolding get_draft set_draft
get_draft-set_draft_same file d [] = rw (bytes_eq_refl file) refl
get_draft-set_draft_same file d ((f, e) ∷ ds) = elim (Bool-cases (bytes_eq f file)) [
  | inl q ↦ rw (q, q) refl
  | inr q ↦ rw (q, q, get_draft-set_draft_same file d ds) refl
]

get_draft-set_draft_other :
    (file other : Bytes) (d : Draft) (ds : DraftStore)
    → bytes_eq file other ≡ false
    → get_draft other (set_draft file d ds) ≡ get_draft other ds
unfolding get_draft set_draft
get_draft-set_draft_other file other d [] h = rw h refl
get_draft-set_draft_other file other d ((f, e) ∷ ds) h = elim (Bool-cases (bytes_eq f file)) [
  | inr q ↦ rw (q, get_draft-set_draft_other file other d ds h) refl
  | inl q ↦
      let differ : bytes_eq f other ≡ false = rw ((bytes_eq_iff f file).0 q) h in
      rw (q, differ) refl
]

get_draft-remove_draft_same :
    (file : Bytes) (ds : DraftStore) → get_draft file (remove_draft file ds) ≡ none
unfolding get_draft remove_draft
get_draft-remove_draft_same file [] = refl
get_draft-remove_draft_same file ((f, e) ∷ ds) = elim (Bool-cases (bytes_eq f file)) [
  | inl q ↦ rw (q, get_draft-remove_draft_same file ds) refl
  | inr q ↦ rw (q, q, get_draft-remove_draft_same file ds) refl
]

get_draft-remove_draft_other :
    (file other : Bytes) (ds : DraftStore)
    → bytes_eq file other ≡ false
    → get_draft other (remove_draft file ds) ≡ get_draft other ds
unfolding get_draft remove_draft
get_draft-remove_draft_other file other [] h = refl
get_draft-remove_draft_other file other ((f, e) ∷ ds) h = elim (Bool-cases (bytes_eq f file)) [
  | inr q ↦ rw (q, get_draft-remove_draft_other file other ds h) refl
  | inl q ↦
      let differ : bytes_eq f other ≡ false = rw ((bytes_eq_iff f file).0 q) h in
      rw (q, differ) (get_draft-remove_draft_other file other ds h)
]

-- What the operations leave for any file.
pub get_draft-set_draft :
    (file other : Bytes) (d : Draft) (ds : DraftStore)
    → get_draft other (set_draft file d ds)
      ≡ (if bytes_eq file other then some d else get_draft other ds)
get_draft-set_draft file other d ds = elim (Bool-cases (bytes_eq file other)) [
  | inl q ↦ rw q (rw (← (bytes_eq_iff file other).0 q) (get_draft-set_draft_same file d ds))
  | inr q ↦ rw q (get_draft-set_draft_other file other d ds q)
]

pub get_draft-remove_draft :
    (file other : Bytes) (ds : DraftStore)
    → get_draft other (remove_draft file ds)
      ≡ (if bytes_eq file other then none else get_draft other ds)
get_draft-remove_draft file other ds = elim (Bool-cases (bytes_eq file other)) [
  | inl q ↦ rw q (rw (← (bytes_eq_iff file other).0 q) (get_draft-remove_draft_same file ds))
  | inr q ↦ rw q (get_draft-remove_draft_other file other ds q)
]

-- After `addDraft` the file has the contents that were given and the version that was returned, and
-- every other file is as before; after `removeDraft` it has no draft.
pub get_draft-add_draft :
    (is_digit : ℕ → Bool) (file other version contents : Bytes) (now : ℕ) (ds : DraftStore)
    → bytes_eq file other ≡ false
    → let r : Bytes × DraftStore = add_draft is_digit file version contents now ds in
      (get_draft file r.1 ≡ some (record { contents = contents; version = r.0; mtime = now }))
      × (get_draft other r.1 ≡ get_draft other ds)
      × (get_draft file (remove_draft file r.1) ≡ none)
unfolding add_draft
get_draft-add_draft is_digit file other version contents now ds h =
    let v : Bytes = update_version is_digit (old_version is_digit (get_draft file ds)) version in
    let d : Draft = record { contents = contents; version = v; mtime = now } in
    (
      get_draft-set_draft_same file d ds,
      get_draft-set_draft_other file other d ds h,
      get_draft-remove_draft_same file (set_draft file d ds),
    )

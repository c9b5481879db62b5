-- ===== src/Documents/View.antt =====
-- The documents of the controller, against the texts as the client sees them.
use nixd.Prelude.{
  Bool, true, false, Option, none, some, List, [], ◌∷◌, Bytes, bytes_eq, bytes_eq_iff, ℤ,
  if◌then◌else◌, ◌≡◌, refl, sym, ap, ◌∙◌, Bool-cases, inl, inr,
}
use nixd.Drafts.Store.{Draft, get_draft, add_draft, get_draft-set_draft, get_draft-remove_draft}
use nixd.Documents.Sync.{
  VersionOps, Documents, Settings, update_workspace_version, encode_version, add_document,
  remove_document, apply_changes, apply_next, Notification, did_open, did_change, did_close,
  changed, change_draft, on_document, on_documents,
}
use nixd.Text.Change.{Change, apply_change}
use nixd.Text.Offset.{Expected, ok, err}

-- The text of each open file.
abbrev pub Texts : Type 0
Texts = Bytes → Option Bytes

abbrev pub contents_of : Option Draft → Option Bytes
contents_of none = none
contents_of (some d) = some d.contents

abbrev pub view : Documents → Texts
view d f = contents_of (get_draft f d.drafts)

-- One change of the text: none where it is refused, and none of no text.
abbrev edit_result : Expected (Unit {0}) × Bytes → Option Bytes
edit_result (ok u, text) = some text
edit_result (err e, text) = none

abbrev edit_once : Option Bytes → Change → Option Bytes
edit_once none change = none
edit_once (some text) change = edit_result (apply_change text change)

-- The changes one after another, from the first on.
abbrev pub edited : List Change → Option Bytes → Option Bytes
edited [] text = text
edited (change ∷ changes) text = edited changes (edit_once text change)

edited-none : (changes : List Change) → edited changes none ≡ none
edited-none [] = refl
edited-none (change ∷ changes) = edited-none changes

-- The server's loop over the changes makes the edits that the client makes.
apply_changes-edited :
    (changes : List Change) (code : Bytes) → apply_changes changes code ≡ edited changes (some code)
unfolding apply_changes
apply_changes-edited [] code = refl
apply_changes-edited (change ∷ changes) code =
    go (apply_change code change) (apply_changes-edited changes)
  where
    go :
        (r : Expected (Unit {0}) × Bytes)
        → ((text : Bytes) → apply_changes changes text ≡ edited changes (some text))
        → apply_next (apply_changes changes) r ≡ edited changes (edit_result r)
    go (ok u, text) ih = ih text
    go (err e, text) ih = sym (edited-none changes)

-- What a notification does to the texts: a refused change leaves no text.
unfoldable pub client_step : Notification → Texts → Texts
client_step (did_open file contents version) texts f =
    if bytes_eq file f then some contents else texts f
client_step (did_change file changes version) texts f =
    if bytes_eq file f then edited changes (texts file) else texts f
client_step (did_close file) texts f = if bytes_eq file f then none else texts f

unfoldable pub client_texts : List (Settings × Notification) → Texts → Texts
client_texts [] texts = texts
client_texts ((c, n) ∷ rest) texts = client_texts rest (client_step n texts)

if_contents :
    (b : Bool) (x : Draft) (o : Option Draft)
    → contents_of (if b then some x else o) ≡ (if b then some x.contents else contents_of o)
if_contents true x o = refl
if_contents false x o = refl

if_removed :
    (b : Bool) (o : Option Draft)
    → contents_of (if b then none else o) ≡ (if b then none else contents_of o)
if_removed true o = refl
if_removed false o = refl

module _ (ops : VersionOps) where
  pub view-add_document :
      (c : Settings) (file contents version : Bytes) (d : Documents) (f : Bytes)
      → view (add_document ops c file contents version d) f
        ≡ (if bytes_eq file f then some contents else view d f)
  unfolding add_document update_workspace_version add_draft
  view-add_document c file contents version d f =
      ap contents_of (get_draft-set_draft file f _ d.drafts)
      ∙ if_contents (bytes_eq file f) _ (get_draft f d.drafts)

  pub view-remove_document :
      (c : Settings) (file : Bytes) (d : Documents) (f : Bytes)
      → view (remove_document ops c file d) f ≡ (if bytes_eq file f then none else view d f)
  unfolding remove_document update_workspace_version
  view-remove_document c file d f =
      ap contents_of (get_draft-remove_draft file f d.drafts)
      ∙ if_removed (bytes_eq file f) (get_draft f d.drafts)

  view-changed :
      (c : Settings) (file : Bytes) (version : Option ℤ) (d : Documents) (o : Option Bytes)
      (f : Bytes)
      → view (changed ops c file version d o) f ≡ (if bytes_eq file f then o else view d f)
  view-changed c file version d none f = view-remove_document c file d f
  view-changed c file version d (some code) f =
      view-add_document c file code (encode_version ops version) d f

  view-change_draft :
      (c : Settings) (file : Bytes) (changes : List Change) (version : Option ℤ) (d : Documents)
      (o : Option Draft) (f : Bytes)
      → get_draft file d.drafts ≡ o
      → view (change_draft ops c file changes version d o) f
        ≡ (if bytes_eq file f then edited changes (contents_of o) else view d f)
  view-change_draft c file changes version d none f e = elim (Bool-cases (bytes_eq file f)) [
    | inr q ↦ rw q refl
    | inl q ↦ rw q (
        ap (λ (g : Bytes). view d g) (sym ((bytes_eq_iff file f).0 q))
        ∙ ap contents_of e
        ∙ sym (edited-none changes))
  ]
  view-change_draft c file changes version d (some x) f e =
      view-changed c file version d (apply_changes changes x.contents) f
      ∙ ap (λ (o : Option Bytes). if bytes_eq file f then o else view d f)
          (apply_changes-edited changes x.contents)

  -- Each notification does to the drafts what it does to the texts.
  view-on_document :
      (c : Settings) (n : Notification) (d : Documents) (f : Bytes)
      → view (on_document ops c n d) f ≡ client_step n (view d) f
  unfolding on_document client_step
  view-on_document c (did_open file contents version) d f =
      view-add_document c file contents (encode_version ops version) d f
  view-on_document c (did_change file changes version) d f =
      view-change_draft c file changes version d (get_draft file d.drafts) f refl
  view-on_document c (did_close file) d f = view-remove_document c file d f

  -- After any notifications the drafts hold the texts as the client sees them: what was opened, with
  -- the changes since, one after another, and none where one of them was refused or the file was
  -- closed.
  pub view-on_documents :
      (ns : List (Settings × Notification)) (d : Documents) (f : Bytes)
      → view (on_documents ops ns d) f ≡ client_texts ns (view d) f
  unfolding on_documents client_texts
  view-on_documents [] d f = refl
  view-on_documents ((c, n) ∷ ns) d f =
      view-on_documents ns (on_document ops c n d) f
      ∙ ap (λ (texts : Texts). client_texts ns texts f) (λ i g. view-on_document c n d g i)

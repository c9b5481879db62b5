-- ===== src/Documents/Scheduled.antt =====
-- The tasks of the parser, against the drafts, and the number of the worker processes.
use nixd.Prelude.{
  Bool, true, false, Option, none, some, List, [], ◌∷◌, Bytes, bytes_eq, ℤ, if◌then◌else◌, ◌≡◌, sym,
  ◌∙◌, arith,
}
use nixd.Drafts.Store.{Draft, get_draft}
use nixd.Documents.Sync.{
  VersionOps, ParseTask, Documents, Settings, update_workspace_version, encode_version,
  add_document, remove_document, apply_changes, Notification, did_open, did_change, did_close,
  changed, change_draft, on_document, on_documents,
}
use nixd.Documents.View.{view, view-add_document, view-remove_document}
use nixd.Text.Change.{Change}

-- The contents of the last task for a file.
unfoldable pub last_scheduled : Bytes → List ParseTask → Option Bytes
last_scheduled f [] = none
last_scheduled f (t ∷ ts) =
    let rest = last_scheduled f ts in if bytes_eq t.path f then some t.contents else rest

-- The draft of each open file is what the parser was given for it last.
abbrev pub IsScheduled : Documents → Type 0
IsScheduled d =
    (f contents : Bytes) → view d f ≡ some contents → last_scheduled f d.scheduled ≡ some contents

kept_or_removed :
    (b : Bool) (o : Option Bytes) (x : Bytes) → (if b then none else o) ≡ some x → o ≡ some x
kept_or_removed true o x h = ground arith
kept_or_removed false o x h = h

if_scheduled :
    (b : Bool) (y x : Bytes) (o p : Option Bytes)
    → (if b then some y else o) ≡ some x
    → (o ≡ some x → p ≡ some x)
    → (if b then some y else p) ≡ some x
if_scheduled true y x o p h k = h
if_scheduled false y x o p h k = k h

module _ (ops : VersionOps) where
  add_document-IsScheduled :
      (c : Settings) (file contents version : Bytes) (d : Documents)
      → IsScheduled d
      → IsScheduled (add_document ops c file contents version d)
  unfolding last_scheduled add_document update_workspace_version
  add_document-IsScheduled c file contents version d h f x e =
      if_scheduled (bytes_eq file f) contents x (view d f) (last_scheduled f d.scheduled)
        (sym (view-add_document ops c file contents version d f) ∙ e) (h f x)

  remove_document-IsScheduled :
      (c : Settings) (file : Bytes) (d : Documents)
      → IsScheduled d
      → IsScheduled (remove_document ops c file d)
  unfolding remove_document update_workspace_version
  remove_document-IsScheduled c file d h f x e = h f x (
      kept_or_removed (bytes_eq file f) (view d f) x
        (sym (view-remove_document ops c file d f) ∙ e))

  changed-IsScheduled :
      (c : Settings) (file : Bytes) (version : Option ℤ) (d : Documents) (o : Option Bytes)
      → IsScheduled d
      → IsScheduled (changed ops c file version d o)
  changed-IsScheduled c file version d none h = remove_document-IsScheduled c file d h
  changed-IsScheduled c file version d (some code) h =
      add_document-IsScheduled c file code (encode_version ops version) d h

  change_draft-IsScheduled :
      (c : Settings) (file : Bytes) (changes : List Change) (version : Option ℤ) (d : Documents)
      (o : Option Draft)
      → IsScheduled d
      → IsScheduled (change_draft ops c file changes version d o)
  change_draft-IsScheduled c file changes version d none h = h
  change_draft-IsScheduled c file changes version d (some x) h =
      changed-IsScheduled c file version d (apply_changes changes x.contents) h

  on_document-IsScheduled :
      (c : Settings) (n : Notification) (d : Documents)
      → IsScheduled d
      → IsScheduled (on_document ops c n d)
  unfolding on_document
  on_document-IsScheduled c (did_open file contents version) d h =
      add_document-IsScheduled c file contents (encode_version ops version) d h
  on_document-IsScheduled c (did_change file changes version) d h =
      change_draft-IsScheduled c file changes version d (get_draft file d.drafts) h
  on_document-IsScheduled c (did_close file) d h = remove_document-IsScheduled c file d h

  -- Where the parser was given the draft of each open file, it was after any notifications too: the
  -- last task for a file holds what its draft holds.
  pub on_documents-IsScheduled :
      (ns : List (Settings × Notification)) (d : Documents)
      → IsScheduled d
      → IsScheduled (on_documents ops ns d)
  unfolding on_documents
  on_documents-IsScheduled [] d h = h
  on_documents-IsScheduled ((c, n) ∷ ns) d h =
      on_documents-IsScheduled ns (on_document ops c n d) (on_document-IsScheduled c n d h)

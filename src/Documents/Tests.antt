-- ===== src/Documents/Tests.antt =====
-- Documents that are opened, changed and closed.
use nixd.Prelude.{
  ◌≤◌, true, false, none, some, List, [], ◌∷◌, codes, length, pos, negsuc, ◌≡◌, refl, arith,
}
use nixd.Text.Change.{apply_change}
use nixd.Documents.Sync.{
  Documents, Settings, Notification, did_open, did_change, did_close, on_document, on_documents,
  add_document, remove_document, update_workspace_version, fork_worker, apply_changes,
}
use nixd.Drafts.Store.{get_draft, add_draft, set_draft, remove_draft}
use nixd.Documents.Sample.{unary_ops}
use nixd.Documents.View.{view, client_texts, view-on_documents}
use nixd.Documents.Scheduled.{IsScheduled, on_documents-IsScheduled}
use nixd.Documents.Pool.{length-on_documents}

abbrev started : Documents
started = record {
  drafts = [];
  published = [];
  scheduled = [];
  workspace_version = 1;
  eval_workers = [];
}

-- Two workers; they can be started.
abbrev two : Settings
two = record { workers = pos 2; wait_worker = false; forks = true; now = 7 }

-- The file is opened, its text replaced twice, another one is opened and closed.
abbrev session : List (Settings × Notification)
session =
    (two, did_open (codes "/a") (codes "1") (some (pos 1)))
    ∷ (
      two,
      did_change (codes "/a") (record { range = none; range_length = none; text = codes "2" } ∷ [])
          (some (pos 2)),
    )
    ∷ (two, did_open (codes "/b") (codes "3") none)
    ∷ (two, did_close (codes "/b"))
    ∷ []

-- At the end the draft of the first file is its last text, and no other has one.
session_run :
    (view (on_documents unary_ops session started) (codes "/a") ≡ some (codes "2"))
    × (view (on_documents unary_ops session started) (codes "/b") ≡ none)
    × ((on_documents unary_ops session started).eval_workers ≡ 4 ∷ 5 ∷ [])
unfolding on_documents on_document add_document remove_document update_workspace_version fork_worker
    apply_changes apply_change add_draft set_draft remove_draft get_draft
session_run = (refl, refl, refl)

view-on_documents_example :
    view (on_documents unary_ops session started) (codes "/a")
    ≡ client_texts session (view started) (codes "/a")
view-on_documents_example = view-on_documents unary_ops session started (codes "/a")

none_open : IsScheduled started
unfolding get_draft
none_open f contents h = ground arith

on_documents-IsScheduled_example : IsScheduled (on_documents unary_ops session started)
on_documents-IsScheduled_example = on_documents-IsScheduled unary_ops session started none_open

length-on_documents_example : length (on_documents unary_ops session started).eval_workers ≤ 2
length-on_documents_example =
    length-on_documents unary_ops session 2 started
      ((refl, refl), ((refl, refl), ((refl, refl), ((refl, refl), tt)))) (omega arith)

-- The pool is shortened by one worker for each that is started: with two workers running and a
-- configuration that now asks for one, two stay.
abbrev one : Settings
one = record { workers = pos 1; wait_worker = false; forks = true; now = 8 }

fewer_workers_run :
    (on_documents unary_ops
      ((one, did_close (codes "/a")) ∷ [])
      (on_documents unary_ops session started)).eval_workers
    ≡ 5 ∷ 6 ∷ []
unfolding on_documents on_document add_document remove_document update_workspace_version fork_worker
    apply_changes apply_change add_draft set_draft remove_draft get_draft
fewer_workers_run = refl

-- A negative number of workers is a large `size_t`: the pool is never shortened.
abbrev negative : Settings
negative = record { workers = negsuc 0; wait_worker = false; forks = true; now = 9 }

negative_workers_run :
    (on_documents unary_ops
      ((negative, did_close (codes "/a")) ∷ (negative, did_close (codes "/a")) ∷ [])
      (on_documents unary_ops session started)).eval_workers
    ≡ 4 ∷ 5 ∷ 6 ∷ 7 ∷ []
unfolding on_documents on_document add_document remove_document update_workspace_version fork_worker
    apply_changes apply_change add_draft set_draft remove_draft get_draft
negative_workers_run = refl

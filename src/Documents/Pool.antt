-- ===== src/Documents/Pool.antt =====
-- The number of the worker processes that the changes of documents start.
use nixd.Prelude.{
  ℕ, ◌+◌, ◌≤◌, Bool, true, false, not, ◌&&◌, Option, none, some, List, [], ◌∷◌, ◌++◌, Bytes, length,
  ltb, ℤ, pos, if◌then◌else◌, ◌≡◌, refl, arith, All, length-append,
}
use nixd.Drafts.Store.{Draft, get_draft}
use nixd.Documents.Sync.{
  VersionOps, Documents, Settings, to_size, pop_front, fork_worker, update_workspace_version,
  add_document, remove_document, apply_changes, Notification, did_open, did_change, did_close,
  changed, change_draft, on_document, on_documents,
}
use nixd.Text.Change.{Change}

-- The notifications come under a configuration that asks for `w` workers, a number that is not
-- negative, and waits for none.
abbrev pub AsksFor : ℕ → Settings × Notification → Type 0
AsksFor w (c, n) = (c.workers ≡ pos w) × (c.wait_worker ≡ false)

length-pop_front : (pool : List ℕ) (w : ℕ) → length pool ≤ w + 1 → length (pop_front pool) ≤ w
length-pop_front [] w h = omega arith
length-pop_front (x ∷ xs) w h = omega arith

if_fits :
    (forks more wait : Bool) (pool next : List ℕ) (w : ℕ)
    → wait ≡ false
    → ltb w (length next) ≡ more
    → length pool ≤ w
    → length next ≤ w + 1
    → length (if forks then if more && not wait then pop_front next else next else pool) ≤ w
if_fits false more wait pool next w q m h k = h
if_fits true true wait pool next w q m h k = rw q (length-pop_front next w k)
if_fits true false wait pool next w q m h k = ground arith

length-fork_worker :
    (c : Settings) (version w : ℕ) (pool : List ℕ)
    → c.workers ≡ pos w
    → c.wait_worker ≡ false
    → length pool ≤ w
    → length (fork_worker c version pool) ≤ w
unfolding fork_worker
length-fork_worker c version w pool e q h =
    if_fits c.forks (ltb (to_size c.workers) (length (pool ++ version ∷ []))) c.wait_worker pool
      (pool ++ version ∷ []) w q (rw e refl) h
      (rw (length-append pool (version ∷ [])) (omega arith))

module _ (ops : VersionOps) where
  length-changed :
      (c : Settings) (file : Bytes) (version : Option ℤ) (w : ℕ) (d : Documents) (o : Option Bytes)
      → c.workers ≡ pos w
      → c.wait_worker ≡ false
      → length d.eval_workers ≤ w
      → length (changed ops c file version d o).eval_workers ≤ w
  unfolding add_document remove_document update_workspace_version
  length-changed c file version w d none e q h =
      length-fork_worker c (d.workspace_version + 1) w d.eval_workers e q h
  length-changed c file version w d (some code) e q h =
      length-fork_worker c (d.workspace_version + 1) w d.eval_workers e q h

  length-change_draft :
      (c : Settings) (file : Bytes) (changes : List Change) (version : Option ℤ) (w : ℕ)
      (d : Documents) (o : Option Draft)
      → c.workers ≡ pos w
      → c.wait_worker ≡ false
      → length d.eval_workers ≤ w
      → length (change_draft ops c file changes version d o).eval_workers ≤ w
  length-change_draft c file changes version w d none e q h = h
  length-change_draft c file changes version w d (some x) e q h =
      length-changed c file version w d (apply_changes changes x.contents) e q h

  length-on_document :
      (c : Settings) (n : Notification) (w : ℕ) (d : Documents)
      → AsksFor w (c, n)
      → length d.eval_workers ≤ w
      → length (on_document ops c n d).eval_workers ≤ w
  unfolding on_document
  length-on_document c (did_open file contents version) w d (e, q) h =
      length-changed c file version w d (some contents) e q h
  length-on_document c (did_change file changes version) w d (e, q) h =
      length-change_draft c file changes version w d (get_draft file d.drafts) e q h
  length-on_document c (did_close file) w d (e, q) h = length-changed c file none w d none e q h

  -- Under a configuration that stays the same, whose number of workers is not negative, there are
  -- never more worker processes than it asks for, unless the controller waits for the workers.
  pub length-on_documents :
      (ns : List (Settings × Notification)) (w : ℕ) (d : Documents)
      → All (AsksFor w) ns
      → length d.eval_workers ≤ w
      → length (on_documents ops ns d).eval_workers ≤ w
  unfolding on_documents
  length-on_documents [] w d a h = h
  length-on_documents ((c, n) ∷ ns) w d (a, as_) h =
      length-on_documents ns w (on_document ops c n d) as_ (length-on_document c n w d a h)

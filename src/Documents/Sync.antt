-- ===== src/Documents/Sync.antt =====
-- nixd/lib/Server/Controller.cpp and nixd/include/nixd/Server/Server.h: `addDocument`,
-- `removeDocument`, the handlers of the client's notifications about its documents, and the worker
-- processes that each change starts. `fork` may fail: each operation is told whether it does.
use nixd.Prelude.{
  ℕ, ◌+◌, ◌-◌, ◌^◌, Bool, not, ◌&&◌, Option, none, some, List, [], ◌∷◌, ◌++◌, Bytes, length, ltb, ℤ,
  pos, negsuc, if◌then◌else◌,
}
use nixd.Drafts.Store.{DraftStore, Draft, get_draft, add_draft, remove_draft}
use nixd.Text.Change.{Change, apply_change}
use nixd.Text.Offset.{Expected, ok, err}

-- `llvm::to_string` and `llvm::to_integer` (radix 10) of an `int64_t`, and `llvm::isDigit`.
pub record VersionOps : Type 0 where
  pub to_string : ℤ → Bytes
  pub to_integer : Bytes → Option ℤ
  pub is_digit : ℕ → Bool

-- A task for `ASTManager::schedParse`.
pub record ParseTask : Type 0 where
  pub contents : Bytes
  pub path : Bytes
  pub version : ℤ

-- The members of `Server` that the operations change: a worker is known by the version of the
-- workspace that it was started for, `published` are the notifications that clear diagnostics, and
-- `scheduled` the tasks, the last one first.
pub record Documents : Type 0 where
  pub drafts : DraftStore
  pub published : List (Bytes × Option ℤ)
  pub scheduled : List ParseTask
  pub workspace_version : ℕ
  pub eval_workers : List ℕ

-- `Config.eval.workers`, an `int`, and `WaitWorker`; the clock and whether `fork` works, for one operation.
pub record Settings : Type 0 where
  pub workers : ℤ
  pub wait_worker : Bool
  pub forks : Bool
  pub now : ℕ

-- An `int` as the `size_t` that `forkWorker` takes.
abbrev pub to_size : ℤ → ℕ
to_size (pos n) = n
to_size (negsuc n) = 2 ^ 64 - 1 - n

abbrev pub pop_front : List ℕ → List ℕ
pop_front [] = []
pop_front (w ∷ ws) = ws

-- `forkWorker`, in the controller: the pool that it leaves.
unfoldable pub fork_worker : Settings → ℕ → List ℕ → List ℕ
fork_worker c version pool =
    if c.forks
    then if ltb (to_size c.workers) (length (pool ++ version ∷ [])) && not c.wait_worker
      then pop_front (pool ++ version ∷ [])
      else pool ++ version ∷ []
    else pool

unfoldable pub update_workspace_version : Settings → Documents → Documents
update_workspace_version c d = record d {
  workspace_version = d.workspace_version + 1;
  eval_workers = fork_worker c (d.workspace_version + 1) d.eval_workers;
}

abbrev pub value_or_zero : Option ℤ → ℤ
value_or_zero none = pos 0
value_or_zero (some v) = v

-- The changes of one notification, until one is refused.
abbrev pub apply_next : (Bytes → Option Bytes) → Expected (Unit {0}) × Bytes → Option Bytes
apply_next rest (ok u, code) = rest code
apply_next rest (err e, code) = none

unfoldable pub apply_changes : List Change → Bytes → Option Bytes
apply_changes [] code = some code
apply_changes (change ∷ changes) code =
    apply_next (apply_changes changes) (apply_change code change)

-- The notifications, with the file of their URI.
pub data Notification : Type 0 where
  did_open : Bytes → Bytes → Option ℤ → Notification
  did_change : Bytes → List Change → Option ℤ → Notification
  did_close : Bytes → Notification

module _ (ops : VersionOps) where
  abbrev pub encode_version : Option ℤ → Bytes
  encode_version none = []
  encode_version (some v) = ops.to_string v

  -- `DraftStore::decodeVersion`.
  abbrev pub decode_version : Bytes → Option ℤ
  decode_version encoded = ops.to_integer encoded

  unfoldable pub add_document : Settings → Bytes → Bytes → Bytes → Documents → Documents
  add_document c file contents version d = update_workspace_version c (record d {
    published = (file, decode_version version) ∷ d.published;
    drafts = (add_draft ops.is_digit file version contents c.now d.drafts).1;
    scheduled =
        record {
          contents = contents;
          path = file;
          version = value_or_zero (decode_version version);
        }
        ∷ d.scheduled;
  })

  unfoldable pub remove_document : Settings → Bytes → Documents → Documents
  remove_document c file d =
      update_workspace_version c (record d { drafts = remove_draft file d.drafts })

  abbrev pub changed : Settings → Bytes → Option ℤ → Documents → Option Bytes → Documents
  changed c file version d none = remove_document c file d
  changed c file version d (some code) = add_document c file code (encode_version version) d

  abbrev pub change_draft :
      Settings → Bytes → List Change → Option ℤ → Documents → Option Draft → Documents
  change_draft c file changes version d none = d
  change_draft c file changes version d (some draft) =
      changed c file version d (apply_changes changes draft.contents)

  -- `onDocumentDidOpen`, `onDocumentDidChange` and `onDocumentDidClose`.
  unfoldable pub on_document : Settings → Notification → Documents → Documents
  on_document c (did_open file contents version) d =
      add_document c file contents (encode_version version) d
  on_document c (did_change file changes version) d =
      change_draft c file changes version d (get_draft file d.drafts)
  on_document c (did_close file) d = remove_document c file d

  unfoldable pub on_documents : List (Settings × Notification) → Documents → Documents
  on_documents [] d = d
  on_documents ((c, n) ∷ rest) d = on_documents rest (on_document c n d)

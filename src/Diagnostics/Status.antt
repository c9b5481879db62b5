-- ===== src/Diagnostics/Status.antt =====
-- `onEvalDiagnostic` and `clearDiagnostic` of nixd/lib/Server/Controller.cpp, and what the client
-- shows: for each URI the diagnostics that were published for it last. `D` is the type of diagnostics.
use nixd.Prelude.{ℕ, List, [], ◌∷◌, ◌++◌, Bytes, bytes_eq, ltb, if◌then◌else◌}

-- `PublishDiagnosticsParams`; `ipc::Diagnostics`; `DiagStatus`.
pub record Published (D : Type 0) : Type 0 where
  pub uri : Bytes
  pub diagnostics : List D

pub record Report (D : Type 0) : Type 0 where
  pub workspace_version : ℕ
  pub params : List (Published D)

pub record DiagStatus (D : Type 0) : Type 0 where
  pub workspace_version : ℕ
  pub client_diags : List (Published D)

abbrev pub View : Type 0 → Type 0
View D = Bytes → List D

-- A report of a worker, and a URI that is cleared, as `addDocument` does.
pub data Event (D : Type 0) : Type 0 where
  reported : Report D → Event D
  cleared : Bytes → Event D

module _ {D : Type 0} where
  abbrev pub clear : Bytes → Published D
  clear uri = record { uri = uri; diagnostics = [] }

  abbrev pub clear_all : List (Published D) → List (Published D)
  clear_all [] = []
  clear_all (p ∷ ps) = clear p.uri ∷ clear_all ps

  -- What is published, and the status that is left.
  unfoldable pub on_eval_diagnostic : Report D → DiagStatus D → List (Published D) × DiagStatus D
  on_eval_diagnostic r s = if ltb r.workspace_version s.workspace_version then ([], s) else (
    clear_all s.client_diags ++ r.params,
    record { workspace_version = r.workspace_version; client_diags = r.params },
  )

  unfoldable pub show : List (Published D) → View D → View D
  show [] v = v
  show (p ∷ ps) v = show ps (λ u. if bytes_eq p.uri u then p.diagnostics else v u)

  abbrev pub publish : View D → List (Published D) × DiagStatus D → View D × DiagStatus D
  publish v (ps, s) = (show ps v, s)

  unfoldable pub handle : Event D → View D × DiagStatus D → View D × DiagStatus D
  handle (reported r) (v, s) = publish v (on_eval_diagnostic r s)
  handle (cleared uri) (v, s) = (show (clear uri ∷ []) v, s)

  unfoldable pub handle_all : List (Event D) → View D × DiagStatus D → View D × DiagStatus D
  handle_all [] x = x
  handle_all (e ∷ es) x = handle_all es (handle e x)

  abbrev pub nothing_shown : View D × DiagStatus D
  nothing_shown = (λ u. [], record { workspace_version = 0; client_diags = [] })

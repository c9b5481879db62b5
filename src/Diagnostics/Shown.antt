-- ===== src/Diagnostics/Shown.antt =====
-- What the client shows after a report.
use nixd.Prelude.{
  Bool, true, false, ◌||◌, List, [], ◌∷◌, ◌++◌, Bytes, bytes_eq, ltb, if◌then◌else◌, ◌≡◌, refl, ap,
  ◌∙◌, Bool-cases, inl, inr, not_both,
}
use nixd.Diagnostics.Status.{
  Published, Report, DiagStatus, View, Event, reported, cleared, clear, clear_all,
  on_eval_diagnostic, show, publish, handle, handle_all, nothing_shown,
}

module _ {D : Type 0} where
  -- The last diagnostics for a URI, or those that are given.
  unfoldable pub last_for : Bytes → List D → List (Published D) → List D
  last_for u d [] = d
  last_for u d (p ∷ ps) = last_for u (if bytes_eq p.uri u then p.diagnostics else d) ps

  mentions : Bytes → List (Published D) → Bool
  mentions u [] = false
  mentions u (p ∷ ps) = bytes_eq p.uri u || mentions u ps

  show-last_for :
      (u : Bytes) (ps : List (Published D)) (v : View D) → show ps v u ≡ last_for u (v u) ps
  unfolding show last_for
  show-last_for u [] v = refl
  show-last_for u (p ∷ ps) v =
      show-last_for u ps (λ w. if bytes_eq p.uri w then p.diagnostics else v w)

  last_for-append :
      (u : Bytes) (d : List D) (ps qs : List (Published D))
      → last_for u d (ps ++ qs) ≡ last_for u (last_for u d ps) qs
  unfolding last_for
  last_for-append u d [] qs = refl
  last_for-append u d (p ∷ ps) qs =
      last_for-append u (if bytes_eq p.uri u then p.diagnostics else d) ps qs

  if_empty : (b : Bool) (d : List D) → d ≡ [] → (if b then [] else d) ≡ []
  if_empty true d h = refl
  if_empty false d h = h

  cleared_empty :
      (u : Bytes) (d : List D) (ps : List (Published D)) → d ≡ [] → last_for u d (clear_all ps) ≡ []
  unfolding last_for
  cleared_empty u d [] h = h
  cleared_empty u d (p ∷ ps) h =
      cleared_empty u (if bytes_eq p.uri u then [] else d) ps (if_empty (bytes_eq p.uri u) d h)

  cleared_mentioned :
      (u : Bytes) (d : List D) (ps : List (Published D))
      → mentions u ps ≡ true
      → last_for u d (clear_all ps) ≡ []
  unfolding last_for mentions
  cleared_mentioned u d [] h = cc
  cleared_mentioned u d (p ∷ ps) h = go (bytes_eq p.uri u) h (λ k. cleared_mentioned u d ps k)
    where
      go :
          (b : Bool)
          → (b || mentions u ps) ≡ true
          → (mentions u ps ≡ true → last_for u d (clear_all ps) ≡ [])
          → last_for u (if b then [] else d) (clear_all ps) ≡ []
      go true k ih = cleared_empty u [] ps refl
      go false k ih = ih k

  not_mentioned :
      (u : Bytes) (d : List D) (ps : List (Published D))
      → mentions u ps ≡ false
      → last_for u d ps ≡ d
  unfolding last_for mentions
  not_mentioned u d [] h = refl
  not_mentioned u d (p ∷ ps) h = go (bytes_eq p.uri u) h (λ k. not_mentioned u d ps k)
    where
      go :
          (b : Bool)
          → (b || mentions u ps) ≡ false
          → (mentions u ps ≡ false → last_for u d ps ≡ d)
          → last_for u (if b then p.diagnostics else d) ps ≡ d
      go true k ih = absurd (not_both true refl k)
      go false k ih = ih k

  -- What is shown is of a URI of the last report that was taken.
  IsCovered : View D × DiagStatus D → Type 0
  unfolding mentions
  IsCovered (v, s) = (u : Bytes) → mentions u s.client_diags ≡ false → v u ≡ []

  shown_report :
      (v : View D) (s : DiagStatus D) (ps : List (Published D)) (u : Bytes)
      → IsCovered (v, s)
      → show (clear_all s.client_diags ++ ps) v u ≡ last_for u [] ps
  unfolding IsCovered
  shown_report v s ps u h =
      show-last_for u (clear_all s.client_diags ++ ps) v
      ∙ last_for-append u (v u) (clear_all s.client_diags) ps
      ∙ ap (λ d. last_for u d ps)
          (elim (Bool-cases (mentions u s.client_diags)) [
            | inl m ↦ cleared_mentioned u (v u) s.client_diags m
            | inr m ↦ cleared_empty u (v u) s.client_diags (h u m)
          ])

  handle-IsCovered :
      (e : Event D) (v : View D) (s : DiagStatus D) → IsCovered (v, s) → IsCovered (handle e (v, s))
  unfolding handle IsCovered on_eval_diagnostic show
  handle-IsCovered (reported r) v s h = go (ltb r.workspace_version s.workspace_version)
    where
      go :
          (b : Bool)
          → IsCovered (
              publish v (
                if b then ([], s) else (
                  clear_all s.client_diags ++ r.params,
                  record { workspace_version = r.workspace_version; client_diags = r.params },
                )))
      go true = h
      go false = λ u m. shown_report v s r.params u h ∙ not_mentioned u [] r.params m
  handle-IsCovered (cleared uri) v s h = λ u m.
      show-last_for u (clear uri ∷ []) v
      ∙ cleared_empty u (v u) (record { uri = uri; diagnostics = [] } ∷ []) (h u m)

  handle_all-IsCovered :
      (es : List (Event D)) (v : View D) (s : DiagStatus D)
      → IsCovered (v, s)
      → IsCovered (handle_all es (v, s))
  unfolding handle_all
  handle_all-IsCovered [] v s h = h
  handle_all-IsCovered (e ∷ es) v s h =
      handle_all-IsCovered es (handle e (v, s)).0 (handle e (v, s)).1 (handle-IsCovered e v s h)

  -- After any reports and clearings, a report of a workspace that is not older than that of the last
  -- report taken leaves the client with its diagnostics alone: for each URI the last ones that it has
  -- for it, and none for any other.
  pub handle-last_for :
      (es : List (Event D)) (r : Report D) (u : Bytes)
      → ltb r.workspace_version (handle_all es nothing_shown).1.workspace_version ≡ false
      → (handle (reported r) (handle_all es nothing_shown)).0 u ≡ last_for u [] r.params
  unfolding handle on_eval_diagnostic IsCovered
  handle-last_for es r u h =
      let (v, s) = handle_all es nothing_shown in
      ap
        (λ b.
          (publish v (
              if b then ([], s) else (
                clear_all s.client_diags ++ r.params,
                record { workspace_version = r.workspace_version; client_diags = r.params },
              ))).0
            u)
        h
      ∙ shown_report v s r.params u (
          handle_all-IsCovered es (λ w. []) (record { workspace_version = 0; client_diags = [] })
            (λ w m. refl))

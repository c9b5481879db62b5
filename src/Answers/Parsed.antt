-- ===== src/Answers/Parsed.antt =====
-- What the answers to the requests are computed from.
use nixd.Prelude.{
  ℕ, Bool, true, false, Option, none, some, List, [], ◌∷◌, ◌++◌, append_assoc, Bytes, bytes_eq_iff,
  ℤ, if◌then◌else◌, ◌≡◌, refl, sym, ap, ◌∙◌, subst, All,
}
use nixd.Drafts.Store.{Draft, get_draft}
use nixd.Documents.Sync.{
  VersionOps, ParseTask, Documents, Settings, Notification, did_open, did_change, did_close,
  encode_version, decode_version, value_or_zero, update_workspace_version, add_document,
  remove_document, apply_changes, changed, change_draft, on_document,
}
use nixd.Documents.View.{view, view-add_document}
use nixd.Text.Change.{Change}
use nixd.Trees.Manager.{Cached, Manager, with_ast, sched_parse, work, step}
use nixd.Trees.Origin.{IsMade, Shows, step-IsMade}
use nixd.Answers.System.{
  System, Input, notify, request, proceed, started, post, with_draft, with_parse_ast, react_alive,
  react, react_all,
}

module _ (ops : VersionOps) where
  -- The contents that are scheduled are those that the file has.
  abbrev IsCurrent : Documents → ParseTask → Type 0
  IsCurrent d t = view d t.path ≡ some t.contents

  AllCurrent : Documents → Type 0
  AllCurrent d = All (IsCurrent d) d.scheduled

  add_document-IsCurrent :
      (c : Settings) (file contents version : Bytes) (d : Documents)
      → d.scheduled ≡ []
      → AllCurrent (add_document ops c file contents version d)
  unfolding AllCurrent add_document update_workspace_version
  add_document-IsCurrent c file contents version d e = (
    view-add_document ops c file contents version d file
        ∙ ap (λ b. if b then some contents else view d file) ((bytes_eq_iff file file).1 refl),
    subst (λ ts. All (IsCurrent (add_document ops c file contents version d)) ts) (sym e) tt,
  )

  none-IsCurrent : (d : Documents) → d.scheduled ≡ [] → AllCurrent d
  unfolding AllCurrent
  none-IsCurrent d e = subst (λ ts. All (IsCurrent d) ts) (sym e) tt

  changed-IsCurrent :
      (c : Settings) (file : Bytes) (version : Option ℤ) (d : Documents) (o : Option Bytes)
      → d.scheduled ≡ []
      → AllCurrent (changed ops c file version d o)
  unfolding remove_document update_workspace_version
  changed-IsCurrent c file version d none e = none-IsCurrent _ e
  changed-IsCurrent c file version d (some code) e =
      add_document-IsCurrent c file code (encode_version ops version) d e

  change_draft-IsCurrent :
      (c : Settings) (file : Bytes) (changes : List Change) (version : Option ℤ) (d : Documents)
      (o : Option Draft)
      → d.scheduled ≡ []
      → AllCurrent (change_draft ops c file changes version d o)
  change_draft-IsCurrent c file changes version d none e = none-IsCurrent d e
  change_draft-IsCurrent c file changes version d (some x) e =
      changed-IsCurrent c file version d (apply_changes changes x.contents) e

  on_document-IsCurrent :
      (c : Settings) (n : Notification) (d : Documents)
      → d.scheduled ≡ []
      → AllCurrent (on_document ops c n d)
  unfolding on_document
  on_document-IsCurrent c (did_open file contents version) d e =
      add_document-IsCurrent c file contents (encode_version ops version) d e
  on_document-IsCurrent c (did_change file changes version) d e =
      change_draft-IsCurrent c file changes version d (get_draft file d.drafts) e
  on_document-IsCurrent c (did_close file) d e = changed-IsCurrent c file none d none e

module _ {Ast : Type 0} (ops : VersionOps) (parse : Bytes → Bytes → Option Ast)
    (throws : ℕ → Cached Ast → Bool) where
  react_all-append :
      (xs ys : List Input) (s : System Ast)
      → react_all ops parse throws (xs ++ ys) s
        ≡ react_all ops parse throws ys (react_all ops parse throws xs s)
  unfolding react_all
  react_all-append [] ys s = refl
  react_all-append (x ∷ xs) ys s = react_all-append xs ys (react ops parse throws x s)

  -- The tree is the parse of the text that its file had after some of the inputs.
  abbrev pub WasText : List Input → Cached Ast → Type 0
  WasText inputs tree =
      (before : List Input) × (after : List Input) × (text : Bytes) × (inputs ≡ before ++ after)
      × (view (react_all ops parse throws before started).documents tree.path ≡ some text)
      × (parse text tree.path ≡ some tree.ast)

  module _ (inputs : List Input) where
    abbrev Sound : Manager Ast → Type 0
    Sound m = IsMade parse throws (WasText inputs) m

    post-Sound :
        (d : Documents) (before after : List Input) (ts : List ParseTask) (m : Manager Ast)
        → inputs ≡ before ++ after
        → d ≡ (react_all ops parse throws before started).documents
        → All (IsCurrent ops d) ts
        → Sound m
        → Sound (post ops parse throws ts m)
    unfolding post
    post-Sound d before after [] m e f h k = k
    post-Sound d before after (t ∷ ts) m e f (h, hs) k =
        post-Sound d before after ts (step parse throws (sched_parse t.contents t.path t.version) m)
          e f hs
          (step-IsMade parse throws (WasText inputs) (sched_parse t.contents t.path t.version) m
            (λ ast p. (before, after, t.contents, e, ap (λ x. view x t.path) (sym f) ∙ h, p)) k)

    with_draft-Sound :
        (path : Bytes) (action : ℕ) (s : System Ast) (o : Option Draft)
        → Sound s.manager
        → Sound (with_draft ops parse throws path action s o).manager
    with_draft-Sound path action s none k = k
    with_draft-Sound path action s (some d) k =
        step-IsMade parse throws (WasText inputs)
          (with_ast path (value_or_zero (decode_version ops d.version)) action) s.manager tt k

    react_alive-Sound :
        (i : Input) (s : System Ast) (before after : List Input)
        → inputs ≡ before ++ after
        → react_alive ops parse throws i s ≡ react_all ops parse throws before started
        → Sound s.manager
        → Sound (react_alive ops parse throws i s).manager
    unfolding react_alive with_parse_ast AllCurrent
    react_alive-Sound (notify c n) s before after e f k =
        let d = on_document ops c n (record s.documents { scheduled = [] }) in
        post-Sound d before after d.scheduled s.manager e (ap (λ x. x.documents) f)
          (on_document-IsCurrent ops c n (record s.documents { scheduled = [] }) refl) k
    react_alive-Sound (request path action) s before after e f k =
        with_draft-Sound path action s (get_draft path s.documents.drafts) k
    react_alive-Sound (proceed n) s before after e f k =
        step-IsMade parse throws (WasText inputs) (work n) s.manager tt k

    react-Sound :
        (i : Input) (s : System Ast) (before after : List Input)
        → inputs ≡ before ++ after
        → react ops parse throws i s ≡ react_all ops parse throws before started
        → Sound s.manager
        → Sound (react ops parse throws i s).manager
    unfolding react
    react-Sound i s before after e f k = go s.manager.escaped f
      where
        go :
            (b : Bool)
            → (if b then s else react_alive ops parse throws i s)
              ≡ react_all ops parse throws before started
            → Sound (if b then s else react_alive ops parse throws i s).manager
        go true g = k
        go false g = react_alive-Sound i s before after e g k

    react_all-Sound :
        (before after : List Input) (s : System Ast)
        → inputs ≡ before ++ after
        → s ≡ react_all ops parse throws before started
        → Sound s.manager
        → Sound (react_all ops parse throws after s).manager
    unfolding react_all
    react_all-Sound before [] s e f k = k
    react_all-Sound before (i ∷ after) s e f k =
        let e2 = e ∙ sym (append_assoc before (i ∷ []) after) in
        let f2 = ap (react ops parse throws i) f ∙ sym (react_all-append before (i ∷ []) started) in
        react_all-Sound (before ++ i ∷ []) after (react ops parse throws i s) e2 f2
          (react-Sound i s (before ++ i ∷ []) after e2 f2 k)

  -- However notifications, requests and the threads of the parser interleave, whatever tree a request
  -- is answered with is the parse of a text that the file of the tree had at some time.
  pub react_all-WasText :
      (inputs : List Input)
      → All
          (Shows parse throws (WasText inputs))
          (react_all ops parse throws inputs started).manager.invocations
  unfolding react_all
  react_all-WasText inputs =
      (react_all-Sound inputs [] inputs started refl refl
        (record { cached = tt; working = tt; invoked = tt })).invoked

-- ===== src/Answers/System.antt =====
-- `withParseAST` of nixd/include/nixd/Server/Server.h, and the controller as far as documents and
-- trees go: notifications about documents, requests, and steps of the parser, in any order.
use nixd.Prelude.{ℕ, Bool, if◌then◌else◌, Option, none, some, List, [], ◌∷◌, Bytes}
use nixd.Drafts.Store.{Draft, get_draft}
use nixd.Documents.Sync.{
  VersionOps, ParseTask, Documents, Settings, Notification, decode_version, value_or_zero,
  on_document,
}
use nixd.Trees.Manager.{Cached, Manager, with_ast, sched_parse, work, start, step}

-- `refused` are the requests that were answered with an error.
pub record System (Ast : Type 0) : Type 0 where
  pub documents : Documents
  pub manager : Manager Ast
  pub refused : List ℕ

-- A request is the path that it is about and its action.
pub data Input : Type 0 where
  notify : Settings → Notification → Input
  request : Bytes → ℕ → Input
  proceed : ℕ → Input

abbrev pub no_documents : Documents
no_documents = record {
  drafts = [];
  published = [];
  scheduled = [];
  workspace_version = 1;
  eval_workers = [];
}

module _ {Ast : Type 0} where
  abbrev pub started : System Ast
  started = record { documents = no_documents; manager = start; refused = [] }

module _ {Ast : Type 0} (ops : VersionOps) (parse : Bytes → Bytes → Option Ast)
    (throws : ℕ → Cached Ast → Bool) where
  -- The calls of `schedParse` that a notification makes.
  unfoldable pub post : List ParseTask → Manager Ast → Manager Ast
  post [] m = m
  post (t ∷ ts) m = post ts (step parse throws (sched_parse t.contents t.path t.version) m)

  abbrev pub posted : Documents → System Ast → System Ast
  posted d s = record s { documents = d; manager = post d.scheduled s.manager }

  -- `withParseAST`, of the draft of the path.
  abbrev pub with_draft : Bytes → ℕ → System Ast → Option Draft → System Ast
  with_draft path action s none = record s { refused = action ∷ s.refused }
  with_draft path action s (some d) = record s {
    manager =
        step parse throws (with_ast path (value_or_zero (decode_version ops d.version)) action)
          s.manager;
  }

  unfoldable pub with_parse_ast : Bytes → ℕ → System Ast → System Ast
  with_parse_ast path action s = with_draft path action s (get_draft path s.documents.drafts)

  unfoldable pub react_alive : Input → System Ast → System Ast
  react_alive (notify c n) s =
      posted (on_document ops c n (record s.documents { scheduled = [] })) s
  react_alive (request path action) s = with_parse_ast path action s
  react_alive (proceed n) s = record s { manager = step parse throws (work n) s.manager }

  -- `withParseAST` is `noexcept`: an exception that leaves `withAST` ends the process.
  unfoldable pub react : Input → System Ast → System Ast
  react i s = let next = react_alive i s in if s.manager.escaped then s else next

  unfoldable pub react_all : List Input → System Ast → System Ast
  react_all [] s = s
  react_all (i ∷ is) s = react_all is (react i s)

-- ===== src/Answers/Tests.antt =====
-- A document is opened, asked about, changed, and asked about again.
use nixd.Prelude.{
  ℕ, Bool, some, List, [], ◌∷◌, Option, Bytes, codes, pos, true, false, ◌≡◌, refl, All,
}
use nixd.Documents.Sample.{unary_ops}
use nixd.Documents.Sync.{
  Settings, did_open, on_document, add_document, update_workspace_version, fork_worker,
}
use nixd.Drafts.Store.{get_draft, add_draft, set_draft}
use nixd.Trees.Manager.{
  Cached, run_task, step, called_actions, skipped_actions, any_throws, take_task,
  check_cache_and_invoke, check_cache, find_cached, put_cached, invoke_actions, equal_range,
  without,
}
use nixd.Trees.Origin.{Shows}
use nixd.Answers.System.{
  Input, notify, request, proceed, started, post, with_parse_ast, react_alive, react, react_all,
}
use nixd.Answers.Parsed.{WasText, react_all-WasText}

-- A tree is the text.
abbrev text_parse : Bytes → Bytes → Option Bytes
text_parse text path = some text

-- No action throws.
abbrev calm : ℕ → Cached Bytes → Bool
calm action tree = false

abbrev two : Settings
two = record { workers = pos 2; wait_worker = false; forks = true; now = 7 }

abbrev session : List Input
session =
    request (codes "/a") 1
    ∷ notify two (did_open (codes "/a") (codes "x") (some (pos 1)))
    ∷ proceed 0
    ∷ request (codes "/a") 2
    ∷ proceed 0
    ∷ proceed 0
    ∷ proceed 0
    ∷ []

-- The first request comes before the document, and is refused; the second is answered.
session_run :
    ((react_all unary_ops text_parse calm session started).refused ≡ 1 ∷ [])
    × ((react_all unary_ops text_parse calm session started).manager.invocations
        ≡ record {
          action = 2;
          tree = record { path = codes "/a"; ast = codes "x"; version = pos 1 };
        }
          ∷ [])
unfolding react_all react react_alive with_parse_ast post on_document add_document
    update_workspace_version fork_worker get_draft add_draft set_draft step run_task take_task
    check_cache_and_invoke check_cache find_cached put_cached invoke_actions called_actions
    skipped_actions any_throws equal_range without
session_run = (refl, refl)

-- An action that throws at once ends the process: the next request is not answered at all.
abbrev angry : ℕ → Cached Bytes → Bool
angry action tree = true

abbrev ended : List Input
ended =
    notify two (did_open (codes "/a") (codes "x") (some (pos 1)))
    ∷ proceed 0
    ∷ proceed 0
    ∷ proceed 0
    ∷ request (codes "/a") 2
    ∷ proceed 0
    ∷ request (codes "/b") 3
    ∷ []

ended_run :
    ((react_all unary_ops text_parse angry ended started).manager.escaped ≡ true)
    × ((react_all unary_ops text_parse angry ended started).refused ≡ [])
unfolding react_all react react_alive with_parse_ast post on_document add_document
    update_workspace_version fork_worker get_draft add_draft set_draft step run_task take_task
    check_cache_and_invoke check_cache find_cached put_cached invoke_actions called_actions
    skipped_actions any_throws equal_range without
ended_run = (refl, refl)

react_all-WasText_example :
    All
      (Shows text_parse calm (WasText unary_ops text_parse calm session))
      (react_all unary_ops text_parse calm session started).manager.invocations
react_all-WasText_example = react_all-WasText unary_ops text_parse calm session

-- ===== src/Trees/Tests.antt =====
-- Interleavings of requests and parses.
use nixd.Prelude.{
  ℕ, ◌+◌, Bool, false, ap, ◌&&◌, ◌==◌, Option, none, some, List, [], ◌∷◌, Bytes, bytes_eq,
  bytes_eq_iff, codes, pos, ◌≡◌, refl, All, both,
}
use nixd.Trees.Manager.{
  Cached, asked, Manager, Event, with_ast, sched_parse, work, start, run, step, run_task, take_task,
  check_cache_and_invoke, check_cache, find_cached, put_cached, invoke_actions, called_actions,
  skipped_actions, any_throws, equal_range, without,
}
use nixd.Trees.Origin.{Shows, IsParsed, invocations-IsParsed}
use nixd.Trees.Actions.{Test, waiting, asked_for, invoked, fates, run-fates}
use nixd.Trees.Served.{sched_parse-serves}
use nixd.Trees.Waiting.{IsFor}

-- A tree is the text; an empty text does not parse.
abbrev text_parse : Bytes → Bytes → Option Bytes
text_parse [] path = none
text_parse (c ∷ cs) path = some (c ∷ cs)

abbrev tree : Bytes → ℕ → Cached Bytes
tree text version = record { path = codes "/a"; ast = text; version = pos version }

-- Each action throws that is invoked with a tree of one of the files.
abbrev throws_on_b : ℕ → Cached Bytes → Bool
throws_on_b action t = bytes_eq t.path (codes "/b")

-- One request, one parse: the action waits for the parse.
abbrev served : List Event
served =
    with_ast (codes "/a") (pos 1) 5
    ∷ sched_parse (codes "x") (codes "/a") (pos 1)
    ∷ work 0
    ∷ work 0
    ∷ work 0
    ∷ work 0
    ∷ []

served-run : run text_parse throws_on_b served start ≡ record {
  actions = [];
  cache = tree (codes "x") 1 ∷ [];
  tasks = [];
  invocations = record { action = 5; tree = tree (codes "x") 1 } ∷ [];
  lost = [];
  escaped = false;
}
unfolding run step run_task take_task check_cache_and_invoke check_cache find_cached put_cached
    invoke_actions called_actions skipped_actions any_throws equal_range without
served-run = refl

-- Two parses, the later version done first: the cache goes back to the earlier version, and an
-- action that asks for the later version is invoked with the earlier one.
abbrev crossed : List Event
crossed =
    sched_parse (codes "x") (codes "/a") (pos 1)
    ∷ work 0
    ∷ sched_parse (codes "y") (codes "/a") (pos 2)
    ∷ with_ast (codes "/a") (pos 2) 5
    ∷ work 0
    ∷ work 0
    ∷ work 2
    ∷ work 2
    ∷ work 1
    ∷ work 0
    ∷ []

crossed-run :
    ((run text_parse throws_on_b crossed start).invocations
      ≡ record { action = 5; tree = tree (codes "x") 1 } ∷ [])
    × ((run text_parse throws_on_b crossed start).tasks ≡ [])
    × ((run text_parse throws_on_b crossed start).cache ≡ tree (codes "x") 1 ∷ [])
unfolding run step run_task take_task check_cache_and_invoke check_cache find_cached put_cached
    invoke_actions called_actions skipped_actions any_throws equal_range without
crossed-run = (refl, refl, refl)

-- Two actions wait for a file whose actions throw: the first one is called, the second is lost, and
-- the cache is not updated.
abbrev thrown : List Event
thrown =
    with_ast (codes "/b") (pos 1) 5
    ∷ with_ast (codes "/b") (pos 1) 6
    ∷ sched_parse (codes "x") (codes "/b") (pos 1)
    ∷ work 2
    ∷ work 2
    ∷ []

abbrev b_tree : Cached Bytes
b_tree = record { path = codes "/b"; ast = codes "x"; version = pos 1 }

thrown-run : run text_parse throws_on_b thrown start ≡ record {
  actions = [];
  cache = [];
  tasks = asked (codes "/b") (pos 1) ∷ asked (codes "/b") (pos 1) ∷ [];
  invocations = record { action = 5; tree = b_tree } ∷ [];
  lost = record { path = codes "/b"; action = 6 } ∷ [];
  escaped = false;
}
unfolding run step run_task take_task check_cache_and_invoke check_cache find_cached put_cached
    invoke_actions called_actions skipped_actions any_throws equal_range without
thrown-run = refl

invocations-IsParsed_example :
    All
      (Shows text_parse throws_on_b (IsParsed text_parse served))
      (run text_parse throws_on_b served start).invocations
invocations-IsParsed_example = invocations-IsParsed text_parse throws_on_b served

abbrev is_five : Test
is_five path action = bytes_eq path (codes "/a") && (action == 5)

run-fates_example :
    fates is_five (run text_parse throws_on_b served start)
    ≡ asked_for is_five served + fates {Ast = Bytes} is_five start
run-fates_example = run-fates text_parse throws_on_b is_five served start

five-IsFor : IsFor (codes "/a") is_five
five-IsFor q a h = (bytes_eq_iff q (codes "/a")).0 (both (bytes_eq q (codes "/a")) (a == 5) h).0

-- An action that waits.
abbrev one_waits : Manager Bytes
one_waits = record {
  actions = record { path = codes "/a"; action = 5 } ∷ [];
  cache = [];
  tasks = [];
  invocations = [];
  lost = [];
  escaped = false;
}

abbrev three_steps : List Event
three_steps = work 0 ∷ work 0 ∷ work 0 ∷ []

three_steps-run :
    (run text_parse throws_on_b
      (sched_parse (codes "x") (codes "/a") (pos 1) ∷ three_steps)
      one_waits).tasks
    ≡ []
unfolding run step run_task take_task check_cache_and_invoke check_cache find_cached put_cached
    invoke_actions called_actions skipped_actions any_throws equal_range without
three_steps-run = refl

quiet_on_a : (a : ℕ) (t : Cached Bytes) → t.path ≡ codes "/a" → throws_on_b a t ≡ false
quiet_on_a a t e = ap (λ (q : Bytes). bytes_eq q (codes "/b")) e

sched_parse-serves_example :
    invoked is_five
      (run text_parse throws_on_b
        (sched_parse (codes "x") (codes "/a") (pos 1) ∷ three_steps)
        one_waits).invocations
    ≡ waiting is_five one_waits.actions + invoked is_five one_waits.invocations
sched_parse-serves_example =
    sched_parse-serves throws_on_b (codes "/a") is_five five-IsFor text_parse quiet_on_a (codes "x")
      (pos 1) (codes "x") three_steps one_waits refl refl three_steps-run

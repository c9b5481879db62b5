-- ===== src/Trees/Manager.antt =====
-- `ASTManager` of nixd/lib/Server/ASTManager.cpp. The threads of the pool and the callers of
-- `withAST` interleave: what each does between two takings of a lock is one task here, and an event
-- is a call from outside or a step of any task. An action is known by a number; that the actions may
-- throw is a parameter.
use nixd.Prelude.{
  ℕ, zero, suc, Bool, false, Option, none, some, List, [], ◌∷◌, ◌++◌, Bytes, bytes_eq, ℤ, int_lt,
  ◌||◌, if◌then◌else◌,
}

-- A tree with the path and version that it was made for.
pub record Cached (Ast : Type 0) : Type 0 where
  pub path : Bytes
  pub ast : Ast
  pub version : ℤ

-- What is left to do: the check of `withAST`; a task of `schedParse`, before the check, before
-- `invokeActions`, and before it updates the cache.
pub data Task (Ast : Type 0) : Type 0 where
  asked : Bytes → ℤ → Task Ast
  posted : Bytes → Bytes → ℤ → Task Ast
  parsed : Cached Ast → Task Ast
  shown : Cached Ast → Task Ast

pub record Waiting : Type 0 where
  pub path : Bytes
  pub action : ℕ

-- The call `Act(AST, Version)`, with the path that the action waited for.
pub record Invocation (Ast : Type 0) : Type 0 where
  pub action : ℕ
  pub tree : Cached Ast

-- `lost` are the actions that were taken to be invoked, and were not since one before them threw;
-- `escaped` is that an exception has left `withAST`.
pub record Manager (Ast : Type 0) : Type 0 where
  pub actions : List Waiting
  pub cache : List (Cached Ast)
  pub tasks : List (Task Ast)
  pub invocations : List (Invocation Ast)
  pub lost : List Waiting
  pub escaped : Bool

pub data Event : Type 0 where
  with_ast : Bytes → ℤ → ℕ → Event
  sched_parse : Bytes → Bytes → ℤ → Event
  work : ℕ → Event

-- `Actions.equal_range(Path)`, and what `erase` leaves.
unfoldable pub equal_range : Bytes → List Waiting → List ℕ
equal_range path [] = []
equal_range path (w ∷ ws) =
    let rest = equal_range path ws in if bytes_eq w.path path then w.action ∷ rest else rest

unfoldable pub without : Bytes → List Waiting → List Waiting
without path [] = []
without path (w ∷ ws) =
    let rest = without path ws in if bytes_eq w.path path then rest else w ∷ rest

abbrev pub waiting_for : Bytes → List ℕ → List Waiting
waiting_for path [] = []
waiting_for path (a ∷ acts) = record { path = path; action = a } ∷ waiting_for path acts

module _ {Ast : Type 0} where
  abbrev pub start : Manager Ast
  start = record {
    actions = [];
    cache = [];
    tasks = [];
    invocations = [];
    lost = [];
    escaped = false;
  }

  abbrev pub invoked_with : Cached Ast → List ℕ → List (Invocation Ast)
  invoked_with tree [] = []
  invoked_with tree (a ∷ acts) = record { action = a; tree = tree } ∷ invoked_with tree acts

  -- `ASTCache.at(Path)`, and `ASTCache[Path] = ...`.
  unfoldable pub find_cached : Bytes → List (Cached Ast) → Option (Cached Ast)
  find_cached path [] = none
  find_cached path (c ∷ cs) =
      let rest = find_cached path cs in if bytes_eq c.path path then some c else rest

  unfoldable pub put_cached : Cached Ast → List (Cached Ast) → List (Cached Ast)
  put_cached tree [] = tree ∷ []
  put_cached tree (c ∷ cs) =
      let rest = put_cached tree cs in if bytes_eq c.path tree.path then tree ∷ cs else c ∷ rest

  abbrev pub new_enough : ℤ → Option (Cached Ast) → Option (Cached Ast)
  new_enough version none = none
  new_enough version (some c) = if int_lt c.version version then none else some c

  -- `CheckCache`.
  unfoldable pub check_cache : Bytes → ℤ → List (Cached Ast) → Option (Cached Ast)
  check_cache path version cache = new_enough version (find_cached path cache)

  -- A parse that throws leaves nothing to do.
  abbrev pub after_parse : Bytes → ℤ → Option Ast → List (Task Ast)
  after_parse path version none = []
  after_parse path version (some ast) =
      parsed (record { path = path; ast = ast; version = version }) ∷ []

  -- What follows `checkCacheAndInvoke`, which tells whether it has invoked the actions, and then
  -- whether one of them threw: where it has, the task of `schedParse` returns, or catches.
  abbrev pub unless_invoked :
      List (Task Ast) → Option Bool × Manager Ast → List (Task Ast) × Manager Ast
  unless_invoked next (none, m) = (next, m)
  unless_invoked next (some threw, m) = ([], m)

  -- Nothing catches in `withAST`.
  abbrev pub escape : Option Bool × Manager Ast → Manager Ast
  escape (none, m) = m
  escape (some threw, m) = record m { escaped = m.escaped || threw }

  abbrev pub then_do : List (Task Ast) → Manager Ast → Manager Ast
  then_do next m = record m { tasks = m.tasks ++ next }

  abbrev pub add_tasks : List (Task Ast) × Manager Ast → Manager Ast
  add_tasks (next, m) = then_do next m

  -- The n-th task, and the others.
  abbrev pub others :
      Task Ast → Option (Task Ast × List (Task Ast)) → Option (Task Ast × List (Task Ast))
  others t none = none
  others t (some (u, us)) = some (u, t ∷ us)

  unfoldable pub take_task : ℕ → List (Task Ast) → Option (Task Ast × List (Task Ast))
  take_task n [] = none
  take_task zero (t ∷ ts) = some (t, ts)
  take_task (suc n) (t ∷ ts) = others t (take_task n ts)

module _ {Ast : Type 0} (throws : ℕ → Cached Ast → Bool) where
  -- The actions that are called, up to one that throws, and those behind it.
  unfoldable pub called_actions : Cached Ast → List ℕ → List ℕ
  called_actions tree [] = []
  called_actions tree (a ∷ acts) =
      let rest = called_actions tree acts in a ∷ (if throws a tree then [] else rest)

  unfoldable pub skipped_actions : Cached Ast → List ℕ → List ℕ
  skipped_actions tree [] = []
  skipped_actions tree (a ∷ acts) =
      let rest = skipped_actions tree acts in if throws a tree then acts else rest

  unfoldable pub any_throws : Cached Ast → List ℕ → Bool
  any_throws tree [] = false
  any_throws tree (a ∷ acts) = throws a tree || any_throws tree acts

  -- All are erased, and called until one throws: whether one has.
  unfoldable pub invoke_actions : Cached Ast → Manager Ast → Bool × Manager Ast
  invoke_actions tree m =
      let acts = equal_range tree.path m.actions in
      (
        any_throws tree acts,
        record m {
          actions = without tree.path m.actions;
          invocations = m.invocations ++ invoked_with tree (called_actions tree acts);
          lost = m.lost ++ waiting_for tree.path (skipped_actions tree acts);
        },
      )

  abbrev pub if_cached : Manager Ast → Option (Cached Ast) → Option Bool × Manager Ast
  if_cached m none = (none, m)
  if_cached m (some tree) = (some (invoke_actions tree m).0, (invoke_actions tree m).1)

  -- `checkCacheAndInvoke`.
  unfoldable pub check_cache_and_invoke : Bytes → ℤ → Manager Ast → Option Bool × Manager Ast
  check_cache_and_invoke path version m = if_cached m (check_cache path version m.cache)

module _ {Ast : Type 0} (parse : Bytes → Bytes → Option Ast) (throws : ℕ → Cached Ast → Bool) where
  -- One step of a task: the tasks that follow it. After an exception the cache is not updated.
  unfoldable pub run_task : Task Ast → Manager Ast → List (Task Ast) × Manager Ast
  run_task (asked path version) m = ([], escape (check_cache_and_invoke throws path version m))
  run_task (posted content path version) m =
      unless_invoked (after_parse path version (parse content path))
        (check_cache_and_invoke throws path version m)
  run_task (parsed tree) m =
      let (threw, after) = invoke_actions throws tree m in
      (if threw then [] else shown tree ∷ [], after)
  run_task (shown tree) m = ([], record m { cache = put_cached tree m.cache })

  abbrev pub run_taken : Manager Ast → Option (Task Ast × List (Task Ast)) → Manager Ast
  run_taken m none = m
  run_taken m (some (t, ts)) = add_tasks (run_task t (record m { tasks = ts }))

  -- `withAST` and `schedParse`, and a step of the n-th task.
  unfoldable pub step : Event → Manager Ast → Manager Ast
  step (with_ast path version action) m =
      then_do (asked path version ∷ [])
        (record m { actions = m.actions ++ record { path = path; action = action } ∷ [] })
  step (sched_parse content path version) m = then_do (posted content path version ∷ []) m
  step (work n) m = run_taken m (take_task n m.tasks)

  unfoldable pub run : List Event → Manager Ast → Manager Ast
  run [] m = m
  run (e ∷ es) m = run es (step e m)

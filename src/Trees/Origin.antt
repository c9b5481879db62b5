-- ===== src/Trees/Origin.antt =====
-- Where the trees come from that the actions are invoked with.
use nixd.Prelude.{
  ℕ, zero, suc, Bool, true, false, Option, none, some, List, [], ◌∷◌, ◌++◌, Bytes, bytes_eq, ℤ,
  int_lt, if◌then◌else◌, ◌≡◌, refl, All, All-append, inl, inr, ◌⊎◌,
}
use nixd.Trees.Manager.{
  Cached, Task, asked, posted, parsed, shown, Invocation, Manager, Event, with_ast, sched_parse,
  work, start, invoke_actions, called_actions, escape, invoked_with, equal_range, find_cached,
  put_cached, check_cache, new_enough, check_cache_and_invoke, if_cached, after_parse,
  unless_invoked, add_tasks, then_do, others, take_task, run_task, run_taken, step, run,
}

unfoldable pub Occurs : Event → List Event → Type 0
Occurs e [] = ⊥
Occurs e (f ∷ es) = (f ≡ e) ⊎ Occurs e es

All-Occurs : (P : Event → Type 0) (es : List Event) → ((e : Event) → Occurs e es → P e) → All P es
unfolding Occurs
All-Occurs P [] h = tt
All-Occurs P (e ∷ es) h = (h e (inl refl), All-Occurs P es (λ f o. h f (inr o)))

module _ {Ast : Type 0} where
  abbrev pub AllTaken : (Task Ast → Type 0) → Option (Task Ast × List (Task Ast)) → Type 0
  AllTaken P none = Unit
  AllTaken P (some (t, ts)) = P t × All P ts

  AllTaken-others :
      (P : Task Ast → Type 0) (t : Task Ast) (o : Option (Task Ast × List (Task Ast)))
      → P t
      → AllTaken P o
      → AllTaken P (others t o)
  AllTaken-others P t none h k = tt
  AllTaken-others P t (some (u, us)) h (k, ks) = (k, (h, ks))

  pub AllTaken-take_task :
      (P : Task Ast → Type 0) (n : ℕ) (ts : List (Task Ast))
      → All P ts
      → AllTaken P (take_task n ts)
  unfolding take_task
  AllTaken-take_task P n [] h = tt
  AllTaken-take_task P zero (t ∷ ts) h = h
  AllTaken-take_task P (suc n) (t ∷ ts) (h, hs) =
      AllTaken-others P t (take_task n ts) h (AllTaken-take_task P n ts hs)

module _ {Ast : Type 0} (parse : Bytes → Bytes → Option Ast) (throws : ℕ → Cached Ast → Bool)
    (Made : Cached Ast → Type 0) where
  -- What a parse of the contents would give.
  abbrev pub Makes : Bytes → Bytes → ℤ → Type 0
  Makes content path version =
      (ast : Ast)
      → parse content path ≡ some ast
      → Made (record { path = path; ast = ast; version = version })

  abbrev pub MakesOnly : Event → Type 0
  MakesOnly (with_ast path version action) = Unit
  MakesOnly (sched_parse content path version) = Makes content path version
  MakesOnly (work n) = Unit

  abbrev Works : Task Ast → Type 0
  Works (asked path version) = Unit
  Works (posted content path version) = Makes content path version
  Works (parsed tree) = Made tree
  Works (shown tree) = Made tree

  abbrev pub Shows : Invocation Ast → Type 0
  Shows i = Made i.tree

  pub record IsMade (m : Manager Ast) : Type 0 where
    pub cached : All Made m.cache
    pub working : All Works m.tasks
    pub invoked : All Shows m.invocations

  abbrev MadeIf : Option (Cached Ast) → Type 0
  MadeIf none = Unit
  MadeIf (some tree) = Made tree

  MadeIf-find_cached :
      (path : Bytes) (cs : List (Cached Ast)) → All Made cs → MadeIf (find_cached path cs)
  unfolding find_cached
  MadeIf-find_cached path [] h = tt
  MadeIf-find_cached path (c ∷ cs) (h, hs) =
      go (bytes_eq c.path path) (MadeIf-find_cached path cs hs)
    where
      go :
          (b : Bool)
          → MadeIf (find_cached path cs)
          → MadeIf (if b then some c else find_cached path cs)
      go true k = h
      go false k = k

  MadeIf-new_enough :
      (version : ℤ) (o : Option (Cached Ast)) → MadeIf o → MadeIf (new_enough version o)
  MadeIf-new_enough version none h = tt
  MadeIf-new_enough version (some c) h = go (int_lt c.version version)
    where
      go : (b : Bool) → MadeIf (if b then none else some c)
      go true = tt
      go false = h

  put_cached-Made :
      (tree : Cached Ast) (cs : List (Cached Ast))
      → Made tree
      → All Made cs
      → All Made (put_cached tree cs)
  unfolding put_cached
  put_cached-Made tree [] h k = (h, tt)
  put_cached-Made tree (c ∷ cs) h (k, ks) =
      go (bytes_eq c.path tree.path) (put_cached-Made tree cs h ks)
    where
      go :
          (b : Bool)
          → All Made (put_cached tree cs)
          → All Made (if b then tree ∷ cs else c ∷ put_cached tree cs)
      go true r = (h, ks)
      go false r = (k, r)

  invoked_with-Shows :
      (tree : Cached Ast) (acts : List ℕ) → Made tree → All Shows (invoked_with tree acts)
  invoked_with-Shows tree [] h = tt
  invoked_with-Shows tree (a ∷ acts) h = (h, invoked_with-Shows tree acts h)

  invoke_actions-IsMade :
      (tree : Cached Ast) (m : Manager Ast)
      → Made tree
      → IsMade m
      → IsMade (invoke_actions throws tree m).1
  unfolding invoke_actions
  invoke_actions-IsMade tree m h k = record {
    cached = k.cached;
    working = k.working;
    invoked =
        All-append Shows m.invocations _ k.invoked (
          invoked_with-Shows tree (called_actions throws tree (equal_range tree.path m.actions)) h);
  }

  if_cached-IsMade :
      (m : Manager Ast) (o : Option (Cached Ast))
      → MadeIf o
      → IsMade m
      → IsMade (escape (if_cached throws m o))
  if_cached-IsMade m none h k = k
  if_cached-IsMade m (some tree) h k =
      let r = invoke_actions-IsMade tree m h k in
      record { cached = r.cached; working = r.working; invoked = r.invoked }

  check_cache-MadeIf :
      (path : Bytes) (version : ℤ) (m : Manager Ast)
      → IsMade m
      → MadeIf (check_cache path version m.cache)
  unfolding check_cache
  check_cache-MadeIf path version m k =
      MadeIf-new_enough version (find_cached path m.cache)
        (MadeIf-find_cached path m.cache k.cached)

  then_do-IsMade :
      (next : List (Task Ast)) (m : Manager Ast)
      → All Works next
      → IsMade m
      → IsMade (then_do next m)
  then_do-IsMade next m h k = record {
    cached = k.cached;
    working = All-append Works m.tasks next k.working h;
    invoked = k.invoked;
  }

  after_parse-Works :
      (content path : Bytes) (version : ℤ) (o : Option Ast)
      → parse content path ≡ o
      → Makes content path version
      → All Works (after_parse path version o)
  after_parse-Works content path version none e h = tt
  after_parse-Works content path version (some ast) e h = (h ast e, tt)

  unless_invoked-IsMade :
      (next : List (Task Ast)) (m : Manager Ast) (o : Option (Cached Ast))
      → All Works next
      → MadeIf o
      → IsMade m
      → IsMade (add_tasks (unless_invoked next (if_cached throws m o)))
  unless_invoked-IsMade next m none w h k = then_do-IsMade next m w k
  unless_invoked-IsMade next m (some tree) w h k =
      then_do-IsMade [] (invoke_actions throws tree m).1 tt (invoke_actions-IsMade tree m h k)

  shown-Works :
      (threw : Bool) (tree : Cached Ast)
      → Made tree
      → All Works (if threw then [] else shown tree ∷ [])
  shown-Works true tree h = tt
  shown-Works false tree h = (h, tt)

  run_task-IsMade :
      (t : Task Ast) (m : Manager Ast)
      → Works t
      → IsMade m
      → IsMade (add_tasks (run_task parse throws t m))
  unfolding run_task check_cache_and_invoke
  run_task-IsMade (asked path version) m h k =
      let c = check_cache path version m.cache in
      then_do-IsMade [] (escape (if_cached throws m c)) tt
        (if_cached-IsMade m c (check_cache-MadeIf path version m k) k)
  run_task-IsMade (posted content path version) m h k =
      unless_invoked-IsMade (after_parse path version (parse content path)) m
        (check_cache path version m.cache)
        (after_parse-Works content path version (parse content path) refl h)
        (check_cache-MadeIf path version m k) k
  run_task-IsMade (parsed tree) m h k =
      let (threw, after) = invoke_actions throws tree m in
      then_do-IsMade (if threw then [] else shown tree ∷ []) after (shown-Works threw tree h)
        (invoke_actions-IsMade tree m h k)
  run_task-IsMade (shown tree) m h k =
      then_do-IsMade [] (record m { cache = put_cached tree m.cache }) tt
        (record {
          cached = put_cached-Made tree m.cache h k.cached;
          working = k.working;
          invoked = k.invoked;
        })

  run_taken-IsMade :
      (m : Manager Ast) (o : Option (Task Ast × List (Task Ast)))
      → AllTaken Works o
      → IsMade m
      → IsMade (run_taken parse throws m o)
  run_taken-IsMade m none h k = k
  run_taken-IsMade m (some (t, ts)) (h, hs) k =
      run_task-IsMade t (record m { tasks = ts }) h
        (record { cached = k.cached; working = hs; invoked = k.invoked })

  pub step-IsMade :
      (e : Event) (m : Manager Ast) → MakesOnly e → IsMade m → IsMade (step parse throws e m)
  unfolding step
  step-IsMade (with_ast path version action) m h k =
      then_do-IsMade (asked path version ∷ [])
        (record m { actions = m.actions ++ record { path = path; action = action } ∷ [] }) (tt, tt)
        (record { cached = k.cached; working = k.working; invoked = k.invoked })
  step-IsMade (sched_parse content path version) m h k =
      then_do-IsMade (posted content path version ∷ []) m (h, tt) k
  step-IsMade (work n) m h k =
      run_taken-IsMade m (take_task n m.tasks) (AllTaken-take_task Works n m.tasks k.working) k

  run-IsMade :
      (es : List Event) (m : Manager Ast)
      → All MakesOnly es
      → IsMade m
      → IsMade (run parse throws es m)
  unfolding run
  run-IsMade [] m h k = k
  run-IsMade (e ∷ es) m (h, hs) k = run-IsMade es (step parse throws e m) hs (step-IsMade e m h k)

module _ {Ast : Type 0} (parse : Bytes → Bytes → Option Ast) where
  -- The tree is the parse of contents that were scheduled for its path with its version.
  abbrev pub IsParsed : List Event → Cached Ast → Type 0
  IsParsed es tree =
      (content : Bytes) × Occurs (sched_parse content tree.path tree.version) es
      × (parse content tree.path ≡ some tree.ast)

module _ {Ast : Type 0} (parse : Bytes → Bytes → Option Ast) (throws : ℕ → Cached Ast → Bool) where
  Occurs-MakesOnly :
      (es : List Event) (e : Event) → Occurs e es → MakesOnly parse throws (IsParsed parse es) e
  Occurs-MakesOnly es (with_ast path version action) o = tt
  Occurs-MakesOnly es (sched_parse content path version) o = λ ast e. (content, o, e)
  Occurs-MakesOnly es (work n) o = tt

  -- However the threads interleave, each action is invoked with a tree that is the parse of contents
  -- scheduled for the path of the tree, with the version that they were scheduled with.
  pub invocations-IsParsed :
      (es : List Event)
      → All (Shows parse throws (IsParsed parse es)) (run parse throws es start).invocations
  invocations-IsParsed es =
      (run-IsMade parse throws (IsParsed parse es) es start
        (All-Occurs (MakesOnly parse throws (IsParsed parse es)) es (Occurs-MakesOnly es))
        (record { cached = tt; working = tt; invoked = tt })).invoked

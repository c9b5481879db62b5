-- ===== src/Trees/Actions.antt =====
-- What becomes of the actions: each waits until it is invoked, or lost.
use nixd.Prelude.{
  ℕ, ◌+◌, Bool, Option, none, some, List, [], ◌∷◌, ◌++◌, Bytes, bytes_eq, bytes_eq_iff,
  if◌then◌else◌, ◌≡◌, refl, ap, Bool-cases, inl, inr, arith,
}
use nixd.Trees.Manager.{
  Cached, Task, asked, posted, parsed, shown, Waiting, Invocation, Manager, Event, with_ast,
  sched_parse, work, invoke_actions, invoked_with, waiting_for, called_actions, skipped_actions,
  escape, equal_range, without, check_cache, check_cache_and_invoke, if_cached, after_parse,
  unless_invoked, add_tasks, take_task, run_task, run_taken, step, run,
}

-- A test of an action and the path that it is for.
abbrev pub Test : Type 0
Test = Bytes → ℕ → Bool

abbrev pub one_if : Bool → ℕ
one_if b = if b then 1 else 0

abbrev pub waiting : Test → List Waiting → ℕ
waiting test [] = 0
waiting test (w ∷ ws) = one_if (test w.path w.action) + waiting test ws

pub waiting-append :
    (test : Test) (xs ys : List Waiting)
    → waiting test (xs ++ ys) ≡ waiting test xs + waiting test ys
waiting-append test [] ys = omega arith
waiting-append test (x ∷ xs) ys = omega (arith, waiting-append test xs ys)

abbrev pub asked_for : Test → List Event → ℕ
asked_for test [] = 0
asked_for test (with_ast path version action ∷ es) = one_if (test path action) + asked_for test es
asked_for test (sched_parse content path version ∷ es) = asked_for test es
asked_for test (work n ∷ es) = asked_for test es

taken : Test → Bytes → List ℕ → ℕ
taken test path [] = 0
taken test path (a ∷ acts) = one_if (test path a) + taken test path acts

module _ {Ast : Type 0} where
  abbrev pub invoked : Test → List (Invocation Ast) → ℕ
  invoked test [] = 0
  invoked test (i ∷ is) = one_if (test i.tree.path i.action) + invoked test is

  invoked-append :
      (test : Test) (xs ys : List (Invocation Ast))
      → invoked test (xs ++ ys) ≡ invoked test xs + invoked test ys
  invoked-append test [] ys = omega arith
  invoked-append test (x ∷ xs) ys = omega (arith, invoked-append test xs ys)

  waiting-waiting_for :
      (test : Test) (tree : Cached Ast) (acts : List ℕ)
      → waiting test (waiting_for tree.path acts) ≡ invoked test (invoked_with tree acts)
  waiting-waiting_for test tree [] = refl
  waiting-waiting_for test tree (a ∷ acts) = omega (arith, waiting-waiting_for test tree acts)

  waiting-without :
      (test : Test) (tree : Cached Ast) (ws : List Waiting)
      → waiting test (without tree.path ws)
          + invoked test (invoked_with tree (equal_range tree.path ws))
        ≡ waiting test ws
  unfolding without equal_range
  waiting-without test tree [] = refl
  waiting-without test tree (w ∷ ws) = elim (Bool-cases (bytes_eq w.path tree.path)) [
    | inr q ↦ rw q (omega (arith, waiting-without test tree ws))
    | inl q ↦ rw q (
        let e : one_if (test w.path w.action) ≡ one_if (test tree.path w.action) =
          ap (λ (path : Bytes). one_if (test path w.action))
            ((bytes_eq_iff w.path tree.path).0 q) in
        omega (arith, e, waiting-without test tree ws))
  ]

  -- The actions that wait, those that were invoked and those that were lost.
  abbrev pub fates : Test → Manager Ast → ℕ
  fates test m = waiting test m.actions + invoked test m.invocations + waiting test m.lost

module _ {Ast : Type 0} (throws : ℕ → Cached Ast → Bool) where
  invoked-called_actions :
      (test : Test) (tree : Cached Ast) (acts : List ℕ)
      → invoked test (invoked_with tree (called_actions throws tree acts))
          + waiting test (waiting_for tree.path (skipped_actions throws tree acts))
        ≡ invoked test (invoked_with tree acts)
  unfolding called_actions skipped_actions
  invoked-called_actions test tree [] = refl
  invoked-called_actions test tree (a ∷ acts) = elim (Bool-cases (throws a tree)) [
    | inl t ↦ rw t (omega (arith, waiting-waiting_for test tree acts))
    | inr t ↦ rw t (omega (arith, invoked-called_actions test tree acts))
  ]

  fates-invoke_actions :
      (test : Test) (tree : Cached Ast) (m : Manager Ast)
      → fates test (invoke_actions throws tree m).1 ≡ fates test m
  unfolding invoke_actions
  fates-invoke_actions test tree m =
      let acts = equal_range tree.path m.actions in
      omega (
        arith,
        waiting-without test tree m.actions,
        invoked-called_actions test tree acts,
        invoked-append test m.invocations (invoked_with tree (called_actions throws tree acts)),
        waiting-append test m.lost (waiting_for tree.path (skipped_actions throws tree acts)),
      )

-- A count that an invocation of actions keeps.
module _ {Ast : Type 0} (parse : Bytes → Bytes → Option Ast) (throws : ℕ → Cached Ast → Bool)
    (f : List Waiting → List (Invocation Ast) → List Waiting → ℕ) where
  abbrev pub counted : Manager Ast → ℕ
  counted m = f m.actions m.invocations m.lost

  module _
      (keeps : (tree : Cached Ast) (m : Manager Ast)
        → counted (invoke_actions throws tree m).1 ≡ counted m) where
    counted-unless_invoked :
        (next : List (Task Ast)) (m : Manager Ast) (o : Option (Cached Ast))
        → counted (add_tasks (unless_invoked next (if_cached throws m o))) ≡ counted m
    counted-unless_invoked next m none = refl
    counted-unless_invoked next m (some tree) = keeps tree m

    counted-escape :
        (m : Manager Ast) (o : Option (Cached Ast))
        → counted (escape (if_cached throws m o)) ≡ counted m
    counted-escape m none = refl
    counted-escape m (some tree) = keeps tree m

    counted-run_task :
        (t : Task Ast) (m : Manager Ast)
        → counted (add_tasks (run_task parse throws t m)) ≡ counted m
    unfolding run_task check_cache_and_invoke
    counted-run_task (asked path version) m = counted-escape m (check_cache path version m.cache)
    counted-run_task (posted content path version) m =
        counted-unless_invoked (after_parse path version (parse content path)) m
          (check_cache path version m.cache)
    counted-run_task (parsed tree) m = keeps tree m
    counted-run_task (shown tree) m = refl

    pub counted-run_taken :
        (m : Manager Ast) (o : Option (Task Ast × List (Task Ast)))
        → counted (run_taken parse throws m o) ≡ counted m
    counted-run_taken m none = refl
    counted-run_taken m (some (t, ts)) = counted-run_task t (record m { tasks = ts })

module _ {Ast : Type 0} (parse : Bytes → Bytes → Option Ast) (throws : ℕ → Cached Ast → Bool) where
  -- However the threads interleave, the actions that wait, those that were invoked, each with a tree
  -- of the path that it is for, and those that were lost to one that threw before them, are those
  -- that were asked for: none has two of these fates and none has none, whatever is counted of the
  -- path and the action.
  pub run-fates :
      (test : Test) (es : List Event) (m : Manager Ast)
      → fates test (run parse throws es m) ≡ asked_for test es + fates test m
  unfolding run step
  run-fates test [] m = omega arith
  run-fates test (with_ast path version action ∷ es) m = omega (
    arith,
    run-fates test es (step parse throws (with_ast path version action) m),
    waiting-append test m.actions (record { path = path; action = action } ∷ []),
  )
  run-fates test (sched_parse content path version ∷ es) m =
      run-fates test es (step parse throws (sched_parse content path version) m)
  run-fates test (work n ∷ es) m = omega (
    arith,
    run-fates test es (step parse throws (work n) m),
    counted-run_taken parse throws (λ ws is ls. waiting test ws + invoked test is + waiting test ls)
        (fates-invoke_actions throws test) m (take_task n m.tasks),
  )

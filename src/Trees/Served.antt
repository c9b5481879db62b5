-- ===== src/Trees/Served.antt =====
-- A parse that succeeds serves the actions that wait for its path.
use nixd.Prelude.{
  ℕ, ◌+◌, Bool, false, bytes_eq, bytes_eq_iff, Bool-cases, Option, none, some, List, [], ◌∷◌, ◌++◌,
  Bytes, ℤ, ◌≡◌, refl, sym, ap, ◌∙◌, subst, inl, inr, ◌⊎◌, arith,
}
use nixd.Trees.Manager.{
  Cached, Task, asked, posted, parsed, shown, Waiting, Manager, Event, with_ast, sched_parse, work,
  invoke_actions, waiting_for, skipped_actions, equal_range, escape, without, check_cache,
  check_cache_and_invoke, if_cached, after_parse, unless_invoked, add_tasks, then_do, take_task,
  run_task, run_taken, step, run,
}
use nixd.Trees.Actions.{
  Test, one_if, waiting, waiting-append, asked_for, invoked, counted-run_taken, run-fates,
}
use nixd.Trees.Waiting.{
  IsFor, test_false, Any, Any-append_left, Any-append_last, AnyTaken, AnyTaken-take_task,
  path-check_cache, waiting-without, waiting-without_le,
}

module _ {Ast : Type 0} (throws : ℕ → Cached Ast → Bool) (path : Bytes) (test : Test)
    (only : IsFor path test) where
  waiting-invoke_actions :
      (tree : Cached Ast) (m : Manager Ast)
      → tree.path ≡ path
      → waiting test (invoke_actions throws tree m).1.actions ≡ 0
  unfolding invoke_actions
  waiting-invoke_actions tree m e =
      ap (λ q. waiting test (without q m.actions)) e ∙ waiting-without path test only m.actions

  waiting-invoke_actions_none :
      (tree : Cached Ast) (m : Manager Ast)
      → waiting test m.actions ≡ 0
      → waiting test (invoke_actions throws tree m).1.actions ≡ 0
  unfolding invoke_actions
  waiting-invoke_actions_none tree m e =
      omega (arith, e, waiting-without_le test tree.path m.actions)

  module _ (parse : Bytes → Bytes → Option Ast) where
    -- The task will invoke the actions for the path.
    abbrev Serves : Task Ast → Type 0
    Serves (asked q version) = ⊥
    Serves (posted content q version) = (q ≡ path) × (ast : Ast) × (parse content q ≡ some ast)
    Serves (parsed tree) = tree.path ≡ path
    Serves (shown tree) = ⊥

    abbrev IsServed : Manager Ast → Type 0
    IsServed m = (waiting test m.actions ≡ 0) ⊎ Any Serves m.tasks

    unless_invoked-IsServed :
        (q : Bytes) (version : ℤ) (a : Option Ast) (ast : Ast) (m : Manager Ast)
        (o : Option (Cached Ast))
        → q ≡ path
        → a ≡ some ast
        → ((tree : Cached Ast) → o ≡ some tree → tree.path ≡ q)
        → IsServed (add_tasks (unless_invoked (after_parse q version a) (if_cached throws m o)))
    unless_invoked-IsServed q version none ast m o e h k = ground arith
    unless_invoked-IsServed q version (some b) ast m none e h k =
        inr (Any-append_last Serves m.tasks _ e)
    unless_invoked-IsServed q version (some b) ast m (some tree) e h k =
        inl (waiting-invoke_actions tree m (k tree refl ∙ e))

    -- The task itself serves.
    run_task-IsServed :
        (t : Task Ast) (m : Manager Ast)
        → Serves t
        → IsServed (add_tasks (run_task parse throws t m))
    unfolding run_task check_cache_and_invoke
    run_task-IsServed (asked q version) m h = absurd h
    run_task-IsServed (posted content q version) m (e, ast, h) =
        unless_invoked-IsServed q version (parse content q) ast m (check_cache q version m.cache) e
          h (λ tree k. path-check_cache q version m.cache tree k)
    run_task-IsServed (parsed tree) m h = inl (waiting-invoke_actions tree m h)
    run_task-IsServed (shown tree) m h = absurd h

    -- What a task leaves: no more actions wait, and the other tasks stay.
    abbrev Follows : Manager Ast → Manager Ast → Type 0
    Follows m r =
        (waiting test m.actions ≡ 0 → waiting test r.actions ≡ 0)
        × ((us : List (Task Ast)) × (r.tasks ≡ m.tasks ++ us))

    if_cached-Follows :
        (next : List (Task Ast)) (m : Manager Ast) (o : Option (Cached Ast))
        → Follows m (add_tasks (unless_invoked next (if_cached throws m o)))
    unfolding invoke_actions
    if_cached-Follows next m none = (λ h. h, (next, refl))
    if_cached-Follows next m (some tree) = (waiting-invoke_actions_none tree m, ([], refl))

    run_task-Follows :
        (t : Task Ast) (m : Manager Ast) → Follows m (add_tasks (run_task parse throws t m))
    unfolding run_task check_cache_and_invoke invoke_actions
    run_task-Follows (asked q version) m = asked_follows (check_cache q version m.cache)
      where
        asked_follows :
            (o : Option (Cached Ast)) → Follows m (add_tasks ([], escape (if_cached throws m o)))
        asked_follows none = (λ h. h, ([], refl))
        asked_follows (some tree) = (waiting-invoke_actions_none tree m, ([], refl))
    run_task-Follows (posted content q version) m =
        if_cached-Follows (after_parse q version (parse content q)) m
          (check_cache q version m.cache)
    run_task-Follows (parsed tree) m = (waiting-invoke_actions_none tree m, (_, refl))
    run_task-Follows (shown tree) m = (λ h. h, ([], refl))

    Follows-IsServed : (m r : Manager Ast) → Follows m r → IsServed m → IsServed r
    Follows-IsServed m r (f, (us, e)) (inl h) = inl (f h)
    Follows-IsServed m r (f, (us, e)) (inr h) =
        inr (subst (λ ts. Any Serves ts) (sym e) (Any-append_left Serves m.tasks us h))

    run_taken-IsServed :
        (m : Manager Ast) (o : Option (Task Ast × List (Task Ast)))
        → (waiting test m.actions ≡ 0) ⊎ AnyTaken Serves m.tasks o
        → IsServed (run_taken parse throws m o)
    run_taken-IsServed m none h = h
    run_taken-IsServed m (some (t, us)) (inl h) =
        inl ((run_task-Follows t (record m { tasks = us })).0 h)
    run_taken-IsServed m (some (t, us)) (inr (inl h)) =
        run_task-IsServed t (record m { tasks = us }) h
    run_taken-IsServed m (some (t, us)) (inr (inr h)) =
        let r = record m { tasks = us } in
        Follows-IsServed r (add_tasks (run_task parse throws t r)) (run_task-Follows t r) (inr h)

    work-IsServed :
        (n : ℕ) (m : Manager Ast)
        → IsServed m
        → IsServed (run_taken parse throws m (take_task n m.tasks))
    work-IsServed n m (inl h) = run_taken-IsServed m (take_task n m.tasks) (inl h)
    work-IsServed n m (inr h) =
        run_taken-IsServed m (take_task n m.tasks) (inr (AnyTaken-take_task Serves n m.tasks h))

    more-IsServed :
        (t : Task Ast) (ws : List Waiting) (m : Manager Ast)
        → waiting test ws ≡ waiting test m.actions
        → IsServed m
        → IsServed (then_do (t ∷ []) (record m { actions = ws }))
    more-IsServed t ws m e (inl h) = inl (e ∙ h)
    more-IsServed t ws m e (inr h) = inr (Any-append_left Serves m.tasks (t ∷ []) h)

    run-IsServed :
        (es : List Event) (m : Manager Ast)
        → asked_for test es ≡ 0
        → IsServed m
        → IsServed (run parse throws es m)
    unfolding run step
    run-IsServed [] m h k = k
    run-IsServed (with_ast q version a ∷ es) m h k =
        run-IsServed es (step parse throws (with_ast q version a) m) (omega (arith, h)) (
          more-IsServed (asked q version) (m.actions ++ record { path = q; action = a } ∷ []) m
            (omega (arith, h, waiting-append test m.actions (record { path = q; action = a } ∷ [])))
            k)
    run-IsServed (sched_parse content q version ∷ es) m h k =
        run-IsServed es (step parse throws (sched_parse content q version) m) h
          (more-IsServed (posted content q version) m.actions m refl k)
    run-IsServed (work n ∷ es) m h k =
        run-IsServed es (step parse throws (work n) m) h (work-IsServed n m k)

    none_waits : (m : Manager Ast) → m.tasks ≡ [] → IsServed m → waiting test m.actions ≡ 0
    none_waits m e (inl h) = h
    none_waits m e (inr h) = absurd (subst (λ ts. Any Serves ts) e h)

    -- Nothing is lost where no action that is for the path throws.
    module _ (quiet : (a : ℕ) (tree : Cached Ast) → tree.path ≡ path → throws a tree ≡ false) where
      skipped_actions-quiet :
          (tree : Cached Ast) (acts : List ℕ)
          → tree.path ≡ path
          → skipped_actions throws tree acts ≡ []
      unfolding skipped_actions
      skipped_actions-quiet tree [] e = refl
      skipped_actions-quiet tree (a ∷ acts) e =
          rw (quiet a tree e) (skipped_actions-quiet tree acts e)

      waiting_for-other :
          (q : Bytes) (acts : List ℕ)
          → bytes_eq q path ≡ false
          → waiting test (waiting_for q acts) ≡ 0
      waiting_for-other q [] e = refl
      waiting_for-other q (a ∷ acts) e =
          omega (arith, ap one_if (test_false path test only q a e), waiting_for-other q acts e)

      lost-invoke_actions :
          (tree : Cached Ast) (m : Manager Ast)
          → waiting test (invoke_actions throws tree m).1.lost ≡ waiting test m.lost
      unfolding invoke_actions
      lost-invoke_actions tree m =
          let acts = equal_range tree.path m.actions in
          let more = waiting_for tree.path (skipped_actions throws tree acts) in
          let none_more : waiting test more ≡ 0 = elim (Bool-cases (bytes_eq tree.path path)) [
            | inl e ↦
                ap (λ (as_ : List ℕ). waiting test (waiting_for tree.path as_))
                  (skipped_actions-quiet tree acts ((bytes_eq_iff tree.path path).0 e))
            | inr e ↦ waiting_for-other tree.path (skipped_actions throws tree acts) e
          ] in
          omega (arith, waiting-append test m.lost more, none_more)

      lost-run :
          (es : List Event) (m : Manager Ast)
          → waiting test (run parse throws es m).lost ≡ waiting test m.lost
      unfolding run step
      lost-run [] m = refl
      lost-run (with_ast q version a ∷ es) m =
          lost-run es (step parse throws (with_ast q version a) m)
      lost-run (sched_parse content q version ∷ es) m =
          lost-run es (step parse throws (sched_parse content q version) m)
      lost-run (work n ∷ es) m =
          lost-run es (step parse throws (work n) m)
          ∙ counted-run_taken parse throws (λ ws is ls. waiting test ls) lost-invoke_actions m
              (take_task n m.tasks)

      -- When contents that parse are scheduled for a path, and no action throws that is invoked with
      -- a tree of the path, then once the tasks are all done, in whatever order their steps were
      -- taken, each action that waited for the path, and that is not asked for again, has been
      -- invoked.
      pub sched_parse-serves :
          (content : Bytes) (version : ℤ) (ast : Ast) (es : List Event) (m : Manager Ast)
          → parse content path ≡ some ast
          → asked_for test es ≡ 0
          → (run parse throws (sched_parse content path version ∷ es) m).tasks ≡ []
          → invoked test (run parse throws (sched_parse content path version ∷ es) m).invocations
            ≡ waiting test m.actions + invoked test m.invocations
      unfolding run step
      sched_parse-serves content version ast es m h k e =
          let r = step parse throws (sched_parse content path version) m in
          let served : IsServed r =
            inr (Any-append_last Serves m.tasks (posted content path version) (refl, ast, h)) in
          let done : waiting test (run parse throws es r).actions ≡ 0 =
            none_waits (run parse throws es r) e (run-IsServed es r k served) in
          omega (arith, run-fates parse throws test es r, k, done, lost-run es r)

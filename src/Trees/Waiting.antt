-- ===== src/Trees/Waiting.antt =====
-- The tasks of a list, the actions that wait for a path, and the path of a cached tree.
use nixd.Prelude.{
  ℕ, zero, suc, ◌≤◌, Bool, true, false, Option, none, some, List, [], ◌∷◌, ◌++◌, Bytes, bytes_eq,
  bytes_eq_iff, ℤ, int_lt, if◌then◌else◌, ◌≡◌, refl, sym, ap, ◌∙◌, Bool-cases, inl, inr, ◌⊎◌, arith,
  not_both,
}
use nixd.Trees.Manager.{
  Cached, Task, Waiting, without, find_cached, check_cache, new_enough, others, take_task,
}
use nixd.Trees.Actions.{Test, one_if, waiting}

-- The test takes only actions for the path.
abbrev pub IsFor : Bytes → Test → Type 0
IsFor path test = (q : Bytes) (a : ℕ) → test q a ≡ true → q ≡ path

module _ {Ast : Type 0} where
  module _ (P : Task Ast → Type 0) where
    abbrev pub Any : List (Task Ast) → Type 0
    Any [] = ⊥
    Any (t ∷ ts) = P t ⊎ Any ts

    pub Any-append_left : (xs ys : List (Task Ast)) → Any xs → Any (xs ++ ys)
    Any-append_left [] ys h = absurd h
    Any-append_left (x ∷ xs) ys (inl h) = inl h
    Any-append_left (x ∷ xs) ys (inr h) = inr (Any-append_left xs ys h)

    pub Any-append_last : (xs : List (Task Ast)) (t : Task Ast) → P t → Any (xs ++ t ∷ [])
    Any-append_last [] t h = inl h
    Any-append_last (x ∷ xs) t h = inr (Any-append_last xs t h)

    abbrev pub AnyTaken : List (Task Ast) → Option (Task Ast × List (Task Ast)) → Type 0
    AnyTaken ts none = Any ts
    AnyTaken ts (some (t, us)) = P t ⊎ Any us

    AnyTaken-others :
        (t : Task Ast) (ts : List (Task Ast)) (o : Option (Task Ast × List (Task Ast)))
        → P t ⊎ AnyTaken ts o
        → AnyTaken (t ∷ ts) (others t o)
    AnyTaken-others t ts none h = h
    AnyTaken-others t ts (some (u, us)) (inl h) = inr (inl h)
    AnyTaken-others t ts (some (u, us)) (inr (inl h)) = inl h
    AnyTaken-others t ts (some (u, us)) (inr (inr h)) = inr (inr h)

    pub AnyTaken-take_task : (n : ℕ) (ts : List (Task Ast)) → Any ts → AnyTaken ts (take_task n ts)
    unfolding take_task
    AnyTaken-take_task n [] h = h
    AnyTaken-take_task zero (t ∷ ts) h = h
    AnyTaken-take_task (suc n) (t ∷ ts) (inl h) = AnyTaken-others t ts (take_task n ts) (inl h)
    AnyTaken-take_task (suc n) (t ∷ ts) (inr h) =
        AnyTaken-others t ts (take_task n ts) (inr (AnyTaken-take_task n ts h))

  path-find_cached :
      (path : Bytes) (cs : List (Cached Ast)) (tree : Cached Ast)
      → find_cached path cs ≡ some tree
      → tree.path ≡ path
  unfolding find_cached
  path-find_cached path [] tree h = ground arith
  path-find_cached path (c ∷ cs) tree h =
      go (bytes_eq c.path path) refl h (path-find_cached path cs tree)
    where
      go :
          (b : Bool)
          → bytes_eq c.path path ≡ b
          → (if b then some c else find_cached path cs) ≡ some tree
          → (find_cached path cs ≡ some tree → tree.path ≡ path)
          → tree.path ≡ path
      go true q g ih =
          let same : c ≡ tree = cc in
          ap (λ (t : Cached Ast). t.path) (sym same) ∙ (bytes_eq_iff c.path path).0 q
      go false q g ih = ih g

  pub path-check_cache :
      (path : Bytes) (version : ℤ) (cs : List (Cached Ast)) (tree : Cached Ast)
      → check_cache path version cs ≡ some tree
      → tree.path ≡ path
  unfolding check_cache
  path-check_cache path version cs tree h = go (find_cached path cs) refl h
    where
      kept :
          (b : Bool) (c : Cached Ast)
          → find_cached path cs ≡ some c
          → (if b then none else some c) ≡ some tree
          → tree.path ≡ path
      kept true c e g = ground arith
      kept false c e g = path-find_cached path cs tree (e ∙ g)

      go :
          (o : Option (Cached Ast))
          → find_cached path cs ≡ o
          → new_enough version o ≡ some tree
          → tree.path ≡ path
      go none e g = ground arith
      go (some c) e g = kept (int_lt c.version version) c e g

module _ (path : Bytes) (test : Test) (only : IsFor path test) where
  pub test_false : (q : Bytes) (a : ℕ) → bytes_eq q path ≡ false → test q a ≡ false
  test_false q a h = elim (Bool-cases (test q a)) [
    | inr e ↦ e
    | inl e ↦ absurd (not_both (bytes_eq q path) ((bytes_eq_iff q path).1 (only q a e)) h)
  ]

  pub waiting-without : (ws : List Waiting) → waiting test (without path ws) ≡ 0
  unfolding without
  waiting-without [] = refl
  waiting-without (w ∷ ws) = elim (Bool-cases (bytes_eq w.path path)) [
    | inl q ↦ rw q (waiting-without ws)
    | inr q ↦ rw q (omega (arith, waiting-without ws, ap one_if (test_false w.path w.action q)))
  ]

pub waiting-without_le :
    (test : Test) (q : Bytes) (ws : List Waiting) → waiting test (without q ws) ≤ waiting test ws
unfolding without
waiting-without_le test q [] = omega arith
waiting-without_le test q (w ∷ ws) = elim (Bool-cases (bytes_eq w.path q)) [
  | inl e ↦ rw e (omega (arith, waiting-without_le test q ws))
  | inr e ↦ rw e (omega (arith, waiting-without_le test q ws))
]

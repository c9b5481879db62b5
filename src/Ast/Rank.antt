-- ===== src/Ast/Rank.antt =====
-- The order of the entries of the parent map, and the climb of `searchEnvExpr`.
use nixd.Prelude.{
  ℕ, zero, suc, ◌+◌, ◌≤◌, ◌<◌, false, none, some, List, [], ◌∷◌, ◌++◌, length, ◌==◌, if◌then◌else◌,
  All, ◌≡◌, ◌≢◌, ◌⊎◌, inl, inr, refl, sym, ap, ◌∙◌, arith, Option-cases, Bool-cases,
}
use nixd.Ast.Env.{is_env_created, not_found, no_fuel, climb, search_env_expr}
use nixd.Ast.Expr.{Ptr, Var, Expr, expr_var, ptr, children}
use nixd.Ast.Induction.{tree_induction, traverse_all, traverse-children}
use nixd.Ast.Visit.{Edge, NodeMap, at, insert, insert_all, get_parent_map, traverse}

-- The place of a key's entry, or the length of the map.
pub rank : NodeMap → Ptr → ℕ
rank [] k = 0
rank ((c, p) ∷ m) k = if ptr c == k then 0 else suc (rank m k)

abbrev pub In : NodeMap → Ptr → Type 0
In m k = rank m k < length m

pub rank-none : (m : NodeMap) (k : Ptr) → at m k ≡ none → rank m k ≡ length m
unfolding at rank
rank-none [] k h = refl
rank-none ((c, p) ∷ m) k h = ground (arith, rank-none m k)

pub In-some : (m : NodeMap) (k : Ptr) (q : Expr) → at m k ≡ some q → In m k
unfolding at rank
In-some [] k q h = cc
In-some ((c, p) ∷ m) k q h = ground (arith, In-some m k q)

rank-insert :
    (e : Edge) (m : NodeMap) (k : Ptr) → (In m k) ⊎ (k ≡ ptr e.0) → rank (insert e m) k ≡ rank m k
unfolding insert rank
rank-insert e [] k (inl h) = absurd (omega arith)
rank-insert e [] k (inr h) = ground arith
rank-insert e ((c, p) ∷ m) k h = ground (arith, rank-insert e m k)

length-insert : (e : Edge) (m : NodeMap) → length m ≤ length (insert e m)
unfolding insert
length-insert e [] = omega arith
length-insert e (f ∷ m) = ground (arith, length-insert e m)

pub at-insert :
    (e : Edge) (m : NodeMap) (k : Ptr) (q : Expr)
    → at (insert e m) k ≡ some q
    → (at m k ≡ some q) ⊎ ((at m k ≡ none) × (k ≡ ptr e.0) × (q ≡ e.1))
unfolding insert at
at-insert (c, p) [] k q h = ground arith
at-insert (c, p) ((d, r) ∷ m) k q h = ground (arith, at-insert (c, p) m k q)

In-insert : (e : Edge) (m : NodeMap) (k : Ptr) → In m k → In (insert e m) k
In-insert e m k h = omega (arith, rank-insert e m k (inl h), length-insert e m)

pub In-self : (e : Edge) (m : NodeMap) → In (insert e m) (ptr e.0)
unfolding insert rank
In-self (c, p) [] = ground arith
In-self (c, p) ((d, r) ∷ m) = ground (arith, In-self (c, p) m)

pub In-insert_all : (es : List Edge) (m : NodeMap) (k : Ptr) → In m k → In (insert_all es m) k
unfolding insert_all
In-insert_all [] m k h = h
In-insert_all (e ∷ es) m k h = In-insert_all es (insert e m) k (In-insert e m k h)

abbrev pub IsRanked : NodeMap → Type 0
IsRanked m = (k : Ptr) (q : Expr) → at m k ≡ some q → ptr q ≢ k → rank m (ptr q) < rank m k

insert-IsRanked :
    (e : Edge) (m : NodeMap)
    → IsRanked m
    → (ptr e.1 ≡ ptr e.0) ⊎ (In m (ptr e.1))
    → IsRanked (insert e m)
insert-IsRanked e m r s k q h d = elim (at-insert e m k q h) [
  | inl old ↦
      let lower = r k q old d in
      let here = In-some m k q old in
      omega (arith, rank-insert e m k (inl here), rank-insert e m (ptr q) (inl (omega arith)))
  | inr (no_entry, key, parent) ↦ elim s [
    | inl loop ↦ absurd (d (ap ptr parent ∙ loop ∙ sym key))
    | inr known ↦
        let there : In m (ptr q) = rw parent known in
        omega (
          arith,
          rank-insert e m k (inr key),
          rank-insert e m (ptr q) (inl there),
          rank-none m k no_entry,
        )
  ]
]

-- Each edge's parent is the node itself or a key that is there already.
abbrev IsSourced : NodeMap → List Edge → Type 0
IsSourced m [] = Unit
IsSourced m (e ∷ es) = ((ptr e.1 ≡ ptr e.0) ⊎ (In m (ptr e.1))) × IsSourced (insert e m) es

IsSourced-append :
    (m : NodeMap) (xs ys : List Edge)
    → IsSourced m xs
    → IsSourced (insert_all xs m) ys
    → IsSourced m (xs ++ ys)
unfolding insert_all
IsSourced-append m [] ys hx hy = hy
IsSourced-append m (x ∷ xs) ys hx hy = (hx.0, IsSourced-append (insert x m) xs ys hx.1 hy)

insert_all-IsRanked :
    (es : List Edge) (m : NodeMap) → IsRanked m → IsSourced m es → IsRanked (insert_all es m)
unfolding insert_all
insert_all-IsRanked [] m r s = r
insert_all-IsRanked (e ∷ es) m r s =
    insert_all-IsRanked es (insert e m) (insert-IsRanked e m r s.0) s.1

abbrev Sources : Expr → Type 0
Sources e = (m : NodeMap) (parent : Expr) → In m (ptr parent) → IsSourced m (traverse parent e)

Sources-All :
    (e : Expr) (cs : List Expr) (m : NodeMap)
    → In m (ptr e)
    → All Sources cs
    → IsSourced m (traverse_all e cs)
Sources-All e [] m i h = tt
Sources-All e (c ∷ cs) m i h =
    IsSourced-append m (traverse e c) (traverse_all e cs) (h.0 m e i) (
      Sources-All e cs (insert_all (traverse e c) m) (In-insert_all (traverse e c) m (ptr e) i) h.1)

sources : (e : Expr) → Sources e
sources = tree_induction Sources λ e h m parent i.
    rw traverse-children
      (inr i, Sources-All e (children e) (insert (e, parent) m) (In-self (e, parent) m) h)

pub at-nil : (k : Ptr) (q : Expr) → at [] k ≡ some q → ⊥
unfolding at
at-nil k q h = cc

All-of : {P : Expr → Type 0} → ((e : Expr) → P e) → (es : List Expr) → All P es
All-of f [] = tt
All-of f (e ∷ es) = (f e, All-of f es)

-- The map that `get_parent_map` makes is ordered.
pub get_parent_map-IsRanked : (root : Expr) → IsRanked (get_parent_map root)
unfolding get_parent_map
get_parent_map-IsRanked root =
    insert_all-IsRanked (traverse root root) [] (λ k q h d. absurd (at-nil k q h))
      (rw traverse-children (
        inl refl,
        Sources-All root (children root) (insert (root, root) []) (In-self (root, root) [])
            (All-of sources (children root)),
      ))

get_parent_map-pos : (root : Expr) → 0 < length (get_parent_map root)
unfolding get_parent_map insert_all
get_parent_map-pos root = rw traverse-children (
    omega (
      arith,
      In-insert_all (traverse_all root (children root)) (insert (root, root) []) (ptr root)
          (In-self (root, root) []),
    ))

climb_step :
    (m : NodeMap) (fuel level : ℕ) (p node : Expr)
    → (ptr p ≢ ptr node → rank m (ptr p) < rank m (ptr node))
    → rank m (ptr node) < suc fuel
    → (rank m (ptr p) < fuel → climb fuel m level p ≢ no_fuel)
    → (if ptr p == ptr node then not_found else climb fuel m level p) ≢ no_fuel
climb_step m fuel level p node r h ih = elim (Bool-cases (ptr p == ptr node)) [
  | inl e ↦ rw e (λ f. cc)
  | inr e ↦ rw e (ih (omega (arith, r (apart e))))
]
  where
    apart : (ptr p == ptr node) ≡ false → ptr p ≢ ptr node
    apart e = ground arith

climb-missing :
    (m : NodeMap) (fuel level : ℕ) (node : Expr)
    → 0 < fuel
    → at m (ptr node) ≡ none
    → climb fuel m level node ≢ no_fuel
unfolding climb
climb-missing m zero level node h e = absurd (omega arith)
climb-missing m (suc fuel) zero node h e = λ f. cc
climb-missing m (suc fuel) (suc level) node h e = rw (e, climb) (λ f. cc)

climb-total :
    (m : NodeMap) (fuel level : ℕ) (node : Expr)
    → IsRanked m
    → rank m (ptr node) < fuel
    → climb fuel m level node ≢ no_fuel
unfolding climb
climb-total m zero level node r h = absurd (omega arith)
climb-total m (suc fuel) zero node r h = λ e. cc
climb-total m (suc fuel) (suc level) node r h = elim (Option-cases (at m (ptr node))) [
  | inl e ↦ rw (e, climb) (λ f. cc)
  | inr (p, e) ↦
      rw (e, climb)
        (climb_step m fuel (if is_env_created p node then level else suc level) p node
          (r (ptr node) p e) h
          (climb-total m fuel (if is_env_created p node then level else suc level) p r))
]

-- The search for the node that binds a variable ends: the fuel, one step for each entry of the
-- parent map of a tree, never runs out, whatever variable is searched for.
pub search_env_expr-total :
    (root : Expr) (p : Ptr) (v : Var) → search_env_expr p v (get_parent_map root) ≢ no_fuel
unfolding search_env_expr
search_env_expr-total root p v = elim (Option-cases (at (get_parent_map root) p)) [
  | inl e ↦
      climb-missing (get_parent_map root) (length (get_parent_map root)) (v.level + 1)
        (expr_var p v) (get_parent_map-pos root) e
  | inr (q, e) ↦
      climb-total (get_parent_map root) (length (get_parent_map root)) (v.level + 1) (expr_var p v)
        (get_parent_map-IsRanked root) (In-some (get_parent_map root) p q e)
]

-- Two climbs that do not run out of fuel agree.
pub climb-agree :
    (m : NodeMap) (f g level : ℕ) (node : Expr)
    → climb f m level node ≢ no_fuel
    → climb g m level node ≢ no_fuel
    → climb f m level node ≡ climb g m level node
unfolding climb
climb-agree m zero zero level node h k = refl
climb-agree m zero (suc g) zero node h k = refl
climb-agree m (suc f) zero zero node h k = refl
climb-agree m (suc f) (suc g) zero node h k = refl
climb-agree m zero (suc g) (suc level) node h k = absurd (h refl)
climb-agree m (suc f) zero (suc level) node h k = absurd (k refl)
climb-agree m (suc f) (suc g) (suc level) node h k = elim (Option-cases (at m (ptr node))) [
  | inl e ↦ rw (e, climb)
  | inr (p, e) ↦ elim (Bool-cases (ptr p == ptr node)) [
    | inl same ↦ rw (e, climb, same)
    | inr other ↦
        let next = if is_env_created p node then level else suc level in
        rw (e, climb, other)
          (climb-agree m f g next p (rw (e, climb, other) at h) (rw (e, climb, other) at k))
  ]
]

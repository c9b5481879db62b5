-- ===== src/Ast/Distinct.antt =====
-- The parent map of a tree whose nodes have different addresses.
use nixd.Prelude.{
  ℕ, true, false, none, some, List, [], ◌∷◌, ◌++◌, ◌==◌, if◌then◌else◌, All, All-append,
  All-append_left, All-append_right, ◌≡◌, ◌≢◌, inl, inr, refl, sym, ◌∙◌, arith, subst, Bool-cases,
  ==_iff,
}
use nixd.Ast.Expr.{Ptr, Expr, ptr, null, expr_error, children}
use nixd.Ast.Induction.{tree_induction, traverse_all, traverse-children}
use nixd.Ast.Rank.{at-nil}
use nixd.Ast.Scope.Good.{is_null, null_of_is_null, Linked}
use nixd.Ast.Visit.{Edge, NodeMap, at, insert, insert_all, get_parent_map, traverse}

-- The addresses of the nodes that are no null pointers.
abbrev pub addresses : List Edge → List Ptr
addresses [] = []
addresses (e ∷ es) = if is_null e.0 then addresses es else ptr e.0 ∷ addresses es

-- The addresses are not 0, and no two of them are the same.
abbrev pub IsDistinct : List Ptr → Type 0
IsDistinct [] = Unit
IsDistinct (k ∷ ks) = (k ≢ 0) × All (λ j. k ≢ j) ks × IsDistinct ks

addresses-append : (xs ys : List Edge) → addresses (xs ++ ys) ≡ addresses xs ++ addresses ys
addresses-append [] ys = refl
addresses-append (x ∷ xs) ys = elim (Bool-cases (is_null x.0)) [
  | inl e ↦ rw (e, addresses-append xs ys)
  | inr e ↦ rw (e, addresses-append xs ys)
]

IsDistinct-left : (xs ys : List Ptr) → IsDistinct (xs ++ ys) → IsDistinct xs
IsDistinct-left [] ys h = tt
IsDistinct-left (x ∷ xs) ys h =
    (h.0, All-append_left (λ j. x ≢ j) xs ys h.1, IsDistinct-left xs ys h.2)

IsDistinct-right : (xs ys : List Ptr) → IsDistinct (xs ++ ys) → IsDistinct ys
IsDistinct-right [] ys h = h
IsDistinct-right (x ∷ xs) ys h = IsDistinct-right xs ys h.2

null_ptr : (e : Expr) → is_null e ≡ true → ptr e ≡ 0
null_ptr null h = refl
null_ptr (expr_error p) h = cc
null_ptr _ h = cc

abbrev AtParent : NodeMap → Edge → Type 0
AtParent m e = is_null e.0 ≡ false → at m (ptr e.0) ≡ some e.1

skip_null : (e : Edge) (es : List Edge) → is_null e.0 ≡ true → addresses (e ∷ es) ≡ addresses es
skip_null e es z = rw z

keep_node :
    (e : Edge) (es : List Edge) → is_null e.0 ≡ false → addresses (e ∷ es) ≡ ptr e.0 ∷ addresses es
keep_node e es z = rw z

IsDistinct-tail :
    (e : Edge) (es : List Edge) → IsDistinct (addresses (e ∷ es)) → IsDistinct (addresses es)
IsDistinct-tail e es d = elim (Bool-cases (is_null e.0)) [
  | inl z ↦ subst IsDistinct (skip_null e es z) d
  | inr z ↦ (subst IsDistinct (keep_node e es z) d).2
]

apart_from :
    (x e : Edge) (es : List Edge)
    → (is_null x.0 ≡ false → All (λ j. ptr x.0 ≢ j) (addresses (e ∷ es)))
    → IsDistinct (addresses (e ∷ es))
    → is_null e.0 ≡ false
    → ptr x.0 ≢ ptr e.0
apart_from x e es f d z = elim (Bool-cases (is_null x.0)) [
  | inl n ↦
      let zero_x = null_ptr x.0 n in
      let nonzero = (subst IsDistinct (keep_node e es z) d).0 in λ same. nonzero (sym same ∙ zero_x)
  | inr n ↦ (subst (All (λ j. ptr x.0 ≢ j)) (keep_node e es z) (f n)).0
]

All-tail :
    (x e : Edge) (es : List Edge)
    → All (λ j. ptr x.0 ≢ j) (addresses (e ∷ es))
    → All (λ j. ptr x.0 ≢ j) (addresses es)
All-tail x e es a = elim (Bool-cases (is_null e.0)) [
  | inl z ↦ subst (All (λ j. ptr x.0 ≢ j)) (skip_null e es z) a
  | inr z ↦ (subst (All (λ j. ptr x.0 ≢ j)) (keep_node e es z) a).1
]

at_other : (x : Edge) (m : NodeMap) (k : Ptr) → ptr x.0 ≢ k → at (x ∷ m) k ≡ at m k
unfolding at
at_other x m k h = ground arith

at_here : (x : Edge) (m : NodeMap) → at (x ∷ m) (ptr x.0) ≡ some x.1
unfolding at
at_here x m = ground arith

-- An entry in front whose key is none of the others' hides none of them.
at_behind :
    (x : Edge) (m : NodeMap) (es : List Edge)
    → (is_null x.0 ≡ false → All (λ j. ptr x.0 ≢ j) (addresses es))
    → IsDistinct (addresses es)
    → All (AtParent m) es
    → All (AtParent (x ∷ m)) es
at_behind x m [] f d h = tt
at_behind x m (e ∷ es) f d h = (
  (λ z. at_other x m (ptr e.0) (apart_from x e es f d z) ∙ h.0 z),
  at_behind x m es (λ k. All-tail x e es (f k)) (IsDistinct-tail e es d) h.1,
)

at-distinct : (es : List Edge) → IsDistinct (addresses es) → All (AtParent es) es
at-distinct [] d = tt
at-distinct (e ∷ es) d = (
  (λ z. at_here e es),
  at_behind e es es (λ z. (subst IsDistinct (keep_node e es z) d).1) (IsDistinct-tail e es d)
      (at-distinct es (IsDistinct-tail e es d)),
)

at-insert_kept :
    (e : Edge) (m : NodeMap) (k : Ptr) (q : Expr) → at m k ≡ some q → at (insert e m) k ≡ some q
unfolding at insert
at-insert_kept e [] k q h = cc
at-insert_kept e ((d, r) ∷ m) k q h = ground (arith, at-insert_kept e m k q)

at-insert_new :
    (e : Edge) (m : NodeMap) → at m (ptr e.0) ≡ none → at (insert e m) (ptr e.0) ≡ some e.1
unfolding at insert
at-insert_new e [] h = ground arith
at-insert_new e ((d, r) ∷ m) h = ground (arith, at-insert_new e m)

at-insert_other :
    (e : Edge) (m : NodeMap) (k : Ptr) → at m k ≡ none → ptr e.0 ≢ k → at (insert e m) k ≡ none
unfolding at insert
at-insert_other e [] k h d = ground arith
at-insert_other e ((c, r) ∷ m) k h d = ground (arith, at-insert_other e m k)

at-insert_all_kept :
    (es : List Edge) (m : NodeMap) (k : Ptr) (q : Expr)
    → at m k ≡ some q
    → at (insert_all es m) k ≡ some q
unfolding insert_all
at-insert_all_kept [] m k q h = h
at-insert_all_kept (e ∷ es) m k q h =
    at-insert_all_kept es (insert e m) k q (at-insert_kept e m k q h)

at_first :
    (e : Edge) (es : List Edge) (k : Ptr) (q : Expr)
    → ptr e.0 ≡ k
    → at (e ∷ es) k ≡ some q
    → q ≡ e.1
unfolding at
at_first e es k q s h = ground arith

new_entry :
    (e : Edge) (es : List Edge) (m : NodeMap) (k : Ptr) (q : Expr)
    → ptr e.0 ≡ k
    → at m k ≡ none
    → at (e ∷ es) k ≡ some q
    → at (insert e m) k ≡ some q
new_entry e es m k q s h f = rw (at_first e es k q s f, ← s) (at-insert_new e m (rw s h))

ne_of_test : (a b : ℕ) → (a == b) ≡ false → a ≢ b
ne_of_test a b h = ground arith

apart_child :
    (e c : Expr) (es : List Edge)
    → All (λ j. ptr e ≢ j) (addresses ((c, e) ∷ es))
    → is_null c ≡ false
    → ptr e ≢ ptr c
apart_child e c es a z = (subst (All (λ j. ptr e ≢ j)) (keep_node (c, e) es z) a).0

-- `insert_all` keeps the first entry of each key that is not in the map yet.
at-insert_all :
    (es : List Edge) (m : NodeMap) (k : Ptr) (q : Expr)
    → at m k ≡ none
    → at es k ≡ some q
    → at (insert_all es m) k ≡ some q
unfolding insert_all
at-insert_all [] m k q h f = absurd (at-nil k q f)
at-insert_all (e ∷ es) m k q h f = elim (Bool-cases (ptr e.0 == k)) [
  | inl s ↦
      at-insert_all_kept es (insert e m) k q (new_entry e es m k q ((==_iff (ptr e.0) k).0 s) h f)
  | inr s ↦
      let d = ne_of_test (ptr e.0) k s in
      at-insert_all es (insert e m) k q (at-insert_other e m k h d) (sym (at_other e es k d) ∙ f)
]

Linked-All :
    (m : NodeMap) (es : List Edge)
    → All (λ (e : Edge). is_null e.0 ≡ false → ptr e.1 ≢ ptr e.0) es
    → All (AtParent m) es
    → All (Linked m) es
Linked-All m [] a b = tt
Linked-All m (e ∷ es) a b = ((λ z. (b.0 z, a.0 z)), Linked-All m es a.1 b.1)

-- No node below the root of a tree is its own parent.
abbrev IsApart : Edge → Type 0
IsApart e = is_null e.0 ≡ false → ptr e.1 ≢ ptr e.0

abbrev Apart : Expr → Type 0
Apart e =
    (parent : Expr)
    → IsDistinct (addresses (traverse parent e))
    → All IsApart (traverse_all e (children e))

Apart-All :
    (e : Expr) (cs : List Expr)
    → All (λ j. ptr e ≢ j) (addresses (traverse_all e cs))
    → IsDistinct (addresses (traverse_all e cs))
    → All Apart cs
    → All IsApart (traverse_all e cs)
Apart-All e [] f d h = tt
Apart-All e (c ∷ cs) f d h =
    let split = addresses-append (traverse e c) (traverse_all e cs) in
    let f' : All (λ j. ptr e ≢ j) (addresses (traverse e c) ++ addresses (traverse_all e cs)) =
      subst (All (λ j. ptr e ≢ j)) split f in
    let d' : IsDistinct (addresses (traverse e c) ++ addresses (traverse_all e cs)) =
      subst IsDistinct split d in
    let here =
      All-append_left (λ j. ptr e ≢ j) (addresses (traverse e c)) (addresses (traverse_all e cs))
        f' in
    let mine = IsDistinct-left (addresses (traverse e c)) (addresses (traverse_all e cs)) d' in
    All-append IsApart (traverse e c) (traverse_all e cs)
      (subst (All IsApart) (sym (traverse-children e c)) (
        apart_child e c (traverse_all c (children c)) (
            subst (λ (es : List Edge). All (λ j. ptr e ≢ j) (addresses es)) (traverse-children e c)
              here),
        h.0 e mine,
      ))
      (Apart-All e cs
        (All-append_right (λ j. ptr e ≢ j) (addresses (traverse e c))
          (addresses (traverse_all e cs)) f')
        (IsDistinct-right (addresses (traverse e c)) (addresses (traverse_all e cs)) d') h.1)

apart : (e : Expr) → Apart e
apart = tree_induction Apart λ e h parent d. elim (Bool-cases (is_null e)) [
  | inl z ↦ rw (null_of_is_null e z) tt
  | inr z ↦
      let d' : IsDistinct (ptr e ∷ addresses (traverse_all e (children e))) =
        subst IsDistinct (keep_node (e, parent) (traverse_all e (children e)) z)
          (subst (λ (es : List Edge). IsDistinct (addresses es)) (traverse-children parent e) d) in
      Apart-All e (children e) d'.1 d'.2 h
]

at-get_parent_map :
    (root : Expr) (k : Ptr) (q : Expr)
    → at (traverse root root) k ≡ some q
    → at (get_parent_map root) k ≡ some q
unfolding get_parent_map at
at-get_parent_map root k q h = at-insert_all (traverse root root) [] k q refl h

-- The parent map holds each node below the root with its parent.
pub get_parent_map-Linked :
    (root : Expr)
    → IsDistinct (addresses (traverse root root))
    → All (Linked (get_parent_map root)) (traverse_all root (children root))
get_parent_map-Linked root d =
    Linked-All (get_parent_map root) (traverse_all root (children root)) (apart root root d) (
      kept (traverse_all root (children root))
        (subst (All (AtParent (traverse root root))) (traverse-children root root)
          (at-distinct (traverse root root) d)).1)
  where
    kept :
        (es : List Edge)
        → All (AtParent (traverse root root)) es
        → All (AtParent (get_parent_map root)) es
    kept [] h = tt
    kept (e ∷ es) h = ((λ z. at-get_parent_map root (ptr e.0) e.1 (h.0 z)), kept es h.1)

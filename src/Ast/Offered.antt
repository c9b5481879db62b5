-- ===== src/Ast/Offered.antt =====
-- The names that `collectSymbols` gives, against those that a search finds.
use nixd.Prelude.{
  ℕ, zero, suc, ◌+◌, ◌<◌, ◌≤◌, Bool, true, false, Option, none, some, List, [], ◌∷◌, ◌++◌, length,
  ◌==◌, ==_iff, not_both, if◌then◌else◌, ◌≡◌, refl, sym, ap, ◌∙◌, arith, ◌⊎◌, inl, inr,
  Option-cases, Bool-cases, subst, append-nil,
}
use nixd.Ast.Expr.{
  Ptr, Symbol, PosIdx, Var, Expr, Attrs, Formals, ptr, null, expr_var, expr_attrs, expr_let,
  expr_lambda, end_attrs, attr_def, end_formals, formal,
}
use nixd.Ast.Env.{
  is_env_created, attr_at, formal_at, lambda_at, displ_at, climb, found, not_found, out_of_range,
  search_env_expr,
}
use nixd.Ast.Rank.{rank, IsRanked, In-some, rank-none, get_parent_map-IsRanked}
use nixd.Ast.Visit.{NodeMap, at, get_parent_map}
use nixd.Ast.Symbols.{
  attr_names, formal_names, arg_name, names_of, and_above, collect_above, collect_from,
  collect_symbols,
}

-- The name is one of them.
abbrev pub Offers : Symbol → List Symbol → Type 0
Offers s [] = ⊥
Offers s (t ∷ ts) = (t ≡ s) ⊎ Offers s ts

Offers-append_left : (s : Symbol) (xs ys : List Symbol) → Offers s xs → Offers s (xs ++ ys)
Offers-append_left s [] ys h = absurd h
Offers-append_left s (x ∷ xs) ys (inl h) = inl h
Offers-append_left s (x ∷ xs) ys (inr h) = inr (Offers-append_left s xs ys h)

Offers-append_right : (s : Symbol) (xs ys : List Symbol) → Offers s ys → Offers s (xs ++ ys)
Offers-append_right s [] ys h = h
Offers-append_right s (x ∷ xs) ys h = inr (Offers-append_right s xs ys h)

abbrev name_in : Option (Symbol × PosIdx) → Symbol
name_in none = 0
name_in (some (s, pos)) = s

attr_at-Offers :
    (attrs : Attrs) (displ : ℕ) (s : Symbol) (pos : PosIdx)
    → attr_at attrs displ ≡ some (s, pos)
    → Offers s (attr_names attrs)
unfolding attr_at
attr_at-Offers end_attrs displ s pos h = ground arith
attr_at-Offers (attr_def t inherited e q d rest) zero s pos h = inl (ap name_in h)
attr_at-Offers (attr_def t inherited e q d rest) (suc displ) s pos h =
    inr (attr_at-Offers rest displ s pos h)

formal_at-Offers :
    (formals : Formals) (displ : ℕ) (s : Symbol) (pos : PosIdx)
    → formal_at formals displ ≡ some (s, pos)
    → Offers s (formal_names formals)
unfolding formal_at
formal_at-Offers end_formals displ s pos h = ground arith
formal_at-Offers (formal t q def rest) zero s pos h = inl (ap name_in h)
formal_at-Offers (formal t q def rest) (suc displ) s pos h =
    inr (formal_at-Offers rest displ s pos h)

lambda_at-Offers :
    (arg : Symbol) (formals : Formals) (displ : ℕ) (s : Symbol) (pos : PosIdx)
    → lambda_at arg formals displ ≡ some (s, pos)
    → Offers s (arg_name arg ++ formal_names formals)
unfolding lambda_at
lambda_at-Offers zero formals displ s pos h = formal_at-Offers formals displ s pos h
lambda_at-Offers (suc arg) formals zero s pos h = inl (ap name_in h)
lambda_at-Offers (suc arg) formals (suc displ) s pos h =
    inr (formal_at-Offers formals displ s pos h)

-- The names that a node defines are among those that are taken from it.
displ_at-Offers :
    (e : Expr) (displ : ℕ) (s : Symbol) (pos : PosIdx)
    → displ_at e displ ≡ some (s, pos)
    → Offers s (names_of e)
unfolding displ_at names_of
displ_at-Offers (expr_attrs p true attrs dynamic) displ s pos h = attr_at-Offers attrs displ s pos h
displ_at-Offers (expr_let p q recursive attrs dynamic body) displ s pos h =
    attr_at-Offers attrs displ s pos h
displ_at-Offers (expr_lambda p arg true formals body) displ s pos h =
    lambda_at-Offers arg formals displ s pos h
displ_at-Offers (expr_lambda p arg false formals body) displ s pos h =
    lambda_at-Offers arg end_formals displ s pos h
displ_at-Offers e displ s pos h = absurd (ground (arith, h))

rank_le : (m : NodeMap) (k : Ptr) → rank m k ≤ length m
rank_le m k = elim (Option-cases (at m k)) [
  | inl e ↦ omega (arith, rank-none m k e)
  | inr (q, e) ↦ omega (arith, In-some m k q e)
]

abbrev pub IsCollected : Option (List Symbol) → Type 0
IsCollected o = (names : List Symbol) × (o ≡ some names)

and_above-IsCollected :
    (names : List Symbol) (o : Option (List Symbol))
    → IsCollected o
    → IsCollected (and_above names o)
and_above-IsCollected names o (above, e) = (names ++ above, ap (and_above names) e)

-- The climb ends within the fuel.
collect_from-total :
    (m : NodeMap) (fuel : ℕ) (node : Expr)
    → IsRanked m
    → rank m (ptr node) < fuel
    → IsCollected (collect_from fuel m node)
unfolding collect_from
collect_from-total m zero node r h = absurd (omega (arith, h))
collect_from-total m (suc fuel) node r h = elim (Option-cases (at m (ptr node))) [
  | inl e ↦ (names_of node, ap (collect_above (collect_from fuel m) (ptr node) (names_of node)) e)
  | inr (q, e) ↦ elim (Bool-cases (ptr q == ptr node)) [
    | inl same ↦ (
      names_of node,
      ap (collect_above (collect_from fuel m) (ptr node) (names_of node)) e
          ∙ ap
              (λ b.
                if b
                then some (names_of node)
                else and_above (names_of node) (collect_from fuel m q))
              same,
    )
    | inr other ↦
        let (names, k) = and_above-IsCollected (names_of node) (collect_from fuel m q) (
          collect_from-total m fuel q r (
            omega (
              arith,
              h,
              r (ptr node) q e
                  (λ p. not_both (ptr q == ptr node) ((==_iff (ptr q) (ptr node)).1 p) other),
            ))) in
        (
          names,
          ap (collect_above (collect_from fuel m) (ptr node) (names_of node)) e
              ∙ ap
                  (λ b.
                    if b
                    then some (names_of node)
                    else and_above (names_of node) (collect_from fuel m q))
                  other
              ∙ k,
        )
  ]
]

some_name : {a b : List Symbol} → some a ≡ some b → a ≡ b
some_name h = cc

-- What is collected at a node: its names, and what is collected at its parent.
and_above-names :
    (xs : List Symbol) (o : Option (List Symbol)) (names : List Symbol)
    → and_above xs o ≡ some names
    → (above : List Symbol) × (o ≡ some above) × (names ≡ xs ++ above)
and_above-names xs none names h = ground arith
and_above-names xs (some above) names h = (above, refl, sym (some_name h))

collect_above-names :
    (collect : Expr → Option (List Symbol)) (p : Ptr) (xs : List Symbol) (o : Option Expr)
    (names : List Symbol)
    → collect_above collect p xs o ≡ some names
    → (above : List Symbol) × (names ≡ xs ++ above)
collect_above-names collect p xs none names h = ([], sym (some_name h) ∙ sym (append-nil xs))
collect_above-names collect p xs (some q) names h = go (ptr q == p) h
  where
    go :
        (b : Bool)
        → (if b then some xs else and_above xs (collect q)) ≡ some names
        → (above : List Symbol) × (names ≡ xs ++ above)
    go true k = ([], sym (some_name k) ∙ sym (append-nil xs))
    go false k = let (above, e, f) = and_above-names xs (collect q) names k in (above, f)

collect_from-names :
    (m : NodeMap) (fuel : ℕ) (node : Expr) (names : List Symbol)
    → collect_from fuel m node ≡ some names
    → (above : List Symbol) × (names ≡ names_of node ++ above)
unfolding collect_from
collect_from-names m zero node names h = ground arith
collect_from-names m (suc fuel) node names h =
    collect_above-names (collect_from fuel m) (ptr node) (names_of node) (at m (ptr node)) names h

collect_from-parent :
    (m : NodeMap) (fuel : ℕ) (node q : Expr) (names : List Symbol)
    → collect_from fuel m node ≡ some names
    → at m (ptr node) ≡ some q
    → (ptr q == ptr node) ≡ false
    → (rest : ℕ) × (above : List Symbol) × (collect_from rest m q ≡ some above)
      × (names ≡ names_of node ++ above)
unfolding collect_from
collect_from-parent m zero node q names h e other = ground arith
collect_from-parent m (suc fuel) node q names h e other =
    let k =
      sym (
        ap (collect_above (collect_from fuel m) (ptr node) (names_of node)) e
        ∙ ap
            (λ b.
              if b then some (names_of node) else and_above (names_of node) (collect_from fuel m q))
            other)
      ∙ h in
    let (above, c, n) = and_above-names (names_of node) (collect_from fuel m q) names k in
    (fuel, above, c, n)

missing_ne : (e : Expr) → out_of_range ≡ found e → ⊥
missing_ne e h = cc

stopped_ne : (e : Expr) → not_found ≡ found e → ⊥
stopped_ne e h = cc

climb-Offers :
    (m : NodeMap) (f level g : ℕ) (node e : Expr) (displ : ℕ) (s : Symbol) (pos : PosIdx)
    (names : List Symbol)
    → climb f m level node ≡ found e
    → displ_at e displ ≡ some (s, pos)
    → collect_from g m node ≡ some names
    → Offers s names
unfolding climb
climb-Offers m f zero g node e displ s pos names h d c =
    let same : node ≡ e = cc in
    let (above, n) = collect_from-names m g node names c in
    subst (λ z. Offers s z) (sym n)
      (Offers-append_left s (names_of node) above
        (subst (λ z. Offers s (names_of z)) (sym same) (displ_at-Offers e displ s pos d)))
climb-Offers m zero (suc level) g node e displ s pos names h d c = ground arith
climb-Offers m (suc f) (suc level) g node e displ s pos names h d c =
    elim (Option-cases (at m (ptr node))) [
      | inl k ↦ absurd (missing_ne e (rw (k, climb) at h))
      | inr (q, k) ↦ elim (Bool-cases (ptr q == ptr node)) [
        | inl same ↦ absurd (stopped_ne e (rw (k, climb, same) at h))
        | inr other ↦
            let (rest, above, c2, n) = collect_from-parent m g node q names c k other in
            subst (λ z. Offers s z) (sym n)
              (Offers-append_right s (names_of node) above (
                climb-Offers m f (if is_env_created q node then level else suc level) rest q e displ
                  s pos above (rw (k, climb, other) at h) d c2))
      ]
    ]

-- In any tree `collectSymbols` ends at every node, within the fuel it is given.
pub collect_symbols-total :
    (root node : Expr) → IsCollected (collect_symbols (get_parent_map root) node)
unfolding collect_symbols
collect_symbols-total root null = ([], refl)
collect_symbols-total root node =
    let m = get_parent_map root in
    collect_from-total m (length m + 1) node (get_parent_map-IsRanked root)
      (omega (arith, rank_le m (ptr node)))

-- Where the search from a variable ends at a node that defines a name at some displacement,
-- `collectSymbols` at the variable gives a list that has the name.
pub collect_symbols-search :
    (root : Expr) (p : Ptr) (v : Var) (e : Expr) (displ : ℕ) (s : Symbol) (pos : PosIdx)
    → search_env_expr p v (get_parent_map root) ≡ found e
    → displ_at e displ ≡ some (s, pos)
    → (names : List Symbol) × (collect_symbols (get_parent_map root) (expr_var p v) ≡ some names)
      × Offers s names
unfolding collect_symbols search_env_expr
collect_symbols-search root p v e displ s pos h d =
    let m = get_parent_map root in
    let (names, c) =
      collect_from-total m (length m + 1) (expr_var p v) (get_parent_map-IsRanked root)
        (omega (arith, rank_le m p)) in
    (
      names,
      c,
      climb-Offers m (length m) (v.level + 1) (length m + 1) (expr_var p v) e displ s pos names h d
          c,
    )

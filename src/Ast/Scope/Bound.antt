-- ===== src/Ast/Scope/Bound.antt =====
-- `bindVarsStatic` and the trees of Scope.Good.
use nixd.Prelude.{
  ℕ, zero, suc, ◌+◌, Bool, true, false, Option, none, some, [], ◌∷◌, if◌then◌else◌, All, All-append,
  ◌≡◌, inl, inr, refl, sym, arith, subst,
}
use nixd.Ast.Bind.{
  Frame, StaticEnv, EnvOps, Result, ok, number_attrs, formal_vars, prev_with, bind_var, attrs_frame,
  lambda_frame, with_frame, nearest, at_entry, bind_vars, bind_exprs, bind_path, bind_attrs,
  bind_dynamic, bind_formals,
}
use nixd.Ast.Env.{displ_at, lambda_at, is_env_created}
use nixd.Ast.Expr.{
  Symbol, Var, Expr, Exprs, AttrPath, Attrs, DynamicAttrs, Formals, null, expr_error, expr_int,
  expr_float, expr_string, expr_path, expr_pos, expr_var, expr_select, expr_op_has_attr, expr_attrs,
  expr_list, expr_lambda, expr_call, expr_let, expr_with, expr_if, expr_assert, expr_op_not,
  expr_bin, expr_concat_strings, end_exprs, more_exprs, end_path, static_name, dynamic_name,
  end_attrs, attr_def, end_dynamic, dynamic_attr, end_formals, formal, children, exprs_list,
  path_list, attrs_list, dynamic_list, formals_list, guarded,
}
use nixd.Ast.Scope.Good.{Plain, Good, Good-children, Good-var, VarLeads}
use nixd.Ast.Visit.{NodeMap}
use nixd.Ast.Scope.{Names, Binds, Entry}
use nixd.Ast.Scope.Parts.{
  Post, post_ok, post_err, Post-bind, Post-weaken, Post-eq-ok, GoodIf, Post-unless_null,
  plain_children, framed_children, AttrsGood, SameNames, SameFormals, attrs_Good-Plain,
  attrs_Good-same, attr_names, formal_names,
}

leaf :
    (env : StaticEnv) (e : Expr)
    → ((fuel : ℕ) (m : NodeMap) (parent : Expr) → VarLeads fuel m (e, parent))
    → children e ≡ []
    → Good env e
leaf env e v h = Good-children env e v (λ k. rw h tt)

-- `hasFormals()` guards what is bound and what is visited.
abbrev FormalsGood : StaticEnv → Bool → Formals → Type 0
FormalsGood env has formals = All (GoodIf env) (guarded has (formals_list formals))

attrs_frame-Binds :
    (ops : EnvOps) (p : ℕ) (attrs bound : Attrs) (dynamic : DynamicAttrs)
    → SameNames attrs bound
    → Binds (expr_attrs p true (number_attrs bound 0) dynamic) (attrs_frame ops attrs)
unfolding displ_at
attrs_frame-Binds ops p attrs bound dynamic same = inr (
    attr_names (Names (expr_attrs p true (number_attrs bound 0) dynamic)) attrs bound 0 0 same
      (λ i s pos e. (pos, (let z : 0 + i ≡ i = omega arith in rw z e))))

let_frame-Binds :
    (ops : EnvOps) (p q : ℕ) (r : Bool) (attrs bound : Attrs) (dynamic : DynamicAttrs) (body : Expr)
    → SameNames attrs bound
    → Binds (expr_let p q r (number_attrs bound 0) dynamic body) (attrs_frame ops attrs)
unfolding displ_at
let_frame-Binds ops p q r attrs bound dynamic body same = inr (
    attr_names (Names (expr_let p q r (number_attrs bound 0) dynamic body)) attrs bound 0 0 same
      (λ i s pos e. (pos, (let z : 0 + i ≡ i = omega arith in rw z e))))

lambda_frame-Binds :
    (ops : EnvOps) (p arg : ℕ) (has : Bool) (formals bound : Formals) (body : Expr)
    → SameFormals formals bound
    → Binds (expr_lambda p arg has bound body) (lambda_frame ops arg has formals)
unfolding displ_at lambda_at
lambda_frame-Binds ops p zero true formals bound body same =
    let names = λ (d : Symbol × ℕ). Names (expr_lambda p zero true bound body) d.0 d.1 in
    inr (
      ops.sort_entries names (formal_vars formals 0) (
        formal_names (Names (expr_lambda p zero true bound body)) formals bound 0 same
          (λ i s pos e. (pos, (let z : 0 + i ≡ i = omega arith in rw z e)))))
lambda_frame-Binds ops p (suc arg) true formals bound body same =
    let names = λ (d : Symbol × ℕ). Names (expr_lambda p (suc arg) true bound body) d.0 d.1 in
    inr (
      ops.sort_entries names ((suc arg, 0) ∷ formal_vars formals 1) (
        (0, refl),
        formal_names (Names (expr_lambda p (suc arg) true bound body)) formals bound 1 same
            (λ i s pos e. (pos, (let z : 1 + i ≡ suc i = omega arith in rw z e))),
      ))
lambda_frame-Binds ops p zero false formals bound body same = inr tt
lambda_frame-Binds ops p (suc arg) false formals bound body same = inr ((0, refl), tt)

-- What the loop of `ExprVar` leaves: the name, and an entry unless a `with` is meant.
abbrev Resolved : EnvOps → StaticEnv → ℕ → Symbol → Var → Type 0
Resolved ops env base name w =
    w.from_with ≡ false → (l : ℕ) × (w.level ≡ base + l) × Entry ops env l name w.displ

bind_frame :
    (ops : EnvOps) (f : Frame) (env : StaticEnv) (name : Symbol) (base : ℕ) (v : Var)
    (r : Result Var)
    → Post (λ (w : Var). (w.name ≡ v.name) × Resolved ops env (base + 1) name w) r
    → Post
        (λ (w : Var). (w.name ≡ v.name) × Resolved ops (f ∷ env) base name w)
        (if f.is_with then r else at_entry (ops.find f.vars name) base v r)
bind_frame ops f env name base v r ih = by_test f.is_with (ops.find f.vars name) refl refl
  where
    outside :
        (w : Var)
        → (w.name ≡ v.name) × Resolved ops env (base + 1) name w
        → (w.name ≡ v.name) × Resolved ops (f ∷ env) base name w
    outside w (same, h) = (same, (λ k. (suc (h k).0, omega (arith, (h k).1), (h k).2)))

    by_test :
        (is_with : Bool) (entry : Option ℕ)
        → f.is_with ≡ is_with
        → ops.find f.vars name ≡ entry
        → Post
            (λ (w : Var). (w.name ≡ v.name) × Resolved ops (f ∷ env) base name w)
            (if is_with then r else at_entry entry base v r)
    by_test true entry n e = Post-weaken ih outside
    by_test false none n e = Post-weaken ih outside
    by_test false (some d) n e = post_ok (refl, (λ h. (0, omega arith, (n, e))))

same_formals : (formals : Formals) → SameFormals formals formals
same_formals end_formals = tt
same_formals (formal s pos def rest) = (refl, same_formals rest)

bindings-Good :
    (env env' : StaticEnv) (q : ℕ) (bound : Attrs)
    → AttrsGood env env' bound
    → Plain (number_attrs bound 0)
    → Good env' (expr_attrs q false (number_attrs bound 0) end_dynamic)
unfolding is_env_created
bindings-Good env env' q bound ga plain =
    let this = expr_attrs q false (number_attrs bound 0) end_dynamic in
    Good-children env' this (λ f m q. tt)
      (λ k.
        plain_children env' this (children this) (λ x. refl)
          (All-append (GoodIf env') (attrs_list (number_attrs bound 0)) []
            (attrs_Good-Plain env env' bound 0 ga plain) tt))

let-Good :
    (ops : EnvOps) (env : StaticEnv) (p q : ℕ) (r : Bool) (attrs bound : Attrs)
    (dynamic : DynamicAttrs) (body : Expr)
    → AttrsGood env (attrs_frame ops attrs ∷ env) bound
    → SameNames attrs bound
    → Good (attrs_frame ops attrs ∷ env) body
    → Good env (expr_let p q r (number_attrs bound 0) dynamic body)
unfolding is_env_created
let-Good ops env p q r attrs bound dynamic body ga same gb =
    let this = expr_let p q r (number_attrs bound 0) dynamic body in
    let env' : StaticEnv = attrs_frame ops attrs ∷ env in
    Good-children env this (λ f m q. tt)
      (λ (fixed, no_dynamic, plain).
        framed_children env this (attrs_frame ops attrs) (children this) (λ x. refl)
          (let_frame-Binds ops p q r attrs bound dynamic body same)
          (
            (λ z.
                subst (λ (b : Bool). Good env' (expr_attrs q b (number_attrs bound 0) dynamic))
                  (sym fixed)
                  (subst
                    (λ (d : DynamicAttrs). Good env' (expr_attrs q false (number_attrs bound 0) d))
                    (sym no_dynamic) (bindings-Good env env' q bound ga plain))),
            ((λ z. gb), tt),
          ))

with-Good :
    (ops : EnvOps) (env : StaticEnv) (p prev : ℕ) (attrs body : Expr)
    → Good env attrs
    → Good (with_frame ops ∷ env) body
    → Good env (expr_with p prev attrs body)
unfolding is_env_created
with-Good ops env p prev attrs body ga gb =
    Good-children env (expr_with p prev attrs body) (λ f m q. tt)
      (λ apart. (
        (λ z. inl (ground arith, ga)),
        ((λ z. inr (with_frame ops, ground arith, inl refl, gb)), tt),
      ))

bind_var-Resolved :
    (ops : EnvOps) (env : StaticEnv) (name : Symbol) (base : ℕ) (with_level : Option ℕ) (v : Var)
    → Post
        (λ (w : Var). (w.name ≡ v.name) × Resolved ops env base name w)
        (bind_var ops env name base with_level v)
unfolding bind_var
bind_var-Resolved ops [] name base none v = post_err
bind_var-Resolved ops [] name base (some w) v = post_ok (refl, λ h. cc)
bind_var-Resolved ops (f ∷ env) name base wl v =
    bind_frame ops f env name base v _
      (bind_var-Resolved ops env name (base + 1) (if f.is_with then nearest wl base else wl) v)

var-Good :
    (ops : EnvOps) (env : StaticEnv) (p : ℕ) (v w : Var)
    → (w.name ≡ v.name) × Resolved ops env 0 v.name w
    → Good env (expr_var p w)
var-Good ops env p v w (same, h) = Good-var ops env p w (λ from. entry (h from))
  where
    entry :
        (l : ℕ) × (w.level ≡ 0 + l) × Entry ops env l v.name w.displ
        → Entry ops env w.level w.name w.displ
    entry (l, e, x) = let z : w.level ≡ l = omega arith in rw (z, same) x

module _ (ops : EnvOps) where
  mutual
    unfolding bind_vars is_env_created

    bind-Good : (env : StaticEnv) (e : Expr) → Post (Good env) (bind_vars ops env e)
    bind-Good env null = post_err
    bind-Good env (expr_error p) = post_ok (leaf env (expr_error p) (λ f m q. tt) refl)
    bind-Good env (expr_int p) = post_ok (leaf env (expr_int p) (λ f m q. tt) refl)
    bind-Good env (expr_float p) = post_ok (leaf env (expr_float p) (λ f m q. tt) refl)
    bind-Good env (expr_string p) = post_ok (leaf env (expr_string p) (λ f m q. tt) refl)
    bind-Good env (expr_path p) = post_ok (leaf env (expr_path p) (λ f m q. tt) refl)
    bind-Good env (expr_pos p) = post_ok (leaf env (expr_pos p) (λ f m q. tt) refl)
    bind-Good env (expr_var p v) =
        Post-bind (bind_var-Resolved ops env v.name 0 none v)
          (λ w h. post_ok (var-Good ops env p v w h))
    bind-Good env (expr_select p e path def) = Post-bind (bind-Good env e) λ e' ge.
        Post-bind (Post-unless_null env def (bind_vars ops env def) (bind-Good env def)) λ def' gd.
          Post-bind (path-Good env path) λ path' gp. post_ok (
            Good-children env (expr_select p e' path' def') (λ f m q. tt)
              (λ k.
                plain_children env (expr_select p e' path' def')
                  (children (expr_select p e' path' def')) (λ x. refl) (gd, ((λ z. ge), gp))))
    bind-Good env (expr_op_has_attr p e path) = Post-bind (bind-Good env e) λ e' ge.
        Post-bind (path-Good env path) λ path' gp. post_ok (
          Good-children env (expr_op_has_attr p e' path') (λ f m q. tt)
            (λ k.
              plain_children env (expr_op_has_attr p e' path')
                (children (expr_op_has_attr p e' path')) (λ x. refl) ((λ z. ge), gp)))
    bind-Good env (expr_attrs p true attrs dynamic) =
        Post-bind (attrs-Good env (attrs_frame ops attrs ∷ env) attrs) λ attrs' ga.
          Post-bind (dynamic-Good (attrs_frame ops attrs ∷ env) dynamic) λ dynamic' gd.
            let this = expr_attrs p true (number_attrs attrs' 0) dynamic' in
            post_ok (
              Good-children env this (λ f m q. tt)
                (λ k.
                  framed_children env this (attrs_frame ops attrs) (children this) (λ x. refl)
                    (attrs_frame-Binds ops p attrs attrs' dynamic' ga.1)
                    (All-append (GoodIf (attrs_frame ops attrs ∷ env))
                      (attrs_list (number_attrs attrs' 0)) (dynamic_list dynamic')
                      (attrs_Good-Plain env (attrs_frame ops attrs ∷ env) attrs' 0 ga.0 k) gd)))
    bind-Good env (expr_attrs p false attrs dynamic) =
        Post-bind (attrs-Good env env attrs) λ attrs' ga.
          Post-bind (dynamic-Good env dynamic) λ dynamic' gd.
            let this = expr_attrs p false attrs' dynamic' in
            post_ok (
              Good-children env this (λ f m q. tt)
                (λ k.
                  plain_children env this (children this) (λ x. refl)
                    (All-append (GoodIf env) (attrs_list attrs') (dynamic_list dynamic')
                      (attrs_Good-same env attrs' ga.0) gd)))
    bind-Good env (expr_list p elems) = Post-bind (exprs-Good env elems) λ elems' g. post_ok (
        Good-children env (expr_list p elems') (λ f m q. tt)
          (λ k.
            plain_children env (expr_list p elems') (children (expr_list p elems')) (λ x. refl) g))
    bind-Good env (expr_lambda p arg has formals body) =
        Post-bind (formals-Good has (lambda_frame ops arg has formals ∷ env) formals) λ formals' gf.
          Post-bind (bind-Good (lambda_frame ops arg has formals ∷ env) body) λ body' gb.
            let this = expr_lambda p arg has formals' body' in
            post_ok (
              Good-children env this (λ f m q. tt)
                (λ k.
                  framed_children env this (lambda_frame ops arg has formals) (children this)
                    (λ x. refl) (lambda_frame-Binds ops p arg has formals formals' body' gf.1)
                    (All-append (GoodIf (lambda_frame ops arg has formals ∷ env))
                      (guarded has (formals_list formals')) (body' ∷ []) gf.0 ((λ z. gb), tt))))
    bind-Good env (expr_call p fun args) = Post-bind (bind-Good env fun) λ fun' gf.
        Post-bind (exprs-Good env args) λ args' ga. post_ok (
          Good-children env (expr_call p fun' args') (λ f m q. tt)
            (λ k.
              plain_children env (expr_call p fun' args') (children (expr_call p fun' args'))
                (λ x. refl)
                (All-append (GoodIf env) (exprs_list args') (fun' ∷ []) ga ((λ z. gf), tt))))
    bind-Good env (expr_let p q r attrs dynamic body) =
        Post-bind (attrs-Good env (attrs_frame ops attrs ∷ env) attrs) λ attrs' ga.
          Post-bind (bind-Good (attrs_frame ops attrs ∷ env) body)
            λ body' gb. post_ok (let-Good ops env p q r attrs attrs' dynamic body' ga.0 ga.1 gb)
    bind-Good env (expr_with p prev attrs body) = Post-bind (bind-Good env attrs) λ attrs' ga.
        Post-bind (bind-Good (with_frame ops ∷ env) body)
          λ body' gb. post_ok (with-Good ops env p (prev_with env 1) attrs' body' ga gb)
    bind-Good env (expr_if p c t e) = Post-bind (bind-Good env c) λ c' gc.
        Post-bind (bind-Good env t) λ t' gt. Post-bind (bind-Good env e) λ e' ge. post_ok (
          Good-children env (expr_if p c' t' e') (λ f m q. tt)
            (λ k.
              plain_children env (expr_if p c' t' e') (children (expr_if p c' t' e')) (λ x. refl)
                ((λ z. gc), ((λ z. gt), ((λ z. ge), tt)))))
    bind-Good env (expr_assert p c body) = Post-bind (bind-Good env c) λ c' gc.
        Post-bind (bind-Good env body) λ body' gb. post_ok (
          Good-children env (expr_assert p c' body') (λ f m q. tt)
            (λ k.
              plain_children env (expr_assert p c' body') (children (expr_assert p c' body'))
                (λ x. refl) ((λ z. gc), ((λ z. gb), tt))))
    bind-Good env (expr_op_not p e) = Post-bind (bind-Good env e) λ e' ge. post_ok (
        Good-children env (expr_op_not p e') (λ f m q. tt)
          (λ k.
            plain_children env (expr_op_not p e') (children (expr_op_not p e')) (λ x. refl)
              ((λ z. ge), tt)))
    bind-Good env (expr_bin p op a b) = Post-bind (bind-Good env a) λ a' ga.
        Post-bind (bind-Good env b) λ b' gb. post_ok (
          Good-children env (expr_bin p op a' b') (λ f m q. tt)
            (λ k.
              plain_children env (expr_bin p op a' b') (children (expr_bin p op a' b')) (λ x. refl)
                ((λ z. ga), ((λ z. gb), tt))))
    bind-Good env (expr_concat_strings p es) = Post-bind (exprs-Good env es) λ es' g. post_ok (
        Good-children env (expr_concat_strings p es') (λ f m q. tt)
          (λ k.
            plain_children env (expr_concat_strings p es') (children (expr_concat_strings p es'))
              (λ x. refl) g))

    exprs-Good :
        (env : StaticEnv) (es : Exprs)
        → Post (λ (es' : Exprs). All (GoodIf env) (exprs_list es')) (bind_exprs ops env es)
    exprs-Good env end_exprs = post_ok tt
    exprs-Good env (more_exprs e es) =
        Post-bind (bind-Good env e)
          λ e' g. Post-bind (exprs-Good env es) λ es' gs. post_ok ((λ z. g), gs)

    path-Good :
        (env : StaticEnv) (path : AttrPath)
        → Post (λ (path' : AttrPath). All (GoodIf env) (path_list path')) (bind_path ops env path)
    path-Good env end_path = post_ok tt
    path-Good env (static_name s path) = Post-bind (path-Good env path) λ path' gs. post_ok gs
    path-Good env (dynamic_name e path) =
        Post-bind (bind-Good env e)
          λ e' g. Post-bind (path-Good env path) λ path' gs. post_ok ((λ z. g), gs)

    attrs-Good :
        (outer inner : StaticEnv) (attrs : Attrs)
        → Post
            (λ (attrs' : Attrs). AttrsGood outer inner attrs' × SameNames attrs attrs')
            (bind_attrs ops outer inner attrs)
    attrs-Good outer inner end_attrs = post_ok (tt, tt)
    attrs-Good outer inner (attr_def s i e pos displ rest) =
        Post-bind (bind-Good (if i then outer else inner) e) λ e' g.
          Post-bind (attrs-Good outer inner rest) λ rest' gs. post_ok ((g, gs.0), (refl, gs.1))

    dynamic-Good :
        (env : StaticEnv) (dynamic : DynamicAttrs)
        → Post
            (λ (d : DynamicAttrs). All (GoodIf env) (dynamic_list d))
            (bind_dynamic ops env dynamic)
    dynamic-Good env end_dynamic = post_ok tt
    dynamic-Good env (dynamic_attr n v rest) = Post-bind (bind-Good env n) λ n' gn.
        Post-bind (bind-Good env v) λ v' gv.
          Post-bind (dynamic-Good env rest) λ rest' gs. post_ok ((λ z. gn), ((λ z. gv), gs))

    formals-Good :
        (has : Bool) (env : StaticEnv) (formals : Formals)
        → Post
            (λ (fs : Formals). FormalsGood env has fs × SameFormals formals fs)
            (bind_formals ops has env formals)
    formals-Good false env end_formals = post_ok (tt, tt)
    formals-Good true env end_formals = post_ok (tt, tt)
    formals-Good false env (formal s pos def rest) = post_ok (tt, (refl, same_formals rest))
    formals-Good true env (formal s pos def rest) =
        Post-bind (Post-unless_null env def (bind_vars ops env def) (bind-Good env def)) λ def' g.
          Post-bind (formals-Good true env rest) λ rest' gs. post_ok ((g, gs.0), (refl, gs.1))

  -- What `bind_vars` leaves is good in the environment that it was bound in.
  pub bind_vars-Good : (env : StaticEnv) (e e' : Expr) → bind_vars ops env e ≡ ok e' → Good env e'
  bind_vars-Good env e e' h = Post-eq-ok (bind-Good env e) h

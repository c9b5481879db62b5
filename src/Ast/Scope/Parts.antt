-- ===== src/Ast/Scope/Parts.antt =====
-- What a binding keeps of the parts of a node: results that satisfy a predicate, good children, and
-- names that stay where they were.
use nixd.Prelude.{
  ℕ, suc, ◌+◌, true, false, some, List, [], ◌∷◌, if◌then◌else◌, All, ◌≡◌, inl, inr, arith, subst,
}
use nixd.Ast.Bind.{
  Frame, StaticEnv, Error, Result, ok, err, ◌>>=◌, attr_vars, number_attrs, formal_vars,
  unless_null,
}
use nixd.Ast.Env.{attr_at, formal_at, is_env_created}
use nixd.Ast.Expr.{
  Symbol, PosIdx, Expr, Attrs, Formals, null, expr_error, end_attrs, attr_def, end_formals, formal,
  attrs_list,
}
use nixd.Ast.Scope.Good.{is_null, Plain, Good, ChildGood}
use nixd.Ast.Scope.{Binds}

-- The result satisfies `P`, if there is one.
pub data Post {A : Type 0} (P : A → Type 0) : Result A → Type 0 where
  post_ok : {a : A} → P a → Post P (ok a)
  post_err : {e : Error} → Post P (err e)

pub Post-bind :
    {A B : Type 0} {P : A → Type 0} {Q : B → Type 0} {m : Result A} {f : A → Result B}
    → Post P m
    → ((a : A) → P a → Post Q (f a))
    → Post Q (m >>= f)
Post-bind (post_ok {a} p) k = k a p
Post-bind post_err k = post_err

ok_injective : {A : Type 0} {x y : A} → ok x ≡ ok y → x ≡ y
ok_injective h = cc

pub Post-weaken :
    {A : Type 0} {P Q : A → Type 0} {r : Result A} → Post P r → ((a : A) → P a → Q a) → Post Q r
Post-weaken (post_ok {a} p) f = post_ok (f a p)
Post-weaken post_err f = post_err

pub Post-eq-ok : {A : Type 0} {P : A → Type 0} {r : Result A} {a : A} → Post P r → r ≡ ok a → P a
Post-eq-ok {P = P} (post_ok {a = b} p) h = subst P (ok_injective h) p
Post-eq-ok post_err h = cc

-- A default that is there is good.
abbrev pub GoodIf : StaticEnv → Expr → Type 0
GoodIf env c = is_null c ≡ false → Good env c

pub Post-unless_null :
    (env : StaticEnv) (e : Expr) (r : Result Expr)
    → Post (Good env) r
    → Post (GoodIf env) (unless_null e r)
Post-unless_null env null r h = post_ok (λ z. cc)
Post-unless_null env (expr_error p) (ok a) (post_ok g) = post_ok (λ z. g)
Post-unless_null env (expr_error p) (err f) h = post_err
Post-unless_null env _ (ok a) (post_ok g) = post_ok (λ z. g)
Post-unless_null env _ (err f) h = post_err

-- Children that are good in the node's environment, of a node that makes none.
pub plain_children :
    (env : StaticEnv) (e : Expr) (cs : List Expr)
    → ((c : Expr) → is_env_created e c ≡ false)
    → All (GoodIf env) cs
    → All (ChildGood env e) cs
plain_children env e [] k g = tt
plain_children env e (c ∷ cs) k g = ((λ z. inl (k c, g.0 z)), plain_children env e cs k g.1)

-- Children that are good below a frame, of a node that makes it.
pub framed_children :
    (env : StaticEnv) (e : Expr) (f : Frame) (cs : List Expr)
    → ((c : Expr) → is_env_created e c ≡ true)
    → Binds e f
    → All (GoodIf (f ∷ env)) cs
    → All (ChildGood env e) cs
framed_children env e f [] k b g = tt
framed_children env e f (c ∷ cs) k b g =
    ((λ z. inr (f, k c, b, g.0 z)), framed_children env e f cs k b g.1)

-- The attributes after binding: each is good outside, where it is inherited, or else inside.
abbrev pub AttrsGood : StaticEnv → StaticEnv → Attrs → Type 0
AttrsGood outer inner end_attrs = Unit
AttrsGood outer inner (attr_def s inherited e pos displ rest) =
    Good (if inherited then outer else inner) e × AttrsGood outer inner rest

abbrev pub SameNames : Attrs → Attrs → Type 0
SameNames end_attrs end_attrs = Unit
SameNames (attr_def s i e pos d rest) (attr_def s' i' e' pos' d' rest') =
    (s ≡ s') × SameNames rest rest'
SameNames _ _ = ⊥

abbrev pub SameFormals : Formals → Formals → Type 0
SameFormals end_formals end_formals = Unit
SameFormals (formal s pos e rest) (formal s' pos' e' rest') = (s ≡ s') × SameFormals rest rest'
SameFormals _ _ = ⊥

pub attrs_Good-Plain :
    (outer inner : StaticEnv) (attrs : Attrs) (j : ℕ)
    → AttrsGood outer inner attrs
    → Plain (number_attrs attrs j)
    → All (GoodIf inner) (attrs_list (number_attrs attrs j))
unfolding number_attrs
attrs_Good-Plain outer inner end_attrs j g p = tt
attrs_Good-Plain outer inner (attr_def s true e pos d rest) j g p = cc
attrs_Good-Plain outer inner (attr_def s false e pos d rest) j g p =
    ((λ z. g.0), attrs_Good-Plain outer inner rest (j + 1) g.1 p.1)

pub attrs_Good-same :
    (env : StaticEnv) (attrs : Attrs)
    → AttrsGood env env attrs
    → All (GoodIf env) (attrs_list attrs)
attrs_Good-same env end_attrs g = tt
attrs_Good-same env (attr_def s true e pos d rest) g = ((λ z. g.0), attrs_Good-same env rest g.1)
attrs_Good-same env (attr_def s false e pos d rest) g = ((λ z. g.0), attrs_Good-same env rest g.1)

pub attr_names :
    (Q : Symbol → ℕ → Type 0) (attrs bound : Attrs) (k j : ℕ)
    → SameNames attrs bound
    → ((i : ℕ) (s : Symbol) (pos : PosIdx)
        → attr_at (number_attrs bound j) i ≡ some (s, pos)
        → Q s (k + i))
    → All (λ (d : Symbol × ℕ). Q d.0 d.1) (attr_vars attrs k)
unfolding attr_vars number_attrs attr_at
attr_names Q end_attrs bound k j same h = tt
attr_names Q (attr_def s i e pos d rest) end_attrs k j same h = elim same [ ]
attr_names Q (attr_def s i e pos d rest) (attr_def s' i' e' pos' d' rest') k j same h =
    let here : k + 0 ≡ k = omega arith in
    (
      subst (λ n. Q s n) here (h 0 s pos' (rw same.0)),
      attr_names Q rest rest' (k + 1) (j + 1) same.1 (λ n t q f.
          subst (λ m. Q t m) (let e : k + suc n ≡ k + 1 + n = omega arith in e) (h (suc n) t q f)),
    )

pub formal_names :
    (Q : Symbol → ℕ → Type 0) (formals bound : Formals) (k : ℕ)
    → SameFormals formals bound
    → ((i : ℕ) (s : Symbol) (pos : PosIdx) → formal_at bound i ≡ some (s, pos) → Q s (k + i))
    → All (λ (d : Symbol × ℕ). Q d.0 d.1) (formal_vars formals k)
unfolding formal_vars formal_at
formal_names Q end_formals bound k same h = tt
formal_names Q (formal s pos e rest) end_formals k same h = elim same [ ]
formal_names Q (formal s pos e rest) (formal s' pos' e' rest') k same h =
    let here : k + 0 ≡ k = omega arith in
    (
      subst (λ n. Q s n) here (h 0 s pos' (rw same.0)),
      formal_names Q rest rest' (k + 1) same.1 (λ n t q f.
          subst (λ m. Q t m) (let e : k + suc n ≡ k + 1 + n = omega arith in e) (h (suc n) t q f)),
    )

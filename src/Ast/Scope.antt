-- ===== src/Ast/Scope.antt =====
-- How the environments of `bindVarsStatic` follow the parents of a node, and what the climb of
-- `searchEnvExpr` then finds.
pub mod Good
pub mod Parts
pub mod Bound
use nixd.Prelude.{
  ℕ, zero, suc, ◌+◌, ◌-◌, ◌≤◌, ◌<◌, Bool, true, false, Option, none, some, List, [], ◌∷◌, ◌++◌,
  length, ◌==◌, if◌then◌else◌, All, ◌≡◌, ◌≢◌, ◌⊎◌, inl, inr, refl, sym, ap, ◌∙◌, arith,
}
use nixd.Ast.Bind.{Vars, Frame, StaticEnv, EnvOps}
use nixd.Ast.Env.{displ_at, is_env_created, Found, found, climb}
use nixd.Ast.Expr.{Symbol, PosIdx, Expr, ptr}
use nixd.Ast.Visit.{NodeMap, at}

-- The node `e` defines the name at that displacement.
abbrev pub Names : Expr → Symbol → ℕ → Type 0
Names e name displ = (pos : PosIdx) × (displ_at e displ ≡ some (name, pos))

-- The frame is that of a `with`, or each of its entries is a name that `e` defines.
abbrev pub Binds : Expr → Frame → Type 0
Binds e f = (f.is_with ≡ true) ⊎ All (λ (d : Symbol × ℕ). Names e d.0 d.1) f.vars

-- The environment belongs to the node, by way of its parents in the map: the root has the frame
-- of a `with` alone, and a child has its parent's, below a frame of the parent's where
-- `is_env_created` says so. The number is that of the nodes on the way.
pub data Scope (m : NodeMap) : ℕ → StaticEnv → Expr → Type 0 where
  top : {f : Frame} {e : Expr} → f.is_with ≡ true → Scope m 1 (f ∷ []) e
  same :
      {n : ℕ} {env : StaticEnv} {p c : Expr}
      → Scope m n env p
      → at m (ptr c) ≡ some p
      → ptr p ≢ ptr c
      → is_env_created p c ≡ false
      → Scope m (suc n) env c
  inner :
      {n : ℕ} {env : StaticEnv} {p c : Expr} {f : Frame}
      → Scope m n env p
      → at m (ptr c) ≡ some p
      → ptr p ≢ ptr c
      → is_env_created p c ≡ true
      → Binds p f
      → Scope m (suc n) (f ∷ env) c

climb_same :
    (fuel level : ℕ) (m : NodeMap) (p c : Expr)
    → at m (ptr c) ≡ some p
    → ptr p ≢ ptr c
    → is_env_created p c ≡ false
    → climb (suc fuel) m (suc level) c ≡ climb fuel m (suc level) p
unfolding climb
climb_same fuel level m p c h d k =
    let e : (ptr p == ptr c) ≡ false = ground arith in rw (h, climb, k, e)

climb_inner :
    (fuel level : ℕ) (m : NodeMap) (p c : Expr)
    → at m (ptr c) ≡ some p
    → ptr p ≢ ptr c
    → is_env_created p c ≡ true
    → climb (suc fuel) m (suc level) c ≡ climb fuel m level p
unfolding climb
climb_inner fuel level m p c h d k =
    let e : (ptr p == ptr c) ≡ false = ground arith in rw (h, climb, k, e)

climb_done : (fuel : ℕ) (m : NodeMap) (e : Expr) → climb fuel m 0 e ≡ found e
unfolding climb
climb_done zero m e = refl
climb_done (suc fuel) m e = refl

module _ (ops : EnvOps) where
  -- The frame that many levels out is no `with`, and holds the name at that displacement.
  abbrev pub Entry : StaticEnv → ℕ → Symbol → ℕ → Type 0
  Entry [] level name displ = ⊥
  Entry (f ∷ env) zero name displ = (f.is_with ≡ false) × (ops.find f.vars name ≡ some displ)
  Entry (f ∷ env) (suc level) name displ = Entry env level name displ

  Names-of_entry :
      (p : Expr) (f : Frame) (name : Symbol) (displ : ℕ)
      → Binds p f
      → f.is_with ≡ false
      → ops.find f.vars name ≡ some displ
      → Names p name displ
  Names-of_entry p f name displ (inl w) h k = cc
  Names-of_entry p f name displ (inr all) h k =
      ops.find_entry (λ d. Names p d.0 d.1) f.vars name displ all k

  -- The climb ends at the node that made the frame of the entry.
  pub climb-Entry :
      {m : NodeMap} {n : ℕ} {env : StaticEnv} {c : Expr} (level fuel : ℕ) (name : Symbol)
      (displ : ℕ)
      → Scope m n env c
      → Entry env level name displ
      → n ≤ fuel
      → (q : Expr) × (climb fuel m (suc level) c ≡ found q) × Names q name displ
  climb-Entry zero fuel name displ (top w) (h, k) b = cc
  climb-Entry (suc level) fuel name displ (top w) h b = elim h [ ]
  climb-Entry level zero name displ (same s a d k) h b = absurd (omega arith)
  climb-Entry {m} level (suc fuel) name displ (same {p = p} {c = c} s a d k) h b =
      rw (climb_same fuel level m p c a d k) (climb-Entry level fuel name displ s h (omega arith))
  climb-Entry level zero name displ (inner s a d k i) h b = absurd (omega arith)
  climb-Entry {m} zero (suc fuel) name displ (inner {p = p} {c = c} {f = f} s a d k i) (w, e) b =
      (p, climb_inner fuel 0 m p c a d k ∙ climb_done fuel m p, Names-of_entry p f name displ i w e)
  climb-Entry {m} (suc level) (suc fuel) name displ (inner {p = p} {c = c} s a d k i) h b =
      rw (climb_inner fuel (suc level) m p c a d k)
        (climb-Entry level fuel name displ s h (omega arith))

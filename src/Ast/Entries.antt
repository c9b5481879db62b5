-- ===== src/Ast/Entries.antt =====
-- The tables of definitions and references, with an entry more.
use nixd.Prelude.{
  Bool, true, false, Option, none, some, List, [], ◌∷◌, ◌++◌, ◌==◌, if◌then◌else◌, ◌≡◌, ◌⊎◌, inl,
  inr, refl, sym, ap, ◌∙◌, arith, Bool-cases, not_both,
}
use nixd.Ast.Expr.{Ptr}
use nixd.Ast.References.{
  Definition, same_definition, VarAt, Tables, find_definition, put_definition, find_references,
  add_reference,
}

abbrev pub IsSame : Definition → Option Definition → Type 0
IsSame d none = ⊥
IsSame d (some e) = same_definition e d ≡ true

abbrev pub Occurs : Ptr → List VarAt → Type 0
Occurs p [] = ⊥
Occurs p (v ∷ vs) = (v.0 ≡ p) ⊎ Occurs p vs

abbrev pub OccursIf : Ptr → Option (List VarAt) → Type 0
OccursIf p none = ⊥
OccursIf p (some vs) = Occurs p vs

-- The definition of the variable at `p` is `d`; the variable is among the references to `d`.
abbrev pub IsDefinedAs : Tables → Ptr → Definition → Type 0
IsDefinedAs t p d = IsSame d (find_definition p t.definitions)

abbrev pub RefersTo : Tables → Ptr → Definition → Type 0
RefersTo t p d = OccursIf p (find_references d t.references)

pub find_definition-put_definition :
    (p q : Ptr) (d : Definition) (ds : List (Ptr × Definition))
    → find_definition q (put_definition p d ds) ≡ (if p == q then some d else find_definition q ds)
unfolding find_definition put_definition
find_definition-put_definition p q d [] = refl
find_definition-put_definition p q d ((r, e) ∷ ds) =
    ground (arith, find_definition-put_definition p q d ds)

Occurs-append_left : (p : Ptr) (xs ys : List VarAt) → Occurs p xs → Occurs p (xs ++ ys)
Occurs-append_left p [] ys h = absurd h
Occurs-append_left p (x ∷ xs) ys (inl h) = inl h
Occurs-append_left p (x ∷ xs) ys (inr h) = inr (Occurs-append_left p xs ys h)

Occurs-last : (p : Ptr) (xs : List VarAt) (v : VarAt) → v.0 ≡ p → Occurs p (xs ++ v ∷ [])
Occurs-last p [] v h = inl h
Occurs-last p (x ∷ xs) v h = inr (Occurs-last p xs v h)

Occurs-append_one :
    (p : Ptr) (xs : List VarAt) (v : VarAt) → Occurs p (xs ++ v ∷ []) → (Occurs p xs) ⊎ (v.0 ≡ p)
Occurs-append_one p [] v (inl h) = inr h
Occurs-append_one p [] v (inr h) = absurd h
Occurs-append_one p (x ∷ xs) v (inl h) = inl (inl h)
Occurs-append_one p (x ∷ xs) v (inr h) = elim (Occurs-append_one p xs v h) [
  | inl k ↦ inl (inr k)
  | inr k ↦ inr k
]

same_swap :
    (d e f : Definition) → same_definition e d ≡ true → same_definition e f ≡ same_definition d f
same_swap d e f h = ground (arith, h)

-- `OccursIf`, of a table with a reference more.
abbrev pub more_references : VarAt → Option (List VarAt) → Option (List VarAt)
more_references v none = some (v ∷ [])
more_references v (some vs) = some (vs ++ v ∷ [])

same_differ :
    (d e f : Definition)
    → same_definition e d ≡ false
    → same_definition e f ≡ true
    → same_definition d f ≡ false
same_differ d e f h k = ground (arith, h, k)

merged :
    (b c : Bool) (vs : List VarAt) (v : VarAt) (o : Option (List VarAt))
    → b ≡ c
    → (if b then some (vs ++ v ∷ []) else o)
      ≡ (if c then more_references v (if b then some vs else o) else (if b then some vs else o))
merged true true vs v o h = refl
merged true false vs v o h = cc
merged false true vs v o h = cc
merged false false vs v o h = refl

passed :
    (b c : Bool) (vs : List VarAt) (v : VarAt) (o r : Option (List VarAt))
    → (b ≡ true → c ≡ false)
    → r ≡ (if c then more_references v o else o)
    → (if b then some vs else r)
      ≡ (if c then more_references v (if b then some vs else o) else (if b then some vs else o))
passed true true vs v o r h k = absurd (not_both true refl (h refl))
passed true false vs v o r h k = refl
passed false c vs v o r h k = k

pub find_references-add_reference :
    (d f : Definition) (v : VarAt) (rs : List (Definition × List VarAt))
    → find_references f (add_reference d v rs) ≡ (
        if same_definition d f
        then more_references v (find_references f rs)
        else find_references f rs)
unfolding find_references add_reference
find_references-add_reference d f v [] = refl
find_references-add_reference d f v ((e, vs) ∷ rs) = elim (Bool-cases (same_definition e d)) [
  | inl q ↦
      ap
        (λ b.
          find_references f (if b then (e, vs ++ v ∷ []) ∷ rs else (e, vs) ∷ add_reference d v rs))
        q
      ∙ merged (same_definition e f) (same_definition d f) vs v (find_references f rs)
          (same_swap d e f q)
  | inr q ↦
      ap
        (λ b.
          find_references f (if b then (e, vs ++ v ∷ []) ∷ rs else (e, vs) ∷ add_reference d v rs))
        q
      ∙ passed (same_definition e f) (same_definition d f) vs v (find_references f rs) _
          (same_differ d e f q) (find_references-add_reference d f v rs)
]

-- One variable more.
pub more_defined :
    (b : Bool) (d f : Definition) (o : Option Definition)
    → IsSame f (if b then some d else o)
    → ((b ≡ true) × (same_definition d f ≡ true)) ⊎ ((b ≡ false) × IsSame f o)
more_defined true d f o h = inl (refl, h)
more_defined false d f o h = inr (refl, h)

pub more_occurs :
    (b : Bool) (p : Ptr) (v : VarAt) (o : Option (List VarAt))
    → (OccursIf p o) ⊎ ((b ≡ true) × (v.0 ≡ p))
    → OccursIf p (if b then more_references v o else o)
more_occurs true p v none (inl h) = absurd h
more_occurs true p v none (inr (b, h)) = inl h
more_occurs true p v (some vs) (inl h) = Occurs-append_left p vs (v ∷ []) h
more_occurs true p v (some vs) (inr (b, h)) = Occurs-last p vs v h
more_occurs false p v o (inl h) = h
more_occurs false p v o (inr (b, h)) = absurd (not_both true refl (sym b))

pub occurs_more :
    (b : Bool) (p : Ptr) (v : VarAt) (o : Option (List VarAt))
    → OccursIf p (if b then more_references v o else o)
    → (OccursIf p o) ⊎ ((b ≡ true) × (v.0 ≡ p))
occurs_more true p v none (inl h) = inr (refl, h)
occurs_more true p v none (inr h) = absurd h
occurs_more true p v (some vs) h = elim (Occurs-append_one p vs v h) [
  | inl k ↦ inl k
  | inr k ↦ inr (refl, k)
]
occurs_more false p v o h = inl h

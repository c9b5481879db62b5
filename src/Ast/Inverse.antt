-- ===== src/Ast/Inverse.antt =====
-- The tables of definitions and references are inverse to each other.
use nixd.Prelude.{
  Bool, true, false, Option, none, some, List, [], ◌∷◌, ◌==◌, ==_iff, if◌then◌else◌, ◌≡◌, ◌≢◌, ◌↔◌,
  inl, inr, refl, sym, ap, ◌∙◌, subst, arith, All, not_both,
}
use nixd.Ast.Expr.{Ptr, ptr, expr_var}
use nixd.Ast.Distinct.{addresses, IsDistinct}
use nixd.Ast.Scope.Good.{is_null}
use nixd.Ast.Visit.{Edge, NodeMap}
use nixd.Ast.References.{
  Definition, same_definition, VarAt, Tables, find_definition, put_definition, find_references,
  add_reference, search_def, define, and_then, prepare_from,
}
use nixd.Ast.Entries.{
  IsSame, OccursIf, IsDefinedAs, RefersTo, find_definition-put_definition,
  find_references-add_reference, more_defined, more_occurs, occurs_more,
}

-- The tables agree, and the variables to come have no definition.
abbrev pub IsInverse : Tables → Type 0
IsInverse t = (p : Ptr) (d : Definition) → IsDefinedAs t p d ↔ RefersTo t p d

abbrev pub IsNew : Tables → Ptr → Type 0
IsNew t p = find_definition p t.definitions ≡ none

with_one : VarAt → Definition → Tables → Tables
with_one v d t = record {
  definitions = put_definition v.0 d t.definitions;
  references = add_reference d v t.references;
}

not_defined : (f : Definition) (o : Option Definition) → o ≡ none → IsSame f o → ⊥
not_defined f none h k = k
not_defined f (some e) h k = ground arith

defined_here :
    (b : Bool) (d f : Definition) (o : Option Definition)
    → b ≡ true
    → same_definition d f ≡ true
    → IsSame f (if b then some d else o)
defined_here true d f o h k = k
defined_here false d f o h k = absurd (not_both true refl (sym h))

defined_before :
    (b : Bool) (d f : Definition) (o : Option Definition)
    → (b ≡ true → ⊥)
    → IsSame f o
    → IsSame f (if b then some d else o)
defined_before true d f o h k = absurd (h refl)
defined_before false d f o h k = k

with_one-IsInverse :
    (v : VarAt) (d : Definition) (t : Tables)
    → IsNew t v.0
    → IsInverse t
    → IsInverse (with_one v d t)
unfolding with_one
with_one-IsInverse v d t new h p f =
    let g = find_definition-put_definition v.0 p d t.definitions in
    let r = find_references-add_reference d f v t.references in
    (
      λ k.
          subst (λ o. OccursIf p o) (sym r)
            (more_occurs (same_definition d f) p v (find_references f t.references)
              (elim (more_defined (v.0 == p) d f (find_definition p t.definitions)
                (subst (λ o. IsSame f o) g k)) [
                  | inl (b, s) ↦ inr (s, (==_iff v.0 p).0 b)
                  | inr (b, s) ↦ inl ((h p f).0 s)
                ])),
      λ k.
          subst (λ o. IsSame f o) (sym g)
            (elim (occurs_more (same_definition d f) p v (find_references f t.references)
              (subst (λ o. OccursIf p o) r k)) [
                | inr (s, e) ↦
                    defined_here (v.0 == p) d f (find_definition p t.definitions)
                      ((==_iff v.0 p).1 e) s
                | inl o ↦
                    defined_before (v.0 == p) d f (find_definition p t.definitions)
                      (λ b.
                        not_defined f (find_definition p t.definitions)
                          (ap (λ q. find_definition q t.definitions) (sym ((==_iff v.0 p).0 b))
                            ∙ new)
                          ((h p f).1 o))
                      ((h p f).1 o)
              ]),
    )

with_one-IsNew :
    (v : VarAt) (d : Definition) (t : Tables) (ks : List Ptr)
    → All (λ k. v.0 ≢ k) ks
    → All (IsNew t) ks
    → All (IsNew (with_one v d t)) ks
unfolding with_one
with_one-IsNew v d t [] h n = tt
with_one-IsNew v d t (k ∷ ks) (h, hs) (n, ns) = (
  find_definition-put_definition v.0 k d t.definitions
      ∙ if_other (v.0 == k) (λ b. h ((==_iff v.0 k).0 b)) n,
  with_one-IsNew v d t ks hs ns,
)
  where
    if_other :
        (b : Bool)
        → (b ≡ true → ⊥)
        → IsNew t k
        → (if b then some d else find_definition k t.definitions) ≡ none
    if_other true x y = absurd (x refl)
    if_other false x y = y

some_tables : {t r : Tables} → some t ≡ some r → t ≡ r
some_tables h = cc

define-IsInverse :
    (m : NodeMap) (v : VarAt) (es : List Edge) (t r : Tables) (o : Option (Option Definition))
    → ((t' : Tables)
        → IsInverse t'
        → All (IsNew t') (addresses es)
        → prepare_from m es t' ≡ some r
        → IsInverse r)
    → IsInverse t
    → IsNew t v.0
    → All (λ k. v.0 ≢ k) (addresses es)
    → All (IsNew t) (addresses es)
    → and_then (prepare_from m es) (define v t o) ≡ some r
    → IsInverse r
unfolding with_one
define-IsInverse m v es t r none ih h n d ns e = ground arith
define-IsInverse m v es t r (some none) ih h n d ns e = ih t h ns e
define-IsInverse m v es t r (some (some f)) ih h n d ns e =
    ih (with_one v f t) (with_one-IsInverse v f t n h) (with_one-IsNew v f t (addresses es) d ns) e

later :
    (b : Bool) (k : Ptr) (ks : List Ptr) (P : Ptr → Type 0)
    → IsDistinct (if b then ks else k ∷ ks)
    → All P (if b then ks else k ∷ ks)
    → IsDistinct ks × All P ks
later true k ks P d a = (d, a)
later false k ks P d a = (d.2, a.1)

pub prepare_from-IsInverse :
    (m : NodeMap) (es : List Edge) (t r : Tables)
    → IsInverse t
    → IsDistinct (addresses es)
    → All (IsNew t) (addresses es)
    → prepare_from m es t ≡ some r
    → IsInverse r
unfolding prepare_from
prepare_from-IsInverse m [] t r h d n e = subst IsInverse (some_tables e) h
prepare_from-IsInverse m ((expr_var p v, parent) ∷ es) t r h d n e =
    define-IsInverse m (p, v) es t r (search_def m p v)
      (λ t' h' n' e'. prepare_from-IsInverse m es t' r h' d.2 n' e') h n.0 d.1 n.1 e
prepare_from-IsInverse m ((node, parent) ∷ es) t r h d n e =
    let (d2, n2) = later (is_null node) (ptr node) (addresses es) (IsNew t) d n in
    prepare_from-IsInverse m es t r h d2 n2 e

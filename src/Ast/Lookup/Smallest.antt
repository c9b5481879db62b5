-- ===== src/Ast/Lookup/Smallest.antt =====
-- `lookupContainMin` of nixd/lib/AST/ParseAST.cpp, against the ranges of the nodes that the visitor
-- visits.
use nixd.Prelude.{
  ℕ, Bool, true, false, not, ◌&&◌, ◌||◌, Option, none, some, List, [], ◌∷◌, if◌then◌else◌, All, ◌≡◌,
  refl, sym, ap, ◌∙◌, ◌⊎◌, inl, inr, subst, Bool-cases, not_both,
}
use nixd.Ast.Expr.{Expr, ptr, null, expr_error}
use nixd.Ast.Lookup.{
  ParseData, to_lsp_pos, l_range, range_from, range_at, seen_range, Best, everything, visit_min,
  min_from, lookup_contain_min,
}
use nixd.Ast.Visit.{Edge, traverse}
use nixd.Protocol.{Position, Range, contains, contains_range}
use nixd.Ast.Lookup.Ranges.{
  contains_range_refl, contains_range_trans, implied, or_right, to_lsp_pos-in, nested,
}

module _ (data' : ParseData) (desired : Position) where
  -- The range of one node is nested with those of the others.
  abbrev pub NestedWith : Option Range → List Edge → Type 0
  NestedWith o = All (λ (e : Edge). nested desired o (seen_range data' e.0) ≡ true)

  -- The ranges that contain the position are nested.
  abbrev pub AllNested : List Edge → Type 0
  AllNested [] = Unit
  AllNested (e ∷ es) = NestedWith (seen_range data' e.0) es × AllNested es

  -- A node is no candidate, or its range contains the range `s`.
  abbrev pub Around : Range → Edge → Type 0
  Around s e =
      (r : Range)
      → seen_range data' e.0 ≡ some r
      → contains r desired ≡ true
      → contains_range r s ≡ true

  -- A node is no candidate, or its range leaves the range `s`.
  abbrev pub Outside : Range → Edge → Type 0
  Outside s e =
      (r : Range)
      → seen_range data' e.0 ≡ some r
      → contains r desired ≡ true
      → contains_range s r ≡ false

  -- What is left of the search from `b`: its range, or that of a node that contains the position.
  abbrev pub Chosen : Best → Best → Type 0
  Chosen b c =
      (c ≡ b)
      ⊎ ((e : Expr) × (c.node ≡ some e)
          × (seen_range data' e ≡ some c.range)
          × (contains c.range desired ≡ true))

  pub record Smallest (es : List Edge) (b c : Best) : Type 0 where
    pub inside : contains_range b.range c.range ≡ true
    pub around : All (Around c.range) es
    pub chosen : Chosen b c
    pub missed : c.node ≡ none → All (Outside b.range) es

  -- The range of the search so far is nested with those of the nodes to come.
  abbrev pub Fits : Range → List Edge → Type 0
  Fits s = All (λ (e : Edge).
      (r : Range)
      → seen_range data' e.0 ≡ some r
      → contains r desired ≡ true
      → (contains_range s r || contains_range r s) ≡ true)

  Fits-of-NestedWith :
      (r : Range) (es : List Edge) → contains r desired ≡ true → NestedWith (some r) es → Fits r es
  Fits-of-NestedWith r [] c n = tt
  Fits-of-NestedWith r (e ∷ es) c n = (this, Fits-of-NestedWith r es c n.1)
    where
      this :
          (s : Range)
          → seen_range data' e.0 ≡ some s
          → contains s desired ≡ true
          → (contains_range r s || contains_range s r) ≡ true
      this s q d =
          let h : nested desired (some r) (some s) ≡ true =
            subst (λ (o : Option Range). nested desired (some r) o ≡ true) q n.0 in
          implied (contains r desired) (contains s desired)
            (contains_range r s || contains_range s r) h c d

  -- A node that is chosen: what follows is inside its range.
  Smallest-taken :
      (e : Edge) (es : List Edge) (b c : Best) (r : Range)
      → seen_range data' e.0 ≡ some r
      → contains r desired ≡ true
      → contains_range b.range r ≡ true
      → Smallest es (record { node = some e.0; range = r }) c
      → Smallest (e ∷ es) b c
  Smallest-taken e es b c r q d k s = record {
    inside = contains_range_trans b.range r c.range k s.inside;
    around = (
      λ t z g. subst (λ (u : Range). contains_range u c.range ≡ true) (same t z) s.inside,
      s.around,
    );
    chosen = elim s.chosen [
      | inl z ↦ inr (
        e.0,
        ap (λ (x : Best). x.node) z,
        q ∙ ap (λ (x : Best). some x.range) (sym z),
        subst (λ (x : Best). contains x.range desired ≡ true) (sym z) d,
      )
      | inr z ↦ inr z
    ];
    missed = λ z. elim s.chosen [
      | inl y ↦ absurd (clash (sym (ap (λ (x : Best). x.node) y) ∙ z))
      | inr y ↦ absurd (clash (sym y.1 ∙ z))
    ];
  }
    where
      clash : {x : Expr} → some x ≡ none → ⊥
      clash z = cc

      same : (t : Range) → seen_range data' e.0 ≡ some t → r ≡ t
      same t z = cc

  Smallest-passed :
      (e : Edge) (es : List Edge) (b c : Best)
      → Around b.range e
      → Outside b.range e
      → Smallest es b c
      → Smallest (e ∷ es) b c
  Smallest-passed e es b c h o s = record {
    inside = s.inside;
    around = (λ r q d. contains_range_trans r b.range c.range (h r q d) s.inside, s.around);
    chosen = s.chosen;
    missed = λ z. (o, s.missed z);
  }

  step-Smallest :
      (e : Edge) (es : List Edge) (b : Best) (o : Option Range)
      → seen_range data' e.0 ≡ o
      → Fits b.range (e ∷ es)
      → NestedWith o es
      → ((b' : Best) → Fits b'.range es → Smallest es b' (min_from data' desired es b'))
      → Smallest (e ∷ es) b (min_from data' desired es (visit_min data' desired e.0 b o))
  step-Smallest e es b none q f n ih =
      Smallest-passed e es b (min_from data' desired es b) (λ r z d. cc) (λ r z d. cc) (ih b f.1)
  step-Smallest e es b (some r) q f n ih =
      go (contains r desired) (contains_range b.range r) refl refl
    where
      go :
          (x y : Bool)
          → contains r desired ≡ x
          → contains_range b.range r ≡ y
          → Smallest (e ∷ es) b (
              min_from data' desired es
                (if x && y then record { node = some e.0; range = r } else b))
      go true true d k =
          Smallest-taken e es b (min_from data' desired es (record { node = some e.0; range = r }))
            r q d k (ih (record { node = some e.0; range = r }) (Fits-of-NestedWith r es d n))
      go true false d k =
          Smallest-passed e es b (min_from data' desired es b)
            (λ t z g.
              let same : r ≡ t = cc in
              subst (λ (u : Range). contains_range u b.range ≡ true) same
                (or_right (contains_range b.range r) (contains_range r b.range) k (f.0 r q d)))
            (λ t z g.
              let same : r ≡ t = cc in
              subst (λ (u : Range). contains_range b.range u ≡ false) same k)
            (ih b f.1)
      go false y d k =
          Smallest-passed e es b (min_from data' desired es b)
            (λ t z g.
              let same : t ≡ r = cc in
              absurd (
                not_both (contains r desired)
                  (subst (λ (u : Range). contains u desired ≡ true) same g) d))
            (λ t z g.
              let same : t ≡ r = cc in
              absurd (
                not_both (contains r desired)
                  (subst (λ (u : Range). contains u desired ≡ true) same g) d))
            (ih b f.1)

  min_from-Smallest :
      (es : List Edge) (b : Best)
      → Fits b.range es
      → AllNested es
      → Smallest es b (min_from data' desired es b)
  unfolding min_from
  min_from-Smallest [] b f a = record {
    inside = contains_range_refl b.range;
    around = tt;
    chosen = inl refl;
    missed = λ z. tt;
  }
  min_from-Smallest (e ∷ es) b f a =
      step-Smallest e es b (seen_range data' e.0) refl f a.0
        (λ b' f'. min_from-Smallest es b' f' a.1)

  range_from-in :
      (b : ℕ) (o : Option ℕ) (r : Range)
      → range_from data' b o ≡ some r
      → contains_range everything r ≡ true
  range_from-in b none r q = cc
  range_from-in b (some e) r q =
      let same : record {
        start = to_lsp_pos (data'.positions b);
        end = to_lsp_pos (data'.positions e);
      }
          ≡ r =
        cc in
      subst (λ (s : Range). contains_range everything s ≡ true) same
        (to_lsp_pos-in (data'.positions b) (data'.positions e))

  range_at-in :
      (o : Option ℕ) (r : Range) → range_at data' o ≡ some r → contains_range everything r ≡ true
  range_at-in none r q = cc
  range_at-in (some b) r q = range_from-in b (data'.ends b) r q

  seen_range-in :
      (e : Expr) (r : Range) → seen_range data' e ≡ some r → contains_range everything r ≡ true
  unfolding seen_range l_range
  seen_range-in null r q = cc
  seen_range-in (expr_error p) r q = range_at-in (data'.locations p) r q
  seen_range-in e r q = range_at-in (data'.locations (ptr e)) r q

  Fits-everything : (es : List Edge) → Fits everything es
  Fits-everything [] = tt
  Fits-everything (e ∷ es) = ((λ r q d. rw (seen_range-in e.0 r q) refl), Fits-everything es)

  -- A node that is visited is at the position; where it is, its range contains the range `s`.
  abbrev pub is_at : Option Range → Bool
  is_at none = false
  is_at (some r) = contains r desired

  abbrev pub is_around : Range → Option Range → Bool
  is_around s none = true
  is_around s (some r) = not (contains r desired) || contains_range r s

  none-at :
      (es : List Edge)
      → All (Outside everything) es
      → All (λ (e : Edge). is_at (seen_range data' e.0) ≡ false) es
  none-at [] h = tt
  none-at (e ∷ es) h = (this (seen_range data' e.0) refl (h.0), none-at es h.1)
    where
      this : (o : Option Range) → seen_range data' e.0 ≡ o → Outside everything e → is_at o ≡ false
      this none q g = refl
      this (some r) q g = elim (Bool-cases (contains r desired)) [
        | inr z ↦ z
        | inl z ↦ absurd (not_both (contains_range everything r) (seen_range-in e.0 r q) (g r q z))
      ]

  all-Around :
      (s : Range) (es : List Edge)
      → All (Around s) es
      → All (λ (e : Edge). is_around s (seen_range data' e.0) ≡ true) es
  all-Around s [] h = tt
  all-Around s (e ∷ es) h = (this (seen_range data' e.0) refl h.0, all-Around s es h.1)
    where
      this : (o : Option Range) → seen_range data' e.0 ≡ o → Around s e → is_around s o ≡ true
      this none q g = refl
      this (some r) q g = elim (Bool-cases (contains r desired)) [
        | inr z ↦ rw z refl
        | inl z ↦ rw (z, g r q z) refl
      ]

  -- What a lookup of the smallest node has to give.
  abbrev pub MinAt : List Edge → Option Expr → Type 0
  MinAt es none = All (λ (e : Edge). is_at (seen_range data' e.0) ≡ false) es
  MinAt es (some x) =
      (s : Range) × (seen_range data' x ≡ some s)
      × (contains s desired ≡ true)
      × All (λ (e : Edge). is_around s (seen_range data' e.0) ≡ true) es

  min-MinAt :
      (es : List Edge) (c : Best)
      → Smallest es (record { node = none; range = everything }) c
      → MinAt es c.node
  min-MinAt es c s = go c.node refl
    where
      clash : {x : Expr} → none ≡ some x → ⊥
      clash z = cc

      go : (o : Option Expr) → c.node ≡ o → MinAt es o
      go none q = none-at es (s.missed q)
      go (some x) q = elim s.chosen [
        | inl y ↦ absurd (clash (sym (ap (λ (b : Best). b.node) y) ∙ q))
        | inr (e, y, z, w) ↦
            let same : e ≡ x = cc in
            (
              c.range,
              subst (λ (u : Expr). seen_range data' u ≡ some c.range) same z,
              w,
              all-Around c.range es s.around,
            )
      ]

  -- Where the ranges that contain the position are nested, `lookupContainMin` gives a node whose
  -- range contains the position and lies in the range of every such node, and it gives no node
  -- exactly where there is none.
  pub lookup_contain_min-MinAt :
      (root : Expr)
      → AllNested (traverse root root)
      → MinAt (traverse root root) (lookup_contain_min data' root desired)
  unfolding lookup_contain_min
  lookup_contain_min-MinAt root a =
      let b : Best = record { node = none; range = everything } in
      min-MinAt (traverse root root) (min_from data' desired (traverse root root) b)
        (min_from-Smallest (traverse root root) b (Fits-everything (traverse root root)) a)

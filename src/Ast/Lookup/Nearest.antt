-- ===== src/Ast/Lookup/Nearest.antt =====
-- `lookupStart` of nixd/lib/AST/ParseAST.cpp, against the ranges of the nodes that the
-- visitor visits.
use nixd.Prelude.{
  Bool, true, false, ◌&&◌, ◌||◌, Option, none, some, List, [], ◌∷◌, if◌then◌else◌, All, ◌≡◌, refl,
  sym, ap, ◌∙◌, ◌⊎◌, inl, inr, subst, arith,
}
use nixd.Ast.Expr.{Expr}
use nixd.Ast.Lookup.{ParseData, seen_range, Best, nothing, visit_start, start_from, lookup_start}
use nixd.Ast.Visit.{Edge, traverse}
use nixd.Protocol.{Position, Range, position_lt, position_le, position_eq}

-- `fits` is that a range is looked for; `le r s` that `s` is as good as `r`.
module _ (fits : Range → Bool) (le : Range → Range → Bool) where
  abbrev pub NoBetter : Range → Option Range → Type 0
  NoBetter s none = Unit
  NoBetter s (some r) = fits r ≡ true → le r s ≡ true

module _ (data' : ParseData) (fits : Range → Bool) (le : Range → Range → Bool) where
  abbrev pub AllNoBetter : Range → List Edge → Type 0
  AllNoBetter s = All (λ e. NoBetter fits le s (seen_range data' e.0))

  -- The node that is found passes, and no other that passes is better; where none is found, no other
  -- is better than the range that the search starts with.
  abbrev pub IsNearest : Range → List Edge → Option Expr → Type 0
  IsNearest start es none = AllNoBetter start es
  IsNearest start es (some e) =
      (r : Range) × (seen_range data' e ≡ some r) × (fits r ≡ true) × AllNoBetter r es

-- A search that takes a node where `take` says so.
module _ (data' : ParseData) (take : Range → Range → Bool) (fits : Range → Bool)
    (le : Range → Range → Bool) where
  abbrev pick : Expr → Best → Option Range → Best
  pick e b none = b
  pick e b (some r) = if take b.range r then record { node = some e; range = r } else b

  pick_from : List Edge → Best → Best
  pick_from [] b = b
  pick_from (e ∷ es) b = pick_from es (pick e.0 b (seen_range data' e.0))

  abbrev Picked : Best → Best → Type 0
  Picked b c =
      (c ≡ b)
      ⊎ ((e : Expr) × (c.node ≡ some e)
          × (seen_range data' e ≡ some c.range)
          × (fits c.range ≡ true))

  record IsBest (es : List Edge) (b c : Best) : Type 0 where
    as_good : le b.range c.range ≡ true
    no_better : AllNoBetter data' fits le c.range es
    picked : Picked b c

  -- What `take` says is in order.
  record IsOrder : Type 0 where
    taken : (s r : Range) → take s r ≡ true → (fits r ≡ true) × (le s r ≡ true)
    left : (s r : Range) → take s r ≡ false → fits r ≡ true → le r s ≡ true
    le_refl : (s : Range) → le s s ≡ true
    le_trans : (r s t : Range) → le r s ≡ true → le s t ≡ true → le r t ≡ true

  module _ (o : IsOrder) where
    -- One node: the search goes on from its range or from the one before.
    pick-IsBest :
        (e : Expr) (b : Best) (r : Option Range)
        → seen_range data' e ≡ r
        → (le b.range (pick e b r).range ≡ true)
          × NoBetter fits le (pick e b r).range r
          × Picked b (pick e b r)
    pick-IsBest e b none h = (o.le_refl b.range, tt, inl refl)
    pick-IsBest e b (some r) h = go (take b.range r) refl
      where
        go :
            (t : Bool)
            → take b.range r ≡ t
            → (le b.range (if t then record { node = some e; range = r } else b).range ≡ true)
              × (fits r ≡ true
                  → le r (if t then record { node = some e; range = r } else b).range ≡ true)
              × Picked b (if t then record { node = some e; range = r } else b)
        go true q =
            ((o.taken b.range r q).1, λ f. o.le_refl r, inr (e, refl, h, (o.taken b.range r q).0))
        go false q = (o.le_refl b.range, λ f. o.left b.range r q f, inl refl)

    NoBetter-le :
        (s t : Range) (r : Option Range)
        → le s t ≡ true
        → NoBetter fits le s r
        → NoBetter fits le t r
    NoBetter-le s t none h k = tt
    NoBetter-le s t (some r) h k = λ f. o.le_trans r s t (k f) h

    Picked-then : (b c d : Best) → Picked b c → Picked c d → Picked b d
    Picked-then b c d h (inr k) = inr k
    Picked-then b c d h (inl k) = subst (λ x. Picked b x) (sym k) h

    pick_from-IsBest : (es : List Edge) (b : Best) → IsBest es b (pick_from es b)
    unfolding pick_from
    pick_from-IsBest [] b = record {
      as_good = o.le_refl b.range;
      no_better = tt;
      picked = inl refl;
    }
    pick_from-IsBest (e ∷ es) b =
        let c = pick e.0 b (seen_range data' e.0) in
        let (here, first, p) = pick-IsBest e.0 b (seen_range data' e.0) refl in
        let rest = pick_from-IsBest es c in
        record {
          as_good = o.le_trans b.range c.range (pick_from es c).range here rest.as_good;
          no_better = (
            NoBetter-le c.range (pick_from es c).range (seen_range data' e.0) rest.as_good first,
            rest.no_better,
          );
          picked = Picked-then b c (pick_from es c) p rest.picked;
        }

  IsBest-IsNearest :
      (es : List Edge) (start : Range) (c : Best)
      → IsBest es (record { node = none; range = start }) c
      → IsNearest data' fits le start es c.node
  IsBest-IsNearest es start c h = elim h.picked [
    | inl e ↦
        subst (λ x. IsNearest data' fits le start es x) (sym (ap (λ x. x.node) e))
          (subst (λ x. AllNoBetter data' fits le x es) (ap (λ x. x.range) e) h.no_better)
    | inr (e, n, s, f) ↦
        subst (λ x. IsNearest data' fits le start es x) (sym n) (c.range, s, f, h.no_better)
  ]

module _ (data' : ParseData) (desired : Position) where
  abbrev pub starts_behind : Range → Bool
  starts_behind r = position_le desired r.start

  abbrev pub starts_from : Range → Range → Bool
  starts_from r s = position_le s.start r.start

  abbrev take_start : Range → Range → Bool
  take_start s r =
      position_le desired r.start
      && (position_lt r.start s.start || (position_eq r.start s.start && position_le r.end s.end))

  start_order : IsOrder data' take_start starts_behind starts_from
  start_order = record {
    taken = λ s r h. (ground (arith, h), ground (arith, h));
    left = λ s r h f. ground (arith, h, f);
    le_refl = λ s. ground arith;
    le_trans = λ r s t h k. ground (arith, h, k);
  }

  visit_start-pick :
      (e : Expr) (b : Best) (o : Option Range)
      → visit_start data' desired e b o ≡ pick data' take_start starts_behind starts_from e b o
  visit_start-pick e b none = refl
  visit_start-pick e b (some r) = refl

  start_from-pick :
      (es : List Edge) (b : Best)
      → start_from data' desired es b ≡ pick_from data' take_start starts_behind starts_from es b
  unfolding start_from pick_from
  start_from-pick [] b = refl
  start_from-pick (e ∷ es) b =
      start_from-pick es (visit_start data' desired e.0 b (seen_range data' e.0))
      ∙ ap (pick_from data' take_start starts_behind starts_from es)
          (visit_start-pick e.0 b (seen_range data' e.0))

  -- lookupStart gives a node that starts at the position or behind it, and no node that does starts
  -- before it; where it gives no node, no node that starts at the position or behind it starts before
  -- the largest position of `int`s.
  pub lookup_start-IsNearest :
      (root : Expr)
      → IsNearest data' starts_behind starts_from nothing
          (traverse root root)
          (lookup_start data' root desired)
  unfolding lookup_start
  lookup_start-IsNearest root =
      let es = traverse root root in
      let b : Best = record { node = none; range = nothing } in
      subst (λ c. IsNearest data' starts_behind starts_from nothing es c.node)
        (sym (start_from-pick es b))
        (IsBest-IsNearest data' take_start starts_behind starts_from es nothing _
          (pick_from-IsBest data' take_start starts_behind starts_from start_order es b))

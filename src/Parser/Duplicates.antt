-- ===== src/Parser/Duplicates.antt =====
-- The duplicates that `toFormals` reports.
use nixd.Prelude.{
  ℕ, ◌+◌, ◌≤◌, Bool, true, false, Option, none, some, List, [], ◌∷◌, ◌==◌, ==_iff, if◌then◌else◌,
  count, All, ◌≡◌, ◌⊎◌, inl, inr, refl, sym, subst, arith, Bool-cases,
}
use nixd.Parser.Formals.{
  Formal, Duplicate, tie_less, insert_formal, sort_formals, pair_less, least, find_duplicate,
}

abbrev pub names : List Formal → List ℕ
names [] = []
names (f ∷ fs) = f.name ∷ names fs

abbrev pub From : ℕ → Formal → Type 0
From n f = n ≤ f.name

abbrev pub IsSorted : List Formal → Type 0
IsSorted [] = Unit
IsSorted (f ∷ fs) = All (From f.name) fs × IsSorted fs

insert_formal-From :
    (n : ℕ) (f : Formal) (fs : List Formal)
    → n ≤ f.name
    → All (From n) fs
    → All (From n) (insert_formal f fs)
unfolding insert_formal
insert_formal-From n f [] h k = (h, tt)
insert_formal-From n f (g ∷ gs) h (k, ks) = go (tie_less f g) (insert_formal-From n f gs h ks)
  where
    go :
        (b : Bool)
        → All (From n) (insert_formal f gs)
        → All (From n) (if b then f ∷ g ∷ gs else g ∷ insert_formal f gs)
    go true r = (h, (k, ks))
    go false r = (k, r)

From-trans : (m n : ℕ) (fs : List Formal) → m ≤ n → All (From n) fs → All (From m) fs
From-trans m n [] h k = tt
From-trans m n (f ∷ fs) h (k, ks) = (omega (arith, h, k), From-trans m n fs h ks)

insert_formal-IsSorted :
    (f : Formal) (fs : List Formal) → IsSorted fs → IsSorted (insert_formal f fs)
unfolding insert_formal
insert_formal-IsSorted f [] h = (tt, tt)
insert_formal-IsSorted f (g ∷ gs) (h, hs) = elim (Bool-cases (tie_less f g)) [
  | inl e ↦
      subst (λ b. IsSorted (if b then f ∷ g ∷ gs else g ∷ insert_formal f gs)) (sym e)
        ((ground (arith, e), From-trans f.name g.name gs (ground (arith, e)) h), (h, hs))
  | inr e ↦
      subst (λ b. IsSorted (if b then f ∷ g ∷ gs else g ∷ insert_formal f gs)) (sym e)
        (insert_formal-From g.name f gs (ground (arith, e)) h, insert_formal-IsSorted f gs hs)
]

pub sort_formals-IsSorted : (fs : List Formal) → IsSorted (sort_formals fs)
unfolding sort_formals
sort_formals-IsSorted [] = tt
sort_formals-IsSorted (f ∷ fs) =
    insert_formal-IsSorted f (sort_formals fs) (sort_formals-IsSorted fs)

count-insert_formal :
    (n : ℕ) (f : Formal) (fs : List Formal)
    → count n (names (insert_formal f fs)) ≡ count n (f.name ∷ names fs)
unfolding insert_formal
count-insert_formal n f [] = refl
count-insert_formal n f (g ∷ gs) = go (tie_less f g) (count-insert_formal n f gs)
  where
    go :
        (b : Bool)
        → count n (names (insert_formal f gs)) ≡ count n (f.name ∷ names gs)
        → count n (names (if b then f ∷ g ∷ gs else g ∷ insert_formal f gs))
          ≡ count n (f.name ∷ g.name ∷ names gs)
    go true r = refl
    go false r = omega (arith, r)

pub count-sort_formals :
    (n : ℕ) (fs : List Formal) → count n (names (sort_formals fs)) ≡ count n (names fs)
unfolding sort_formals
count-sort_formals n [] = refl
count-sort_formals n (f ∷ fs) =
    omega (arith, count-insert_formal n f (sort_formals fs), count-sort_formals n fs)

count_below : (n : ℕ) (fs : List Formal) → All (From (n + 1)) fs → count n (names fs) ≡ 0
count_below n [] h = refl
count_below n (f ∷ fs) (h, hs) = ground (arith, h, count_below n fs hs)

abbrev pub IsOf : Option Duplicate → ℕ → Type 0
IsOf none n = ⊥
IsOf (some d) n = d.symbol ≡ n

abbrev pub IsBelow : Option Duplicate → ℕ → Type 0
IsBelow none n = Unit
IsBelow (some d) n = n ≤ d.symbol

-- What the loop leaves, of the formals and of what was found before.
abbrev pub Reports : List Formal → Option Duplicate → Option Duplicate → Type 0
Reports fs before none = (before ≡ none) × ((m : ℕ) → count m (names fs) ≤ 1)
Reports fs before (some d) =
    ((2 ≤ count d.symbol (names fs)) ⊎ IsOf before d.symbol)
    × ((m : ℕ) → 2 ≤ count m (names fs) → d.symbol ≤ m)
    × IsBelow before d.symbol

least-symbol :
    (d : Duplicate) (before : Option Duplicate)
    → ((least d before).symbol ≤ d.symbol)
      × IsBelow before (least d before).symbol
      × (((least d before).symbol ≡ d.symbol) ⊎ IsOf before (least d before).symbol)
least-symbol d none = (omega arith, tt, inl refl)
least-symbol d (some e) = elim (Bool-cases (pair_less e d)) [
  | inl q ↦
      subst
        (λ b.
          ((if b then e else d).symbol ≤ d.symbol)
          × ((if b then e else d).symbol ≤ e.symbol)
          × (((if b then e else d).symbol ≡ d.symbol) ⊎ (e.symbol ≡ (if b then e else d).symbol)))
        (sym q) (ground (arith, q), omega arith, inr refl)
  | inr q ↦
      subst
        (λ b.
          ((if b then e else d).symbol ≤ d.symbol)
          × ((if b then e else d).symbol ≤ e.symbol)
          × (((if b then e else d).symbol ≡ d.symbol) ⊎ (e.symbol ≡ (if b then e else d).symbol)))
        (sym q) (omega arith, ground (arith, q), inl refl)
]

IsBelow-le : (b : Option Duplicate) (m n : ℕ) → n ≤ m → IsBelow b m → IsBelow b n
IsBelow-le none m n h k = tt
IsBelow-le (some d) m n h k = omega (arith, h, k)

Reports-same :
    (f g : Formal) (fs : List Formal) (before r : Option Duplicate)
    → f.name ≡ g.name
    → Reports (g ∷ fs) (some (least (record { symbol = f.name; position = g.pos }) before)) r
    → Reports (f ∷ g ∷ fs) before r
Reports-same f g fs before none e h = absurd (ground (arith, h.0))
Reports-same f g fs before (some d) e (a, b, c) =
    let (low, below, which) = least-symbol (record { symbol = f.name; position = g.pos }) before in
    (
      elim a [
        | inl k ↦ inl (omega (arith, k))
        | inr k ↦ elim which [
          | inl w ↦ inl (ground (arith, e, k, w))
          | inr w ↦ inr (subst (λ n. IsOf before n) k w)
        ]
      ],
      λ m k. elim (Bool-cases (f.name == m)) [
        | inl q ↦ ground (arith, q, c, low)
        | inr q ↦ b m (ground (arith, q, k))
      ],
      IsBelow-le before _ d.symbol c below,
    )

Reports-other :
    (f g : Formal) (fs : List Formal) (before r : Option Duplicate)
    → (f.name == g.name) ≡ false
    → f.name ≤ g.name
    → All (From g.name) fs
    → Reports (g ∷ fs) before r
    → Reports (f ∷ g ∷ fs) before r
Reports-other f g fs before r e l s h = go r h
  where
    higher : f.name + 1 ≤ g.name
    higher = ground (arith, e, l)

    zero_here : count f.name (names (g ∷ fs)) ≡ 0
    zero_here = count_below f.name (g ∷ fs) (higher, From-trans (f.name + 1) g.name fs higher s)

    go : (r : Option Duplicate) → Reports (g ∷ fs) before r → Reports (f ∷ g ∷ fs) before r
    go none (b, k) = (
      b,
      λ m. elim (Bool-cases (f.name == m)) [
        | inl q ↦
            subst (λ n. count n (names (f ∷ g ∷ fs)) ≤ 1) ((==_iff f.name m).0 q)
              (ground (arith, zero_here))
        | inr q ↦ ground (arith, q, k m)
      ],
    )
    go (some d) (a, b, c) = (
      elim a [ inl k ↦ inl (omega (arith, k)) | inr k ↦ inr k ],
      λ m k. elim (Bool-cases (f.name == m)) [
        | inl q ↦ absurd (two_one m q k)
        | inr q ↦ b m (ground (arith, q, k))
      ],
      c,
    )
      where
        two_one : (m : ℕ) → (f.name == m) ≡ true → 2 ≤ count m (names (f ∷ g ∷ fs)) → ⊥
        two_one m q =
            subst (λ n. 2 ≤ count n (names (f ∷ g ∷ fs)) → ⊥) ((==_iff f.name m).0 q)
              (λ k. ground (arith, zero_here, k))

pub find_duplicate-Reports :
    (fs : List Formal) (before : Option Duplicate)
    → IsSorted fs
    → Reports fs before (find_duplicate fs before)
unfolding find_duplicate
find_duplicate-Reports [] none s = (refl, λ m. omega arith)
find_duplicate-Reports [] (some d) s = (inr refl, λ m k. absurd (omega (arith, k)), omega arith)
find_duplicate-Reports (f ∷ []) none s = (refl, λ m. ground arith)
find_duplicate-Reports (f ∷ []) (some d) s =
    (inr refl, λ m k. absurd (ground (arith, k)), omega arith)
find_duplicate-Reports (f ∷ g ∷ fs) before ((l, ls), s) = elim (Bool-cases (f.name == g.name)) [
  | inl e ↦
      subst
        (λ b. Reports (f ∷ g ∷ fs) before (
          find_duplicate (g ∷ fs) (
            if b
            then some (least (record { symbol = f.name; position = g.pos }) before)
            else before)))
        (sym e)
        (Reports-same f g fs before _ ((==_iff f.name g.name).0 e) (
          find_duplicate-Reports (g ∷ fs)
            (some (least (record { symbol = f.name; position = g.pos }) before)) s))
  | inr e ↦
      subst
        (λ b. Reports (f ∷ g ∷ fs) before (
          find_duplicate (g ∷ fs) (
            if b
            then some (least (record { symbol = f.name; position = g.pos }) before)
            else before)))
        (sym e) (Reports-other f g fs before _ e l s.0 (find_duplicate-Reports (g ∷ fs) before s))
]

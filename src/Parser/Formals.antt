-- ===== src/Parser/Formals.antt =====
-- `toFormals` of nixd/include/nixd/Parser/Prologue.cpp: the formals of a function, and the errors for
-- those that are named twice. Symbols and positions are numbers.
use nixd.Prelude.{
  ℕ, Bool, ◌&&◌, ◌||◌, Option, none, some, List, [], ◌∷◌, ◌++◌, ltb, ◌==◌, if◌then◌else◌,
}

-- `nix::Formal`, as far as it is read.
pub record Formal : Type 0 where
  pub name : ℕ
  pub pos : ℕ

pub record ParserFormals : Type 0 where
  pub formals : List Formal
  pub ellipsis : Bool

-- "duplicate formal function argument" of a symbol, at a position.
pub record Duplicate : Type 0 where
  pub symbol : ℕ
  pub position : ℕ

-- The order of `std::sort`, on names and positions, and the sort.
abbrev pub tie_less : Formal → Formal → Bool
tie_less a b = ltb a.name b.name || (a.name == b.name && ltb a.pos b.pos)

unfoldable pub insert_formal : Formal → List Formal → List Formal
insert_formal f [] = f ∷ []
insert_formal f (g ∷ gs) =
    let rest = insert_formal f gs in if tie_less f g then f ∷ g ∷ gs else g ∷ rest

unfoldable pub sort_formals : List Formal → List Formal
sort_formals [] = []
sort_formals (f ∷ fs) = insert_formal f (sort_formals fs)

-- `std::min` of the pairs; the first one where they are the same.
abbrev pub pair_less : Duplicate → Duplicate → Bool
pair_less a b = ltb a.symbol b.symbol || (a.symbol == b.symbol && ltb a.position b.position)

abbrev pub least : Duplicate → Option Duplicate → Duplicate
least this none = this
least this (some d) = if pair_less d this then d else this

-- The loop over the neighbours.
unfoldable pub find_duplicate : List Formal → Option Duplicate → Option Duplicate
find_duplicate [] d = d
find_duplicate (f ∷ []) d = d
find_duplicate (f ∷ g ∷ fs) d =
    find_duplicate (g ∷ fs) (
      if f.name == g.name then some (least (record { symbol = f.name; position = g.pos }) d) else d)

abbrev pub errors_of : Option Duplicate → List Duplicate
errors_of none = []
errors_of (some d) = d ∷ []

-- `has` is that of `nix::Formals`, a search in the sorted formals; the argument 0 is unset.
unfoldable pub to_formals :
    (List Formal → ℕ → Bool) → ParserFormals → ℕ → ℕ → List Duplicate × ParserFormals
to_formals has parsed pos arg =
    let fs = sort_formals parsed.formals in
    let named = has fs arg in
    (
      errors_of (find_duplicate fs none)
          ++ (if arg == 0
              then []
              else if named
              then record { symbol = arg; position = pos } ∷ []
              else []),
      record { formals = fs; ellipsis = parsed.ellipsis },
    )

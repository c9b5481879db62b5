-- ===== src/Protocol.antt =====
-- The positions and ranges of lspserver/include/lspserver/Protocol.h, with their orders.
-- `std::tie(line, character)` compares lexicographically; both members are signed.
use nixd.Prelude.{◌≡◌, arith, Bool, not, ◌&&◌, ◌||◌, ℤ, int_lt, int_eq, if◌then◌else◌}

pub record Position : Type 0 where
  pub line : ℤ
  pub character : ℤ

abbrev pub position_eq : Position → Position → Bool
position_eq a b = int_eq a.line b.line && int_eq a.character b.character

abbrev pub position_lt : Position → Position → Bool
position_lt a b =
    int_lt a.line b.line || (not (int_lt b.line a.line) && int_lt a.character b.character)

abbrev pub position_le : Position → Position → Bool
position_le a b = not (position_lt b a)

pub record Range : Type 0 where
  pub start : Position
  pub end : Position

-- `contains(Position)`: the end is outside.
unfoldable pub contains : Range → Position → Bool
contains r p = position_le r.start p && position_lt p r.end

-- `contains(Range)`.
unfoldable pub contains_range : Range → Range → Bool
contains_range r s = position_le r.start s.start && position_le s.end r.end

-- `operator/`: `std::min` of the starts and `std::max` of the ends.
unfoldable pub hull : Range → Range → Range
hull r s = record {
  start = if position_lt s.start r.start then s.start else r.start;
  end = if position_lt r.end s.end then s.end else r.end;
}

position_le-min :
    (t r s : Position)
    → position_le t (if position_lt s r then s else r) ≡ (position_le t r && position_le t s)
position_le-min t r s = ground arith

position_le-max :
    (t r s : Position)
    → position_le (if position_lt r s then s else r) t ≡ (position_le r t && position_le s t)
position_le-max t r s = ground arith

and_swap : (a b c d : Bool) → ((a && b) && (c && d)) ≡ ((a && c) && (b && d))
and_swap a b c d = ground arith

-- A range contains the hull of two exactly where it contains both of them.
pub contains_range-hull :
    (t r s : Range) → contains_range t (hull r s) ≡ (contains_range t r && contains_range t s)
unfolding contains_range hull
contains_range-hull t r s =
    rw (position_le-min t.start r.start s.start, position_le-max t.end r.end s.end)
      (and_swap (position_le t.start r.start) (position_le t.start s.start)
        (position_le r.end t.end) (position_le s.end t.end))

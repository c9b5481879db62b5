-- ===== src/Ast/Lookup/Ranges.antt =====
-- The orders of positions and ranges, and the ranges that an `int` allows.
use nixd.Prelude.{
  ℕ, ◌-◌, max, Bool, true, false, not, ◌&&◌, ◌||◌, Option, some, to_int, ◌≡◌, refl, arith, both,
  to_int-above, to_int-below,
}
use nixd.Ast.Lookup.{LineColumn, to_lsp_pos, everything}
use nixd.Protocol.{Position, position_le, Range, contains, contains_range}

pub contains_range_refl : (r : Range) → contains_range r r ≡ true
unfolding contains_range
contains_range_refl r = ground arith

position_le_trans :
    (a b c : Position) → position_le a b ≡ true → position_le b c ≡ true → position_le a c ≡ true
position_le_trans a b c h k = ground (arith, h, k)

pub contains_range_trans :
    (r s t : Range)
    → contains_range r s ≡ true
    → contains_range s t ≡ true
    → contains_range r t ≡ true
unfolding contains_range
contains_range_trans r s t h k =
    let (h0, h1) = both (position_le r.start s.start) (position_le s.end r.end) h in
    let (k0, k1) = both (position_le s.start t.start) (position_le t.end s.end) k in
    rw (position_le_trans r.start s.start t.start h0 k0, position_le_trans t.end s.end r.end k1 h1)
      refl

-- One of two ranges contains the other, if both contain the position.
abbrev pub nested : Position → Option Range → Option Range → Bool
nested desired (some r) (some s) =
    not (contains r desired && contains s desired) || (contains_range r s || contains_range s r)
nested desired _ _ = true

pub implied : (x y p : Bool) → (not (x && y) || p) ≡ true → x ≡ true → y ≡ true → p ≡ true
implied true true p h c d = h
implied true false p h c d = cc
implied false y p h c d = cc

pub or_right : (x y : Bool) → x ≡ false → (x || y) ≡ true → y ≡ true
or_right true y h k = cc
or_right false y h k = k

int_corner-low :
    (m n : ℕ)
    → position_le everything.start (record { line = to_int m; character = to_int n }) ≡ true
int_corner-low m n = ground (arith, to_int-above m, to_int-above n)

int_corner-high :
    (m n : ℕ) → position_le (record { line = to_int m; character = to_int n }) everything.end ≡ true
int_corner-high m n = ground (arith, to_int-below m, to_int-below n)

pub to_lsp_pos-in :
    (a b : LineColumn)
    → contains_range everything (record { start = to_lsp_pos a; end = to_lsp_pos b }) ≡ true
unfolding contains_range to_lsp_pos
to_lsp_pos-in a b =
    rw
      (
        int_corner-low (max 1 a.line - 1) (max 1 a.column - 1),
        int_corner-high (max 1 b.line - 1) (max 1 b.column - 1),
      )
      refl

-- ===== src/Text/Tests.antt =====
-- Runs of the conversions and of the edits, on a text with a euro sign (three bytes, one code unit)
-- and a code point outside the basic plane (four bytes, two units).
use nixd.Prelude.{
  ℕ, true, false, none, some, [], ◌∷◌, ◌++◌, ◌↔◌, pos, Bytes, codes, length, ◌≡◌, refl, arith,
}
use nixd.Protocol.{Position}
use nixd.Text.Change.{
  Change, lacks_final_newline, infers_newline, infer_final_newline, resolve_end, apply_between,
  apply_change,
}
use nixd.Text.CodePoints.{whole}
use nixd.Text.Edits.{Kept, below, apply_change-splice, apply_change-Kept, apply_change-inferred}
use nixd.Text.Exact.{Cut, position_to_offset_iff, offset_to_position-position_to_offset}
use nixd.Text.Offset.{
  ok, err, line_out_of_range, offset_invalid, find_newline, take_line, start_of_line, last_line,
  position_to_offset, offset_to_position,
}
use nixd.Text.RoundTrip.{position_to_offset-offset_to_position}
use nixd.Text.Units.{
  countl_one, u8_length, u16_length, iterate_codepoints, lsp_length, measure_units,
}

abbrev line_one : Bytes
line_one = b'a' ∷ 0xe2 ∷ 0x82 ∷ 0xac ∷ 0xf0 ∷ 0x9f ∷ 0x98 ∷ 0x80 ∷ []

abbrev text : Bytes
text = codes "x\n" ++ line_one ++ codes "b\nc"

abbrev at : ℕ → ℕ → Position
at line character = record { line = pos line; character = pos character }

lsp_length_run : lsp_length line_one ≡ 4
unfolding lsp_length iterate_codepoints u16_length u8_length countl_one
lsp_length_run = refl

to_offset_runs :
    (position_to_offset text (at 1 4) false ≡ ok 10)
    × (position_to_offset text (at 1 3) false ≡ err offset_invalid)
    × (position_to_offset text (at 1 3) true ≡ ok 10)
    × (position_to_offset text (at 3 0) false ≡ err line_out_of_range)
unfolding position_to_offset start_of_line find_newline take_line measure_units iterate_codepoints
    u16_length u8_length countl_one
to_offset_runs = (refl, refl, refl, refl)

to_position_run : offset_to_position text 10 ≡ at 1 4
unfolding offset_to_position last_line lsp_length iterate_codepoints u16_length u8_length countl_one
to_position_run = refl

position_to_offset_iff_example :
    (position_to_offset text (at 1 4) false ≡ ok 10) ↔ Cut text (at 1 4) 10
position_to_offset_iff_example = position_to_offset_iff text (at 1 4) 10

offset_to_position-position_to_offset_example : offset_to_position text 10 ≡ at 1 4
offset_to_position-position_to_offset_example =
    offset_to_position-position_to_offset text (at 1 4) 10 (omega arith) to_offset_runs.0

position_to_offset-offset_to_position_example :
    position_to_offset text (offset_to_position text 10) false ≡ ok 10
position_to_offset-offset_to_position_example =
    position_to_offset-offset_to_position (codes "x\n" ++ line_one) (codes "b\nc") false ends
      (omega arith)
  where
    ends : whole 0 (last_line (codes "x\n" ++ line_one)) ≡ true
    ends = unfold whole last_line u8_length countl_one in refl

abbrev cut_before : Cut text (at 1 4) (length (codes "x\n" ++ line_one))
cut_before = (position_to_offset_iff text (at 1 4) 10).0 to_offset_runs.0

to_offset_end : position_to_offset text (at 2 0) false ≡ ok 12
unfolding position_to_offset start_of_line find_newline take_line measure_units iterate_codepoints
    u16_length u8_length countl_one
to_offset_end = refl

apply_change-splice_example :
    apply_change text (record {
      range = some (record { start = at 1 4; end = at 2 0 });
      range_length = some (pos 2);
      text = codes "!";
    })
    ≡ (ok tt, codes "x\n" ++ line_one ++ codes "!c")
apply_change-splice_example =
    apply_change-splice (codes "x\n" ++ line_one) (codes "b\n") (codes "c") (codes "!") (at 1 4)
      (at 2 0) (some (pos 2)) cut_before ((position_to_offset_iff text (at 2 0) 12).0 to_offset_end)
      (unfold lsp_length iterate_codepoints u16_length u8_length countl_one in refl)

-- The start lies on the line below the last one, and gets a newline; the end is out of range.
abbrev refused : Change
refused = record {
  range = some (record { start = at 1 0; end = at 7 0 });
  range_length = none;
  text = codes "z";
}

refused_run : apply_change (codes "ab") refused ≡ (err line_out_of_range, codes "ab\n")
unfolding apply_change resolve_end infer_final_newline infers_newline lacks_final_newline
    apply_between position_to_offset start_of_line find_newline take_line measure_units
    iterate_codepoints u16_length u8_length countl_one
refused_run = refl

apply_change-Kept_example : Kept (codes "ab") (apply_change (codes "ab") refused).1
apply_change-Kept_example =
    apply_change-Kept (codes "ab") refused line_out_of_range (λ i. (refused_run i).0)

apply_change-inferred_example :
    apply_change (codes "ab") (record {
      range = some (record { start = below (codes "ab"); end = below (codes "ab") });
      range_length = none;
      text = codes "c";
    })
    ≡ (ok tt, codes "ab\nc")
apply_change-inferred_example =
    apply_change-inferred (codes "ab") (codes "c") (unfold lacks_final_newline in refl)

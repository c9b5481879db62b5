-- ===== src/Text/RoundTrip.antt =====
-- `offsetToPosition` and `positionToOffset` together.
use nixd.Prelude.{
  ◌<◌, ◌^◌, Bool, true, ◌++◌, pos, to_int-small, Bytes, length, count, count-le-length,
  length-append, take-length_append, min, ◌≡◌, ap, arith,
}
use nixd.Text.CodePoints.{whole, units_of, lsp_length-units_of, whole-units_of, measure_units-whole}
use nixd.Text.Lines.{
  length-last_line, count-last_line, drop-last_line, take_line-append, start_of_line-count,
}
use nixd.Text.Offset.{
  ok, newline, take_line, last_line, offset_in_line, position_to_offset_from, position_to_offset,
  offset_to_position,
}

-- The position behind `before`, where no number overflows an `int`.
pub offset_to_position-append :
    (before after : Bytes)
    → whole 0 (last_line before) ≡ true
    → length before < 2 ^ 31
    → offset_to_position (before ++ after) (length before) ≡ record {
      line = pos (count newline before);
      character = pos (units_of 0 (last_line before));
    }
unfolding offset_to_position
offset_to_position-append before after w h =
    let size : min (length (before ++ after)) (length before) ≡ length before =
      omega (arith, length-append before after) in
    rw (
      size,
      take-length_append before after,
      lsp_length-units_of,
      to_int-small (count newline before) (omega (arith, count-le-length newline before)),
      to_int-small (units_of 0 (last_line before))
          (omega (arith, whole-units_of 0 (last_line before) w, length-last_line before)),
    )

pub position_to_offset-append :
    (before after : Bytes) (allow : Bool)
    → whole 0 (last_line before) ≡ true
    → position_to_offset_from
        (before ++ after)
        (count newline before)
        (units_of 0 (last_line before))
        allow
      ≡ ok (length before)
position_to_offset-append before after allow w =
    rw
      (
        start_of_line-count before after,
        position_to_offset_from,
        offset_in_line,
        drop-last_line before after,
        take_line-append (last_line before) after (count-last_line before),
        measure_units-whole (last_line before) (take_line after) w,
      )
      (ap ok (omega (arith, length-last_line before)))

-- Where a text is cut behind a whole code point, the position of the cut leads back to it.
pub position_to_offset-offset_to_position :
    (before after : Bytes) (allow : Bool)
    → whole 0 (last_line before) ≡ true
    → length before < 2 ^ 31
    → position_to_offset
        (before ++ after)
        (offset_to_position (before ++ after) (length before))
        allow
      ≡ ok (length before)
unfolding position_to_offset
position_to_offset-offset_to_position before after allow w h =
    rw (offset_to_position-append before after w h) (position_to_offset-append before after allow w)

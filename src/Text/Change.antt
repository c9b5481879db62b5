-- ===== src/Text/Change.antt =====
-- The edits of a client: `inferFinalNewline` and `applyChange` of lspserver/src/SourceCode.cpp.
use nixd.Prelude.{
  ℕ, ◌+◌, ◌-◌, Bool, true, false, not, ◌&&◌, Option, none, some, [], ◌∷◌, ◌++◌, ℤ, pos, int_eq,
  Bytes, length, take, drop, count, ltb, ◌==◌, if◌then◌else◌,
}
use nixd.Protocol.{Position, Range}
use nixd.Text.Offset.{
  Expected, ok, err, end_before_start, range_length_mismatch, newline, position_to_offset,
}
use nixd.Text.Units.{lsp_length}

-- `TextDocumentContentChangeEvent`.
pub record Change : Type 0 where
  pub range : Option Range
  pub range_length : Option ℤ
  pub text : Bytes

-- The text is empty, or its last byte is no newline.
unfoldable pub lacks_final_newline : Bytes → Bool
lacks_final_newline [] = true
lacks_final_newline (c ∷ []) = not (c == newline)
lacks_final_newline (c ∷ d ∷ cs) = lacks_final_newline (d ∷ cs)

-- The tests of `inferFinalNewline`: the position is the start of the line behind the last one, and
-- the last one is not ended.
unfoldable pub infers_newline : Bytes → Position → Bool
infers_newline contents p =
    lacks_final_newline contents
    && int_eq p.character (pos 0)
    && int_eq p.line (pos (count newline contents + 1))

-- `inferFinalNewline`, on the result so far and the contents, both of which it may change.
unfoldable pub infer_final_newline : Expected ℕ → Bytes → Position → Expected ℕ × Bytes
infer_final_newline (ok n) contents p = (ok n, contents)
infer_final_newline (err e) contents p =
    if infers_newline contents p
    then (ok (length contents + 1), contents ++ newline ∷ [])
    else (err e, contents)

-- An end of the range: `positionToOffset` with `inferFinalNewline` behind it.
unfoldable pub resolve_end : Bytes → Position → Expected ℕ × Bytes
resolve_end contents p = infer_final_newline (position_to_offset contents p false) contents p

-- `Contents.replace(start, length, text)`.
abbrev pub replace : Bytes → ℕ → ℕ → Bytes → Bytes
replace contents start len text = take start contents ++ (text ++ drop (start + len) contents)

-- `Change.rangeLength`, where it is given, is not the length that was computed.
abbrev pub length_mismatch : Option ℤ → ℕ → Bool
length_mismatch none computed = false
length_mismatch (some given) computed = not (int_eq (pos computed) given)

-- The part of `applyChange` behind the computation of both ends.
unfoldable pub apply_between : Bytes → ℕ → ℕ → Option ℤ → Bytes → Expected (Unit {0}) × Bytes
apply_between contents start stop given text =
    if ltb stop start
    then (err end_before_start, contents)
    else if length_mismatch given (lsp_length (take (stop - start) (drop start contents)))
    then (err range_length_mismatch, contents)
    else (ok tt, replace contents start (stop - start) text)

abbrev pub apply_stop : Bytes → ℕ → Change → Expected ℕ × Bytes → Expected (Unit {0}) × Bytes
apply_stop before start change (err e, contents) = (err e, contents)
apply_stop before start change (ok stop, contents) =
    apply_between contents start stop change.range_length change.text

abbrev pub apply_start : Range → Change → Expected ℕ × Bytes → Expected (Unit {0}) × Bytes
apply_start range change (err e, contents) = (err e, contents)
apply_start range change (ok start, contents) =
    apply_stop contents start change (resolve_end contents range.end)

abbrev pub apply_range : Bytes → Change → Option Range → Expected (Unit {0}) × Bytes
apply_range contents change none = (ok tt, change.text)
apply_range contents change (some range) =
    apply_start range change (resolve_end contents range.start)

-- `applyChange`: its result, and the contents it leaves.
unfoldable pub apply_change : Bytes → Change → Expected (Unit {0}) × Bytes
apply_change contents change = apply_range contents change change.range

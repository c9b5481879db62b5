-- ===== src/Text/Offset.antt =====
-- Positions of the protocol and byte offsets: `positionToOffset` and `offsetToPosition` of
-- lspserver/src/SourceCode.cpp.
use nixd.Prelude.{
  ℕ, zero, suc, ◌+◌, Bool, not, ◌&&◌, Option, none, some, [], ◌∷◌, ℤ, pos, negsuc, to_int, Bytes,
  length, take, drop, count, min, ◌==◌, if◌then◌else◌,
}
use nixd.Protocol.{Position}
use nixd.Text.Units.{lsp_length, measure_units}

-- The errors of SourceCode.cpp, all `errc::invalid_argument`, by their messages.
pub data Error : Type 0 where
  line_negative character_negative line_out_of_range offset_invalid : Error
  end_before_start range_length_mismatch : Error

pub data Expected {ℓ} (A : Type ℓ) : Type ℓ where
  ok : A → Expected A
  err : Error → Expected A

abbrev pub newline : ℕ
newline = b'\n'

-- The index of the first newline, as `find` gives it.
unfoldable pub find_newline : Bytes → Option ℕ
find_newline [] = none
find_newline (c ∷ cs) =
    if c == newline then some 0 else elim (find_newline cs) [ none ↦ none | some i ↦ some (suc i) ]

-- `take_until` a newline.
unfoldable pub take_line : Bytes → Bytes
take_line [] = []
take_line (c ∷ cs) = let rest = c ∷ take_line cs in if c == newline then [] else rest

-- The loop over lines: the byte at which the line starts that is `n` lines below `start`.
unfoldable pub start_of_line : ℕ → Bytes → ℕ → Option ℕ
start_of_line zero code start = some start
start_of_line (suc n) code start = elim (find_newline (drop start code)) [
  | none ↦ none
  | some i ↦ start_of_line n code (start + i + 1)
]

-- The part of `positionToOffset` behind the loop, on the line that starts at `start`.
abbrev pub offset_in_line : Bytes → ℕ → ℤ → Bool → Expected ℕ
offset_in_line code start character allow_beyond =
    let measured = measure_units (take_line (drop start code)) character in
    if not measured.1 && not allow_beyond then err offset_invalid else ok (start + measured.0)

-- With `P.character` not negative.
abbrev pub position_to_offset_from : Bytes → ℕ → ℕ → Bool → Expected ℕ
position_to_offset_from code line character allow_beyond = elim (start_of_line line code 0) [
  | none ↦ err line_out_of_range
  | some start ↦ offset_in_line code start (pos character) allow_beyond
]

abbrev pub position_to_offset_parts : Bytes → ℤ → ℤ → Bool → Expected ℕ
position_to_offset_parts code (negsuc n) character allow_beyond = err line_negative
position_to_offset_parts code (pos line) (negsuc n) allow_beyond = err character_negative
position_to_offset_parts code (pos line) (pos character) allow_beyond =
    position_to_offset_from code line character allow_beyond

unfoldable pub position_to_offset : Bytes → Position → Bool → Expected ℕ
position_to_offset code p allow_beyond =
    position_to_offset_parts code p.line p.character allow_beyond

-- What follows the last newline, or all of the text where there is none.
unfoldable pub last_line : Bytes → Bytes
last_line [] = []
last_line (c ∷ cs) = if count newline cs == 0 && not (c == newline) then c ∷ cs else last_line cs

unfoldable pub offset_to_position : Bytes → ℕ → Position
offset_to_position code offset =
    let before = take (min (length code) offset) code in
    record {
      line = to_int (count newline before);
      character = to_int (lsp_length (last_line before));
    }

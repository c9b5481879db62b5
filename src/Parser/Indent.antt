-- ===== src/Parser/Indent.antt =====
-- `stripIndentation` of nixd/include/nixd/Parser/Prologue.cpp: the text of an indented string, whose
-- parts are pieces of text and expressions.
use nixd.Prelude.{
  ℕ, suc, ◌+◌, Bool, true, false, ◌&&◌, Option, none, some, List, [], ◌∷◌, ◌++◌, Bytes, take, drop,
  ltb, leb, ◌==◌, if◌then◌else◌,
}

-- `p` and `l` are the text; `nix::StringToken`.
pub record StringToken : Type 0 where
  pub text : Bytes
  pub has_indentation : Bool

-- The locals of the first loop.
pub record Scan : Type 0 where
  pub at_start_of_line : Bool
  pub min_indent : ℕ
  pub cur_indent : ℕ

abbrev pub lower : ℕ → ℕ → ℕ
lower cur least = if ltb cur least then cur else least

unfoldable pub scan_char : Scan → ℕ → Scan
scan_char s c =
    if s.at_start_of_line
    then if c == b' '
      then record s { cur_indent = s.cur_indent + 1 }
      else if c == b'\n'
      then record s { cur_indent = 0 }
      else record s { at_start_of_line = false; min_indent = lower s.cur_indent s.min_indent }
    else if c == b'\n'
    then record s { at_start_of_line = true; cur_indent = 0 }
    else s

unfoldable pub scan_chars : Scan → Bytes → Scan
scan_chars s [] = s
scan_chars s (c ∷ cs) = scan_chars (scan_char s c) cs

-- Anti-quotations and escaped characters.
abbrev pub scan_end : Scan → Scan
scan_end s =
    if s.at_start_of_line
    then record s { at_start_of_line = false; min_indent = lower s.cur_indent s.min_indent }
    else s

-- The locals of the second loop, and the text of one piece.
pub record Trim : Type 0 where
  pub at_start_of_line : Bool
  pub cur_dropped : ℕ
  pub s2 : Bytes

unfoldable pub trim_char : ℕ → Trim → ℕ → Trim
trim_char min_indent t c =
    if t.at_start_of_line
    then if c == b' '
      then if leb min_indent t.cur_dropped
        then record t { cur_dropped = t.cur_dropped + 1; s2 = t.s2 ++ c ∷ [] }
        else record t { cur_dropped = t.cur_dropped + 1 }
      else if c == b'\n'
      then record t { cur_dropped = 0; s2 = t.s2 ++ c ∷ [] }
      else record { at_start_of_line = false; cur_dropped = 0; s2 = t.s2 ++ c ∷ [] }
    else if c == b'\n'
    then record t { at_start_of_line = true; s2 = t.s2 ++ c ∷ [] }
    else record t { s2 = t.s2 ++ c ∷ [] }

unfoldable pub trim_chars : ℕ → Trim → Bytes → Trim
trim_chars min_indent t [] = t
trim_chars min_indent t (c ∷ cs) = trim_chars min_indent (trim_char min_indent t c) cs

-- `s2.find_last_of('\n')`.
abbrev pub one_further : Bool → Option ℕ → Option ℕ
one_further here (some p) = some (suc p)
one_further here none = if here then some 0 else none

unfoldable pub find_last_newline : Bytes → Option ℕ
find_last_newline [] = none
find_last_newline (c ∷ cs) = one_further (c == b'\n') (find_last_newline cs)

-- `find_first_not_of(' ')` finds nothing.
unfoldable pub only_spaces : Bytes → Bool
only_spaces [] = true
only_spaces (c ∷ cs) = (c == b' ') && only_spaces cs

abbrev pub cut_after : Bytes → Option ℕ → Bytes
cut_after s2 none = s2
cut_after s2 (some p) = if only_spaces (drop (suc p) s2) then take (suc p) s2 else s2

unfoldable pub drop_last_line : Bytes → Bytes
drop_last_line s2 = cut_after s2 (find_last_newline s2)

-- `Expr` is the type of the other parts, which may be strings as well; `Pos` that of positions.
pub data Part (Expr : Type 0) : Type 0 where
  expr : Expr → Part Expr
  string_token : StringToken → Part Expr

pub data Stripped (Expr : Type 0) : Type 0 where
  expr : Expr → Stripped Expr
  string : Bytes → Stripped Expr

pub data Result (Pos Expr : Type 0) : Type 0 where
  single : Stripped Expr → Result Pos Expr
  concat_strings : List (Pos × Stripped Expr) → Result Pos Expr

abbrev pub scan_start : Scan
scan_start = record { at_start_of_line = true; min_indent = 1000000; cur_indent = 0 }

module _ {Expr : Type 0} where
  unfoldable pub scan_part : Scan → Part Expr → Scan
  scan_part s (expr e) = scan_end s
  scan_part s (string_token t) = if t.has_indentation then scan_chars s t.text else scan_end s

  -- `trimExpr` and `trimString`: the new part, and the locals as they leave them.
  unfoldable pub trim_part : ℕ → Bool → Bool → ℕ → Part Expr → Stripped Expr × (Bool × ℕ)
  trim_part min_indent last at_start dropped (expr e) = (expr e, (false, 0))
  trim_part min_indent last at_start dropped (string_token t) =
      let s =
        trim_chars min_indent
          (record { at_start_of_line = at_start; cur_dropped = dropped; s2 = [] }) t.text in
      (string (if last then drop_last_line s.s2 else s.s2), (s.at_start_of_line, s.cur_dropped))

  -- `dynamic_cast<ExprString *>`.
  abbrev pub is_string_part : (Expr → Bool) → Stripped Expr → Bool
  is_string_part is_string (expr e) = is_string e
  is_string_part is_string (string s) = true

module _ {Pos Expr : Type 0} where
  unfoldable pub scan : Scan → List (Pos × Part Expr) → Scan
  scan s [] = s
  scan s ((pos, part) ∷ parts) = scan (scan_part s part) parts

  -- `n == 1`: the last part.
  abbrev pub is_last : List (Pos × Part Expr) → Bool
  is_last [] = true
  is_last (part ∷ parts) = false

  abbrev pub trim_rest :
      (Bool → ℕ → List (Pos × Stripped Expr))
      → Pos
      → Stripped Expr × (Bool × ℕ)
      → List (Pos × Stripped Expr)
  trim_rest rest pos (e, (at_start, dropped)) = (pos, e) ∷ rest at_start dropped

  unfoldable pub trim : ℕ → Bool → ℕ → List (Pos × Part Expr) → List (Pos × Stripped Expr)
  trim min_indent at_start dropped [] = []
  trim min_indent at_start dropped ((pos, part) ∷ parts) =
      trim_rest (λ a d. trim min_indent a d parts) pos
        (trim_part min_indent (is_last parts) at_start dropped part)

  -- `es2->size() == 1`.
  abbrev pub join_parts : (Expr → Bool) → List (Pos × Stripped Expr) → Result Pos Expr
  join_parts is_string [] = concat_strings []
  join_parts is_string ((pos, e) ∷ []) =
      if is_string_part is_string e then single e else concat_strings ((pos, e) ∷ [])
  join_parts is_string (p ∷ q ∷ ps) = concat_strings (p ∷ q ∷ ps)

  unfoldable pub strip_indentation : (Expr → Bool) → List (Pos × Part Expr) → Result Pos Expr
  strip_indentation is_string [] = single (string [])
  strip_indentation is_string (part ∷ parts) =
      join_parts is_string (trim (scan scan_start (part ∷ parts)).min_indent true 0 (part ∷ parts))

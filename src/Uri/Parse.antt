-- ===== src/Uri/Parse.antt =====
-- `URI::toString` and `URI::parse` of lspserver/src/URI.cpp.
use nixd.Prelude.{
  is_empty, ℕ, ◌+◌, Bool, true, false, not, ◌&&◌, ◌||◌, Option, none, some, [], ◌∷◌, ◌++◌, Bytes,
  ◌==◌, if◌then◌else◌, length, take, drop,
}
use nixd.Uri.Chars.{CharOps}
use nixd.Uri.Percent.{percent_encode, percent_decode}

pub record Uri : Type 0 where
  pub scheme : Bytes
  pub authority : Bytes
  pub body : Bytes

-- The errors of `URI::parse`, by their messages.
pub data Error : Type 0 where
  scheme_missing : Error
  invalid_scheme : Error

pub data Expected : Type 0 where
  ok : Uri → Expected
  err : Error → Expected

-- `StringRef::find`, and with `npos` cut off at the end as `substr` does.
unfoldable pub find : ℕ → Bytes → Option ℕ
find b [] = none
find b (c ∷ cs) = if c == b then some 0 else next (find b cs)
  where
    next : Option ℕ → Option ℕ
    next none = none
    next (some i) = some (i + 1)

abbrev pub find_or_end : ℕ → Bytes → ℕ
find_or_end b cs = elim (find b cs) [ none ↦ length cs | some i ↦ i ]

-- `StringRef::startswith("/")` and `consume_front("//")`.
abbrev pub starts_with_slash : Bytes → Bool
starts_with_slash [] = false
starts_with_slash (c ∷ cs) = c == b'/'

unfoldable pub consume_slashes : Bytes → Option Bytes
consume_slashes (a ∷ b ∷ cs) = if a == b'/' && b == b'/' then some cs else none
consume_slashes _ = none

module _ (ops : CharOps) where
  -- What `isValidScheme` asks of every character behind the first.
  abbrev pub scheme_char : ℕ → Bool
  scheme_char c = ops.is_alnum c || c == b'+' || c == b'.' || c == b'-'

  abbrev pub all_scheme_chars : Bytes → Bool
  all_scheme_chars [] = true
  all_scheme_chars (c ∷ cs) = scheme_char c && all_scheme_chars cs

  unfoldable pub is_valid_scheme : Bytes → Bool
  is_valid_scheme [] = false
  is_valid_scheme (c ∷ cs) = ops.is_alpha c && all_scheme_chars cs

  -- What `toString` writes behind the colon.
  abbrev pub print_rest : Uri → Bytes
  print_rest u =
      if is_empty u.authority && is_empty u.body
      then []
      else if not (is_empty u.authority) || starts_with_slash u.body
      then b'/' ∷ b'/' ∷ percent_encode ops u.authority ++ percent_encode ops u.body
      else percent_encode ops u.body

  unfoldable pub to_string : Uri → Bytes
  to_string u = percent_encode ops u.scheme ++ b':' ∷ print_rest u

  abbrev pub parse_authority : Bytes → Bytes → Uri
  parse_authority scheme uri = record {
    scheme = scheme;
    authority = percent_decode ops (take (find_or_end b'/' uri) uri);
    body = percent_decode ops (drop (find_or_end b'/' uri) uri);
  }

  abbrev pub parse_rest : Bytes → Bytes → Option Bytes → Uri
  parse_rest scheme uri (some rest) = parse_authority scheme rest
  parse_rest scheme uri none = record {
    scheme = scheme;
    authority = [];
    body = percent_decode ops uri;
  }

  abbrev pub parse_scheme : Bytes → Bytes → Expected
  parse_scheme scheme uri =
      if is_valid_scheme scheme
      then ok (parse_rest scheme uri (consume_slashes uri))
      else err invalid_scheme

  abbrev pub parse_at : Bytes → Option ℕ → Expected
  parse_at uri none = err scheme_missing
  parse_at uri (some p) = parse_scheme (percent_decode ops (take p uri)) (drop (p + 1) uri)

  unfoldable pub parse : Bytes → Expected
  parse uri = parse_at uri (find b':' uri)

-- ===== src/Uri/Tests.antt =====
-- Runs of the printing and parsing of URIs, with the character functions written out for ASCII.
use nixd.Prelude.{
  ℕ, ◌+◌, ◌-◌, ◌*◌, ◌<◌, Bool, true, ◌||◌, [], ◌≡◌, refl, arith, codes, ltb, if◌then◌else◌,
}
use nixd.Uri.Chars.{CharOps}
use nixd.Uri.Parse.{
  Uri, ok, err, invalid_scheme, scheme_missing, find, consume_slashes, is_valid_scheme, to_string,
  parse,
}
use nixd.Uri.Percent.{
  between, should_escape, percent_encode, percent_decode, percent_decode-percent_encode,
}
use nixd.Uri.RoundTrip.{IsPrintable, parse-to_string}

abbrev alpha : ℕ → Bool
alpha c = between b'a' b'z' c || between b'A' b'Z' c

abbrev alnum : ℕ → Bool
alnum c = alpha c || between b'0' b'9' c

abbrev hex : ℕ → Bool
hex c = between b'0' b'9' c || between b'A' b'F' c || between b'a' b'f' c

abbrev digit : ℕ → ℕ
digit n = if ltb n 10 then b'0' + n else b'A' + (n - 10)

abbrev value : ℕ → ℕ
value c =
    if between b'0' b'9' c
    then c - b'0'
    else if between b'A' b'F' c
    then 10 + (c - b'A')
    else 10 + (c - b'a')

hex-digit : (n : ℕ) → n < 16 → hex (digit n) ≡ true
hex-digit n h = ground (arith, h)

value-digit : (n : ℕ) → n < 16 → value (digit n) ≡ n
value-digit n h = ground (arith, h)

alnum-hex : (c : ℕ) → hex c ≡ true → alnum c ≡ true
alnum-hex c h = ground (arith, h)

alnum-alpha : (c : ℕ) → alpha c ≡ true → alnum c ≡ true
alnum-alpha c h = ground (arith, h)

abbrev ascii : CharOps
ascii = record {
  is_alpha = alpha;
  is_alnum = alnum;
  is_hex_digit = hex;
  hexdigit = digit;
  hex_from_nibbles = λ a b. value a * 16 + value b;
  is_hex_digit-hexdigit = hex-digit;
  hex_from_nibbles-hexdigit = λ m n hm hn. rw (value-digit m hm, value-digit n hn) refl;
  is_hex_digit-is_alnum = alnum-hex;
  is_alpha-is_alnum = alnum-alpha;
  is_alnum-colon = refl;
  is_alnum-slash = refl;
}

abbrev home : Uri
home = record { scheme = codes "file"; authority = codes "h"; body = codes "/a b%" }

to_string_run : to_string ascii home ≡ codes "file://h/a%20b%25"
unfolding to_string percent_encode should_escape
to_string_run = refl

parse_runs :
    (parse ascii (codes "file:///x")
      ≡ ok (record { scheme = codes "file"; authority = []; body = codes "/x" }))
    × (parse ascii (codes "ab") ≡ err scheme_missing)
    × (parse ascii (codes "1:b") ≡ err invalid_scheme)
unfolding parse find consume_slashes is_valid_scheme percent_decode
parse_runs = (refl, refl, refl)

-- A slash that was escaped in an authority is printed as it is, and ends the authority.
slash_in_authority :
    (parse ascii (codes "s://a%2Fb/c")
      ≡ ok (record { scheme = codes "s"; authority = codes "a/b"; body = codes "/c" }))
    × (to_string ascii (record { scheme = codes "s"; authority = codes "a/b"; body = codes "/c" })
        ≡ codes "s://a/b/c")
unfolding parse find consume_slashes is_valid_scheme percent_decode to_string percent_encode
    should_escape
slash_in_authority = (refl, refl)

percent_decode-percent_encode_example :
    percent_decode ascii (percent_encode ascii (codes "a %")) ≡ codes "a %"
percent_decode-percent_encode_example =
    percent_decode-percent_encode ascii (codes "a %")
      (omega arith, (omega arith, (omega arith, tt)))

home-IsPrintable : IsPrintable ascii home
unfolding is_valid_scheme
home-IsPrintable = record {
  valid = refl;
  scheme_bytes = (omega arith, (omega arith, (omega arith, (omega arith, tt))));
  authority_bytes = (omega arith, tt);
  body_bytes = (omega arith, (omega arith, (omega arith, (omega arith, (omega arith, tt)))));
  no_slash = refl;
  absolute = refl;
}

parse-to_string_example : parse ascii (to_string ascii home) ≡ ok home
parse-to_string_example = parse-to_string ascii home home-IsPrintable

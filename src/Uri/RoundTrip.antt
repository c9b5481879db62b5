-- ===== src/Uri/RoundTrip.antt =====
-- `URI::parse` on what `URI::toString` gives.
use nixd.Prelude.{
  is_empty, ℕ, ◌+◌, Bool, true, false, ◌||◌, none, some, [], ◌∷◌, ◌++◌, ◌≡◌, refl, ap, ◌∙◌, inl,
  inr, arith, Bytes, All, ◌==◌, Bool-cases, not_both, both, count, length, take-length_append,
  drop-length_append, drop-append,
}
use nixd.Uri.Chars.{CharOps}
use nixd.Uri.Percent.{
  Byte, should_escape, percent_encode, percent_decode, percent_decode-percent_encode,
  count-percent_encode,
}
use nixd.Uri.Parse.{
  Uri, ok, find, find_or_end, starts_with_slash, consume_slashes, scheme_char, all_scheme_chars,
  is_valid_scheme, print_rest, to_string, parse_authority, parse_rest, parse,
}

find-some : (b : ℕ) (xs ys : Bytes) → count b xs ≡ 0 → find b (xs ++ b ∷ ys) ≡ some (length xs)
unfolding find
find-some b [] ys h = ground arith
find-some b (x ∷ xs) ys h =
    let e : (x == b) ≡ false = ground (arith, h) in
    let r : count b xs ≡ 0 = ground (arith, h) in
    let l : length xs + 1 ≡ length (x ∷ xs) = omega arith in
    rw (e, find-some b xs ys r) (ap (λ (n : ℕ). some n) l)

find-none : (b : ℕ) (xs : Bytes) → count b xs ≡ 0 → find b xs ≡ none
unfolding find
find-none b [] h = refl
find-none b (x ∷ xs) h =
    let e : (x == b) ≡ false = ground (arith, h) in
    let r : count b xs ≡ 0 = ground (arith, h) in rw (e, find-none b xs r) refl

starts-consume : (xs : Bytes) → starts_with_slash xs ≡ false → consume_slashes xs ≡ none
unfolding consume_slashes
starts-consume [] h = refl
starts-consume (a ∷ []) h = refl
starts-consume (a ∷ b ∷ xs) h = rw h

append-nil_right : (xs : Bytes) → xs ++ [] ≡ xs
append-nil_right [] = refl
append-nil_right (x ∷ xs) = ap (◌∷◌ x) (append-nil_right xs)

find_or_end-append :
    (xs ys : Bytes)
    → count b'/' xs ≡ 0
    → (starts_with_slash ys || is_empty ys) ≡ true
    → find_or_end b'/' (xs ++ ys) ≡ length xs
find_or_end-append xs [] h k =
    ap (λ (zs : Bytes). find_or_end b'/' zs) (append-nil_right xs)
    ∙ rw (find-none b'/' xs h, find_or_end) refl
find_or_end-append xs (y ∷ ys) h k =
    let e : y ≡ b'/' = ground (arith, k) in rw (e, find-some b'/' xs ys h, find_or_end) refl

-- A scheme is valid, the parts are made of bytes, the authority has no slash in it, and a body
-- behind an authority is empty or starts with a slash.
pub record IsPrintable (ops : CharOps) (u : Uri) : Type 0 where
  pub valid : is_valid_scheme ops u.scheme ≡ true
  pub scheme_bytes : All Byte u.scheme
  pub authority_bytes : All Byte u.authority
  pub body_bytes : All Byte u.body
  pub no_slash : count b'/' u.authority ≡ 0
  pub absolute : (is_empty u.authority || (starts_with_slash u.body || is_empty u.body)) ≡ true

module _ (ops : CharOps) where
  alnum-not_colon : (c : ℕ) → ops.is_alnum c ≡ true → (c == b':') ≡ false
  alnum-not_colon c h = elim (Bool-cases (c == b':')) [
    | inr e ↦ e
    | inl e ↦
        let same : c ≡ b':' = ground (arith, e) in
        absurd (not_both (ops.is_alnum c) h (ap ops.is_alnum same ∙ ops.is_alnum-colon))
  ]

  scheme_char-not_colon :
      (c : ℕ) (b : Bool) → ops.is_alnum c ≡ b → scheme_char ops c ≡ true → (c == b':') ≡ false
  scheme_char-not_colon c true e h = alnum-not_colon c e
  scheme_char-not_colon c false e h = ground (arith, e, h)

  scheme_chars-no_colon : (cs : Bytes) → all_scheme_chars ops cs ≡ true → count b':' cs ≡ 0
  scheme_chars-no_colon [] h = refl
  scheme_chars-no_colon (c ∷ cs) h =
      let (this, others) = both (scheme_char ops c) (all_scheme_chars ops cs) h in
      rw (scheme_char-not_colon c (ops.is_alnum c) refl this, scheme_chars-no_colon cs others) refl

  valid_scheme-no_colon : (s : Bytes) → is_valid_scheme ops s ≡ true → count b':' s ≡ 0
  unfolding is_valid_scheme
  valid_scheme-no_colon [] h = refl
  valid_scheme-no_colon (c ∷ cs) h =
      let (this, others) = both (ops.is_alpha c) (all_scheme_chars ops cs) h in
      rw (alnum-not_colon c (ops.is_alpha-is_alnum c this), scheme_chars-no_colon cs others) refl

  starts-encode : (xs : Bytes) → starts_with_slash (percent_encode ops xs) ≡ starts_with_slash xs
  unfolding percent_encode should_escape
  starts-encode [] = refl
  starts-encode (c ∷ cs) = ground arith

  empty-encode : (xs : Bytes) → is_empty (percent_encode ops xs) ≡ is_empty xs
  unfolding percent_encode
  empty-encode [] = refl
  empty-encode (c ∷ cs) = elim (Bool-cases (should_escape c)) [
    | inl e ↦ rw e refl
    | inr e ↦ rw e refl
  ]

  decode-parts :
      (scheme a b : Bytes)
      → All Byte a
      → All Byte b
      → count b'/' a ≡ 0
      → (starts_with_slash b || is_empty b) ≡ true
      → parse_authority ops scheme (percent_encode ops a ++ percent_encode ops b)
        ≡ record { scheme = scheme; authority = a; body = b }
  unfolding should_escape
  decode-parts scheme a b ba bb slash abs =
      let n : count b'/' (percent_encode ops a) ≡ 0 =
        count-percent_encode ops b'/' a refl ops.is_alnum-slash ba ∙ slash in
      let s : (starts_with_slash (percent_encode ops b) || is_empty (percent_encode ops b)) ≡ true =
        rw (starts-encode b, empty-encode b) abs in
      rw
        (
          find_or_end-append (percent_encode ops a) (percent_encode ops b) n s,
          take-length_append (percent_encode ops a) (percent_encode ops b),
          drop-length_append (percent_encode ops a) (percent_encode ops b),
          percent_decode-percent_encode ops a ba,
          percent_decode-percent_encode ops b bb,
        )
        refl

  parse_rest-unrooted :
      (scheme b : Bytes)
      → All Byte b
      → starts_with_slash b ≡ false
      → parse_rest ops scheme (percent_encode ops b) (consume_slashes (percent_encode ops b))
        ≡ record { scheme = scheme; authority = []; body = b }
  parse_rest-unrooted scheme b bytes h =
      rw
        (
          starts-consume (percent_encode ops b) (starts-encode b ∙ h),
          percent_decode-percent_encode ops b bytes,
        )
        refl

  parse_rest-print_rest :
      (scheme a b : Bytes)
      → All Byte a
      → All Byte b
      → count b'/' a ≡ 0
      → (is_empty a || (starts_with_slash b || is_empty b)) ≡ true
      → let u : Uri = record { scheme = scheme; authority = a; body = b } in
        parse_rest ops scheme (print_rest ops u) (consume_slashes (print_rest ops u)) ≡ u
  unfolding consume_slashes percent_encode percent_decode
  parse_rest-print_rest scheme [] [] ba bb slash abs = refl
  parse_rest-print_rest scheme [] (b ∷ bs) ba bb slash abs = elim (Bool-cases (b == b'/')) [
    | inl e ↦ rw e (decode-parts scheme [] (b ∷ bs) ba bb slash (rw e refl))
    | inr e ↦ rw e (parse_rest-unrooted scheme (b ∷ bs) bb e)
  ]
  parse_rest-print_rest scheme (a ∷ more) b ba bb slash abs =
      decode-parts scheme (a ∷ more) b ba bb slash abs

  -- A URI that is printed is parsed back: the scheme is valid, the parts are made of bytes, the
  -- authority has no slash, and a body behind an authority is empty or starts with a slash.
  pub parse-to_string : (u : Uri) → IsPrintable ops u → parse ops (to_string ops u) ≡ ok u
  unfolding parse to_string should_escape
  parse-to_string u p =
      let n : count b':' (percent_encode ops u.scheme) ≡ 0 =
        count-percent_encode ops b':' u.scheme refl ops.is_alnum-colon p.scheme_bytes
        ∙ valid_scheme-no_colon u.scheme p.valid in
      rw
        (
          find-some b':' (percent_encode ops u.scheme) (print_rest ops u) n,
          take-length_append (percent_encode ops u.scheme) (b':' ∷ print_rest ops u),
          drop-append (percent_encode ops u.scheme) (b':' ∷ print_rest ops u) 1,
          percent_decode-percent_encode ops u.scheme p.scheme_bytes,
          p.valid,
        )
        (ap (λ (v : Uri). ok v)
          (parse_rest-print_rest u.scheme u.authority u.body p.authority_bytes p.body_bytes
            p.no_slash p.absolute))

-- ===== src/Uri/Percent.antt =====
-- `shouldEscape`, `percentEncode` and `percentDecode` of lspserver/src/URI.cpp.
use nixd.Prelude.{
  ℕ, ◌+◌, ◌*◌, ◌/◌, ◌%◌, ◌<◌, Bool, true, false, not, ◌&&◌, ◌||◌, [], ◌∷◌, ◌≡◌, refl, sym, ap, ◌∙◌,
  ◌⊎◌, inl, inr, arith, Bytes, All, leb, ◌==◌, if◌then◌else◌, Bool-cases, not_both, count,
}
use nixd.Uri.Chars.{CharOps}

abbrev pub between : ℕ → ℕ → ℕ → Bool
between a z c = leb a c && leb c z

unfoldable pub should_escape : ℕ → Bool
should_escape c =
    if between b'a' b'z' c || between b'A' b'Z' c || between b'0' b'9' c
    then false
    else not (c == b'-' || c == b'_' || c == b'.' || c == b'~' || c == b'/' || c == b':')

abbrev pub Byte : ℕ → Type 0
Byte c = c < 256

module _ (ops : CharOps) where
  -- What is put at the end of `Out` for one byte, and for all.
  abbrev pub encode_byte : ℕ → Bool → Bytes → Bytes
  encode_byte c true rest = b'%' ∷ ops.hexdigit (c / 16) ∷ ops.hexdigit (c % 16) ∷ rest
  encode_byte c false rest = c ∷ rest

  unfoldable pub percent_encode : Bytes → Bytes
  percent_encode [] = []
  percent_encode (c ∷ cs) = encode_byte c (should_escape c) (percent_encode cs)

  abbrev is_escape : ℕ → ℕ → ℕ → Bool
  is_escape c a b = c == b'%' && ops.is_hex_digit a && ops.is_hex_digit b

  unfoldable pub percent_decode : Bytes → Bytes
  percent_decode [] = []
  percent_decode (c ∷ []) = c ∷ []
  percent_decode (c ∷ a ∷ []) = c ∷ percent_decode (a ∷ [])
  percent_decode (c ∷ a ∷ b ∷ rest) = elim (is_escape c a b) [
    | true ↦ ops.hex_from_nibbles a b ∷ percent_decode rest
    | false ↦ c ∷ percent_decode (a ∷ b ∷ rest)
  ]

  percent_decode-plain :
      (c : ℕ) (cs : Bytes) → (c == b'%') ≡ false → percent_decode (c ∷ cs) ≡ c ∷ percent_decode cs
  unfolding percent_decode
  percent_decode-plain c [] h = refl
  percent_decode-plain c (a ∷ []) h = refl
  percent_decode-plain c (a ∷ b ∷ cs) h = rw (h, percent_decode)

  percent_decode-escaped :
      (c : ℕ) (cs : Bytes) → Byte c → percent_decode (encode_byte c true cs) ≡ c ∷ percent_decode cs
  unfolding percent_decode
  percent_decode-escaped c cs h =
      let e : (c / 16) * 16 + c % 16 ≡ c = omega arith in
      let q : c / 16 < 16 = omega (arith, h) in
      let r : c % 16 < 16 = omega arith in
      rw (ops.is_hex_digit-hexdigit (c / 16) q, ops.is_hex_digit-hexdigit (c % 16) r)
        (ap (λ (x : ℕ). x ∷ percent_decode cs)
          (ops.hex_from_nibbles-hexdigit (c / 16) (c % 16) q r ∙ e))

  plain-not_percent : (c : ℕ) → should_escape c ≡ false → (c == b'%') ≡ false
  unfolding should_escape
  plain-not_percent c h = ground arith

  percent_decode-encode_byte :
      (c : ℕ) (cs : Bytes) (b : Bool)
      → should_escape c ≡ b
      → Byte c
      → percent_decode (encode_byte c b cs) ≡ c ∷ percent_decode cs
  percent_decode-encode_byte c cs true e h = percent_decode-escaped c cs h
  percent_decode-encode_byte c cs false e h = percent_decode-plain c cs (plain-not_percent c e)

  -- What `percentEncode` writes is read back by `percentDecode`, whatever the bytes.
  pub percent_decode-percent_encode :
      (content : Bytes) → All Byte content → percent_decode (percent_encode content) ≡ content
  unfolding percent_encode percent_decode
  percent_decode-percent_encode [] h = refl
  percent_decode-percent_encode (c ∷ cs) h =
      percent_decode-encode_byte c (percent_encode cs) (should_escape c) refl h.0
      ∙ ap (λ (xs : Bytes). c ∷ xs) (percent_decode-percent_encode cs h.1)

  -- A byte that is no letter, digit or percent sign is told from what stands for an escaped byte.
  hexdigit-is_not : (b n : ℕ) → ops.is_alnum b ≡ false → n < 16 → (ops.hexdigit n == b) ≡ false
  hexdigit-is_not b n h less = elim (Bool-cases (ops.hexdigit n == b)) [
    | inr e ↦ e
    | inl e ↦
        let same : ops.hexdigit n ≡ b = ground (arith, e) in
        let alnum = ops.is_hex_digit-is_alnum (ops.hexdigit n) (ops.is_hex_digit-hexdigit n less) in
        absurd (not_both (ops.is_alnum b) (ap ops.is_alnum (sym same) ∙ alnum) h)
  ]

  count-encode_byte :
      (b c : ℕ) (rest : Bytes) (e : Bool)
      → should_escape c ≡ e
      → should_escape b ≡ false
      → ops.is_alnum b ≡ false
      → Byte c
      → count b (encode_byte c e rest) ≡ count b (c ∷ rest)
  count-encode_byte b c rest false ec eb h byte = refl
  count-encode_byte b c rest true ec eb h byte =
      let q : c / 16 < 16 = omega (arith, byte) in
      let r : c % 16 < 16 = omega arith in
      ground (
        arith,
        hexdigit-is_not b (c / 16) h q,
        hexdigit-is_not b (c % 16) h r,
        plain-not_percent b eb,
        other (Bool-cases (c == b)),
      )
    where
      other : (((c == b) ≡ true) ⊎ ((c == b) ≡ false)) → (c == b) ≡ false
      other (inr k) = k
      other (inl k) =
          let same : c ≡ b = ground (arith, k) in
          absurd (not_both (should_escape c) ec (ap should_escape same ∙ eb))

  -- Percent-encoding keeps the number of the bytes that it does not escape.
  pub count-percent_encode :
      (b : ℕ) (content : Bytes)
      → should_escape b ≡ false
      → ops.is_alnum b ≡ false
      → All Byte content
      → count b (percent_encode content) ≡ count b content
  unfolding percent_encode
  count-percent_encode b [] e h bytes = refl
  count-percent_encode b (c ∷ cs) e h bytes =
      count-encode_byte b c (percent_encode cs) (should_escape c) refl e h bytes.0
      ∙ ap (λ (n : ℕ). (if c == b then 1 else 0) + n) (count-percent_encode b cs e h bytes.1)

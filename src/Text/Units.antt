-- ===== src/Text/Units.antt =====
-- Code points and code units of UTF-8 text: `iterateCodepoints`, `lspLength` and `measureUnits` of
-- lspserver/src/SourceCode.cpp, at the encoding that `lspEncoding` fixes (UTF-16).
-- The log of invalid UTF-8 is left out: it changes no result.
use nixd.Prelude.{
  ℕ, zero, suc, ◌+◌, ◌-◌, Bool, true, false, ◌||◌, [], ◌∷◌, ℤ, pos, negsuc, sub_int, Bytes, length,
  ltb, ◌==◌, if◌then◌else◌,
}

-- `llvm::countl_one` on a byte: the ones in front of its first zero bit.
unfoldable pub countl_one : ℕ → ℕ
countl_one c =
    if ltb c 0x80
    then 0
    else if ltb c 0xc0
    then 1
    else if ltb c 0xe0
    then 2
    else if ltb c 0xf0
    then 3
    else if ltb c 0xf8
    then 4
    else if ltb c 0xfc
    then 5
    else if ltb c 0xfe
    then 6
    else if ltb c 0xff
    then 7
    else 8

-- The length in UTF-8 that the loop takes for the code point that begins with byte `c`. A byte that
-- begins none counts as one.
unfoldable pub u8_length : ℕ → ℕ
unfolding countl_one
u8_length c =
    if ltb c 0x80
    then 1
    else if ltb (countl_one c) 2 || ltb 4 (countl_one c)
    then 1
    else countl_one c

-- Its length in UTF-16: two units for a code point outside the basic plane.
unfoldable pub u16_length : ℕ → ℕ
unfolding u8_length
u16_length c = if u8_length c == 4 then 2 else 1

-- `iterateCodepoints`. The callback gets both lengths and its state, and says whether to stop; the
-- Boolean of the result is the loop's own. `skip` counts the trailing bytes still to be passed over.
unfoldable pub iterate_codepoints {ℓ} :
    {S : Type ℓ} → (ℕ → ℕ → S → S × Bool) → ℕ → Bytes → S → S × Bool
iterate_codepoints f skip [] s = (s, false)
iterate_codepoints f (suc skip) (c ∷ cs) s = iterate_codepoints f skip cs s
iterate_codepoints f zero (c ∷ cs) s =
    let stepped = f (u8_length c) (u16_length c) s in
    let rest = iterate_codepoints f (u8_length c - 1) cs stepped.0 in
    if stepped.1 then (stepped.0, true) else rest

-- `lspLength` at UTF-16.
abbrev pub count_units : ℕ → ℕ → ℕ → ℕ × Bool
count_units u8 u16 n = (n + u16, false)

unfoldable pub lsp_length : Bytes → ℕ
unfolding iterate_codepoints
lsp_length code = (iterate_codepoints count_units 0 code 0).0

-- The two variables that the callback of `measureUnits` writes.
pub record Measure : Type 0 where
  pub result : ℕ
  pub units : ℤ

abbrev pub int_le_zero : ℤ → Bool
int_le_zero (pos n) = n == 0
int_le_zero (negsuc n) = true

abbrev pub int_negative : ℤ → Bool
int_negative (pos n) = false
int_negative (negsuc n) = true

abbrev pub measure_step : ℕ → ℕ → Measure → Measure × Bool
measure_step u8 u16 m =
    let left = sub_int m.units u16 in
    (record { result = m.result + u8; units = left }, int_le_zero left)

-- What follows the switch of `measureUnits`, on the loop's state and its result: offsets inside a
-- surrogate pair and overruns are not valid.
abbrev pub measure_finish : ℕ → Measure × Bool → ℕ × Bool
measure_finish size (m, valid) =
    if ltb size m.result
    then (size, false)
    else (m.result, if int_negative m.units then false else valid)

-- `measureUnits` at UTF-16: the offset in bytes, and `Valid`.
unfoldable pub measure_units : Bytes → ℤ → ℕ × Bool
unfolding iterate_codepoints
measure_units u8 units =
    if int_le_zero units
    then (0, if int_negative units then false else true)
    else measure_finish (length u8)
        (iterate_codepoints measure_step 0 u8 (record { result = 0; units = units }))

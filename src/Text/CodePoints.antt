-- ===== src/Text/CodePoints.antt =====
-- What the loops of Units compute, by a description with no callback.
use nixd.Prelude.{
  ℕ, zero, suc, ◌+◌, ◌-◌, ◌≤◌, ◌<◌, Bool, true, false, [], ◌∷◌, ◌++◌, pos, Bytes, length,
  length-append, ◌==◌, ◌≡◌, refl, ◌∙◌, arith, inl, inr, Bool-cases,
}
use nixd.Text.Units.{
  u8_length, u16_length, iterate_codepoints, count_units, lsp_length, measure_step, measure_units,
}

-- The text, with `skip` trailing bytes still to come of a code point before it, ends where a code
-- point ends.
unfoldable pub whole : ℕ → Bytes → Bool
whole skip [] = skip == 0
whole (suc skip) (c ∷ cs) = whole skip cs
whole zero (c ∷ cs) = whole (u8_length c - 1) cs

-- The code units of the code points that begin in the text.
unfoldable pub units_of : ℕ → Bytes → ℕ
units_of skip [] = 0
units_of (suc skip) (c ∷ cs) = units_of skip cs
units_of zero (c ∷ cs) = u16_length c + units_of (u8_length c - 1) cs

pub u_lengths : (c : ℕ) → (1 ≤ u16_length c) × (u16_length c ≤ u8_length c) × (u8_length c ≤ 4)
unfolding u16_length
u_lengths c = ground arith

count-units_of :
    (code : Bytes) (skip n : ℕ)
    → iterate_codepoints count_units skip code n ≡ (n + units_of skip code, false)
unfolding iterate_codepoints units_of
count-units_of [] skip n = ground arith
count-units_of (c ∷ cs) zero n =
    ground (arith, count-units_of cs (u8_length c - 1) (n + u16_length c))
count-units_of (c ∷ cs) (suc skip) n = count-units_of cs skip n

pub lsp_length-units_of : (code : Bytes) → lsp_length code ≡ units_of 0 code
unfolding lsp_length
lsp_length-units_of code = ground (arith, count-units_of code 0 0)

pub whole-units_of :
    (skip : ℕ) (a : Bytes) → whole skip a ≡ true → units_of skip a + skip ≤ length a
unfolding whole units_of
whole-units_of skip [] h = ground arith
whole-units_of (suc skip) (c ∷ cs) h = omega (arith, whole-units_of skip cs h)
whole-units_of zero (c ∷ cs) h = omega (arith, whole-units_of (u8_length c - 1) cs h, u_lengths c)

pub whole_end : (skip : ℕ) (a : Bytes) → whole skip a ≡ true → units_of skip a ≡ 0 → length a ≡ skip
unfolding whole units_of
whole_end skip [] h e = ground arith
whole_end (suc skip) (c ∷ cs) h e = omega (arith, whole_end skip cs h e)
whole_end zero (c ∷ cs) h e = absurd (omega (arith, u_lengths c))

measure-whole :
    (a b : Bytes) (skip r u : ℕ)
    → whole skip a ≡ true
    → u ≡ units_of skip a
    → 0 < u
    → iterate_codepoints measure_step skip (a ++ b) (record { result = r; units = pos u })
      ≡ (record { result = r + (length a - skip); units = pos 0 }, true)
unfolding iterate_codepoints whole units_of
measure-whole [] b skip r u h e l = absurd (omega arith)
measure-whole (c ∷ cs) b (suc skip) r u h e l = measure-whole cs b skip r u h e l ∙ ground arith
measure-whole (c ∷ cs) b zero r u h e l = ground (
  arith,
  measure-whole cs b (u8_length c - 1) (r + u8_length c) (u - u16_length c) h,
  whole_end (u8_length c - 1) cs h,
  whole-units_of (u8_length c - 1) cs h,
  u_lengths c,
)

-- Measuring as many units as a whole text has finds that text's length in bytes, whatever follows.
pub measure_units-whole :
    (a b : Bytes)
    → whole 0 a ≡ true
    → measure_units (a ++ b) (pos (units_of 0 a)) ≡ (length a, true)
unfolding measure_units
measure_units-whole a b h = elim (Bool-cases (units_of 0 a == 0)) [
  | inl z ↦ ground (arith, whole_end 0 a h)
  | inr nz ↦ ground (arith, measure-whole a b 0 0 (units_of 0 a) h refl, length-append a b)
]

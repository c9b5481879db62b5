-- ===== src/Text/Sound.antt =====
-- The outcomes of `positionToOffset`, against the cuts of the text.
use nixd.Prelude.{
  ℕ, zero, suc, ◌+◌, ◌-◌, ◌≤◌, ◌<◌, Bool, true, false, [], ◌∷◌, ◌++◌, ℤ, pos, Bytes, length, take,
  drop, length-take, take-append-drop, ◌==◌, ◌≡◌, ◌⊎◌, refl, sym, ap, ◌∙◌, arith, inl, inr,
}
use nixd.Text.CodePoints.{whole, units_of, u_lengths}
use nixd.Text.Units.{
  Measure, u8_length, u16_length, iterate_codepoints, measure_step, measure_units, measure_finish,
  int_le_zero, int_negative,
}

whole-take : (k : ℕ) (a : Bytes) → k ≤ length a → whole k (take k a) ≡ true
unfolding whole
whole-take zero a h = refl
whole-take (suc k) [] h = absurd (omega arith)
whole-take (suc k) (c ∷ a) h = whole-take k a (omega arith)

units_of-take : (k : ℕ) (a : Bytes) → units_of k (take k a) ≡ 0
unfolding units_of
units_of-take zero a = refl
units_of-take (suc k) [] = refl
units_of-take (suc k) (c ∷ a) = units_of-take k a

-- The bytes of a line that a measurement took: whole code points that have `units` code units.
pub record Measured (skip units : ℕ) (line : Bytes) (bytes : ℕ) : Type 0 where
  pub front : Bytes
  pub back : Bytes
  pub splits : line ≡ front ++ back
  pub ends_whole : whole skip front ≡ true
  pub has_units : units_of skip front ≡ units
  pub has_bytes : length front ≡ bytes

Measured-stop :
    (c : ℕ) (cs : Bytes)
    → u8_length c ≤ suc (length cs)
    → Measured 0 (u16_length c) (c ∷ cs) (u8_length c)
unfolding whole units_of
Measured-stop c cs h = record {
  front = c ∷ take (u8_length c - 1) cs;
  back = drop (u8_length c - 1) cs;
  splits = ap (◌∷◌ c) (sym (take-append-drop (u8_length c - 1) cs));
  ends_whole = whole-take (u8_length c - 1) cs (omega arith);
  has_units = omega (arith, units_of-take (u8_length c - 1) cs);
  has_bytes = omega (arith, length-take (u8_length c - 1) cs, u_lengths c);
}

Measured-skip :
    {skip units bytes : ℕ} (c : ℕ) (cs : Bytes)
    → Measured skip units cs bytes
    → Measured (suc skip) units (c ∷ cs) (suc bytes)
unfolding whole units_of
Measured-skip c cs m = record {
  front = c ∷ m.front;
  back = m.back;
  splits = ap (◌∷◌ c) m.splits;
  ends_whole = m.ends_whole;
  has_units = m.has_units;
  has_bytes = ap suc m.has_bytes;
}

Measured-next :
    {units bytes : ℕ} (c : ℕ) (cs : Bytes)
    → Measured (u8_length c - 1) units cs bytes
    → Measured 0 (u16_length c + units) (c ∷ cs) (suc bytes)
unfolding whole units_of
Measured-next c cs m = record {
  front = c ∷ m.front;
  back = m.back;
  splits = ap (◌∷◌ c) m.splits;
  ends_whole = m.ends_whole;
  has_units = ap (◌+◌ (u16_length c)) m.has_units;
  has_bytes = ap suc m.has_bytes;
}

abbrev at : ℕ → ℕ → Measure
at r u = record { result = r; units = pos u }

-- One round at the first byte of a code point: it is the last one, or units are left.
round-cases :
    (c : ℕ) (cs : Bytes) (r u : ℕ) (m : Measure)
    → iterate_codepoints measure_step 0 (c ∷ cs) (at r u) ≡ (m, true)
    → m.units ≡ pos 0
    → ((u ≡ u16_length c) × (m.result ≡ r + u8_length c))
      ⊎ ((u16_length c < u)
          × (iterate_codepoints measure_step
                (u8_length c - 1)
                cs
                (at (r + u8_length c) (u - u16_length c))
              ≡ (m, true)))
unfolding iterate_codepoints
round-cases c cs r u m h z = ground arith

result-grows :
    (line : Bytes) (skip r u : ℕ) (m : Measure)
    → iterate_codepoints measure_step skip line (at r u) ≡ (m, true)
    → m.units ≡ pos 0
    → r ≤ m.result
result-grows [] skip r u m h z = unfold iterate_codepoints in cc
result-grows (c ∷ cs) (suc skip) r u m h z =
    result-grows cs skip r u m (unfold iterate_codepoints in h) z
result-grows (c ∷ cs) zero r u m h z = elim (round-cases c cs r u m h z) [
  | inl (e, f) ↦ omega arith
  | inr (l, f) ↦
      omega (arith, result-grows cs (u8_length c - 1) (r + u8_length c) (u - u16_length c) m f z)
]

Measured-run :
    (line : Bytes) (skip r u : ℕ) (m : Measure)
    → iterate_codepoints measure_step skip line (at r u) ≡ (m, true)
    → m.units ≡ pos 0
    → m.result + skip ≤ r + length line
    → Measured skip u line (m.result + skip - r)
Measured-run [] skip r u m h z l = unfold iterate_codepoints in cc
Measured-run (c ∷ cs) (suc skip) r u m h z l =
    let again : iterate_codepoints measure_step skip cs (at r u) ≡ (m, true) =
      unfold iterate_codepoints in h in
    let size : suc (m.result + skip - r) ≡ m.result + suc skip - r =
      omega (arith, result-grows cs skip r u m again z) in
    rw (← size) (Measured-skip c cs (Measured-run cs skip r u m again z (omega arith)))
Measured-run (c ∷ cs) zero r u m h z l = elim (round-cases c cs r u m h z) [
  | inl (e, f) ↦
      let size : m.result + 0 - r ≡ u8_length c = omega arith in
      rw (e, size) (Measured-stop c cs (omega arith))
  | inr (below, f) ↦
      let size : m.result + 0 - r ≡ suc (m.result + (u8_length c - 1) - (r + u8_length c)) = omega (
        arith,
        u_lengths c,
        result-grows cs (u8_length c - 1) (r + u8_length c) (u - u16_length c) m f z,
      ) in
      let left : u ≡ u16_length c + (u - u16_length c) = omega arith in
      rw (size, left)
        (Measured-next c cs (
          Measured-run cs (u8_length c - 1) (r + u8_length c) (u - u16_length c) m f z
            (omega (arith, u_lengths c))))
]

stopped :
    (line : Bytes) (skip : ℕ) (s m : Measure)
    → iterate_codepoints measure_step skip line s ≡ (m, true)
    → int_le_zero m.units ≡ true
unfolding iterate_codepoints
stopped [] skip s m h = cc
stopped (c ∷ cs) (suc skip) s m h = stopped cs skip s m h
stopped (c ∷ cs) zero s m h =
    ground (arith, stopped cs (u8_length c - 1) (measure_step (u8_length c) (u16_length c) s).0 m)

finish-inv :
    (size : ℕ) (m : Measure) (valid : Bool) (bytes : ℕ)
    → measure_finish size (m, valid) ≡ (bytes, true)
    → (valid ≡ true) × (m.result ≡ bytes) × (bytes ≤ size) × (int_negative m.units ≡ false)
finish-inv size m valid bytes h = ground arith

zero_of_stopped : (z : ℤ) → int_le_zero z ≡ true → int_negative z ≡ false → z ≡ pos 0
zero_of_stopped z h k = ground arith

Measured-finish :
    (line : Bytes) (u bytes : ℕ) (m : Measure) (valid : Bool)
    → iterate_codepoints measure_step 0 line (at 0 u) ≡ (m, valid)
    → measure_finish (length line) (m, valid) ≡ (bytes, true)
    → Measured 0 u line bytes
Measured-finish line u bytes m valid run h =
    let (e, size, fits, sign) = finish-inv (length line) m valid bytes h in
    let run' : iterate_codepoints measure_step 0 line (at 0 u) ≡ (m, true) = rw e at run in
    let exact : m.result + 0 - 0 ≡ bytes = omega arith in
    rw exact at (
      Measured-run line 0 0 u m run' (zero_of_stopped m.units (stopped line 0 (at 0 u) m run') sign)
        (omega arith))

suc_units :
    (line : Bytes) (u : ℕ)
    → measure_units line (pos (suc u))
      ≡ measure_finish (length line) (iterate_codepoints measure_step 0 line (at 0 (suc u)))
unfolding measure_units
suc_units line u = let e : (suc u == 0) ≡ false = ground arith in rw (e, measure_finish)

pub measure_units-Measured :
    (line : Bytes) (u bytes : ℕ)
    → measure_units line (pos u) ≡ (bytes, true)
    → Measured 0 u line bytes
unfolding whole units_of
measure_units-Measured line zero bytes h = record {
  front = [];
  back = line;
  splits = refl;
  ends_whole = refl;
  has_units = refl;
  has_bytes = unfold measure_units in ap (λ (p : ℕ × Bool). p.0) h;
}
measure_units-Measured line (suc u) bytes h =
    let run = iterate_codepoints measure_step 0 line (at 0 (suc u)) in
    let finished : measure_finish (length line) (run.0, run.1) ≡ (bytes, true) =
      sym (suc_units line u) ∙ h in
    Measured-finish line (suc u) bytes run.0 run.1 refl finished

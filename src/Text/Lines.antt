-- ===== src/Text/Lines.antt =====
-- The loop over lines, against the last line of a text.
use nixd.Prelude.{
  ℕ, suc, ◌+◌, ◌-◌, ◌≤◌, ◌<◌, some, [], ◌∷◌, ◌++◌, Bytes, length, drop, count, length-append,
  drop-length_append, append_assoc, append-nil, count-append, ==_iff, ◌⊎◌, ◌==◌, ◌≡◌, refl, ap, ◌∙◌,
  arith, inl, inr, Bool-cases,
}
use nixd.Text.Offset.{newline, find_newline, take_line, start_of_line, last_line}

pub length-last_line : (a : Bytes) → length (last_line a) ≤ length a
unfolding last_line
length-last_line [] = omega arith
length-last_line (c ∷ cs) = ground (arith, length-last_line cs)

pub count-last_line : (a : Bytes) → count newline (last_line a) ≡ 0
unfolding last_line
count-last_line [] = refl
count-last_line (c ∷ cs) = ground (arith, count-last_line cs)

pub last_line-none : (a : Bytes) → count newline a ≡ 0 → last_line a ≡ a
unfolding last_line
last_line-none [] h = refl
last_line-none (c ∷ cs) h = ground arith

pub last_line-newline : (a b : Bytes) → last_line (a ++ newline ∷ b) ≡ last_line b
unfolding last_line
last_line-newline [] b = ground arith
last_line-newline (c ∷ cs) b = ground (arith, last_line-newline cs b, count_pos cs b)
  where
    count_pos : (a b : Bytes) → 0 < count newline (a ++ newline ∷ b)
    count_pos [] b = ground arith
    count_pos (c ∷ cs) b = ground (arith, count_pos cs b)

last_line-cases :
    (c : ℕ) (cs : Bytes) → (last_line (c ∷ cs) ≡ c ∷ cs) ⊎ (last_line (c ∷ cs) ≡ last_line cs)
unfolding last_line
last_line-cases c cs = ground arith

pub drop-last_line :
    (a b : Bytes) → drop (length a - length (last_line a)) (a ++ b) ≡ last_line a ++ b
drop-last_line [] b = unfold last_line in ground arith
drop-last_line (c ∷ cs) b = elim (last_line-cases c cs) [
  | inl e ↦ let z : length (c ∷ cs) - length (c ∷ cs) ≡ 0 = omega arith in rw (e, z)
  | inr e ↦
      let z : length (c ∷ cs) - length (last_line cs) ≡ suc (length cs - length (last_line cs)) =
        omega (arith, length-last_line cs) in
      rw (e, z) (drop-last_line cs b)
]

pub take_line-append : (a b : Bytes) → count newline a ≡ 0 → take_line (a ++ b) ≡ a ++ take_line b
unfolding take_line
take_line-append [] b h = refl
take_line-append (c ∷ cs) b h = ground (arith, take_line-append cs b)

find_newline-append :
    (a b : Bytes) → count newline a ≡ 0 → find_newline (a ++ newline ∷ b) ≡ some (length a)
unfolding find_newline
find_newline-append [] b h = ground arith
find_newline-append (c ∷ cs) b h = ground (arith, find_newline-append cs b)

move_byte : (cur : Bytes) (c : ℕ) (r : Bytes) → cur ++ c ∷ r ≡ (cur ++ c ∷ []) ++ r
move_byte cur c r = simp append_assoc

split_newline :
    (p cur rest : Bytes) → p ++ (cur ++ newline ∷ rest) ≡ (p ++ (cur ++ newline ∷ [])) ++ rest
split_newline p cur rest = simp append_assoc

same_start :
    (p cur cs : Bytes)
    → some (length (p ++ (cur ++ newline ∷ [])) + (length cs - length (last_line cs)))
      ≡ some (length p + (length (cur ++ newline ∷ cs) - length (last_line cs)))
same_start p cur cs = ap some (
    omega (
      arith,
      length-append p (cur ++ newline ∷ []),
      length-append cur (newline ∷ []),
      length-append cur (newline ∷ cs),
      length-last_line cs,
    ))

start_of_line_step :
    (n : ℕ) (code : Bytes) (start i : ℕ)
    → find_newline (drop start code) ≡ some i
    → start_of_line (suc n) code start ≡ start_of_line n code (start + i + 1)
unfolding start_of_line
start_of_line_step n code start i h = rw (h, start_of_line)

-- One round of the loop.
start-newline :
    (cs p cur b : Bytes)
    → count newline cur ≡ 0
    → start_of_line
        (count newline cs)
        ((p ++ (cur ++ newline ∷ [])) ++ (cs ++ b))
        (length (p ++ (cur ++ newline ∷ [])))
      ≡ some (length (p ++ (cur ++ newline ∷ [])) + (length cs - length (last_line cs)))
    → start_of_line (count newline (newline ∷ cs)) (p ++ (cur ++ (newline ∷ (cs ++ b)))) (length p)
      ≡ some (length p + (length (cur ++ newline ∷ cs) - length (last_line (cur ++ newline ∷ cs))))
start-newline cs p cur b h ih =
    let one : 1 + count newline cs ≡ suc (count newline cs) = omega arith in
    let at : length p + length cur + 1 ≡ length (p ++ (cur ++ newline ∷ [])) =
      omega (arith, length-append p (cur ++ newline ∷ []), length-append cur (newline ∷ [])) in
    rw one (
      start_of_line_step (count newline cs) (p ++ (cur ++ newline ∷ (cs ++ b))) (length p)
        (length cur) (rw drop-length_append (find_newline-append cur (cs ++ b) h))
      ∙ rw (at, split_newline p cur (cs ++ b), last_line-newline cur cs) (ih ∙ same_start p cur cs))

-- From the start of a line of which `cur` has been passed over, the loop finds the last line's start.
start-count :
    (a p cur b : Bytes)
    → count newline cur ≡ 0
    → start_of_line (count newline a) (p ++ (cur ++ (a ++ b))) (length p)
      ≡ some (length p + (length (cur ++ a) - length (last_line (cur ++ a))))
start-count [] p cur b h =
    unfold start_of_line in rw (append-nil, last_line-none cur h) (ground arith)
start-count (c ∷ cs) p cur b h = elim (Bool-cases (c == newline)) [
  | inl nl ↦
      let e : c ≡ newline = (==_iff c newline).0 nl in
      rw e (start-newline cs p cur b h (start-count cs (p ++ (cur ++ newline ∷ [])) [] b refl))
  | inr other ↦
      let lacks : count newline (cur ++ c ∷ []) ≡ 0 =
        ground (arith, count-append newline cur (c ∷ [])) in
      rw other (
        let zero_add : 0 + count newline cs ≡ count newline cs = omega arith in
        rw (zero_add, move_byte cur c (cs ++ b), move_byte cur c cs)
          (start-count cs p (cur ++ c ∷ []) b lacks))
]

pub start_of_line-count :
    (a b : Bytes)
    → start_of_line (count newline a) (a ++ b) 0 ≡ some (length a - length (last_line a))
start_of_line-count a b = start-count a [] [] b refl ∙ ground arith

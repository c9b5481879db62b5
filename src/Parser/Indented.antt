-- ===== src/Parser/Indented.antt =====
-- `stripIndentation` on a string of one piece, against its lines.
use nixd.Prelude.{
  ℕ, suc, zero, ◌+◌, ◌-◌, Bool, true, false, List, [], ◌∷◌, ◌++◌, map, Bytes, leb, ◌==◌,
  if◌then◌else◌, ◌≡◌, refl, sym, ap, ◌∙◌, arith, Bool-cases, inl, inr, append-nil, append_assoc,
  ==_iff,
}
use nixd.Parser.Indent.{trim_char, trim_chars}
use nixd.Parser.Lines.{add_char, split_lines, join_lines, drop_spaces, kind_of}

abbrev pub trimmed : ℕ → Bool → ℕ → Bytes × List Bytes → Bytes
trimmed n true dropped (line, lines) =
    join_lines (drop_spaces (n - dropped) line) (map (drop_spaces n) lines)
trimmed n false dropped (line, lines) = join_lines line (map (drop_spaces n) lines)

append_one : (s : Bytes) (c : ℕ) (cs : Bytes) → (s ++ c ∷ []) ++ cs ≡ s ++ c ∷ cs
append_one s c cs = append_assoc s (c ∷ []) cs

drop_spaces-nil : (n : ℕ) → drop_spaces n [] ≡ []
unfolding drop_spaces
drop_spaces-nil zero = refl
drop_spaces-nil (suc n) = refl

pub drop_spaces_other :
    (n c : ℕ) (cs : Bytes) → (c == b' ') ≡ false → drop_spaces n (c ∷ cs) ≡ c ∷ cs
unfolding drop_spaces
drop_spaces_other zero c cs h = refl
drop_spaces_other (suc n) c cs h = ap (λ b. if b then drop_spaces n cs else c ∷ cs) h

pub join_lines-cons :
    (c : ℕ) (line : Bytes) (lines : List Bytes)
    → join_lines (c ∷ line) lines ≡ c ∷ join_lines line lines
unfolding join_lines
join_lines-cons c line [] = refl
join_lines-cons c line (next ∷ lines) = refl

-- What the second loop makes of one character.
abbrev Continues : ℕ → Bool → ℕ → Bytes → ℕ → Bytes → Type 0
Continues n at dropped s c cs =
    (trim_chars n (record { at_start_of_line = at; cur_dropped = dropped; s2 = s }) (c ∷ cs)).s2
    ≡ s ++ trimmed n at dropped (split_lines (c ∷ cs))

pub trimmed_zero :
    (n : ℕ) (p : Bytes × List Bytes)
    → trimmed n true 0 p ≡ join_lines (drop_spaces n p.0) (map (drop_spaces n) p.1)
trimmed_zero n (line, lines) =
    ap (λ k. join_lines (drop_spaces k line) (map (drop_spaces n) lines)) (omega arith)

trimmed-newline :
    (n : ℕ) (at : Bool) (dropped : ℕ) (p : Bytes × List Bytes)
    → trimmed n at dropped (add_char true b'\n' p) ≡ b'\n' ∷ trimmed n true 0 p
unfolding join_lines
trimmed-newline n true dropped (line, lines) =
    ap (λ l. join_lines l (map (drop_spaces n) (line ∷ lines))) (drop_spaces-nil (n - dropped))
    ∙ ap (λ t. b'\n' ∷ t) (sym (trimmed_zero n (line, lines)))
trimmed-newline n false dropped (line, lines) =
    ap (λ t. b'\n' ∷ t) (sym (trimmed_zero n (line, lines)))

trimmed_other :
    (n : ℕ) (at : Bool) (dropped c : ℕ) (p : Bytes × List Bytes)
    → (c == b' ') ≡ false
    → trimmed n at dropped (add_char false c p) ≡ c ∷ trimmed n false 0 p
trimmed_other n true dropped c (line, lines) h =
    ap (λ l. join_lines l (map (drop_spaces n) lines)) (drop_spaces_other (n - dropped) c line h)
    ∙ join_lines-cons c line (map (drop_spaces n) lines)
trimmed_other n false dropped c (line, lines) h = join_lines-cons c line (map (drop_spaces n) lines)

drop_one_space :
    (n d : ℕ) (line : Bytes)
    → leb n d ≡ false
    → drop_spaces (n - d) (b' ' ∷ line) ≡ drop_spaces (n - (d + 1)) line
unfolding drop_spaces
drop_one_space n d line h =
    let e : n - d ≡ suc (n - (d + 1)) = ground arith in ap (λ k. drop_spaces k (b' ' ∷ line)) e

drop_no_space :
    (n d : ℕ) (line : Bytes)
    → leb n d ≡ true
    → drop_spaces (n - d) (b' ' ∷ line) ≡ b' ' ∷ drop_spaces (n - (d + 1)) line
unfolding drop_spaces
drop_no_space n d line h =
    let e : n - d ≡ 0 = ground arith in
    let q : n - (d + 1) ≡ 0 = ground arith in
    ap (λ k. drop_spaces k (b' ' ∷ line)) e ∙ ap (λ k. b' ' ∷ drop_spaces k line) (sym q)

trimmed_space :
    (n dropped : ℕ) (p : Bytes × List Bytes) (b : Bool)
    → leb n dropped ≡ b
    → trimmed n true dropped (add_char false b' ' p)
      ≡ (if b then b' ' ∷ trimmed n true (dropped + 1) p else trimmed n true (dropped + 1) p)
trimmed_space n dropped (line, lines) true h =
    ap (λ l. join_lines l (map (drop_spaces n) lines)) (drop_no_space n dropped line h)
    ∙ join_lines-cons b' ' (drop_spaces (n - (dropped + 1)) line) (map (drop_spaces n) lines)
trimmed_space n dropped (line, lines) false h =
    ap (λ l. join_lines l (map (drop_spaces n) lines)) (drop_one_space n dropped line h)

-- The second loop, from any state: what it appends are the lines without their spaces.
pub s2-trim_chars :
    (n : ℕ) (at : Bool) (dropped : ℕ) (s cs : Bytes)
    → (trim_chars n
        (record { at_start_of_line = at; cur_dropped = if at then dropped else 0; s2 = s })
        cs).s2
      ≡ s ++ trimmed n at dropped (split_lines cs)
unfolding trim_chars trim_char split_lines join_lines
s2-trim_chars n true dropped s [] =
    sym (append-nil s) ∙ ap (λ l. s ++ l) (sym (drop_spaces-nil (n - dropped)))
s2-trim_chars n false dropped s [] = sym (append-nil s)
s2-trim_chars n true dropped s (c ∷ cs) = elim (kind_of c) [
  | inl e ↦ rw e (elim (Bool-cases (leb n dropped)) [
    | inl q ↦
        rw (q, trim_chars)
          (s2-trim_chars n true (dropped + 1) (s ++ b' ' ∷ []) cs
            ∙ append_one s b' ' _
            ∙ ap (λ l. s ++ l) (sym (trimmed_space n dropped (split_lines cs) true q)))
    | inr q ↦
        rw (q, trim_chars)
          (s2-trim_chars n true (dropped + 1) s cs
            ∙ ap (λ l. s ++ l) (sym (trimmed_space n dropped (split_lines cs) false q)))
  ])
  | inr (inl e) ↦ rw e (
      s2-trim_chars n true 0 (s ++ b'\n' ∷ []) cs
      ∙ append_one s b'\n' _
      ∙ ap (λ l. s ++ l) (sym (trimmed-newline n true dropped (split_lines cs))))
  | inr (inr (e, q)) ↦
      rw (e, q, trim_chars)
        (s2-trim_chars n false 0 (s ++ c ∷ []) cs
          ∙ append_one s c _
          ∙ ap (λ l. s ++ l) (sym (trimmed_other n true dropped c (split_lines cs) e)))
]
s2-trim_chars n false dropped s (c ∷ cs) = elim (Bool-cases (c == b'\n')) [
  | inl q ↦ rw ((==_iff c b'\n').0 q) (
      s2-trim_chars n true 0 (s ++ b'\n' ∷ []) cs
      ∙ append_one s b'\n' _
      ∙ ap (λ l. s ++ l) (sym (trimmed-newline n false dropped (split_lines cs))))
  | inr q ↦
      rw (q, trim_chars)
        (s2-trim_chars n false 0 (s ++ c ∷ []) cs
          ∙ append_one s c _
          ∙ ap (λ l. s ++ l)
              (sym (join_lines-cons c (split_lines cs).0 (map (drop_spaces n) (split_lines cs).1))))
]

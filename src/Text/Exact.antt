-- ===== src/Text/Exact.antt =====
-- `positionToOffset` without leave to pass the end of a line, and `offsetToPosition`, against the cuts
-- of the text.
use nixd.Prelude.{
  ℕ, zero, suc, ◌+◌, ◌-◌, ◌<◌, ◌^◌, Bool, true, false, Option, none, some, [], ◌∷◌, ◌++◌, ℤ, pos,
  negsuc, Bytes, length, drop, count, count-append, length-append, append_assoc, drop-length_append,
  ◌==◌, ◌≡◌, ◌⊎◌, ◌↔◌, refl, sym, ap, ◌∙◌, arith, Option-cases, Bool-cases, inl, inr,
}
use nixd.Protocol.{Position}
use nixd.Text.CodePoints.{whole, units_of}
use nixd.Text.Lines.{last_line-none, last_line-newline}
use nixd.Text.Offset.{
  Expected, ok, err, newline, find_newline, take_line, start_of_line, last_line, offset_in_line,
  line_out_of_range, position_to_offset_from, position_to_offset_parts, position_to_offset,
  offset_to_position,
}
use nixd.Text.RoundTrip.{offset_to_position-append, position_to_offset-append}
use nixd.Text.Sound.{measure_units-Measured}
use nixd.Text.Units.{measure_units}

-- The position `p` stands behind the first `offset` bytes of the text, which end with a whole code
-- point: its line is the number of newlines there, its character the code units of the last line.
pub record Cut (code : Bytes) (p : Position) (offset : ℕ) : Type 0 where
  pub before : Bytes
  pub after : Bytes
  pub splits : code ≡ before ++ after
  pub offset_is : length before ≡ offset
  pub ends_whole : whole 0 (last_line before) ≡ true
  pub line_is : p.line ≡ pos (count newline before)
  pub character_is : p.character ≡ pos (units_of 0 (last_line before))

-- `code` splits at byte `start`, where a line begins that has `lines` newlines before it.
record LineAt (code : Bytes) (lines start : ℕ) : Type 0 where
  head : Bytes
  rest : Bytes
  splits : code ≡ head ++ rest
  start_is : length head ≡ start
  lines_is : count newline head ≡ lines
  at_line : last_line head ≡ []

record FoundNewline (code : Bytes) (i : ℕ) : Type 0 where
  line : Bytes
  rest : Bytes
  splits : code ≡ line ++ newline ∷ rest
  index_is : length line ≡ i
  no_newline : count newline line ≡ 0

found-here : (c : ℕ) (cs : Bytes) → (c == newline) ≡ true → FoundNewline (c ∷ cs) 0
found-here c cs h = record {
  line = [];
  rest = cs;
  splits = ground arith;
  index_is = refl;
  no_newline = refl;
}

found-next :
    {i : ℕ} (c : ℕ) (cs : Bytes)
    → (c == newline) ≡ false
    → FoundNewline cs i
    → FoundNewline (c ∷ cs) (suc i)
found-next c cs h f = record {
  line = c ∷ f.line;
  rest = f.rest;
  splits = ap (◌∷◌ c) f.splits;
  index_is = ap suc f.index_is;
  no_newline = rw h (omega (arith, f.no_newline));
}

find-cases :
    (c : ℕ) (cs : Bytes) (i : ℕ)
    → find_newline (c ∷ cs) ≡ some i
    → (((c == newline) ≡ true) × (i ≡ 0))
      ⊎ (((c == newline) ≡ false) × (find_newline cs ≡ some (i - 1)) × (i ≡ suc (i - 1)))
unfolding find_newline
find-cases c cs i h = ground arith

find_newline-Found : (q : Bytes) (i : ℕ) → find_newline q ≡ some i → FoundNewline q i
find_newline-Found [] i h = unfold find_newline in cc
find_newline-Found (c ∷ cs) i h = elim (find-cases c cs i h) [
  | inl (e, z) ↦ rw z (found-here c cs e)
  | inr (e, f, z) ↦ rw z (found-next c cs e (find_newline-Found cs (i - 1) f))
]

start-cases :
    (n : ℕ) (code : Bytes) (s start : ℕ)
    → start_of_line (suc n) code s ≡ some start
    → (i : ℕ) × (find_newline (drop s code) ≡ some i)
      × (start_of_line n code (s + i + 1) ≡ some start)
unfolding start_of_line
start-cases n code s start h = elim (Option-cases (find_newline (drop s code))) [
  | inl e ↦ absurd (none_end (rw (e, start_of_line) at h))
  | inr (i, e) ↦ (i, e, (rw (e, start_of_line) at h))
]
  where
    none_end : {st : ℕ} → ◌≡◌ {A = Option ℕ} none (some st) → ⊥
    none_end h = cc

line-length :
    (p line : Bytes) (i : ℕ)
    → length line ≡ i
    → length p + i + 1 ≡ length (p ++ (line ++ newline ∷ []))
line-length p line i h =
    omega (arith, length-append p (line ++ newline ∷ []), length-append line (newline ∷ []))

line-count :
    (p line : Bytes) (n : ℕ)
    → count newline line ≡ 0
    → count newline p + suc n ≡ count newline (p ++ (line ++ newline ∷ [])) + n
line-count p line n h =
    ground (
      arith,
      count-append newline p (line ++ newline ∷ []),
      count-append newline line (newline ∷ []),
    )

line-starts : (p line : Bytes) → last_line (p ++ (line ++ newline ∷ [])) ≡ []
line-starts p line =
    rw (← append_assoc p line (newline ∷ []), last_line-newline (p ++ line) [])
      (last_line-none [] refl)

start-LineAt :
    (n : ℕ) (p q : Bytes) (start : ℕ)
    → last_line p ≡ []
    → start_of_line n (p ++ q) (length p) ≡ some start
    → LineAt (p ++ q) (count newline p + n) start
start-LineAt zero p q start l h = record {
  head = p;
  rest = q;
  splits = refl;
  start_is = unfold start_of_line in ground arith;
  lines_is = omega arith;
  at_line = l;
}
start-LineAt (suc n) p q start l h =
    let (i, found, later) = start-cases n (p ++ q) (length p) start h in
    let f = find_newline-Found q i (rw drop-length_append at found) in
    let p' = p ++ (f.line ++ newline ∷ []) in
    let code : p ++ q ≡ p' ++ f.rest = rw f.splits (simp append_assoc) in
    let index : length p + i + 1 ≡ length p' = line-length p f.line i f.index_is in
    let lines : count newline p + suc n ≡ count newline p' + n =
      line-count p f.line n f.no_newline in
    rw (code, lines)
      (start-LineAt n p' f.rest start (line-starts p f.line) (rw (← code, ← index) later))

last_line-append : (a b : Bytes) → last_line a ≡ [] → count newline b ≡ 0 → last_line (a ++ b) ≡ b
unfolding last_line
last_line-append [] b h k = last_line-none b k
last_line-append (c ∷ cs) b h k = ground (arith, last_line-append cs b, count-append newline cs b)

take_line-rest : (q : Bytes) → (rest : Bytes) × (q ≡ take_line q ++ rest)
unfolding take_line
take_line-rest [] = ([], refl)
take_line-rest (c ∷ cs) = elim (Bool-cases (c == newline)) [
  | inl e ↦ (c ∷ cs, rw e)
  | inr e ↦ ((take_line-rest cs).0, rw e (ap (◌∷◌ c) (take_line-rest cs).1))
]

count-take_line : (q : Bytes) → count newline (take_line q) ≡ 0
unfolding take_line
count-take_line [] = refl
count-take_line (c ∷ cs) = ground (arith, count-take_line cs)

count-splits : (l a b : Bytes) → l ≡ a ++ b → count newline l ≡ 0 → count newline a ≡ 0
count-splits l a b e z = ground (arith, ap (count newline) e, count-append newline a b)

line-splits :
    {code rest taken : Bytes} (head tail front back : Bytes)
    → code ≡ head ++ rest
    → rest ≡ taken ++ tail
    → taken ≡ front ++ back
    → code ≡ (head ++ front) ++ (back ++ tail)
line-splits head tail front back e f g = rw (e, f, g) (simp append_assoc)

-- A line's start and a measurement on its line make a cut.
line-Cut :
    (code : Bytes) (line u start bytes : ℕ)
    → LineAt code line start
    → measure_units (take_line (drop start code)) (pos u) ≡ (bytes, true)
    → Cut code (record { line = pos line; character = pos u }) (start + bytes)
line-Cut code line u start bytes l h =
    let q : drop start code ≡ l.rest =
      rw (l.splits, ← l.start_is) (drop-length_append l.head l.rest) in
    let m = measure_units-Measured (take_line l.rest) u bytes (rw q at h) in
    let (tail, whole_rest) = take_line-rest l.rest in
    let no_newline : count newline m.front ≡ 0 =
      count-splits (take_line l.rest) m.front m.back m.splits (count-take_line l.rest) in
    let last : last_line (l.head ++ m.front) ≡ m.front =
      last_line-append l.head m.front l.at_line no_newline in
    record {
      before = l.head ++ m.front;
      after = m.back ++ tail;
      splits = line-splits l.head tail m.front m.back l.splits whole_rest m.splits;
      offset_is = omega (arith, length-append l.head m.front, l.start_is, m.has_bytes);
      ends_whole = rw last m.ends_whole;
      line_is = ap pos (omega (arith, count-append newline l.head m.front, l.lines_is));
      character_is = ap pos (rw last (sym m.has_units));
    }

in-line-inv :
    (code : Bytes) (start u o : ℕ)
    → offset_in_line code start (pos u) false ≡ ok o
    → ((measure_units (take_line (drop start code)) (pos u)).1 ≡ true)
      × (o ≡ start + (measure_units (take_line (drop start code)) (pos u)).0)
in-line-inv code start u o h = ground arith

from-Cut :
    (code : Bytes) (line u o : ℕ)
    → position_to_offset_from code line u false ≡ ok o
    → Cut code (record { line = pos line; character = pos u }) o
from-Cut code line u o h = elim (Option-cases (start_of_line line code 0)) [
  | inl e ↦ absurd (out_of_range (rw (e, position_to_offset_from) at h))
  | inr (start, e) ↦
      let (valid, sum) = in-line-inv code start u o (rw (e, position_to_offset_from) at h) in
      let n : 0 + line ≡ line = omega arith in
      rw sum (
        line-Cut code line u start (measure_units (take_line (drop start code)) (pos u)).0
          (rw n at (start-LineAt line [] code start (last_line-none [] refl) e))
          (λ i. ((measure_units (take_line (drop start code)) (pos u)).0, valid i)))
]
  where
    out_of_range : {o : ℕ} → ◌≡◌ {A = Expected ℕ} (err line_out_of_range) (ok o) → ⊥
    out_of_range h = cc

parts-Cut :
    (code : Bytes) (line character : ℤ) (o : ℕ)
    → position_to_offset_parts code line character false ≡ ok o
    → Cut code (record { line = line; character = character }) o
parts-Cut code (negsuc n) character o h = cc
parts-Cut code (pos line) (negsuc n) o h = cc
parts-Cut code (pos line) (pos u) o h = from-Cut code line u o h

pub position_to_offset-of-Cut :
    (code : Bytes) (p : Position) (o : ℕ) (allow : Bool)
    → Cut code p o
    → position_to_offset code p allow ≡ ok o
unfolding position_to_offset
position_to_offset-of-Cut code p o allow c =
    rw (c.line_is, c.character_is, c.splits)
      (position_to_offset-append c.before c.after allow c.ends_whole ∙ ap ok c.offset_is)

-- `position_to_offset` without leave to go beyond a line gives the offset `o` exactly where the text
-- can be cut behind its first `o` bytes, these end with a whole code point, and the position counts
-- the newlines among them and the UTF-16 units of their last line.
pub position_to_offset_iff :
    (code : Bytes) (p : Position) (o : ℕ) → (position_to_offset code p false ≡ ok o) ↔ Cut code p o
unfolding position_to_offset
position_to_offset_iff code p o =
    (λ h. parts-Cut code p.line p.character o h, λ c. position_to_offset-of-Cut code p o false c)

-- An offset that `position_to_offset` finds without leave to pass a line's end leads back to the
-- position it was found for, in a text shorter than 2^31 bytes.
pub offset_to_position-position_to_offset :
    (code : Bytes) (p : Position) (o : ℕ)
    → length code < 2 ^ 31
    → position_to_offset code p false ≡ ok o
    → offset_to_position code o ≡ p
offset_to_position-position_to_offset code p o h e =
    let c = (position_to_offset_iff code p o).0 e in
    let fits : length c.before < 2 ^ 31 =
      omega (arith, ap length c.splits, length-append c.before c.after) in
    rw (c.splits, ← c.offset_is)
      (offset_to_position-append c.before c.after c.ends_whole fits
        ∙ (λ i. record { line = sym c.line_is i; character = sym c.character_is i }))

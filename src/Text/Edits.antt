-- ===== src/Text/Edits.antt =====
-- `applyChange`, against the cuts of the text that its range names.
use nixd.Prelude.{
  ℕ, ◌+◌, ◌-◌, true, false, Option, none, some, [], ◌∷◌, ◌++◌, ℤ, pos, Bytes, length, count,
  count-append, append-nil, length-append, append_assoc, take-length_append, drop-length_append,
  drop-append, ltb, ◌≡◌, ◌⊎◌, refl, sym, subst, ap, ◌∙◌, arith, inl, inr,
}
use nixd.Protocol.{Position, Range}
use nixd.Text.Change.{
  Change, lacks_final_newline, infers_newline, infer_final_newline, resolve_end, length_mismatch,
  apply_between, apply_stop, apply_start, apply_range, apply_change,
}
use nixd.Text.CodePoints.{whole, units_of}
use nixd.Text.Lines.{last_line-newline, last_line-none}
use nixd.Text.Exact.{Cut, position_to_offset_iff, position_to_offset-of-Cut}
use nixd.Text.Offset.{Error, Expected, ok, err, newline, last_line, position_to_offset}
use nixd.Text.Units.{lsp_length}

resolve_end-Cut :
    (contents : Bytes) (p : Position) (o : ℕ)
    → Cut contents p o
    → resolve_end contents p ≡ (ok o, contents)
unfolding resolve_end infer_final_newline
resolve_end-Cut contents p o c = rw (position_to_offset-of-Cut contents p o false c)

apply_between-splice :
    (before mid after text : Bytes) (given : Option ℤ)
    → length_mismatch given (lsp_length mid) ≡ false
    → apply_between
        (before ++ (mid ++ after))
        (length before)
        (length before + length mid)
        given
        text
      ≡ (ok tt, before ++ (text ++ after))
unfolding apply_between
apply_between-splice before mid after text given h =
    let len : length before + length mid - length before ≡ length mid = omega arith in
    let order : ltb (length before + length mid) (length before) ≡ false = ground arith in
    rw (
      len,
      order,
      drop-length_append before (mid ++ after),
      take-length_append mid after,
      h,
      take-length_append before (mid ++ after),
      drop-append before (mid ++ after) (length mid),
      drop-length_append mid after,
    )

-- A change whose range runs from the cut behind `before` to the cut behind `mid`, with no range
-- length or with that of `mid`, puts its text in place of `mid` and keeps the rest.
pub apply_change-splice :
    (before mid after text : Bytes) (start stop : Position) (given : Option ℤ)
    → Cut (before ++ (mid ++ after)) start (length before)
    → Cut (before ++ (mid ++ after)) stop (length before + length mid)
    → length_mismatch given (lsp_length mid) ≡ false
    → apply_change (before ++ (mid ++ after)) (record {
      range = some (record { start = start; end = stop });
      range_length = given;
      text = text;
    })
      ≡ (ok tt, before ++ (text ++ after))
unfolding apply_change
apply_change-splice before mid after text start stop given c d h =
    rw
      (
        apply_start,
        apply_stop,
        resolve_end-Cut (before ++ (mid ++ after)) start (length before) c,
        resolve_end-Cut (before ++ (mid ++ after)) stop (length before + length mid) d,
      )
      (apply_between-splice before mid after text given h)

-- What a failed step may have done to the contents: nothing, or one newline at the end.
abbrev pub Kept : Bytes → Bytes → Type 0
Kept contents contents' = (contents' ≡ contents) ⊎ (contents' ≡ contents ++ newline ∷ [])

resolve_end-Kept :
    (contents : Bytes) (p : Position)
    → ((resolve_end contents p).1 ≡ contents)
      ⊎ (((resolve_end contents p).1 ≡ contents ++ newline ∷ [])
          × (lacks_final_newline contents ≡ true))
unfolding resolve_end infer_final_newline infers_newline
resolve_end-Kept contents p = ground arith

lacks-newline : (a : Bytes) → lacks_final_newline (a ++ newline ∷ []) ≡ false
unfolding lacks_final_newline
lacks-newline [] = ground arith
lacks-newline (c ∷ []) = ground arith
lacks-newline (c ∷ d ∷ cs) = lacks-newline (d ∷ cs)

apply_stop-refused :
    (c : Bytes) (s : ℕ) (change : Change) (r : Expected ℕ × Bytes) (e : Error)
    → (apply_stop c s change r).0 ≡ err e
    → (apply_stop c s change r).1 ≡ r.1
unfolding apply_between
apply_stop-refused c s change (err f, d) e h = refl
apply_stop-refused c s change (ok t, d) e h = ground arith

resolve_end-twice :
    (contents c : Bytes) (p : Position) → Kept contents c → Kept contents (resolve_end c p).1
resolve_end-twice contents c p (inl same) = elim (resolve_end-Kept c p) [
  | inl q ↦ inl (q ∙ same)
  | inr (q, _) ↦ inr (q ∙ ap (λ (b : Bytes). b ++ newline ∷ []) same)
]
resolve_end-twice contents c p (inr added) = elim (resolve_end-Kept c p) [
  | inl q ↦ inr (q ∙ added)
  | inr (_, lacks) ↦
      absurd (not_both (sym (lacks-newline contents) ∙ ap lacks_final_newline (sym added) ∙ lacks))
]
  where
    not_both : false ≡ true → ⊥
    not_both h = cc

apply_start-Kept :
    (contents : Bytes) (range : Range) (change : Change) (r : Expected ℕ × Bytes) (e : Error)
    → Kept contents r.1
    → (apply_start range change r).0 ≡ err e
    → Kept contents (apply_start range change r).1
apply_start-Kept contents range change (err f, c) e k h = k
apply_start-Kept contents range change (ok s, c) e k h =
    subst (λ (d : Bytes). Kept contents d)
      (sym (apply_stop-refused c s change (resolve_end c range.end) e h))
      (resolve_end-twice contents c range.end k)

apply_range-Kept :
    (contents : Bytes) (change : Change) (range : Option Range) (e : Error)
    → (apply_range contents change range).0 ≡ err e
    → Kept contents (apply_range contents change range).1
apply_range-Kept contents change none e h = cc
apply_range-Kept contents change (some range) e h =
    apply_start-Kept contents range change (resolve_end contents range.start) e
      (resolve_end-twice contents contents range.start (inl refl)) h

-- A change that is refused leaves the contents as they were, or with one newline added at the end.
pub apply_change-Kept :
    (contents : Bytes) (change : Change) (e : Error)
    → (apply_change contents change).0 ≡ err e
    → Kept contents (apply_change contents change).1
unfolding apply_change
apply_change-Kept contents change e h = apply_range-Kept contents change change.range e h

-- The start of the line behind the last one, where that is ended.
abbrev pub below : Bytes → Position
below contents = record { line = pos (count newline contents + 1); character = pos 0 }

Cut-below : (contents : Bytes) (o : ℕ) → Cut contents (below contents) o → ⊥
Cut-below contents o c = absurd (
    omega (
      arith,
      pos_injective _ _ c.line_is,
      ap (count newline) c.splits,
      count-append newline c.before c.after,
    ))
  where
    pos_injective : (a b : ℕ) → pos a ≡ pos b → a ≡ b
    pos_injective a b h = cc

expected-cases :
    {A : Type 0} (r : Expected A) → ((a : A) × (r ≡ ok a)) ⊎ ((e : Error) × (r ≡ err e))
expected-cases (ok a) = inl (a, refl)
expected-cases (err e) = inr (e, refl)

infers-below :
    (contents : Bytes)
    → lacks_final_newline contents ≡ true
    → infers_newline contents (below contents) ≡ true
unfolding infers_newline
infers-below contents h = ground arith

resolve_end-below :
    (contents : Bytes)
    → lacks_final_newline contents ≡ true
    → resolve_end contents (below contents) ≡ (ok (length contents + 1), contents ++ newline ∷ [])
unfolding resolve_end infer_final_newline
resolve_end-below contents h =
    elim (expected-cases (position_to_offset contents (below contents) false)) [
      | inl (o, e) ↦
          absurd (Cut-below contents o ((position_to_offset_iff contents (below contents) o).0 e))
      | inr (f, e) ↦ rw (e, infers-below contents h)
    ]

Cut-ended :
    (contents : Bytes) → Cut (contents ++ newline ∷ []) (below contents) (length contents + 1)
Cut-ended contents = record {
  before = contents ++ newline ∷ [];
  after = [];
  splits = rw append-nil;
  offset_is = omega (arith, length-append contents (newline ∷ []));
  ends_whole = rw ended (unfold whole in refl);
  line_is = ap pos (omega (arith, count-append newline contents (newline ∷ [])));
  character_is = rw ended (unfold units_of in refl);
}
  where
    ended : last_line (contents ++ newline ∷ []) ≡ []
    ended = last_line-newline contents [] ∙ last_line-none [] refl

append_text :
    (contents text : Bytes)
    → apply_between (contents ++ newline ∷ []) (length contents + 1) (length contents + 1) none text
      ≡ (ok tt, contents ++ newline ∷ text)
append_text contents text =
    let size : length (contents ++ newline ∷ []) ≡ length contents + 1 =
      omega (arith, length-append contents (newline ∷ [])) in
    let same : length contents + 1 + length {A = ℕ} [] ≡ length contents + 1 = omega arith in
    let whole_text : (contents ++ newline ∷ []) ++ (text ++ []) ≡ contents ++ newline ∷ text =
      simp (append-nil, append_assoc) in
    rw (append-nil, size, same, whole_text) at
      (apply_between-splice (contents ++ newline ∷ []) [] [] text none refl)

-- Where the last line is not ended, an insertion at the start of the line below it, in a change
-- without a range length, ends that line first and puts the text behind.
pub apply_change-inferred :
    (contents text : Bytes)
    → lacks_final_newline contents ≡ true
    → apply_change contents (record {
      range = some (record { start = below contents; end = below contents });
      range_length = none;
      text = text;
    })
      ≡ (ok tt, contents ++ newline ∷ text)
unfolding apply_change
apply_change-inferred contents text h =
    rw
      (
        apply_start,
        resolve_end-below contents h,
        apply_stop,
        resolve_end-Cut (contents ++ newline ∷ []) (below contents) (length contents + 1)
            (Cut-ended contents),
      )
      (append_text contents text)

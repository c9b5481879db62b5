-- ===== src/Connection/Framing.antt =====
-- `readStandardMessage` on what `sendMessage` writes.
use nixd.Prelude.{
  ℕ, zero, suc, ◌+◌, ◌-◌, ◌^◌, ◌≤◌, ◌<◌, Bool, true, false, Option, none, some, [], ◌∷◌, ◌++◌,
  Bytes, length, take, drop, leb, count, consume_front, consume_front-append, ◌≡◌, refl, sym, ap,
  ◌∙◌, arith, append_assoc, append-nil, length-append, length-take, length-drop, take-length_append,
  count-append,
}
use nixd.Connection.Delivery.{read_line-Carries, read-Takes, prefix_split}
use nixd.Connection.Read.{
  Message, message, content_length, write_at, zeros, resize, read_body, body_got, body_round,
  header, after_line, after_header, read_headers, read_standard_message,
}
use nixd.Connection.Send.{send_message}
use nixd.Connection.Stream.{Stream, ReadResult, read, bytes_of, is_clean, LengthOps}

length-zeros : (n : ℕ) → length (zeros n) ≡ n
length-zeros zero = refl
length-zeros (suc n) = omega (arith, length-zeros n)

length-resize : (old : Bytes) (n : ℕ) → length (resize old n) ≡ n
length-resize old n = omega (
  arith,
  length-append (take n old) (zeros (n - length old)),
  length-take n old,
  length-zeros (n - length old),
)

take-append_exact : (xs ys : Bytes) (n : ℕ) → length xs ≡ n → take n (xs ++ ys) ≡ xs
take-append_exact xs ys n e = ap (λ (k : ℕ). take k (xs ++ ys)) (sym e) ∙ take-length_append xs ys

take-all : (xs : Bytes) (n : ℕ) → length xs ≡ n → take n xs ≡ xs
take-all xs n e = ap (λ (ys : Bytes). take n ys) (sym (append-nil xs)) ∙ take-append_exact xs [] n e

-- What a read writes: the bytes before `pos` stay, and the read ones follow them.
write_at-take :
    (buffer bs : Bytes) (pos : ℕ)
    → pos ≤ length buffer
    → take (pos + length bs) (write_at buffer pos bs) ≡ take pos buffer ++ bs
write_at-take buffer bs pos h =
    ap (λ (ys : Bytes). take (pos + length bs) ys)
      (sym (append_assoc (take pos buffer) bs (drop (pos + length bs) buffer)))
    ∙ take-append_exact (take pos buffer ++ bs) (drop (pos + length bs) buffer) (pos + length bs)
        (omega (arith, length-append (take pos buffer) bs, length-take pos buffer))

write_at-length :
    (buffer bs : Bytes) (pos : ℕ)
    → pos + length bs ≤ length buffer
    → length (write_at buffer pos bs) ≡ length buffer
write_at-length buffer bs pos h = omega (
  arith,
  length-append (take pos buffer) (bs ++ drop (pos + length bs) buffer),
  length-append bs (drop (pos + length bs) buffer),
  length-take pos buffer,
  length-drop (pos + length bs) buffer,
)

-- The body: the rest of a message that the stream carries is read into the buffer.
read_body-message :
    (fuel n pos : ℕ) (buffer m rest : Bytes) (s : Stream)
    → is_clean s ≡ true
    → bytes_of s ≡ m ++ rest
    → length s < fuel
    → length buffer ≡ n
    → pos + length m ≡ n
    → (s' : Stream) × (read_body fuel n pos buffer s ≡ message (take pos buffer ++ m) s')
      × (is_clean s' ≡ true)
      × (bytes_of s' ≡ rest)
unfolding read_body
read_body-message zero n pos buffer m rest s c e f l p = absurd (omega (arith, f))
read_body-message (suc fuel) n pos buffer [] rest s c e f l p =
    let done : leb n pos ≡ true = ground (arith, p) in
    let here : pos ≡ n = omega (arith, p) in
    let whole : take pos buffer ++ [] ≡ buffer =
      append-nil (take pos buffer) ∙ take-all buffer pos (omega (arith, l, here)) in
    (s, rw done (ap (λ (b : Bytes). message b s) (sym whole)), c, e)
read_body-message (suc fuel) n pos buffer (b ∷ m) rest s c e f l p =
    let more : leb n pos ≡ false = ground (arith, p) in
    let asked : n - pos ≡ suc (length m) = omega (arith, p) in
    let (bs, s', q, t, d) = read-Takes (length m) b (m ++ rest) s c e in
    let (x, y) = prefix_split (b ∷ bs) (bytes_of s') (b ∷ m) rest (t.bytes ∙ e) t.within in
    let left : Bytes = drop (length bs) m in
    let (s'', r, c', e') =
      read_body-message fuel n (pos + length (b ∷ bs)) (write_at buffer pos (b ∷ bs)) left rest s'
        t.clean y (omega (arith, d, f))
        (write_at-length buffer (b ∷ bs) pos (omega (arith, l, p, t.within)) ∙ l)
        (omega (arith, p, t.within, length-drop (length bs) m)) in
    let loop : ℕ → Bytes → Stream → Message = read_body fuel n in
    let whole : take (pos + length (b ∷ bs)) (write_at buffer pos (b ∷ bs)) ++ left
        ≡ take pos buffer ++ b ∷ m =
      ap (λ (z : Bytes). z ++ left) (write_at-take buffer (b ∷ bs) pos (omega (arith, l, p)))
      ∙ append_assoc (take pos buffer) (b ∷ bs) left
      ∙ ap (λ (z : Bytes). take pos buffer ++ z) (sym x) in
    (
      s'',
      ap (λ (z : Bool). body_round loop n pos buffer s z) more
          ∙ ap (λ (k : ℕ). body_got loop pos buffer (read k s)) asked
          ∙ ap (λ (z : ReadResult). body_got loop pos buffer z) q
          ∙ r
          ∙ ap (λ (z : Bytes). message z s'') whole,
      c',
      e',
    )

module _ (ops : LengthOps) where
  first_line : Bytes → Bytes
  first_line text = content_length ++ (ops.print_size (length text) ++ b'\r' ∷ [])

  first_line-newline : (text : Bytes) → count b'\n' (first_line text) ≡ 0
  unfolding first_line
  first_line-newline text = omega (
    arith,
    count-append b'\n' content_length (ops.print_size (length text) ++ b'\r' ∷ []),
    count-append b'\n' (ops.print_size (length text)) (b'\r' ∷ []),
    ops.print_size-newline (length text),
  )

  send_message-lines :
      (text rest : Bytes)
      → send_message ops text ++ rest ≡ first_line text ++ b'\n' ∷ (b'\r' ∷ b'\n' ∷ (text ++ rest))
  unfolding send_message first_line
  send_message-lines text rest = simp append_assoc

  header-first_line :
      (text : Bytes) (old : ℕ)
      → length text < 2 ^ 64
      → header ops (first_line text) old ≡ some (length text)
  unfolding header first_line
  header-first_line text old h =
      rw
        (
          consume_front-append content_length (ops.print_size (length text) ++ b'\r' ∷ []),
          ops.trim-print_size (length text),
          ops.as_unsigned-print_size (length text) old h,
        )
        refl

  header-empty : (n : ℕ) → header ops (b'\r' ∷ []) n ≡ none
  unfolding header consume_front
  header-empty n = rw ops.trim-return refl

  read_headers-body :
      (fuel : ℕ) (old text rest : Bytes) (s : Stream)
      → 0 < fuel
      → is_clean s ≡ true
      → bytes_of s ≡ b'\r' ∷ b'\n' ∷ (text ++ rest)
      → (s' : Stream) × (read_headers ops fuel old (length text) s ≡ message text s')
        × (is_clean s' ≡ true)
        × (bytes_of s' ≡ rest)
  unfolding read_headers
  read_headers-body zero old text rest s f c e = absurd (omega (arith, f))
  read_headers-body (suc fuel) old text rest s f c e =
      let (s1, q, k) = read_line-Carries [] (b'\r' ∷ []) (text ++ rest) s c e refl in
      let n : ℕ = length text in
      let (s2, r, c2, e2) =
        read_body-message (suc (length s1)) n 0 (resize old n) text rest s1 k.clean k.bytes
          (omega arith) (length-resize old n) (omega arith) in
      let loop : ℕ → Stream → Message = read_headers ops fuel old in
      (
        s2,
        ap (λ (z : Option Bytes × Stream). after_line ops loop n old z) q
            ∙ ap (λ (z : Option ℕ). after_header ops loop n old s1 z) (header-empty n)
            ∙ r,
        c2,
        e2,
      )

  -- A message of less than 2^64 bytes that was sent is read, wherever the reads pause, where none of
  -- them fails or is interrupted: the text comes out, and what follows it is left on the stream.
  pub read_standard_message-send_message :
      (old text rest : Bytes) (s : Stream)
      → length text < 2 ^ 64
      → is_clean s ≡ true
      → bytes_of s ≡ send_message ops text ++ rest
      → (s' : Stream) × (read_standard_message ops old s ≡ message text s')
        × (is_clean s' ≡ true)
        × (bytes_of s' ≡ rest)
  unfolding read_standard_message read_headers
  read_standard_message-send_message old text rest s h c e =
      let (s1, q1, k1) =
        read_line-Carries [] (first_line text) (b'\r' ∷ b'\n' ∷ (text ++ rest)) s c
          (e ∙ send_message-lines text rest) (first_line-newline text) in
      let (s2, r, c2, e2) =
        read_headers-body (length s) old text rest s1 (omega (arith, k1.short)) k1.clean k1.bytes in
      let loop : ℕ → Stream → Message = read_headers ops (length s) old in
      (
        s2,
        ap (λ (z : Option Bytes × Stream). after_line ops loop 0 old z) q1
            ∙ ap (λ (z : Option ℕ). after_header ops loop 0 old s1 z) (header-first_line text 0 h)
            ∙ r,
        c2,
        e2,
      )

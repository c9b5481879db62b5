-- ===== src/Connection/Delivery.antt =====
-- Reads from a stream in which nothing fails.
use nixd.Prelude.{
  ℕ, zero, suc, ◌≤◌, ◌<◌, true, false, some, [], ◌∷◌, ◌++◌, Bytes, length, count, ◌≡◌, refl, sym,
  ap, ◌∙◌, arith, drop, append_assoc, append-nil, ◌==◌,
}
use nixd.Connection.Stream.{
  Stream, byte, pause, interrupted, failed, got, read, available, bytes_of, is_clean,
}
use nixd.Connection.Read.{read_line}

-- A stream in which nothing fails, with these bytes, shorter than a bound.
pub record Carries (bs : Bytes) (bound : ℕ) (s : Stream) : Type 0 where
  pub clean : is_clean s ≡ true
  pub bytes : bytes_of s ≡ bs
  pub short : length s < bound

-- `read_line` gives the bytes before the newline, and leaves those behind it.
pub read_line-Carries :
    (acc line rest : Bytes) (s : Stream)
    → is_clean s ≡ true
    → bytes_of s ≡ line ++ b'\n' ∷ rest
    → count b'\n' line ≡ 0
    → (s' : Stream) × (read_line acc s ≡ (some (acc ++ line), s')) × Carries rest (length s) s'
unfolding read_line
read_line-Carries acc [] rest [] c e n = cc
read_line-Carries acc (l ∷ line) rest [] c e n = cc
read_line-Carries acc line rest (interrupted ∷ s) c e n = cc
read_line-Carries acc line rest (failed ∷ s) c e n = cc
read_line-Carries acc line rest (pause ∷ s) c e n =
    let (s', q, k) = read_line-Carries acc line rest s c e n in
    (s', q, record { clean = k.clean; bytes = k.bytes; short = omega (arith, k.short) })
read_line-Carries acc [] rest (byte b ∷ s) c e n =
    let newline : b ≡ b'\n' = cc in
    let same : bytes_of s ≡ rest = cc in
    (
      s,
      rw newline (ap (λ (xs : Bytes). (some xs, s)) (sym (append-nil acc))),
      record { clean = c; bytes = same; short = omega arith },
    )
read_line-Carries acc (l ∷ line) rest (byte b ∷ s) c e n =
    let this : b ≡ l = cc in
    let same : bytes_of s ≡ line ++ b'\n' ∷ rest = cc in
    let other : (l == b'\n') ≡ false = ground (arith, n) in
    let more : count b'\n' line ≡ 0 = ground (arith, n) in
    let (s', q, k) = read_line-Carries (acc ++ b ∷ []) line rest s c same more in
    let differs : (b == b'\n') ≡ false = ground (arith, other, this) in
    let whole : (acc ++ b ∷ []) ++ line ≡ acc ++ l ∷ line =
      ap (λ (z : ℕ). (acc ++ z ∷ []) ++ line) this ∙ append_assoc acc (l ∷ []) line in
    (
      s',
      rw differs (q ∙ ap (λ (xs : Bytes). (some xs, s')) whole),
      record { clean = k.clean; bytes = k.bytes; short = omega (arith, k.short) },
    )

-- What `read` takes: some bytes, as many as are asked for at most, and what is left.
pub record Takes (k : ℕ) (s : Stream) (bs : Bytes) (s' : Stream) : Type 0 where
  pub clean : is_clean s' ≡ true
  pub bytes : bs ++ bytes_of s' ≡ bytes_of s
  pub within : length bs ≤ k
  pub short : length s' ≤ length s

available-Takes :
    (k : ℕ) (s : Stream) → is_clean s ≡ true → Takes k s (available k s).0 (available k s).1
unfolding available
available-Takes zero s c = record {
  clean = c;
  bytes = refl;
  within = omega arith;
  short = omega arith;
}
available-Takes (suc k) [] c = record {
  clean = c;
  bytes = refl;
  within = omega arith;
  short = omega arith;
}
available-Takes (suc k) (pause ∷ s) c = record {
  clean = c;
  bytes = refl;
  within = omega arith;
  short = omega arith;
}
available-Takes (suc k) (interrupted ∷ s) c = cc
available-Takes (suc k) (failed ∷ s) c = cc
available-Takes (suc k) (byte b ∷ s) c =
    let t = available-Takes k s c in
    record {
      clean = t.clean;
      bytes = ap (λ (xs : Bytes). b ∷ xs) t.bytes;
      within = omega (arith, t.within);
      short = omega (arith, t.short);
    }

-- `read` gives at least a byte of a stream that has one.
pub read-Takes :
    (k b : ℕ) (more : Bytes) (s : Stream)
    → is_clean s ≡ true
    → bytes_of s ≡ b ∷ more
    → (bs : Bytes) × (s' : Stream) × (read (suc k) s ≡ got (b ∷ bs) s')
      × Takes (suc k) s (b ∷ bs) s'
      × (length s' < length s)
unfolding read available
read-Takes k b more [] c e = cc
read-Takes k b more (interrupted ∷ s) c e = cc
read-Takes k b more (failed ∷ s) c e = cc
read-Takes k b more (pause ∷ s) c e =
    let (bs, s', q, t, l) = read-Takes k b more s c e in
    (
      bs,
      s',
      q,
      record { clean = t.clean; bytes = t.bytes; within = t.within; short = omega (arith, l) },
      omega (arith, l),
    )
read-Takes k b more (byte d ∷ s) c e =
    let same : d ≡ b = cc in
    let t = available-Takes k s c in
    (
      (available k s).0,
      (available k s).1,
      ap (λ (z : ℕ). got (z ∷ (available k s).0) (available k s).1) same,
      record {
        clean = t.clean;
        bytes = λ i. sym same i ∷ t.bytes i;
        within = omega (arith, t.within);
        short = omega (arith, t.short);
      },
      omega (arith, t.short),
    )

-- The bytes that are taken are the first of what is asked for.
pub prefix_split :
    (bs ts m rest : Bytes)
    → bs ++ ts ≡ m ++ rest
    → length bs ≤ length m
    → (m ≡ bs ++ drop (length bs) m) × (ts ≡ drop (length bs) m ++ rest)
prefix_split [] ts m rest e l = (refl, e)
prefix_split (b ∷ bs) ts [] rest e l = absurd (omega arith)
prefix_split (b ∷ bs) ts (c ∷ m) rest e l =
    let tails : bs ++ ts ≡ m ++ rest = cc in
    let heads : c ≡ b = cc in
    let (p, q) = prefix_split bs ts m rest tails (omega arith) in (λ i. heads i ∷ p i, q)

-- ===== src/Connection/Stream.antt =====
-- The input of a file descriptor, as the calls of POSIX `read` find it, and the functions that
-- lspserver/src/Connection.cpp calls for the length of a message.
use nixd.Prelude.{ℕ, suc, ◌<◌, ◌^◌, Bool, true, false, List, [], ◌∷◌, ◌++◌, Bytes, count, ◌≡◌}

-- `pause` is where the bytes that are there end: a read gives those before it. `interrupted` is a
-- read that fails with `EINTR`, `failed` one that fails otherwise. The end of the list is the end of
-- the input.
pub data Item : Type 0 where
  byte : ℕ → Item
  pause interrupted failed : Item

abbrev pub Stream : Type 0
Stream = List Item

pub data ReadResult : Type 0 where
  at_end : ReadResult
  minus_one : Stream → ReadResult
  got : Bytes → Stream → ReadResult

-- The bytes that are there, `n` at most.
unfoldable pub available : ℕ → Stream → Bytes × Stream
available (suc n) (byte b ∷ s) = let (bs, rest) = available n s in (b ∷ bs, rest)
available (suc n) (pause ∷ s) = ([], s)
available n s = ([], s)

-- `read(fd, buffer, n)`: it waits for the first byte.
unfoldable pub read : ℕ → Stream → ReadResult
read n [] = at_end
read n (pause ∷ s) = read n s
read n (interrupted ∷ s) = minus_one s
read n (failed ∷ s) = minus_one s
read n (byte b ∷ s) = let (bs, rest) = available n (byte b ∷ s) in got bs rest

-- The bytes of a stream, and whether nothing fails in it.
abbrev pub bytes_of : Stream → Bytes
bytes_of [] = []
bytes_of (byte b ∷ s) = b ∷ bytes_of s
bytes_of (_ ∷ s) = bytes_of s

abbrev pub is_clean : Stream → Bool
is_clean [] = true
is_clean (byte b ∷ s) = is_clean s
is_clean (pause ∷ s) = is_clean s
is_clean (interrupted ∷ s) = false
is_clean (failed ∷ s) = false

-- `raw_ostream::operator<<` of a size, `StringRef::trim` and `getAsUnsignedInteger` with radix 0,
-- which gives the value that its output has afterwards, from the one before.
pub record LengthOps : Type 0 where
  pub print_size : ℕ → Bytes
  pub trim : Bytes → Bytes
  pub as_unsigned : Bytes → ℕ → ℕ
  pub print_size-newline : (n : ℕ) → count b'\n' (print_size n) ≡ 0
  pub trim-print_size : (n : ℕ) → trim (print_size n ++ b'\r' ∷ []) ≡ print_size n
  pub trim-return : trim (b'\r' ∷ []) ≡ []
  pub as_unsigned-print_size : (n old : ℕ) → n < 2 ^ 64 → as_unsigned (print_size n) old ≡ n

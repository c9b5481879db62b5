-- ===== src/Connection/Read.antt =====
-- `readLine` and `readStandardMessage` of lspserver/src/Connection.cpp.
use nixd.Prelude.{
  ℕ, zero, suc, ◌+◌, ◌-◌, ◌%◌, ◌^◌, Bool, true, false, Option, none, some, [], ◌∷◌, ◌++◌, Bytes,
  length, take, drop, leb, ◌&&◌, ◌==◌, if◌then◌else◌, codes, consume_front, is_empty,
}
use nixd.Connection.Stream.{
  Stream, byte, pause, interrupted, failed, ReadResult, at_end, minus_one, got, read, LengthOps,
}

-- `readLine`, with the line read so far: `none` where it returns false.
unfoldable pub read_line : Bytes → Stream → Option Bytes × Stream
read_line line [] = (none, [])
read_line line (pause ∷ s) = read_line line s
read_line line (interrupted ∷ s) = read_line line s
read_line line (failed ∷ s) = (none, s)
read_line line (byte b ∷ s) =
    let rest = read_line (line ++ b ∷ []) s in if b == b'\n' then (some line, s) else rest

-- `JSONStreamStyle`.
pub data StreamStyle : Type 0 where
  standard delimited : StreamStyle

pub data Message : Type 0 where
  message : Bytes → Stream → Message
  aborted : Message
  no_fuel : Message

-- `StringRef::startswith`.
abbrev pub starts_with : Bytes → Bytes → Bool
starts_with [] s = true
starts_with (p ∷ ps) [] = false
starts_with (p ∷ ps) (c ∷ cs) = p == c && starts_with ps cs

abbrev pub content_length : Bytes
content_length = codes "Content-Length: "

-- What is read goes to `JSONString.data() + Pos`.
abbrev pub write_at : Bytes → ℕ → Bytes → Bytes
write_at buffer pos bs = take pos buffer ++ (bs ++ drop (pos + length bs) buffer)

abbrev pub zeros : ℕ → Bytes
zeros zero = []
zeros (suc n) = 0 ∷ zeros n

-- `JSONString.resize(n)`.
abbrev pub resize : Bytes → ℕ → Bytes
resize old n = take n old ++ zeros (n - length old)

-- A round of the loop that reads the body, and the rest of it as a function. `Read` is unsigned, so
-- a failed read adds 2^64 - 1 to `Pos`.
abbrev pub body_got : (ℕ → Bytes → Stream → Message) → ℕ → Bytes → ReadResult → Message
body_got loop pos buffer at_end = aborted
body_got loop pos buffer (minus_one s) = loop ((pos + (2 ^ 64 - 1)) % 2 ^ 64) buffer s
body_got loop pos buffer (got bs s) = loop (pos + length bs) (write_at buffer pos bs) s

abbrev pub body_round : (ℕ → Bytes → Stream → Message) → ℕ → ℕ → Bytes → Stream → Bool → Message
body_round loop n pos buffer s true = message buffer s
body_round loop n pos buffer s false = body_got loop pos buffer (read (n - pos) s)

unfoldable pub read_body : ℕ → ℕ → ℕ → Bytes → Stream → Message
read_body zero n pos buffer s = no_fuel
read_body (suc fuel) n pos buffer s = body_round (read_body fuel n) n pos buffer s (leb n pos)

module _ (ops : LengthOps) where
  -- What a header line makes of `ContentLength`; `none` ends the headers.
  abbrev pub header_value : Bytes → ℕ → Option Bytes → Option ℕ
  header_value line n (some rest) = some (ops.as_unsigned (ops.trim rest) n)
  header_value line n none = if is_empty (ops.trim line) then none else some n

  unfoldable pub header : Bytes → ℕ → Option ℕ
  header line n = header_value line n (consume_front content_length line)

  abbrev pub after_header : (ℕ → Stream → Message) → ℕ → Bytes → Stream → Option ℕ → Message
  after_header loop n old s (some m) = loop m s
  after_header loop n old s none = read_body (suc (length s)) n 0 (resize old n) s

  abbrev pub after_line : (ℕ → Stream → Message) → ℕ → Bytes → Option Bytes × Stream → Message
  after_line loop n old (none, s) = aborted
  after_line loop n old (some line, s) = after_header loop n old s (header line n)

  unfoldable pub read_headers : ℕ → Bytes → ℕ → Stream → Message
  read_headers zero old n s = no_fuel
  read_headers (suc fuel) old n s = after_line (read_headers fuel old) n old (read_line [] s)

  -- `readStandardMessage`, with what `JSONString` holds before. Each round takes at least one item
  -- from the stream.
  unfoldable pub read_standard_message : Bytes → Stream → Message
  read_standard_message old s = read_headers (suc (length s)) old 0 s

  -- `readDelimitedMessage`: what a line does in a block and outside, and the loop on the lines.
  abbrev pub delimited_line :
      (Bool → Bytes → Stream → Message) → Bool → Bytes → Bytes → Stream → Message
  delimited_line loop true json line s =
      if starts_with (codes "#") (ops.trim line)
      then loop true json s
      else if starts_with (codes "```") (ops.trim line)
      then message json s
      else loop true (json ++ line) s
  delimited_line loop false json line s =
      loop (starts_with (codes "```json") (ops.trim line)) json s

  abbrev pub delimited_step :
      (Bool → Bytes → Stream → Message) → Bool → Bytes → Option Bytes × Stream → Message
  delimited_step loop in_block json (none, s) = message json s
  delimited_step loop in_block json (some line, s) = delimited_line loop in_block json line s

  unfoldable pub read_delimited : ℕ → Bool → Bytes → Stream → Message
  read_delimited zero in_block json s = no_fuel
  read_delimited (suc fuel) in_block json s =
      delimited_step (read_delimited fuel) in_block json (read_line [] s)

  unfoldable pub read_delimited_message : Stream → Message
  read_delimited_message s = read_delimited (suc (length s)) false [] s

  -- `readMessage`.
  unfoldable pub read_message : StreamStyle → Bytes → Stream → Message
  read_message standard old s = read_standard_message old s
  read_message delimited old s = read_delimited_message s

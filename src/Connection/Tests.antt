-- ===== src/Connection/Tests.antt =====
-- Runs of the connection, with decimal sizes below ten and a JSON value of its own.
use nixd.Prelude.{
  ℕ, zero, suc, ◌<◌, ◌^◌, true, some, List, [], ◌∷◌, ◌++◌, Bytes, codes, length, ltb, ◌==◌,
  if◌then◌else◌, pos, count, consume_front, ◌≡◌, refl, ap, arith,
}
use nixd.Connection.Stream.{
  Stream, byte, pause, failed, LengthOps, bytes_of, is_clean, read, available,
}
use nixd.Connection.Read.{
  message, standard, read_line, read_body, header, read_headers, read_standard_message,
  read_message,
}
use nixd.Connection.Send.{send_message}
use nixd.Connection.Framing.{read_standard_message-send_message}
use nixd.Connection.Json.Sample.{null, integer, sample}
use nixd.Connection.Dispatch.{
  lsp_error, string_error, error, on_reply, on_call, on_notify, unknown_error_code, dispatch,
  notify_message, call_message, reply_message, dispatch-messages,
}
use nixd.Connection.Loop.{Handler, loop, feed, loop-feed}

-- A size is printed as its lines of a tally, and read by counting them.
abbrev tally_marks : ℕ → Bytes
tally_marks zero = []
tally_marks (suc n) = b'1' ∷ tally_marks n

abbrev drop_return : Bytes → Bytes
drop_return [] = []
drop_return (c ∷ cs) = if c == b'\r' then [] else c ∷ drop_return cs

tally_marks-newline : (n : ℕ) → count b'\n' (tally_marks n) ≡ 0
tally_marks-newline zero = refl
tally_marks-newline (suc n) = omega (arith, tally_marks-newline n)

drop_return-tally_marks : (n : ℕ) → drop_return (tally_marks n ++ b'\r' ∷ []) ≡ tally_marks n
drop_return-tally_marks zero = refl
drop_return-tally_marks (suc n) = ap (λ (bs : Bytes). b'1' ∷ bs) (drop_return-tally_marks n)

length-tally_marks : (n old : ℕ) → n < 2 ^ 64 → length (tally_marks n) ≡ n
length-tally_marks zero old h = refl
length-tally_marks (suc n) old h = omega (arith, length-tally_marks n old (omega (arith, h)))

abbrev marks : LengthOps
marks = record {
  print_size = tally_marks;
  trim = drop_return;
  as_unsigned = λ bs old. length bs;
  print_size-newline = tally_marks-newline;
  trim-print_size = drop_return-tally_marks;
  trim-return = refl;
  as_unsigned-print_size = length-tally_marks;
}

abbrev stream_of : Bytes → Stream
stream_of [] = []
stream_of (b ∷ bs) = byte b ∷ pause ∷ stream_of bs

abbrev input : Stream
input = stream_of (send_message marks (codes "{}") ++ codes "x")

send_run : send_message marks (codes "{}") ≡ codes "Content-Length: 11\r\n\r\n{}"
unfolding send_message
send_run = refl

-- A read that fails before the first byte of the body ends the loop: the body is left as it was.
failed_read :
    read_message marks standard []
      (stream_of (codes "Content-Length: 11\r\n\r\n") ++ failed ∷ stream_of (codes "{}"))
    ≡ message (0 ∷ 0 ∷ []) (stream_of (codes "{}"))
unfolding read_message read_standard_message read_headers read_line header read_body read available
    consume_front
failed_read = refl

read_standard_message-send_message_example :
    (s' : Stream) × (read_standard_message marks [] input ≡ message (codes "{}") s')
    × (is_clean s' ≡ true)
    × (bytes_of s' ≡ codes "x")
unfolding send_message
read_standard_message-send_message_example =
    read_standard_message-send_message marks [] (codes "{}") (codes "x") input (omega arith) refl
      refl

dispatch-messages_example :
    (dispatch sample (notify_message sample (codes "exit") null) ≡ on_notify (codes "exit") null)
    × (dispatch sample (call_message sample (codes "exit") null (integer (pos 1)))
        ≡ on_call (codes "exit") null (integer (pos 1)))
    × (dispatch sample (reply_message sample (integer (pos 1)) (error (string_error (codes "x"))))
        ≡ on_reply (integer (pos 1)) (error (lsp_error (codes "x") unknown_error_code)))
dispatch-messages_example =
    dispatch-messages sample (codes "exit") null (integer (pos 1))
      (error (string_error (codes "x"))) refl refl

-- A handler that keeps the lengths of the messages, and ends at an empty one.
abbrev lengths : Handler (List ℕ) ℕ
lengths = record { parse = λ text. some (length text); handle = λ seen n. (n ∷ seen, ltb 0 n) }

abbrev three : Stream
three = stream_of (send_message marks (codes "ab") ++ send_message marks [])

loop-feed_example :
    loop marks lengths 3 standard [] [] three ≡ feed marks lengths (codes "ab" ∷ [] ∷ []) []
unfolding send_message
loop-feed_example =
    loop-feed marks lengths (codes "ab" ∷ [] ∷ []) 3 [] [] three (omega arith, (omega arith, tt))
      (omega arith) refl refl

-- ===== src/Connection/Send.antt =====
-- `sendMessage` of lspserver/src/Connection.cpp, on the text of a message.
use nixd.Prelude.{◌++◌, Bytes, length, codes}
use nixd.Connection.Read.{content_length}
use nixd.Connection.Stream.{LengthOps}

unfoldable pub send_message : LengthOps → Bytes → Bytes
send_message ops text =
    content_length ++ (ops.print_size (length text) ++ (codes "\r\n\r\n" ++ text))

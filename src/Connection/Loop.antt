-- ===== src/Connection/Loop.antt =====
-- `InboundPort::loop` of lspserver/src/Connection.cpp, over what the handler does to a state: it
-- gives the state that it leaves and whether the loop goes on.
use nixd.Prelude.{
  ℕ, zero, suc, ◌<◌, ◌^◌, Bool, true, false, Option, none, some, List, [], ◌∷◌, ◌++◌, Bytes, length,
  ◌≡◌, refl, ap, ◌∙◌, arith,
}
use nixd.Connection.Framing.{read_standard_message-send_message}
use nixd.Connection.Read.{
  Message, message, aborted, no_fuel, StreamStyle, standard, read_line, read_headers, after_line,
  read_standard_message, read_message,
}
use nixd.Connection.Send.{send_message}
use nixd.Connection.Stream.{Stream, byte, pause, interrupted, failed, LengthOps, bytes_of, is_clean}

-- A handler of JSON values `V`, with `llvm::json::parse`.
pub record Handler (S V : Type 0) : Type 0 where
  pub parse : Bytes → Option V
  pub handle : S → V → S × Bool

module _ {S V : Type 0} (ops : LengthOps) (h : Handler S V) where
  abbrev pub after_handle : (S → Bytes → Stream → S) → Bytes → Stream → S × Bool → S
  after_handle loop text s (state, true) = loop state text s
  after_handle loop text s (state, false) = state

  abbrev pub after_parse : (S → Bytes → Stream → S) → S → Bytes → Stream → Option V → S
  after_parse loop state text s none = state
  after_parse loop state text s (some v) = after_handle loop text s (h.handle state v)

  abbrev pub after_read : (S → Bytes → Stream → S) → S → Message → S
  after_read loop state (message text s) = after_parse loop state text s (h.parse text)
  after_read loop state aborted = state
  after_read loop state no_fuel = state

  -- With the text that `JSONString` holds; the fuel is one more than the messages that can come.
  unfoldable pub loop : ℕ → StreamStyle → S → Bytes → Stream → S
  loop zero style state old s = state
  loop (suc fuel) style state old s =
      after_read (loop fuel style) state (read_message ops style old s)

  -- What the messages do, one after another, up to one that ends the loop or cannot be parsed.
  abbrev pub feed_handled : (S → S) → S × Bool → S
  feed_handled more (state, true) = more state
  feed_handled more (state, false) = state

  abbrev pub feed_parsed : (S → S) → S → Option V → S
  feed_parsed more state none = state
  feed_parsed more state (some v) = feed_handled more (h.handle state v)

  unfoldable pub feed : List Bytes → S → S
  feed [] state = state
  feed (text ∷ texts) state = feed_parsed (feed texts) state (h.parse text)

  abbrev pub sent_all : List Bytes → Bytes
  sent_all [] = []
  sent_all (text ∷ texts) = send_message ops text ++ sent_all texts

  abbrev pub AllFit : List Bytes → Type 0
  AllFit [] = Unit
  AllFit (text ∷ texts) = (length text < 2 ^ 64) × AllFit texts

read_line-end :
    (acc : Bytes) (s : Stream) → is_clean s ≡ true → bytes_of s ≡ [] → (read_line acc s).0 ≡ none
unfolding read_line
read_line-end acc [] c e = refl
read_line-end acc (byte b ∷ s) c e = cc
read_line-end acc (pause ∷ s) c e = read_line-end acc s c e
read_line-end acc (interrupted ∷ s) c e = cc
read_line-end acc (failed ∷ s) c e = cc

module _ {S V : Type 0} (ops : LengthOps) (h : Handler S V) where
  read_message-end :
      (old : Bytes) (s : Stream)
      → is_clean s ≡ true
      → bytes_of s ≡ []
      → read_message ops standard old s ≡ aborted
  unfolding read_message read_standard_message read_headers
  read_message-end old s c e = go (read_line [] s) (read_line-end [] s c e)
    where
      go :
          (r : Option Bytes × Stream)
          → r.0 ≡ none
          → after_line ops (read_headers ops (length s) old) 0 old r ≡ aborted
      go (none, t) q = refl
      go (some line, t) q = cc

  -- The loop on a stream that carries the messages that were sent, each of less than 2^64 bytes, and
  -- none of whose reads fails or is interrupted, does what the messages do one after another, up to
  -- one that ends the loop or cannot be parsed.
  pub loop-feed :
      (texts : List Bytes) (fuel : ℕ) (state : S) (old : Bytes) (s : Stream)
      → AllFit ops h texts
      → length texts < fuel
      → is_clean s ≡ true
      → bytes_of s ≡ sent_all ops h texts
      → loop ops h fuel standard state old s ≡ feed ops h texts state
  unfolding loop feed read_message
  loop-feed texts zero state old s fits f c e = absurd (omega (arith, f))
  loop-feed [] (suc fuel) state old s fits f c e =
      ap (λ (m : Message). after_read ops h (loop ops h fuel standard) state m)
        (read_message-end old s c e)
  loop-feed (text ∷ texts) (suc fuel) state old s fits f c e =
      let (s', q, c', e') =
        read_standard_message-send_message ops old text (sent_all ops h texts) s fits.0 c e in
      ap (λ (m : Message). after_read ops h (loop ops h fuel standard) state m) q
      ∙ parsed (h.parse text) s'
          (λ (st : S). loop-feed texts fuel st text s' fits.1 (omega (arith, f)) c' e')
    where
      handled :
          (r : S × Bool) (t : Stream)
          → ((st : S) → loop ops h fuel standard st text t ≡ feed ops h texts st)
          → after_handle ops h (loop ops h fuel standard) text t r
            ≡ feed_handled ops h (feed ops h texts) r
      handled (st, true) t ih = ih st
      handled (st, false) t ih = refl

      parsed :
          (o : Option V) (t : Stream)
          → ((st : S) → loop ops h fuel standard st text t ≡ feed ops h texts st)
          → after_parse ops h (loop ops h fuel standard) state text t o
            ≡ feed_parsed ops h (feed ops h texts) state o
      parsed none t ih = refl
      parsed (some v) t ih = handled (h.handle state v) t ih

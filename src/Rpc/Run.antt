-- ===== src/Rpc/Run.antt =====
-- A server's life, as far as its pending calls go: calls to the client and replies in any order.
use nixd.Prelude.{ℕ, ◌+◌, Option, List, [], ◌∷◌, ◌++◌, ℤ, to_int}
use nixd.Rpc.Pending.{Server, Entry, Event, Outcome, thrown, handled, bind_reply, on_reply, start}

pub data Step (C V : Type 0) : Type 0 where
  call : C → Step C V
  reply : Option ℤ → V → Step C V

-- What has been bound and what has been invoked, with the server that this leaves.
pub record History (C V : Type 0) : Type 0 where
  pub server : Server C
  pub bound : List (Entry C)
  pub invoked : List (Event C V)

module _ {C V : Type 0} where
  -- How many of the steps are calls.
  abbrev pub calls_of : List (Step C V) → ℕ
  calls_of [] = 0
  calls_of (call cb ∷ steps) = 1 + calls_of steps
  calls_of (reply id v ∷ steps) = calls_of steps

  abbrev pub beginning : History C V
  beginning = record { server = start; bound = []; invoked = [] }

  abbrev pub after_bind : History C V → C → Server C × List (Event C V) → History C V
  after_bind h cb (s, es) = record {
    server = s;
    bound = record { id = to_int h.server.top_id; callback = cb } ∷ h.bound;
    invoked = es ++ h.invoked;
  }

  -- A reply that is refused by an exception leaves the server as it is.
  abbrev pub after_reply : History C V → Outcome C V → History C V
  after_reply h (thrown e) = h
  after_reply h (handled s es) = record { server = s; bound = h.bound; invoked = es ++ h.invoked }

  abbrev pub step : History C V → Step C V → History C V
  step h (call cb) = after_bind h cb (bind_reply h.server cb)
  step h (reply id v) = after_reply h (on_reply h.server id v)

  unfoldable pub run : History C V → List (Step C V) → History C V
  run h [] = h
  run h (s ∷ steps) = run (step h s) steps

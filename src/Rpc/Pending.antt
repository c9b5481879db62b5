-- ===== src/Rpc/Pending.antt =====
-- The pending calls of lspserver/src/LSPServer.cpp: `bindReply` and `onReply`, over a type `C` of
-- callbacks and a type `V` of replies (a JSON value, or the client's error). The callbacks that an operation invokes are part of its
-- result, in order, each with the ID that it was bound to and the response that it gets.
use nixd.Prelude.{
  Bool, true, false, ℕ, ◌+◌, ◌-◌, ◌%◌, ◌^◌, Option, none, some, List, [], ◌∷◌, length, ltb, ℤ, pos,
  negsuc, int_lt, int_eq, to_int, if◌then◌else◌,
}

-- What a callback gets: a client's reply, or the error that there was none.
pub data Response (V : Type 0) : Type 0 where
  result : V → Response V
  no_reply : ℤ → Response V

pub record Entry (C : Type 0) : Type 0 where
  pub id : ℤ
  pub callback : C

pub record Event (C V : Type 0) : Type 0 where
  pub called : Entry C
  pub response : Response V

-- `PendingCalls`, in the order of the IDs, and the 32 bits of `TopID`, an `int`, whose overflow is
-- written as wrap-around.
pub record Server (C : Type 0) : Type 0 where
  pub pending_calls : List (Entry C)
  pub top_id : ℕ

abbrev pub max_pending_calls : ℕ
max_pending_calls = 100

-- The exceptions of `onReply`.
pub data Exception : Type 0 where
  id_too_large : Exception
  id_not_integer : Exception

pub data Outcome (C V : Type 0) : Type 0 where
  thrown : Exception → Outcome C V
  handled : Server C → List (Event C V) → Outcome C V

-- `static_cast<int>` of an `int64_t`.
unfoldable pub cast_int : ℤ → ℤ
cast_int (pos n) = to_int n
cast_int (negsuc n) = to_int (2 ^ 32 - 1 - n % 2 ^ 32)

module _ {C : Type 0} where
  abbrev pub start : Server C
  start = record { pending_calls = []; top_id = 1 }

  -- `std::map`: `m[k] = v`, `m.find(k)` and `m.erase(k)`.
  unfoldable pub put : Entry C → List (Entry C) → List (Entry C)
  put e [] = e ∷ []
  put e (f ∷ m) =
      let rest = put e m in
      if int_lt e.id f.id then e ∷ f ∷ m else if int_lt f.id e.id then f ∷ rest else e ∷ m

  unfoldable pub find_call : ℤ → List (Entry C) → Option (Entry C)
  find_call k [] = none
  find_call k (f ∷ m) = let rest = find_call k m in if int_eq f.id k then some f else rest

  unfoldable pub erase : ℤ → List (Entry C) → List (Entry C)
  erase k [] = []
  erase k (f ∷ m) = let rest = erase k m in if int_eq f.id k then m else f ∷ rest

module _ {C V : Type 0} where
  -- The oldest callback is invoked, and forgotten, where there are more than `MaxPendingCalls`.
  abbrev pub forget_oldest : ℕ → Entry C → List (Entry C) → Bool → Server C × List (Event C V)
  forget_oldest top f m true = (
    record { pending_calls = m; top_id = top },
    record { called = f; response = no_reply f.id } ∷ [],
  )
  forget_oldest top f m false = (record { pending_calls = f ∷ m; top_id = top }, [])

  abbrev pub check_limit : ℕ → List (Entry C) → Server C × List (Event C V)
  check_limit top [] = (record { pending_calls = []; top_id = top }, [])
  check_limit top (f ∷ m) = forget_oldest top f m (ltb max_pending_calls (length (f ∷ m)))

  -- `bindReply`: what it leaves and invokes; the ID that it returns is the `TopID` before.
  unfoldable pub bind_reply : Server C → C → Server C × List (Event C V)
  bind_reply s cb =
      check_limit ((s.top_id + 1) % 2 ^ 32)
        (put (record { id = to_int s.top_id; callback = cb }) s.pending_calls)

  abbrev pub reply_to : Server C → ℤ → V → Option (Entry C) → Outcome C V
  reply_to s i v none = handled s []
  reply_to s i v (some e) =
      handled (record { pending_calls = erase i s.pending_calls; top_id = s.top_id })
        (record { called = e; response = result v } ∷ [])

  -- `onReply`; `none` is an ID that is no integer.
  unfoldable pub on_reply : Server C → Option ℤ → V → Outcome C V
  on_reply s none v = thrown id_not_integer
  on_reply s (some i) v =
      if int_lt (pos (2 ^ 31 - 1)) i
      then thrown id_too_large
      else reply_to s (cast_int i) v (find_call (cast_int i) s.pending_calls)

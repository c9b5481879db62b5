-- ===== src/Rpc/Tests.antt =====
-- Runs of calls and replies, with numbers for callbacks and for replies.
use nixd.Prelude.{
  ℕ, zero, suc, All, true, int_lt, to_int, subst, sym, ◌++◌, ◌+◌, ◌≤◌, none, some, List, [], ◌∷◌,
  length, pos, negsuc, ◌≡◌, refl, arith,
}
use nixd.Rpc.Fate.{IsKept, called_of}
use nixd.Rpc.Once.{is_id, run-conserves, run-limited, run-once}
use nixd.Rpc.Pending.{
  Server, Entry, Event, handled, thrown, id_too_large, result, no_reply, max_pending_calls, put,
  find_call, erase, bind_reply, on_reply, cast_int,
}
use nixd.Rpc.Replies.{on_reply-bind_reply, bind_reply-oldest}
use nixd.Rpc.Run.{Step, call, reply, beginning, run}
use nixd.Rpc.Table.{tally, Below}

abbrev entry : ℕ → ℕ → Entry ℕ
entry n cb = record { id = pos n; callback = cb }

-- Two calls, a reply to the first of them, the same reply again, and one to no call.
abbrev steps : List (Step ℕ ℕ)
steps = call 7 ∷ call 8 ∷ reply (some (pos 1)) 5 ∷ reply (some (pos 1)) 6 ∷ reply none 0 ∷ []

abbrev answered : List (Event ℕ ℕ)
answered = record { called = entry 1 7; response = result 5 } ∷ []

run-steps :
    ((run beginning steps).invoked ≡ answered)
    × ((run beginning steps).server.pending_calls ≡ entry 2 8 ∷ [])
unfolding run bind_reply on_reply put find_call erase cast_int
run-steps = (refl, refl)

abbrev waiting : Server ℕ
waiting = record { pending_calls = entry 1 7 ∷ []; top_id = 2 }

-- An ID far below zero is cut to that of a pending call; one above `INT_MAX` is refused.
reply_ids :
    (on_reply {V = ℕ} waiting (some (negsuc 4294967294)) 5
      ≡ handled
          (record { pending_calls = []; top_id = 2 })
          (record { called = entry 1 7; response = result 5 } ∷ []))
    × (on_reply {V = ℕ} waiting (some (pos 4294967297)) 5 ≡ thrown id_too_large)
unfolding on_reply find_call erase cast_int
reply_ids = (refl, refl)

run-conserves_example :
    tally (is_id (pos 1)) (run beginning steps).server.pending_calls
      + tally (is_id (pos 1)) (called_of (run beginning steps).invoked)
    ≡ tally (is_id (pos 1)) (run beginning steps).bound
run-conserves_example = run-conserves steps (is_id (pos 1)) (omega arith)

run-once_example :
    tally (is_id (pos 1)) (run beginning steps).server.pending_calls
      + tally (is_id (pos 1)) (called_of (run beginning steps).invoked)
    ≤ 1
run-once_example = run-once steps (pos 1) (omega arith)

run-limited_example : length (run beginning steps).server.pending_calls ≤ max_pending_calls
run-limited_example = run-limited steps

waiting-IsKept : IsKept ℕ waiting
waiting-IsKept = record { below = (refl, tt); limited = omega arith }

on_reply-bind_reply_example :
    ((bind_reply {V = ℕ} waiting 8).1 ≡ [])
    × (on_reply {V = ℕ} (bind_reply {V = ℕ} waiting 8).0 (some (pos 2)) 5
        ≡ handled
            (record { pending_calls = entry 1 7 ∷ []; top_id = 3 })
            (record { called = entry 2 8; response = result 5 } ∷ []))
on_reply-bind_reply_example =
    on_reply-bind_reply waiting 8 5 waiting-IsKept (omega arith) (omega arith)

-- `n` calls that wait, from an ID on.
abbrev calls : ℕ → ℕ → List (Entry ℕ)
calls zero k = []
calls (suc n) k = entry k 0 ∷ calls n (k + 1)

abbrev busy : Server ℕ
busy = record { pending_calls = calls 100 1; top_id = 101 }

calls-Below : (n k top : ℕ) → k + n ≤ top → to_int top ≡ pos top → All (Below top) (calls n k)
calls-Below zero k top h e = tt
calls-Below (suc n) k top h e = (
  subst (λ z. int_lt (pos k) z ≡ true) (sym e) (ground (arith, h)),
  calls-Below n (k + 1) top (omega (arith, h)) e,
)

busy-IsKept : IsKept ℕ busy
busy-IsKept = record { below = calls-Below 100 1 101 (omega arith) refl; limited = omega arith }

bind_reply-oldest_example : bind_reply {V = ℕ} busy 9 ≡ (
  record { pending_calls = calls 99 2 ++ entry 101 9 ∷ []; top_id = 102 },
  record { called = entry 1 0; response = no_reply (pos 1) } ∷ [],
)
bind_reply-oldest_example = bind_reply-oldest busy (entry 1 0) (calls 99 2) 9 busy-IsKept refl refl

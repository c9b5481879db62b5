-- ===== src/Rpc/Fate.antt =====
-- What one call of `bindReply` leaves of the pending calls, and what it invokes.
use nixd.Prelude.{
  ℕ, ◌+◌, ◌%◌, ◌≤◌, ◌<◌, ◌^◌, Bool, true, false, List, [], ◌∷◌, ◌++◌, length, ltb, to_int, ◌≡◌,
  refl, sym, ap, arith, All, All-append, length-append, subst,
}
use nixd.Rpc.Pending.{
  Server, Entry, Event, max_pending_calls, put, check_limit, forget_oldest, bind_reply,
}
use nixd.Rpc.Table.{tally, Below, put-last, length-put}

-- The pending calls are in order below the next ID and within the limit.
pub record IsKept (C : Type 0) (s : Server C) : Type 0 where
  pub below : All (Below s.top_id) s.pending_calls
  pub limited : length s.pending_calls ≤ max_pending_calls

module _ {C : Type 0} where
  raise :
      (top : ℕ) (m : List (Entry C))
      → top + 1 < 2 ^ 31
      → All (Below top) m
      → All (Below ((top + 1) % 2 ^ 32)) m
  raise top [] h k = tt
  raise top (e ∷ m) h (k, ks) = (ground (arith, h, k), raise top m h ks)

  new-Below :
      (top : ℕ) (cb : C)
      → top + 1 < 2 ^ 31
      → Below ((top + 1) % 2 ^ 32) (record { id = to_int top; callback = cb })
  new-Below top cb h = ground (arith, h)

module _ {C V : Type 0} where
  abbrev pub called_of : List (Event C V) → List (Entry C)
  called_of [] = []
  called_of (e ∷ es) = e.called ∷ called_of es

  pub called_of-append :
      (xs ys : List (Event C V)) → called_of (xs ++ ys) ≡ called_of xs ++ called_of ys
  called_of-append [] ys = refl
  called_of-append (x ∷ xs) ys =
      ap (λ (es : List (Entry C)). x.called ∷ es) (called_of-append xs ys)

  -- What is left of a table, and what is invoked from it.
  abbrev pub Fate : ℕ → List (Entry C) → Server C × List (Event C V) → Type 0
  Fate top m r =
      (r.0.top_id ≡ top)
      × IsKept C r.0
      × ((test : Entry C → Bool)
          → tally test r.0.pending_calls + tally test (called_of r.1) ≡ tally test m)

module _ {C : Type 0} (V : Type 0) where
  check_limit-Fate :
      (top : ℕ) (m : List (Entry C))
      → All (Below top) m
      → length m ≤ max_pending_calls + 1
      → Fate {C = C} {V = V} top m (check_limit top m)
  check_limit-Fate top [] h l = (refl, record { below = tt; limited = omega arith }, λ test. refl)
  check_limit-Fate top (f ∷ m) h l = go (ltb max_pending_calls (length (f ∷ m))) refl
    where
      go :
          (b : Bool)
          → ltb max_pending_calls (length (f ∷ m)) ≡ b
          → Fate {C = C} {V = V} top (f ∷ m) (forget_oldest top f m b)
      go true e = (refl, record { below = h.1; limited = omega (arith, l) }, λ test. omega arith)
      go false e = (refl, record { below = h; limited = ground (arith, e) }, λ test. omega arith)

  pub bind_reply-Fate :
      (s : Server C) (cb : C)
      → s.top_id + 1 < 2 ^ 31
      → IsKept C s
      → Fate {C = C} {V = V}
          ((s.top_id + 1) % 2 ^ 32)
          (s.pending_calls ++ record { id = to_int s.top_id; callback = cb } ∷ [])
          (bind_reply s cb)
  unfolding bind_reply
  bind_reply-Fate s cb h k =
      let e : Entry C = record { id = to_int s.top_id; callback = cb } in
      let top = (s.top_id + 1) % 2 ^ 32 in
      subst
        (λ (m : List (Entry C)).
          Fate {C = C} {V = V} top (s.pending_calls ++ e ∷ []) (check_limit top m))
        (sym (put-last s.top_id e s.pending_calls refl k.below))
        (check_limit-Fate top (s.pending_calls ++ e ∷ [])
          (All-append (Below top) s.pending_calls (e ∷ [])
            (raise s.top_id s.pending_calls h k.below) (new-Below s.top_id cb h, tt))
          (omega (arith, k.limited, length-append s.pending_calls (e ∷ []))))

  -- Whatever the IDs are, the limit is kept.
  check_limit-limited :
      (top : ℕ) (m : List (Entry C))
      → length m ≤ max_pending_calls + 1
      → length (check_limit {V = V} top m).0.pending_calls ≤ max_pending_calls
  check_limit-limited top [] l = omega arith
  check_limit-limited top (f ∷ m) l = go (ltb max_pending_calls (length (f ∷ m))) refl
    where
      go :
          (b : Bool)
          → ltb max_pending_calls (length (f ∷ m)) ≡ b
          → length (forget_oldest {V = V} top f m b).0.pending_calls ≤ max_pending_calls
      go true e = omega (arith, l)
      go false e = ground (arith, e)

  pub bind_reply-limited :
      (s : Server C) (cb : C)
      → length s.pending_calls ≤ max_pending_calls
      → length (bind_reply {V = V} s cb).0.pending_calls ≤ max_pending_calls
  unfolding bind_reply
  bind_reply-limited s cb h =
      let e : Entry C = record { id = to_int s.top_id; callback = cb } in
      check_limit-limited ((s.top_id + 1) % 2 ^ 32) (put e s.pending_calls)
        (omega (arith, h, length-put e s.pending_calls))

-- ===== src/Rpc/Replies.antt =====
-- One call to the client: what `bindReply` leaves, and the reply to it.
use nixd.Prelude.{
  ℕ, ◌+◌, ◌-◌, ◌≤◌, ◌<◌, ◌^◌, ◌%◌, to_int, Bool, true, false, some, List, [], ◌∷◌, ◌++◌, length,
  ltb, ℤ, pos, int_lt, int_eq, to_int-small, ◌≡◌, refl, sym, ap, ◌∙◌, subst, arith, All,
  length-append,
}
use nixd.Rpc.Fate.{IsKept}
use nixd.Rpc.Pending.{
  Server, Entry, Event, handled, result, no_reply, max_pending_calls, put, find_call, erase,
  check_limit, forget_oldest, bind_reply, on_reply, cast_int,
}
use nixd.Rpc.Table.{Below, put-last}

module _ {C : Type 0} where
  find_call-last :
      (top : ℕ) (e : Entry C) (m : List (Entry C))
      → e.id ≡ pos top
      → top < 2 ^ 31
      → All (Below top) m
      → find_call (pos top) (m ++ e ∷ []) ≡ some e
  unfolding find_call
  find_call-last top e [] k small h =
      let this : int_eq e.id (pos top) ≡ true =
        subst (λ (z : ℤ). int_eq z (pos top) ≡ true) (sym k) (ground arith) in
      rw this refl
  find_call-last top e (f ∷ m) k small h =
      let other : int_eq f.id (pos top) ≡ false = ground (arith, h.0, small) in
      rw (other, find_call-last top e m k small h.1) refl

  erase-last :
      (top : ℕ) (e : Entry C) (m : List (Entry C))
      → e.id ≡ pos top
      → top < 2 ^ 31
      → All (Below top) m
      → erase (pos top) (m ++ e ∷ []) ≡ m
  unfolding erase
  erase-last top e [] k small h =
      let this : int_eq e.id (pos top) ≡ true =
        subst (λ (z : ℤ). int_eq z (pos top) ≡ true) (sym k) (ground arith) in
      rw this refl
  erase-last top e (f ∷ m) k small h =
      let other : int_eq f.id (pos top) ≡ false = ground (arith, h.0, small) in
      rw (other, erase-last top e m k small h.1) refl

module _ {C : Type 0} (V : Type 0) where
  check_limit-within :
      (top : ℕ) (m : List (Entry C))
      → length m ≤ max_pending_calls
      → check_limit {C = C} {V = V} top m ≡ (record { pending_calls = m; top_id = top }, [])
  check_limit-within top [] h = refl
  check_limit-within top (f ∷ m) h =
      let within : ltb max_pending_calls (length (f ∷ m)) ≡ false = ground (arith, h) in
      ap (λ (b : Bool). forget_oldest {C = C} {V = V} top f m b) within

module _ {C V : Type 0} where
  -- Below the limit `bindReply` invokes nothing, and the reply with the ID that it gave goes to the
  -- new callback, with the reply's value, and takes it from the pending calls.
  pub on_reply-bind_reply :
      (s : Server C) (cb : C) (v : V)
      → IsKept C s
      → length s.pending_calls < max_pending_calls
      → s.top_id < 2 ^ 31
      → let bound : Server C × List (Event C V) = bind_reply s cb in
        (bound.1 ≡ [])
        × (on_reply bound.0 (some (pos s.top_id)) v
            ≡ handled
                (record { pending_calls = s.pending_calls; top_id = s.top_id + 1 })
                (record {
                  called = record { id = pos s.top_id; callback = cb };
                  response = result v;
                }
                  ∷ []))
  unfolding bind_reply on_reply cast_int
  on_reply-bind_reply s cb v k less small =
      let e : Entry C = record { id = pos s.top_id; callback = cb } in
      let within : length (s.pending_calls ++ e ∷ []) ≤ max_pending_calls =
        omega (arith, less, length-append s.pending_calls (e ∷ [])) in
      let given : to_int s.top_id ≡ pos s.top_id = to_int-small s.top_id small in
      let next : (s.top_id + 1) % 2 ^ 32 ≡ s.top_id + 1 = omega (arith, small) in
      let left : bind_reply s cb
          ≡ (record { pending_calls = s.pending_calls ++ e ∷ []; top_id = s.top_id + 1 }, []) =
        ap
          (λ (z : ℤ).
            check_limit ((s.top_id + 1) % 2 ^ 32)
              (put (record { id = z; callback = cb }) s.pending_calls))
          given
        ∙ ap (λ (t : ℕ). check_limit t (put e s.pending_calls)) next
        ∙ ap (λ (m : List (Entry C)). check_limit (s.top_id + 1) m)
            (put-last s.top_id e s.pending_calls (sym given) k.below)
        ∙ check_limit-within V (s.top_id + 1) (s.pending_calls ++ e ∷ []) within in
      let fits : int_lt (pos (2 ^ 31 - 1)) (pos s.top_id) ≡ false = ground (arith, small) in
      (
        ap (λ (r : Server C × List (Event C V)). r.1) left,
        ap (λ (r : Server C × List (Event C V)). on_reply r.0 (some (pos s.top_id)) v) left
            ∙ rw
                (
                  fits,
                  to_int-small s.top_id small,
                  find_call-last s.top_id e s.pending_calls refl small k.below,
                  erase-last s.top_id e s.pending_calls refl small k.below,
                )
                refl,
      )

  -- At the limit `bindReply` answers the oldest callback with an error that names its ID, and keeps
  -- the others and the new one.
  pub bind_reply-oldest :
      (s : Server C) (f : Entry C) (m : List (Entry C)) (cb : C)
      → IsKept C s
      → s.pending_calls ≡ f ∷ m
      → length (f ∷ m) ≡ max_pending_calls
      → bind_reply {V = V} s cb ≡ (
        record {
          pending_calls = m ++ record { id = to_int s.top_id; callback = cb } ∷ [];
          top_id = (s.top_id + 1) % 2 ^ 32;
        },
        record { called = f; response = no_reply f.id } ∷ [],
      )
  unfolding bind_reply
  bind_reply-oldest s f m cb k e full =
      let new : Entry C = record { id = to_int s.top_id; callback = cb } in
      let over : ltb max_pending_calls (length (f ∷ m ++ new ∷ [])) ≡ true =
        ground (arith, full, length-append m (new ∷ [])) in
      ap (λ (t : List (Entry C)). check_limit ((s.top_id + 1) % 2 ^ 32) t)
        (put-last s.top_id new s.pending_calls refl k.below
          ∙ ap (λ (t : List (Entry C)). t ++ new ∷ []) e)
      ∙ ap (λ (b : Bool). forget_oldest ((s.top_id + 1) % 2 ^ 32) f (m ++ new ∷ []) b) over

-- ===== src/Rpc/Once.antt =====
-- The fate of the callbacks over a server's life.
use nixd.Prelude.{
  ℕ, ◌+◌, ◌-◌, ◌%◌, ◌≤◌, ◌<◌, ◌^◌, Bool, true, false, Option, none, some, List, [], ◌∷◌, length, ℤ,
  pos, int_lt, int_eq, to_int, to_int-small, if◌then◌else◌, ◌≡◌, refl, sym, ap, ◌∙◌, inl, inr,
  arith, Bool-cases, subst,
}
use nixd.Rpc.Pending.{
  Server, Entry, Event, thrown, max_pending_calls, find_call, bind_reply, reply_to, on_reply,
  cast_int, id_too_large,
}
use nixd.Rpc.Run.{Step, call, reply, History, beginning, after_reply, step, run, calls_of}
use nixd.Rpc.Fate.{IsKept, called_of, called_of-append, bind_reply-Fate, bind_reply-limited}
use nixd.Rpc.Table.{tally, Below, tally-append, tally-erase, All-erase, length-erase}

module _ {C : Type 0} where
  abbrev pub is_id : ℤ → Entry C → Bool
  is_id k e = int_eq e.id k

  -- The IDs, from the last one given down to 1.
  abbrev pub IsNumbered : ℕ → List (Entry C) → Type 0
  IsNumbered top [] = top ≡ 1
  IsNumbered top (e ∷ es) = (n : ℕ) × (top ≡ n + 1) × (e.id ≡ pos n) × IsNumbered n es

  later-none :
      (top : ℕ) (k : ℤ) (es : List (Entry C))
      → IsNumbered top es
      → int_lt k (pos top) ≡ false
      → tally (is_id k) es ≡ 0
  later-none top k [] n h = refl
  later-none top k (e ∷ es) n h =
      let (m, t, i, more) = n in
      let not_this : is_id k e ≡ false =
        subst (λ (z : ℤ). int_eq z k ≡ false) (sym i) (ground (arith, t, h)) in
      let older : int_lt k (pos m) ≡ false = ground (arith, t, h) in
      rw (not_this, later-none m k es more older) refl

  numbered-once :
      (top : ℕ) (k : ℤ) (es : List (Entry C)) → IsNumbered top es → tally (is_id k) es ≤ 1
  numbered-once top k [] n = omega arith
  numbered-once top k (e ∷ es) n = elim (Bool-cases (is_id k e)) [
    | inr other ↦ rw other (omega (arith, numbered-once n.0 k es n.3))
    | inl same_id ↦
        let same : int_lt k (pos n.0) ≡ false =
          ground (arith, subst (λ (z : ℤ). int_eq z k ≡ true) n.2 same_id) in
        rw (same_id, later-none n.0 k es n.3 same) (omega arith)
  ]

module _ {C V : Type 0} where
  -- What holds all through a server's life.
  pub record Lives (h : History C V) : Type 0 where
    pub kept : IsKept C h.server
    pub numbered : IsNumbered h.server.top_id h.bound
    pub conserves :
        (test : Entry C → Bool)
        → tally test h.server.pending_calls + tally test (called_of h.invoked) ≡ tally test h.bound

  call-Lives :
      (h : History C V) (cb : C)
      → h.server.top_id + 1 < 2 ^ 31
      → Lives h
      → Lives (step h (call cb)) × ((step h (call cb)).server.top_id ≡ h.server.top_id + 1)
  call-Lives h cb small l =
      let (top, kept, tallied) = bind_reply-Fate V h.server cb small l.kept in
      let next : (h.server.top_id + 1) % 2 ^ 32 ≡ h.server.top_id + 1 = omega (arith, small) in
      let given : to_int h.server.top_id ≡ pos h.server.top_id =
        to_int-small h.server.top_id (omega (arith, small)) in
      (
        record {
          kept = kept;
          numbered = (h.server.top_id, top ∙ next, given, l.numbered);
          conserves = λ test.
              let e : Entry C = record { id = to_int h.server.top_id; callback = cb } in
              let r : Server C × List (Event C V) = bind_reply h.server cb in
              omega (
                arith,
                tallied test,
                l.conserves test,
                ap (tally test) (called_of-append r.1 h.invoked),
                tally-append test (called_of r.1) (called_of h.invoked),
                tally-append test h.server.pending_calls (e ∷ []),
              );
        },
        top ∙ next,
      )

  reply-Lives :
      (h : History C V) (i : ℤ) (v : V) (o : Option (Entry C))
      → find_call i h.server.pending_calls ≡ o
      → Lives h
      → Lives (after_reply h (reply_to h.server i v o))
  reply-Lives h i v none e l = record {
    kept = l.kept;
    numbered = l.numbered;
    conserves = l.conserves;
  }
  reply-Lives h i v (some c) e l = record {
    kept = record {
      below = All-erase (Below h.server.top_id) i h.server.pending_calls l.kept.below;
      limited = omega (arith, l.kept.limited, length-erase i h.server.pending_calls);
    };
    numbered = l.numbered;
    conserves =
        λ test. omega (arith, l.conserves test, tally-erase test i c h.server.pending_calls e);
  }

  on_reply-Lives :
      (h : History C V) (id : Option ℤ) (v : V)
      → Lives h
      → Lives (after_reply h (on_reply h.server id v))
  unfolding on_reply
  on_reply-Lives h none v l = l
  on_reply-Lives h (some i) v l = go (int_lt (pos (2 ^ 31 - 1)) i)
    where
      go :
          (b : Bool)
          → Lives (
              after_reply h (
                if b
                then thrown id_too_large
                else reply_to h.server
                    (cast_int i)
                    v
                    (find_call (cast_int i) h.server.pending_calls)))
      go true = l
      go false = reply-Lives h (cast_int i) v (find_call (cast_int i) h.server.pending_calls) refl l

  reply_to-top_id :
      (h : History C V) (i : ℤ) (v : V) (o : Option (Entry C))
      → (after_reply h (reply_to h.server i v o)).server.top_id ≡ h.server.top_id
  reply_to-top_id h i v none = refl
  reply_to-top_id h i v (some e) = refl

  on_reply-top_id :
      (h : History C V) (id : Option ℤ) (v : V)
      → (after_reply h (on_reply h.server id v)).server.top_id ≡ h.server.top_id
  unfolding on_reply
  on_reply-top_id h none v = refl
  on_reply-top_id h (some i) v = go (int_lt (pos (2 ^ 31 - 1)) i)
    where
      go :
          (b : Bool)
          → (after_reply h (
              if b
              then thrown id_too_large
              else reply_to h.server
                  (cast_int i)
                  v
                  (find_call (cast_int i) h.server.pending_calls))).server.top_id
            ≡ h.server.top_id
      go true = refl
      go false = reply_to-top_id h (cast_int i) v (find_call (cast_int i) h.server.pending_calls)

  run-Lives :
      (h : History C V) (steps : List (Step C V))
      → h.server.top_id + calls_of steps < 2 ^ 31
      → Lives h
      → Lives (run h steps)
  unfolding run
  run-Lives h [] small l = l
  run-Lives h (call cb ∷ steps) small l =
      let (lives, top) = call-Lives h cb (omega (arith, small)) l in
      run-Lives (step h (call cb)) steps (omega (arith, small, top)) lives
  run-Lives h (reply id v ∷ steps) small l =
      run-Lives (step h (reply id v)) steps (omega (arith, small, on_reply-top_id h id v))
        (on_reply-Lives h id v l)

  beginning-Lives : Lives (beginning {C = C} {V = V})
  beginning-Lives = record {
    kept = record { below = tt; limited = omega arith };
    numbered = refl;
    conserves = λ test. refl;
  }

  -- After fewer than 2^31 - 1 calls and any replies the callbacks that the calls have bound are the
  -- pending ones together with those that were invoked, whatever is counted of them.
  pub run-conserves :
      (steps : List (Step C V)) (test : Entry C → Bool)
      → calls_of steps < 2 ^ 31 - 1
      → let h : History C V = run beginning steps in
        tally test h.server.pending_calls + tally test (called_of h.invoked) ≡ tally test h.bound
  run-conserves steps test small =
      (run-Lives beginning steps (omega (arith, small)) beginning-Lives).conserves test

  -- After fewer than 2^31 - 1 calls and any replies no two invocations are for the same ID, and none
  -- is for one that is pending.
  pub run-once :
      (steps : List (Step C V)) (k : ℤ)
      → calls_of steps < 2 ^ 31 - 1
      → let h : History C V = run beginning steps in
        tally (is_id k) h.server.pending_calls + tally (is_id k) (called_of h.invoked) ≤ 1
  run-once steps k small =
      let l = run-Lives (beginning {C = C} {V = V}) steps (omega (arith, small)) beginning-Lives in
      omega (
        arith,
        l.conserves (is_id k),
        numbered-once (run beginning steps).server.top_id k (run beginning steps).bound l.numbered,
      )

  IsLimited : History C V → Type 0
  IsLimited h = length h.server.pending_calls ≤ max_pending_calls

  reply_to-IsLimited :
      (h : History C V) (i : ℤ) (v : V) (o : Option (Entry C))
      → IsLimited h
      → IsLimited (after_reply h (reply_to h.server i v o))
  unfolding IsLimited
  reply_to-IsLimited h i v none k = k
  reply_to-IsLimited h i v (some e) k = omega (arith, k, length-erase i h.server.pending_calls)

  step-IsLimited : (h : History C V) (s : Step C V) → IsLimited h → IsLimited (step h s)
  unfolding on_reply IsLimited
  step-IsLimited h (call cb) k = bind_reply-limited V h.server cb k
  step-IsLimited h (reply none v) k = k
  step-IsLimited h (reply (some i) v) k = go (int_lt (pos (2 ^ 31 - 1)) i)
    where
      go :
          (b : Bool)
          → IsLimited (
              after_reply h (
                if b
                then thrown id_too_large
                else reply_to h.server
                    (cast_int i)
                    v
                    (find_call (cast_int i) h.server.pending_calls)))
      go true = k
      go false =
          reply_to-IsLimited h (cast_int i) v (find_call (cast_int i) h.server.pending_calls) k

  run-IsLimited :
      (h : History C V) (steps : List (Step C V)) → IsLimited h → IsLimited (run h steps)
  unfolding run
  run-IsLimited h [] k = k
  run-IsLimited h (s ∷ steps) k = run-IsLimited (step h s) steps (step-IsLimited h s k)

  -- The pending calls never exceed the limit.
  pub run-limited :
      (steps : List (Step C V))
      → length (run beginning steps).server.pending_calls ≤ max_pending_calls
  unfolding IsLimited
  run-limited steps = run-IsLimited beginning steps (omega arith)

-- ===== src/Verbs/Update/Retries.antt =====
-- How the retry loops of `Update` and `Take` end.
use go_memcache.Base.{ℕ, zero, suc, ◌<◌, ◌≡◌, refl, arith, Option, none, some, Bytes}
use go_memcache.Errors.{Err, conflict, Result, ok, err}
use go_memcache.Types.{Seconds}
use go_memcache.Options.{Duration, resolve_ttl}
use go_memcache.Client.{Client}
use go_memcache.Client.State.{Network, State, Action}
use go_memcache.Verbs.Update.{update_attempts, attempt, retry, update, take_attempt, take}
use go_memcache.Verbs.Update.Attempts.{Attempt, attempt_lem}
use go_memcache.Verbs.Update.Takes.{TakeAttempt, take_attempt_lem}

-- A description of attempts: from a state, the results and last states that it allows.
abbrev pub Description : Type 0 → Type 0 → Type 1
Description W A = State W → Result (Option A) × State W → Type 0

-- From one state to another by a number of attempts that all lost.
pub data Loses {W A : Type 0} (Try : Description W A) : ℕ → State W → State W → Type 0 where
  start : {s : State W} → Loses Try 0 s s
  lost :
      {n : ℕ} {s s1 s2 : State W} → Try s (ok none, s1) → Loses Try n s1 s2 → Loses Try (suc n) s s2

-- The ends of a loop of `n` attempts that begins at `s`, with its result and its last state.
pub data Ends {W A : Type 0} (Try : Description W A) (n : ℕ) (s : State W)
    : Result A × State W → Type 0 where
  exhausted : {s1 : State W} → Loses Try n s s1 → Ends Try n s (err conflict, s1)
  won :
      {k : ℕ} {s1 s2 : State W} {a : A}
      → k < n
      → Loses Try k s s1
      → Try s1 (ok (some a), s2)
      → Ends Try n s (ok a, s2)
  aborted :
      {k : ℕ} {s1 s2 : State W} {e : Err}
      → k < n
      → Loses Try k s s1
      → Try s1 (err e, s2)
      → Ends Try n s (err e, s2)

module _ {W A : Type 0} (Try : Description W A) where
  Ends-lost :
      (n : ℕ) (s s1 : State W) (r : Result A × State W)
      → Try s (ok none, s1)
      → Ends Try n s1 r
      → Ends Try (suc n) s r
  Ends-lost n s s1 r h (exhausted l) = exhausted (lost h l)
  Ends-lost n s s1 r h (won b l e) = won (omega (arith, b)) (lost h l) e
  Ends-lost n s s1 r h (aborted b l e) = aborted (omega (arith, b)) (lost h l) e

  -- The attempts of a loop that has the description.
  module _ (body : Action W (Option A)) (described : (s : State W) → Try s (body s)) where
    step-Ends :
        (n : ℕ) (s : State W)
        → ((s1 : State W) → Ends Try n s1 (retry n body s1))
        → (r : Result (Option A) × State W) → body s ≡ r
        → Try s r
        → Ends Try (suc n) s (retry (suc n) body s)
    unfolding retry
    step-Ends n s ih (ok none, s1) h d = rw h (Ends-lost n s s1 (retry n body s1) d (ih s1))
    step-Ends n s ih (ok (some a), s1) h d = rw h (won (omega arith) start d)
    step-Ends n s ih (err e, s1) h d = rw h (aborted (omega arith) start d)

    retry-Ends : (n : ℕ) (s : State W) → Ends Try n s (retry n body s)
    unfolding retry
    retry-Ends zero s = exhausted start
    retry-Ends (suc n) s = step-Ends n s (retry-Ends n) (body s) refl (described s)

-- With a TTL that is accepted, `update` ends in one of three ways. One of at most eight attempts
-- stores, after attempts that were all refused, and what it stored is returned: the transform made
-- it of the value of a fresh hit, or of nothing, it is not empty, it was sent on the condition of
-- the read, and the server answered that it is applied. Or one attempt fails, and its error is
-- returned: that of the read, of the transform, of the exchange, of an empty value or of an answer
-- that is not understood. Or the server refuses all eight, and the error is `ErrConflict`.
pub update-Ends :
    {W A : Type 0} (net : Network W) (c : Client) (key : Bytes) (ttl : Duration)
    (fn : Option Bytes → Result (Bytes × A)) (s : State W) {expiration : Seconds}
    → resolve_ttl (net.now s.world) ttl ≡ ok expiration
    → Ends (λ s1 r. Attempt net c key expiration fn s1 r) 8 s (update net c key ttl fn s)
unfolding update
update-Ends net c key ttl fn s {expiration} h = rw h (
    retry-Ends (λ s1 r. Attempt net c key expiration fn s1 r) (attempt net c key expiration fn)
      (attempt_lem net c key expiration fn) update_attempts s)

-- `Take` ends in one of three ways. One of at most eight attempts is done, after attempts whose
-- deletes were all refused: its read found no value, and nothing is returned, or it found the value
-- that is returned, and the server answered that the delete on the CAS of that read is applied. Or
-- one attempt fails, and its error is returned: that of the read, of the exchange, of a value
-- without a CAS or of an answer that is not understood. Or the server refuses all eight, and the
-- error is `ErrConflict`.
pub take-Ends :
    {W : Type 0} (net : Network W) (c : Client) (key : Bytes) (s : State W)
    → Ends (λ s1 r. TakeAttempt net c key s1 r) 8 s (take net c key s)
unfolding take
take-Ends net c key s =
    retry-Ends (λ s1 r. TakeAttempt net c key s1 r) (take_attempt net c key)
      (take_attempt_lem net c key) update_attempts s

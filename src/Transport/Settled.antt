-- ===== src/Transport/Settled.antt =====
-- Every request of transport.go is settled once.
pub mod Final
use go_memcache.Base.{
  ℕ, ◌≤◌, ◌<◌, ◌≡◌, ◌≢◌, refl, ◌∙◌, arith, true, [], Option, none, some, any, is_some, ◌||◌,
  Bool-cases, inl, inr, Bool, false, List, ◌∷◌, ◌++◌, Bytes,
}
use mathlib.Core.Path.{subst}
use go_memcache.Errors.{Err}
use go_memcache.Types.{RawResponse}
use go_memcache.Options.{Config}
use go_memcache.Transport.{
  RequestState, queued, writing, done, Outcome, Request, new_request, Pool, complete_request,
  is_done,
}
use go_memcache.Transport.Exchange.{abandon_request, return_request}
use go_memcache.Transport.Writer.{claim_request}
use go_memcache.Transport.Flush.{put_on_wire, unclaim}
use go_memcache.Transport.Reader.{append_response}
use go_memcache.Transport.System.{Step, Reach, start, later}
use go_memcache.Transport.Moves.{Move, Moves, stay, go}
use go_memcache.Transport.Moves.Steps.{Change, moves, made, Step-Change}

-- `done` is closed at most once, and only when the request is done; a caller gets an outcome only
-- then, and one without an error only with a response that its stop rule has accepted.
pub record IsSettled (r : Request) : Type 0 where
  pub once : r.closings ≤ 1
  pub unsettled : r.state ≢ done → (r.closings ≡ 0) × (r.returned ≡ none)
  pub delivered : r.state ≡ done → r.returned ≡ none → r.closings ≡ 1
  pub answered : r.closings ≡ 1 → r.err ≡ none → any r.stop r.responses ≡ true
  pub honest : (o : Outcome) → r.returned ≡ some o → o.err ≡ none → any r.stop o.responses ≡ true

any-append_left {ℓ} :
    {A : Type ℓ} (t : A → Bool) (xs : List A) (x : A)
    → any t xs ≡ true
    → any t (xs ++ x ∷ []) ≡ true
any-append_left t [] x h = cc
any-append_left t (y ∷ xs) x h = ground (arith, any-append_left t xs x)

is_done→done : (s : RequestState) → is_done s ≡ true → s ≡ done
unfolding is_done
is_done→done s h = ground arith

live→not_done : (s : RequestState) → is_done s ≡ false → s ≢ done
unfolding is_done
live→not_done s h k = ground arith

completed-IsSettled :
    (r : Request) (rs : List RawResponse) (n : ℕ) (e : Option Err)
    → (e ≡ none → any r.stop rs ≡ true)
    → IsSettled r
    → IsSettled (complete_request rs n e r)
unfolding complete_request
completed-IsSettled r rs n e h w = elim (Bool-cases (is_done r.state)) [
  | inl over ↦ rw over w
  | inr live ↦
      let (unclosed, unreturned) = w.unsettled (live→not_done r.state live) in
      rw live (record {
        once = omega (arith, unclosed);
        unsettled = λ k. absurd (k refl);
        delivered = λ k l. omega (arith, unclosed);
        answered = λ k l. h l;
        honest = λ o k. cc;
      })
]

Move-IsSettled : {r s : Request} → Move r s → IsSettled r → IsSettled s
unfolding claim_request put_on_wire unclaim append_response abandon_request return_request
Move-IsSettled {r} (Move.completed rs n e h) w = completed-IsSettled r rs n e h w
Move-IsSettled {r} (Move.claimed c) w = record {
  once = w.once;
  unsettled = λ k. w.unsettled (λ l. k (ground arith));
  delivered = λ k. w.delivered (ground arith);
  answered = w.answered;
  honest = w.honest;
}
Move-IsSettled Move.marked w = record {
  once = w.once;
  unsettled = w.unsettled;
  delivered = w.delivered;
  answered = w.answered;
  honest = w.honest;
}
Move-IsSettled {r} (Move.unclaimed h) w =
    let live = w.unsettled (λ k. cc) in
    record {
      once = w.once;
      unsettled = λ k. live;
      delivered = λ k. cc;
      answered = w.answered;
      honest = w.honest;
    }
Move-IsSettled {r} (Move.answered x) w = record {
  once = w.once;
  unsettled = w.unsettled;
  delivered = w.delivered;
  answered = λ h k. any-append_left r.stop r.responses x (w.answered h k);
  honest = w.honest;
}
Move-IsSettled {r} (Move.abandoned o h fails) w =
    let live = w.unsettled h in
    record {
      once = w.once;
      unsettled = λ k. absurd (k refl);
      delivered = λ k l. cc;
      answered = w.answered;
      honest = λ o' k l. absurd (fails (cc));
    }
Move-IsSettled {r} (Move.returned h k) w = record {
  once = w.once;
  unsettled = λ l. absurd (l h);
  delivered = λ l m. cc;
  answered = w.answered;
  honest = λ o l m.
      let same : record { responses = r.responses; written = r.written; err = r.err } ≡ o = cc in
      subst (λ o'. o'.err ≡ none → any r.stop o'.responses ≡ true) same
        (λ e. w.answered (w.delivered h k) e) m;
}

done-of_not_not : (s : RequestState) → ¬ (s ≢ done) → s ≡ done
done-of_not_not queued h = absurd (h (λ e. cc))
done-of_not_not writing h = absurd (h (λ e. cc))
done-of_not_not done h = refl

pub closed-done : {r : Request} → IsSettled r → 0 < r.closings → r.state ≡ done
closed-done {r} w h = done-of_not_not r.state (λ k. omega (arith, (w.unsettled k).0))

Moves-IsSettled : {r s : Request} → Moves r s → IsSettled r → IsSettled s
Moves-IsSettled stay w = w
Moves-IsSettled (go ms m) w = Move-IsSettled m (Moves-IsSettled ms w)

new_request-IsSettled :
    (payload : Bytes) (stop : RawResponse → Bool) (deadline : Option ℕ)
    → IsSettled (new_request payload stop deadline)
new_request-IsSettled payload stop deadline = record {
  once = omega arith;
  unsettled = λ k. (refl, refl);
  delivered = λ k. cc;
  answered = λ k. absurd (omega arith);
  honest = λ o k. cc;
}

Change-IsSettled :
    {p q : Pool} {j : ℕ} → Change p q j → IsSettled (p.requests j) → IsSettled (q.requests j)
Change-IsSettled (moves ms) w = Moves-IsSettled ms w
Change-IsSettled (made last payload stop deadline e) w =
    rw e (new_request-IsSettled payload stop deadline)

pub Reach-IsSettled : {cfg : Config} {p : Pool} → Reach cfg p → (j : ℕ) → IsSettled (p.requests j)
Reach-IsSettled start j = new_request-IsSettled [] (λ r. false) none
Reach-IsSettled (later {p = p} r runs st) j =
    let before = Reach-IsSettled r in
    Change-IsSettled (Step-Change (λ i h. closed-done (before i) h) st j) (before j)

-- A request is in one of three phases: nobody has settled it; it was settled, and its channel closed
-- once; or its caller has its outcome. An outcome without an error has a response that the stop rule
-- accepts.
pub data Phase (r : Request) : Type 0 where
  waits : is_done r.state ≡ false → r.closings ≡ 0 → r.returned ≡ none → Phase r
  settled :
      r.state ≡ done
      → r.closings ≡ 1
      → r.returned ≡ none
      → (is_some r.err || any r.stop r.responses) ≡ true
      → Phase r
  returned :
      (o : Outcome)
      → r.state ≡ done
      → r.closings ≤ 1
      → r.returned ≡ some o
      → (is_some o.err || any r.stop o.responses) ≡ true
      → Phase r

-- An error, or a fact that holds where there is none.
error_or : (e : Option Err) (b : Bool) → (e ≡ none → b ≡ true) → (is_some e || b) ≡ true
error_or none b h = h refl
error_or (some e) b h = refl

done-Phase :
    (r : Request) (o : Option Outcome) → IsSettled r → r.state ≡ done → r.returned ≡ o → Phase r
done-Phase r none w h k =
    let closed_once = w.delivered h k in
    settled h closed_once k (error_or r.err _ (w.answered closed_once))
done-Phase r (some o) w h k = returned o h w.once k (error_or o.err _ (w.honest o k))

-- In every state that the pool of a new client comes to, each request is in one of the three phases:
-- its channel `done` is never closed a second time, it is done once it is closed or its caller has
-- left, and a caller that gets no error has responses one of which its stop rule has accepted.
pub Reach-Phase : {cfg : Config} {p : Pool} → Reach cfg p → (j : ℕ) → Phase (p.requests j)
Reach-Phase {p = p} r j =
    let s = p.requests j in
    let w = Reach-IsSettled r j in
    elim (Bool-cases (is_done s.state)) [
      | inl over ↦ done-Phase s s.returned w (is_done→done s.state over) refl
      | inr live ↦
          let (open_channel, none_yet) = w.unsettled (live→not_done s.state live) in
          waits live open_channel none_yet
    ]

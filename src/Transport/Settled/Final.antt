-- ===== src/Transport/Settled/Final.antt =====
-- What a request of transport.go was settled with is final.
use go_memcache.Base.{none, ℕ, ◌<◌, ◌≡◌, ◌⊎◌, inl, inr, refl, ◌∙◌, arith, true}
use go_memcache.Options.{Config}
use go_memcache.Transport.{done, Request, Pool, complete_request, is_done}
use go_memcache.Transport.Exchange.{abandon_request, return_request}
use go_memcache.Transport.Writer.{claim_request}
use go_memcache.Transport.Flush.{put_on_wire, unclaim}
use go_memcache.Transport.Reader.{append_response}
use go_memcache.Transport.System.{Step, Reach}
use go_memcache.Transport.Moves.{Move, Moves, stay, go}
use go_memcache.Transport.Moves.Steps.{moves, made, Step-Change}
use go_memcache.Transport.Settled.{closed-done, Reach-IsSettled}

-- What a request that is done keeps.
pub record IsFinal (r s : Request) : Type 0 where
  pub state : s.state ≡ done
  pub closings : s.closings ≡ r.closings
  pub written : s.written ≡ r.written
  pub err : s.err ≡ r.err
  pub returned : (r.returned ≡ none) ⊎ (s.returned ≡ r.returned)

IsFinal-refl : (r : Request) → r.state ≡ done → IsFinal r r
IsFinal-refl r h = record {
  state = h;
  closings = refl;
  written = refl;
  err = refl;
  returned = inr refl;
}

IsFinal-trans : {r s t : Request} → IsFinal r s → IsFinal s t → IsFinal r t
IsFinal-trans {r} {s} {t} f g = record {
  state = g.state;
  closings = g.closings ∙ f.closings;
  written = g.written ∙ f.written;
  err = g.err ∙ f.err;
  returned = ground (arith, f.returned, g.returned);
}

Move-IsFinal : {r s : Request} → Move r s → r.state ≡ done → IsFinal r s
unfolding complete_request claim_request put_on_wire unclaim append_response abandon_request
    return_request is_done
Move-IsFinal {r} (Move.completed rs n e h) k =
    let over : is_done r.state ≡ true = ground arith in rw over (IsFinal-refl r k)
Move-IsFinal {r} (Move.claimed c) k = record {
  state = ground arith;
  closings = refl;
  written = refl;
  err = refl;
  returned = inr refl;
}
Move-IsFinal {r} Move.marked k = record {
  state = k;
  closings = refl;
  written = refl;
  err = refl;
  returned = inr refl;
}
Move-IsFinal {r} (Move.unclaimed h) k = absurd (cc)
Move-IsFinal {r} (Move.answered x) k = record {
  state = k;
  closings = refl;
  written = refl;
  err = refl;
  returned = inr refl;
}
Move-IsFinal {r} (Move.abandoned o h fails) k = absurd (h k)
Move-IsFinal {r} (Move.returned h l) k = record {
  state = k;
  closings = refl;
  written = refl;
  err = refl;
  returned = inl l;
}

Moves-IsFinal : {r s : Request} → Moves r s → r.state ≡ done → IsFinal r s
Moves-IsFinal {r} stay k = IsFinal-refl r k
Moves-IsFinal (go ms m) k =
    let before = Moves-IsFinal ms k in IsFinal-trans before (Move-IsFinal m before.state)

-- Once a request is done, no step of the pool changes how often its channel was closed, the count of
-- written bytes and the error that it was settled with, or the outcome that its caller got.
pub Step-IsFinal :
    {cfg : Config} {p q : Pool} {j : ℕ}
    → Reach cfg p
    → Step cfg p q
    → j < p.next_request
    → (p.requests j).state ≡ done
    → IsFinal (p.requests j) (q.requests j)
Step-IsFinal {j = j} r st old h =
    elim (Step-Change (λ i k. closed-done (Reach-IsSettled r i) k) st j) [
      | moves ms ↦ Moves-IsFinal ms h
      | made new payload stop deadline e ↦ absurd (omega (arith, new))
    ]

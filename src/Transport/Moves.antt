-- ===== src/Transport/Moves.antt =====
-- What the operations of transport.go can do to one request.
pub mod Operations
pub mod Claiming
pub mod Flushing
pub mod Steps
use mathlib.Core.List.{foldl}
use go_memcache.Base.{
  ℕ, ◌≡◌, ◌≢◌, if-elim, refl, Bool, true, false, if◌then◌else◌, List, [], ◌∷◌, Option, none, any,
}
use go_memcache.Errors.{Err}
use go_memcache.Types.{RawResponse}
use go_memcache.Transport.{
  writing, done, Outcome, Request, Pool, modify_request, update-elim, complete_request, complete,
}
use go_memcache.Transport.Exchange.{abandon_request, return_request}
use go_memcache.Transport.Writer.{claim_request}
use go_memcache.Transport.Flush.{put_on_wire, unclaim}
use go_memcache.Transport.Reader.{append_response}

-- One change of a request: who settles it without an error has seen a response that ends it.
pub data Move (r : Request) : Request → Type 0 where
  completed :
      (responses : List RawResponse) (written : ℕ) (e : Option Err)
      → (e ≡ none → any r.stop responses ≡ true)
      → Move r (complete_request responses written e r)
  claimed : (c : ℕ) → Move r (claim_request c r)
  marked : Move r (put_on_wire r)
  unclaimed : r.state ≡ writing → Move r (unclaim r)
  answered : (x : RawResponse) → Move r (append_response x r)
  abandoned : (o : Outcome) → r.state ≢ done → o.err ≢ none → Move r (abandon_request o r)
  returned : r.state ≡ done → r.returned ≡ none → Move r (return_request r)

pub data Moves (r : Request) : Request → Type 0 where
  stay : Moves r r
  go : {s t : Request} → Moves r s → Move s t → Moves r t

pub Moves-trans : {r s t : Request} → Moves r s → Moves s t → Moves r t
Moves-trans first stay = first
Moves-trans first (go later m) = go (Moves-trans first later) m

-- Every request changes by such moves.
pub record Moved (p q : Pool) : Type 0 where
  pub each : (j : ℕ) → Moves (p.requests j) (q.requests j)

pub Moved-refl : (p : Pool) → Moved p p
Moved-refl p = record { each = λ j. stay }

pub Moved-trans : (p q s : Pool) → Moved p q → Moved q s → Moved p s
Moved-trans p q s first later = record { each = λ j. Moves-trans (first.each j) (later.each j) }

-- On both branches of a test.
pub if-Moved :
    (p : Pool) (b : Bool) (x y : Pool)
    → (b ≡ true → Moved p x)
    → (b ≡ false → Moved p y)
    → Moved p (if b then x else y)
if-Moved p = if-elim (Moved p)

pub foldl-Moved {ℓ} :
    {A : Type ℓ} (f : Pool → A → Pool) (p : Pool) (xs : List A)
    → ((q : Pool) (a : A) → Moved q (f q a))
    → Moved p (foldl f p xs)
foldl-Moved f p [] each = Moved-refl p
foldl-Moved f p (a ∷ xs) each =
    Moved-trans p (f p a) (foldl f (f p a) xs) (each p a) (foldl-Moved f (f p a) xs each)

pub modify_request-Moved :
    (i : ℕ) (f : Request → Request) (p : Pool)
    → Move (p.requests i) (f (p.requests i))
    → Moved p (modify_request i f p)
unfolding modify_request
modify_request-Moved i f p m = record {
  each =
      update-elim (λ j r. Moves (p.requests j) r) p.requests i (f (p.requests i)) (go stay m)
        (λ j. stay);
}

pub complete-Moved :
    (i : ℕ) (responses : List RawResponse) (written : ℕ) (e : Option Err) (p : Pool)
    → (e ≡ none → any (p.requests i).stop responses ≡ true)
    → Moved p (complete i responses written e p)
unfolding complete
complete-Moved i responses written e p h =
    modify_request-Moved i (complete_request responses written e) p
      (completed responses written e h)

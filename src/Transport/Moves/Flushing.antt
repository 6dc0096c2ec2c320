-- ===== src/Transport/Moves/Flushing.antt =====
-- The requests under a flush behind its write.
use mathlib.Core.Path.{subst}
use go_memcache.Base.{
  ℕ, ◌+◌, ◌-◌, ◌≤◌, ◌≡◌, refl, ap, sym, arith, Bool, true, false, not, ◌&&◌, Bool-cases, inl, inr,
  List, [], ◌∷◌, Option, none, some, is_some, if◌then◌else◌, length, ltb, leb, length-append,
}
use go_memcache.Errors.{Err}
use go_memcache.Options.{Config}
use go_memcache.Transport.{RequestState, writing, Pool, modify_conn, complete}
use go_memcache.Transport.Pick.{detach}
use go_memcache.Transport.Teardown.{lost_error}
use go_memcache.Transport.Flush.{
  flush_buffer, unclaim, trim, Flushed, is_writing, settle_one, settle_batch, mark_all, fail_if,
  flush_failed, finish_flush,
}
use go_memcache.Transport.Moves.{
  Moved, Moved-refl, Moved-trans, if-Moved, modify_request-Moved, complete-Moved, unclaimed,
}
use go_memcache.Transport.Moves.Operations.{Moved-of_eq, detach-Moved, fail-Moved}
use go_memcache.Transport.Moves.Claiming.{flush_buffer-Moved, trim-Moved, mark_all-Moved}

is_writing→writing : (s : RequestState) → is_writing s ≡ true → s ≡ writing
unfolding is_writing
is_writing→writing s h = ground arith

-- A request that was written whole is settled only if the connection was closed under the flush.
settle_whole-Moved :
    (f : Flushed) (i : ℕ) (p : Pool)
    → Moved p (
        if f.closed
        then complete i
            (p.requests i).responses
            (length (p.requests i).payload)
            (some (lost_error f.cause f.blamed i))
            p
        else p)
settle_whole-Moved f i p =
    let r = p.requests i in
    let e = some (lost_error f.cause f.blamed i) in
    if-Moved p f.closed (complete i r.responses (length r.payload) e p) p
      (λ _. complete-Moved i r.responses (length r.payload) e p (λ h. cc)) (λ _. Moved-refl p)

settle_one-Moved :
    (f : Flushed) (e : Err) (start end i : ℕ) (p : Pool)
    → f.err ≡ some e
    → Moved p (settle_one f start end i p).1
unfolding settle_one
settle_one-Moved f e start end i p h = elim (Bool-cases (leb end f.written)) [
  | inl whole ↦ rw whole (settle_whole-Moved f i p)
  | inr more ↦ rw more (elim (Bool-cases (ltb start f.written)) [
    | inl part ↦ rw part (complete-Moved i [] (f.written - start) f.err p (λ k. cc))
    | inr unsent ↦ rw unsent (elim (Bool-cases (f.served && is_writing (p.requests i).state)) [
      | inl again ↦ rw again (
          modify_request-Moved i unclaim p
            (unclaimed (is_writing→writing (p.requests i).state (ground arith))))
      | inr failed ↦ rw failed (complete-Moved i [] 0 f.err p (λ k. cc))
    ])
  ])
]

settle_batch-Moved :
    (f : Flushed) (e : Err) (start : ℕ) (batch : List ℕ) (p : Pool)
    → f.err ≡ some e
    → Moved p (settle_batch f start batch p).1
unfolding settle_batch
settle_batch-Moved f e start [] p h = Moved-refl p
settle_batch-Moved f e start (i ∷ is) p h =
    let end = start + length (p.requests i).payload in
    let q = (settle_one f start end i p).1 in
    Moved-trans p q (settle_batch f end is q).1 (settle_one-Moved f e start end i p h)
      (settle_batch-Moved f e end is q h)

settle_one-whole :
    (f : Flushed) (start end i : ℕ) (p : Pool)
    → end ≤ f.written
    → ((settle_one f start end i p).0 ≡ false) × Moved p (settle_one f start end i p).1
unfolding settle_one
settle_one-whole f start end i p h =
    let whole : leb end f.written ≡ true = ground arith in rw whole (refl, settle_whole-Moved f i p)

-- Where everything was written, nothing is written again.
settle_batch-whole :
    (f : Flushed) (start : ℕ) (batch : List ℕ) (p : Pool)
    → start + length (flush_buffer p.requests batch) ≤ f.written
    → ((settle_batch f start batch p).0 ≡ []) × Moved p (settle_batch f start batch p).1
unfolding settle_batch flush_buffer
settle_batch-whole f start [] p h = (refl, Moved-refl p)
settle_batch-whole f start (i ∷ is) p h =
    let r = p.requests i in
    let end = start + length r.payload in
    let q = (settle_one f start end i p).1 in
    let both = length-append r.payload (flush_buffer p.requests is) in
    let (kept, moved) = settle_one-whole f start end i p (omega (arith, both)) in
    let same = ap length (flush_buffer-Moved p q is moved) in
    let (rest, later) = settle_batch-whole f end is q (omega (arith, both, same)) in
    (rw kept rest, Moved-trans p q (settle_batch f end is q).1 moved later)

fail_if-Moved :
    (cfg : Config) (now c : ℕ) (e : Option Err) (p : Pool) → Moved p (fail_if cfg now c e p)
unfolding fail_if
fail_if-Moved cfg now c none p = Moved-refl p
fail_if-Moved cfg now c (some e) p = fail-Moved cfg now c e false p

-- A flush whose write has failed.
broken-Moved :
    (cfg : Config) (now c : ℕ) (batch : List ℕ) (f : Flushed) (e : Err) (p : Pool)
    → f.err ≡ some e
    → Moved p (flush_failed cfg now c batch f p)
unfolding flush_failed
broken-Moved cfg now c batch f e p h =
    let q = if f.closed then p else trim c f.written 0 batch p in
    let s = (settle_batch f 0 batch q).1 in
    let again = (settle_batch f 0 batch q).0 in
    let t = fail_if cfg now c f.err s in
    let u = detach cfg now none again f.err f.served t in
    let trimmed =
      if-Moved p f.closed p (trim c f.written 0 batch p) (λ _. Moved-refl p)
        (λ _. trim-Moved c f.written 0 batch p) in
    Moved-trans p q u trimmed (
      Moved-trans q s u (settle_batch-Moved f e 0 batch q h) (
        Moved-trans s t u (fail_if-Moved cfg now c f.err s) (
          subst (λ o. Moved t (detach cfg now none again o f.served t)) (sym h)
            (detach-Moved cfg now none again e f.served t))))

detach_nothing-requests :
    (cfg : Config) (now : ℕ) (e : Option Err) (requeue : Bool) (p : Pool)
    → (detach cfg now none [] e requeue p).requests ≡ p.requests
unfolding detach
detach_nothing-requests cfg now e requeue p = ground arith

-- A flush that has written everything on a connection that was closed under it.
overtaken-Moved :
    (cfg : Config) (now c : ℕ) (batch : List ℕ) (cause : Option Err) (blamed : Option ℕ)
    (served : Bool) (written : ℕ) (p : Pool)
    → length (flush_buffer p.requests batch) ≤ written
    → Moved p (
        flush_failed cfg now c batch
          (record {
            closed = true;
            cause = cause;
            blamed = blamed;
            served = served;
            written = written;
            err = none;
          })
          p)
unfolding flush_failed fail_if
overtaken-Moved cfg now c batch cause blamed served written p whole =
    let f : Flushed = record {
      closed = true;
      cause = cause;
      blamed = blamed;
      served = served;
      written = written;
      err = none;
    } in
    let (kept, moved) = settle_batch-whole f 0 batch p (omega (arith, whole)) in
    let q = (settle_batch f 0 batch p).1 in
    let last = detach cfg now none [] none served q in
    rw kept (
      Moved-trans p q last moved
        (Moved-of_eq q last (detach_nothing-requests cfg now none served q)))

-- The flush of a connection that was open at its end, or closed.
flush_end-Moved :
    (cfg : Config) (now c : ℕ) (batch : List ℕ) (cause : Option Err) (blamed : Option ℕ)
    (served : Bool) (written : ℕ) (closed : Bool) (e : Option Err) (p : Pool)
    → (e ≡ none → length (flush_buffer p.requests batch) ≤ written)
    → Moved p (
        if not (is_some e) && not closed
        then mark_all batch p
        else flush_failed cfg now c batch
            (record {
              closed = closed;
              cause = cause;
              blamed = blamed;
              served = served;
              written = written;
              err = e;
            })
            p)
flush_end-Moved cfg now c batch cause blamed served written true none p whole =
    overtaken-Moved cfg now c batch cause blamed served written p (whole refl)
flush_end-Moved cfg now c batch cause blamed served written false none p whole =
    mark_all-Moved batch p
flush_end-Moved cfg now c batch cause blamed served written closed (some e) p whole =
    broken-Moved cfg now c batch
      (record {
        closed = closed;
        cause = cause;
        blamed = blamed;
        served = served;
        written = written;
        err = some e;
      })
      e p refl

pub finish_flush-Moved :
    (cfg : Config) (now c : ℕ) (batch : List ℕ) (written : ℕ) (e : Option Err) (p : Pool)
    → (e ≡ none → length (flush_buffer p.requests batch) ≤ written)
    → Moved p (finish_flush cfg now c batch written e p)
unfolding finish_flush modify_conn
finish_flush-Moved cfg now c batch written e p whole =
    let m = p.connections c in
    record {
      each =
          (flush_end-Moved cfg now c batch m.cause m.blamed m.served written m.closed e p
            whole).each;
    }

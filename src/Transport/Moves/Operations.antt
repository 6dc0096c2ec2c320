-- ===== src/Transport/Moves/Operations.antt =====
-- The requests under the operations of connections, of the pool and of callers.
use mathlib.Core.List.{foldl}
use go_memcache.Base.{
  ℕ, ◌≡◌, refl, ◌∙◌, arith, Bool, true, false, not, ◌&&◌, List, [], ◌∷◌, Option, none, some,
  if◌then◌else◌, length,
}
use go_memcache.Errors.{Err, CtxErr, canceled, deadline_exceeded, context, closed}
use go_memcache.Options.{Config}
use go_memcache.Transport.{
  RequestState, queued, writing, done, MuxConn, Pool, modify_request, modify_conn, is_queued,
  complete,
}
use go_memcache.Transport.Connection.{add, new_conn, arm_read_deadline, oldest_live}
use go_memcache.Transport.Pick.{
  Scan, visit, scan, choose_conn, pick_locked, pick_and_add, rehome, forget_option, detach,
}
use go_memcache.Transport.Teardown.{
  lose, fail, expire, blame, orphan, drained, drain, close, lost_error, down,
}
use go_memcache.Transport.Exchange.{
  gone, abandon_request, return_request, leave_conn, give_up_at, give_up,
}
use go_memcache.Transport.Moves.{
  Moved, stay, Moved-refl, Moved-trans, if-Moved, foldl-Moved, modify_request-Moved, complete-Moved,
  abandoned, returned,
}

-- What touches connections alone leaves every request as it is.
pub modify_conn-requests :
    (c : ℕ) (f : MuxConn → MuxConn) (p : Pool) → (modify_conn c f p).requests ≡ p.requests
unfolding modify_conn
modify_conn-requests c f p = refl

pub Moved-of_eq : (p q : Pool) → q.requests ≡ p.requests → Moved p q
Moved-of_eq p q e = record { each = λ j. rw e stay }

visit-requests :
    (cfg : Config) (now : ℕ) (s : Scan) (c : ℕ)
    → (visit cfg now s c).pool.requests ≡ s.pool.requests
unfolding visit modify_conn
visit-requests cfg now s c = ground arith

foldl-visit-requests :
    (cfg : Config) (now : ℕ) (s : Scan) (cs : List ℕ)
    → (foldl (visit cfg now) s cs).pool.requests ≡ s.pool.requests
foldl-visit-requests cfg now s [] = refl
foldl-visit-requests cfg now s (c ∷ cs) =
    cc (foldl-visit-requests cfg now (visit cfg now s c) cs, visit-requests cfg now s c)

choose_conn-requests :
    (cfg : Config) (now : ℕ) (best : Option (ℕ × ℕ)) (p : Pool)
    → (choose_conn cfg now best p).1.requests ≡ p.requests
unfolding choose_conn new_conn
choose_conn-requests cfg now best p = ground arith

pub pick_and_add-requests :
    (cfg : Config) (now i : ℕ) (p : Pool) → (pick_and_add cfg now i p).requests ≡ p.requests
unfolding pick_and_add pick_locked scan add modify_conn
pick_and_add-requests cfg now i p =
    let s = scan cfg now p in
    choose_conn-requests cfg now s.best (record s.pool { conns = s.kept })
    ∙ foldl-visit-requests cfg now (record { kept = []; best = none; pool = p }) p.conns

rehome-Moved :
    (cfg : Config) (now : ℕ) (requeue : Bool) (e : Err) (p : Pool) (i : ℕ)
    → Moved p (rehome cfg now requeue (some e) p i)
unfolding rehome
rehome-Moved cfg now requeue e p i =
    let added = pick_and_add cfg now i p in
    let failed = complete i [] 0 (some e) p in
    if-Moved p (not (is_queued (p.requests i).state)) p (if requeue then added else failed)
      (λ _. Moved-refl p)
      (λ _.
        if-Moved p requeue added failed
          (λ _. Moved-of_eq p added (pick_and_add-requests cfg now i p))
          (λ _. complete-Moved i [] 0 (some e) p (λ h. cc)))

pub detach-Moved :
    (cfg : Config) (now : ℕ) (c : Option ℕ) (pending : List ℕ) (e : Err) (requeue : Bool) (p : Pool)
    → Moved p (detach cfg now c pending (some e) requeue p)
unfolding detach
detach-Moved cfg now c pending e requeue p =
    let q = record p { conns = forget_option c p.conns } in
    let refuse = rehome cfg now false (some closed) in
    let move = rehome cfg now requeue (some e) in
    if-Moved p p.closed (foldl refuse q pending) (foldl move q pending)
      (λ _.
        Moved-trans p q (foldl refuse q pending) (Moved-of_eq p q refl)
          (foldl-Moved refuse q pending (rehome-Moved cfg now false closed)))
      (λ _.
        Moved-trans p q (foldl move q pending) (Moved-of_eq p q refl)
          (foldl-Moved move q pending (rehome-Moved cfg now requeue e)))

lose-Moved :
    (cause : Err) (blamed : Option ℕ) (p : Pool) (i : ℕ) → Moved p (lose (some cause) blamed p i)
unfolding lose
lose-Moved cause blamed p i =
    let r = p.requests i in
    let e = some (lost_error (some cause) blamed i) in
    if-Moved p (not r.on_wire) p (complete i r.responses (length r.payload) e p) (λ _. Moved-refl p)
      (λ _. complete-Moved i r.responses (length r.payload) e p (λ h. cc))

-- Through a change of connections alone, and then a loop over requests.
foldl_after-Moved :
    (f : Pool → ℕ → Pool) (p q : Pool) (xs : List ℕ)
    → q.requests ≡ p.requests
    → ((s : Pool) (i : ℕ) → Moved s (f s i))
    → Moved p (foldl f q xs)
foldl_after-Moved f p q xs e each =
    Moved-trans p q (foldl f q xs) (Moved-of_eq p q e) (foldl-Moved f q xs each)

pub fail-Moved :
    (cfg : Config) (now c : ℕ) (cause : Err) (head_saw : Bool) (p : Pool)
    → Moved p (fail cfg now c cause head_saw p)
unfolding fail
fail-Moved cfg now c cause head_saw p =
    let m = p.connections c in
    let lost = lose (some cause) (blame head_saw m) in
    let q = foldl lost (modify_conn c (down cause head_saw) p) m.inflight in
    let last = detach cfg now (some c) m.pending (some cause) m.served q in
    if-Moved p m.closed p last (λ _. Moved-refl p)
      (λ _.
        Moved-trans p q last
          (foldl_after-Moved lost p (modify_conn c (down cause head_saw) p) m.inflight
            (modify_conn-requests c (down cause head_saw) p) (lose-Moved cause (blame head_saw m)))
          (detach-Moved cfg now (some c) m.pending cause m.served q))

pub arm_read_deadline-requests : (c : ℕ) (p : Pool) → (arm_read_deadline c p).requests ≡ p.requests
unfolding arm_read_deadline modify_conn
arm_read_deadline-requests c p = refl

arm-Moved : (c : ℕ) (p : Pool) → Moved p (arm_read_deadline c p)
arm-Moved c p = Moved-of_eq p (arm_read_deadline c p) (arm_read_deadline-requests c p)

pub expire-Moved : (cfg : Config) (now c i : ℕ) (p : Pool) → Moved p (expire cfg now c i p)
unfolding expire
expire-Moved cfg now c i p =
    let m = p.connections c in
    if-Moved p (not m.closed && oldest_live p.requests i m.inflight)
      (fail cfg now c (context deadline_exceeded) true p) (arm_read_deadline c p)
      (λ _. fail-Moved cfg now c (context deadline_exceeded) true p) (λ _. arm-Moved c p)

pub orphan-Moved : (c : ℕ) (p : Pool) → Moved p (orphan c p)
unfolding orphan
orphan-Moved c p =
    if-Moved p (not (p.connections c).closed) (arm_read_deadline c p) p (λ _. arm-Moved c p)
      (λ _. Moved-refl p)

drain-Moved : (p : Pool) (c : ℕ) → Moved p (drain p c)
unfolding drain
drain-Moved p c =
    let m = p.connections c in
    let refuse = λ (q : Pool) (i : ℕ). complete i [] 0 (some closed) q in
    let q = modify_conn c drained p in
    if-Moved p m.closed p (foldl refuse q m.pending) (λ _. Moved-refl p)
      (λ _.
        foldl_after-Moved refuse p q m.pending (modify_conn-requests c drained p)
          (λ s i. complete-Moved i [] 0 (some closed) s (λ h. cc)))

pub close-Moved : (p : Pool) → Moved p (close p)
unfolding close
close-Moved p =
    let q = record p { closed = true; conns = [] } in
    if-Moved p p.closed p (foldl drain q p.conns) (λ _. Moved-refl p)
      (λ _. foldl_after-Moved drain p q p.conns refl drain-Moved)

leave_conn-Moved :
    (cfg : Config) (now : ℕ) (c : Option ℕ) (i : ℕ) (e : CtxErr) (p : Pool)
    → Moved p (leave_conn cfg now c i e p)
unfolding leave_conn
leave_conn-Moved cfg now none i e p = Moved-refl p
leave_conn-Moved cfg now (some c) i deadline_exceeded p = expire-Moved cfg now c i p
leave_conn-Moved cfg now (some c) i canceled p = orphan-Moved c p

give_up_at-Moved :
    (cfg : Config) (now i : ℕ) (e : CtxErr) (s : RequestState) (p : Pool)
    → (p.requests i).state ≡ s
    → (p.requests i).returned ≡ none
    → Moved p (give_up_at cfg now i e s p)
unfolding give_up_at
give_up_at-Moved cfg now i e queued p h fresh =
    modify_request-Moved i (abandon_request (gone 0 e)) p (abandoned (gone 0 e) (λ k. cc) (λ k. cc))
give_up_at-Moved cfg now i e writing p h fresh =
    let r = p.requests i in
    let o = gone (length r.payload) e in
    let q = modify_request i (abandon_request o) p in
    Moved-trans p q (leave_conn cfg now r.conn i e q)
      (modify_request-Moved i (abandon_request o) p (abandoned o (λ k. cc) (λ k. cc)))
      (leave_conn-Moved cfg now r.conn i e q)
give_up_at-Moved cfg now i e done p h fresh =
    modify_request-Moved i return_request p (returned h fresh)

pub give_up-Moved :
    (cfg : Config) (now i : ℕ) (e : CtxErr) (p : Pool)
    → (p.requests i).returned ≡ none
    → Moved p (give_up cfg now i e p)
unfolding give_up
give_up-Moved cfg now i e p fresh = give_up_at-Moved cfg now i e (p.requests i).state p refl fresh

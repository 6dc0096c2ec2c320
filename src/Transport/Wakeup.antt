-- ===== src/Transport/Wakeup.antt =====
-- The wake-up channel of a connection in transport.go.
pub mod Writing
pub mod Steps
use mathlib.Core.List.{foldl}
use go_memcache.Base.{
  ℕ, ◌≡◌, refl, if-elim, arith, Bool, true, false, not, ◌&&◌, ◌||◌, Bool-cases, inl, inr, List, [],
  ◌∷◌, Option, none, some, if◌then◌else◌, length, ltb,
}
use go_memcache.Errors.{Err, closed, context, deadline_exceeded, canceled, CtxErr}
use go_memcache.Types.{RawResponse}
use go_memcache.Options.{Config}
use go_memcache.Transport.{
  Worker, dialing, waiting, MuxConn, Pool, update-elim, modify_conn, modify_request, complete,
  is_queued, foldl_inv,
}
use go_memcache.Transport.Connection.{
  signal, add, new_conn, blank_conn, retire_conn, arm_read_deadline, live_deadline, arm_socket,
  oldest_live,
}
use go_memcache.Transport.Pick.{
  Scan, visit, is_idle, better, scan, choose_conn, pick_locked, pick_and_add, rehome, forget_option,
  detach,
}
use go_memcache.Transport.Teardown.{
  is_empty, lost_error, lose, blame, down, fail, expire, orphan, drained, drain, close,
}

-- The goroutine has not started its loop, or waits in it.
unfoldable pub is_parked : Worker → Bool
is_parked dialing = true
is_parked waiting = true
is_parked _ = false

-- There is something to do for a goroutine that is parked.
unfoldable pub needs_wake : MuxConn → Bool
unfolding is_parked is_empty
needs_wake m = is_parked m.worker && (m.closed || not (is_empty m.pending))

-- Then the channel holds its token.
abbrev pub IsAwake : MuxConn → Type 0
IsAwake m = needs_wake m ≡ true → m.wake ≡ true

pub record IsAlert (p : Pool) : Type 0 where
  pub awake : (c : ℕ) → IsAwake (p.connections c)

pub IsAlert-same : {p : Pool} (q : Pool) → q.connections ≡ p.connections → IsAlert p → IsAlert q
IsAlert-same q e w = record { awake = λ c. rw e (w.awake c) }

pub modify_conn-IsAlert :
    (c : ℕ) (f : MuxConn → MuxConn) (p : Pool)
    → (IsAwake (p.connections c) → IsAwake (f (p.connections c)))
    → IsAlert p
    → IsAlert (modify_conn c f p)
unfolding modify_conn
modify_conn-IsAlert c f p h w = record {
  awake =
      update-elim (λ d m. IsAwake m) p.connections c (f (p.connections c)) (h (w.awake c)) w.awake;
}

retire_conn-IsAlert : (c : ℕ) (p : Pool) → IsAlert p → IsAlert (modify_conn c retire_conn p)
unfolding retire_conn
retire_conn-IsAlert c p w = modify_conn-IsAlert c retire_conn p (λ _ _. refl) w

visit-IsAlert :
    (cfg : Config) (now : ℕ) (s : Scan) (c : ℕ) → IsAlert s.pool → IsAlert (visit cfg now s c).pool
unfolding visit
visit-IsAlert cfg now s c w = elim (Bool-cases (s.pool.connections c).closed) [
  | inl gone ↦ rw gone w
  | inr live ↦ rw live (elim (Bool-cases (is_idle cfg now (s.pool.connections c))) [
    | inl idle ↦ rw idle (retire_conn-IsAlert c s.pool w)
    | inr busy ↦ rw busy w
  ])
]

new_conn-IsAlert : (now : ℕ) (p : Pool) → IsAlert p → IsAlert (new_conn now p)
unfolding new_conn needs_wake
new_conn-IsAlert now p w = record {
  awake =
      update-elim (λ d m. IsAwake m) p.connections p.next_conn (blank_conn now) (λ k. cc) w.awake;
}

choose_conn-IsAlert :
    (cfg : Config) (now : ℕ) (best : Option (ℕ × ℕ)) (p : Pool)
    → IsAlert p
    → IsAlert (choose_conn cfg now best p).1
unfolding choose_conn
choose_conn-IsAlert cfg now none p w = new_conn-IsAlert now p w
choose_conn-IsAlert cfg now (some (c, size)) p w =
    if-elim (λ (r : ℕ × Pool). IsAlert r.1) (ltb 0 size && ltb (length p.conns) cfg.max_conns)
      (p.next_conn, new_conn now p) (c, p) (λ _. new_conn-IsAlert now p w) (λ _. w)

add-IsAlert : (i c : ℕ) (p : Pool) → IsAlert p → IsAlert (add i c p)
unfolding add
add-IsAlert i c p w = modify_conn-IsAlert c _ p (λ _ _. refl) w

pub pick_and_add-IsAlert :
    (cfg : Config) (now i : ℕ) (p : Pool) → IsAlert p → IsAlert (pick_and_add cfg now i p)
unfolding pick_and_add pick_locked scan
pick_and_add-IsAlert cfg now i p w =
    let s = scan cfg now p in
    let first : Scan = record { kept = []; best = none; pool = p } in
    let scanned =
      foldl_inv (λ (t : Scan). IsAlert t.pool) (visit cfg now) first p.conns (visit-IsAlert cfg now)
        w in
    let q = record s.pool { conns = s.kept } in
    let chosen = choose_conn cfg now s.best q in
    add-IsAlert i chosen.0 chosen.1
      (choose_conn-IsAlert cfg now s.best q (IsAlert-same q refl scanned))

pub complete-IsAlert :
    (i : ℕ) (rs : List RawResponse) (written : ℕ) (e : Option Err) (p : Pool)
    → IsAlert p
    → IsAlert (complete i rs written e p)
unfolding complete modify_request
complete-IsAlert i rs written e p w = IsAlert-same (complete i rs written e p) refl w

rehome-IsAlert :
    (cfg : Config) (now : ℕ) (requeue : Bool) (e : Option Err) (p : Pool) (i : ℕ)
    → IsAlert p
    → IsAlert (rehome cfg now requeue e p i)
unfolding rehome
rehome-IsAlert cfg now requeue e p i w =
    let added = pick_and_add cfg now i p in
    let failed = complete i [] 0 e p in
    if-elim IsAlert (not (is_queued (p.requests i).state)) p (if requeue then added else failed)
      (λ _. w)
      (λ _.
        if-elim IsAlert requeue added failed (λ _. pick_and_add-IsAlert cfg now i p w)
          (λ _. complete-IsAlert i [] 0 e p w))

pub detach-IsAlert :
    (cfg : Config) (now : ℕ) (c : Option ℕ) (pending : List ℕ) (e : Option Err) (requeue : Bool)
    (p : Pool)
    → IsAlert p
    → IsAlert (detach cfg now c pending e requeue p)
unfolding detach
detach-IsAlert cfg now c pending e requeue p w =
    let q = record p { conns = forget_option c p.conns } in
    let refuse = rehome cfg now false (some closed) in
    let move = rehome cfg now requeue e in
    let before = IsAlert-same q refl w in
    if-elim IsAlert p.closed (foldl refuse q pending) (foldl move q pending)
      (λ _. foldl_inv IsAlert refuse q pending (rehome-IsAlert cfg now false (some closed)) before)
      (λ _. foldl_inv IsAlert move q pending (rehome-IsAlert cfg now requeue e) before)

lose-IsAlert :
    (cause : Option Err) (blamed : Option ℕ) (p : Pool) (i : ℕ)
    → IsAlert p
    → IsAlert (lose cause blamed p i)
unfolding lose
lose-IsAlert cause blamed p i w =
    let r = p.requests i in
    let e = some (lost_error cause blamed i) in
    if-elim IsAlert (not r.on_wire) p (complete i r.responses (length r.payload) e p) (λ _. w)
      (λ _. complete-IsAlert i r.responses (length r.payload) e p w)

down-IsAlert :
    (c : ℕ) (cause : Err) (head_saw : Bool) (p : Pool)
    → IsAlert p
    → IsAlert (modify_conn c (down cause head_saw) p)
unfolding down
down-IsAlert c cause head_saw p w = modify_conn-IsAlert c (down cause head_saw) p (λ _ _. refl) w

pub fail-IsAlert :
    (cfg : Config) (now c : ℕ) (cause : Err) (head_saw : Bool) (p : Pool)
    → IsAlert p
    → IsAlert (fail cfg now c cause head_saw p)
unfolding fail
fail-IsAlert cfg now c cause head_saw p w =
    let m = p.connections c in
    let lost = lose (some cause) (blame head_saw m) in
    let q0 = modify_conn c (down cause head_saw) p in
    let q = foldl lost q0 m.inflight in
    if-elim IsAlert m.closed p (detach cfg now (some c) m.pending (some cause) m.served q) (λ _. w)
      (λ _. detach-IsAlert cfg now (some c) m.pending (some cause) m.served q (
        foldl_inv IsAlert lost q0 m.inflight (lose-IsAlert (some cause) (blame head_saw m))
          (down-IsAlert c cause head_saw p w)))

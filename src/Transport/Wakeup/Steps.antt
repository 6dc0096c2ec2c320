-- ===== src/Transport/Wakeup/Steps.antt =====
-- No goroutine of a connection waits in vain, in any state of the pool.
use mathlib.Core.List.{foldl}
use go_memcache.Base.{
  ℕ, ◌≡◌, refl, if-elim, arith, Bool, true, false, not, ◌&&◌, Bool-cases, inl, inr, List, [], ◌∷◌,
  Option, none, some, if◌then◌else◌, length, ◌≢◌, ◌⊎◌, ◌==◌, is_some, Bytes,
}
use go_memcache.Errors.{
  Err, CtxErr, closed, deadline_exceeded, context, protocol, response_without_request,
}
use go_memcache.Types.{RawResponse}
use go_memcache.Options.{Config}
use go_memcache.Transport.{
  MuxConn, Pool, new_request, modify_request, modify_conn, complete, foldl_inv, waiting, dialing,
  claiming,
}
use go_memcache.Transport.Connection.{arm_read_deadline, signal}
use go_memcache.Transport.Pick.{enqueue, pick_and_add}
use go_memcache.Transport.Teardown.{drained, fail, drain, close, is_empty}
use go_memcache.Transport.Exchange.{give_up, submit, after_enqueue, allocate, deadline_of, collect}
use go_memcache.Transport.Writer.{set_worker, dialed, dial_failed, awaken}
use go_memcache.Transport.Flush.{
  trim, Flushed, settle_batch, mark_all, fail_if, flush_failed, finish_flush,
}
use go_memcache.Transport.Reader.{
  Received, got, broke, append_response, pop, finish_conn, deliver, hand_over, receive,
}
use go_memcache.Transport.System.{
  Step, submitted, collected, given_up, dial_ended, dial_broke, woken, claimed, flushed, received,
  shut, Reach, start, later,
}
use go_memcache.Transport.Wakeup.{
  needs_wake, IsAwake, IsAlert, IsAlert-same, modify_conn-IsAlert, pick_and_add-IsAlert,
  detach-IsAlert, fail-IsAlert, complete-IsAlert,
}
use go_memcache.Transport.Wakeup.Writing.{
  modify_conn-IsAlertBut, modify_request-IsAlert, arm-IsAlert, give_up_at-IsAlert, ended-IsAlert,
  claim-IsAlert, trim-IsAlert, mark_all-IsAlert, settle_batch-connections, IsAlertBut,
}

signal-IsAlert : (c : ℕ) (p : Pool) → IsAlertBut c p → IsAlert (modify_conn c signal p)
unfolding modify_conn signal
signal-IsAlert c p w = record {
  awake = λ d. elim (Bool-cases (c == d)) [
    | inl same ↦ rw same (λ _. refl)
    | inr other ↦ rw other (w d (ground arith))
  ];
}

-- The last answer of a connection that is closing: closed first, and signalled last.
finish-IsAlert :
    (c i : ℕ) (rs : List RawResponse) (written : ℕ) (q : Pool)
    → IsAlert q
    → IsAlert (modify_conn c signal (complete i rs written none (modify_conn c finish_conn q)))
unfolding complete modify_request
finish-IsAlert c i rs written q w =
    signal-IsAlert c (complete i rs written none (modify_conn c finish_conn q))
      (modify_conn-IsAlertBut c finish_conn q (λ d _. w.awake d))

pop-IsAlert :
    (now c : ℕ) (rest : List ℕ) (p : Pool) → IsAlert p → IsAlert (modify_conn c (pop now rest) p)
unfolding pop needs_wake
pop-IsAlert now c rest p w = modify_conn-IsAlert c (pop now rest) p (λ h. h) w

deliver-IsAlert :
    (now c i : ℕ) (rest : List ℕ) (p : Pool) → IsAlert p → IsAlert (deliver now c i rest p)
unfolding deliver
deliver-IsAlert now c i rest p w =
    let r = p.requests i in
    let popped = modify_conn c (pop now rest) p in
    let q = arm_read_deadline c popped in
    let alert = arm-IsAlert c popped (pop-IsAlert now c rest p w) in
    elim (Bool-cases ((p.connections c).closing && is_empty rest)) [
      | inl finished ↦ rw finished (finish-IsAlert c i r.responses (length r.payload) q alert)
      | inr goes_on ↦ rw goes_on (complete-IsAlert i r.responses (length r.payload) none q alert)
    ]

hand_over-IsAlert :
    (cfg : Config) (now c : ℕ) (x : RawResponse) (is : List ℕ) (p : Pool)
    → IsAlert p
    → IsAlert (hand_over cfg now c x is p)
unfolding hand_over
hand_over-IsAlert cfg now c x [] p w =
    fail-IsAlert cfg now c (protocol response_without_request) true p w
hand_over-IsAlert cfg now c x (i ∷ rest) p w =
    let q = modify_request i (append_response x) p in
    let appended = modify_request-IsAlert i (append_response x) p w in
    if-elim IsAlert (not ((p.requests i).stop x)) q (deliver now c i rest q) (λ _. appended)
      (λ _. deliver-IsAlert now c i rest q appended)

receive-IsAlert :
    (cfg : Config) (now c : ℕ) (x : Received) (p : Pool)
    → IsAlert p
    → IsAlert (receive cfg now c x p)
unfolding receive
receive-IsAlert cfg now c (broke timeout e) p w =
    fail-IsAlert cfg now c (if timeout then context deadline_exceeded else e) true p w
receive-IsAlert cfg now c (got x) p w =
    let m = p.connections c in
    if-elim IsAlert m.closed p (hand_over cfg now c x m.inflight p) (λ _. w)
      (λ _. hand_over-IsAlert cfg now c x m.inflight p w)

fail_if-IsAlert :
    (cfg : Config) (now c : ℕ) (e : Option Err) (p : Pool)
    → IsAlert p
    → IsAlert (fail_if cfg now c e p)
unfolding fail_if
fail_if-IsAlert cfg now c none p w = w
fail_if-IsAlert cfg now c (some e) p w = fail-IsAlert cfg now c e false p w

flush_failed-IsAlert :
    (cfg : Config) (now c : ℕ) (batch : List ℕ) (f : Flushed) (p : Pool)
    → IsAlert p
    → IsAlert (flush_failed cfg now c batch f p)
unfolding flush_failed
flush_failed-IsAlert cfg now c batch f p w =
    let trimmed = trim c f.written 0 batch p in
    let q = if f.closed then p else trimmed in
    let s = (settle_batch f 0 batch q).1 in
    let before =
      if-elim IsAlert f.closed p trimmed (λ _. w) (λ _. trim-IsAlert c f.written 0 batch p w) in
    let settled = IsAlert-same s (settle_batch-connections f 0 batch q) before in
    detach-IsAlert cfg now none (settle_batch f 0 batch q).0 f.err f.served
      (fail_if cfg now c f.err s) (fail_if-IsAlert cfg now c f.err s settled)

finish_flush-IsAlert :
    (cfg : Config) (now c : ℕ) (batch : List ℕ) (written : ℕ) (e : Option Err) (p : Pool)
    → IsAlert p
    → IsAlert (finish_flush cfg now c batch written e p)
unfolding finish_flush needs_wake
finish_flush-IsAlert cfg now c batch written e p w =
    let m = p.connections c in
    let f : Flushed = record {
      closed = m.closed;
      cause = m.cause;
      blamed = m.blamed;
      served = m.served;
      written = written;
      err = e;
    } in
    let marked = mark_all batch p in
    let failed = flush_failed cfg now c batch f p in
    modify_conn-IsAlert c (set_worker claiming)
      (if not (is_some e) && not m.closed then marked else failed) (λ _ k. cc)
      (if-elim IsAlert (not (is_some e) && not m.closed) marked failed
        (λ _. mark_all-IsAlert batch p w) (λ _. flush_failed-IsAlert cfg now c batch f p w))

drain-IsAlert : (p : Pool) (c : ℕ) → IsAlert p → IsAlert (drain p c)
unfolding drain drained
drain-IsAlert p c w =
    let m = p.connections c in
    let q = modify_conn c drained p in
    let refuse = λ (s : Pool) (i : ℕ). complete i [] 0 (some closed) s in
    if-elim IsAlert m.closed p (foldl refuse q m.pending) (λ _. w)
      (λ _.
        foldl_inv IsAlert refuse q m.pending (λ s i. complete-IsAlert i [] 0 (some closed) s)
          (modify_conn-IsAlert c drained p (λ _ _. refl) w))

close-IsAlert : (p : Pool) → IsAlert p → IsAlert (close p)
unfolding close
close-IsAlert p w =
    let q = record p { closed = true; conns = [] } in
    if-elim IsAlert p.closed p (foldl drain q p.conns) (λ _. w)
      (λ _. foldl_inv IsAlert drain q p.conns drain-IsAlert (IsAlert-same q refl w))

submit-IsAlert :
    (cfg : Config) (now : ℕ) (own_err : Option CtxErr) (own : Option ℕ) (payload : Bytes)
    (stop : RawResponse → Bool) (p : Pool)
    → IsAlert p
    → IsAlert (submit cfg now own_err own payload stop p).1
unfolding submit enqueue allocate after_enqueue
submit-IsAlert cfg now (some e) own payload stop p w = w
submit-IsAlert cfg now none own payload stop p w =
    let q = allocate (new_request payload stop (deadline_of cfg now own)) p in
    let P = λ (r : Option Err × Pool). IsAlert (after_enqueue p r).1 in
    if-elim P p.closed (some closed, q) (none, pick_and_add cfg now p.next_request q) (λ _. w)
      (λ _. pick_and_add-IsAlert cfg now p.next_request q (IsAlert-same q refl w))

dialed-IsAwake : (m : MuxConn) → m.worker ≡ dialing → IsAwake m → IsAwake (dialed m)
unfolding dialed needs_wake
dialed-IsAwake m h w k = ground (arith, w)

awaken-IsAwake : (m : MuxConn) → IsAwake m → IsAwake (awaken m)
unfolding awaken needs_wake
awaken-IsAwake m w k = cc

Step-IsAlert : {cfg : Config} {p q : Pool} → Step cfg p q → IsAlert p → IsAlert q
unfolding collect give_up dial_failed dialed needs_wake
Step-IsAlert {cfg} {p} (submitted now own_err own payload stop) w =
    submit-IsAlert cfg now own_err own payload stop p w
Step-IsAlert {p = p} (collected i h fresh) w = modify_request-IsAlert i _ p w
Step-IsAlert {cfg} {p} (given_up now i e h fresh) w =
    give_up_at-IsAlert cfg now i e (p.requests i).state p w
Step-IsAlert {p = p} (dial_ended c h k) w =
    modify_conn-IsAlert c dialed p (dialed-IsAwake (p.connections c) k) w
Step-IsAlert {cfg} {p} (dial_broke now c e h k) w =
    ended-IsAlert c (fail cfg now c e false p) (fail-IsAlert cfg now c e false p w)
Step-IsAlert {p = p} (woken c k t) w =
    modify_conn-IsAlert c awaken p (awaken-IsAwake (p.connections c)) w
Step-IsAlert {p = p} (claimed c k) w = claim-IsAlert c p w
Step-IsAlert {cfg} {p} (flushed now c written e batch unexpected answers k h) w =
    finish_flush-IsAlert cfg now c batch written e p w
Step-IsAlert {cfg} {p} (received now c x h) w = receive-IsAlert cfg now c x p w
Step-IsAlert {p = p} shut w = close-IsAlert p w

Reach-IsAlert : {cfg : Config} {p : Pool} → Reach cfg p → IsAlert p
unfolding needs_wake
Reach-IsAlert start = record { awake = λ c k. cc }
Reach-IsAlert (later r runs st) = Step-IsAlert st (Reach-IsAlert r)

wanted :
    (m : MuxConn) → m.worker ≡ waiting → (m.pending ≢ []) ⊎ (m.closed ≡ true) → needs_wake m ≡ true
unfolding needs_wake
wanted m h w = ground arith

-- No wake-up is lost: in every state that the pool comes to, where the goroutine of a connection
-- waits and a request is queued there or the connection is closed, the channel holds its token, so
-- that the goroutine can go on.
pub Reach-wake :
    {cfg : Config} {p : Pool} (c : ℕ)
    → Reach cfg p
    → (p.connections c).worker ≡ waiting
    → ((p.connections c).pending ≢ []) ⊎ ((p.connections c).closed ≡ true)
    → (p.connections c).wake ≡ true
unfolding needs_wake
Reach-wake {p = p} c r waits work = (Reach-IsAlert r).awake c (wanted (p.connections c) waits work)

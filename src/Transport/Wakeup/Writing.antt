-- ===== src/Transport/Wakeup/Writing.antt =====
-- No goroutine waits in vain: callers, the writer and its flush.
use mathlib.Core.Path.{subst}
use go_memcache.Base.{
  ℕ, ◌+◌, ◌≡◌, refl, sym, ◌∙◌, if-elim, arith, true, false, not, ◌&&◌, List, [], ◌∷◌, ◌++◌, Option,
  none, some, if◌then◌else◌, length, ltb, take, ◌-◌, ◌≢◌, ◌==◌,
}
use go_memcache.Errors.{CtxErr, canceled, deadline_exceeded, context}
use go_memcache.Options.{Config}
use go_memcache.Transport.{
  MuxConn, Pool, RequestState, queued, writing, done, modify_request, modify_conn, modify_conn_self,
  complete, waiting, ended, Request,
}
use go_memcache.Transport.Connection.{arm_read_deadline, oldest_live}
use go_memcache.Transport.Teardown.{fail, expire, orphan, is_empty}
use go_memcache.Transport.Exchange.{leave_conn, give_up_at, gone, abandon_request}
use go_memcache.Transport.Writer.{claim_request, claim_all, start_flush, claim, set_worker}
use go_memcache.Transport.Flush.{
  cut_tail, put_on_wire, trim, Flushed, settle_one, settle_batch, mark_all,
}
use go_memcache.Transport.Wakeup.{
  needs_wake, IsAwake, IsAlert, IsAlert-same, modify_conn-IsAlert, fail-IsAlert,
}

pub arm-IsAlert : (c : ℕ) (p : Pool) → IsAlert p → IsAlert (arm_read_deadline c p)
unfolding arm_read_deadline needs_wake
arm-IsAlert c p w = modify_conn-IsAlert c _ p (λ h. h) w

pub leave_conn-IsAlert :
    (cfg : Config) (now : ℕ) (c : Option ℕ) (i : ℕ) (e : CtxErr) (p : Pool)
    → IsAlert p
    → IsAlert (leave_conn cfg now c i e p)
unfolding leave_conn expire orphan
leave_conn-IsAlert cfg now none i e p w = w
leave_conn-IsAlert cfg now (some c) i deadline_exceeded p w =
    let m = p.connections c in
    if-elim IsAlert (not m.closed && oldest_live p.requests i m.inflight)
      (fail cfg now c (context deadline_exceeded) true p) (arm_read_deadline c p)
      (λ _. fail-IsAlert cfg now c (context deadline_exceeded) true p w) (λ _. arm-IsAlert c p w)
leave_conn-IsAlert cfg now (some c) i canceled p w =
    if-elim IsAlert (not (p.connections c).closed) (arm_read_deadline c p) p
      (λ _. arm-IsAlert c p w) (λ _. w)

pub modify_request-IsAlert :
    (i : ℕ) (f : Request → Request) (p : Pool) → IsAlert p → IsAlert (modify_request i f p)
unfolding modify_request
modify_request-IsAlert i f p w = IsAlert-same (modify_request i f p) refl w

pub give_up_at-IsAlert :
    (cfg : Config) (now i : ℕ) (e : CtxErr) (s : RequestState) (p : Pool)
    → IsAlert p
    → IsAlert (give_up_at cfg now i e s p)
unfolding give_up_at
give_up_at-IsAlert cfg now i e queued p w = modify_request-IsAlert i _ p w
give_up_at-IsAlert cfg now i e writing p w =
    let r = p.requests i in
    let leave = abandon_request (gone (length r.payload) e) in
    leave_conn-IsAlert cfg now r.conn i e (modify_request i leave p)
      (modify_request-IsAlert i leave p w)
give_up_at-IsAlert cfg now i e done p w = modify_request-IsAlert i _ p w

pub ended-IsAlert : (c : ℕ) (p : Pool) → IsAlert p → IsAlert (modify_conn c (set_worker ended) p)
unfolding needs_wake
ended-IsAlert c p w = modify_conn-IsAlert c (set_worker ended) p (λ _ k. cc) w

pub claim_all-connections :
    (c : ℕ) (is : List ℕ) (p : Pool) → (claim_all c is p).1.connections ≡ p.connections
unfolding claim_all modify_request
claim_all-connections c [] p = refl
claim_all-connections c (i ∷ is) p =
    claim_all-connections c is (modify_request i (claim_request c) p)

pub clear_pending-IsAwake : (m : MuxConn) → IsAwake m → IsAwake (record m { pending = [] })
unfolding needs_wake
clear_pending-IsAwake m h k = ground (arith, h)

pub idle-IsAwake :
    (m : MuxConn) → m.closed ≡ false → m.pending ≡ [] → IsAwake (set_worker waiting m)
unfolding needs_wake
idle-IsAwake m h k l = ground arith

pub start_flush-IsAlert :
    (c : ℕ) (batch : List ℕ) (p : Pool) → IsAlert p → IsAlert (start_flush c batch p)
unfolding start_flush needs_wake
start_flush-IsAlert c batch p w =
    let m = p.connections c in
    let q = modify_conn c (λ m'. record m' { inflight = m'.inflight ++ batch }) p in
    let grown =
      modify_conn-IsAlert c (λ m'. record m' { inflight = m'.inflight ++ batch }) p (λ h. h) w in
    let armed = if is_empty m.inflight then arm_read_deadline c q else q in
    modify_conn-IsAlert c _ armed (λ _ k. cc)
      (if-elim IsAlert (is_empty m.inflight) (arm_read_deadline c q) q (λ _. arm-IsAlert c q grown)
        (λ _. grown))

pub claim-IsAlert : (c : ℕ) (p : Pool) → IsAlert p → IsAlert (claim c p)
unfolding claim
claim-IsAlert c p w =
    let m = p.connections c in
    let clear = λ (m' : MuxConn). record m' { pending = [] } in
    let s = modify_conn c clear p in
    let batch = (claim_all c m.pending s).0 in
    let q = (claim_all c m.pending s).1 in
    let same = claim_all-connections c m.pending s in
    let cleared = modify_conn-IsAlert c clear p (clear_pending-IsAwake m) w in
    let all : IsAlert q = IsAlert-same q same cleared in
    let mine : q.connections c ≡ clear m = rw same (modify_conn_self c clear p) in
    let over = modify_conn c (set_worker ended) p in
    let idle = modify_conn c (set_worker waiting) q in
    let busy = start_flush c batch q in
    if-elim IsAlert m.closed over (if is_empty batch then idle else busy) (λ _. ended-IsAlert c p w)
      (λ is_open.
        if-elim IsAlert (is_empty batch) idle busy
          (λ _.
            modify_conn-IsAlert c (set_worker waiting) q
              (λ _.
                subst (λ m'. IsAwake (set_worker waiting m')) (sym mine)
                  (idle-IsAwake (clear m) is_open refl))
              all)
          (λ _. start_flush-IsAlert c batch q all))

pub cut_tail-IsAlert : (c k : ℕ) (p : Pool) → IsAlert p → IsAlert (cut_tail c k p)
unfolding cut_tail needs_wake
cut_tail-IsAlert c k p w =
    let m = p.connections c in
    let cut = λ (m' : MuxConn). record m' { inflight = take (length m.inflight - k) m.inflight } in
    let broken = record p { panicked = true } in
    if-elim IsAlert (ltb (length m.inflight) k) broken (modify_conn c cut p)
      (λ _. IsAlert-same broken refl w) (λ _. modify_conn-IsAlert c cut p (λ h. h) w)

pub trim-IsAlert :
    (c written begin : ℕ) (batch : List ℕ) (p : Pool)
    → IsAlert p
    → IsAlert (trim c written begin batch p)
unfolding trim
trim-IsAlert c written begin [] p w = w
trim-IsAlert c written begin (i ∷ is) p w =
    let end = begin + length (p.requests i).payload in
    let k = length (i ∷ is) in
    let q = modify_request i put_on_wire p in
    if-elim IsAlert (ltb written end) (cut_tail c k p) (trim c written end is q)
      (λ _. cut_tail-IsAlert c k p w)
      (λ _. trim-IsAlert c written end is q (modify_request-IsAlert i put_on_wire p w))

pub mark_all-IsAlert : (batch : List ℕ) (p : Pool) → IsAlert p → IsAlert (mark_all batch p)
unfolding mark_all
mark_all-IsAlert [] p w = w
mark_all-IsAlert (i ∷ is) p w =
    mark_all-IsAlert is (modify_request i put_on_wire p) (modify_request-IsAlert i put_on_wire p w)

pub settle_one-connections :
    (f : Flushed) (begin end i : ℕ) (p : Pool)
    → (settle_one f begin end i p).1.connections ≡ p.connections
unfolding settle_one complete modify_request
settle_one-connections f begin end i p = ground arith

pub settle_batch-connections :
    (f : Flushed) (begin : ℕ) (batch : List ℕ) (p : Pool)
    → (settle_batch f begin batch p).1.connections ≡ p.connections
unfolding settle_batch
settle_batch-connections f begin [] p = refl
settle_batch-connections f begin (i ∷ is) p =
    let end = begin + length (p.requests i).payload in
    settle_batch-connections f end is (settle_one f begin end i p).1
    ∙ settle_one-connections f begin end i p

-- Every connection but one.
abbrev pub IsAlertBut : ℕ → Pool → Type 0
IsAlertBut c p = (d : ℕ) → c ≢ d → IsAwake (p.connections d)

pub modify_conn-IsAlertBut :
    (c : ℕ) (f : MuxConn → MuxConn) (p : Pool) → IsAlertBut c p → IsAlertBut c (modify_conn c f p)
unfolding modify_conn
modify_conn-IsAlertBut c f p w d h = let other : c == d ≡ false = ground arith in rw other (w d h)

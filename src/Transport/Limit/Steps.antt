-- ===== src/Transport/Limit/Steps.antt =====
-- The number of connections in every state of the pool.
use mathlib.Core.List.{foldl}
use mathlib.Core.Path.{subst}
use go_memcache.Base.{
  ℕ, ◌≤◌, refl, ap, sym, if-elim, arith, Bool, true, false, not, ◌&&◌, List, [], ◌∷◌, Option, none,
  some, if◌then◌else◌, length, is_some, Bytes,
}
use go_memcache.Errors.{
  Err, CtxErr, closed, canceled, deadline_exceeded, context, protocol, response_without_request,
}
use go_memcache.Types.{RawResponse}
use go_memcache.Options.{Config}
use go_memcache.Transport.{
  Pool, RequestState, queued, writing, done, new_request, modify_request, modify_conn, complete,
  foldl_inv,
}
use go_memcache.Transport.Connection.{arm_read_deadline, oldest_live}
use go_memcache.Transport.Pick.{detach, enqueue, pick_and_add}
use go_memcache.Transport.Teardown.{lose, down, blame, drained, fail, expire, orphan, drain, close}
use go_memcache.Transport.Exchange.{
  leave_conn, give_up_at, give_up, gone, abandon_request, submit, after_enqueue, allocate,
  deadline_of, collect,
}
use go_memcache.Transport.Writer.{claim, dialed, dial_failed, awaken}
use go_memcache.Transport.Flush.{
  trim, Flushed, settle_batch, mark_all, fail_if, flush_failed, finish_flush,
}
use go_memcache.Transport.Reader.{
  Received, got, broke, append_response, deliver, hand_over, receive,
}
use go_memcache.Transport.System.{
  Step, submitted, collected, given_up, dial_ended, dial_broke, woken, claimed, flushed, received,
  Reach, start, later,
}
use go_memcache.Transport.Limit.{IsWithin, pick_and_add-IsWithin, detach-IsWithin}
use go_memcache.Transport.Limit.Same.{
  IsWithin-same, claim-SameList, trim-SameList, mark_all-SameList, settle_batch-SameList,
  lose-SameList, complete-SameList, append-SameList, hand_over_part-SameList,
}

module _ (cfg : Config) (positive : 1 ≤ cfg.max_conns) where
  abbrev W : Bool → Pool → Type 0
  W = IsWithin cfg.max_conns

  fail-W :
      (now c : ℕ) (cause : Err) (head_saw b : Bool) (p : Pool)
      → W b p
      → W b (fail cfg now c cause head_saw p)
  unfolding fail modify_conn
  fail-W now c cause head_saw b p w =
      let m = p.connections c in
      let lost = lose (some cause) (blame head_saw m) in
      let q0 = modify_conn c (down cause head_saw) p in
      let q = foldl lost q0 m.inflight in
      if-elim (W b) m.closed p (detach cfg now (some c) m.pending (some cause) m.served q) (λ _. w)
        (λ _. detach-IsWithin cfg now b (some c) m.pending (some cause) m.served q positive (
          foldl_inv (W b) lost q0 m.inflight
            (λ s i. IsWithin-same (lost s i) (lose-SameList (some cause) (blame head_saw m) s i))
            (IsWithin-same q0 (refl, refl) w)))

  arm-W : (c : ℕ) (b : Bool) (p : Pool) → W b p → W b (arm_read_deadline c p)
  unfolding arm_read_deadline modify_conn
  arm-W c b p w = IsWithin-same (arm_read_deadline c p) (refl, refl) w

  leave_conn-W :
      (now : ℕ) (c : Option ℕ) (i : ℕ) (e : CtxErr) (b : Bool) (p : Pool)
      → W b p
      → W b (leave_conn cfg now c i e p)
  unfolding leave_conn expire orphan
  leave_conn-W now none i e b p w = w
  leave_conn-W now (some c) i deadline_exceeded b p w =
      let m = p.connections c in
      if-elim (W b) (not m.closed && oldest_live p.requests i m.inflight)
        (fail cfg now c (context deadline_exceeded) true p) (arm_read_deadline c p)
        (λ _. fail-W now c (context deadline_exceeded) true b p w) (λ _. arm-W c b p w)
  leave_conn-W now (some c) i canceled b p w =
      if-elim (W b) (not (p.connections c).closed) (arm_read_deadline c p) p (λ _. arm-W c b p w)
        (λ _. w)

  give_up_at-W :
      (now i : ℕ) (e : CtxErr) (s : RequestState) (b : Bool) (p : Pool)
      → W b p
      → W b (give_up_at cfg now i e s p)
  unfolding give_up_at modify_request
  give_up_at-W now i e queued b p w = IsWithin-same _ (refl, refl) w
  give_up_at-W now i e writing b p w =
      let r = p.requests i in
      let q = modify_request i (abandon_request (gone (length r.payload) e)) p in
      leave_conn-W now r.conn i e b q (IsWithin-same q (refl, refl) w)
  give_up_at-W now i e done b p w = IsWithin-same _ (refl, refl) w

  flush_failed-W :
      (now c : ℕ) (batch : List ℕ) (f : Flushed) (b : Bool) (p : Pool)
      → W b p
      → W b (flush_failed cfg now c batch f p)
  unfolding flush_failed fail_if
  flush_failed-W now c batch f b p w =
      let trimmed = trim c f.written 0 batch p in
      let q = if f.closed then p else trimmed in
      let s = (settle_batch f 0 batch q).1 in
      let before =
        if-elim (W b) f.closed p trimmed (λ _. w)
          (λ _. IsWithin-same trimmed (trim-SameList c f.written 0 batch p) w) in
      let settled = IsWithin-same s (settle_batch-SameList f 0 batch q) before in
      detach-IsWithin cfg now b none (settle_batch f 0 batch q).0 f.err f.served
        (fail_if cfg now c f.err s) positive (fail_if-W f.err s settled)
    where
      fail_if-W : (e : Option Err) (s : Pool) → W b s → W b (fail_if cfg now c e s)
      fail_if-W none s v = v
      fail_if-W (some e) s v = fail-W now c e false b s v

  finish_flush-W :
      (now c : ℕ) (batch : List ℕ) (written : ℕ) (e : Option Err) (b : Bool) (p : Pool)
      → W b p
      → W b (finish_flush cfg now c batch written e p)
  unfolding finish_flush modify_conn
  finish_flush-W now c batch written e b p w =
      let m = p.connections c in
      let f : Flushed = record {
        closed = m.closed;
        cause = m.cause;
        blamed = m.blamed;
        served = m.served;
        written = written;
        err = e;
      } in
      let marked = mark_all batch p in
      let failed = flush_failed cfg now c batch f p in
      IsWithin-same (finish_flush cfg now c batch written e p) (refl, refl)
        (if-elim (W b) (not (is_some e) && not m.closed) marked failed
          (λ _. IsWithin-same marked (mark_all-SameList batch p) w)
          (λ _. flush_failed-W now c batch f b p w))

  hand_over-W :
      (now c : ℕ) (x : RawResponse) (is : List ℕ) (b : Bool) (p : Pool)
      → W b p
      → W b (hand_over cfg now c x is p)
  unfolding hand_over
  hand_over-W now c x [] b p w = fail-W now c (protocol response_without_request) true b p w
  hand_over-W now c x (i ∷ rest) b p w =
      let q = modify_request i (append_response x) p in
      let last = deliver now c i rest q in
      if-elim (W b) (not ((p.requests i).stop x)) q last
        (λ _. IsWithin-same q (append-SameList i x p) w)
        (λ _. IsWithin-same last (hand_over_part-SameList now c i rest x p) w)

  receive-W : (now c : ℕ) (x : Received) (b : Bool) (p : Pool) → W b p → W b (receive cfg now c x p)
  unfolding receive
  receive-W now c (broke timeout e) b p w =
      fail-W now c (if timeout then context deadline_exceeded else e) true b p w
  receive-W now c (got x) b p w =
      let m = p.connections c in
      if-elim (W b) m.closed p (hand_over cfg now c x m.inflight p) (λ _. w)
        (λ _. hand_over-W now c x m.inflight b p w)

  drain-W : (b : Bool) (p : Pool) (c : ℕ) → W b p → W b (drain p c)
  unfolding drain modify_conn
  drain-W b p c w =
      let m = p.connections c in
      let q = modify_conn c drained p in
      let refuse = λ (s : Pool) (i : ℕ). complete i [] 0 (some closed) s in
      if-elim (W b) m.closed p (foldl refuse q m.pending) (λ _. w)
        (λ _.
          foldl_inv (W b) refuse q m.pending
            (λ s i. IsWithin-same (refuse s i) (complete-SameList i [] 0 (some closed) s))
            (IsWithin-same q (refl, refl) w))

  -- With the flag of the pool itself.
  abbrev V : Pool → Type 0
  V p = W p.closed p

  own : (b : Bool) (p : Pool) → W b p → V p
  own b p w = subst (λ x. W x p) (sym w.shut) w

  close-V : (p : Pool) → V p → V (close p)
  unfolding close
  close-V p w =
      let q = record p { closed = true; conns = [] } in
      if-elim V p.closed p (foldl drain q p.conns) (λ _. w)
        (λ _. own true (foldl drain q p.conns) (
          foldl_inv (W true) drain q p.conns (drain-W true)
            (record { few = omega arith; shut = refl; none_left = λ _. refl })))

  submit-V :
      (now : ℕ) (own_err : Option CtxErr) (ctx : Option ℕ) (payload : Bytes)
      (stop : RawResponse → Bool) (p : Pool)
      → V p
      → V (submit cfg now own_err ctx payload stop p).1
  unfolding submit enqueue allocate after_enqueue
  submit-V now (some e) ctx payload stop p w = w
  submit-V now none ctx payload stop p w =
      let q = allocate (new_request payload stop (deadline_of cfg now ctx)) p in
      let added = pick_and_add cfg now p.next_request q in
      let P = λ (r : Option Err × Pool). V (after_enqueue p r).1 in
      if-elim P p.closed (some closed, q) (none, added) (λ _. w)
        (λ is_open. own false added (
          pick_and_add-IsWithin cfg now p.next_request q positive
            (subst (λ x. W x q) is_open (IsWithin-same q (refl, refl) w))))

  Step-V : {p q : Pool} → Step cfg p q → V p → V q
  unfolding collect modify_request modify_conn dial_failed give_up
  Step-V {p} (submitted now own_err ctx payload stop) w = submit-V now own_err ctx payload stop p w
  Step-V {p} (collected i h fresh) w = IsWithin-same (collect i p) (refl, refl) w
  Step-V {p} (given_up now i e h fresh) w =
      own p.closed (give_up cfg now i e p) (give_up_at-W now i e (p.requests i).state p.closed p w)
  Step-V {p} (dial_ended c h k) w = IsWithin-same (modify_conn c dialed p) (refl, refl) w
  Step-V {p} (dial_broke now c e h k) w =
      let v = fail-W now c e false p.closed p w in
      own p.closed (dial_failed cfg now c e p)
        (IsWithin-same {p = fail cfg now c e false p} (dial_failed cfg now c e p) (refl, refl) v)
  Step-V {p} (woken c k t) w = IsWithin-same (modify_conn c awaken p) (refl, refl) w
  Step-V {p} (claimed c k) w =
      own p.closed (claim c p) (IsWithin-same (claim c p) (claim-SameList c p) w)
  Step-V {p} (flushed now c written e batch unexpected answers k h) w =
      own p.closed (finish_flush cfg now c batch written e p)
        (finish_flush-W now c batch written e p.closed p w)
  Step-V {p} (received now c x h) w =
      own p.closed (receive cfg now c x p) (receive-W now c x p.closed p w)
  Step-V {p} Step.shut w = close-V p w

  Reach-V : {p : Pool} → Reach cfg p → V p
  Reach-V start = record { few = omega arith; shut = refl; none_left = λ _. refl }
  Reach-V (later r runs st) = Step-V st (Reach-V r)

-- With a configuration that allows at least one connection, the pool of a client never holds more
-- connections than `maxConns`, in no state that it comes to; and once it is closed it holds none.
pub Reach-conns :
    {cfg : Config} {p : Pool}
    → 1 ≤ cfg.max_conns
    → Reach cfg p
    → length p.conns ≤ (if p.closed then 0 else cfg.max_conns)
Reach-conns {cfg} {p} positive r =
    let w = Reach-V cfg positive r in
    if-elim (λ n. length p.conns ≤ n) p.closed 0 cfg.max_conns
      (λ h. omega (arith, ap length (w.none_left h))) (λ _. w.few)

-- ===== src/Transport/Writer.antt =====
-- The goroutine of a connection in transport.go: `run` around the dial, and `writeLoop`.
use go_memcache.Base.{ℕ, true, false, List, [], ◌∷◌, ◌++◌, Option, none, some, ltb, if◌then◌else◌}
use go_memcache.Errors.{Err}
use go_memcache.Options.{Config}
use go_memcache.Transport.{
  writing, Request, Socket, Worker, waiting, claiming, ended, flushing, MuxConn, Pool,
  modify_request, modify_conn, is_queued,
}
use go_memcache.Transport.Connection.{arm_read_deadline}
use go_memcache.Transport.Teardown.{is_empty, fail}

abbrev pub set_worker : Worker → MuxConn → MuxConn
set_worker w m = record m { worker = w }

-- `run` behind a dial that failed.
unfoldable pub dial_failed : Config → ℕ → ℕ → Err → Pool → Pool
dial_failed cfg now c e p = modify_conn c (set_worker ended) (fail cfg now c e false p)

-- `run` behind a dial that succeeded, up to `writeLoop`.
unfoldable pub dialed : MuxConn → MuxConn
dialed m = if m.closed then set_worker ended m else record m {
  worker = waiting;
  socket = some (record { is_open = true; read_deadline = none; write_deadline = none });
}

-- `<-c.wake`, where the channel holds its token.
unfoldable pub awaken : MuxConn → MuxConn
awaken m = record m { worker = claiming; wake = false }

-- The connection is noted, and the state goes from queued to writing.
unfoldable pub claim_request : ℕ → Request → Request
unfolding is_queued
claim_request c r = record r {
  conn = some c;
  state = if is_queued r.state then writing else r.state;
}

-- The loop over what was queued: the batch, which is what the swap succeeded for.
unfoldable pub claim_all : ℕ → List ℕ → Pool → List ℕ × Pool
unfolding claim_request
claim_all c [] p = ([], p)
claim_all c (i ∷ is) p =
    let won = is_queued (p.requests i).state in
    let (batch, q) = claim_all c is (modify_request i (claim_request c) p) in
    (if won then i ∷ batch else batch, q)

abbrev pub earliest : Option ℕ → Option ℕ → Option ℕ
earliest best none = best
earliest none (some t) = some t
earliest (some s) (some t) = if ltb t s then some t else some s

-- The earliest deadline of a batch.
unfoldable pub earliest_deadline : (ℕ → Request) → List ℕ → Option ℕ → Option ℕ
earliest_deadline requests [] best = best
earliest_deadline requests (i ∷ is) best =
    earliest_deadline requests is (earliest best (requests i).deadline)

abbrev pub arm_write : Option ℕ → Option Socket → Option Socket
arm_write deadline none = none
arm_write deadline (some k) = some (record k { write_deadline = deadline })

-- A batch that is not empty goes in flight, and `flush` begins with the write deadline.
unfoldable pub start_flush : ℕ → List ℕ → Pool → Pool
unfolding earliest_deadline
start_flush c batch p =
    let m = p.connections c in
    let q = modify_conn c (λ m'. record m' { inflight = m'.inflight ++ batch }) p in
    let q' = if is_empty m.inflight then arm_read_deadline c q else q in
    modify_conn c
      (λ m'. record m' {
        worker = flushing batch;
        socket = arm_write (earliest_deadline p.requests batch none) m'.socket;
      })
      q'

-- The critical section of `writeLoop`.
unfoldable pub claim : ℕ → Pool → Pool
unfolding claim_all start_flush
claim c p =
    let m = p.connections c in
    let (batch, q) = claim_all c m.pending (modify_conn c (λ m'. record m' { pending = [] }) p) in
    if m.closed
    then modify_conn c (set_worker ended) p
    else if is_empty batch
    then modify_conn c (set_worker waiting) q
    else start_flush c batch q

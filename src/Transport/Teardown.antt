-- ===== src/Transport/Teardown.antt =====
-- How a connection of transport.go comes down: `teardownLocked`, `fail`, `expire`, `orphan`, `drain`,
-- and `close` of the pool.
use mathlib.Core.List.{foldl}
use go_memcache.Base.{
  ℕ, Bool, true, false, not, ◌&&◌, List, [], ◌∷◌, Option, none, some, ◌==◌, if◌then◌else◌, length,
}
use go_memcache.Errors.{
  Err, closed, connection_lost, connection_lost_nil, context, deadline_exceeded,
}
use go_memcache.Options.{Config}
use go_memcache.Transport.{MuxConn, Pool, modify_conn, complete}
use go_memcache.Transport.Connection.{
  signal, close_socket, retire_conn, arm_read_deadline, oldest_live,
}
use go_memcache.Transport.Pick.{detach}

unfoldable pub is_empty : List ℕ → Bool
is_empty [] = true
is_empty (i ∷ is) = false

unfoldable pub is_request : Option ℕ → ℕ → Bool
is_request none i = false
is_request (some j) i = i == j

-- The error of a request that was on the wire: the cause itself for the request that it was seen on.
unfoldable pub lost_error : Option Err → Option ℕ → ℕ → Err
unfolding is_request
lost_error none blamed i = connection_lost_nil
lost_error (some cause) blamed i = if is_request blamed i then cause else connection_lost cause

-- One round of the loop in `teardownLocked`.
unfoldable pub lose : Option Err → Option ℕ → Pool → ℕ → Pool
unfolding lost_error
lose cause blamed p i =
    let r = p.requests i in
    if not r.on_wire
    then p
    else complete i r.responses (length r.payload) (some (lost_error cause blamed i)) p

-- `c.blamed` after the teardown.
unfoldable pub blame : Bool → MuxConn → Option ℕ
blame false m = m.blamed
blame true m = elim m.inflight [ [] ↦ m.blamed | i ∷ is ↦ some i ]

-- What the critical section of `teardownLocked` leaves of an open connection.
unfoldable pub down : Err → Bool → MuxConn → MuxConn
unfolding blame signal
down cause head_saw m = signal (record m {
  closed = true;
  cause = some cause;
  blamed = blame head_saw m;
  socket = close_socket m.socket;
  inflight = [];
  pending = [];
})

-- `fail`, which is `teardownLocked`.
unfoldable pub fail : Config → ℕ → ℕ → Err → Bool → Pool → Pool
unfolding down lose
fail cfg now c cause head_saw p =
    let m = p.connections c in
    let q = modify_conn c (down cause head_saw) p in
    if m.closed
    then p
    else detach cfg now (some c) m.pending (some cause) m.served
        (foldl (lose (some cause) (blame head_saw m)) q m.inflight)

-- `expire`.
unfoldable pub expire : Config → ℕ → ℕ → ℕ → Pool → Pool
expire cfg now c i p =
    let m = p.connections c in
    if not m.closed && oldest_live p.requests i m.inflight
    then fail cfg now c (context deadline_exceeded) true p
    else arm_read_deadline c p

-- `orphan`.
unfoldable pub orphan : ℕ → Pool → Pool
orphan c p = if not (p.connections c).closed then arm_read_deadline c p else p

-- What the critical section of `drain` leaves of an open connection.
unfoldable pub drained : MuxConn → MuxConn
unfolding signal retire_conn is_empty
drained m =
    let m' = record m { pending = []; closing = true } in
    signal (if is_empty m.inflight then retire_conn m' else m')

-- `drain`.
unfoldable pub drain : Pool → ℕ → Pool
unfolding drained
drain p c =
    let m = p.connections c in
    let q = modify_conn c drained p in
    if m.closed then p else foldl (λ q' i. complete i [] 0 (some closed) q') q m.pending

-- `close`.
unfoldable pub close : Pool → Pool
unfolding drain
close p = if p.closed then p else foldl drain (record p { closed = true; conns = [] }) p.conns

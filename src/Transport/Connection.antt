-- ===== src/Transport/Connection.antt =====
-- The short methods of a connection in transport.go: `status`, `add`, `signal`, `newConn`, `retire`,
-- and `armReadDeadlineLocked` with `oldestLiveLocked`.
use go_memcache.Base.{
  ℕ, suc, ◌+◌, Bool, true, false, List, [], ◌∷◌, ◌++◌, Option, none, some, ◌==◌, if◌then◌else◌,
  length,
}
use go_memcache.Transport.{Request, Socket, dialing, MuxConn, Pool, update, modify_conn, is_done}

-- The load of `status`.
unfoldable pub load : MuxConn → ℕ
load m = length m.pending + length m.inflight

-- `c.conn.Close()`, where there is one.
abbrev pub close_socket : Option Socket → Option Socket
close_socket none = none
close_socket (some k) = some (record k { is_open = false })

unfoldable pub signal : MuxConn → MuxConn
signal m = record m { wake = true }

-- `add`.
unfoldable pub add : ℕ → ℕ → Pool → Pool
unfolding signal
add i c p = modify_conn c (λ m. signal (record m { pending = m.pending ++ i ∷ [] })) p

abbrev pub blank_conn : ℕ → MuxConn
blank_conn now = record {
  worker = dialing;
  wake = false;
  pending = [];
  inflight = [];
  socket = none;
  closed = false;
  cause = none;
  blamed = none;
  closing = false;
  served = false;
  last_active = now;
}

-- `newConn`, with the connection put at the end of the pool's.
unfoldable pub new_conn : ℕ → Pool → Pool
new_conn now p = record p {
  connections = update p.connections p.next_conn (blank_conn now);
  next_conn = suc p.next_conn;
  conns = p.conns ++ p.next_conn ∷ [];
}

-- `retire`.
unfoldable pub retire_conn : MuxConn → MuxConn
unfolding signal
retire_conn m =
    signal (if m.closed then m else record m { closed = true; socket = close_socket m.socket })

-- The deadline of the oldest request that is not settled.
unfoldable pub live_deadline : (ℕ → Request) → List ℕ → Option ℕ
unfolding is_done
live_deadline requests [] = none
live_deadline requests (i ∷ is) =
    let later = live_deadline requests is in
    if is_done (requests i).state then later else (requests i).deadline

abbrev pub arm_socket : Option ℕ → Option Socket → Option Socket
arm_socket deadline none = none
arm_socket deadline (some k) = some (record k { read_deadline = deadline })

-- `armReadDeadlineLocked`.
unfoldable pub arm_read_deadline : ℕ → Pool → Pool
unfolding live_deadline
arm_read_deadline c p =
    modify_conn c
      (λ m. record m { socket = arm_socket (live_deadline p.requests m.inflight) m.socket }) p

-- `oldestLiveLocked`, over the requests in flight.
unfoldable pub oldest_live : (ℕ → Request) → ℕ → List ℕ → Bool
unfolding is_done
oldest_live requests r [] = false
oldest_live requests r (i ∷ is) =
    let later = oldest_live requests r is in
    if i == r then true else if is_done (requests i).state then later else false

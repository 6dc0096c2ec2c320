-- ===== src/Transport/Reader.antt =====
-- `readLoop` of transport.go: one response, or the error that ends the loop.
use go_memcache.Base.{ℕ, Bool, true, not, ◌&&◌, List, [], ◌∷◌, ◌++◌, none, if◌then◌else◌, length}
use go_memcache.Errors.{Err, protocol, context, deadline_exceeded, response_without_request}
use go_memcache.Types.{RawResponse}
use go_memcache.Options.{Config}
use go_memcache.Transport.{Request, MuxConn, Pool, modify_request, modify_conn, complete}
use go_memcache.Transport.Connection.{signal, close_socket, arm_read_deadline}
use go_memcache.Transport.Teardown.{is_empty, fail}

-- What `readRawResponse` gives: a response, an unreadable flag in it included, or an error that is
-- no such flag, with whether `errors.Is` finds `os.ErrDeadlineExceeded` in it.
pub data Received : Type 0 where
  got : RawResponse → Received
  broke : Bool → Err → Received

unfoldable pub append_response : RawResponse → Request → Request
append_response x r = record r { responses = r.responses ++ x ∷ [] }

-- The oldest request leaves the connection.
unfoldable pub pop : ℕ → List ℕ → MuxConn → MuxConn
pop now rest m = record m { inflight = rest; served = true; last_active = now }

-- The last answer of a connection that the pool has let go.
unfoldable pub finish_conn : MuxConn → MuxConn
finish_conn m = record m { closed = true; socket = close_socket m.socket }

-- The response has satisfied the stop rule of the oldest request.
unfoldable pub deliver : ℕ → ℕ → ℕ → List ℕ → Pool → Pool
unfolding pop finish_conn signal
deliver now c i rest p =
    let r = p.requests i in
    let finished = (p.connections c).closing && is_empty rest in
    let q = arm_read_deadline c (modify_conn c (pop now rest) p) in
    let q' = if finished then modify_conn c finish_conn q else q in
    let q'' = complete i r.responses (length r.payload) none q' in
    if finished then modify_conn c signal q'' else q''

-- The response goes to the oldest request in flight.
unfoldable pub hand_over : Config → ℕ → ℕ → RawResponse → List ℕ → Pool → Pool
unfolding append_response deliver
hand_over cfg now c x [] p = fail cfg now c (protocol response_without_request) true p
hand_over cfg now c x (i ∷ rest) p =
    let q = modify_request i (append_response x) p in
    if not ((p.requests i).stop x) then q else deliver now c i rest q

-- One round of `readLoop`.
unfoldable pub receive : Config → ℕ → ℕ → Received → Pool → Pool
unfolding hand_over
receive cfg now c (broke timeout e) p =
    fail cfg now c (if timeout then context deadline_exceeded else e) true p
receive cfg now c (got x) p =
    let m = p.connections c in if m.closed then p else hand_over cfg now c x m.inflight p

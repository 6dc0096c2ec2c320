-- ===== src/Transport/Flush.antt =====
-- `flush` of transport.go behind its write, and `writeAll`.
use go_memcache.Base.{
  ℕ, ◌+◌, ◌-◌, Bool, true, false, not, ◌&&◌, List, [], ◌∷◌, ◌++◌, Option, none, some, Bytes, ltb,
  leb, is_some, ◌==◌, if◌then◌else◌, length, take,
}
use go_memcache.Errors.{Err}
use go_memcache.Options.{Config}
use go_memcache.Transport.{
  RequestState, queued, writing, Request, claiming, Pool, modify_request, modify_conn, complete,
}
use go_memcache.Transport.Pick.{detach}
use go_memcache.Transport.Teardown.{lost_error, fail}
use go_memcache.Transport.Writer.{set_worker}

-- `writeAll`, where `Write` gives these counts and errors in turn, and `written` of `size` bytes are
-- written already; `none` where a call of `Write` has not returned.
unfoldable pub write_all : Err → ℕ → ℕ → List (ℕ × Option Err) → Option (ℕ × Option Err)
write_all unexpected size written [] = if ltb written size then none else some (written, none)
write_all unexpected size written ((n, failure) ∷ answers) =
    let more = write_all unexpected size (written + n) answers in
    if not (ltb written size)
    then some (written, none)
    else if is_some failure
    then some (written + n, failure)
    else if n == 0
    then some (written, some unexpected)
    else more

-- The buffer of a flush.
unfoldable pub flush_buffer : (ℕ → Request) → List ℕ → Bytes
flush_buffer requests [] = []
flush_buffer requests (i ∷ is) = (requests i).payload ++ flush_buffer requests is

unfoldable pub put_on_wire : Request → Request
put_on_wire r = record r { on_wire = true }

-- `c.inflight[:len(c.inflight)-k]`, which panics where `k` is greater.
unfoldable pub cut_tail : ℕ → ℕ → Pool → Pool
cut_tail c k p =
    let m = p.connections c in
    if ltb (length m.inflight) k
    then record p { panicked = true }
    else modify_conn c (λ m'. record m' { inflight = take (length m.inflight - k) m.inflight }) p

-- The loop that marks what was written whole, and takes the rest out of the requests in flight.
unfoldable pub trim : ℕ → ℕ → ℕ → List ℕ → Pool → Pool
unfolding put_on_wire cut_tail
trim c written start [] p = p
trim c written start (i ∷ is) p =
    let end = start + length (p.requests i).payload in
    let rest = trim c written end is (modify_request i put_on_wire p) in
    if ltb written end then cut_tail c (length (i ∷ is)) p else rest

-- What a flush has read of its connection, with the result of its write.
pub record Flushed : Type 0 where
  pub closed : Bool
  pub cause : Option Err
  pub blamed : Option ℕ
  pub served : Bool
  pub written : ℕ
  pub err : Option Err

unfoldable pub is_writing : RequestState → Bool
is_writing writing = true
is_writing _ = false

unfoldable pub unclaim : Request → Request
unclaim r = record r { state = queued }

-- One round of the second loop, for a request whose bytes are those from `start` to `end`: whether
-- it is written again, and the pool.
unfoldable pub settle_one : Flushed → ℕ → ℕ → ℕ → Pool → Bool × Pool
unfolding lost_error is_writing unclaim
settle_one f start end i p =
    let r = p.requests i in
    if leb end f.written
    then (
      false,
      if f.closed
          then complete i r.responses (length r.payload) (some (lost_error f.cause f.blamed i)) p
          else p,
    )
    else if ltb start f.written
    then (false, complete i [] (f.written - start) f.err p)
    else if f.served && is_writing r.state
    then (true, modify_request i unclaim p)
    else (false, complete i [] 0 f.err p)

-- The second loop: the requests that are written again, and the pool.
unfoldable pub settle_batch : Flushed → ℕ → List ℕ → Pool → List ℕ × Pool
unfolding settle_one
settle_batch f start [] p = ([], p)
settle_batch f start (i ∷ is) p =
    let end = start + length (p.requests i).payload in
    let (again, q) = settle_one f start end i p in
    let (others, q') = settle_batch f end is q in (if again then i ∷ others else others, q')

unfoldable pub mark_all : List ℕ → Pool → Pool
unfolding put_on_wire
mark_all [] p = p
mark_all (i ∷ is) p = mark_all is (modify_request i put_on_wire p)

unfoldable pub fail_if : Config → ℕ → ℕ → Option Err → Pool → Pool
fail_if cfg now c none p = p
fail_if cfg now c (some e) p = fail cfg now c e false p

-- The rest of `flush` where the write failed or the connection was closed under it.
unfoldable pub flush_failed : Config → ℕ → ℕ → List ℕ → Flushed → Pool → Pool
unfolding trim settle_batch fail_if
flush_failed cfg now c batch f p =
    let q = if f.closed then p else trim c f.written 0 batch p in
    let (again, q') = settle_batch f 0 batch q in
    detach cfg now none again f.err f.served (fail_if cfg now c f.err q')

-- `flush` behind its write of `batch`, of which `written` bytes went out.
unfoldable pub finish_flush : Config → ℕ → ℕ → List ℕ → ℕ → Option Err → Pool → Pool
unfolding mark_all flush_failed
finish_flush cfg now c batch written err p =
    let m = p.connections c in
    let f : Flushed = record {
      closed = m.closed;
      cause = m.cause;
      blamed = m.blamed;
      served = m.served;
      written = written;
      err = err;
    } in
    modify_conn c (set_worker claiming) (
      if not (is_some err) && not m.closed
      then mark_all batch p
      else flush_failed cfg now c batch f p)

-- ===== src/Transport/System.antt =====
-- The pool of one server in transport.go as a system of callers, connection goroutines and readers
-- that go on in any order. A step is a function of the code from one wait to the next.
use go_memcache.Base.{
  ℕ, ◌<◌, ◌≡◌, Bool, true, false, List, [], Option, none, some, Bytes, is_some, length,
}
use go_memcache.Errors.{Err, CtxErr}
use go_memcache.Types.{RawResponse}
use go_memcache.Options.{Config}
use go_memcache.Transport.{new_request, dialing, waiting, claiming, flushing, Pool, modify_conn}
use go_memcache.Transport.Connection.{blank_conn}
use go_memcache.Transport.Teardown.{close}
use go_memcache.Transport.Exchange.{submit, collect, give_up}
use go_memcache.Transport.Writer.{dialed, dial_failed, awaken, claim}
use go_memcache.Transport.Flush.{write_all, flush_buffer, finish_flush}
use go_memcache.Transport.Reader.{Received, receive}

-- The pool that `New` makes.
abbrev pub empty_pool : Pool
empty_pool = record {
  requests = λ i. new_request [] (λ r. false) none;
  connections = λ c. blank_conn 0;
  next_request = 0;
  next_conn = 0;
  conns = [];
  closed = false;
  panicked = false;
}

-- `now` is the time at the step. A caller is numbered as its request.
pub data Step (cfg : Config) (p : Pool) : Pool → Type 0 where
  submitted :
      (now : ℕ) (own_err : Option CtxErr) (own : Option ℕ) (payload : Bytes)
      (stop : RawResponse → Bool)
      → Step cfg p (submit cfg now own_err own payload stop p).1
  collected :
      (i : ℕ)
      → 0 < (p.requests i).closings
      → (p.requests i).returned ≡ none
      → Step cfg p (collect i p)
  given_up :
      (now i : ℕ) (e : CtxErr)
      → i < p.next_request
      → (p.requests i).returned ≡ none
      → Step cfg p (give_up cfg now i e p)
  dial_ended :
      (c : ℕ)
      → c < p.next_conn
      → (p.connections c).worker ≡ dialing
      → Step cfg p (modify_conn c dialed p)
  dial_broke :
      (now c : ℕ) (e : Err)
      → c < p.next_conn
      → (p.connections c).worker ≡ dialing
      → Step cfg p (dial_failed cfg now c e p)
  woken :
      (c : ℕ)
      → (p.connections c).worker ≡ waiting
      → (p.connections c).wake ≡ true
      → Step cfg p (modify_conn c awaken p)
  claimed : (c : ℕ) → (p.connections c).worker ≡ claiming → Step cfg p (claim c p)
  flushed :
      (now c written : ℕ) (err : Option Err) (batch : List ℕ) (unexpected : Err)
      (answers : List (ℕ × Option Err))
      → (p.connections c).worker ≡ flushing batch
      → write_all unexpected (length (flush_buffer p.requests batch)) 0 answers
        ≡ some (written, err)
      → Step cfg p (finish_flush cfg now c batch written err p)
  received :
      (now c : ℕ) (x : Received)
      → is_some (p.connections c).socket ≡ true
      → Step cfg p (receive cfg now c x p)
  shut : Step cfg p (close p)

-- The states that the pool of a new client comes to. A panic ends the program.
pub data Reach (cfg : Config) : Pool → Type 0 where
  start : Reach cfg empty_pool
  later : {p q : Pool} → Reach cfg p → p.panicked ≡ false → Step cfg p q → Reach cfg q

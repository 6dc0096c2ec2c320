-- ===== src/Transport.antt =====
-- transport.go: the requests, the connections and the pool of one server. A pointer to a request or a
-- connection is its number in the pool's table; the world numbers them as they are made.
pub mod Connection
pub mod Pick
pub mod Teardown
pub mod Exchange
pub mod Writer
pub mod Flush
pub mod Reader
pub mod System
pub mod Moves
pub mod Settled
pub mod Limit
pub mod Wakeup
pub mod InOrder
pub mod Shares
pub mod Race
use go_memcache.Base.{
  ℕ, ◌+◌, ◌≡◌, arith, Bool, true, false, Bool-cases, inl, inr, List, [], ◌∷◌, ◌++◌, Option, none,
  some, Bytes, ◌==◌, if◌then◌else◌, length,
}
use mathlib.Core.List.{foldl}
use mathlib.Core.Path.{subst}
use go_memcache.Errors.{Err}
use go_memcache.Types.{RawResponse}

-- `requestQueued`, `requestWriting` and `requestDone`.
pub data RequestState : Type 0 where
  queued writing done : RequestState

-- What `exchange` returns: the responses, the bytes written and the error, `none` for nil.
pub record Outcome : Type 0 where
  pub responses : List RawResponse
  pub written : ℕ
  pub err : Option Err

-- `request`. `closings` counts how often the channel `done` was closed, and `returned` is what the
-- caller of `exchange` got, once it has returned.
pub record Request : Type 0 where
  pub payload : Bytes
  pub stop : RawResponse → Bool
  pub deadline : Option ℕ
  pub state : RequestState
  pub conn : Option ℕ
  pub on_wire : Bool
  pub responses : List RawResponse
  pub written : ℕ
  pub err : Option Err
  pub closings : ℕ
  pub returned : Option Outcome

-- The request that `exchange` makes.
abbrev pub new_request : Bytes → (RawResponse → Bool) → Option ℕ → Request
new_request payload stop deadline = record {
  payload = payload;
  stop = stop;
  deadline = deadline;
  state = queued;
  conn = none;
  on_wire = false;
  responses = [];
  written = 0;
  err = none;
  closings = 0;
  returned = none;
}

-- A `net.Conn`: whether it is open, and its deadlines; `none` is the zero time.
pub record Socket : Type 0 where
  pub is_open : Bool
  pub read_deadline : Option ℕ
  pub write_deadline : Option ℕ

-- Where the goroutine of a connection stands: in `run` before the dial has ended, at `<-c.wake`,
-- before the critical section of `writeLoop`, in `flush` with its batch, or at its end.
pub data Worker : Type 0 where
  dialing waiting claiming ended : Worker
  flushing : List ℕ → Worker

-- `muxConn`, without the write buffer that it keeps. `wake` says that the channel holds its token.
pub record MuxConn : Type 0 where
  pub worker : Worker
  pub wake : Bool
  pub pending : List ℕ
  pub inflight : List ℕ
  pub socket : Option Socket
  pub closed : Bool
  pub cause : Option Err
  pub blamed : Option ℕ
  pub closing : Bool
  pub served : Bool
  pub last_active : ℕ

-- `serverPool` with the tables behind its pointers. `panicked` says that an index was out of range.
pub record Pool : Type 0 where
  pub requests : ℕ → Request
  pub connections : ℕ → MuxConn
  pub next_request : ℕ
  pub next_conn : ℕ
  pub conns : List ℕ
  pub closed : Bool
  pub panicked : Bool

abbrev pub update {ℓ} : {A : Type ℓ} → (ℕ → A) → ℕ → A → ℕ → A
update f i a j = if i == j then a else f j

pub update_self {ℓ} : {A : Type ℓ} (f : ℕ → A) (i : ℕ) (a : A) → update f i a i ≡ a
update_self f i a = ground arith

-- What holds of the new value and of all the old ones.
pub update-elim {ℓ κ} :
    {A : Type ℓ} (P : ℕ → A → Type κ) (f : ℕ → A) (i : ℕ) (a : A)
    → P i a
    → ((j : ℕ) → P j (f j))
    → (j : ℕ) → P j (update f i a j)
update-elim P f i a new old j = elim (Bool-cases (i == j)) [
  | inl e ↦ let same : i ≡ j = ground arith in rw e (subst (λ k. P k a) same new)
  | inr e ↦ rw e (old j)
]

unfoldable pub modify_request : ℕ → (Request → Request) → Pool → Pool
modify_request i f p = record p { requests = update p.requests i (f (p.requests i)) }

pub modify_request_self :
    (i : ℕ) (f : Request → Request) (p : Pool)
    → (modify_request i f p).requests i ≡ f (p.requests i)
unfolding modify_request
modify_request_self i f p = ground arith

unfoldable pub modify_conn : ℕ → (MuxConn → MuxConn) → Pool → Pool
modify_conn c f p = record p { connections = update p.connections c (f (p.connections c)) }

pub modify_conn_self :
    (c : ℕ) (f : MuxConn → MuxConn) (p : Pool)
    → (modify_conn c f p).connections c ≡ f (p.connections c)
unfolding modify_conn
modify_conn_self c f p = ground arith

unfoldable pub is_queued : RequestState → Bool
is_queued queued = true
is_queued _ = false

unfoldable pub is_done : RequestState → Bool
is_done done = true
is_done _ = false

-- `complete` on the request itself: nothing is settled twice.
unfoldable pub complete_request : List RawResponse → ℕ → Option Err → Request → Request
unfolding is_done
complete_request responses written err r = if is_done r.state then r else record r {
  state = done;
  responses = responses;
  written = written;
  err = err;
  closings = r.closings + 1;
}

-- `complete`.
unfoldable pub complete : ℕ → List RawResponse → ℕ → Option Err → Pool → Pool
complete i responses written err p = modify_request i (complete_request responses written err) p

-- What a loop keeps.
pub foldl_inv {ℓ κ μ} :
    {S : Type ℓ} {A : Type κ} (P : S → Type μ) (f : S → A → S) (s : S) (xs : List A)
    → ((t : S) (a : A) → P t → P (f t a))
    → P s
    → P (foldl f s xs)
foldl_inv P f s [] step h = h
foldl_inv P f s (a ∷ xs) step h = foldl_inv P f (f s a) xs step (step s a h)

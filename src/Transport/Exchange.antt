-- ===== src/Transport/Exchange.antt =====
-- `exchange` of transport.go: how a request comes in, and the three ways in which its caller leaves.
use go_memcache.Base.{ℕ, suc, ◌+◌, Bool, [], Option, none, some, Bytes, ltb, if◌then◌else◌, length}
use go_memcache.Base.Int.{is_positive}
use go_memcache.Errors.{Err, CtxErr, canceled, deadline_exceeded, context}
use go_memcache.Types.{RawResponse}
use go_memcache.Options.{Config}
use go_memcache.Transport.{
  RequestState, queued, writing, done, Outcome, Request, new_request, Pool, update, modify_request,
}
use go_memcache.Transport.Pick.{nanoseconds, enqueue}
use go_memcache.Transport.Teardown.{expire, orphan}

abbrev pub earlier : Option ℕ → ℕ → ℕ
earlier none t = t
earlier (some s) t = if ltb s t then s else t

-- The deadline of the context, bounded by the timeout of the configuration if it has one.
unfoldable pub deadline_of : Config → ℕ → Option ℕ → Option ℕ
unfolding nanoseconds
deadline_of cfg now own =
    if is_positive cfg.io_timeout
    then some (earlier own (now + nanoseconds cfg.io_timeout))
    else own

-- The pool with one more request in its table.
unfoldable pub allocate : Request → Pool → Pool
allocate r p = record p {
  requests = update p.requests p.next_request r;
  next_request = suc p.next_request;
}

unfoldable pub refused : Err → Outcome
refused e = record { responses = []; written = 0; err = some e }

-- `if err = p.enqueue(r); err != nil { return nil, 0, err }`.
unfoldable pub after_enqueue : Pool → Option Err × Pool → Option Outcome × Pool
unfolding refused
after_enqueue p (none, q) = (none, q)
after_enqueue p (some e, q) = (some (refused e), p)

-- `exchange` up to its `select`: an outcome if it returns at once, or `none` if it waits. A request
-- that was refused is forgotten.
unfoldable pub submit :
    Config
    → ℕ
    → Option CtxErr
    → Option ℕ
    → Bytes
    → (RawResponse → Bool)
    → Pool
    → Option Outcome × Pool
unfolding deadline_of allocate after_enqueue
submit cfg now (some e) own payload stop p = (some (refused (context e)), p)
submit cfg now none own payload stop p =
    let r = new_request payload stop (deadline_of cfg now own) in
    after_enqueue p (enqueue cfg now p.next_request (allocate r p))

-- The caller leaves with an outcome of its own.
unfoldable pub abandon_request : Outcome → Request → Request
abandon_request o r = record r { state = done; returned = some o }

-- The caller leaves with the outcome that another party has set.
unfoldable pub return_request : Request → Request
return_request r = record r {
  returned = some (record { responses = r.responses; written = r.written; err = r.err });
}

-- The branch `<-r.done`.
unfoldable pub collect : ℕ → Pool → Pool
unfolding return_request
collect i p = modify_request i return_request p

-- What the caller tells the connection that holds its request.
unfoldable pub leave_conn : Config → ℕ → Option ℕ → ℕ → CtxErr → Pool → Pool
leave_conn cfg now none i e p = p
leave_conn cfg now (some c) i deadline_exceeded p = expire cfg now c i p
leave_conn cfg now (some c) i canceled p = orphan c p

-- The outcome of a caller that leaves when `written` bytes may have gone out.
abbrev pub gone : ℕ → CtxErr → Outcome
gone written e = record { responses = []; written = written; err = some (context e) }

unfoldable pub give_up_at : Config → ℕ → ℕ → CtxErr → RequestState → Pool → Pool
unfolding leave_conn collect
give_up_at cfg now i e queued p = modify_request i (abandon_request (gone 0 e)) p
give_up_at cfg now i e writing p =
    let r = p.requests i in
    leave_conn cfg now r.conn i e (modify_request i (abandon_request (gone (length r.payload) e)) p)
give_up_at cfg now i e done p = collect i p

-- The branch `<-ctx.Done()`, at one state of the request: the source's two swaps, between which a
-- flush may queue the request again, are one here.
unfoldable pub give_up : Config → ℕ → ℕ → CtxErr → Pool → Pool
unfolding give_up_at
give_up cfg now i e p = give_up_at cfg now i e (p.requests i).state p

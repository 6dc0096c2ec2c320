-- ===== src/Tests/Transport.antt =====
-- The pool of connections at concrete inputs.
use mathlib.Core.List.{foldl}
use go_memcache.Base.{
  ℕ, ◌≤◌, ◌≡◌, refl, arith, true, false, [], ◌∷◌, none, some, inl, codes, length, if◌then◌else◌,
  ltb,
}
use go_memcache.Errors.{canceled}
use go_memcache.Types.{ResponseCode, empty_response}
use go_memcache.Options.{Config}
use go_memcache.Transport.{
  queued, writing, done, Request, new_request, Socket, waiting, flushing, MuxConn, Pool,
  modify_conn,
}
use go_memcache.Transport.Connection.{blank_conn, add}
use go_memcache.Transport.Teardown.{close}
use go_memcache.Transport.Exchange.{submit, give_up}
use go_memcache.Transport.Writer.{dialed}
use go_memcache.Transport.Flush.{Flushed, flush_buffer, settle_batch, trim}
use go_memcache.Transport.System.{
  empty_pool, Reach, start, later, submitted, given_up, dial_ended, shut,
}
use go_memcache.Transport.Settled.{Phase, Reach-Phase}
use go_memcache.Transport.Settled.Final.{IsFinal, Step-IsFinal}
use go_memcache.Transport.Limit.Steps.{Reach-conns}
use go_memcache.Transport.Wakeup.Steps.{Reach-wake}
use go_memcache.Transport.InOrder.{read, IsServing, served, in_order}
use go_memcache.Transport.Shares.{holds, Share, settle_batch-Share}
use go_memcache.Transport.Race.{trim-panicked}
use go_memcache.Tests.Fixtures.{client, broken}

abbrev cfg : Config
cfg = client.config

-- One request is queued on a connection that is being dialed.
abbrev submitted_pool : Pool
submitted_pool = (submit cfg 5 none none (codes "mn\r\n") (λ r. true) empty_pool).1

abbrev submitted_reach : Reach cfg submitted_pool
submitted_reach = later start refl (submitted 5 none none (codes "mn\r\n") (λ r. true))

Reach-Phase_example : Phase (submitted_pool.requests 0)
Reach-Phase_example = Reach-Phase submitted_reach 0

Reach-conns_example : length submitted_pool.conns ≤ (if submitted_pool.closed then 0 else 1)
unfolding go_memcache.Options.default_config
Reach-conns_example = Reach-conns (omega arith) submitted_reach

abbrev dialed_pool : Pool
dialed_pool = modify_conn 0 dialed submitted_pool

Reach-wake_example : (dialed_pool.connections 0).wake ≡ true
unfolding submit go_memcache.Transport.Pick.enqueue go_memcache.Transport.Pick.pick_and_add
    go_memcache.Transport.Pick.pick_locked go_memcache.Transport.Connection.new_conn add modify_conn
    dialed
Reach-wake_example =
    Reach-wake 0 (later submitted_reach refl (dial_ended 0 (omega arith) refl)) refl (inl (λ e. cc))

abbrev left_pool : Pool
left_pool = give_up cfg 6 0 canceled submitted_pool

Step-IsFinal_example : IsFinal (left_pool.requests 0) ((close left_pool).requests 0)
unfolding submit go_memcache.Transport.Pick.enqueue go_memcache.Transport.Pick.pick_and_add
    go_memcache.Transport.Pick.pick_locked go_memcache.Transport.Connection.new_conn add modify_conn
    give_up go_memcache.Transport.modify_request go_memcache.Transport.Exchange.abandon_request
Step-IsFinal_example =
    Step-IsFinal (later submitted_reach refl (given_up 6 0 canceled (omega arith) refl)) shut
      (omega arith) refl

-- Two requests are in flight, of which the caller of the first has left.
abbrev serving_pool : Pool
serving_pool = record empty_pool {
  requests = λ i. record (new_request (codes "mg k\r\n") (λ r. true) none) {
    state = if ltb i 1 then done else writing;
  };
  connections = λ c. record (blank_conn 0) { worker = waiting; inflight = 0 ∷ 1 ∷ [] };
  next_request = 2;
  next_conn = 1;
  conns = 0 ∷ [];
}

in_order_example :
    IsServing
      ((foldl (read cfg 0) serving_pool (
          (7, empty_response ResponseCode.miss)
          ∷ (8, empty_response ResponseCode.header)
          ∷ [])).connections
        0)
      []
    × ((j : ℕ)
        → (foldl (read cfg 0) serving_pool (
              (7, empty_response ResponseCode.miss)
              ∷ (8, empty_response ResponseCode.header)
              ∷ [])).requests
            j
          ≡ served
              ((0, (7, empty_response ResponseCode.miss) ∷ [])
                ∷ (1, (8, empty_response ResponseCode.header) ∷ [])
                ∷ [])
              j
              (serving_pool.requests j))
in_order_example =
    in_order cfg 0
      ((0, (7, empty_response ResponseCode.miss) ∷ [])
        ∷ (1, (8, empty_response ResponseCode.header) ∷ [])
        ∷ [])
      [] serving_pool (record { up = refl; kept = refl; inflight = refl })
      (((λ e. omega (arith, e)), tt), (tt, tt)) (refl, (refl, tt))

-- Six bytes of a batch of two requests went out, and two of the second.
abbrev torn_flush : Flushed
torn_flush = record {
  closed = false;
  cause = none;
  blamed = none;
  served = true;
  written = 8;
  err = some broken;
}

settle_batch-Share_example :
    Share torn_flush 6
      (serving_pool.requests 1)
      ((settle_batch torn_flush 0 (0 ∷ 1 ∷ []) serving_pool).1.requests 1)
      (holds 1 (settle_batch torn_flush 0 (0 ∷ 1 ∷ []) serving_pool).0)
unfolding flush_buffer
settle_batch-Share_example =
    settle_batch-Share torn_flush (0 ∷ []) 1 [] serving_pool refl
      (((λ e. omega (arith, e)), tt), (tt, tt))

-- The only request in flight is answered, and four of its bytes went out.
trim-panicked_example :
    (trim 1 4 0 (0 ∷ []) (record serving_pool { connections = λ c. blank_conn 0 })).panicked ≡ true
unfolding flush_buffer
trim-panicked_example =
    trim-panicked 1 4 [] 0 [] (record serving_pool { connections = λ c. blank_conn 0 })
      (omega arith) (omega arith)

abbrev closed_pool : Pool
closed_pool = record serving_pool { connections = λ c. record (blank_conn 0) { closed = true } }

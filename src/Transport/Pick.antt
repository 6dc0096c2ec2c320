-- ===== src/Transport/Pick.antt =====
-- `pickLocked`, `enqueue` and `detach` of transport.go: which connection a request is queued on.
use mathlib.Core.List.{foldl}
use go_memcache.Base.{
  ℕ, ◌+◌, Bool, false, not, ◌&&◌, List, [], ◌∷◌, ◌++◌, Option, none, some, ltb, ◌==◌, if◌then◌else◌,
  length,
}
use go_memcache.Base.Int.{pos, is_positive}
use go_memcache.Errors.{Err, closed}
use go_memcache.Options.{Config, Duration}
use go_memcache.Transport.{MuxConn, Pool, modify_conn, is_queued, complete}
use go_memcache.Transport.Connection.{load, add, new_conn, retire_conn}

-- A duration that is not negative, in nanoseconds.
unfoldable pub nanoseconds : Duration → ℕ
nanoseconds (pos n) = n
nanoseconds _ = 0

-- A connection without load that has been idle for longer than the timeout.
unfoldable pub is_idle : Config → ℕ → MuxConn → Bool
unfolding load nanoseconds
is_idle cfg now m =
    load m == 0
    && (is_positive cfg.idle_timeout && ltb (m.last_active + nanoseconds cfg.idle_timeout) now)

-- The variables of the loop: `kept`, and `best` with `bestLoad`.
pub record Scan : Type 0 where
  pub kept : List ℕ
  pub best : Option (ℕ × ℕ)
  pub pool : Pool

unfoldable pub better : Option (ℕ × ℕ) → ℕ → ℕ → Option (ℕ × ℕ)
better none c size = some (c, size)
better (some (b, least)) c size = if ltb size least then some (c, size) else some (b, least)

-- One round of the loop over the connections.
unfoldable pub visit : Config → ℕ → Scan → ℕ → Scan
unfolding is_idle better
visit cfg now s c =
    let m = s.pool.connections c in
    if m.closed
    then s
    else if is_idle cfg now m
    then record s { pool = modify_conn c retire_conn s.pool }
    else record s { kept = s.kept ++ c ∷ []; best = better s.best c (load m) }

unfoldable pub choose_conn : Config → ℕ → Option (ℕ × ℕ) → Pool → ℕ × Pool
choose_conn cfg now none p = (p.next_conn, new_conn now p)
choose_conn cfg now (some (c, size)) p =
    if ltb 0 size && ltb (length p.conns) cfg.max_conns
    then (p.next_conn, new_conn now p)
    else (c, p)

-- The whole loop.
unfoldable pub scan : Config → ℕ → Pool → Scan
unfolding visit
scan cfg now p = foldl (visit cfg now) (record { kept = []; best = none; pool = p }) p.conns

-- `pickLocked`, at the moment `now`: the connection, and the pool with what the loop has changed.
unfoldable pub pick_locked : Config → ℕ → Pool → ℕ × Pool
unfolding scan choose_conn
pick_locked cfg now p =
    let s = scan cfg now p in choose_conn cfg now s.best (record s.pool { conns = s.kept })

-- `p.pickLocked().add(r)`.
unfoldable pub pick_and_add : Config → ℕ → ℕ → Pool → Pool
pick_and_add cfg now i p = let (c, p') = pick_locked cfg now p in add i c p'

-- `enqueue`.
unfoldable pub enqueue : Config → ℕ → ℕ → Pool → Option Err × Pool
enqueue cfg now i p = if p.closed then (some closed, p) else (none, pick_and_add cfg now i p)

-- One round of the loop in `detach`: only a request that is still queued is moved or settled.
unfoldable pub rehome : Config → ℕ → Bool → Option Err → Pool → ℕ → Pool
unfolding is_queued
rehome cfg now requeue cause p i =
    if not (is_queued (p.requests i).state)
    then p
    else if requeue
    then pick_and_add cfg now i p
    else complete i [] 0 cause p

-- The pool's connections without the first that is `c`.
unfoldable pub forget : ℕ → List ℕ → List ℕ
forget c [] = []
forget c (d ∷ ds) = if d == c then ds else d ∷ forget c ds

unfoldable pub forget_option : Option ℕ → List ℕ → List ℕ
unfolding forget
forget_option none ds = ds
forget_option (some c) ds = forget c ds

-- `detach`, at the moment `now`.
unfoldable pub detach : Config → ℕ → Option ℕ → List ℕ → Option Err → Bool → Pool → Pool
unfolding rehome forget_option
detach cfg now c pending cause requeue p =
    let q = record p { conns = forget_option c p.conns } in
    if p.closed
    then foldl (rehome cfg now false (some closed)) q pending
    else foldl (rehome cfg now requeue cause) q pending

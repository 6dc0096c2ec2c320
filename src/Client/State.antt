-- ===== src/Client/State.antt =====
-- What the verbs run on: the connection pools behind an interface, the errors that reached the
-- OnError hook, and the goroutines that were started.
use go_memcache.Base.{ℕ, Bool, List, [], ◌∷◌, ◌++◌, Option, none, some, Bytes}
use go_memcache.Errors.{Err, CtxErr, Result, ok, err}
use go_memcache.Types.{Seconds, RawResponse, MetaDeleteOptions}

-- The caller's context, or the client's own.
pub data Ctx : Type 0 where
  caller root : Ctx

-- What `serverPool.exchange` returns. With a nil error there is a response: the stop rule is only
-- asked about a response that was just added.
pub data Exchange : Type 0 where
  answered : RawResponse → List RawResponse → ℕ → Exchange
  failed : List RawResponse → ℕ → Err → Exchange

-- The connection pools and the clock, over the states `W` of the world.
pub record Network (W : Type 0) : Type 0 where
  pub exchange : ℕ → Ctx → Bytes → (RawResponse → Bool) → W → Exchange × W
  pub ctx_err : W → Option CtxErr
  pub now : W → ℕ

-- A goroutine: the body of `returnStaleWin`, or of `spawnRefresh`.
pub data Task : Type 0 where
  return_election : Bytes → MetaDeleteOptions → Task
  refresh : Bytes → ℕ → Seconds → Task

pub record State (W : Type 0) : Type 0 where
  pub world : W
  pub reported : List Err
  pub spawned : List Task

-- A method that may fail, and that leaves what it did in the state when it does.
abbrev pub Action : Type 0 → Type 0 → Type 0
Action W A = State W → Result A × State W

abbrev pub next : {W A B : Type 0} → Result A → (A → Action W B) → Action W B
next (ok a) f s = f a s
next (err e) f s = (err e, s)

infixl 5 ◌>>=◌ ◌>>◌
abbrev pub ◌>>=◌ : {W A B : Type 0} → Action W A → (A → Action W B) → Action W B
◌>>=◌ m f s = next (m s).0 f (m s).1

abbrev pub ◌>>◌ : {W B : Type 0} → Action W (Unit {0}) → Action W B → Action W B
m >> k = m >>= λ _. k

abbrev pub done : {W A : Type 0} → A → Action W A
done a s = (ok a, s)

abbrev pub raise : {W A : Type 0} → Err → Action W A
raise e s = (err e, s)

abbrev pub lift : {W A : Type 0} → Result A → Action W A
lift r s = (r, s)

-- A value with the error that Go returns beside it.
abbrev pub lift_pair : {W A : Type 0} → A × Option Err → Action W A
lift_pair (a, none) s = (ok a, s)
lift_pair (a, some e) s = (err e, s)

abbrev pub spawn : {W : Type 0} → Task → Action W (Unit {0})
spawn t s = (ok tt, record s { spawned = s.spawned ++ t ∷ [] })

-- Goes on with the value, or with the error.
abbrev pub choose : {W A B : Type 0} → Result A → (A → Action W B) → (Err → Action W B) → Action W B
choose (ok a) f g s = f a s
choose (err e) f g s = g e s

abbrev pub handle :
    {W A B : Type 0} → Action W A → (A → Action W B) → (Err → Action W B) → Action W B
handle m f g s = choose (m s).0 f g (m s).1

-- The time, which the world shows.
abbrev pub clock : {W : Type 0} → Network W → Action W ℕ
clock net s = (ok (net.now s.world), s)

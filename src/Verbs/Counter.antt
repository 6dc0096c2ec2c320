-- ===== src/Verbs/Counter.antt =====
-- counter.go.
pub mod Forever
use go_memcache.Base.{ℕ, Bool, true, false, none, some, [], Bytes, if◌then◌else◌}
use go_memcache.Errors.{plain, counter_not_updated}
use go_memcache.Types.{Seconds, MetaArithmeticOptions}
use go_memcache.Options.{Duration, resolve_ttl}
use go_memcache.Command.Arithmetic.{build_arithmetic, semantic_arithmetic}
use go_memcache.Client.{Client}
use go_memcache.Client.State.{caller, Network, Action, ◌>>=◌, done, raise, lift, lift_pair, clock}
use go_memcache.Client.Execute.{execute_meta}

-- The options of `counter`: a miss is created at the delta, or at zero for a decrement.
unfoldable pub counter_options : ℕ → Bool → Seconds → MetaArithmeticOptions
counter_options delta decrement expiration = record {
  delta = delta;
  decrement = decrement;
  initial = some (if decrement then 0 else delta);
  initial_ttl = some expiration;
  touch = none;
  compare_cas = none;
  set_cas = none;
  metadata_only = false;
  return_ttl = false;
  return_cas = false;
  return_key = false;
  opaque = [];
}

-- `counter`.
unfoldable pub counter :
    {W : Type 0} → Network W → Client → Bytes → ℕ → Bool → Duration → Action W ℕ
unfolding counter_options
counter net c key delta decrement ttl = do
  now ← clock net
  expiration ← lift (resolve_ttl now ttl)
  let options = counter_options delta decrement expiration
  command ← lift (build_arithmetic key options)
  wire ← execute_meta net c caller command
  result ← lift_pair (semantic_arithmetic key options wire)
  if result.has_value then done result.value else raise (plain counter_not_updated)

abbrev pub incr : {W : Type 0} → Network W → Client → Bytes → ℕ → Duration → Action W ℕ
incr net c key delta = counter net c key delta false

abbrev pub decr : {W : Type 0} → Network W → Client → Bytes → ℕ → Duration → Action W ℕ
decr net c key delta = counter net c key delta true

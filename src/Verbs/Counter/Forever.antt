-- ===== src/Verbs/Counter/Forever.antt =====
-- What the counter verbs do with the TTL `Forever`.
use go_memcache.Base.{ℕ, Bool, ◌≡◌, refl, Bytes}
use go_memcache.Base.Int.{pos}
use go_memcache.Errors.{plain, err, initial_ttl_not_positive}
use go_memcache.Types.Expiration.{expires_in}
use go_memcache.Options.{resolve_ttl}
use go_memcache.Command.Flags.{not_positive}
use go_memcache.Command.Arithmetic.{build_arithmetic}
use go_memcache.Client.{Client}
use go_memcache.Client.State.{Network, State}
use go_memcache.Verbs.Counter.{counter_options, counter}

-- An increment or decrement with the TTL `Forever` fails before anything is sent, whatever its key
-- and delta.
pub counter_forever :
    {W : Type 0} (net : Network W) (c : Client) (key : Bytes) (delta : ℕ) (decrement : Bool)
    (s : State W)
    → counter net c key delta decrement (pos 0) s ≡ (err (plain initial_ttl_not_positive), s)
unfolding counter resolve_ttl build_arithmetic expires_in not_positive counter_options
    mathlib.Core.Bool.xor
counter_forever net c key delta decrement s = refl

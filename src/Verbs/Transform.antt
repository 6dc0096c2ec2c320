-- ===== src/Verbs/Transform.antt =====
-- The closure that `Update` of update.go hands to `update`.
use go_memcache.Base.{Option, none, some, Bytes}
use go_memcache.Errors.{Result, ok, ◌>>=◌}
use go_memcache.Codec.{Codec, Payload, Target, encode, decode}

pub decode_current : {V : Type 0} → Codec V → Target → Option Bytes → Result (Option (Payload V))
decode_current codec target none = ok none
decode_current codec target (some b) = do v ← decode codec target b; ok (some v)

-- Decodes the current value, applies `fn` and encodes; the second part is what the closure stores
-- in its captured variable.
unfoldable pub typed_transform :
    {V : Type 0}
    → Codec V
    → Target
    → (Option (Payload V) → Result (Payload V))
    → Option Bytes
    → Result (Bytes × Payload V)
unfolding decode_current
typed_transform codec target fn current = do
  value ← decode_current codec target current
  next ← fn value
  bytes ← encode codec next
  ok (bytes, next)

-- ===== src/Codec.antt =====
-- codec.go. A value of the object verbs is raw bytes, or an object for the codec, which is a
-- parameter: `Marshal` and `Unmarshal` are code outside the package.
use go_memcache.Base.{Bytes}
use go_memcache.Errors.{wrapped, encoding_value, decoding_value, Result, ok, err}

pub record Codec (V : Type 0) : Type 0 where
  pub marshal : V → Result Bytes
  pub unmarshal : Bytes → Result V

pub data Payload (V : Type 0) : Type 0 where
  raw : Bytes → Payload V
  object : V → Payload V

-- The type argument of a read: `[]byte`, or any other.
pub data Target : Type 0 where
  bytes any_type : Target

pub encoded : Result Bytes → Result Bytes
encoded (ok b) = ok b
encoded (err e) = err (wrapped encoding_value e)

unfoldable pub encode : {V : Type 0} → Codec V → Payload V → Result Bytes
unfolding encoded
encode c (raw b) = ok b
encode c (object v) = encoded (c.marshal v)

pub decoded : {V : Type 0} → Result V → Result (Payload V)
decoded (ok v) = ok (object v)
decoded (err e) = err (wrapped decoding_value e)

unfoldable pub decode : {V : Type 0} → Codec V → Target → Bytes → Result (Payload V)
unfolding decoded
decode c bytes b = ok (raw b)
decode c any_type b = decoded (c.unmarshal b)

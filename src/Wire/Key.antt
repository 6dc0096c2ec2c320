-- ===== src/Wire/Key.antt =====
-- Keys on the wire.
use mathlib.Core.List.{cons-ne-nil}
use go_memcache.Base.{
  ◌≤◌, ◌≡◌, ◌≢◌, refl, arith, Bool, false, [], ◌∷◌, Bytes, All, Option, some, if◌then◌else◌, ltb,
  length, Bool-cases, inl, inr,
}
use go_memcache.Errors.{ok, err, plain, key_too_long, Result}
use go_memcache.Std.Base64
use go_memcache.Std.Base64.RoundTrip.{
  IsByte, IsGraphic, decode-encode, encode-IsGraphic, encode-ne-nil,
}
use go_memcache.Wire.Char.{is_control, has_control}
use go_memcache.Wire.Token.{IsToken}
use go_memcache.Wire.{max_wire_key, encode_key}

has_control-IsGraphic : (s : Bytes) → All IsGraphic s → has_control s ≡ false
unfolding is_control
has_control-IsGraphic [] h = refl
has_control-IsGraphic (c ∷ s) h = ground (arith, has_control-IsGraphic s)

-- The key as it is sent, without the test of its length.
abbrev pub wire_key : Bytes → Bytes
wire_key key = if has_control key then Base64.encode key else key

pub wire_key-IsToken : (key : Bytes) → key ≢ [] → IsToken (wire_key key)
wire_key-IsToken key h = elim (Bool-cases (has_control key)) [
  | inl e ↦ rw e (has_control-IsGraphic _ (encode-IsGraphic key), encode-ne-nil key h)
  | inr e ↦ rw e (e, h)
]

-- What the server does with a key and its `b` flag.
abbrev pub read_key : Bytes → Bool → Option Bytes
read_key wire binary = if binary then Base64.decode wire else some wire

read_key-wire_key :
    (key : Bytes) → All IsByte key → read_key (wire_key key) (has_control key) ≡ some key
read_key-wire_key key h = elim (Bool-cases (has_control key)) [
  | inl e ↦ rw e (decode-encode key h)
  | inr e ↦ rw e
]

limit-eq-ok :
    (w : Bytes) (b : Bool) {wire : Bytes} {binary : Bool}
    → if◌then◌else◌ {A = Result (Bytes × Bool)}
        (ltb max_wire_key (length w))
        (err (plain key_too_long))
        (ok (w, b))
      ≡ ok (wire, binary)
    → (wire ≡ w) × (binary ≡ b) × (length wire ≤ max_wire_key)
limit-eq-ok w b h = elim (Bool-cases (ltb max_wire_key (length w))) [
  | inl e ↦ cc (rw e at h)
  | inr e ↦ ground arith
]

-- An accepted key is not empty and is sent as `wire_key`, in base64 just where it has a control byte.
pub encode_key-eq-ok :
    (key : Bytes) {wire : Bytes} {binary : Bool}
    → encode_key key ≡ ok (wire, binary)
    → (wire ≡ wire_key key) × (binary ≡ has_control key) × (length wire ≤ max_wire_key) × (key ≢ [])
unfolding encode_key
encode_key-eq-ok [] h = cc
encode_key-eq-ok (c ∷ key) h =
    let (w, b, short) = limit-eq-ok (wire_key (c ∷ key)) (has_control (c ∷ key)) h in
    (w, b, short, cons-ne-nil c key)

-- A key of bytes that is accepted travels as one token of at most 250 bytes, and the server, which
-- takes base64 back where the `b` flag is sent, sees the bytes of the key.
pub encode_key-read_key :
    (key : Bytes) {wire : Bytes} {binary : Bool}
    → All IsByte key
    → encode_key key ≡ ok (wire, binary)
    → IsToken wire × (length wire ≤ max_wire_key) × (read_key wire binary ≡ some key)
encode_key-read_key key all h =
    let (w, b, short, nonempty) = encode_key-eq-ok key h in
    (rw w (wire_key-IsToken key nonempty), short, rw (w, b) (read_key-wire_key key all))

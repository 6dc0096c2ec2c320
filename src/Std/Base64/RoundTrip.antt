-- ===== src/Std/Base64/RoundTrip.antt =====
-- Decoding gives back what was encoded, and an encoding has no control bytes.
use go_memcache.Base.{
  ℕ, ◌+◌, ◌*◌, ◌/◌, ◌%◌, ◌<◌, ◌≤◌, ◌≡◌, ◌≢◌, refl, arith, [], ◌∷◌, Option, some, Bytes, All,
}
use go_memcache.Std.Base64.{
  encode_char, decode_char, encode, skip_breaks, padded_last, quanta, decode,
}

-- A character of the alphabet or of the padding.
abbrev pub IsGraphic : ℕ → Type 0
IsGraphic c = (33 ≤ c) × (c < 127)

encode_char_range : (v : ℕ) → (43 ≤ encode_char v) × (encode_char v < 123) × (encode_char v ≢ b'=')
unfolding encode_char
encode_char_range v = ground arith

decode_char-encode_char : (v : ℕ) → v < 64 → decode_char (encode_char v) ≡ some v
unfolding encode_char decode_char
decode_char-encode_char v h = ground arith

skip_breaks-encode : (s : Bytes) → skip_breaks (encode s) ≡ encode s
unfolding skip_breaks encode
skip_breaks-encode [] = refl
skip_breaks-encode (a ∷ []) =
    ground (arith, encode_char_range (a / 4), encode_char_range (a % 4 * 16))
skip_breaks-encode (a ∷ b ∷ []) = ground (
  arith,
  encode_char_range (a / 4),
  encode_char_range (a % 4 * 16 + b / 16),
  encode_char_range (b % 16 * 4),
)
skip_breaks-encode (a ∷ b ∷ c ∷ s) = ground (
  arith,
  encode_char_range (a / 4),
  encode_char_range (a % 4 * 16 + b / 16),
  encode_char_range (b % 16 * 4 + c / 64),
  encode_char_range (c % 64),
  skip_breaks-encode s,
)

abbrev pub IsByte : ℕ → Type 0
IsByte c = c < 256

padded_last_lem :
    (c d : ℕ) (t : Bytes) (rest : Option Bytes)
    → c ≢ b'='
    → d ≢ b'='
    → padded_last c d t rest ≡ rest
unfolding padded_last
padded_last_lem c d [] rest hc hd = refl
padded_last_lem c d (e ∷ t) rest hc hd = ground arith

quanta-encode : (s : Bytes) → All IsByte s → quanta (encode s) ≡ some s
unfolding quanta encode
quanta-encode [] h = refl
quanta-encode (a ∷ []) h = ground (
  arith,
  decode_char-encode_char (a / 4) (omega arith),
  decode_char-encode_char (a % 4 * 16) (omega arith),
)
quanta-encode (a ∷ b ∷ []) h = ground (
  arith,
  decode_char-encode_char (a / 4) (omega arith),
  decode_char-encode_char (a % 4 * 16 + b / 16) (omega arith),
  decode_char-encode_char (b % 16 * 4) (omega arith),
  encode_char_range (b % 16 * 4),
)
quanta-encode (a ∷ b ∷ c ∷ s) h = ground (
  arith,
  decode_char-encode_char (a / 4) (omega arith),
  decode_char-encode_char (a % 4 * 16 + b / 16) (omega arith),
  decode_char-encode_char (b % 16 * 4 + c / 64) (omega arith),
  decode_char-encode_char (c % 64) (omega arith),
  encode_char_range (b % 16 * 4 + c / 64),
  encode_char_range (c % 64),
  quanta-encode s h.1.1.1,
)

pub decode-encode : (s : Bytes) → All IsByte s → decode (encode s) ≡ some s
unfolding decode
decode-encode s h = rw (skip_breaks-encode s) (quanta-encode s h)

pub encode-IsGraphic : (s : Bytes) → All IsGraphic (encode s)
unfolding encode
encode-IsGraphic [] = tt
encode-IsGraphic (a ∷ []) = omega (arith, encode_char_range (a / 4), encode_char_range (a % 4 * 16))
encode-IsGraphic (a ∷ b ∷ []) = omega (
  arith,
  encode_char_range (a / 4),
  encode_char_range (a % 4 * 16 + b / 16),
  encode_char_range (b % 16 * 4),
)
encode-IsGraphic (a ∷ b ∷ c ∷ s) = (
  omega (arith, encode_char_range (a / 4)),
  (
    omega (arith, encode_char_range (a % 4 * 16 + b / 16)),
    (
      omega (arith, encode_char_range (b % 16 * 4 + c / 64)),
      (omega (arith, encode_char_range (c % 64)), encode-IsGraphic s),
    ),
  ),
)

pub encode-ne-nil : (s : Bytes) → s ≢ [] → encode s ≢ []
unfolding encode
encode-ne-nil [] h = absurd (h refl)
encode-ne-nil (a ∷ []) h = cc
encode-ne-nil (a ∷ b ∷ []) h = cc
encode-ne-nil (a ∷ b ∷ c ∷ s) h = cc

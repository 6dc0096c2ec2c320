-- ===== src/Std/Base64.antt =====
-- `base64.StdEncoding`: `EncodeToString` and `DecodeString`.
pub mod RoundTrip
use go_memcache.Base.{
  ℕ, ◌+◌, ◌-◌, ◌*◌, ◌/◌, ◌%◌, true, false, ◌&&◌, ◌||◌, [], ◌∷◌, Option, none, some, Bytes, ltb, leb,
  ◌==◌, if◌then◌else◌,
}

unfoldable pub encode_char : ℕ → ℕ
encode_char v =
    if ltb v 26
    then b'A' + v
    else if ltb v 52
    then b'a' + (v - 26)
    else if ltb v 62
    then b'0' + (v - 52)
    else if v == 62
    then b'+'
    else b'/'

unfoldable pub decode_char : ℕ → Option ℕ
decode_char c =
    if leb b'A' c && leb c b'Z'
    then some (c - b'A')
    else if leb b'a' c && leb c b'z'
    then some (c - b'a' + 26)
    else if leb b'0' c && leb c b'9'
    then some (c - b'0' + 52)
    else if c == b'+'
    then some 62
    else if c == b'/'
    then some 63
    else none

unfoldable pub encode : Bytes → Bytes
encode [] = []
encode (a ∷ []) = encode_char (a / 4) ∷ encode_char (a % 4 * 16) ∷ b'=' ∷ b'=' ∷ []
encode (a ∷ b ∷ []) =
    encode_char (a / 4) ∷ encode_char (a % 4 * 16 + b / 16) ∷ encode_char (b % 16 * 4) ∷ b'=' ∷ []
encode (a ∷ b ∷ c ∷ s) =
    encode_char (a / 4)
    ∷ encode_char (a % 4 * 16 + b / 16)
    ∷ encode_char (b % 16 * 4 + c / 64)
    ∷ encode_char (c % 64)
    ∷ encode s

-- The decoder skips line breaks.
pub skip_breaks : Bytes → Bytes
skip_breaks [] = []
skip_breaks (c ∷ s) =
    let rest = skip_breaks s in if c == b'\r' || c == b'\n' then rest else c ∷ rest

-- What the last two characters of a quantum stand for: none, one or two bytes, and then the end.
pub tail_of : ℕ → ℕ → ℕ → ℕ → Option Bytes → Option Bytes
tail_of x y c d rest = elim (c == b'=') [
  | true ↦ if d == b'=' then some ((x * 4 + y / 16) ∷ []) else none
  | false ↦ elim (decode_char c) [
    | none ↦ none
    | some z ↦ elim (d == b'=') [
      | true ↦ some ((x * 4 + y / 16) ∷ (y % 16 * 16 + z / 4) ∷ [])
      | false ↦ elim (decode_char d) [
        | none ↦ none
        | some w ↦ elim rest [
          | none ↦ none
          | some out ↦ some ((x * 4 + y / 16) ∷ (y % 16 * 16 + z / 4) ∷ (z % 4 * 64 + w) ∷ out)
        ]
      ]
    ]
  ]
]

-- A quantum with padding must be the last one.
pub padded_last : ℕ → ℕ → Bytes → Option Bytes → Option Bytes
padded_last c d [] rest = rest
padded_last c d (e ∷ s) rest = if c == b'=' || d == b'=' then none else rest

pub quanta : Bytes → Option Bytes
unfolding tail_of padded_last
quanta [] = some []
quanta (a ∷ b ∷ c ∷ d ∷ s) =
    let rest = quanta s in
    elim (decode_char a) [
      | none ↦ none
      | some x ↦ elim (decode_char b) [
        | none ↦ none
        | some y ↦ padded_last c d s (tail_of x y c d rest)
      ]
    ]
quanta _ = none

unfoldable pub decode : Bytes → Option Bytes
unfolding quanta skip_breaks
decode s = quanta (skip_breaks s)

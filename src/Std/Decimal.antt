-- ===== src/Std/Decimal.antt =====
-- `strconv.FormatUint`, `FormatInt`, `Itoa`, `ParseUint`, `ParseInt` and `Atoi`, in base ten.
-- A parse that Go refuses, for its syntax or its range, is `none`.
pub mod RoundTrip
use go_memcache.Base.{
  ℕ, zero, suc, ◌+◌, ◌-◌, ◌*◌, ◌/◌, ◌%◌, ◌^◌, true, false, ◌&&◌, [], ◌∷◌, Option, none, some, Bytes,
  ltb, leb, ◌==◌, if◌then◌else◌,
}
use go_memcache.Base.Int.{ℤ, pos, negsuc}

-- The digits of `n` in front of `out`; `n < fuel` is enough.
pub digits : ℕ → ℕ → Bytes → Bytes
digits zero n out = out
digits (suc fuel) n out =
    let rest = digits fuel (n / 10) ((b'0' + n % 10) ∷ out) in
    if ltb n 10 then (b'0' + n) ∷ out else rest

unfoldable pub format_uint : ℕ → Bytes
unfolding digits
format_uint n = digits (suc n) n []

unfoldable pub format_int : ℤ → Bytes
unfolding format_uint
format_int (pos n) = format_uint n
format_int (negsuc n) = b'-' ∷ format_uint (suc n)

pub scan : ℕ → Bytes → Option ℕ
scan n [] = some n
scan n (c ∷ s) = elim (leb b'0' c && leb c b'9') [
  | true ↦ scan (n * 10 + (c - b'0')) s
  | false ↦ none
]

pub below : ℕ → Option ℕ → Option ℕ
below bound none = none
below bound (some n) = if ltb n bound then some n else none

-- `strconv.ParseUint(s, 10, bits)`.
unfoldable pub parse_uint : ℕ → Bytes → Option ℕ
unfolding scan below
parse_uint bits [] = none
parse_uint bits (c ∷ s) = below (2 ^ bits) (scan 0 (c ∷ s))

pub positive : Option ℕ → Option ℤ
positive none = none
positive (some n) = some (pos n)

pub negative : Option ℕ → Option ℤ
negative none = none
negative (some zero) = some (pos 0)
negative (some (suc n)) = some (negsuc n)

-- Behind the sign, at least one digit.
pub magnitude : ℕ → Bytes → Option ℕ
magnitude bound [] = none
magnitude bound (c ∷ s) = below bound (scan 0 (c ∷ s))

-- `strconv.ParseInt(s, 10, 64)`, and `strconv.Atoi(s)` where an int has 64 bits.
unfoldable pub parse_int : Bytes → Option ℤ
unfolding scan below positive negative magnitude
parse_int [] = none
parse_int (c ∷ s) =
    if c == b'-'
    then negative (magnitude (2 ^ 63 + 1) s)
    else if c == b'+'
    then positive (magnitude (2 ^ 63) s)
    else positive (magnitude (2 ^ 63) (c ∷ s))

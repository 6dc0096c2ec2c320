-- ===== src/Std/Decimal/RoundTrip.antt =====
-- Printed numbers are read back, and hold digits only.
use go_memcache.Base.{
  ℕ, zero, suc, ◌+◌, ◌/◌, ◌%◌, ◌^◌, ◌≤◌, ◌<◌, ◌≡◌, ◌≢◌, refl, arith, [], ◌∷◌, some, Bytes, All,
}
use go_memcache.Base.Int.{pos, negsuc}
use go_memcache.Std.Decimal.{
  digits, format_uint, scan, below, magnitude, positive, parse_uint, parse_int,
}

abbrev pub IsDigit : ℕ → Type 0
IsDigit c = (b'0' ≤ c) × (c ≤ b'9')

scan-digits : (fuel n : ℕ) (out : Bytes) → n < fuel → scan 0 (digits fuel n out) ≡ scan n out
unfolding scan digits
scan-digits zero n out h = elim h [ ]
scan-digits (suc fuel) n out h = ground (arith, scan-digits fuel (n / 10) ((b'0' + n % 10) ∷ out))

digits-IsDigit :
    (fuel n : ℕ) (out : Bytes) → n < fuel → All IsDigit out → All IsDigit (digits fuel n out)
unfolding digits
digits-IsDigit zero n out h all = elim h [ ]
digits-IsDigit (suc fuel) n out h all =
    ground (arith, digits-IsDigit fuel (n / 10) ((b'0' + n % 10) ∷ out))

digits-ne-nil : (fuel n : ℕ) (out : Bytes) → n < fuel → digits fuel n out ≢ []
unfolding digits
digits-ne-nil zero n out h = elim h [ ]
digits-ne-nil (suc fuel) n out h =
    ground (arith, digits-ne-nil fuel (n / 10) ((b'0' + n % 10) ∷ out))

pub format_uint-IsDigit : (n : ℕ) → All IsDigit (format_uint n)
unfolding format_uint
format_uint-IsDigit n = digits-IsDigit (suc n) n [] (omega arith) tt

pub scan-format_uint : (n : ℕ) → scan 0 (format_uint n) ≡ some n
unfolding format_uint scan
scan-format_uint n = scan-digits (suc n) n [] (omega arith)

pub format_uint-ne-nil : (n : ℕ) → format_uint n ≢ []
unfolding format_uint
format_uint-ne-nil n = digits-ne-nil (suc n) n [] (omega arith)

parse_uint-scan : (bits : ℕ) (s : Bytes) → s ≢ [] → parse_uint bits s ≡ below (2 ^ bits) (scan 0 s)
unfolding parse_uint
parse_uint-scan bits [] h = absurd (h refl)
parse_uint-scan bits (c ∷ s) h = refl

-- Every number of `bits` bits is read back from its print.
pub parse_uint-format_uint : (bits n : ℕ) → n < 2 ^ bits → parse_uint bits (format_uint n) ≡ some n
parse_uint-format_uint bits n h =
    rw (parse_uint-scan bits _ (format_uint-ne-nil n), scan-format_uint n)
      (unfold below in ground arith)

magnitude-scan : (bound : ℕ) (s : Bytes) → s ≢ [] → magnitude bound s ≡ below bound (scan 0 s)
unfolding magnitude
magnitude-scan bound [] h = absurd (h refl)
magnitude-scan bound (c ∷ s) h = refl

magnitude-format_uint : (bound n : ℕ) → n < bound → magnitude bound (format_uint n) ≡ some n
magnitude-format_uint bound n h =
    rw (magnitude-scan bound _ (format_uint-ne-nil n), scan-format_uint n)
      (unfold below in ground arith)

-- A text of digits has no sign.
parse_int-digit :
    (c : ℕ) (s : Bytes) → IsDigit c → parse_int (c ∷ s) ≡ positive (magnitude (2 ^ 63) (c ∷ s))
unfolding parse_int
parse_int-digit c s h = ground arith

parse_int-digits :
    (s : Bytes) → All IsDigit s → s ≢ [] → parse_int s ≡ positive (magnitude (2 ^ 63) s)
parse_int-digits [] all h = absurd (h refl)
parse_int-digits (c ∷ s) all h = parse_int-digit c s all.0

pub parse_int-format_uint : (n : ℕ) → n < 2 ^ 63 → parse_int (format_uint n) ≡ some (pos n)
parse_int-format_uint n h =
    rw
      (
        parse_int-digits _ (format_uint-IsDigit n) (format_uint-ne-nil n),
        magnitude-format_uint _ n h,
      )
      (unfold positive in refl)

pub parse_int-negative :
    (n : ℕ) → n < 2 ^ 63 → parse_int (b'-' ∷ format_uint (suc n)) ≡ some (negsuc n)
unfolding parse_int
parse_int-negative n h = rw (magnitude-format_uint (2 ^ 63 + 1) (suc n) (omega arith)) refl

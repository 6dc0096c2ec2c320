-- ===== src/Batch/Opaque.antt =====
-- The opaque token that a batch puts on each command, and how a response finds its operation.
use go_memcache.Base.{◌<◌, ◌^◌, ◌≡◌, refl, arith, List, [], ◌∷◌, ◌++◌, some, Bytes, if◌then◌else◌}
use go_memcache.Base.Int.{pos}
use go_memcache.Std.Decimal.{format_uint, parse_int}
use go_memcache.Std.Decimal.RoundTrip.{parse_int-format_uint}
use go_memcache.Batch.{
  Prepared, is_opaque_flag, without_opaque, index_flag, quiet_flags, quiet_command,
}

-- The flags that name an opaque token.
abbrev pub opaque_flags_of : List Bytes → List Bytes
opaque_flags_of [] = []
opaque_flags_of (flag ∷ flags) =
    if is_opaque_flag flag then flag ∷ opaque_flags_of flags else opaque_flags_of flags

opaque_flags_of-append :
    (xs ys : List Bytes) → opaque_flags_of (xs ++ ys) ≡ opaque_flags_of xs ++ opaque_flags_of ys
opaque_flags_of-append [] ys = refl
opaque_flags_of-append (x ∷ xs) ys = ground (arith, opaque_flags_of-append xs ys)

opaque_flags_of-without_opaque : (xs : List Bytes) → opaque_flags_of (without_opaque xs) ≡ []
unfolding without_opaque
opaque_flags_of-without_opaque [] = refl
opaque_flags_of-without_opaque (x ∷ xs) = ground (arith, opaque_flags_of-without_opaque xs)

opaque_flags_of-index :
    (p : Prepared) → opaque_flags_of (index_flag p.index ∷ quiet_flags p) ≡ index_flag p.index ∷ []
unfolding index_flag quiet_flags is_opaque_flag
opaque_flags_of-index p = ground arith

-- Whatever flags the caller gave, the command that a batch sends for an operation carries exactly
-- one opaque token, and the token reads back as the operation's number, which is below 2^63.
pub quiet_command-opaque :
    (p : Prepared)
    → p.index < 2 ^ 63
    → (opaque_flags_of (quiet_command p).flags ≡ (b'O' ∷ format_uint p.index) ∷ [])
      × (parse_int (format_uint p.index) ≡ some (pos p.index))
unfolding quiet_command index_flag
quiet_command-opaque p h = (
  rw
      (
        opaque_flags_of-append (without_opaque p.command.flags)
            (index_flag p.index ∷ quiet_flags p),
        opaque_flags_of-without_opaque p.command.flags,
      )
      (opaque_flags_of-index p),
  parse_int-format_uint p.index h,
)

-- ===== src/Wire/Flags.antt =====
-- `parseResponseFlags` of wire.go.
pub mod Marks
use go_memcache.Base.{
  ℕ, Bool, true, false, not, ◌&&◌, List, [], ◌∷◌, Option, none, some, Bytes, codes, same, ◌==◌,
  if◌then◌else◌,
}
use go_memcache.Base.Int.{ℤ}
use go_memcache.Errors.{
  Err, protocol, invalid_uint_flag, invalid_t_flag, invalid_h_flag, invalid_base64_key,
}
use go_memcache.Std.Base64
use go_memcache.Std.Decimal.{parse_uint, parse_int}
use go_memcache.Types.{Metadata, RawResponse}

-- The loop's variables.
pub record Scan : Type 0 where
  pub response : RawResponse
  pub base64_key : Bool
  pub first_error : Option Err

-- `record(err)` keeps the first error.
unfoldable pub keep_first : Err → Option Err → Option Err
keep_first e none = some e
keep_first e (some first) = some first

pub fail : Err → Scan → Scan
unfolding keep_first
fail e s = record s { first_error = keep_first e s.first_error }

-- An update of the response.
abbrev pub on_response : (RawResponse → RawResponse) → Scan → Scan
on_response f s = record s { response = f s.response }

-- An update of the metadata.
abbrev pub on_metadata : (Metadata → Metadata) → Scan → Scan
on_metadata f s = record s { response = record s.response { metadata = f s.response.metadata } }

pub with_uint : (ℕ → Metadata → Metadata) → Option ℕ → Scan → Scan
unfolding fail
with_uint f none s = fail (protocol invalid_uint_flag) s
with_uint f (some v) s = on_metadata (f v) s

pub with_ttl : Option ℤ → Scan → Scan
unfolding fail
with_ttl none s = fail (protocol invalid_t_flag) s
with_ttl (some v) s = on_metadata (λ m. record m { ttl = some v }) s

pub with_hit : Bytes → Scan → Scan
unfolding fail
with_hit token s =
    if not (same token (codes "0")) && not (same token (codes "1"))
    then fail (protocol invalid_h_flag) s
    else on_metadata (λ m. record m { hit_before = some (same token (codes "1")) }) s

-- The cases of the `switch` on a flag's first byte.
pub data Letter : Type 0 where
  cas ttl size client_flags last_access hit key opaque won busy stale base64 other : Letter

unfoldable pub letter_of : ℕ → Letter
letter_of c =
    if c == b'c'
    then cas
    else if c == b't'
    then ttl
    else if c == b's'
    then size
    else if c == b'f'
    then client_flags
    else if c == b'l'
    then last_access
    else if c == b'h'
    then hit
    else if c == b'k'
    then key
    else if c == b'O'
    then opaque
    else if c == b'W'
    then won
    else if c == b'Z'
    then busy
    else if c == b'X'
    then stale
    else if c == b'b'
    then base64
    else other

unfoldable pub scan_letter : Letter → Bytes → Scan → Scan
unfolding with_uint with_ttl with_hit
scan_letter cas token s = with_uint (λ v m. record m { cas = some v }) (parse_uint 64 token) s
scan_letter ttl token s = with_ttl (parse_int token) s
scan_letter size token s = with_uint (λ v m. record m { size = some v }) (parse_uint 64 token) s
scan_letter client_flags token s =
    with_uint (λ v m. record m { client_flags = some v }) (parse_uint 32 token) s
scan_letter last_access token s =
    with_uint (λ v m. record m { last_access = some v }) (parse_uint 64 token) s
scan_letter hit token s = with_hit token s
scan_letter key token s = on_response (λ r. record r { key = some token }) s
scan_letter opaque token s = on_response (λ r. record r { opaque = token }) s
scan_letter won token s = on_response (λ r. record r { won = true }) s
scan_letter busy token s = on_response (λ r. record r { busy = true }) s
scan_letter stale token s = on_response (λ r. record r { stale = true }) s
scan_letter base64 token s = record s { base64_key = true }
scan_letter other token s = s

-- One round of the loop.
unfoldable pub scan_flag : Scan → Bytes → Scan
scan_flag s [] = s
scan_flag s (code ∷ token) = scan_letter (letter_of code) token s

unfoldable pub scan_flags : Scan → List Bytes → Scan
scan_flags s [] = s
scan_flags s (flag ∷ flags) = scan_flags (scan_flag s flag) flags

pub decoded_key : Option Bytes → Scan → Scan
unfolding fail
decoded_key none s = fail (protocol invalid_base64_key) s
decoded_key (some k) s = on_response (λ r. record r { key = some k }) s

-- What follows the loop: the key is decoded if the response said that it is in base64.
unfoldable pub finish_key : Bool → Option Bytes → Scan → Scan
unfolding decoded_key
finish_key false k s = s
finish_key true none s = s
finish_key true (some k) s = decoded_key (Base64.decode k) s

abbrev pub scan_start : RawResponse → Scan
scan_start r = record { response = r; base64_key = false; first_error = none }

-- The response with what its flags say; `parse_err` is the first error, which the caller stores.
unfoldable pub parse_response_flags : RawResponse → RawResponse
parse_response_flags r =
    let s = scan_flags (scan_start r) r.flags in
    let t = finish_key s.base64_key s.response.key s in
    record t.response { parse_err = t.first_error }

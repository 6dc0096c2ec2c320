-- ===== src/Wire/Response.antt =====
-- `readRawResponse` of wire.go.
pub mod RoundTrip
use go_memcache.Base.{
  ℕ, false, zero, suc, ◌-◌, ◌^◌, ◌&&◌, List, [], ◌∷◌, Option, none, some, Bytes, codes, same, ltb,
  ◌==◌, if◌then◌else◌,
}
use go_memcache.Errors.{
  Err, external, protocol, Result, ok, err, ◌>>=◌, empty_response, va_omitted_length,
  va_invalid_length, value_exceeds_maximum, value_exceeds_platform, value_not_crlf, me_omitted_key,
  unexpected_code,
}
use go_memcache.Std.Decimal.{parse_uint}
use go_memcache.Types.{ResponseCode, RawResponse}
use go_memcache.Types
use go_memcache.Wire.Flags.{parse_response_flags}
use go_memcache.Wire.Line.{read_line, ascii_fields, server_line}

-- The name of each code on the wire.
unfoldable pub code_of : Bytes → Option ResponseCode
code_of s =
    if same s (codes "HD")
    then some ResponseCode.header
    else if same s (codes "VA")
    then some ResponseCode.value
    else if same s (codes "EN")
    then some ResponseCode.miss
    else if same s (codes "NS")
    then some ResponseCode.not_stored
    else if same s (codes "EX")
    then some ResponseCode.exists
    else if same s (codes "NF")
    then some ResponseCode.not_found
    else if same s (codes "MN")
    then some ResponseCode.noop
    else if same s (codes "ME")
    then some ResponseCode.debug
    else none

-- The error of an input that ends in the middle: `io.ErrUnexpectedEOF`, which is `external false 1`,
-- for `io.EOF`, which is `external false 0`, and any other error as it is.
unfoldable pub torn : Err → Err
torn (external false zero) = external false 1
torn e = e

-- `io.ReadFull` of `n` bytes.
unfoldable pub read_full : Err → ℕ → Bytes → Result (Bytes × Bytes)
read_full last zero input = ok ([], input)
read_full last (suc n) [] = err last
read_full last (suc n) (c ∷ input) = do
  (part, rest) ← read_full (torn last) n input
  ok (c ∷ part, rest)

unfoldable pub read_crlf : Bytes × Bytes → Result Bytes
read_crlf (mark, rest) =
    if same mark (b'\r' ∷ b'\n' ∷ []) then ok rest else err (protocol value_not_crlf)

-- The response with its flags parsed.
abbrev pub with_flags : RawResponse → List Bytes → RawResponse
with_flags r flags = parse_response_flags (record r { flags = flags })

-- A parsed length against the limits; the limit 0 means none. An int has 64 bits.
unfoldable pub check_size : ℕ → Option ℕ → Result ℕ
check_size limit none = err (protocol va_invalid_length)
check_size limit (some size) =
    if ltb 0 limit && ltb limit size
    then err (protocol value_exceeds_maximum)
    else if ltb (2 ^ 63 - 1) size
    then err (protocol value_exceeds_platform)
    else ok size

pub read_value : Err → ℕ → List Bytes → Bytes → Result (RawResponse × Bytes)
read_value last limit [] input = err (protocol va_omitted_length)
read_value last limit (size_text ∷ flags) input = do
  size ← check_size limit (parse_uint 63 size_text)
  (value, after) ← read_full last size input
  mark ← read_full last 2 after
  rest ← read_crlf mark
  ok (with_flags (record (Types.empty_response ResponseCode.value) { value = value }) flags, rest)

-- `strings.Cut(field, "=")`.
unfoldable pub cut_equals : Bytes → Option (Bytes × Bytes)
cut_equals [] = none
cut_equals (c ∷ s) =
    let later = cut_equals s in
    if c == b'='
    then some ([], s)
    else elim later [ none ↦ none | some (name, v) ↦ some (c ∷ name, v) ]

unfoldable pub debug_fields : List Bytes → List (Bytes × Bytes)
debug_fields [] = []
debug_fields (field ∷ fields) = elim (cut_equals field) [
  | none ↦ debug_fields fields
  | some p ↦ p ∷ debug_fields fields
]

pub read_debug : List Bytes → Bytes → Result (RawResponse × Bytes)
read_debug [] input = err (protocol me_omitted_key)
read_debug (key ∷ fields) input = ok (
  record (Types.empty_response ResponseCode.debug) {
    key = some key;
    flags = key ∷ fields;
    debug = debug_fields fields;
  },
  input,
)

pub read_body : Err → ℕ → Option ResponseCode → List Bytes → Bytes → Result (RawResponse × Bytes)
read_body last limit none args input = err (protocol unexpected_code)
read_body last limit (some ResponseCode.value) args input = read_value last limit args input
read_body last limit (some ResponseCode.debug) args input = read_debug args input
read_body last limit (some code) args input =
    ok (with_flags (Types.empty_response code) args, input)

pub read_fields : Err → ℕ → List Bytes → Bytes → Result (RawResponse × Bytes)
read_fields last limit [] input = err (protocol empty_response)
read_fields last limit (code ∷ args) input = read_body last limit (code_of code) args input

pub read_text : Err → ℕ → Bytes → Bytes → Option Err → Result (RawResponse × Bytes)
read_text last limit text input (some e) = err e
read_text last limit text input none = read_fields last limit (ascii_fields text) input

-- The next response and the bytes behind it. A flag that cannot be parsed leaves its error in
-- `parse_err`; the source returns that error as a `framedResponseError` beside the response.
unfoldable pub read_raw_response : Err → ℕ → Bytes → Result (RawResponse × Bytes)
read_raw_response last limit input = do
  (text, rest) ← read_line last input
  read_text last limit text rest (server_line text)

-- ===== src/Wire/Response/RoundTrip.antt =====
-- Reading what a server writes.
use mathlib.Core.List.{cons-ne-nil}
use go_memcache.Base.{
  ℕ, ◌+◌, ◌^◌, ◌≤◌, ◌<◌, ◌≡◌, ◌⊎◌, refl, arith, false, List, [], ◌∷◌, ◌++◌, some, Bytes, All, any,
  ltb, codes, length, length-append,
}
use go_memcache.Errors.{Err, ok}
use go_memcache.Std.Decimal.{format_uint}
use go_memcache.Types.{ResponseCode, RawResponse}
use go_memcache.Types
use go_memcache.Wire.Char.{is_control}
use go_memcache.Std.Decimal.RoundTrip.{parse_uint-format_uint}
use go_memcache.Wire.CommandLine.{is_break, is_break-join, format_uint-IsToken}
use go_memcache.Wire.Token.{IsToken, join, ascii_fields-join}
use go_memcache.Wire.Line.{
  max_line_size, split_line, drop_crlf, split_result, checked_line, read_line, ascii_fields,
  server_line,
}
use go_memcache.Wire.Response.{
  torn, read_full, read_crlf, check_size, read_value, read_fields, read_text, read_body, code_of,
  with_flags, read_raw_response,
}

crlf : Bytes
crlf = b'\r' ∷ b'\n' ∷ []

split_line-break :
    (line rest : Bytes)
    → any is_break line ≡ false
    → split_line (line ++ (b'\r' ∷ b'\n' ∷ rest)) ≡ some (line ++ (b'\r' ∷ b'\n' ∷ []), rest)
unfolding split_line
split_line-break [] rest h = refl
split_line-break (c ∷ line) rest h = ground (arith, split_line-break line rest)

drop_crlf-lem : (line : Bytes) → drop_crlf (line ++ (b'\r' ∷ b'\n' ∷ [])) ≡ some line
unfolding drop_crlf
drop_crlf-lem [] = refl
drop_crlf-lem (c ∷ []) = refl
drop_crlf-lem (c ∷ d ∷ line) = ground (arith, drop_crlf-lem (d ∷ line))

-- A line without breaks that fits is read whole, and nothing behind it is touched.
pub read_line-lem :
    (last : Err) (line rest : Bytes)
    → any is_break line ≡ false
    → length line + 2 ≤ max_line_size
    → read_line last (line ++ (b'\r' ∷ b'\n' ∷ rest)) ≡ ok (line, rest)
unfolding read_line split_result checked_line
read_line-lem last line rest h short =
    let fits : ltb max_line_size (length (line ++ (b'\r' ∷ b'\n' ∷ []))) ≡ false =
      ground (arith, length-append line (b'\r' ∷ b'\n' ∷ [])) in
    rw (split_line-break line rest h, fits, drop_crlf-lem line)

pub read_full-lem :
    (last : Err) (part rest : Bytes) → read_full last (length part) (part ++ rest) ≡ ok (part, rest)
unfolding read_full
read_full-lem last [] rest = refl
read_full-lem last (c ∷ part) rest = rw (read_full-lem (torn last) part rest)

-- The line of a value.
abbrev pub value_line : Bytes → List Bytes → Bytes
value_line value flags = codes "VA" ++ join (format_uint (length value) ∷ flags)

fields-value_line :
    (value : Bytes) (flags : List Bytes)
    → All IsToken flags
    → ascii_fields (value_line value flags) ≡ codes "VA" ∷ format_uint (length value) ∷ flags
unfolding is_control
fields-value_line value flags h =
    ascii_fields-join (codes "VA") (format_uint (length value) ∷ flags)
      (refl, cons-ne-nil b'V' (b'A' ∷ [])) (format_uint-IsToken (length value), h)

break-value_line :
    (value : Bytes) (flags : List Bytes)
    → All IsToken flags
    → any is_break (value_line value flags) ≡ false
break-value_line value flags h =
    is_break-join (format_uint (length value) ∷ flags) (format_uint-IsToken (length value), h)

check_size-lem :
    (limit n : ℕ) → (limit ≡ 0) ⊎ (n ≤ limit) → n < 2 ^ 63 → check_size limit (some n) ≡ ok n
unfolding check_size
check_size-lem limit n h k = ground arith

-- The response that a value with its flags stands for.
abbrev pub value_response : Bytes → List Bytes → RawResponse
value_response value flags =
    with_flags (record (Types.empty_response ResponseCode.value) { value = value }) flags

read_value-lem :
    (last : Err) (limit : ℕ) (value : Bytes) (flags : List Bytes) (rest : Bytes)
    → (limit ≡ 0) ⊎ (length value ≤ limit)
    → length value < 2 ^ 63
    → read_value last limit (format_uint (length value) ∷ flags) (value ++ (b'\r' ∷ b'\n' ∷ rest))
      ≡ ok (value_response value flags, rest)
unfolding read_value
read_value-lem last limit value flags rest fits short =
    rw
      (
        parse_uint-format_uint 63 (length value) short,
        check_size-lem limit (length value) fits short,
        read_full-lem last value (b'\r' ∷ b'\n' ∷ rest),
      )
      (unfold read_full read_crlf in refl)

-- A value of any bytes, line ends and error words included, is read back whole, with the flags
-- behind its length, and the reader stops exactly at the byte behind it. The value must fit the
-- configured maximum, if there is one, and an int, the flags must be tokens, and the line with its
-- end must fit 64 KiB.
pub read_raw_response-value :
    (last : Err) (limit : ℕ) (value : Bytes) (flags : List Bytes) (rest : Bytes)
    → All IsToken flags
    → (limit ≡ 0) ⊎ (length value ≤ limit)
    → length value < 2 ^ 63
    → length (value_line value flags) + 2 ≤ max_line_size
    → read_raw_response last limit
        (value_line value flags ++ (b'\r' ∷ b'\n' ∷ (value ++ (b'\r' ∷ b'\n' ∷ rest))))
      ≡ ok (value_response value flags, rest)
unfolding read_raw_response read_text server_line read_fields code_of read_body
read_raw_response-value last limit value flags rest tokens fits short line_fits =
    rw
      (
        read_line-lem last (value_line value flags) (value ++ (b'\r' ∷ b'\n' ∷ rest))
            (break-value_line value flags tokens) line_fits,
        fields-value_line value flags tokens,
      )
      (read_value-lem last limit value flags rest fits short)

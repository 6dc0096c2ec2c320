-- ===== src/Tests/Wire.antt =====
-- wire.go and the flags of client.go at concrete inputs.
use mathlib.Core.List.{cons-ne-nil}
use go_memcache.Base.{
  ℕ, ◌<◌, Bool, true, false, ◌≡◌, ◌≤◌, refl, arith, [], ◌∷◌, ◌++◌, some, Bytes, codes, inr, any,
  length,
}
use go_memcache.Base.Int.{pos}
use go_memcache.Errors.{ok, external}
use go_memcache.Types.{RawResponse, ResponseCode, empty_response, no_get_options}
use go_memcache.Types.Expiration.{expires_in}
use go_memcache.Types.Expiration.Bounds.{Covers, expires_in-Covers}
use go_memcache.Wire.{MetaCommand, encode_key, marshal, crlf, value_part}
use go_memcache.Wire.Token.{IsToken}
use go_memcache.Wire.Line.{ascii_fields}
use go_memcache.Wire.Framing.{line_words}
use go_memcache.Wire.CommandLine.{is_break, fields-marshal}
use go_memcache.Wire.Key.{read_key, encode_key-read_key}
use go_memcache.Wire.Flags.{parse_response_flags}
use go_memcache.Wire.Flags.Marks.{Marks, parse_response_flags-Marks}
use go_memcache.Wire.Response.{read_raw_response}
use go_memcache.Wire.Response.RoundTrip.{value_response, read_raw_response-value}
use go_memcache.Command.Flags.{command_has_side_effect}
use go_memcache.Command.Get.{hit_result, semantic_get, build_get}
use go_memcache.Command.Get.Effects.{asks_change, side_effect-build_get}

abbrev store : MetaCommand
store = record {
  command = codes "ms";
  key = codes "k";
  flags = codes "F0" ∷ codes "T60" ∷ [];
  value = codes "hi";
  has_value = true;
}

fields-marshal_example :
    (wire line : Bytes) × (binary : Bool) × (encode_key store.key ≡ ok (wire, binary))
    × (codes "ms k 2 F0 T60\r\nhi\r\n" ≡ line ++ (crlf ++ value_part store))
    × (any is_break line ≡ false)
    × (ascii_fields line ≡ codes "ms" ∷ line_words store wire binary)
unfolding marshal go_memcache.Wire.check_command go_memcache.Wire.is_supported encode_key
    go_memcache.Wire.Char.is_control go_memcache.Wire.marshal_key go_memcache.Wire.write_flags
    go_memcache.Wire.key_flags go_memcache.Wire.frame_line go_memcache.Wire.size_part
    go_memcache.Std.Decimal.format_uint value_part
fields-marshal_example = fields-marshal store refl

encode_key-read_key_example :
    IsToken (codes "YSBi")
    × (length (codes "YSBi") ≤ 250)
    × (read_key (codes "YSBi") true ≡ some (codes "a b"))
unfolding encode_key go_memcache.Wire.Char.is_control go_memcache.Std.Base64.encode
    go_memcache.Std.Base64.encode_char
encode_key-read_key_example =
    encode_key-read_key (codes "a b") {binary = true}
      (omega arith, (omega arith, (omega arith, tt))) refl

parse_response_flags-Marks_example :
    Marks
      (record (empty_response ResponseCode.header) {
        flags = codes "W" ∷ codes "cx" ∷ codes "O7" ∷ [];
      })
      (codes "W" ∷ codes "cx" ∷ codes "O7" ∷ [])
      (parse_response_flags (record (empty_response ResponseCode.header) {
        flags = codes "W" ∷ codes "cx" ∷ codes "O7" ∷ [];
      }))
parse_response_flags-Marks_example =
    parse_response_flags-Marks (record (empty_response ResponseCode.header) {
      flags = codes "W" ∷ codes "cx" ∷ codes "O7" ∷ [];
    })

read_raw_response-value_example :
    read_raw_response (external false 0) 10 (codes "VA 3 c7\r\nx\r\n\r\nHD\r\n")
    ≡ ok (value_response (codes "x\r\n") (codes "c7" ∷ []), codes "HD\r\n")
unfolding go_memcache.Std.Decimal.format_uint go_memcache.Wire.Char.is_control
read_raw_response-value_example =
    read_raw_response-value (external false 0) 10 (codes "x\r\n") (codes "c7" ∷ []) (codes "HD\r\n")
      ((refl, cons-ne-nil b'c' (codes "7")), tt) (inr (omega arith)) (omega arith) (omega arith)

side_effect-build_get_example :
    command_has_side_effect (record {
      command = codes "mg";
      key = codes "k";
      flags = codes "v" ∷ codes "T60" ∷ [];
      value = [];
      has_value = false;
    })
    ≡ asks_change (record no_get_options { touch = some (pos 60) })
unfolding build_get go_memcache.Command.Get.get_flags go_memcache.Command.Flags.expiration_flag
    go_memcache.Command.Flags.not_positive go_memcache.Command.Flags.append_opaque
    go_memcache.Wire.validate_opaque go_memcache.Std.Decimal.format_int
    go_memcache.Command.Flags.opaque_flags
side_effect-build_get_example =
    side_effect-build_get (codes "k") (record no_get_options { touch = some (pos 60) }) refl

expires_in-Covers_example :
    (s : ℕ) × (expires_in 0 (pos 1500000000) ≡ pos s) × (0 < s) × Covers 1500000000 s
expires_in-Covers_example = expires_in-Covers 0 1500000000 (omega arith) (omega arith)

-- The response to the winner of a lease.
abbrev lease : RawResponse
lease = record (empty_response ResponseCode.value) { won = true }

-- ===== src/Wire.antt =====
-- wire.go: commands are framed here; responses are read in Wire/Response.antt and Wire/Flags.antt.
pub mod Flags
pub mod Char
pub mod Token
pub mod Key
pub mod Accepts
pub mod Framing
pub mod CommandLine
pub mod Line
pub mod Response
use go_memcache.Base.{
  ℕ, ◌+◌, Bool, true, false, not, ◌&&◌, ◌||◌, List, [], ◌∷◌, ◌++◌, Bytes, codes, same, any, ltb,
  leb, ◌==◌, if◌then◌else◌, length,
}
use go_memcache.Errors.{
  Err, plain, Result, ok, err, ◌>>=◌, ◌>>◌, refuse_if, key_empty, key_too_long, opaque_too_long,
  opaque_control, unsupported_command, ms_requires_value, value_not_accepted, debug_binary_key,
  invalid_flag,
}
use go_memcache.Std.Base64
use go_memcache.Wire.Char.{is_control, has_control}
use go_memcache.Std.Decimal.{format_uint}

abbrev pub max_wire_key : ℕ
max_wire_key = 250

pub record MetaCommand : Type 0 where
  pub command : Bytes
  pub key : Bytes
  pub flags : List Bytes
  pub value : Bytes
  pub has_value : Bool

-- The key as it is sent, and whether it is in base64.
unfoldable pub encode_key : Bytes → Result (Bytes × Bool)
encode_key [] = err (plain key_empty)
encode_key (c ∷ key) =
    let binary = has_control (c ∷ key) in
    let wire = if binary then Base64.encode (c ∷ key) else c ∷ key in
    if ltb max_wire_key (length wire) then err (plain key_too_long) else ok (wire, binary)

unfoldable pub validate_opaque : Bytes → Result (Unit {0})
validate_opaque [] = ok tt
validate_opaque (c ∷ token) =
    if ltb 32 (length (c ∷ token))
    then err (plain opaque_too_long)
    else if has_control (c ∷ token)
    then err (plain opaque_control)
    else ok tt

-- The `switch` on the command.
unfoldable pub is_supported : Bytes → Bool
is_supported c =
    same c (codes "mg")
    || same c (codes "ms")
    || same c (codes "md")
    || same c (codes "ma")
    || same c (codes "me")

-- The flags with `b` added for a base64 key, unless it is there.
unfoldable pub key_flags : Bool → List Bytes → List Bytes
key_flags false flags = flags
key_flags true flags =
    if any (λ flag. same flag (codes "b")) flags then flags else flags ++ codes "b" ∷ []

-- The loop that writes each flag behind a space.
unfoldable pub write_flags : List Bytes → Result Bytes
write_flags [] = ok []
write_flags ([] ∷ flags) = err (plain invalid_flag)
write_flags ((c ∷ flag) ∷ flags) =
    if has_control (c ∷ flag)
    then err (plain invalid_flag)
    else (do rest ← write_flags flags; ok (b' ' ∷ ((c ∷ flag) ++ rest)))

-- The length of the value, on the command line.
unfoldable pub size_part : MetaCommand → Bytes
size_part m = if m.has_value then b' ' ∷ format_uint (length m.value) else []

abbrev pub crlf : Bytes
crlf = b'\r' ∷ b'\n' ∷ []

-- The value behind the command line.
unfoldable pub value_part : MetaCommand → Bytes
value_part m = if m.has_value then m.value ++ crlf else []

-- The tests before the key.
unfoldable pub check_command : MetaCommand → Result (Unit {0})
check_command m = do
  refuse_if (not (is_supported m.command)) (plain unsupported_command)
  refuse_if (same m.command (codes "ms") && not m.has_value) (plain ms_requires_value)
  refuse_if (not (same m.command (codes "ms")) && m.has_value) (plain value_not_accepted)

unfoldable pub frame_line : MetaCommand → Bytes → Bytes → Result Bytes
frame_line m key flags =
    ok (m.command ++ (b' ' ∷ (key ++ (size_part m ++ (flags ++ (crlf ++ value_part m))))))

-- What follows the encoding of the key.
unfoldable pub marshal_key : MetaCommand → Bytes × Bool → Result Bytes
marshal_key m (key, binary) = do
  refuse_if (binary && same m.command (codes "me")) (plain debug_binary_key)
  flags ← write_flags (key_flags binary m.flags)
  frame_line m key flags

unfoldable pub marshal : MetaCommand → Result Bytes
marshal m = check_command m >> (encode_key m.key >>= marshal_key m)

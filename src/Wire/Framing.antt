-- ===== src/Wire/Framing.antt =====
-- The bytes that `marshal` of wire.go writes.
use mathlib.Core.List.{cons-ne-nil}
use go_memcache.Base.{
  ◌≡◌, refl, arith, Bool, true, ◌&&◌, List, [], ◌∷◌, ◌++◌, Bytes, All, same, codes, if◌then◌else◌,
  length, Bool-cases, inl, inr,
}
use go_memcache.Errors.{ok, bind-eq-ok, refuse-eq-ok, ◌>>=◌, plain, debug_binary_key}
use go_memcache.Std.Decimal.{format_uint}
use go_memcache.Wire.Char.{is_control, has_control}
use go_memcache.Wire.Token.{IsToken, join}
use go_memcache.Wire.{
  MetaCommand, is_supported, encode_key, key_flags, write_flags, size_part, value_part, crlf,
  marshal, marshal_key, frame_line, check_command,
}

-- A flag list is written exactly when every flag is a token.
write_flags-eq-ok :
    (flags : List Bytes) {out : Bytes}
    → write_flags flags ≡ ok out
    → All IsToken flags × (out ≡ join flags)
unfolding write_flags
write_flags-eq-ok [] h = ground arith
write_flags-eq-ok ([] ∷ flags) h = cc
write_flags-eq-ok ((c ∷ flag) ∷ flags) {out} h = elim (Bool-cases (has_control (c ∷ flag))) [
  | inl e ↦ cc (rw e at h)
  | inr e ↦
      let (rest, written, shape) = bind-eq-ok (write_flags flags) _ (rw e at h) in
      let (tokens, joined) = write_flags-eq-ok flags written in
      (((e, cons-ne-nil c flag), tokens), cc)
]

pub write_flags-join :
    (flags : List Bytes) → All IsToken flags → write_flags flags ≡ ok (join flags)
unfolding write_flags
write_flags-join [] h = refl
write_flags-join ([] ∷ flags) h = absurd (h.0.1 refl)
write_flags-join ((c ∷ flag) ∷ flags) h = ground (arith, write_flags-join flags h.1)

pub is_supported-IsToken : (c : Bytes) → is_supported c ≡ true → IsToken c
unfolding is_supported is_control
is_supported-IsToken [] h = cc
is_supported-IsToken (a ∷ []) h = ground arith
is_supported-IsToken (a ∷ b ∷ []) h = ground arith
is_supported-IsToken (a ∷ b ∷ c ∷ s) h = ground arith

-- The words of the command line behind the command.
abbrev pub line_words : MetaCommand → Bytes → Bool → List Bytes
line_words m wire binary =
    wire
    ∷ ((if m.has_value then format_uint (length m.value) ∷ [] else []) ++ key_flags binary m.flags)

-- What `marshal` has checked and written.
pub record IsFramed (m : MetaCommand) (out wire : Bytes) (binary : Bool) : Type 0 where
  pub key_sent : encode_key m.key ≡ ok (wire, binary)
  pub command_known : is_supported m.command ≡ true
  pub value_with_ms : m.has_value ≡ same m.command (codes "ms")
  pub flags_written : All IsToken (key_flags binary m.flags)
  pub bytes :
      out
      ≡ m.command
        ++ (b' '
            ∷ (wire
                ++ (size_part m ++ (join (key_flags binary m.flags) ++ (crlf ++ value_part m)))))

marshal_key-eq-ok :
    (m : MetaCommand) (wire : Bytes) (binary : Bool) {out : Bytes}
    → marshal_key m (wire, binary) ≡ ok out
    → (flags : Bytes) × (write_flags (key_flags binary m.flags) ≡ ok flags)
      × (frame_line m wire flags ≡ ok out)
unfolding marshal_key
marshal_key-eq-ok m wire binary h =
    bind-eq-ok (write_flags (key_flags binary m.flags)) (frame_line m wire)
      (refuse-eq-ok (binary && same m.command (codes "me")) (plain debug_binary_key)
        (write_flags (key_flags binary m.flags) >>= frame_line m wire) h).1

check_command-eq-ok :
    (m : MetaCommand)
    → check_command m ≡ ok tt
    → (is_supported m.command ≡ true) × (m.has_value ≡ same m.command (codes "ms"))
unfolding check_command
check_command-eq-ok m h = ground arith

marshal_key-IsFramed :
    (m : MetaCommand) (wire : Bytes) (binary : Bool) {out : Bytes}
    → (is_supported m.command ≡ true) × (m.has_value ≡ same m.command (codes "ms"))
    → encode_key m.key ≡ ok (wire, binary)
    → marshal_key m (wire, binary) ≡ ok out
    → IsFramed m out wire binary
unfolding frame_line
marshal_key-IsFramed m wire binary known sent h =
    let (flags, written, framed) = marshal_key-eq-ok m wire binary h in
    let (tokens, joined) = write_flags-eq-ok (key_flags binary m.flags) written in
    record {
      key_sent = sent;
      command_known = known.0;
      value_with_ms = known.1;
      flags_written = tokens;
      bytes = rw (← joined) (cc);
    }

pub marshal-IsFramed :
    (m : MetaCommand) {out : Bytes}
    → marshal m ≡ ok out
    → (wire : Bytes) × (binary : Bool) × IsFramed m out wire binary
unfolding marshal
marshal-IsFramed m {out} h =
    let (_, checked, later) =
      bind-eq-ok (check_command m) (λ _. encode_key m.key >>= marshal_key m) h in
    let ((wire, binary), sent, last) = bind-eq-ok (encode_key m.key) (marshal_key m) later in
    (wire, binary, marshal_key-IsFramed m wire binary (check_command-eq-ok m checked) sent last)

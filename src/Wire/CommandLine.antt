-- ===== src/Wire/CommandLine.antt =====
-- The command line that `marshal` of wire.go writes, as `asciiFields` reads it.
use mathlib.Core.List.{append_assoc}
use go_memcache.Base.{
  ℕ, ◌≡◌, refl, ◌∙◌, arith, Bool, false, ◌||◌, ◌==◌, List, [], ◌∷◌, ◌++◌, Bytes, All, any, length,
  Bool-cases, inl, inr,
}
use go_memcache.Errors.{ok}
use go_memcache.Std.Decimal.{format_uint}
use go_memcache.Std.Decimal.RoundTrip.{IsDigit, format_uint-IsDigit, format_uint-ne-nil}
use go_memcache.Wire.Char.{is_control, has_control}
use go_memcache.Wire.Token.{IsToken, join, ascii_fields-join}
use go_memcache.Wire.Line.{ascii_fields}
use go_memcache.Wire.Key.{encode_key-eq-ok, wire_key-IsToken}
use go_memcache.Wire.Framing.{line_words, is_supported-IsToken, marshal-IsFramed}
use go_memcache.Wire.{MetaCommand, encode_key, key_flags, size_part, value_part, crlf, marshal}

abbrev pub is_break : ℕ → Bool
is_break c = c == b'\r' || c == b'\n'

any-append : (p : ℕ → Bool) (xs ys : Bytes) → any p (xs ++ ys) ≡ (any p xs || any p ys)
any-append p [] ys = refl
any-append p (x ∷ xs) ys = ground (arith, any-append p xs ys)

is_break-token : (s : Bytes) → has_control s ≡ false → any is_break s ≡ false
unfolding is_control
is_break-token [] h = refl
is_break-token (c ∷ s) h = ground (arith, is_break-token s)

pub is_break-join : (l : List Bytes) → All IsToken l → any is_break (join l) ≡ false
is_break-join [] h = refl
is_break-join (s ∷ l) (hs, hl) =
    rw (any-append is_break s (join l), is_break-token s hs.0, is_break-join l hl)

has_control-digits : (s : Bytes) → All IsDigit s → has_control s ≡ false
unfolding is_control
has_control-digits [] h = refl
has_control-digits (c ∷ s) h = ground (arith, has_control-digits s)

pub format_uint-IsToken : (n : ℕ) → IsToken (format_uint n)
format_uint-IsToken n = (has_control-digits _ (format_uint-IsDigit n), format_uint-ne-nil n)

line_words-IsToken :
    (m : MetaCommand) (wire : Bytes) (binary : Bool)
    → IsToken wire
    → All IsToken (key_flags binary m.flags)
    → All IsToken (line_words m wire binary)
line_words-IsToken m wire binary w fs = elim (Bool-cases m.has_value) [
  | inl e ↦ rw e (w, (format_uint-IsToken (length m.value), fs))
  | inr e ↦ rw e (w, fs)
]

join-line_words :
    (m : MetaCommand) (wire : Bytes) (binary : Bool)
    → join (line_words m wire binary)
      ≡ b' ' ∷ (wire ++ (size_part m ++ join (key_flags binary m.flags)))
unfolding size_part
join-line_words m wire binary = elim (Bool-cases m.has_value) [ inl e ↦ rw e | inr e ↦ rw e ]

-- What `marshal` writes is one line that ends in CRLF, and behind it the value with its CRLF for a
-- command with a value. No carriage return or line feed stands in the line before its end, and
-- `asciiFields` finds in it the command, the key as sent, the length of a value, and the flags,
-- `b` added for a base64 key: nothing in a key or a flag can end the line or add a word.
pub fields-marshal :
    (m : MetaCommand) {out : Bytes}
    → marshal m ≡ ok out
    → (wire line : Bytes) × (binary : Bool) × (encode_key m.key ≡ ok (wire, binary))
      × (out ≡ line ++ (crlf ++ value_part m))
      × (any is_break line ≡ false)
      × (ascii_fields line ≡ m.command ∷ line_words m wire binary)
fields-marshal m {out} h =
    let (wire, binary, f) = marshal-IsFramed m h in
    let (same_wire, _, _, nonempty) = encode_key-eq-ok m.key f.key_sent in
    let word = is_supported-IsToken m.command f.command_known in
    let words =
      line_words-IsToken m wire binary (rw same_wire (wire_key-IsToken m.key nonempty))
        f.flags_written in
    (
      wire,
      m.command ++ join (line_words m wire binary),
      binary,
      f.key_sent,
      f.bytes ∙ simp (join-line_words m wire binary, append_assoc),
      rw (
        any-append is_break m.command (join (line_words m wire binary)),
        is_break-token m.command word.0,
        is_break-join (line_words m wire binary) words,
      ),
      ascii_fields-join m.command (line_words m wire binary) word words,
    )

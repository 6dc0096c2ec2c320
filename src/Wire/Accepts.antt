-- ===== src/Wire/Accepts.antt =====
-- When `marshal` accepts a command.
use mathlib.Core.List.{cons-ne-nil}
use go_memcache.Base.{
  ◌≡◌, refl, Bool, true, false, ◌&&◌, List, [], ◌∷◌, ◌++◌, Bytes, codes, same, any, All, All-append,
  Bool-cases, inl, inr,
}
use go_memcache.Errors.{ok}
use go_memcache.Wire.Char.{is_control}
use go_memcache.Wire.Token.{IsToken, join}
use go_memcache.Wire.Framing.{write_flags-join}
use go_memcache.Wire.{
  MetaCommand, is_supported, encode_key, key_flags, marshal, marshal_key, frame_line, check_command,
  size_part, value_part, crlf,
}

key_flags-IsToken :
    (binary : Bool) (flags : List Bytes) → All IsToken flags → All IsToken (key_flags binary flags)
unfolding key_flags is_control
key_flags-IsToken false flags h = h
key_flags-IsToken true flags h = elim (Bool-cases (any (λ flag. same flag (codes "b")) flags)) [
  | inl e ↦ rw e h
  | inr e ↦ rw e (All-append IsToken flags (codes "b" ∷ []) h ((refl, cons-ne-nil b'b' []), tt))
]

-- What the builders make sure of.
pub record IsBuilt (m : MetaCommand) : Type 0 where
  pub supported : is_supported m.command ≡ true
  pub value_with_ms : m.has_value ≡ same m.command (codes "ms")
  pub no_debug : same m.command (codes "me") ≡ false
  pub tokens : All IsToken m.flags

check_command-IsBuilt : (m : MetaCommand) → IsBuilt m → check_command m ≡ ok tt
unfolding check_command
check_command-IsBuilt m b =
    rw (b.supported, b.value_with_ms)
      (elim (Bool-cases (same m.command (codes "ms"))) [ inl e ↦ rw e refl | inr e ↦ rw e refl ])

and_false : (b : Bool) → (b && false) ≡ false
and_false true = refl
and_false false = refl

pub marshal-IsBuilt :
    (m : MetaCommand) {wire : Bytes} {binary : Bool}
    → IsBuilt m
    → encode_key m.key ≡ ok (wire, binary)
    → (out : Bytes) × (marshal m ≡ ok out)
unfolding marshal marshal_key frame_line
marshal-IsBuilt m {wire} {binary} b h = (
  m.command
      ++ (b' '
          ∷ (wire ++ (size_part m ++ (join (key_flags binary m.flags) ++ (crlf ++ value_part m))))),
  rw
      (
        check_command-IsBuilt m b,
        h,
        b.no_debug,
        and_false binary,
        write_flags-join (key_flags binary m.flags) (key_flags-IsToken binary m.flags b.tokens),
      )
      refl,
)

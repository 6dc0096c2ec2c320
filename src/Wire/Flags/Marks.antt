-- ===== src/Wire/Flags/Marks.antt =====
-- What a response says whatever else its flags hold.
use go_memcache.Base.{
  ℕ, Bool, true, false, ◌||◌, ◌≡◌, refl, arith, ◌∙◌, List, [], ◌∷◌, Option, Bytes, any, ◌==◌,
  if◌then◌else◌,
}
use go_memcache.Types.{RawResponse}
use go_memcache.Wire.Flags.{
  Scan, Letter, letter_of, scan_letter, scan_flag, scan_flags, finish_key, parse_response_flags,
  scan_start,
}

-- A flag of the letter.
abbrev pub has_letter : ℕ → Bytes → Bool
has_letter letter [] = false
has_letter letter (c ∷ token) = c == letter

-- The token of the last `O` flag, or `token` where there is none.
abbrev pub last_opaque : Bytes → List Bytes → Bytes
last_opaque token [] = token
last_opaque token ([] ∷ flags) = last_opaque token flags
last_opaque token ((c ∷ t) ∷ flags) = last_opaque (if c == b'O' then t else token) flags

-- The flags say of a response `r`, before they are read, what `t` holds.
pub record Marks (r : RawResponse) (flags : List Bytes) (t : RawResponse) : Type 0 where
  pub code : t.code ≡ r.code
  pub value : t.value ≡ r.value
  pub opaque : t.opaque ≡ last_opaque r.opaque flags
  pub won : t.won ≡ (r.won || any (has_letter b'W') flags)
  pub busy : t.busy ≡ (r.busy || any (has_letter b'Z') flags)
  pub stale : t.stale ≡ (r.stale || any (has_letter b'X') flags)

-- The same of one letter.
abbrev is_letter : Letter → Letter → Bool
is_letter Letter.opaque Letter.opaque = true
is_letter Letter.won Letter.won = true
is_letter Letter.busy Letter.busy = true
is_letter Letter.stale Letter.stale = true
is_letter _ _ = false

record LetterMarks (r : RawResponse) (l : Letter) (token : Bytes) (t : RawResponse) : Type 0 where
  code : t.code ≡ r.code
  value : t.value ≡ r.value
  opaque : t.opaque ≡ (if is_letter Letter.opaque l then token else r.opaque)
  won : t.won ≡ (r.won || is_letter Letter.won l)
  busy : t.busy ≡ (r.busy || is_letter Letter.busy l)
  stale : t.stale ≡ (r.stale || is_letter Letter.stale l)

scan_letter-LetterMarks :
    (l : Letter) (token : Bytes) (s : Scan)
    → LetterMarks s.response l token (scan_letter l token s).response
unfolding scan_letter
scan_letter-LetterMarks Letter.cas token s = ground arith
scan_letter-LetterMarks _ token s = ground arith

letter_of-marks :
    (c : ℕ)
    → (is_letter Letter.opaque (letter_of c) ≡ (c == b'O'))
      × (is_letter Letter.won (letter_of c) ≡ (c == b'W'))
      × (is_letter Letter.busy (letter_of c) ≡ (c == b'Z'))
      × (is_letter Letter.stale (letter_of c) ≡ (c == b'X'))
unfolding letter_of
letter_of-marks c = ground arith

scan_flag-Marks :
    (s : Scan) (flag : Bytes) → Marks s.response (flag ∷ []) (scan_flag s flag).response
unfolding scan_flag
scan_flag-Marks s [] = ground arith
scan_flag-Marks s (c ∷ token) =
    let (o, w, z, x) = letter_of-marks c in
    let m = scan_letter-LetterMarks (letter_of c) token s in
    record {
      code = m.code;
      value = m.value;
      opaque = m.opaque ∙ rw o;
      won = m.won ∙ rw w (ground arith);
      busy = m.busy ∙ rw z (ground arith);
      stale = m.stale ∙ rw x (ground arith);
    }

last_opaque-cons :
    (token flag : Bytes) (flags : List Bytes)
    → last_opaque (last_opaque token (flag ∷ [])) flags ≡ last_opaque token (flag ∷ flags)
last_opaque-cons token [] flags = refl
last_opaque-cons token (c ∷ t) flags = refl

Marks-cons :
    (flag : Bytes) (flags : List Bytes) (r t u : RawResponse)
    → Marks r (flag ∷ []) t
    → Marks t flags u
    → Marks r (flag ∷ flags) u
Marks-cons flag flags r t u a b = record {
  code = b.code ∙ a.code;
  value = b.value ∙ a.value;
  opaque = b.opaque ∙ rw a.opaque (last_opaque-cons r.opaque flag flags);
  won = ground (arith, a.won, b.won);
  busy = ground (arith, a.busy, b.busy);
  stale = ground (arith, a.stale, b.stale);
}

scan_flags-Marks :
    (flags : List Bytes) (s : Scan) → Marks s.response flags (scan_flags s flags).response
unfolding scan_flags
scan_flags-Marks [] s = ground arith
scan_flags-Marks (flag ∷ flags) s =
    Marks-cons flag flags s.response (scan_flag s flag).response
      (scan_flags (scan_flag s flag) flags).response (scan_flag-Marks s flag)
      (scan_flags-Marks flags (scan_flag s flag))

finish_key-Marks :
    (b : Bool) (k : Option Bytes) (s : Scan) → Marks s.response [] (finish_key b k s).response
unfolding finish_key
finish_key-Marks b k s = ground arith

Marks-finish :
    (flags : List Bytes) (r t u : RawResponse) → Marks r flags t → Marks t [] u → Marks r flags u
Marks-finish flags r t u a b = ground (arith, a, b)

-- Whether or not some flag of a response is unreadable, the code and the value stay what they were,
-- the opaque token is that of the last `O` flag, and the response is marked as won, busy or stale
-- exactly where it was before or a `W`, `Z` or `X` flag stands in it: a bad flag hides no other.
pub parse_response_flags-Marks : (r : RawResponse) → Marks r r.flags (parse_response_flags r)
unfolding parse_response_flags
parse_response_flags-Marks r =
    let start = scan_start r in
    let read = scan_flags start r.flags in
    let m =
      Marks-finish r.flags r read.response
        (finish_key read.base64_key read.response.key read).response
        (scan_flags-Marks r.flags start)
        (finish_key-Marks read.base64_key read.response.key read) in
    record {
      code = m.code;
      value = m.value;
      opaque = m.opaque;
      won = m.won;
      busy = m.busy;
      stale = m.stale;
    }

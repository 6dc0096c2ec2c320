-- ===== src/Wire/Line.antt =====
-- `readLine` and `asciiFields` of wire.go, and the error lines of `readRawResponse`. The reader is
-- the bytes that the connection will still deliver, and the error, `last`, with which it then ends.
use go_memcache.Base.{
  ℕ, ◌*◌, Bool, ◌&&◌, ◌||◌, true, false, List, [], ◌∷◌, ◌++◌, Option, none, some, Bytes, codes,
  same, ltb, leb, ◌==◌, if◌then◌else◌, length,
}
use go_memcache.Errors.{
  Err, protocol, server, error, client_error, server_error, Result, ok, err, line_too_long,
  line_not_crlf,
}

abbrev pub max_line_size : ℕ
max_line_size = 64 * 1024

-- Up to the first line feed, which the line keeps, and what follows it.
unfoldable pub split_line : Bytes → Option (Bytes × Bytes)
split_line [] = none
split_line (c ∷ s) =
    let later = split_line s in
    if c == b'\n'
    then some (c ∷ [], s)
    else elim later [ none ↦ none | some (line, rest) ↦ some (c ∷ line, rest) ]

-- A line without the carriage return and line feed that must end it.
unfoldable pub drop_crlf : Bytes → Option Bytes
drop_crlf [] = none
drop_crlf (c ∷ []) = none
drop_crlf (c ∷ d ∷ []) = if c == b'\r' then some [] else none
drop_crlf (c ∷ d ∷ e ∷ s) = elim (drop_crlf (d ∷ e ∷ s)) [
  | none ↦ none
  | some line ↦ some (c ∷ line)
]

unfoldable pub checked_line : Bytes → Option Bytes → Bytes → Result (Bytes × Bytes)
checked_line line none rest = err (protocol line_not_crlf)
checked_line line (some text) rest = ok (text, rest)

unfoldable pub split_result : Err → Bytes → Option (Bytes × Bytes) → Result (Bytes × Bytes)
unfolding checked_line drop_crlf
split_result last input none =
    if ltb max_line_size (length input) then err (protocol line_too_long) else err last
split_result last input (some (line, rest)) =
    if ltb max_line_size (length line)
    then err (protocol line_too_long)
    else checked_line line (drop_crlf line) rest

unfoldable pub read_line : Err → Bytes → Result (Bytes × Bytes)
unfolding split_line split_result
read_line last input = split_result last input (split_line input)

-- The word read so far, if there is one, in front of the later ones.
abbrev pub flush : Bytes → List Bytes → List Bytes
flush [] words = words
flush (c ∷ word) words = (c ∷ word) ∷ words

unfoldable pub fields_from : Bytes → Bytes → List Bytes
fields_from word [] = flush word []
fields_from word (c ∷ s) = elim (c == b' ') [
  | true ↦ flush word (fields_from [] s)
  | false ↦ fields_from (word ++ c ∷ []) s
]

unfoldable pub ascii_fields : Bytes → List Bytes
unfolding fields_from
ascii_fields = fields_from []

-- `strings.CutPrefix`.
unfoldable pub cut_prefix : Bytes → Bytes → Option Bytes
cut_prefix [] s = some s
cut_prefix (p ∷ ps) [] = none
cut_prefix (p ∷ ps) (c ∷ s) = if p == c then cut_prefix ps s else none

abbrev is_space : ℕ → Bool
is_space c = c == b' ' || (leb 9 c && leb c 13)

pub trim_left : Bytes → Bytes
trim_left [] = []
trim_left (c ∷ s) = let rest = trim_left s in if is_space c then rest else c ∷ s

-- Puts a byte in front of a text that is trimmed at its end.
abbrev cons_trimmed : ℕ → Bytes → Bytes
cons_trimmed c [] = if is_space c then [] else c ∷ []
cons_trimmed c (d ∷ s) = c ∷ d ∷ s

pub trim_right : Bytes → Bytes
trim_right [] = []
trim_right (c ∷ s) = cons_trimmed c (trim_right s)

-- `strings.TrimSpace` on an ASCII text.
unfoldable pub trim_space : Bytes → Bytes
unfolding trim_left trim_right
trim_space s = trim_right (trim_left s)

-- The three error lines of a server.
unfoldable pub server_line : Bytes → Option Err
unfolding cut_prefix trim_space
server_line text =
    if same text (codes "ERROR")
    then some (server error [])
    else elim (cut_prefix (codes "CLIENT_ERROR") text) [
      | some m ↦ some (server client_error (trim_space m))
      | none ↦ elim (cut_prefix (codes "SERVER_ERROR") text) [
        | some m ↦ some (server server_error (trim_space m))
        | none ↦ none
      ]
    ]

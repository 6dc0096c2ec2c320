-- ===== src/Wire/Token.antt =====
-- Tokens, lines of tokens, and how `asciiFields` takes such a line apart.
use mathlib.Core.List.{append-nil, append_assoc}
use go_memcache.Base.{◌≡◌, ◌≢◌, refl, ap, ◌∙◌, arith, false, List, [], ◌∷◌, ◌++◌, Bytes, All}
use go_memcache.Wire.Char.{is_control, has_control}
use go_memcache.Wire.Line.{flush, fields_from, ascii_fields}

-- At least one byte, and no space, control byte or delete.
abbrev pub IsToken : Bytes → Type 0
IsToken s = (has_control s ≡ false) × (s ≢ [])

-- Each token behind a space.
abbrev pub join : List Bytes → Bytes
join [] = []
join (s ∷ l) = b' ' ∷ (s ++ join l)

pub join-append : (xs ys : List Bytes) → join (xs ++ ys) ≡ join xs ++ join ys
join-append [] ys = refl
join-append (x ∷ xs) ys = simp (join-append xs ys, append_assoc)

fields_from-token :
    (s word rest : Bytes)
    → has_control s ≡ false
    → fields_from word (s ++ rest) ≡ fields_from (word ++ s) rest
unfolding fields_from is_control
fields_from-token [] word rest h = rw append-nil
fields_from-token (c ∷ s) word rest h =
    ground (arith, fields_from-token s (word ++ c ∷ []) rest, append_assoc word (c ∷ []) s)

flush-cons : (s : Bytes) (l : List Bytes) → s ≢ [] → flush s l ≡ s ∷ l
flush-cons [] l h = absurd (h refl)
flush-cons (c ∷ s) l h = refl

fields_from-space :
    (word rest : Bytes) → fields_from word (b' ' ∷ rest) ≡ flush word (fields_from [] rest)
unfolding fields_from
fields_from-space word rest = refl

fields_from-join :
    (l : List Bytes) (word : Bytes) → All IsToken l → fields_from word (join l) ≡ flush word l
fields_from-join [] word h = unfold fields_from in refl
fields_from-join (s ∷ l) word (hs, hl) =
    fields_from-space word (s ++ join l)
    ∙ ap (flush word)
        (fields_from-token s [] (join l) hs.0 ∙ fields_from-join l s hl ∙ flush-cons s l hs.1)

-- A line of tokens has those tokens as its fields.
pub ascii_fields-join :
    (s : Bytes) (l : List Bytes) → IsToken s → All IsToken l → ascii_fields (s ++ join l) ≡ s ∷ l
unfolding ascii_fields
ascii_fields-join s l h hl =
    fields_from-token s [] (join l) h.0 ∙ fields_from-join l s hl ∙ flush-cons s l h.1

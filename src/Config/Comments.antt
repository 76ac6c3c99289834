-- ===== src/Config/Comments.antt =====
-- internal/config/config.go: stripJSONComments, against the text that is put together of its pieces.
use hali_client.Base.{
  ℕ, ◌≡◌, refl, ap, ◌∙◌, Bool, true, false, not, ◌&&◌, List, [], ◌∷◌, ◌++◌, Str, contains,
  has_prefix, contains_byte, contains_by, All, ◌==◌, if◌then◌else◌, arith,
}

-- The four flags of the loop, of which one at most is set beside `escaped`, and the second character
-- of a comment's mark, which the loop passes over
pub data Mode : Type 0 where
  outside in_string escaped in_line in_block : Mode
  to_outside to_line to_block : Mode

abbrev pub next_byte : Str → ℕ
next_byte [] = 0
next_byte (d ∷ ds) = d

unfoldable pub strip_from : Mode → Str → Str
strip_from m [] = []
strip_from outside (c ∷ cs) =
    let quoted = strip_from in_string cs in
    let line = strip_from to_line cs in
    let block = strip_from to_block cs in
    let rest = strip_from outside cs in
    if c == b'"'
    then c ∷ quoted
    else if c == b'/' && next_byte cs == b'/'
    then line
    else if c == b'/' && next_byte cs == b'*'
    then block
    else c ∷ rest
strip_from in_string (c ∷ cs) =
    let escape = strip_from escaped cs in
    let ended = strip_from outside cs in
    let rest = strip_from in_string cs in
    c ∷ (if c == b'\\' then escape else if c == b'"' then ended else rest)
strip_from escaped (c ∷ cs) = c ∷ strip_from in_string cs
strip_from in_line (c ∷ cs) =
    let ended = strip_from outside cs in
    let rest = strip_from in_line cs in if c == 10 then c ∷ ended else rest
strip_from in_block (c ∷ cs) =
    let ended = strip_from to_outside cs in
    let rest = strip_from in_block cs in if c == b'*' && next_byte cs == b'/' then ended else rest
strip_from to_outside (c ∷ cs) = strip_from outside cs
strip_from to_line (c ∷ cs) = strip_from in_line cs
strip_from to_block (c ∷ cs) = strip_from in_block cs

-- stripJSONComments
unfoldable pub strip_json_comments : Str → Str
unfolding strip_from
strip_json_comments src = strip_from outside src

-- A piece of a commented JSON text: text outside strings, the inside of a string, and a comment of
-- either kind without its marks.
pub data Piece : Type 0 where
  plain quoted line block : Str → Piece

abbrev pub write_piece : Piece → Str → Str
write_piece (plain w) rest = w ++ rest
write_piece (quoted w) rest = b'"' ∷ (w ++ (b'"' ∷ rest))
write_piece (line w) rest = b'/' ∷ b'/' ∷ (w ++ (10 ∷ rest))
write_piece (block w) rest = b'/' ∷ b'*' ∷ (w ++ (b'*' ∷ b'/' ∷ rest))

unfoldable pub write_all : List Piece → Str
write_all [] = []
write_all (p ∷ ps) = write_piece p (write_all ps)

-- The same text without its comments; the end of the line stays.
abbrev pub write_kept : Piece → Str → Str
write_kept (plain w) rest = w ++ rest
write_kept (quoted w) rest = b'"' ∷ (w ++ (b'"' ∷ rest))
write_kept (line w) rest = 10 ∷ rest
write_kept (block w) rest = rest

unfoldable pub write_uncommented : List Piece → Str
write_uncommented [] = []
write_uncommented (p ∷ ps) = write_kept p (write_uncommented ps)

-- The inside of a string, with or without a backslash in front
unfoldable pub stays_inside : Bool → Str → Bool
stays_inside escape [] = not escape
stays_inside true (c ∷ cs) = stays_inside false cs
stays_inside false (c ∷ cs) =
    let escaped_rest = stays_inside true cs in
    let rest = stays_inside false cs in if c == b'\\' then escaped_rest else not (c == b'"') && rest

abbrev pub IsPiece : Piece → Type 0
IsPiece (plain w) = (contains_byte b'"' w ≡ false) × (contains_byte b'/' w ≡ false)
IsPiece (quoted w) = stays_inside false w ≡ true
IsPiece (line w) = contains_byte 10 w ≡ false
IsPiece (block w) = contains w (b'*' ∷ b'/' ∷ []) ≡ false

strip-plain :
    (w rest : Str)
    → contains_byte b'"' w ≡ false
    → contains_byte b'/' w ≡ false
    → strip_from outside (w ++ rest) ≡ w ++ strip_from outside rest
unfolding strip_from contains_by
strip-plain [] rest h k = refl
strip-plain (c ∷ cs) rest h k = ground (arith, strip-plain cs rest)

abbrev string_mode : Bool → Mode
string_mode true = escaped
string_mode false = in_string

strip-quoted :
    (escape : Bool) (w rest : Str)
    → stays_inside escape w ≡ true
    → strip_from (string_mode escape) (w ++ (b'"' ∷ rest)) ≡ w ++ (b'"' ∷ strip_from outside rest)
unfolding strip_from stays_inside
strip-quoted true [] rest h = absurd (cc h)
strip-quoted false [] rest h = refl
strip-quoted true (c ∷ cs) rest h = ap (◌∷◌ c) (strip-quoted false cs rest h)
strip-quoted false (c ∷ cs) rest h =
    ground (arith, strip-quoted false cs rest, strip-quoted true cs rest)

strip-line :
    (w rest : Str)
    → contains_byte 10 w ≡ false
    → strip_from in_line (w ++ (10 ∷ rest)) ≡ 10 ∷ strip_from outside rest
unfolding strip_from contains_by
strip-line [] rest h = refl
strip-line (c ∷ cs) rest h = ground (arith, strip-line cs rest)

strip-block :
    (w rest : Str)
    → contains w (b'*' ∷ b'/' ∷ []) ≡ false
    → strip_from in_block (w ++ (b'*' ∷ b'/' ∷ rest)) ≡ strip_from outside rest
unfolding strip_from contains has_prefix
strip-block [] rest h = refl
strip-block (c ∷ []) rest h = ground arith
strip-block (c ∷ d ∷ ds) rest h = ground (arith, strip-block (d ∷ ds) rest)

-- On a text that is put together of plain text, strings and comments of both kinds, stripJSONComments
-- takes away the comments, except for the ends of lines, and nothing else: the strings stay whole,
-- also where they hold the marks of a comment or quotes behind a backslash.
pub strip_json_comments-write_all :
    (ps : List Piece) → All IsPiece ps → strip_json_comments (write_all ps) ≡ write_uncommented ps
unfolding strip_json_comments strip_from write_all write_uncommented
strip_json_comments-write_all [] h = refl
strip_json_comments-write_all (plain w ∷ ps) ((q, s), h) =
    strip-plain w (write_all ps) q s ∙ ap (◌++◌ w) (strip_json_comments-write_all ps h)
strip_json_comments-write_all (quoted w ∷ ps) (q, h) = ap (◌∷◌ b'"') (
    strip-quoted false w (write_all ps) q
    ∙ ap (λ x. w ++ (b'"' ∷ x)) (strip_json_comments-write_all ps h))
strip_json_comments-write_all (line w ∷ ps) (q, h) =
    strip-line w (write_all ps) q ∙ ap (◌∷◌ 10) (strip_json_comments-write_all ps h)
strip_json_comments-write_all (block w ∷ ps) (q, h) =
    strip-block w (write_all ps) q ∙ strip_json_comments-write_all ps h

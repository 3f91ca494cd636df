-- ===== src/Json/Strings.antt =====
-- Strings through terminal/src/net/MiniJson.h: what `getString` reads back of what `escape` wrote.
use qt_s5p6818_face_tracking.Base.{
  ℕ, ◌≡◌, refl, sym, ◌∙◌, ap, ◌||◌, [], ◌∷◌, ◌++◌, Bytes, some, map, drop-append, ltb, ◌==◌,
  if◌then◌else◌, append_assoc, append-nil, arith,
}
use qt_s5p6818_face_tracking.Base.Text.{starts_with, find, find_self}
use qt_s5p6818_face_tracking.Json.{
  quote, colon, escape_byte, escape, needle_of, value_pos, unquote, get_string, skip_blank,
}

-- What is left of a character on the way: a control character other than \n, \r, \t is a blank.
abbrev pub sanitize_byte : ℕ → ℕ
sanitize_byte c =
    if c == b'\n' || c == b'\r' || c == b'\t' then c else if ltb c 0x20 then b' ' else c

unquote-escape_byte :
    (out : Bytes) (c : ℕ) (rest : Bytes) (n : ℕ)
    → unquote out (escape_byte c ++ n ∷ rest) ≡ unquote (out ++ sanitize_byte c ∷ []) (n ∷ rest)
unfolding unquote escape_byte
unquote-escape_byte out c rest n = ground arith

starts : (xs : Bytes) (q : ℕ) (rest : Bytes) → (n : ℕ) × (r : Bytes) × (xs ++ q ∷ rest ≡ n ∷ r)
starts [] q rest = (q, rest, refl)
starts (x ∷ xs) q rest = (x, xs ++ q ∷ rest, refl)

unquote-quote : (out rest : Bytes) → unquote out (quote ∷ rest) ≡ some out
unfolding unquote
unquote-quote out [] = refl
unquote-quote out (n ∷ rest) = refl

-- Escaping keeps a closing quote recognisable: the reader stops there, with the sanitized string.
pub unquote-escape :
    (out s rest : Bytes)
    → unquote out (escape s ++ quote ∷ rest) ≡ some (out ++ map sanitize_byte s)
unfolding escape
unquote-escape out [] rest = unquote-quote out rest ∙ ap some (sym (append-nil out))
unquote-escape out (c ∷ cs) rest =
    let (n, r, e) = starts (escape cs) quote rest in
    ap (unquote out)
      (append_assoc (escape_byte c) (escape cs) (quote ∷ rest) ∙ ap (◌++◌ (escape_byte c)) e)
    ∙ unquote-escape_byte out c r n
    ∙ ap (unquote (out ++ sanitize_byte c ∷ [])) (sym e)
    ∙ unquote-escape (out ++ sanitize_byte c ∷ []) cs rest
    ∙ ap some (append_assoc out (sanitize_byte c ∷ []) (map sanitize_byte cs))

find_brace : (key xs : Bytes) → find (needle_of key) (b'{' ∷ xs) ≡ find (needle_of key) xs
unfolding find starts_with
find_brace key xs = refl

-- An object that opens with the key: the value starts behind its colon.
value_pos_first :
    (key value : Bytes)
    → value_pos (b'{' ∷ (needle_of key ++ colon ∷ value)) key ≡ some (skip_blank value)
unfolding value_pos
value_pos_first key value = rw (
  find_brace key (needle_of key ++ colon ∷ value),
  find_self (needle_of key) (colon ∷ value),
  drop-append (needle_of key) (colon ∷ value),
)

-- Whatever the key, the string and the text behind it, a string escaped into the first member of
-- a JSON object is read back by `get_string` with the control characters other than \n, \r and \t
-- turned into blanks.
pub get_string-escape :
    (key s rest : Bytes)
    → get_string (b'{' ∷ (needle_of key ++ colon ∷ quote ∷ (escape s ++ quote ∷ rest))) key
      ≡ some (map sanitize_byte s)
unfolding get_string skip_blank
get_string-escape key s rest =
    rw (value_pos_first key (quote ∷ (escape s ++ quote ∷ rest))) (unquote-escape [] s rest)

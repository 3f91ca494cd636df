-- ===== src/Json.antt =====
-- terminal/src/net/MiniJson.h: escaping of strings, and extraction of a value by its key. A position
-- in the text is the text from there on, and `npos` or the result false is `none`; where the code
-- leaves its output argument alone on false, the caller supplies the value that stays.
pub mod Strings
pub mod Bounds
use qt_s5p6818_face_tracking.Base.{
  ◌>>=◌, ℕ, ◌+◌, Bool, true, false, ◌&&◌, ◌||◌, List, [], ◌∷◌, ◌++◌, Bytes, Option, none, some,
  length, take, drop, ltb, ◌==◌, if◌then◌else◌, equal,
}
use qt_s5p6818_face_tracking.Base.Text.{find}

abbrev pub quote : ℕ
quote = 0x22

abbrev pub backslash : ℕ
backslash = 0x5c

abbrev pub colon : ℕ
colon = 0x3a

-- What `escape` appends for one character.
unfoldable pub escape_byte : ℕ → Bytes
escape_byte c =
    if c == quote
    then backslash ∷ quote ∷ []
    else if c == backslash
    then backslash ∷ backslash ∷ []
    else if c == b'\n'
    then backslash ∷ b'n' ∷ []
    else if c == b'\r'
    then backslash ∷ b'r' ∷ []
    else if c == b'\t'
    then backslash ∷ b't' ∷ []
    else if ltb c 0x20
    then b' ' ∷ []
    else c ∷ []

unfoldable pub escape : Bytes → Bytes
unfolding escape_byte
escape [] = []
escape (c ∷ cs) = escape_byte c ++ escape cs

unfoldable pub skip_blank : Bytes → Bytes
skip_blank [] = []
skip_blank (c ∷ cs) = if c == b' ' || c == b'\t' then skip_blank cs else c ∷ cs

abbrev pub needle_of : Bytes → Bytes
needle_of key = quote ∷ (key ++ quote ∷ [])

-- The text just after `"key"`, its colon and the blanks behind that.
unfoldable pub value_pos : Bytes → Bytes → Option Bytes
unfolding find skip_blank
value_pos j key = do
  k ← find (needle_of key) j
  c ← find (colon ∷ []) (drop (length (needle_of key)) k)
  some (skip_blank (drop 1 c))

-- `strtod` is the C library's: it gives the number at the front of the text, if there is one.
unfoldable pub get_number {ℓ} : {D : Type ℓ} → (Bytes → Option D) → Bytes → Bytes → Option D
get_number strtod j key = do p ← value_pos j key; strtod p

unfoldable pub get_bool : Bytes → Bytes → Option Bool
unfolding equal
get_bool j key = do
  p ← value_pos j key
  if equal (take 4 p) (b't' ∷ b'r' ∷ b'u' ∷ b'e' ∷ [])
      then some true
      else if equal (take 5 p) (b'f' ∷ b'a' ∷ b'l' ∷ b's' ∷ b'e' ∷ [])
      then some false
      else none

unescape_byte : ℕ → ℕ
unescape_byte n =
    if n == b'n' then b'\n' else if n == b'r' then b'\r' else if n == b't' then b'\t' else n

-- The loop of `getString` behind the opening quote; `none` is an unterminated string.
unfoldable pub unquote : Bytes → Bytes → Option Bytes
unfolding unescape_byte
unquote out [] = none
unquote out (c ∷ []) = if c == quote then some out else none
unquote out (c ∷ n ∷ cs) =
    let escaped = unquote (out ++ unescape_byte n ∷ []) cs in
    let plain = unquote (out ++ c ∷ []) (n ∷ cs) in
    if c == quote then some out else if c == backslash then escaped else plain

read_string : Bytes → Option Bytes
read_string [] = none
read_string (c ∷ cs) = if c == quote then unquote [] cs else none

unfoldable pub get_string : Bytes → Bytes → Option Bytes
unfolding read_string
get_string j key = do p ← value_pos j key; read_string p

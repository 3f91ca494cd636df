-- ===== src/Websocket/Base64.antt =====
-- `base64` and `acceptKey` of terminal/src/net/WebSocketProto.h.
use qt_s5p6818_face_tracking.Base.{
  ℕ, ◌+◌, ◌-◌, ◌*◌, ◌/◌, ◌%◌, ◌^◌, ◌<◌, ◌≡◌, refl, true, false, ◌&&◌, [], ◌∷◌, ◌++◌, Bytes, length,
  get_or, ltb, leb, ◌==◌, if◌then◌else◌, AreBytes, arith,
}
use qt_s5p6818_face_tracking.Base.Bits.{holds_under, holds_under_lem}
use qt_s5p6818_face_tracking.Base.Text.{codes}
use qt_s5p6818_face_tracking.Websocket.Sha1.{sha1, sha1-AreBytes}

abbrev pub guid : Bytes
guid = codes "258EAFA5-E914-47DA-95CA-C5AB0DC85B11"

abbrev table : Bytes
table = codes "ABCDEFGHIJKLMNOPQRSTUVWXYZabcdefghijklmnopqrstuvwxyz0123456789+/"

digit : ℕ → ℕ
digit v = get_or table v 0

abbrev pad_char : ℕ
pad_char = b'='

-- The loop over groups of three, then the one or two bytes left.
unfoldable pub base64 : Bytes → Bytes
unfolding digit
base64 [] = []
base64 (x ∷ []) =
    let n = x * 2 ^ 16 in
    digit (n / 2 ^ 18 % 64) ∷ digit (n / 2 ^ 12 % 64) ∷ pad_char ∷ pad_char ∷ []
base64 (x ∷ y ∷ []) =
    let n = x * 2 ^ 16 + y * 2 ^ 8 in
    digit (n / 2 ^ 18 % 64) ∷ digit (n / 2 ^ 12 % 64) ∷ digit (n / 2 ^ 6 % 64) ∷ pad_char ∷ []
base64 (x ∷ y ∷ z ∷ rest) =
    let n = x * 2 ^ 16 + y * 2 ^ 8 + z in
    digit (n / 2 ^ 18 % 64)
    ∷ digit (n / 2 ^ 12 % 64)
    ∷ digit (n / 2 ^ 6 % 64)
    ∷ digit (n % 64)
    ∷ base64 rest

unfoldable pub accept_key : Bytes → Bytes
unfolding sha1 base64
accept_key client_key = base64 (sha1 (client_key ++ guid))

-- The value of a character of the alphabet, as RFC 4648 lists them.
value_of : ℕ → ℕ
value_of c =
    if leb b'A' c && leb c b'Z'
    then c - b'A'
    else if leb b'a' c && leb c b'z'
    then c - b'a' + 26
    else if leb b'0' c && leb c b'9'
    then c - b'0' + 52
    else if c == b'+'
    then 62
    else 63

-- A decoder by the RFC: four characters are three bytes, or fewer before padding.
pub decode64 : Bytes → Bytes
decode64 (p ∷ q ∷ r ∷ s ∷ rest) =
    let a = value_of p in
    let b = value_of q in
    let c = value_of r in
    let d = value_of s in
    if r == pad_char
    then (a * 4 + b / 16) ∷ []
    else if s == pad_char
    then (a * 4 + b / 16) ∷ (b % 16 * 16 + c / 4) ∷ []
    else (a * 4 + b / 16) ∷ (b % 16 * 16 + c / 4) ∷ (c % 4 * 64 + d) ∷ decode64 rest
decode64 _ = []

digit_table :
    holds_under
      (λ v.
        (value_of (digit v) == v)
        && ltb (digit v) 256
        && (if digit v == pad_char then false else true))
      64
    ≡ true
unfolding holds_under digit value_of
digit_table = refl

digit_facts : (v : ℕ) → v < 64 → (value_of (digit v) ≡ v) × ((digit v == pad_char) ≡ false)
digit_facts v h = ground (arith, holds_under_lem _ 64 v h digit_table)

-- Decoding by the table of RFC 4648 of what `base64` makes of bytes gives the bytes back.
pub decode64-base64 : (bs : Bytes) → AreBytes bs → decode64 (base64 bs) ≡ bs
unfolding decode64 base64
decode64-base64 [] h = refl
decode64-base64 (x ∷ []) h =
    let n = x * 2 ^ 16 in
    let a = digit_facts (n / 2 ^ 18 % 64) (omega arith) in
    let b = digit_facts (n / 2 ^ 12 % 64) (omega arith) in rw (a.0, b.0) (ground arith)
decode64-base64 (x ∷ y ∷ []) h =
    let n = x * 2 ^ 16 + y * 2 ^ 8 in
    let a = digit_facts (n / 2 ^ 18 % 64) (omega arith) in
    let b = digit_facts (n / 2 ^ 12 % 64) (omega arith) in
    let c = digit_facts (n / 2 ^ 6 % 64) (omega arith) in rw (c.1, a.0, b.0, c.0) (ground arith)
decode64-base64 (x ∷ y ∷ z ∷ rest) h =
    let n = x * 2 ^ 16 + y * 2 ^ 8 + z in
    let a = digit_facts (n / 2 ^ 18 % 64) (omega arith) in
    let b = digit_facts (n / 2 ^ 12 % 64) (omega arith) in
    let c = digit_facts (n / 2 ^ 6 % 64) (omega arith) in
    let d = digit_facts (n % 64) (omega arith) in
    rw (c.1, d.1, a.0, b.0, c.0, d.0, decode64-base64 rest h.1.1.1) (ground arith)

length-base64 : (bs : Bytes) → length (base64 bs) ≡ (length bs + 2) / 3 * 4
unfolding base64
length-base64 [] = refl
length-base64 (x ∷ []) = refl
length-base64 (x ∷ y ∷ []) = refl
length-base64 (x ∷ y ∷ z ∷ rest) = omega (arith, length-base64 rest)

-- The accept value has 28 characters and decodes to the SHA-1 digest of the key with the GUID.
pub accept_key_lem :
    (client_key : Bytes)
    → (length (accept_key client_key) ≡ 28)
      × (decode64 (accept_key client_key) ≡ sha1 (client_key ++ guid))
unfolding accept_key
accept_key_lem client_key = (
  omega (arith, length-base64 (sha1 (client_key ++ guid)), (sha1-AreBytes (client_key ++ guid)).0),
  decode64-base64 (sha1 (client_key ++ guid)) (sha1-AreBytes (client_key ++ guid)).1,
)

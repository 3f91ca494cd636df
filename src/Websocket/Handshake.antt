-- ===== src/Websocket/Handshake.antt =====
-- terminal/src/net/WebSocketConn.cpp: `headerValue` and `handshake`, the HTTP upgrade.
pub mod Lines
pub mod Upgrade
use qt_s5p6818_face_tracking.Base.{
  ℕ, ◌+◌, ◌-◌, ◌*◌, ◌≤◌, ◌≡◌, ◌⊎◌, subst, inl, inr, Bool-cases, Bool, true, false, ◌&&◌, ◌||◌, not,
  List, [], ◌∷◌, ◌++◌, map, Bytes, Option, none, some, length, length-append, take, drop, ltb, leb,
  ltb→ge, ◌==◌, if◌then◌else◌, arith, All,
}
use qt_s5p6818_face_tracking.Base.Text.{starts_with, find, contains, codes}
use qt_s5p6818_face_tracking.Session.{send}
use qt_s5p6818_face_tracking.Session.Dispatch.{
  Received, bytes, eof, failed, eintr, eagain, ewouldblock, other,
}
use qt_s5p6818_face_tracking.Websocket.Base64.{accept_key}
use qt_s5p6818_face_tracking.Websocket.Conn.{Conn}

abbrev crlf : Bytes
crlf = 13 ∷ 10 ∷ []

-- The blank line at the end of the header.
abbrev pub blank_line : Bytes
blank_line = 13 ∷ 10 ∷ 13 ∷ 10 ∷ []

-- std::tolower in the C locale.
unfoldable pub to_lower : ℕ → ℕ
to_lower c = if leb b'A' c && leb c b'Z' then c + 32 else c

abbrev is_blank : ℕ → Bool
is_blank c = c == b' ' || c == b'\t'

trim_left : Bytes → Bytes
trim_left [] = []
trim_left (c ∷ cs) = let rest = trim_left cs in if is_blank c then rest else c ∷ cs

trim_right : Bytes → Bytes
trim_right [] = []
trim_right (c ∷ cs) =
    let rest = trim_right cs in if is_blank c && length rest == 0 then [] else c ∷ rest

-- The position of a needle that `find` has found.
abbrev pub position : Bytes → Bytes → ℕ
position bs at = length bs - length at

abbrev up_to : Bytes → Option Bytes → Bytes
up_to bs none = bs
up_to bs (some at) = take (position bs at) bs

-- `if (pos != 0) pos += 2;`
abbrev line_start : ℕ → ℕ
line_start pos = if pos == 0 then 0 else pos + 2

-- Where a header's line starts, in the block with small letters.
header_line : Bytes → Bytes → Option ℕ
header_line lower key =
    if starts_with (key ++ codes ":") lower
    then some 0
    else elim (find (crlf ++ (key ++ codes ":")) lower) [
      | none ↦ none
      | some at ↦ some (line_start (position lower at))
    ]

-- The text behind the colon, to the end of the line, without the blanks around it.
value_at : Bytes → Bytes → Option ℕ → Bytes
unfolding trim_left trim_right
value_at block key none = []
value_at block key (some pos) =
    let rest = drop (pos + length key + 1) block in
    trim_right (trim_left (up_to rest (find crlf rest)))

unfoldable pub header_value : Bytes → Bytes → Bytes
unfolding value_at header_line
header_value block name =
    let key = map to_lower name in value_at block key (header_line (map to_lower block) key)

-- What the reading loop comes to: the request with what came behind it, a failure, or the wait for
-- more (the list of reads has ended before the loop).
pub data Request : Type 0 where
  complete : Bytes → Request
  refused : Request
  pending : Request

abbrev pub header_limit : ℕ
header_limit = 16 * 1024

-- The top of the loop: `none` is to read on.
unfoldable pub ready : Bytes → Option Request
ready req =
    if contains blank_line req
    then some (complete req)
    else if ltb header_limit (length req)
    then some refused
    else none

abbrev or_else : Option Request → Request → Request
or_else none r = r
or_else (some r) next = r

unfoldable pub request : Bytes → List Received → Request
request req [] = or_else (ready req) pending
request req (bytes got ∷ rs) = or_else (ready req) (request (req ++ got) rs)
request req (eof ∷ rs) = or_else (ready req) refused
request req (failed eintr ∷ rs) = or_else (ready req) (request req rs)
request req (failed eagain ∷ rs) = or_else (ready req) refused
request req (failed ewouldblock ∷ rs) = or_else (ready req) refused
request req (failed other ∷ rs) = or_else (ready req) refused

-- The start of what follows the blank line.
unfoldable pub body_start : Bytes → Option Bytes → ℕ
body_start req none = 0
body_start req (some at) = position req at + 4

unfoldable pub response : Bytes → Bytes
response key =
    codes
      "HTTP/1.1 101 Switching Protocols\r\nUpgrade: websocket\r\nConnection: Upgrade\r\nSec-WebSocket-Accept: "
    ++ (accept_key key ++ blank_line)

-- Behind the loop.
unfoldable pub respond : Conn → Bytes → Conn × Bool
unfolding send
respond c req =
    let start = body_start req (find blank_line req) in
    let key = header_value (take (start - 2) req) (codes "Sec-WebSocket-Key") in
    if length key == 0
    then (c, false)
    else let (l, done) = send c.stream (response key) in
      (record c { stream = l; rx = c.rx ++ drop start req }, done)

after_request : Conn → Request → Option (Conn × Bool)
after_request c (complete req) = some (respond c req)
after_request c refused = some (c, false)
after_request c pending = none

-- `stream_handshake` is what the stream's own handshake gives; `none` is to wait for more reads.
unfoldable pub handshake : Conn → Bool → List Received → Option (Conn × Bool)
unfolding after_request
handshake c stream_handshake reads =
    if not stream_handshake then some (c, false) else after_request c (request [] reads)

abbrev pub IsRead : Received → Type 0
IsRead (bytes got) = length got ≤ 2048
IsRead _ = Unit

-- The request that a result holds.
abbrev IsWhole : Bytes → Type 0
IsWhole r = (contains blank_line r ≡ true) × (length r ≤ header_limit + 2048)

-- What a complete result holds is whole.
abbrev AreWhole : Request → Type 0
AreWhole (complete r) = IsWhole r
AreWhole _ = Unit

ready-cases :
    (req : Bytes)
    → ((ready req ≡ some (complete req)) × (contains blank_line req ≡ true))
      ⊎ (ready req ≡ some refused)
      ⊎ ((ready req ≡ none) × (length req ≤ header_limit))
unfolding ready
ready-cases req = elim (Bool-cases (contains blank_line req)) [
  | inl e ↦ inl (rw e, e)
  | inr e ↦ elim (Bool-cases (ltb header_limit (length req))) [
    | inl f ↦ inr (inl (rw (e, f)))
    | inr f ↦ inr (inr (rw (e, f), ltb→ge _ _ f))
  ]
]

or_else-AreWhole :
    (req : Bytes) (next : Request)
    → length req ≤ header_limit + 2048
    → (length req ≤ header_limit → AreWhole next)
    → AreWhole (or_else (ready req) next)
or_else-AreWhole req next h more = elim (ready-cases req) [
  | inl (e, f) ↦ rw e (f, h)
  | inr (inl e) ↦ rw e tt
  | inr (inr (e, short)) ↦ rw e (more short)
]

request-AreWhole :
    (rs : List Received) (req : Bytes)
    → All IsRead rs
    → length req ≤ header_limit + 2048
    → AreWhole (request req rs)
unfolding request
request-AreWhole [] req a h = or_else-AreWhole req pending h (λ s. tt)
request-AreWhole (bytes got ∷ rs) req (k, a) h =
    or_else-AreWhole req (request (req ++ got) rs) h
      (λ s. request-AreWhole rs (req ++ got) a (omega (arith, length-append req got)))
request-AreWhole (eof ∷ rs) req a h = or_else-AreWhole req refused h (λ s. tt)
request-AreWhole (failed eintr ∷ rs) req (k, a) h =
    or_else-AreWhole req (request req rs) h (λ s. request-AreWhole rs req a h)
request-AreWhole (failed eagain ∷ rs) req a h = or_else-AreWhole req refused h (λ s. tt)
request-AreWhole (failed ewouldblock ∷ rs) req a h = or_else-AreWhole req refused h (λ s. tt)
request-AreWhole (failed other ∷ rs) req a h = or_else-AreWhole req refused h (λ s. tt)

-- With reads of 2048 bytes at most, an upgrade request that the loop takes as complete has its
-- blank line and at most 2048 bytes above the limit.
pub request-bounded :
    (rs : List Received) (r : Bytes)
    → All IsRead rs
    → request [] rs ≡ complete r
    → (contains blank_line r ≡ true) × (length r ≤ header_limit + 2048)
request-bounded rs r a e = subst AreWhole e (request-AreWhole rs [] a (omega arith))

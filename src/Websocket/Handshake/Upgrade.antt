-- ===== src/Websocket/Handshake/Upgrade.antt =====
-- terminal/src/net/WebSocketConn.cpp: `handshake` on a whole upgrade request, however it is cut.
use mathlib.Core.List.{flatten, append_cancel_left, append_cancel_right}
use qt_s5p6818_face_tracking.Base.{
  ◌+◌, ◌-◌, ◌≤◌, ◌<◌, ◌≡◌, refl, sym, ap, subst, ◌∙◌, inl, inr, Bool, true, false, ◌&&◌, Bool-cases,
  List, [], ◌∷◌, ◌++◌, map, Bytes, none, some, Option-cases, length, length-append, take, drop,
  take-append, drop-append, append-nil, append_assoc, All, ge→ltb, ◌==◌, if◌then◌else◌, arith,
}
use qt_s5p6818_face_tracking.Base.Text.{starts_with, starts_with_sound, find, contains, codes}
use qt_s5p6818_face_tracking.Session.{send}
use qt_s5p6818_face_tracking.Session.Dispatch.{bytes}
use qt_s5p6818_face_tracking.Websocket.Conn.{Conn}
use qt_s5p6818_face_tracking.Websocket.Handshake.{
  blank_line, header_limit, complete, request, ready, position, body_start, respond, response,
  handshake, after_request,
}
use qt_s5p6818_face_tracking.Websocket.Handshake.Lines.{
  unlines, IsLine, lookup_header, header_value-lookup, find_line, starts_with-length,
}

-- The bytes of a request: its lines, an empty line, and what comes behind it.
abbrev pub request_bytes : List Bytes → Bytes → Bytes
request_bytes ls early = unlines ls ++ (13 ∷ 10 ∷ early)

line_end_first : (l rest : Bytes) → IsLine l → starts_with (13 ∷ 10 ∷ []) (l ++ rest) ≡ false
unfolding starts_with
line_end_first [] rest h = absurd (omega (arith, h.0))
line_end_first (x ∷ l) rest h = ground (arith, h.1.0)

find_blank :
    (l : Bytes) (ls : List Bytes) (early : Bytes)
    → All IsLine (l ∷ ls)
    → find blank_line (request_bytes (l ∷ ls) early) ≡ some (blank_line ++ early)
find_blank l [] early h =
    ap (find blank_line) (append_assoc l (13 ∷ 10 ∷ []) (13 ∷ 10 ∷ early))
    ∙ find_line l (13 ∷ 10 ∷ []) (13 ∷ 10 ∷ early) h.0.1
    ∙ unfold starts_with in refl
find_blank l (m ∷ ls) early h =
    ap (find blank_line) (append_assoc l (13 ∷ 10 ∷ unlines (m ∷ ls)) (13 ∷ 10 ∷ early))
    ∙ find_line l (13 ∷ 10 ∷ []) (request_bytes (m ∷ ls) early) h.0.1
    ∙ rw
        (
          append_assoc m (13 ∷ 10 ∷ unlines ls) (13 ∷ 10 ∷ early),
          line_end_first m (13 ∷ 10 ∷ (unlines ls ++ (13 ∷ 10 ∷ early))) h.1.0,
          sym (append_assoc m (13 ∷ 10 ∷ unlines ls) (13 ∷ 10 ∷ early)),
        )
        (find_blank m ls early h.1)

starts_with-longer :
    (n x rest : Bytes) → length n ≤ length x → starts_with n (x ++ rest) ≡ starts_with n x
unfolding starts_with
starts_with-longer [] x rest h = refl
starts_with-longer (a ∷ n) [] rest h = absurd (omega arith)
starts_with-longer (a ∷ n) (b ∷ x) rest h =
    ap (λ t. a == b && t) (starts_with-longer n x rest (omega arith))

find-length : (n bs at : Bytes) → find n bs ≡ some at → length n ≤ length bs
unfolding find
find-length n [] at e = elim (Bool-cases (starts_with n [])) [
  | inl h ↦ starts_with-length n [] h
  | inr h ↦ absurd (cc (rw h at e))
]
find-length n (b ∷ bs) at e = elim (Bool-cases (starts_with n (b ∷ bs))) [
  | inl h ↦ starts_with-length n (b ∷ bs) h
  | inr h ↦ omega (arith, find-length n bs at (rw h at e))
]

find-starts : (n bs at : Bytes) → find n bs ≡ some at → starts_with n at ≡ true
unfolding find
find-starts n [] at e = elim (Bool-cases (starts_with n [])) [
  | inl h ↦ subst (λ x. starts_with n x ≡ true) (cc (rw h at e)) h
  | inr h ↦ absurd (cc (rw h at e))
]
find-starts n (b ∷ bs) at e = elim (Bool-cases (starts_with n (b ∷ bs))) [
  | inl h ↦ subst (λ x. starts_with n x ≡ true) (cc (rw h at e)) h
  | inr h ↦ find-starts n bs at (rw h at e)
]

-- What is found stays found when more comes behind it.
find-longer :
    (n bs at rest : Bytes)
    → 0 < length n
    → find n bs ≡ some at
    → find n (bs ++ rest) ≡ some (at ++ rest)
unfolding find
find-longer n [] at rest p e = absurd (omega (arith, find-length n [] at e))
find-longer n (b ∷ bs) at rest p e =
    let same = starts_with-longer n (b ∷ bs) rest (find-length n (b ∷ bs) at e) in
    elim (Bool-cases (starts_with n (b ∷ bs))) [
      | inl h ↦
          let here : b ∷ bs ≡ at = cc (rw h at e) in rw (same, h) (ap (λ x. some (x ++ rest)) here)
      | inr h ↦ rw (same, h) (find-longer n bs at rest p (rw h at e))
    ]

-- A front of a request that holds the blank line holds the lines whole, and a front of what is
-- behind them.
front-request :
    (l : Bytes) (ls : List Bytes) (early req rest : Bytes)
    → All IsLine (l ∷ ls)
    → req ++ rest ≡ request_bytes (l ∷ ls) early
    → contains blank_line req ≡ true
    → (kept : Bytes) × (kept ++ rest ≡ early) × (req ≡ request_bytes (l ∷ ls) kept)
front-request l ls early req rest h e c = elim (Option-cases (find blank_line req)) [
  | inl n ↦ absurd (cc (rw n at c))
  | inr (at, f) ↦
      let (kept, split) = starts_with_sound blank_line at (find-starts blank_line req at f) in
      let both : some (at ++ rest) ≡ some (blank_line ++ early) =
        sym (find-longer blank_line req at rest (omega arith) f)
        ∙ ap (find blank_line) e
        ∙ find_blank l ls early h in
      let all : at ++ rest ≡ blank_line ++ early = cc both in
      let behind : kept ++ rest ≡ early =
        append_cancel_left blank_line (kept ++ rest) early
          (ap (λ x. x ++ rest) (sym split) ∙ all) in
      (
        kept,
        behind,
        append_cancel_right req (request_bytes (l ∷ ls) kept) rest (
            e
            ∙ ap (request_bytes (l ∷ ls)) (sym behind)
            ∙ sym (append_assoc (unlines (l ∷ ls)) (13 ∷ 10 ∷ kept) rest)),
      )
]

ready_yes : (req : Bytes) → contains blank_line req ≡ true → ready req ≡ some (complete req)
unfolding ready
ready_yes req e = rw e refl

ready_no :
    (req : Bytes) → contains blank_line req ≡ false → length req ≤ header_limit → ready req ≡ none
unfolding ready
ready_no req e h = rw (e, ge→ltb header_limit (length req) h) refl

-- The loop comes to the whole request, with a front of what is behind it.
request-complete :
    (l : Bytes) (ls : List Bytes) (early : Bytes) (qs : List Bytes) (req : Bytes)
    → All IsLine (l ∷ ls)
    → length (request_bytes (l ∷ ls) early) ≤ header_limit
    → req ++ flatten qs ≡ request_bytes (l ∷ ls) early
    → (kept : Bytes) × (rest : Bytes) × (kept ++ rest ≡ early)
      × (request req (map bytes qs) ≡ complete (request_bytes (l ∷ ls) kept))
unfolding request flatten
request-complete l ls early [] req h fit e =
    let whole : req ≡ request_bytes (l ∷ ls) early = sym (append-nil req) ∙ e in
    (
      early,
      [],
      append-nil early,
      rw (ready_yes req (ap (contains blank_line) whole ∙ rw (find_blank l ls early h) refl))
          (ap complete whole),
    )
request-complete l ls early (q ∷ qs) req h fit e = elim (Bool-cases (contains blank_line req)) [
  | inl c ↦
      let (kept, behind, whole) = front-request l ls early req (q ++ flatten qs) h e c in
      (kept, q ++ flatten qs, behind, rw (ready_yes req c) (ap complete whole))
  | inr c ↦
      let short : length req ≤ header_limit =
        omega (arith, length-append req (q ++ flatten qs), ap length e) in
      let (kept, rest, behind, done) =
        request-complete l ls early qs (req ++ q) h fit (append_assoc req q (flatten qs) ∙ e) in
      (kept, rest, behind, rw (ready_no req c short) done)
]

abbrev pub key_name : Bytes
key_name = codes "Sec-WebSocket-Key"

-- The answer to a key: nothing and a refusal where it is empty, else the response to it, and the
-- bytes behind the request for the frames.
abbrev pub answer : Conn → Bytes → Bytes → Conn × Bool
answer c key kept = if length key == 0 then (c, false) else (
  record c { stream = (send c.stream (response key)).0; rx = c.rx ++ kept },
  (send c.stream (response key)).1,
)

-- The block of lines and what is behind the blank line, by the position of the blank line.
block_split :
    (l : Bytes) (ls : List Bytes) (kept : Bytes)
    → let req = request_bytes (l ∷ ls) kept in
      let start = position req (blank_line ++ kept) + 4 in
      (take (start - 2) req ≡ unlines (l ∷ ls)) × (drop start req ≡ kept)
block_split l ls kept =
    let block = unlines (l ∷ ls) in
    let end = 13 ∷ 10 ∷ [] in
    let req = request_bytes (l ∷ ls) kept in
    let start = position req (blank_line ++ kept) + 4 in
    let size : start ≡ length (block ++ end) = omega (
      arith,
      length-append l (13 ∷ 10 ∷ unlines ls),
      length-append block (13 ∷ 10 ∷ kept),
      length-append block end,
    ) in
    let front : start - 2 ≡ length block = omega (arith, size, length-append block end) in
    (
      ap (λ n. take n req) front ∙ take-append block (13 ∷ 10 ∷ kept),
      ap (λ n. drop n req) size
          ∙ ap (drop (length (block ++ end))) (sym (append_assoc block end kept))
          ∙ drop-append (block ++ end) kept,
    )

respond-answer :
    (c : Conn) (l : Bytes) (ls : List Bytes) (kept : Bytes)
    → All IsLine (l ∷ ls)
    → respond c (request_bytes (l ∷ ls) kept) ≡ answer c (lookup_header (l ∷ ls) key_name) kept
unfolding respond body_start
respond-answer c l ls kept h =
    let (block, behind) = block_split l ls kept in
    rw (find_blank l ls kept h)
      (rw (block, behind, header_value-lookup key_name l ls (omega arith) h) refl)

-- An upgrade request of lines that are not empty and hold no carriage return, within the limit
-- and cut by the network in any way, is answered by the response to the value that a lookup in
-- the list of its lines gives for Sec-WebSocket-Key, or refused where that is empty; what the
-- connection keeps for its frames is a front of the bytes behind the request.
pub handshake-answer :
    (c : Conn) (l : Bytes) (ls : List Bytes) (early : Bytes) (qs : List Bytes)
    → All IsLine (l ∷ ls)
    → length (request_bytes (l ∷ ls) early) ≤ header_limit
    → flatten qs ≡ request_bytes (l ∷ ls) early
    → (kept : Bytes) × (rest : Bytes) × (kept ++ rest ≡ early)
      × (handshake c true (map bytes qs) ≡ some (answer c (lookup_header (l ∷ ls) key_name) kept))
unfolding handshake after_request
handshake-answer c l ls early qs h fit e =
    let (kept, rest, behind, done) = request-complete l ls early qs [] h fit e in
    (kept, rest, behind, rw done (ap some (respond-answer c l ls kept h)))

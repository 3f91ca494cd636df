-- ===== src/Websocket/Conn/Calls.antt =====
-- terminal/src/net/WebSocketConn.cpp: calls of `recv` one after another, and the SEC1 messages
-- (terminal/src/net/ClientSession.cpp) that the session takes out of what they give.
use mathlib.Core.List.{flatten}
use qt_s5p6818_face_tracking.Base.{
  ℕ, zero, suc, ◌+◌, ◌≤◌, ◌<◌, ◌≡◌, refl, sym, ap, subst, ◌∙◌, inl, inr, ◌⊎◌, true, false,
  Bool-cases, List, [], ◌∷◌, ◌++◌, Bytes, length, length-append, length-drop, take, drop,
  take-append-drop, append_assoc, append-nil, if◌then◌else◌, ◌==◌, arith,
}
use qt_s5p6818_face_tracking.Session.Dispatch.{Received, bytes, eof, failed, eagain}
use qt_s5p6818_face_tracking.Websocket.{need_more, decode_frame}
use qt_s5p6818_face_tracking.Websocket.Conn.{
  Conn, max_payload, drain_frames, serve, after_drain, after_read, recv,
}
use qt_s5p6818_face_tracking.Websocket.Conn.Cuts.{
  with_rx, prepend, after, after_open, after-append, after-prepend, after-closed, drain_more,
}
use qt_s5p6818_face_tracking.Websocket.Conn.Settled.{IsDrained, drain_frames_settled}

abbrev piece : Received → List Bytes
piece (bytes b) = b ∷ []
piece _ = []

-- What the stream's read gives while it still holds these: the first, or the wait for more.
abbrev next_read : List Bytes → Received
next_read [] = failed eagain
next_read (q ∷ qs) = bytes q

-- A call that serves what is pending makes no read of the stream.
abbrev unread : Conn → List Bytes → List Bytes
unread c [] = []
unread c (q ∷ qs) = if length c.app == 0 then qs else q ∷ qs

-- So many calls with room for `cap_size`: the byte strings that they give, and the connection.
unfoldable pub calls : ℕ → ℕ → Conn → List Bytes → List Bytes × Conn
calls cap_size zero c qs = ([], c)
calls cap_size (suc n) c qs =
    let (c', r) = recv c cap_size (next_read qs) in
    let (ps, d) = calls cap_size n c' (unread c qs) in (piece r ++ ps, d)

-- Nothing is pending for the session.
abbrev pub idle : Conn → Conn
idle c = record c { app = [] }

-- What the calls come to: all that is pending or still to be read has been given.
abbrev pub GivesAll : Conn → List Bytes → List Bytes × Conn → Type 0
GivesAll c qs r =
    (flatten r.0 ≡ c.app ++ (after (idle c) (flatten qs)).app)
    × (r.1 ≡ idle (after (idle c) (flatten qs)))

app-cases : (c : Conn) → (c.app ≡ []) ⊎ ((length c.app == 0) ≡ false × (0 < length c.app))
app-cases c = split c.app
  where
    split : (a : Bytes) → (a ≡ []) ⊎ ((length a == 0) ≡ false × (0 < length a))
    split [] = inl refl
    split (x ∷ xs) = inr (ground arith, omega arith)

-- The three ways of a call on an open connection.
recv_pending :
    (c : Conn) (cap_size : ℕ) (got : Received)
    → (length c.app == 0) ≡ false
    → recv c cap_size got ≡ (record c { app = drop cap_size c.app }, bytes (take cap_size c.app))
unfolding recv serve
recv_pending c cap_size got e = rw e refl

recv_nothing :
    (c : Conn) (cap_size : ℕ)
    → c.closed ≡ false
    → c.app ≡ []
    → recv c cap_size (failed eagain) ≡ (c, failed eagain)
unfolding recv after_read
recv_nothing c cap_size o e = ground (arith, o, e)

recv_read :
    (c : Conn) (cap_size : ℕ) (q : Bytes)
    → c.closed ≡ false
    → c.app ≡ []
    → recv c cap_size (bytes q) ≡ after_drain (after c q) cap_size
unfolding recv after_read
recv_read c cap_size q o e = rw (after_open c q o) (ground (arith, o, e))

drain_nothing :
    (c : Conn) (cap_size : ℕ)
    → c.closed ≡ false
    → c.app ≡ []
    → after_drain c cap_size ≡ (c, failed eagain)
unfolding after_drain
drain_nothing c cap_size o e = ground (arith, o, e)

drain_pending :
    (c : Conn) (cap_size : ℕ)
    → (length c.app == 0) ≡ false
    → after_drain c cap_size ≡ (record c { app = drop cap_size c.app }, bytes (take cap_size c.app))
unfolding after_drain serve
drain_pending c cap_size e = rw e refl

flatten-piece :
    (r : Received) (ps : List Bytes) → flatten (piece r ++ ps) ≡ flatten (piece r) ++ flatten ps
unfolding flatten
flatten-piece (bytes b) ps = ap (λ x. x ++ flatten ps) (sym (append-nil b))
flatten-piece eof ps = refl
flatten-piece (failed e) ps = refl

-- One more call before the others.
before :
    (cap_size n : ℕ) (c c' v w : Conn) (qs : List Bytes) (r : Received)
    → recv c cap_size (next_read qs) ≡ (c', r)
    → flatten (piece r) ++ (c'.app ++ v.app) ≡ c.app ++ w.app
    → idle v ≡ idle w
    → (flatten (calls cap_size n c' (unread c qs)).0 ≡ c'.app ++ v.app)
      × ((calls cap_size n c' (unread c qs)).1 ≡ idle v)
    → (flatten (calls cap_size (suc n) c qs).0 ≡ c.app ++ w.app)
      × ((calls cap_size (suc n) c qs).1 ≡ idle w)
unfolding calls
before cap_size n c c' v w qs r e split same (given, left) =
    let first = ap (λ x. x.1) e in
    let state = ap (λ x. x.0) e in
    (
      ap (λ x. flatten (piece x.1 ++ (calls cap_size n x.0 (unread c qs)).0)) e
          ∙ flatten-piece r (calls cap_size n c' (unread c qs)).0
          ∙ ap (λ x. flatten (piece r) ++ x) given
          ∙ split,
      ap (λ x. (calls cap_size n x (unread c qs)).1) state ∙ left ∙ same,
    )

unread_pending : (c : Conn) (qs : List Bytes) → (length c.app == 0) ≡ false → unread c qs ≡ qs
unread_pending c [] e = refl
unread_pending c (q ∷ qs) e = rw e refl

after_nothing :
    (c : Conn) → c.closed ≡ false → decode_frame max_payload true c.rx ≡ need_more → after c [] ≡ c
after_nothing c o e =
    after_open c [] o
    ∙ ap (λ r. drain_frames (suc (length r)) (with_rx c r)) (append-nil c.rx)
    ∙ drain_more (length c.rx) c c.rx e

idle_app : (c : Conn) → c.app ≡ [] → idle c ≡ c
idle_app c e = ap (λ (a : Bytes). record c { app = a }) (sym e)

prepend-idle : (c : Conn) → prepend c.app (idle c) ≡ c
prepend-idle c = ap (λ (a : Bytes). record c { app = a }) (append-nil c.app)

served_split : (a b : Bytes) (k : ℕ) → flatten (take k a ∷ []) ++ (drop k a ++ b) ≡ a ++ b
unfolding flatten
served_split a b k =
    ap (λ x. x ++ (drop k a ++ b)) (append-nil (take k a))
    ∙ sym (append_assoc (take k a) (drop k a) b)
    ∙ ap (λ x. x ++ b) (take-append-drop k a)

-- An open connection, with no whole frame in its buffer.
abbrev pub IsOpen : Conn → Type 0
IsOpen c = (c.closed ≡ false) × (decode_frame max_payload true c.rx ≡ need_more)

after-IsOpen :
    (c : Conn) (q : Bytes) → c.closed ≡ false → (after c q).closed ≡ false → IsOpen (after c q)
after-IsOpen c q o h =
    let drained =
      subst IsDrained (sym (after_open c q o)) (drain_frames_settled (with_rx c (c.rx ++ q))) in
    elim drained [ inl shut ↦ absurd (cc (h, shut)) | inr e ↦ (h, e) ]

no_calls : (cap_size : ℕ) (c : Conn) → c.app ≡ [] → IsOpen c → GivesAll c [] ([], c)
unfolding flatten
no_calls cap_size c e v =
    rw (after_nothing (idle c) v.0 v.1) (sym e ∙ sym (append-nil c.app), sym (idle_app c e))

calls_pending :
    (cap_size n : ℕ) (c : Conn) (qs : List Bytes)
    → (length c.app == 0) ≡ false
    → let c' = record c { app = drop cap_size c.app } in
      GivesAll c' qs (calls cap_size n c' qs) → GivesAll c qs (calls cap_size (suc n) c qs)
calls_pending cap_size n c qs e rest =
    let w = after (idle c) (flatten qs) in
    let c' = record c { app = drop cap_size c.app } in
    before cap_size n c c' w w qs (bytes (take cap_size c.app))
      (recv_pending c cap_size (next_read qs) e) (served_split c.app w.app cap_size) refl
      (rw (unread_pending c qs e) rest)

calls_nothing :
    (cap_size n : ℕ) (c : Conn)
    → c.app ≡ []
    → c.closed ≡ false
    → GivesAll c [] (calls cap_size n c [])
    → GivesAll c [] (calls cap_size (suc n) c [])
unfolding flatten
calls_nothing cap_size n c e o rest =
    let w = after (idle c) [] in
    before cap_size n c c w w [] (failed eagain) (recv_nothing c cap_size o e) refl refl rest

-- What is left after a read of `q`, by what was there before it.
after-read :
    (c : Conn) (q : Bytes) (qs : List Bytes)
    → c.app ≡ []
    → after (idle c) (flatten (q ∷ qs))
      ≡ prepend (after c q).app (after (idle (after c q)) (flatten qs))
unfolding flatten
after-read c q qs e =
    ap (λ d. after d (q ++ flatten qs)) (idle_app c e)
    ∙ sym (after-append c q (flatten qs))
    ∙ ap (λ d. after d (flatten qs)) (sym (prepend-idle (after c q)))
    ∙ after-prepend (after c q).app (idle (after c q)) (flatten qs)

unread_read : (c : Conn) (q : Bytes) (qs : List Bytes) → c.app ≡ [] → unread c (q ∷ qs) ≡ qs
unread_read c q qs e = rw e refl

calls_read :
    (cap_size n : ℕ) (c c' : Conn) (q : Bytes) (qs : List Bytes) (r : Received)
    → c.app ≡ []
    → recv c cap_size (bytes q) ≡ (c', r)
    → idle c' ≡ idle (after c q)
    → ((b : Bytes) → flatten (piece r) ++ (c'.app ++ b) ≡ (after c q).app ++ b)
    → GivesAll c' qs (calls cap_size n c' qs)
    → GivesAll c (q ∷ qs) (calls cap_size (suc n) c (q ∷ qs))
calls_read cap_size n c c' q qs r e read same split rest =
    let v = after (idle c') (flatten qs) in
    let w = after (idle c) (flatten (q ∷ qs)) in
    let left : w ≡ prepend (after c q).app v =
      after-read c q qs e ∙ ap (λ d. prepend (after c q).app (after d (flatten qs))) (sym same) in
    before cap_size n c c' v w (q ∷ qs) r read
      (split v.app ∙ sym (ap (λ a. a ++ w.app) e ∙ ap (λ d. d.app) left)) (ap idle (sym left))
      (rw (unread_read c q qs e) rest)

still_open :
    (c : Conn) (q : Bytes) (qs : List Bytes)
    → c.app ≡ []
    → (after (idle c) (flatten (q ∷ qs))).closed ≡ false
    → (after c q).closed ≡ false
still_open c q qs e o = elim (Bool-cases (after c q).closed) [
  | inr open_ ↦ open_
  | inl shut ↦
      let later = after-closed (idle (after c q)) (flatten qs) shut in
      absurd (cc (o, later, ap (λ d. d.closed) (after-read c q qs e)))
]

-- Calls enough for what is pending, what is read and what comes of it give all of it.
pub calls-GivesAll :
    (cap_size n : ℕ) (c : Conn) (qs : List Bytes)
    → 0 < cap_size
    → IsOpen c
    → (after (idle c) (flatten qs)).closed ≡ false
    → length qs + (length c.app + length (after (idle c) (flatten qs)).app) ≤ n
    → GivesAll c qs (calls cap_size n c qs)
calls-GivesAll cap_size zero c (q ∷ qs) k v o h = absurd (omega arith)
calls-GivesAll cap_size zero c [] k v o h = elim (app-cases c) [
  | inl e ↦ unfold calls in no_calls cap_size c e v
  | inr (e, some_) ↦ absurd (omega arith)
]
calls-GivesAll cap_size (suc n) c [] k v o h = elim (app-cases c) [
  | inl e ↦ calls_nothing cap_size n c e v.0 (
      calls-GivesAll cap_size n c [] k v o (
        unfold flatten in
        let none_left = ap length (ap (λ d. d.app) (after_nothing (idle c) v.0 v.1)) in
        omega (arith, none_left, ap length e)))
  | inr (e, some_) ↦ calls_pending cap_size n c [] e (
      calls-GivesAll cap_size n (record c { app = drop cap_size c.app }) [] k v o
        (omega (arith, length-drop cap_size c.app)))
]
calls-GivesAll cap_size (suc n) c (q ∷ qs) k v o h = elim (app-cases c) [
  | inr (e, some_) ↦ calls_pending cap_size n c (q ∷ qs) e (
      calls-GivesAll cap_size n (record c { app = drop cap_size c.app }) (q ∷ qs) k v o
        (omega (arith, length-drop cap_size c.app)))
  | inl e ↦
      let c1 = after c q in
      let left = after-read c q qs e in
      let open_ = still_open c q qs e o in
      let size = ap length (ap (λ d. d.app) left) in
      let joined = length-append c1.app (after (idle c1) (flatten qs)).app in
      let o' = sym (ap (λ d. d.closed) left) ∙ o in
      elim (app-cases c1) [
        | inl f ↦
            calls_read cap_size n c c1 q qs (failed eagain) e
              (recv_read c cap_size q v.0 e ∙ drain_nothing c1 cap_size open_ f) refl
              (λ b. unfold flatten in refl)
              (calls-GivesAll cap_size n c1 qs k (after-IsOpen c q v.0 open_) o'
                (omega (arith, size, joined)))
        | inr (f, some_) ↦
            let c' = record c1 { app = drop cap_size c1.app } in
            calls_read cap_size n c c' q qs (bytes (take cap_size c1.app)) e
              (recv_read c cap_size q v.0 e ∙ drain_pending c1 cap_size f) refl
              (λ b. served_split c1.app b cap_size)
              (calls-GivesAll cap_size n c' qs k (after-IsOpen c q v.0 open_) o'
                (omega (arith, size, joined, length-drop cap_size c1.app)))
      ]
]

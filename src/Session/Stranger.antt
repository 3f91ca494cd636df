-- ===== src/Session/Stranger.antt =====
-- A whole connection (terminal/src/net/ClientSession.cpp, `run`) with a client that has no token.
use qt_s5p6818_face_tracking.Base.{
  ℕ, ◌+◌, ◌<◌, ◌≡◌, ◌≢◌, ◌^◌, inl, inr, refl, sym, ◌∙◌, ap, ap₂, subst, true, false, not, ◌&&◌,
  List, [], ◌∷◌, ◌++◌, Bytes, Option, some, AreBytes, append_assoc, append-nil, Bool-cases, arith,
}
use qt_s5p6818_face_tracking.Auth.{token_key}
use qt_s5p6818_face_tracking.Files.{FileSystem, FileManager}
use qt_s5p6818_face_tracking.Json.{get_string}
use qt_s5p6818_face_tracking.Protocol.{hello, type_code}
use qt_s5p6818_face_tracking.Session.{Session, send_json}
use qt_s5p6818_face_tracking.Session.Dispatch.{
  Moment, bytes, eof, failed, is_retry, max_message, read_and_dispatch,
}
use qt_s5p6818_face_tracking.Session.Gate.{drain-gate}
use qt_s5p6818_face_tracking.Session.Run.{
  Tick, Polled, interrupted, poll_failed, timed_out, hung_up, idle_event, readable, Loop, Outcome,
  running, closed, advertise, is_late, push_frame, after_read, after_poll, pass, run_loop, run,
}
use qt_s5p6818_face_tracking.Stream.{scan, message}
use qt_s5p6818_face_tracking.Stream.Chunks.{scan-message}

-- What a pass of the loop reads.
abbrev pub read_by : Polled → Bytes
read_by (readable (bytes got)) = got
read_by _ = []

abbrev pub received : {Image : Type 0} → List (Tick Image) → Bytes
received [] = []
received (t ∷ ts) = read_by t.polled ++ received ts

-- The stream does not begin with a HELLO that carries the token.
abbrev pub IsStranger : Bytes → Bytes → Type 0
IsStranger token stream =
    (body rest : Bytes)
    → scan max_message stream ≡ message (type_code hello) body rest
    → get_string body token_key ≢ some token

-- The session `s` is over, or it waits for the rest of `rx`.
pub data IsUnmoved {R D : Type 0} (s : Session R D) (rx : Bytes) : Outcome R D → Type 0 where
  dropped : IsUnmoved s rx (closed s)
  waits : (n : ℕ) → IsUnmoved s rx (running (record { session = s; rx = rx; next_frame_at = n }))

push_frame-IsUnmoved :
    {R D Image : Type 0} (stream_fps : ℕ) (s : Session R D) (rx : Bytes) (n : ℕ) (t : Tick Image)
    → s.authed ≡ false
    → IsUnmoved s rx (push_frame stream_fps (record { session = s; rx = rx; next_frame_at = n }) t)
unfolding push_frame
push_frame-IsUnmoved stream_fps s rx n t e = rw e (waits n)

module _ {R D Image : Type 0} (fs : FileSystem D Image) (m : FileManager)
    (strtod : Bytes → Option R) (zero : R) (moments : ℕ → Moment Image)
    (stream_fps start_ms : ℕ) where
  read-IsUnmoved :
      (s : Session R D) (rx got : Bytes) (n : ℕ) (t : Tick Image)
      → s.authed ≡ false
      → AreBytes s.auth_token
      → AreBytes (rx ++ got)
      → s.auth_token ≢ []
      → IsStranger s.auth_token (rx ++ got)
      → IsUnmoved s (rx ++ got) (
          after_read stream_fps
            (record { session = s; rx = rx; next_frame_at = n })
            t
            (read_and_dispatch fs m strtod zero moments s rx (bytes got)))
  unfolding after_read read_and_dispatch
  read-IsUnmoved s rx got n t h ht hb ne stranger =
      elim (drain-gate fs m strtod zero moments s (rx ++ got) h ht hb ne) [
        | inl e ↦ rw e (push_frame-IsUnmoved stream_fps s (rx ++ got) n t h)
        | inr (inl e) ↦ rw e dropped
        | inr (inr (body, rest, e, f)) ↦ absurd (stranger body rest e f)
      ]

  after_poll-IsUnmoved :
      (p : Polled) (s : Session R D) (rx : Bytes) (n : ℕ) (t : Tick Image)
      → s.authed ≡ false
      → AreBytes s.auth_token
      → AreBytes (rx ++ read_by p)
      → s.auth_token ≢ []
      → IsStranger s.auth_token (rx ++ read_by p)
      → IsUnmoved s (rx ++ read_by p) (
          after_poll fs m strtod zero moments stream_fps start_ms
            (record { session = s; rx = rx; next_frame_at = n })
            t
            p)
  unfolding after_poll
  after_poll-IsUnmoved interrupted s rx n t h ht hb ne stranger = rw (append-nil rx) (waits n)
  after_poll-IsUnmoved poll_failed s rx n t h ht hb ne stranger = dropped
  after_poll-IsUnmoved hung_up s rx n t h ht hb ne stranger = dropped
  after_poll-IsUnmoved timed_out s rx n t h ht hb ne stranger =
      rw (append-nil rx) (push_frame-IsUnmoved stream_fps s rx n t h)
  after_poll-IsUnmoved idle_event s rx n t h ht hb ne stranger =
      rw (append-nil rx) (push_frame-IsUnmoved stream_fps s rx n t h)
  after_poll-IsUnmoved (readable (bytes got)) s rx n t h ht hb ne stranger =
      read-IsUnmoved s rx got n t h ht hb ne stranger
  after_poll-IsUnmoved (readable eof) s rx n t h ht hb ne stranger =
      unfold after_read read_and_dispatch in dropped
  after_poll-IsUnmoved (readable (failed e)) s rx n t h ht hb ne stranger =
      elim (Bool-cases (is_retry e)) [
        | inl retry ↦
            unfold after_read read_and_dispatch in
            rw (retry, append-nil rx) (push_frame-IsUnmoved stream_fps s rx n t h)
        | inr lost ↦ unfold after_read read_and_dispatch in rw lost dropped
      ]

  pass-IsUnmoved :
      (s : Session R D) (rx : Bytes) (n : ℕ) (t : Tick Image)
      → s.authed ≡ false
      → AreBytes s.auth_token
      → AreBytes (rx ++ read_by t.polled)
      → s.auth_token ≢ []
      → IsStranger s.auth_token (rx ++ read_by t.polled)
      → IsUnmoved s (rx ++ read_by t.polled) (
          pass fs m strtod zero moments stream_fps start_ms
            (record { session = s; rx = rx; next_frame_at = n })
            t)
  unfolding pass after_poll push_frame
  pass-IsUnmoved s rx n t h ht hb ne stranger = elim (Bool-cases t.stop) [
    | inl e ↦ rw e dropped
    | inr e ↦ elim (Bool-cases (not s.authed && is_late start_ms t.auth_ms)) [
      | inl late ↦ rw (e, late) dropped
      | inr early ↦ rw (e, early) (after_poll-IsUnmoved t.polled s rx n t h ht hb ne stranger)
    ]
  ]

  run_loop-closed :
      (s : Session R D) (ts : List (Tick Image))
      → run_loop fs m strtod zero moments stream_fps start_ms (closed s) ts ≡ closed s
  unfolding run_loop
  run_loop-closed s ts = refl

  -- A prefix of a stranger's stream is one too.
  IsStranger-prefix : (token p q : Bytes) → IsStranger token (p ++ q) → IsStranger token p
  IsStranger-prefix token p q stranger body rest e =
      stranger body (rest ++ q) (scan-message max_message p q (type_code hello) body rest e)

  front-AreBytes : (p q : Bytes) → AreBytes (p ++ q) → AreBytes p
  front-AreBytes [] q h = tt
  front-AreBytes (b ∷ p) q h = (h.0, front-AreBytes p q h.1)

  loop-IsUnmoved :
      (ts : List (Tick Image)) (o : Outcome R D) (s : Session R D) (rx : Bytes)
      → IsUnmoved s rx o
      → s.authed ≡ false
      → AreBytes s.auth_token
      → AreBytes (rx ++ received ts)
      → s.auth_token ≢ []
      → IsStranger s.auth_token (rx ++ received ts)
      → IsUnmoved s (rx ++ received ts) (run_loop fs m strtod zero moments stream_fps start_ms o ts)
  unfolding run_loop
  loop-IsUnmoved [] (closed _) s rx dropped h ht hb ne stranger = dropped
  loop-IsUnmoved (t ∷ ts) (closed _) s rx dropped h ht hb ne stranger = dropped
  loop-IsUnmoved [] (running _) s rx (waits n) h ht hb ne stranger = rw (append-nil rx) (waits n)
  loop-IsUnmoved (t ∷ ts) (running _) s rx (waits n) h ht hb ne stranger =
      let now = rx ++ read_by t.polled in
      let assoc = append_assoc rx (read_by t.polled) (received ts) in
      let hb' = subst AreBytes (sym assoc) hb in
      let stranger' = subst (IsStranger s.auth_token) (sym assoc) stranger in
      subst
        (λ x. IsUnmoved s x (
          run_loop fs m strtod zero moments stream_fps start_ms
            (pass fs m strtod zero moments stream_fps start_ms
              (record { session = s; rx = rx; next_frame_at = n }) t)
            ts))
        assoc
        (loop-IsUnmoved ts _ s now
          (pass-IsUnmoved s rx n t h ht (front-AreBytes now (received ts) hb') ne
            (IsStranger-prefix s.auth_token now (received ts) stranger'))
          h ht hb' ne stranger')

  run_loop-append :
      (ts us : List (Tick Image)) (o : Outcome R D)
      → run_loop fs m strtod zero moments stream_fps start_ms o (ts ++ us)
        ≡ run_loop fs m strtod zero moments stream_fps start_ms
            (run_loop fs m strtod zero moments stream_fps start_ms o ts)
            us
  unfolding run_loop
  run_loop-append ts us (closed s) = refl
  run_loop-append [] us (running l) = refl
  run_loop-append (t ∷ ts) us (running l) =
      run_loop-append ts us (pass fs m strtod zero moments stream_fps start_ms l t)

  pass-late :
      (l : Loop R D) (t : Tick Image)
      → l.session.authed ≡ false
      → is_late start_ms t.auth_ms ≡ true
      → pass fs m strtod zero moments stream_fps start_ms l t ≡ closed l.session
  unfolding pass
  pass-late l t h late =
      let both : (not l.session.authed && is_late start_ms t.auth_ms) ≡ true =
        ap₂ (λ a b. not a && b) h late in
      elim (Bool-cases t.stop) [ inl e ↦ rw e refl | inr e ↦ rw (e, both) refl ]

  late-closed :
      (s : Session R D) (rx : Bytes) (o : Outcome R D) (t : Tick Image)
      → IsUnmoved s rx o
      → s.authed ≡ false
      → is_late start_ms t.auth_ms ≡ true
      → run_loop fs m strtod zero moments stream_fps start_ms o (t ∷ []) ≡ closed s
  unfolding run_loop
  late-closed s rx (closed _) t dropped h late = refl
  late-closed s rx (running _) t (waits n) h late =
      ap (λ o. run_loop fs m strtod zero moments stream_fps start_ms o []) (pass-late _ t h late)

  is_late_after : (now : ℕ) → start_ms + 5000 < now → now < 2 ^ 64 → is_late start_ms now ≡ true
  unfolding is_late
  is_late_after now h fits = ground arith

  -- A session that asks for a token, with a client whose bytes do not begin with a HELLO that
  -- carries it: after a handshake that works, and through all passes of the poll loop, the
  -- session has only said what it says first (no video, no reply, no command, no file touched)
  -- and waits or is closed; and it is closed after one more pass whose clock is past the start by
  -- more than 5 s and below 2 ^ 64.
  pub stranger_dropped :
      (s : Session R D) (ts : List (Tick Image)) (t : Tick Image)
      → s.authed ≡ false
      → AreBytes s.auth_token
      → s.auth_token ≢ []
      → AreBytes (received ts)
      → IsStranger s.auth_token (received ts)
      → start_ms + 5000 < t.auth_ms
      → t.auth_ms < 2 ^ 64
      → IsUnmoved
          (advertise s)
          (received ts)
          (run fs m strtod zero moments stream_fps start_ms s true ts)
        × (run fs m strtod zero moments stream_fps start_ms s true (ts ++ t ∷ [])
            ≡ closed (advertise s))
  unfolding run advertise send_json
  stranger_dropped s ts t h ht ne hb stranger late fits =
      let still = loop-IsUnmoved ts _ (advertise s) [] (waits 0) h ht hb ne stranger in
      (
        still,
        run_loop-append ts (t ∷ []) _
            ∙ late-closed (advertise s) (received ts) _ t still h
                (is_late_after t.auth_ms late fits),
      )

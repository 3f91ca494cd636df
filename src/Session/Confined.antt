-- ===== src/Session/Confined.antt =====
-- terminal/src/net/ClientSession.cpp: what a whole session can do to the disk.
use qt_s5p6818_face_tracking.Base.{
  ℕ, Bool, true, false, not, ◌&&◌, List, [], ◌∷◌, Bytes, Option, none, some, if_lem, ltb, ◌==◌,
  length,
}
use qt_s5p6818_face_tracking.Core.Hub.{Frame}
use qt_s5p6818_face_tracking.Files.{FileSystem, FileManager}
use qt_s5p6818_face_tracking.Files.Stamps.{IsStamp}
use qt_s5p6818_face_tracking.Session.{Session, send_json, send_frame_if_new, send_latest}
use qt_s5p6818_face_tracking.Session.Dispatch.{Moment, read_and_dispatch}
use qt_s5p6818_face_tracking.Session.Dispatch.Confined.{
  Edits, untouched, IsEdited, read_and_dispatch-IsEdited,
}
use qt_s5p6818_face_tracking.Session.Run.{
  Polled, interrupted, poll_failed, hung_up, timed_out, idle_event, readable, Tick, Loop, Outcome,
  running, closed, advertise, is_late, push_due, push_frame, after_read, after_poll, pass, run_loop,
  run,
}
use qt_s5p6818_face_tracking.Stream.{Drained, waiting, ended}
use qt_s5p6818_face_tracking.Stream.Invariant.{state_of}

-- The session with which the loop stops.
abbrev pub session_of : {R D : Type 0} → Outcome R D → Session R D
session_of (running l) = l.session
session_of (closed s) = s

module _ {R D Image : Type 0} (fs : FileSystem D Image) (m : FileManager)
    (moments : ℕ → Moment Image) (d : D) where
  abbrev Keeps : Outcome R D → Type 0
  Keeps o = IsEdited fs m moments d (session_of o)

  send_frame_if_new-IsEdited :
      (s : Session R D) (f : Option (Frame Image))
      → IsEdited fs m moments d s
      → IsEdited fs m moments d (send_frame_if_new s f).0
  unfolding send_frame_if_new send_latest
  send_frame_if_new-IsEdited s none h = h
  send_frame_if_new-IsEdited s (some f) h =
      if_lem (λ (r : Session R D × Bool). IsEdited fs m moments d r.0) (length f.jpeg == 0)
        (s, true) _ (λ q. h)
        (λ q.
          if_lem (λ (r : Session R D × Bool). IsEdited fs m moments d r.0)
            (f.seq == s.last_sent_seq) (s, true) _ (λ q. h) (λ q. h))

  module _ (stream_fps : ℕ) where
    push_frame-Keeps :
        (l : Loop R D) (t : Tick Image)
        → IsEdited fs m moments d l.session
        → Keeps (push_frame stream_fps l t)
    unfolding push_frame push_due
    push_frame-Keeps l t h =
        let sent = send_frame_if_new-IsEdited l.session t.latest h in
        if_lem Keeps (l.session.authed && not (ltb t.frame_ms l.next_frame_at)) _ (running l)
          (λ q.
            if_lem Keeps (send_frame_if_new l.session t.latest).1 _
              (closed (send_frame_if_new l.session t.latest).0) (λ e. sent) (λ e. sent))
          (λ q. h)

    after_read-Keeps :
        (l : Loop R D) (t : Tick Image) (r : Drained (Session R D))
        → IsEdited fs m moments d (state_of r)
        → Keeps (after_read stream_fps l t r)
    unfolding after_read
    after_read-Keeps l t (ended s) h = h
    after_read-Keeps l t (waiting s rx) h = push_frame-Keeps (record l { session = s; rx = rx }) t h

    module _ (strtod : Bytes → Option R) (zero : R) (stamps : (k : ℕ) → IsStamp (moments k).base)
        (start_ms : ℕ) where
      after_poll-Keeps :
          (l : Loop R D) (t : Tick Image) (p : Polled)
          → IsEdited fs m moments d l.session
          → Keeps (after_poll fs m strtod zero moments stream_fps start_ms l t p)
      unfolding after_poll
      after_poll-Keeps l t interrupted h = h
      after_poll-Keeps l t poll_failed h = h
      after_poll-Keeps l t hung_up h = h
      after_poll-Keeps l t timed_out h = push_frame-Keeps l t h
      after_poll-Keeps l t idle_event h = push_frame-Keeps l t h
      after_poll-Keeps l t (readable got) h =
          after_read-Keeps l t (read_and_dispatch fs m strtod zero moments l.session l.rx got)
            (read_and_dispatch-IsEdited fs m moments d strtod zero stamps l.session l.rx got h)

      pass-Keeps :
          (l : Loop R D) (t : Tick Image)
          → IsEdited fs m moments d l.session
          → Keeps (pass fs m strtod zero moments stream_fps start_ms l t)
      unfolding pass
      pass-Keeps l t h =
          if_lem Keeps t.stop (closed l.session) _ (λ q. h)
            (λ q.
              if_lem Keeps (not l.session.authed && is_late start_ms t.auth_ms) (closed l.session) _
                (λ q. h) (λ q. after_poll-Keeps l t t.polled h))

      run_loop-Keeps :
          (o : Outcome R D) (ts : List (Tick Image))
          → Keeps o
          → Keeps (run_loop fs m strtod zero moments stream_fps start_ms o ts)
      unfolding run_loop
      run_loop-Keeps (closed s) ts h = h
      run_loop-Keeps (running l) [] h = h
      run_loop-Keeps (running l) (t ∷ ts) h =
          run_loop-Keeps (pass fs m strtod zero moments stream_fps start_ms l t) ts
            (pass-Keeps l t h)

module _ {R D Image : Type 0} (fs : FileSystem D Image) (m : FileManager)
    (strtod : Bytes → Option R) (zero : R) (moments : ℕ → Moment Image)
    (stream_fps start_ms : ℕ) where
  -- Whatever a client sends: through all passes of its session, the disk changes only by
  -- unlinking basenames in the capture directory and by writing there the frame that the hub
  -- holds when a message is handled, under a basename made of that time; strftime gives digits,
  -- small letters and underscores, in its buffer of 48 bytes.
  pub run_confined :
      (s : Session R D) (handshake : Bool) (ts : List (Tick Image))
      → ((k : ℕ) → IsStamp (moments k).base)
      → Edits fs m moments s.disk
          (session_of (run fs m strtod zero moments stream_fps start_ms s handshake ts)).disk
  unfolding run advertise send_json
  run_confined s true ts stamps =
      run_loop-Keeps fs m moments s.disk stream_fps strtod zero stamps start_ms _ ts untouched
  run_confined s false ts stamps = untouched

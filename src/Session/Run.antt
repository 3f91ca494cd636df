-- ===== src/Session/Run.antt =====
-- terminal/src/net/ClientSession.cpp: `run`, the poll loop of a session. What the outside shows in one
-- pass of the loop is a `Tick`; the loop goes through a list of them, and a list that ends before the
-- loop does leaves the session running.
use qt_s5p6818_face_tracking.Base.{
  ℕ, ◌+◌, ◌-◌, ◌/◌, ◌%◌, ◌^◌, Bool, ◌&&◌, not, List, [], ◌∷◌, ◌++◌, Bytes, Option, ltb, equal,
  if◌then◌else◌,
}
use qt_s5p6818_face_tracking.Base.Text.{codes}
use qt_s5p6818_face_tracking.Core.Hub.{Frame}
use qt_s5p6818_face_tracking.Files.{FileSystem, FileManager}
use qt_s5p6818_face_tracking.Protocol.{hello}
use qt_s5p6818_face_tracking.Session.{Session, send_json, send_frame_if_new}
use qt_s5p6818_face_tracking.Session.Dispatch.{Moment, Received, read_and_dispatch}
use qt_s5p6818_face_tracking.Stream.{Drained, ended, waiting}

-- What `poll` gives: the interruption by a signal, another error, a timeout, or the events of the
-- socket (an error or hang-up, or data to read, and then what `recv` gives).
pub data Polled : Type 0 where
  interrupted poll_failed timed_out hung_up idle_event : Polled
  readable : Received → Polled

-- The readings of the clock in the order of the code, the stop flag, and the hub's frame.
pub record Tick (Image : Type 0) : Type 0 where
  pub stop : Bool
  pub auth_ms : ℕ
  pub polled : Polled
  pub frame_ms : ℕ
  pub sent_ms : ℕ
  pub latest : Option (Frame Image)

-- The variables that the loop carries.
pub record Loop (R D : Type 0) : Type 0 where
  pub session : Session R D
  pub rx : Bytes
  pub next_frame_at : ℕ

pub data Outcome (R D : Type 0) : Type 0 where
  running : Loop R D → Outcome R D
  closed : Session R D → Outcome R D

abbrev pub auth_timeout_ms : ℕ
auth_timeout_ms = 5000

-- The constructor's `streamFps > 0 ? streamFps : 15`, and the interval from it.
unfoldable pub frame_interval_ms : ℕ → ℕ
frame_interval_ms stream_fps = 1000 / (if ltb 0 stream_fps then stream_fps else 15)

-- `poll`'s timeout; the difference is below 2 ^ 31 where a video rate is a few frames per second.
unfoldable pub poll_timeout : Bool → ℕ → ℕ → ℕ
poll_timeout authed next_frame_at now =
    if not authed
    then 50
    else let timeout = if ltb now next_frame_at then next_frame_at - now else 0 in
      if ltb 50 timeout then 50 else timeout

-- `nowMs() - startMs > kAuthTimeoutMs`, on uint64_t.
unfoldable pub is_late : ℕ → ℕ → Bool
is_late start_ms now = ltb auth_timeout_ms ((now + 2 ^ 64 - start_ms) % 2 ^ 64)

-- What the client is told first.
unfoldable pub advertise : {R D : Type 0} → Session R D → Session R D
unfolding send_json
advertise s = send_json s hello (
    codes "{\"role\":\"terminal\",\"ver\":1,\"auth\":"
    ++ ((if equal s.auth_token [] then codes "false" else codes "true") ++ codes "}"))

module _ {R D Image : Type 0} (stream_fps : ℕ) where
  -- The frame is due: send it if it is new.
  unfoldable pub push_due : Loop R D → Tick Image → Outcome R D
  push_due l t =
      let (s, alive) = send_frame_if_new l.session t.latest in
      let next_frame_at = (t.sent_ms + frame_interval_ms stream_fps) % 2 ^ 64 in
      if alive
      then running (record { session = s; rx = l.rx; next_frame_at = next_frame_at })
      else closed s

  -- The end of a pass: the video frame, when it is due.
  unfoldable pub push_frame : Loop R D → Tick Image → Outcome R D
  unfolding push_due
  push_frame l t =
      if l.session.authed && not (ltb t.frame_ms l.next_frame_at) then push_due l t else running l

  unfoldable pub after_read : Loop R D → Tick Image → Drained (Session R D) → Outcome R D
  after_read l t (ended s) = closed s
  after_read l t (waiting s rx) = push_frame (record l { session = s; rx = rx }) t

module _ {R D Image : Type 0} (fs : FileSystem D Image) (m : FileManager)
    (strtod : Bytes → Option R) (zero : R) (moments : ℕ → Moment Image)
    (stream_fps start_ms : ℕ) where
  unfoldable pub after_poll : Loop R D → Tick Image → Polled → Outcome R D
  unfolding after_read
  after_poll l t interrupted = running l
  after_poll l t poll_failed = closed l.session
  after_poll l t hung_up = closed l.session
  after_poll l t timed_out = push_frame stream_fps l t
  after_poll l t idle_event = push_frame stream_fps l t
  after_poll l t (readable got) =
      after_read stream_fps l t (read_and_dispatch fs m strtod zero moments l.session l.rx got)

  unfoldable pub pass : Loop R D → Tick Image → Outcome R D
  pass l t =
      if t.stop
      then closed l.session
      else if not l.session.authed && is_late start_ms t.auth_ms
      then closed l.session
      else after_poll l t t.polled

  unfoldable pub run_loop : Outcome R D → List (Tick Image) → Outcome R D
  run_loop (closed s) ts = closed s
  run_loop (running l) [] = running l
  run_loop (running l) (t ∷ ts) = run_loop (pass l t) ts

  -- `handshake` is what the handshake of the connection returns. A closed session is finished.
  unfoldable pub run : Session R D → Bool → List (Tick Image) → Outcome R D
  run s handshake ts =
      if handshake
      then run_loop (running (record { session = advertise s; rx = []; next_frame_at = 0 })) ts
      else closed s

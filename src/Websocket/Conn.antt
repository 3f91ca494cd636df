-- ===== src/Websocket/Conn.antt =====
-- terminal/src/net/WebSocketConn.cpp: an `IConn` over RFC 6455. The byte stream below (`IByteStream`)
-- is a log of what was written to it, and the result of each read is an argument.
pub mod Delivery
pub mod Settled
pub mod Prefix
pub mod Cuts
pub mod Calls
pub mod Messages
use qt_s5p6818_face_tracking.Base.{
  ℕ, zero, suc, ◌+◌, Bool, true, false, not, ◌||◌, List, [], ◌∷◌, ◌++◌, Bytes, length, take, drop,
  ◌==◌, if◌then◌else◌,
}
use qt_s5p6818_face_tracking.Session.{Link, send}
use qt_s5p6818_face_tracking.Session.Dispatch.{Received, bytes, eof, failed, eagain}
use qt_s5p6818_face_tracking.Websocket.{
  Frame, Parse, done, need_more, error, encode_frame, decode_frame, op_continuation, op_text,
  op_binary, op_close, op_ping, op_pong,
}

pub record Conn : Type 0 where
  pub stream : Link
  pub closed : Bool
  pub rx : Bytes
  pub app : Bytes

-- The default of `maxPayload`.
abbrev pub max_payload : ℕ
max_payload = 16777216

-- Every call ignores the result of the write.
unfoldable pub send_control : Conn → ℕ → Bytes → Conn
unfolding send
send_control c opcode payload = record c {
  stream = (send c.stream (encode_frame [] opcode payload)).0;
}

-- One message of the session is one binary frame.
unfoldable pub send_message : Conn → Bytes → Conn × Bool
unfolding send
send_message c payload =
    let (l, taken) = send c.stream (encode_frame [] op_binary payload) in
    (record c { stream = l }, taken)

-- The `switch` over a frame's opcode.
unfoldable pub on_frame : Conn → Frame → Conn
unfolding send_control
on_frame c f =
    if f.opcode == op_continuation || f.opcode == op_text || f.opcode == op_binary
    then record c { app = c.app ++ f.payload }
    else if f.opcode == op_ping
    then send_control c op_pong f.payload
    else if f.opcode == op_pong
    then c
    else if f.opcode == op_close
    then record (send_control c op_close f.payload) { closed = true }
    else c

-- A frame takes two bytes at least, so the buffer's length is enough fuel.
unfoldable pub drain_frames : ℕ → Conn → Conn
drain_frames zero c = c
drain_frames (suc fuel) c = elim (decode_frame max_payload true c.rx) [
  | need_more ↦ c
  | error ↦ record c { closed = true }
  | done f consumed ↦
      let c' = on_frame (record c { rx = drop consumed c.rx }) f in
      let more = drain_frames fuel c' in if c'.closed then c' else more
]

-- The application bytes served to a caller with room for `cap_size`.
unfoldable pub serve : Conn → ℕ → Conn × Received
serve c cap_size = (record c { app = drop cap_size c.app }, bytes (take cap_size c.app))

-- Behind the read: what the new bytes gave.
after_drain : Conn → ℕ → Conn × Received
unfolding serve
after_drain c cap_size =
    if not (length c.app == 0)
    then serve c cap_size
    else if c.closed
    then (c, eof)
    else (c, failed eagain)

after_read : Conn → ℕ → Received → Conn × Received
unfolding after_drain
after_read c cap_size eof = (c, eof)
after_read c cap_size (failed e) = (c, failed e)
after_read c cap_size (bytes got) =
    let c' = record c { rx = c.rx ++ got } in
    after_drain (drain_frames (suc (length c'.rx)) c') cap_size

-- `got` is what a read of the stream gives, if the call makes one.
unfoldable pub recv : Conn → ℕ → Received → Conn × Received
unfolding after_read
recv c cap_size got =
    if not (length c.app == 0)
    then serve c cap_size
    else if c.closed
    then (c, eof)
    else after_read c cap_size got

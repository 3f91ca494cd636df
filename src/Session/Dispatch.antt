-- ===== src/Session/Dispatch.antt =====
-- terminal/src/net/ClientSession.cpp: `readAndDispatch` and `handleMessage`.
pub mod Confined
use qt_s5p6818_face_tracking.Base.{
  ℕ, suc, Bool, true, false, not, [], ◌++◌, Bytes, Option, none, some, ◌==◌, if◌then◌else◌, equal,
}
use qt_s5p6818_face_tracking.Auth.{hello_authorized}
use qt_s5p6818_face_tracking.Base.Text.{codes}
use qt_s5p6818_face_tracking.Core.Commands.{Command, servo_step, servo_abs, set_mode, push}
use qt_s5p6818_face_tracking.Core.Hub.{Frame, latest}
use qt_s5p6818_face_tracking.Files.{FileSystem, FileManager, remove, snapshot}
use qt_s5p6818_face_tracking.Json.{escape, get_string, get_number, get_bool}
use qt_s5p6818_face_tracking.Protocol.{
  MsgType, hello, servo_cmd, mode_cmd, file_list_req, file_get_req, file_delete_req,
  file_delete_resp, snapshot_req, msg_type, type_code,
}
use qt_s5p6818_face_tracking.Session.{Session, send_json, send_file_list, send_file}
use qt_s5p6818_face_tracking.Stream.{Refusal, Drained, ended, waiting, drain_all}

-- What the outside shows while one message is handled: the hub's frame, the formatted wall-clock time
-- and the clock of `nowMs`.
pub record Moment (Image : Type 0) : Type 0 where
  pub hub : Option (Frame Image)
  pub base : Bytes
  pub now_ms : ℕ

abbrev pub default {ℓ} : {A : Type ℓ} → A → Option A → A
default a none = a
default a (some b) = b

pub data Errno : Type 0 where
  eintr eagain ewouldblock other : Errno

-- What `recv` of the connection gives: bytes, the orderly end, or an error.
pub data Received : Type 0 where
  bytes : Bytes → Received
  eof : Received
  failed : Errno → Received

-- Whether an error of `recv` means to try later.
abbrev pub is_retry : Errno → Bool
is_retry eintr = true
is_retry eagain = true
is_retry ewouldblock = true
is_retry other = false

abbrev pub max_message : ℕ
max_message = 33554432

-- The command of a SERVO_CMD or MODE_CMD body; `zero` is 0.0.
unfoldable pub servo_command : {R : Type 0} → (Bytes → Option R) → R → Bytes → Command R
unfolding equal
servo_command strtod zero body =
    let mode = default (codes "step") (get_string body (codes "mode")) in
    record {
      type = if equal mode (codes "abs") then servo_abs else servo_step;
      pan = default zero (get_number strtod body (codes "pan"));
      tilt = default zero (get_number strtod body (codes "tilt"));
      auto_track = true;
    }

unfoldable pub mode_command : {R : Type 0} → R → Bytes → Command R
mode_command zero body = record {
  type = set_mode;
  pan = zero;
  tilt = zero;
  auto_track = default true (get_bool body (codes "autoTrack"));
}

unfoldable pub delete_json : Bytes → Bool → Bytes
delete_json name done =
    codes "{\"name\":\""
    ++ (escape name
        ++ (codes "\",\"ok\":" ++ ((if done then codes "true" else codes "false") ++ codes "}")))

-- A bad header is only logged before the connection is dropped.
abbrev pub refuse : {R D : Type 0} → Session R D → Refusal → Session R D
refuse s why = s

module _ {R D Image : Type 0} (fs : FileSystem D Image) (m : FileManager)
    (strtod : Bytes → Option R) (zero : R) (moments : ℕ → Moment Image) where
  enqueue : Session R D → Command R → Session R D
  unfolding push
  enqueue s c = record s { queue = push s.queue c }

  get_file : Session R D → Option Bytes → Session R D
  get_file s none = s
  get_file s (some name) = send_file fs m s name

  -- Without a name nothing is removed, and the reply names the empty string.
  delete_file : Session R D → Option Bytes → Session R D
  delete_file s none = send_json s file_delete_resp (delete_json [] false)
  delete_file s (some name) =
      let (d, done) = remove fs m name s.disk in
      send_json (record s { disk = d }) file_delete_resp (delete_json name done)

  save_frame : Session R D → Bytes → ℕ → Option (Frame Image) → Session R D
  save_frame s base now_ms none = s
  save_frame s base now_ms (some f) =
      if not (fs.is_empty f.mat)
      then record s { disk = (snapshot fs m base now_ms f.mat s.disk).0 }
      else s

  -- The `switch` over the message's type.
  handle_type : Session R D → Moment Image → Option MsgType → Bytes → Session R D
  unfolding enqueue get_file delete_file save_frame latest
  handle_type s now none body = s
  handle_type s now (some servo_cmd) body = enqueue s (servo_command strtod zero body)
  handle_type s now (some mode_cmd) body = enqueue s (mode_command zero body)
  handle_type s now (some file_list_req) body = send_file_list fs m s
  handle_type s now (some file_get_req) body = get_file s (get_string body (codes "name"))
  handle_type s now (some file_delete_req) body = delete_file s (get_string body (codes "name"))
  handle_type s now (some snapshot_req) body =
      send_file_list fs m (save_frame s now.base now.now_ms (latest now.hub))
  handle_type s now (some _) body = s

  unfoldable pub handle_message : Session R D → ℕ → Bytes → Session R D
  unfolding handle_type
  handle_message s type payload =
      handle_type (record s { handled = suc s.handled }) (moments s.handled) (msg_type type) payload

  -- The body of the read loop for one whole message: the gate, then the handling.
  unfoldable pub on_message : Session R D → ℕ → Bytes → Session R D × Bool
  on_message s type payload =
      if s.authed
      then (handle_message s type payload, true)
      else if not (type == type_code hello)
      then (s, false)
      else if not (hello_authorized s.auth_token payload)
      then (s, false)
      else (handle_message (record s { authed = true }) type payload, true)

  unfoldable pub read_and_dispatch : Session R D → Bytes → Received → Drained (Session R D)
  read_and_dispatch s rx (bytes got) = drain_all max_message refuse on_message s (rx ++ got)
  read_and_dispatch s rx eof = ended s
  read_and_dispatch s rx (failed e) = if is_retry e then waiting s rx else ended s

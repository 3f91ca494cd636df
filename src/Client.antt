-- ===== src/Client.antt =====
-- pc-client/src/net/TcpClient.cpp: the Qt client's end of the SEC1 protocol. Qt is not part of the
-- program: `Qt` names what is used of it. Signals, slots and socket calls are logs in the client's
-- state, in order; slots run one at a time on Qt's event loop.
pub mod Receive
pub mod Downloads
pub mod Transfer
use qt_s5p6818_face_tracking.Base.{
  ℕ, Bool, true, false, not, List, [], ◌∷◌, ◌++◌, Bytes, Option, none, some, if◌then◌else◌, equal,
}
use qt_s5p6818_face_tracking.Base.Text.{codes}
use qt_s5p6818_face_tracking.Protocol.{
  MsgType, hello, servo_cmd, mode_cmd, file_list_req, file_get_req, file_delete_req, snapshot_req,
  build_message,
}

-- A JSON value that the client writes; `R` stands for the C++ type double.
pub data JsonValue (R : Type 0) : Type 0 where
  text : Bytes → JsonValue R
  int : ℕ → JsonValue R
  number : R → JsonValue R
  flag : Bool → JsonValue R

-- A JSON object that the client reads: its values by key, as `toString`, `toDouble` and `toBool` of
-- Qt convert them.
pub record JsonObject : Type 0 where
  pub text_of : Bytes → Bytes
  pub number_of : Bytes → ℕ
  pub flag_of : Bytes → Bool

pub record Qt (R Image Cert : Type 0) : Type 0 where
  pub to_json : List (Bytes × JsonValue R) → Bytes
  pub read_array : Bytes → Option (List JsonObject)
  pub read_object : Bytes → JsonObject
  pub from_utf8 : Bytes → Bytes
  pub load_jpeg : Bytes → Option Image
  pub supports_ssl : Bool
  pub load_certs : Bytes → List Cert
  pub same_cert : Cert → Cert → Bool

pub record RemoteFile : Type 0 where
  pub name : Bytes
  pub size : ℕ
  pub mtime : ℕ

pub data Problem : Type 0 where
  bad_magic_seen oversize_seen no_ssl no_cert cert_mismatch unverified socket_error : Problem

-- The signals of the client.
pub data Event (Image : Type 0) : Type 0 where
  connected : Event Image
  error_occurred : Problem → Event Image
  video_frame_received : Image → ℕ → ℕ → ℕ → ℕ → Event Image
  file_list_received : List RemoteFile → Event Image
  file_downloaded : Bytes → Bytes → Event Image
  file_deleted : Bytes → Bool → Event Image

-- The calls on the socket.
pub data SocketCall : Type 0 where
  abort disconnect_from_host ignore_ssl_errors : SocketCall
  connect_to_host connect_encrypted : Bytes → ℕ → SocketCall
  write : Bytes → SocketCall

pub record Download : Type 0 where
  pub total : ℕ
  pub received : ℕ
  pub bytes : Bytes

pub record Client (Image Cert : Type 0) : Type 0 where
  pub is_connected : Bool
  pub token : Bytes
  pub tls : Bool
  pub pinned : Option Cert
  pub rx : Bytes
  pub downloads : List (Bytes × Download)
  pub events : List (Event Image)
  pub calls : List SocketCall

module _ {Image Cert : Type 0} where
  abbrev pub emit : Client Image Cert → Event Image → Client Image Cert
  emit c e = record c { events = c.events ++ e ∷ [] }

  abbrev pub call : Client Image Cert → SocketCall → Client Image Cert
  call c a = record c { calls = c.calls ++ a ∷ [] }

  -- `abort` resets the connection at once.
  abbrev pub abort_socket : Client Image Cert → Client Image Cert
  abort_socket c = call (record c { is_connected = false }) abort

  unfoldable pub send_message : Client Image Cert → MsgType → Bytes → Client Image Cert
  send_message c type payload =
      if not c.is_connected then c else call c (write (build_message type payload 0))

  -- The socket closes, or waits for its last bytes to be written: it is connected no more.
  unfoldable pub disconnect_from_terminal : Client Image Cert → Client Image Cert
  disconnect_from_terminal c = record (call c disconnect_from_host) { is_connected = false }

  unfoldable pub request_file_list : Client Image Cert → Client Image Cert
  request_file_list c = send_message c file_list_req []

  unfoldable pub request_snapshot : Client Image Cert → Client Image Cert
  request_snapshot c = send_message c snapshot_req []

  unfoldable pub on_socket_error : Client Image Cert → Client Image Cert
  on_socket_error c = emit c (error_occurred socket_error)

module _ {R Image Cert : Type 0} (qt : Qt R Image Cert) where
  connect_pinned : Client Image Cert → Bytes → ℕ → List Cert → Client Image Cert
  connect_pinned c host port [] = emit c (error_occurred no_cert)
  connect_pinned c host port (cert ∷ more) =
      call (record c { pinned = some cert }) (connect_encrypted host port)

  unfoldable pub connect_to_terminal :
      Client Image Cert → Bytes → ℕ → Bytes → Bool → Bytes → Client Image Cert
  unfolding connect_pinned equal
  connect_to_terminal c host port token tls cert_path =
      let c' =
        abort_socket
          (record c { token = token; tls = tls; pinned = none; rx = []; downloads = [] }) in
      if not tls
      then call c' (connect_to_host host port)
      else if not qt.supports_ssl
      then emit c' (error_occurred no_ssl)
      else if not (equal cert_path [])
      then connect_pinned c' host port (qt.load_certs cert_path)
      else call c' (connect_encrypted host port)

  unfoldable pub send_servo_step : Client Image Cert → R → R → Client Image Cert
  send_servo_step c pan tilt = send_message c servo_cmd (
      qt.to_json (
        (codes "mode", text (codes "step"))
        ∷ (codes "pan", number pan)
        ∷ (codes "tilt", number tilt)
        ∷ []))

  unfoldable pub send_servo_abs : Client Image Cert → R → R → Client Image Cert
  send_servo_abs c pan tilt = send_message c servo_cmd (
      qt.to_json (
        (codes "mode", text (codes "abs"))
        ∷ (codes "pan", number pan)
        ∷ (codes "tilt", number tilt)
        ∷ []))

  unfoldable pub send_mode : Client Image Cert → Bool → Client Image Cert
  send_mode c auto_track =
      send_message c mode_cmd (qt.to_json ((codes "autoTrack", flag auto_track) ∷ []))

  unfoldable pub request_file : Client Image Cert → Bytes → Client Image Cert
  request_file c name = send_message c file_get_req (qt.to_json ((codes "name", text name) ∷ []))

  unfoldable pub delete_file : Client Image Cert → Bytes → Client Image Cert
  delete_file c name = send_message c file_delete_req (qt.to_json ((codes "name", text name) ∷ []))

  hello_fields : Bytes → List (Bytes × JsonValue R)
  unfolding equal
  hello_fields token =
      (codes "role", text (codes "pc"))
      ∷ (codes "ver", int 1)
      ∷ (if not (equal token []) then (codes "token", text token) ∷ [] else [])

  unfoldable pub send_hello : Client Image Cert → Client Image Cert
  unfolding hello_fields send_message
  send_hello c = emit (send_message c hello (qt.to_json (hello_fields c.token))) connected

  -- In TLS mode the HELLO waits for the handshake.
  unfoldable pub on_connected : Client Image Cert → Client Image Cert
  unfolding send_hello
  on_connected c = if not c.tls then send_hello c else c

  unfoldable pub on_encrypted : Client Image Cert → Client Image Cert
  unfolding send_hello
  on_encrypted c = send_hello c

  check_pin : Client Image Cert → Option Cert → Cert → Client Image Cert
  check_pin c (some pin) peer =
      if qt.same_cert peer pin
      then call c ignore_ssl_errors
      else abort_socket (emit c (error_occurred cert_mismatch))
  check_pin c none peer = call (emit c (error_occurred unverified)) ignore_ssl_errors

  -- `peer` is the certificate that the server presents.
  unfoldable pub on_ssl_errors : Client Image Cert → Cert → Client Image Cert
  unfolding check_pin
  on_ssl_errors c peer = check_pin c c.pinned peer

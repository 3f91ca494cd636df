-- ===== src/Websocket/Conn/Delivery.antt =====
-- What the session above terminal/src/net/WebSocketConn.cpp gets of the frames that a client sends.
use qt_s5p6818_face_tracking.Base.{
  ℕ, zero, suc, ◌<◌, ◌≤◌, ◌≡◌, ◌≢◌, refl, sym, ◌∙◌, ap, Bool, true, false, List, [], ◌∷◌, ◌++◌,
  Bytes, length, length-append, take, drop, drop-append, ◌==◌, if◌then◌else◌, AreBytes, All, arith,
  append-nil, append_assoc,
}
use qt_s5p6818_face_tracking.Session.{send}
use qt_s5p6818_face_tracking.Session.Dispatch.{bytes}
use qt_s5p6818_face_tracking.Websocket.{
  done, encode_frame, decode_frame, op_continuation, op_text, op_binary, op_ping, op_pong,
}
use qt_s5p6818_face_tracking.Websocket.Conn.{
  Conn, max_payload, send_control, on_frame, drain_frames, serve, after_drain, recv,
}
use qt_s5p6818_face_tracking.Websocket.Frames.{client_frame, decode_frame-client_frame}

-- The frames of an open connection: data of a (part of a) message, or a ping or pong.
pub data Kind : Type 0 where
  continuation text binary ping pong : Kind

pub record Sent : Type 0 where
  pub kind : Kind
  pub fin : Bool
  pub mask : Bytes
  pub payload : Bytes

abbrev pub opcode_of : Kind → ℕ
opcode_of continuation = op_continuation
opcode_of text = op_text
opcode_of binary = op_binary
opcode_of ping = op_ping
opcode_of pong = op_pong

abbrev pub is_data : Kind → Bool
is_data ping = false
is_data pong = false
is_data _ = true

-- What RFC 6455 asks of a client's frame, and the terminal's limit on its payload.
pub record IsSound (f : Sent) : Type 0 where
  pub mask_length : length f.mask ≡ 4
  pub mask_bytes : AreBytes f.mask
  pub payload_bytes : AreBytes f.payload
  pub payload_length : length f.payload ≤ max_payload
  pub control : is_data f.kind ≡ false → (f.fin ≡ true) × (length f.payload ≤ 125)

abbrev pub wire : List Sent → Bytes
wire [] = []
wire (f ∷ fs) = client_frame (opcode_of f.kind) f.fin f.mask f.payload ++ wire fs

-- The bytes meant for the session.
abbrev pub payloads : List Sent → Bytes
payloads [] = []
payloads (f ∷ fs) = (if is_data f.kind then f.payload else []) ++ payloads fs

abbrev pub answer : Kind → Bytes → List Bytes
answer ping payload = encode_frame [] op_pong payload ∷ []
answer _ payload = []

-- The answers owed: one pong for each ping, with its payload.
abbrev pub pongs : List Sent → List Bytes
pongs [] = []
pongs (f ∷ fs) = answer f.kind f.payload ++ pongs fs

decode-client_frame :
    (k : Kind) (fin : Bool) (mask payload rest : Bytes)
    → IsSound (record { kind = k; fin = fin; mask = mask; payload = payload })
    → decode_frame max_payload true (client_frame (opcode_of k) fin mask payload ++ rest)
      ≡ done
          (record { opcode = opcode_of k; fin = fin; payload = payload })
          (length (client_frame (opcode_of k) fin mask payload))
decode-client_frame continuation fin mask payload rest v =
    decode_frame-client_frame max_payload 0 fin mask payload rest (omega arith) v.payload_length
      (omega (arith, v.payload_length)) (λ e. cc) v.mask_length v.mask_bytes v.payload_bytes
decode-client_frame text fin mask payload rest v =
    decode_frame-client_frame max_payload 1 fin mask payload rest (omega arith) v.payload_length
      (omega (arith, v.payload_length)) (λ e. cc) v.mask_length v.mask_bytes v.payload_bytes
decode-client_frame binary fin mask payload rest v =
    decode_frame-client_frame max_payload 2 fin mask payload rest (omega arith) v.payload_length
      (omega (arith, v.payload_length)) (λ e. cc) v.mask_length v.mask_bytes v.payload_bytes
decode-client_frame ping fin mask payload rest v =
    decode_frame-client_frame max_payload 9 fin mask payload rest (omega arith) v.payload_length
      (omega (arith, v.payload_length)) (λ e. v.control refl) v.mask_length v.mask_bytes
      v.payload_bytes
decode-client_frame pong fin mask payload rest v =
    decode_frame-client_frame max_payload 10 fin mask payload rest (omega arith) v.payload_length
      (omega (arith, v.payload_length)) (λ e. v.control refl) v.mask_length v.mask_bytes
      v.payload_bytes

-- The connection after it has taken in a frame.
abbrev pub taken : Conn → Bytes → List Bytes → Bytes → Conn
taken c app written rx = record c {
  app = c.app ++ app;
  stream = record { sent = c.stream.sent ++ written; accepts = c.stream.accepts };
  rx = rx;
}

abbrev with_app : Conn → List Bytes → Bytes → Bytes → Conn
with_app c written rx app = record c {
  app = app;
  stream = record { sent = written; accepts = c.stream.accepts };
  rx = rx;
}

taken-same_stream :
    (c : Conn) (app rx : Bytes)
    → record c { app = app; rx = rx } ≡ with_app c (c.stream.sent ++ []) rx app
taken-same_stream c app rx = ap (λ s. with_app c s rx app) (sym (append-nil c.stream.sent))

on_frame-taken :
    (c : Conn) (k : Kind) (fin : Bool) (payload rx : Bytes)
    → on_frame
        (record c { rx = rx })
        (record { opcode = opcode_of k; fin = fin; payload = payload })
      ≡ taken c (if is_data k then payload else []) (answer k payload) rx
unfolding on_frame send_control send
on_frame-taken c continuation fin payload rx = taken-same_stream c (c.app ++ payload) rx
on_frame-taken c text fin payload rx = taken-same_stream c (c.app ++ payload) rx
on_frame-taken c binary fin payload rx = taken-same_stream c (c.app ++ payload) rx
on_frame-taken c ping fin payload rx = ap (with_app c _ rx) (sym (append-nil c.app))
on_frame-taken c pong fin payload rx =
    ap (with_app c c.stream.sent rx) (sym (append-nil c.app)) ∙ taken-same_stream c (c.app ++ []) rx

taken-nil : (c : Conn) (rx : Bytes) → record c { rx = rx } ≡ taken c [] [] rx
taken-nil c rx =
    ap (with_app c c.stream.sent rx) (sym (append-nil c.app)) ∙ taken-same_stream c (c.app ++ []) rx

taken-taken :
    (c : Conn) (a b : Bytes) (v w : List Bytes) (rx ry : Bytes)
    → taken (taken c a v rx) b w ry ≡ taken c (a ++ b) (v ++ w) ry
taken-taken c a b v w rx ry =
    ap (with_app c ((c.stream.sent ++ v) ++ w) ry) (append_assoc c.app a b)
    ∙ ap (λ s. with_app c s ry (c.app ++ (a ++ b))) (append_assoc c.stream.sent v w)

drain_step :
    (n : ℕ) (c : Conn) (f : Sent) (fs : List Sent)
    → c.closed ≡ false
    → IsSound f
    → drain_frames (suc n) (record c { rx = wire (f ∷ fs) })
      ≡ drain_frames n
          (taken c (if is_data f.kind then f.payload else []) (answer f.kind f.payload) (wire fs))
unfolding drain_frames
drain_step n c f fs open_ v =
    rw
      (
        decode-client_frame f.kind f.fin f.mask f.payload (wire fs) v,
        drop-append (client_frame (opcode_of f.kind) f.fin f.mask f.payload) (wire fs),
        on_frame-taken c f.kind f.fin f.payload (wire fs),
        drain_frames,
      )
      (rw open_ refl)

pub drain_frames-wire :
    (n : ℕ) (c : Conn) (fs : List Sent)
    → c.closed ≡ false
    → All IsSound fs
    → length (wire fs) < n
    → drain_frames n (record c { rx = wire fs }) ≡ taken c (payloads fs) (pongs fs) []
drain_frames-wire zero c fs open_ v h = absurd (omega arith)
drain_frames-wire (suc n) c [] open_ v h = unfold drain_frames decode_frame in taken-nil c []
drain_frames-wire (suc n) c (f ∷ fs) open_ v h =
    let now = if is_data f.kind then f.payload else [] in
    let sent = answer f.kind f.payload in
    drain_step n c f fs open_ v.0
    ∙ drain_frames-wire n (taken c now sent (wire fs)) fs open_ v.1 (
        omega
          (arith, length-append (client_frame (opcode_of f.kind) f.fin f.mask f.payload) (wire fs)))
    ∙ taken-taken c now (payloads fs) sent (pongs fs) (wire fs) []

not_empty : {A : Type 0} (xs : List A) → xs ≢ [] → (length xs == 0) ≡ false
not_empty [] ne = absurd (ne refl)
not_empty (x ∷ xs) ne = ground arith

served : (c : Conn) (cap_size : ℕ) → c.app ≢ [] → after_drain c cap_size ≡ serve c cap_size
unfolding after_drain
served c cap_size ne = rw (not_empty c.app ne) refl

recv-drained :
    (c : Conn) (cap_size : ℕ) (got : Bytes)
    → c.closed ≡ false
    → c.rx ≡ []
    → c.app ≡ []
    → recv c cap_size (bytes got)
      ≡ after_drain (drain_frames (suc (length got)) (record c { rx = got })) cap_size
unfolding recv after_drain
recv-drained c cap_size got open_ r a = rw (a, open_, r) refl

recv-taken :
    (c : Conn) (cap_size : ℕ) (fs : List Sent)
    → c.closed ≡ false
    → c.rx ≡ []
    → c.app ≡ []
    → All IsSound fs
    → payloads fs ≢ []
    → recv c cap_size (bytes (wire fs)) ≡ serve (taken c (payloads fs) (pongs fs) []) cap_size
recv-taken c cap_size fs open_ r a v ne =
    recv-drained c cap_size (wire fs) open_ r a
    ∙ ap (λ d. after_drain d cap_size)
        (drain_frames-wire (suc (length (wire fs))) c fs open_ v (omega arith))
    ∙ served (taken c (payloads fs) (pongs fs) []) cap_size
        (λ e. ne (ap (λ x. x ++ payloads fs) (sym a) ∙ e))

-- On an open connection with nothing pending, a read that brings whole sound data, ping and pong
-- frames with some payload gives the session their payloads in order, as far as it has room,
-- keeps the rest, answers each ping with a pong of its payload, and stays open.
pub recv-wire :
    (c : Conn) (cap_size : ℕ) (fs : List Sent)
    → c.closed ≡ false
    → c.rx ≡ []
    → c.app ≡ []
    → All IsSound fs
    → payloads fs ≢ []
    → (recv c cap_size (bytes (wire fs))).1 ≡ bytes (take cap_size (payloads fs))
      × ((recv c cap_size (bytes (wire fs))).0.app ≡ drop cap_size (payloads fs))
      × ((recv c cap_size (bytes (wire fs))).0.stream.sent ≡ c.stream.sent ++ pongs fs)
      × ((recv c cap_size (bytes (wire fs))).0.rx ≡ [])
      × ((recv c cap_size (bytes (wire fs))).0.closed ≡ false)
unfolding serve
recv-wire c cap_size fs open_ r a v ne =
    rw (recv-taken c cap_size fs open_ r a v ne, a) (refl, refl, refl, refl, open_)

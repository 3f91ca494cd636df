-- ===== src/Tests/Upgrades.antt =====
-- Runs of a WebSocket connection from its upgrade to the messages that a session takes out of it,
-- and of a TLS read below it.
use mathlib.Core.List.{flatten}
use qt_s5p6818_face_tracking.Base.{
  ℕ, length-take, ap, ◌≡◌, refl, Bool, true, false, List, [], ◌∷◌, ◌++◌, map, Bytes, some, take,
  drop, length, arith, All, AreBytes, ◌≤◌,
}
use qt_s5p6818_face_tracking.Base.Text.{codes}
use qt_s5p6818_face_tracking.Protocol.{mode_cmd, build_message, put_u16, put_u32, type_code}
use qt_s5p6818_face_tracking.Session.Dispatch.{bytes}
use qt_s5p6818_face_tracking.Sockets.{SslRead, got, tls_read}
use qt_s5p6818_face_tracking.Sockets.Reads.{HonoursSize, Drains, tls_read-Drains}
use qt_s5p6818_face_tracking.Stream.{waiting, resume_all}
use qt_s5p6818_face_tracking.Stream.Messages.{deliver}
use qt_s5p6818_face_tracking.Tests.Samples.{link, mode_bytes, keep, ignore}
use qt_s5p6818_face_tracking.Websocket.Conn.{Conn}
use qt_s5p6818_face_tracking.Websocket.Conn.Calls.{calls}
use qt_s5p6818_face_tracking.Websocket.Conn.Delivery.{
  Sent, IsSound, is_data, ping, binary, continuation, wire, pongs,
}
use qt_s5p6818_face_tracking.Websocket.{unmask}
use qt_s5p6818_face_tracking.Websocket.Conn.Messages.{IsFresh, calls-deliver}
use qt_s5p6818_face_tracking.Websocket.Handshake.{handshake}
use qt_s5p6818_face_tracking.Websocket.Handshake.Lines.{lookup_header}
use qt_s5p6818_face_tracking.Websocket.Handshake.Upgrade.{
  request_bytes, answer, key_name, handshake-answer,
}

abbrev mask : Bytes
mask = 1 ∷ 2 ∷ 3 ∷ 4 ∷ []

abbrev conn : Conn
conn = record { stream = link; closed = false; rx = []; app = [] }

conn-IsFresh : IsFresh conn
conn-IsFresh = record { open_ = refl; no_rx = refl; no_app = refl }

-- A message in two frames, with a ping between them.
abbrev frames : List Sent
frames =
    record { kind = binary; fin = false; mask = mask; payload = take 5 mode_bytes }
    ∷ record { kind = ping; fin = true; mask = mask; payload = 7 ∷ [] }
    ∷ record { kind = continuation; fin = true; mask = mask; payload = drop 5 mode_bytes }
    ∷ []

abbrev cut : List Bytes
cut = take 9 (wire frames) ∷ drop 9 (wire frames) ∷ []

sound :
    (f : Sent)
    → f.mask ≡ mask
    → AreBytes f.payload
    → length f.payload ≤ 125
    → (is_data f.kind ≡ false → f.fin ≡ true)
    → IsSound f
sound f m b h control = record {
  mask_length = rw m refl;
  mask_bytes = rw m (omega arith);
  payload_bytes = b;
  payload_length = omega arith;
  control = λ e. (control e, h);
}

frames-AreSound : All IsSound frames
frames-AreSound = (
  sound _ refl (omega arith) (omega arith) (λ e. cc),
  (
    sound _ refl (omega arith) (omega arith) (λ e. refl),
    (sound _ refl (omega arith) (omega arith) (λ e. cc), tt),
  ),
)

calls-deliver_example :
    (resume_all 100 ignore keep (waiting [] []) (calls 4 14 conn cut).0
      ≡ deliver 100 ignore keep [] ((mode_cmd, []) ∷ []))
    × ((calls 4 14 conn cut).1.stream.sent ≡ [] ++ pongs frames)
    × IsFresh (calls 4 14 conn cut).1
unfolding unmask
calls-deliver_example =
    calls-deliver 100 ignore keep [] ((mode_cmd, []) ∷ []) 4 14 conn frames cut (omega arith)
      (omega arith, tt) (omega arith) conn-IsFresh frames-AreSound
      (unfold build_message put_u16 put_u32 type_code in refl) (unfold flatten in refl)
      (omega arith)

abbrev request_line : Bytes
request_line = codes "GET / HTTP/1.1"

abbrev headers : List Bytes
headers = codes "Host: x" ∷ codes "sec-websocket-KEY: \tabc= " ∷ []

handshake-answer_example :
    (kept : Bytes) × (rest : Bytes) × (kept ++ rest ≡ 5 ∷ 6 ∷ [])
    × (handshake conn true (
          map bytes (
            request_line
            ∷ drop 14 (request_bytes (request_line ∷ headers) (5 ∷ []))
            ∷ (6 ∷ [])
            ∷ []))
        ≡ some (answer conn (lookup_header (request_line ∷ headers) key_name) kept))
handshake-answer_example =
    handshake-answer conn request_line headers (5 ∷ 6 ∷ [])
      (request_line ∷ drop 14 (request_bytes (request_line ∷ headers) (5 ∷ [])) ∷ (6 ∷ []) ∷ [])
      (omega arith) (omega arith) (unfold flatten in refl)

-- An `SSL_read` of bytes that OpenSSL holds: as many of them as are asked for.
abbrev holding : Bytes → ℕ → SslRead
holding bs n = got (take n bs)

abbrev data_of : SslRead → Bytes
data_of (got b) = b
data_of _ = []

holding-HonoursSize : (bs : Bytes) → HonoursSize (holding bs)
holding-HonoursSize bs n b e = omega (arith, length-take n bs, ap length (ap data_of e))

-- Two more pieces behind the first three bytes, the second cut at the end of the room.
abbrev held : List (Bool × (ℕ → SslRead))
held = (true, holding (4 ∷ 5 ∷ [])) ∷ (true, holding (6 ∷ 7 ∷ [])) ∷ []

tls_read-Drains_example :
    (out : Bytes) × (tls_read true 6 (holding (1 ∷ 2 ∷ 3 ∷ [])) held ≡ bytes out)
    × Drains 6 (1 ∷ 2 ∷ 3 ∷ []) out held
tls_read-Drains_example =
    tls_read-Drains 6 (holding (1 ∷ 2 ∷ 3 ∷ [])) (1 ∷ 2 ∷ 3 ∷ []) held (omega arith) refl
      (holding-HonoursSize (1 ∷ 2 ∷ 3 ∷ []))
      (holding-HonoursSize (4 ∷ 5 ∷ []), (holding-HonoursSize (6 ∷ 7 ∷ []), tt))

-- ===== src/Tests/Websockets.antt =====
-- Runs of the WebSocket layer, and the test vectors of RFC 3174 and RFC 6455.
use qt_s5p6818_face_tracking.Base.{◌≡◌, refl, true, false, [], ◌∷◌, ◌++◌, Bytes, length, arith}
use qt_s5p6818_face_tracking.Base.Text.{codes, find, starts_with}
use qt_s5p6818_face_tracking.Websocket.{done, encode_frame, decode_frame}
use qt_s5p6818_face_tracking.Websocket.Base64.{base64, decode64, accept_key, decode64-base64}
use qt_s5p6818_face_tracking.Websocket.Frames.{
  client_frame, decode_frame-client_frame, decode_frame-encode_frame,
}
use qt_s5p6818_face_tracking.Websocket.Handshake.{to_lower, header_value}
use qt_s5p6818_face_tracking.Websocket.Sha1.{sha1}

abbrev mask : Bytes
mask = 1 ∷ 2 ∷ 3 ∷ 4 ∷ []

abbrev hi : Bytes
hi = 104 ∷ 105 ∷ []

decode_frame-client_frame_example :
    decode_frame 1000 true (client_frame 1 true mask hi ++ 9 ∷ [])
    ≡ done (record { opcode = 1; fin = true; payload = hi }) (length (client_frame 1 true mask hi))
decode_frame-client_frame_example =
    decode_frame-client_frame 1000 1 true mask hi (9 ∷ []) (omega arith) (omega arith) (omega arith)
      (λ e. cc) refl (omega arith) (omega arith)

decode_frame-encode_frame_example :
    decode_frame 1000 false (encode_frame [] 9 hi ++ 9 ∷ [])
    ≡ done (record { opcode = 9; fin = true; payload = hi }) (length (encode_frame [] 9 hi))
decode_frame-encode_frame_example =
    decode_frame-encode_frame 1000 9 hi (9 ∷ []) (omega arith) (omega arith) (omega arith)
      (λ e. (refl, omega arith))

decode64-base64_example : decode64 (base64 (0 ∷ 16 ∷ 131 ∷ 16 ∷ [])) ≡ 0 ∷ 16 ∷ 131 ∷ 16 ∷ []
decode64-base64_example = decode64-base64 (0 ∷ 16 ∷ 131 ∷ 16 ∷ []) (omega arith)

-- RFC 3174, section 7.3.
sha1_test :
    sha1 (codes "abc")
    ≡ 0xA9 ∷ 0x99 ∷ 0x3E ∷ 0x36 ∷ 0x47 ∷ 0x06 ∷ 0x81 ∷ 0x6A ∷ 0xBA ∷ 0x3E ∷ 0x25 ∷ 0x71 ∷ 0x78
      ∷ 0x50 ∷ 0xC2 ∷ 0x6C ∷ 0x9C ∷ 0xD0 ∷ 0xD8 ∷ 0x9D ∷ []
unfolding sha1
sha1_test = refl

-- RFC 6455, section 1.3.
accept_key_test :
    accept_key (codes "dGhlIHNhbXBsZSBub25jZQ==") ≡ codes "s3pPLMBiTxaQ9kYGzzhZRbK+xOo="
unfolding accept_key sha1
accept_key_test = refl

header_value_test :
    header_value
      (codes "GET / HTTP/1.1\r\nHost: x\r\nsec-websocket-KEY: \tabc= \r\n")
      (codes "Sec-WebSocket-Key")
    ≡ codes "abc="
unfolding header_value starts_with to_lower find
header_value_test = refl

-- ===== src/Websocket.antt =====
-- terminal/src/net/WebSocketProto.h: the RFC 6455 framing. Bytes are below 256, so `b & 0x0F` is
-- `b % 16`, `b & 0x7F` is `b % 128`, and the top bit is set from 128 on. The hash and base64 are in
-- the children `Sha1` and `Base64`, and terminal/src/net/WebSocketConn.cpp is in `Conn`.
pub mod Sha1
pub mod Base64
pub mod Masks
pub mod Frames
pub mod Conn
pub mod Handshake
use qt_s5p6818_face_tracking.Base.{
  ℕ, zero, suc, ◌+◌, ◌*◌, ◌/◌, ◌%◌, ◌^◌, Bool, true, false, not, ◌&&◌, ◌||◌, List, [], ◌∷◌, ◌++◌,
  Bytes, bit_xor, length, get_or, take, drop, ltb, leb, ◌==◌, if◌then◌else◌,
}
use qt_s5p6818_face_tracking.Protocol.{put_u64, get_u64}

abbrev pub op_continuation : ℕ
op_continuation = 0x0

abbrev pub op_text : ℕ
op_text = 0x1

abbrev pub op_binary : ℕ
op_binary = 0x2

abbrev pub op_close : ℕ
op_close = 0x8

abbrev pub op_ping : ℕ
op_ping = 0x9

abbrev pub op_pong : ℕ
op_pong = 0xA

-- The length field, behind its first byte for the two longer forms; the loop over eight bytes is
-- the one of `putU64`.
length_field : ℕ → Bytes
length_field len =
    if ltb len 126
    then len ∷ []
    else if leb len 0xFFFF
    then 126 ∷ (len / 2 ^ 8 % 256) ∷ (len % 256) ∷ []
    else 127 ∷ put_u64 [] len

-- One server frame, appended to `out`: final, never masked.
unfoldable pub encode_frame : Bytes → ℕ → Bytes → Bytes
unfolding length_field
encode_frame out opcode payload =
    out ++ (0x80 + opcode % 16) ∷ (length_field (length payload) ++ payload)

pub record Frame : Type 0 where
  pub opcode : ℕ
  pub fin : Bool
  pub payload : Bytes

-- `done` holds the frame and the number of bytes that it occupied.
pub data Parse : Type 0 where
  done : Frame → ℕ → Parse
  need_more error : Parse

-- The payload from byte `k` on, each byte with the mask's byte `k & 3`.
unfoldable pub unmask : Bytes → ℕ → Bytes → Bytes
unmask mask k [] = []
unmask mask k (b ∷ bs) = bit_xor b (get_or mask (k % 4) 0) ∷ unmask mask (k + 1) bs

-- The end of `decodeFrame`, when the first `i` bytes are read and the length is known.
decode_payload : Bytes → ℕ → Bool → Bool → ℕ → ℕ → Parse
decode_payload p opcode fin masked len i =
    if masked
    then (if ltb (length p) (i + 4)
        then need_more
        else if ltb (length p) (i + 4 + len)
        then need_more
        else done
            (record {
              opcode = opcode;
              fin = fin;
              payload = unmask (drop i p) 0 (take len (drop (i + 4) p));
            })
            (i + 4 + len))
    else if ltb (length p) (i + len)
    then need_more
    else done (record { opcode = opcode; fin = fin; payload = take len (drop i p) }) (i + len)

-- The checks on the length, on control frames and on the mask.
decode_length : ℕ → Bool → Bytes → ℕ → Bool → Bool → ℕ → ℕ → Parse
unfolding decode_payload unmask
decode_length max_payload require_masked p opcode fin masked len i =
    if ltb max_payload len
    then error
    else if leb 0x8 opcode && (not fin || ltb 125 len)
    then error
    else if require_masked && not masked
    then error
    else decode_payload p opcode fin masked len i

unfoldable pub decode_frame : ℕ → Bool → Bytes → Parse
unfolding decode_length
decode_frame max_payload require_masked p =
    if ltb (length p) 2
    then need_more
    else let b0 = get_or p 0 0 in
      let b1 = get_or p 1 0 in
      let fin = leb 0x80 b0 in
      let opcode = b0 % 16 in
      let masked = leb 0x80 b1 in
      let len = b1 % 128 in
      let check = decode_length max_payload require_masked p opcode fin masked in
      if len == 126
      then (if ltb (length p) 4 then need_more else check (get_or p 2 0 * 2 ^ 8 + get_or p 3 0) 4)
      else if len == 127
      then (if ltb (length p) 10 then need_more else check (get_u64 (drop 2 p)) 10)
      else check len 2

-- ===== src/Protocol.antt =====
-- terminal/src/net/Protocol.h: the SEC1 message format that the terminal and its clients share.
-- A buffer is a list of bytes, a pointer with its remaining length is the rest of such a list, and
-- `x << 8k | y` of a `y` below 256^k is written as a sum. A read past the end gives 0; every caller
-- tests the length first.
pub mod RoundTrip
use qt_s5p6818_face_tracking.Base.{
  ℕ, zero, suc, ◌+◌, ◌*◌, ◌/◌, ◌%◌, ◌^◌, List, [], ◌∷◌, ◌++◌, Bytes, Option, none, some, length,
  get_or, drop, ltb, ◌==◌, if◌then◌else◌,
}

abbrev pub magic_word : ℕ
magic_word = 0x53454331

abbrev pub header_size : ℕ
header_size = 12

abbrev pub video_subheader_size : ℕ
video_subheader_size = 20

pub data MsgType : Type 0 where
  hello video_frame servo_cmd mode_cmd file_list_req file_list_resp : MsgType
  file_get_req file_data file_delete_req file_delete_resp snapshot_req heartbeat : MsgType

-- The number of a message type on the wire.
unfoldable pub type_code : MsgType → ℕ
type_code hello = 0x0001
type_code video_frame = 0x0010
type_code servo_cmd = 0x0020
type_code mode_cmd = 0x0021
type_code file_list_req = 0x0030
type_code file_list_resp = 0x0031
type_code file_get_req = 0x0032
type_code file_data = 0x0033
type_code file_delete_req = 0x0034
type_code file_delete_resp = 0x0035
type_code snapshot_req = 0x0040
type_code heartbeat = 0x00F0

-- `static_cast<MsgType>(type)` as a `switch` reads it; `none` goes to its default case.
unfoldable pub msg_type : ℕ → Option MsgType
msg_type c =
    if c == 0x0001
    then some hello
    else if c == 0x0010
    then some video_frame
    else if c == 0x0020
    then some servo_cmd
    else if c == 0x0021
    then some mode_cmd
    else if c == 0x0030
    then some file_list_req
    else if c == 0x0031
    then some file_list_resp
    else if c == 0x0032
    then some file_get_req
    else if c == 0x0033
    then some file_data
    else if c == 0x0034
    then some file_delete_req
    else if c == 0x0035
    then some file_delete_resp
    else if c == 0x0040
    then some snapshot_req
    else if c == 0x00F0
    then some heartbeat
    else none

pub record Header : Type 0 where
  pub magic : ℕ
  pub type : ℕ
  pub flags : ℕ
  pub length : ℕ

unfoldable pub put_u16 : Bytes → ℕ → Bytes
put_u16 b v = b ++ (v / 2 ^ 8 % 256) ∷ (v % 256) ∷ []

unfoldable pub put_u32 : Bytes → ℕ → Bytes
put_u32 b v = b ++ (v / 2 ^ 24 % 256) ∷ (v / 2 ^ 16 % 256) ∷ (v / 2 ^ 8 % 256) ∷ (v % 256) ∷ []

-- The rounds of `putU64`, from the byte at `8 * (k - 1)` bits down.
put_rounds : ℕ → Bytes → ℕ → Bytes
put_rounds zero b v = b
put_rounds (suc k) b v = put_rounds k (b ++ (v / 2 ^ (8 * k) % 256) ∷ []) v

unfoldable pub put_u64 : Bytes → ℕ → Bytes
unfolding put_rounds
put_u64 b v = put_rounds 8 b v

unfoldable pub get_u16 : Bytes → ℕ
get_u16 p = get_or p 0 0 * 2 ^ 8 + get_or p 1 0

unfoldable pub get_u32 : Bytes → ℕ
get_u32 p = get_or p 0 0 * 2 ^ 24 + get_or p 1 0 * 2 ^ 16 + get_or p 2 0 * 2 ^ 8 + get_or p 3 0

-- `k` rounds of `v = (v << 8) | p[i]` in 64 bits.
get_rounds : ℕ → Bytes → ℕ → ℕ
get_rounds zero p v = v
get_rounds (suc k) p v = get_rounds k (drop 1 p) (v * 2 ^ 8 % 2 ^ 64 + get_or p 0 0)

unfoldable pub get_u64 : Bytes → ℕ
unfolding get_rounds
get_u64 p = get_rounds 8 p 0

-- `none` is the result false: too short, or another magic number.
unfoldable pub decode_header : Bytes → Option Header
decode_header p =
    if ltb (length p) header_size
    then none
    else if get_u32 p == magic_word
    then some (record {
      magic = get_u32 p;
      type = get_u16 (drop 4 p);
      flags = get_u16 (drop 6 p);
      length = get_u32 (drop 8 p);
    })
    else none

-- The length field holds the low 32 bits of the payload's length.
unfoldable pub build_message : MsgType → Bytes → ℕ → Bytes
build_message type payload flags =
    let b = put_u32 [] magic_word in
    let b = put_u16 b (type_code type) in
    let b = put_u16 b flags in let b = put_u32 b (length payload % 2 ^ 32) in b ++ payload

unfoldable pub build_video_frame : ℕ → ℕ → ℕ → ℕ → Bytes → Bytes
build_video_frame seq w h ts_ms jpeg =
    let sub = put_u32 [] seq in
    let sub = put_u32 sub w in
    let sub = put_u32 sub h in
    let sub = put_u64 sub ts_ms in build_message video_frame (sub ++ jpeg) 0

-- ===== src/Protocol/RoundTrip.antt =====
-- What the readers of terminal/src/net/Protocol.h give back of what its writers wrote.
use qt_s5p6818_face_tracking.Base.{
  ℕ, zero, suc, ◌/◌, ◌+◌, ◌*◌, ◌%◌, ◌^◌, ◌<◌, ◌≡◌, refl, [], ◌∷◌, ◌++◌, Bytes, some, length,
  length-append, drop, arith,
}
use qt_s5p6818_face_tracking.Protocol.{
  MsgType, type_code, msg_type, put_u16, put_u32, put_u64, put_rounds, get_u16, get_u32, get_u64,
  decode_header, build_message, header_size, magic_word,
}

pub get_u32-put_u32 : (v : ℕ) (rest : Bytes) → v < 2 ^ 32 → get_u32 (put_u32 [] v ++ rest) ≡ v
unfolding get_u32 put_u32
get_u32-put_u32 v rest h = omega arith

-- A number below 2 ^ 64 written by `put_u64` is read back by `get_u64`, with any bytes behind it.
pub get_u64-put_u64 : (v : ℕ) (rest : Bytes) → v < 2 ^ 64 → get_u64 (put_u64 [] v ++ rest) ≡ v
unfolding get_u64 put_u64
get_u64-put_u64 v rest h = omega arith

pub msg_type-type_code : (t : MsgType) → msg_type (type_code t) ≡ some t
unfolding msg_type type_code
msg_type-type_code MsgType.hello = refl
msg_type-type_code _ = refl

pub type_code-lt : (t : MsgType) → type_code t < 2 ^ 16
unfolding type_code
type_code-lt MsgType.hello = omega arith
type_code-lt _ = omega arith

-- The header of a built message, with any bytes behind it, decodes to the magic, its type, its
-- flags (below 2 ^ 16) and its length (below 2 ^ 32), and what follows the header is the payload.
pub decode_header-build_message :
    (t : MsgType) (payload : Bytes) (flags : ℕ) (rest : Bytes)
    → length payload < 2 ^ 32
    → flags < 2 ^ 16
    → (decode_header (build_message t payload flags ++ rest)
        ≡ some (record {
          magic = magic_word;
          type = type_code t;
          flags = flags;
          length = length payload;
        }))
      × (drop header_size (build_message t payload flags ++ rest) ≡ payload ++ rest)
unfolding decode_header build_message put_u32 put_u16 get_u32 get_u16
decode_header-build_message t payload flags rest h f = (ground (arith, type_code-lt t), refl)

pub length-build_message :
    (t : MsgType) (payload : Bytes) (flags : ℕ)
    → length (build_message t payload flags) ≡ header_size + length payload
unfolding build_message put_u32 put_u16
length-build_message t payload flags = omega arith

put_rounds-length : (k : ℕ) (b : Bytes) (v : ℕ) → length (put_rounds k b v) ≡ length b + k
unfolding put_rounds
put_rounds-length zero b v = omega arith
put_rounds-length (suc k) b v =
    let next = b ++ (v / 2 ^ (8 * k) % 256) ∷ [] in
    omega (arith, put_rounds-length k next v, length-append b ((v / 2 ^ (8 * k) % 256) ∷ []))

pub length-put_u64 : (b : Bytes) (v : ℕ) → length (put_u64 b v) ≡ length b + 8
unfolding put_u64
length-put_u64 b v = put_rounds-length 8 b v

-- ===== src/Websocket/Frames.antt =====
-- Laws of the framing in terminal/src/net/WebSocketProto.h.
use qt_s5p6818_face_tracking.Base.{
  ℕ, suc, ◌+◌, ◌*◌, ◌/◌, ◌%◌, ◌^◌, ◌<◌, ◌≤◌, ◌≡◌, refl, sym, ◌∙◌, ap, ap₂, Bool, true, false, [],
  ◌∷◌, ◌++◌, Bytes, length, length-append, length-drop, take, drop, take-append, drop-append,
  drop-add, ltb, ltb→lt, ge→ltb, leb→le, le→leb, leb, if◌then◌else◌, AreBytes, arith, Bool-cases,
  inl, inr, append_assoc, subst,
}
use qt_s5p6818_face_tracking.Websocket.Masks.{
  length-unmask, unmask-unmask, unmask-append, masked_by, unmask-masked_by,
}
use qt_s5p6818_face_tracking.Protocol.{put_u64}
use qt_s5p6818_face_tracking.Protocol.RoundTrip.{get_u64-put_u64, length-put_u64}
use qt_s5p6818_face_tracking.Websocket.{
  done, length_field, encode_frame, unmask, decode_payload, decode_length, decode_frame,
}

-- What the decoder may assume of a frame that the protocol allows: control frames are short.
abbrev pub IsAllowed : ℕ → Bool → ℕ → Type 0
IsAllowed opcode fin len = leb 0x8 opcode ≡ true → (fin ≡ true) × (len ≤ 125)

-- The length bytes of a frame whose mask bit is worth `k` in the first of them, and where they end.
abbrev pub head : ℕ → ℕ → Bytes
head k len =
    if ltb len 126
    then (k + len) ∷ []
    else if leb len 0xFFFF
    then (k + 126) ∷ (len / 2 ^ 8 % 256) ∷ (len % 256) ∷ []
    else (k + 127) ∷ put_u64 [] len

abbrev head_size : ℕ → ℕ
head_size len = if ltb len 126 then 2 else if leb len 0xFFFF then 4 else 10

-- The bit that says whether a frame is masked.
abbrev pub mask_bit : Bool → ℕ
mask_bit true = 128
mask_bit false = 0

second_byte :
    (masked : Bool) (v : ℕ)
    → v < 128
    → ((mask_bit masked + v) % 128 ≡ v) × (leb 0x80 (mask_bit masked + v) ≡ masked)
second_byte true v h = ground arith
second_byte false v h = ground arith

decode_frame_two :
    (max_payload : ℕ) (require : Bool) (b0 b1 d1 d0 : ℕ) (tail : Bytes)
    → b1 % 128 ≡ 126
    → decode_frame max_payload require (b0 ∷ b1 ∷ d1 ∷ d0 ∷ tail)
      ≡ decode_length max_payload require
          (b0 ∷ b1 ∷ d1 ∷ d0 ∷ tail)
          (b0 % 16)
          (leb 0x80 b0)
          (leb 0x80 b1)
          (d1 * 2 ^ 8 + d0)
          4
unfolding decode_frame
decode_frame_two max_payload require b0 b1 d1 d0 tail e = rw e (
    rw
      (
        ge→ltb (suc (suc (suc (suc (length tail))))) 2 (omega arith),
        ge→ltb (suc (suc (suc (suc (length tail))))) 4 (omega arith),
      )
      refl)

two_bytes : (len : ℕ) → len ≤ 0xFFFF → len / 2 ^ 8 % 256 * 2 ^ 8 + len % 256 ≡ len
two_bytes len h = omega arith

decode_frame-head :
    (max_payload : ℕ) (require masked : Bool) (b0 len : ℕ) (tail : Bytes)
    → len < 2 ^ 64
    → decode_frame max_payload require (b0 ∷ (head (mask_bit masked) len ++ tail))
      ≡ decode_length max_payload require
          (b0 ∷ (head (mask_bit masked) len ++ tail))
          (b0 % 16)
          (leb 0x80 b0)
          masked
          len
          (head_size len)
unfolding decode_frame
decode_frame-head max_payload require masked b0 len tail l = elim (Bool-cases (ltb len 126)) [
  | inl short ↦ rw short (ground (arith, second_byte masked len (omega (arith, ltb→lt _ _ short))))
  | inr long ↦ elim (Bool-cases (leb len 0xFFFF)) [
    | inl mid ↦
        let (low, top) = second_byte masked 126 (omega arith) in
        rw (long, mid)
          (decode_frame_two max_payload require b0 _ _ _ tail low
            ∙ ap₂
                (λ k n.
                  decode_length max_payload require
                    (b0 ∷ (mask_bit masked + 126) ∷ (len / 2 ^ 8 % 256) ∷ (len % 256) ∷ tail)
                    (b0 % 16) (leb 0x80 b0) k n 4)
                top (two_bytes len (leb→le _ _ mid)))
    | inr big ↦
        rw (long, big)
          (ground (
            arith,
            second_byte masked 127 (omega arith),
            length-append (put_u64 [] len) tail,
            length-put_u64 [] len,
            get_u64-put_u64 len tail,
          ))
  ]
]

head-tail : (k b0 len : ℕ) (tail : Bytes) → drop (head_size len) (b0 ∷ (head k len ++ tail)) ≡ tail
unfolding put_u64
head-tail k b0 len tail = ground arith

length-head : (k len : ℕ) → suc (length (head k len)) ≡ head_size len
unfolding put_u64
length-head k len = ground arith

decode_length-allowed :
    (max_payload : ℕ) (require : Bool) (p : Bytes) (opcode : ℕ) (fin masked : Bool) (len i : ℕ)
    → len ≤ max_payload
    → IsAllowed opcode fin len
    → (require ≡ true → masked ≡ true)
    → decode_length max_payload require p opcode fin masked len i
      ≡ decode_payload p opcode fin masked len i
unfolding decode_length
decode_length-allowed max_payload require p opcode fin masked len i m a r = ground arith

decode_payload-plain :
    (p payload rest : Bytes) (opcode : ℕ) (fin : Bool) (i : ℕ)
    → drop i p ≡ payload ++ rest
    → i ≤ length p
    → decode_payload p opcode fin false (length payload) i
      ≡ done (record { opcode = opcode; fin = fin; payload = payload }) (i + length payload)
unfolding decode_payload
decode_payload-plain p payload rest opcode fin i d h =
    ground
      (arith, length-drop i p, ap length d, length-append payload rest, take-append payload rest)

decode_payload-masked :
    (p mask payload rest : Bytes) (opcode : ℕ) (fin : Bool) (i : ℕ)
    → drop i p ≡ mask ++ (unmask mask 0 payload ++ rest)
    → i ≤ length p
    → length mask ≡ 4
    → AreBytes mask
    → AreBytes payload
    → decode_payload p opcode fin true (length payload) i
      ≡ done (record { opcode = opcode; fin = fin; payload = payload }) (i + 4 + length payload)
unfolding decode_payload
decode_payload-masked p mask payload rest opcode fin i d h four bm bp =
    let all = length-drop i p in
    let sizes = ap length d ∙ length-append mask (unmask mask 0 payload ++ rest) in
    let tail_size = length-append (unmask mask 0 payload) rest in
    let plain_size = length-unmask mask 0 payload in
    let behind : drop (i + 4) p ≡ unmask mask 0 payload ++ rest =
      drop-add i 4 p
      ∙ ap (drop 4) d
      ∙ rw four at (drop-append mask (unmask mask 0 payload ++ rest)) in
    let cut : take (length payload) (unmask mask 0 payload ++ rest) ≡ unmask mask 0 payload =
      ap (λ n. take n (unmask mask 0 payload ++ rest)) (sym plain_size)
      ∙ take-append (unmask mask 0 payload) rest in
    rw
      (
        ge→ltb (length p) (i + 4) (omega (arith, all, sizes, tail_size, plain_size)),
        ge→ltb (length p) (i + 4 + length payload)
            (omega (arith, all, sizes, tail_size, plain_size)),
        behind,
        d,
      )
      (ap (λ x. done (record { opcode = opcode; fin = fin; payload = x }) (i + 4 + length payload))
        (unmask-append mask (unmask mask 0 payload ++ rest) 0 _ (omega (arith, four))
          ∙ ap (unmask mask 0) cut
          ∙ unmask-unmask mask 0 payload bm bp))

decode_frame-payload :
    (max_payload : ℕ) (require masked : Bool) (b0 opcode : ℕ) (fin : Bool) (len : ℕ) (tail : Bytes)
    → b0 % 16 ≡ opcode
    → leb 0x80 b0 ≡ fin
    → len < 2 ^ 64
    → len ≤ max_payload
    → IsAllowed opcode fin len
    → (require ≡ true → masked ≡ true)
    → decode_frame max_payload require (b0 ∷ (head (mask_bit masked) len ++ tail))
      ≡ decode_payload
          (b0 ∷ (head (mask_bit masked) len ++ tail))
          opcode
          fin
          masked
          len
          (head_size len)
decode_frame-payload max_payload require masked b0 opcode fin len tail o f l m a r =
    let p = b0 ∷ (head (mask_bit masked) len ++ tail) in
    decode_frame-head max_payload require masked b0 len tail l
    ∙ ap₂ (λ x y. decode_length max_payload require p x y masked len (head_size len)) o f
    ∙ decode_length-allowed max_payload require p opcode fin masked len (head_size len) m a r

length_field-head : (len : ℕ) → length_field len ≡ head 0 len
unfolding length_field
length_field-head len = ground arith

length_of_head :
    (k b0 len : ℕ) (tail : Bytes) → length (b0 ∷ (head k len ++ tail)) ≡ head_size len + length tail
length_of_head k b0 len tail = omega (arith, length-append (head k len) tail, length-head k len)

-- A frame that the terminal encodes is decoded, with any bytes behind it, by a receiver that
-- allows unmasked frames to its opcode and payload, and uses up exactly its own bytes; the opcode
-- is below 16, the payload within the limit and 2 ^ 64, a control frame short.
pub decode_frame-encode_frame :
    (max_payload opcode : ℕ) (payload rest : Bytes)
    → opcode < 16
    → length payload ≤ max_payload
    → length payload < 2 ^ 64
    → IsAllowed opcode true (length payload)
    → decode_frame max_payload false (encode_frame [] opcode payload ++ rest)
      ≡ done
          (record { opcode = opcode; fin = true; payload = payload })
          (length (encode_frame [] opcode payload))
unfolding encode_frame
decode_frame-encode_frame max_payload opcode payload rest o m l allowed =
    let b0 : ℕ = 0x80 + opcode % 16 in
    let len = length payload in
    let built : encode_frame [] opcode payload ≡ b0 ∷ (head 0 len ++ payload) =
      ap (λ x. b0 ∷ (x ++ payload)) (length_field-head len) in
    let size : length (encode_frame [] opcode payload) ≡ head_size len + len =
      ap length built ∙ length_of_head 0 b0 len payload in
    let p = b0 ∷ (head 0 len ++ (payload ++ rest)) in
    ap (λ x. decode_frame max_payload false (x ++ rest)) built
    ∙ ap (λ x. decode_frame max_payload false (b0 ∷ x)) (append_assoc (head 0 len) payload rest)
    ∙ decode_frame-payload max_payload false false b0 opcode true len (payload ++ rest)
        (omega arith) (le→leb 0x80 b0 (omega arith)) l m allowed (λ e. cc)
    ∙ decode_payload-plain p payload rest opcode true (head_size len)
        (head-tail 0 b0 len (payload ++ rest))
        (omega (arith, length_of_head 0 b0 len (payload ++ rest)))
    ∙ ap (done (record { opcode = opcode; fin = true; payload = payload })) (sym size)

first_byte :
    (fin : Bool) (opcode : ℕ)
    → opcode < 16
    → (((if fin then 128 else 0) + opcode) % 16 ≡ opcode)
      × (leb 0x80 ((if fin then 128 else 0) + opcode) ≡ fin)
first_byte true opcode h = ground arith
first_byte false opcode h = ground arith

-- A client's frame: the mask bit, the mask, and what is sent under it.
abbrev frame_of : ℕ → Bool → Bytes → ℕ → Bytes → Bytes
frame_of opcode fin mask len coded =
    ((if fin then 128 else 0) + opcode) ∷ (head 128 len ++ (mask ++ coded))

-- A client's frame by RFC 6455.
abbrev pub client_frame : ℕ → Bool → Bytes → Bytes → Bytes
client_frame opcode fin mask payload =
    frame_of opcode fin mask (length payload) (masked_by mask payload)

decode_frame-unmask :
    (max_payload opcode : ℕ) (fin : Bool) (mask payload rest : Bytes)
    → opcode < 16
    → length payload ≤ max_payload
    → length payload < 2 ^ 64
    → IsAllowed opcode fin (length payload)
    → length mask ≡ 4
    → AreBytes mask
    → AreBytes payload
    → decode_frame max_payload true
        (frame_of opcode fin mask (length payload) (unmask mask 0 payload) ++ rest)
      ≡ done
          (record { opcode = opcode; fin = fin; payload = payload })
          (length (frame_of opcode fin mask (length payload) (unmask mask 0 payload)))
decode_frame-unmask max_payload opcode fin mask payload rest o m l allowed four bm bp =
    let b0 : ℕ = (if fin then 128 else 0) + opcode in
    let len = length payload in
    let body = mask ++ unmask mask 0 payload in
    let (low, top) = first_byte fin opcode o in
    let size : length (frame_of opcode fin mask (length payload) (unmask mask 0 payload))
        ≡ head_size len + 4 + len =
      omega (
        arith,
        length_of_head 128 b0 len body,
        length-append mask (unmask mask 0 payload),
        length-unmask mask 0 payload,
      ) in
    let p = b0 ∷ (head 128 len ++ (body ++ rest)) in
    let split : body ++ rest ≡ mask ++ (unmask mask 0 payload ++ rest) =
      append_assoc mask (unmask mask 0 payload) rest in
    ap (λ x. decode_frame max_payload true (b0 ∷ x)) (append_assoc (head 128 len) body rest)
    ∙ decode_frame-payload max_payload true true b0 opcode fin len (body ++ rest) low top l m
        allowed (λ e. refl)
    ∙ decode_payload-masked p mask payload rest opcode fin (head_size len)
        (head-tail 128 b0 len (body ++ rest) ∙ split)
        (omega (arith, length_of_head 128 b0 len (body ++ rest))) four bm bp
    ∙ ap (done (record { opcode = opcode; fin = fin; payload = payload })) (sym size)

-- A masked frame of a client, its payload under the mask by RFC 6455 and with any bytes behind
-- it, is decoded to its opcode, its end flag and its payload, and uses up exactly its own bytes;
-- the opcode is below 16, the mask has four bytes, the payload is of bytes and within the limit
-- and 2 ^ 64, a control frame is short and whole.
pub decode_frame-client_frame :
    (max_payload opcode : ℕ) (fin : Bool) (mask payload rest : Bytes)
    → opcode < 16
    → length payload ≤ max_payload
    → length payload < 2 ^ 64
    → IsAllowed opcode fin (length payload)
    → length mask ≡ 4
    → AreBytes mask
    → AreBytes payload
    → decode_frame max_payload true (client_frame opcode fin mask payload ++ rest)
      ≡ done
          (record { opcode = opcode; fin = fin; payload = payload })
          (length (client_frame opcode fin mask payload))
decode_frame-client_frame max_payload opcode fin mask payload rest o m l allowed four bm bp =
    subst
      (λ coded.
        decode_frame max_payload true (frame_of opcode fin mask (length payload) coded ++ rest)
        ≡ done (record { opcode = opcode; fin = fin; payload = payload })
            (length (frame_of opcode fin mask (length payload) coded)))
      (unmask-masked_by mask payload four)
      (decode_frame-unmask max_payload opcode fin mask payload rest o m l allowed four bm bp)

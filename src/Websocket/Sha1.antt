-- ===== src/Websocket/Sha1.antt =====
-- `sha1` of terminal/src/net/WebSocketProto.h: 32-bit words, every sum and shift modulo 2^32.
use qt_s5p6818_face_tracking.Base.{
  ℕ, zero, suc, ◌+◌, ◌-◌, ◌*◌, ◌/◌, ◌%◌, ◌^◌, ◌≤◌, ◌≡◌, refl, inl, inr, Bool-cases, ==_iff, bit_and,
  bit_or, bit_xor, List, [], ◌∷◌, ◌++◌, Bytes, length, length-append, get_or, drop, ltb, ◌==◌,
  if◌then◌else◌, AreBytes, arith,
}
use qt_s5p6818_face_tracking.Protocol.{put_u32, put_u64, get_u32}
use qt_s5p6818_face_tracking.Protocol.RoundTrip.{length-put_u64}

abbrev word : ℕ
word = 2 ^ 32

rol : ℕ → ℕ → ℕ
rol v b = bit_or (v * 2 ^ b % word) (v / 2 ^ (32 - b))

complement : ℕ → ℕ
complement v = word - 1 - v

-- The zeros that bring the length to 56 modulo 64; a run of 64 is enough.
zeros : ℕ → Bytes → Bytes
zeros zero msg = msg
zeros (suc fuel) msg =
    let more = zeros fuel (msg ++ 0x00 ∷ []) in if length msg % 64 == 56 then msg else more

pub pad : Bytes → Bytes
unfolding zeros
pad input = put_u64 (zeros 64 (input ++ 0x80 ∷ [])) (length input * 8 % 2 ^ 64)

-- The first sixteen words of the schedule, from the block.
block_words : ℕ → Bytes → List ℕ
block_words zero p = []
block_words (suc n) p = get_u32 p ∷ block_words n (drop 4 p)

-- The schedule grows at its end: `w[i]` from `w[i - 3]`, `w[i - 8]`, `w[i - 14]`, `w[i - 16]`.
extend_words : ℕ → ℕ → List ℕ → List ℕ
unfolding rol
extend_words zero i w = w
extend_words (suc n) i w = extend_words n (i + 1) (
    w
    ++ rol
        (bit_xor (bit_xor (bit_xor (get_or w (i - 3) 0) (get_or w (i - 8) 0)) (get_or w (i - 14) 0))
          (get_or w (i - 16) 0))
        1
      ∷ [])

record State : Type 0 where
  a : ℕ
  b : ℕ
  c : ℕ
  d : ℕ
  e : ℕ

round_function : ℕ → ℕ → ℕ → ℕ → ℕ
unfolding complement
round_function i b c d =
    if ltb i 20
    then bit_or (bit_and b c) (bit_and (complement b) d)
    else if ltb i 40
    then bit_xor (bit_xor b c) d
    else if ltb i 60
    then bit_or (bit_or (bit_and b c) (bit_and b d)) (bit_and c d)
    else bit_xor (bit_xor b c) d

round_constant : ℕ → ℕ
round_constant i =
    if ltb i 20
    then 0x5A827999
    else if ltb i 40
    then 0x6ED9EBA1
    else if ltb i 60
    then 0x8F1BBCDC
    else 0xCA62C1D6

rounds : ℕ → List ℕ → State → State
unfolding rol round_function round_constant
rounds i [] s = s
rounds i (w ∷ ws) s = rounds (i + 1) ws (record {
  a = (rol s.a 5 + round_function i s.b s.c s.d + s.e + round_constant i + w) % word;
  b = s.a;
  c = rol s.b 30;
  d = s.c;
  e = s.d;
})

-- One block of 64 bytes.
block : State → Bytes → State
unfolding block_words extend_words rounds
block h p =
    let s = rounds 0 (extend_words 64 16 (block_words 16 p)) h in
    record {
      a = (h.a + s.a) % word;
      b = (h.b + s.b) % word;
      c = (h.c + s.c) % word;
      d = (h.d + s.d) % word;
      e = (h.e + s.e) % word;
    }

-- `n` blocks, one behind the other.
blocks : ℕ → State → Bytes → State
unfolding block
blocks zero h p = h
blocks (suc n) h p = blocks n (block h p) (drop 64 p)

initial : State
initial = record { a = 0x67452301; b = 0xEFCDAB89; c = 0x98BADCFE; d = 0x10325476; e = 0xC3D2E1F0 }

state_bytes : State → Bytes
state_bytes h = put_u32 (put_u32 (put_u32 (put_u32 (put_u32 [] h.a) h.b) h.c) h.d) h.e

unfoldable pub sha1 : Bytes → Bytes
unfolding pad blocks initial state_bytes put_u32 put_u64 get_u32
sha1 input = let msg = pad input in state_bytes (blocks (length msg / 64) initial msg)

zeros-length :
    (fuel : ℕ) (msg : Bytes)
    → (120 - length msg % 64) % 64 ≤ fuel
    → length (zeros fuel msg) % 64 ≡ 56
unfolding zeros
zeros-length zero msg h = omega arith
zeros-length (suc fuel) msg h = elim (Bool-cases (length msg % 64 == 56)) [
  | inl e ↦ rw e ((==_iff _ _).0 e)
  | inr e ↦
      rw e (zeros-length fuel (msg ++ 0x00 ∷ []) (ground (arith, e, length-append msg (0x00 ∷ []))))
]

-- The message that SHA-1 pads, of any length, is a whole number of 64-byte blocks.
pub pad-length : (input : Bytes) → length (pad input) % 64 ≡ 0
unfolding pad
pad-length input = omega (
  arith,
  length-put_u64 (zeros 64 (input ++ 0x80 ∷ [])) (length input * 8 % 2 ^ 64),
  zeros-length 64 (input ++ 0x80 ∷ []) (omega arith),
)

-- The digest is twenty bytes.
pub sha1-AreBytes : (input : Bytes) → (length (sha1 input) ≡ 20) × AreBytes (sha1 input)
unfolding sha1
sha1-AreBytes input = (refl, omega arith)

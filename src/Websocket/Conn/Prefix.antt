-- ===== src/Websocket/Conn/Prefix.antt =====
-- terminal/src/net/WebSocketProto.h: `decodeFrame` does not look past the frame at the front.
use qt_s5p6818_face_tracking.Base.{
  ℕ, ◌+◌, ◌*◌, ◌^◌, ◌%◌, ◌≤◌, ◌≡◌, refl, ap, ap₂, ◌∙◌, Bool, Bool-cases, inl, inr, [], ◌∷◌, ◌++◌,
  Bytes, length, length-append, length-drop, take, drop, drop-append_of_le, take-append_of_le,
  get_or, ltb, ltb→ge, ge→ltb, leb, not, ◌&&◌, ◌||◌, ◌==◌, if◌then◌else◌, arith,
}
use qt_s5p6818_face_tracking.Protocol.{get_u64}
use qt_s5p6818_face_tracking.Websocket.{
  Parse, done, need_more, error, unmask, decode_frame, decode_length, decode_payload,
}
use qt_s5p6818_face_tracking.Websocket.Masks.{unmask-append, get_or-append}

-- A parse that needs no more bytes is the parse of the longer buffer too.
abbrev pub Extends : Parse → Parse → Type 0
Extends need_more s = Unit
Extends error s = s ≡ error
Extends (done f k) s = s ≡ done f k

Extends-refl : (r : Parse) → Extends r r
Extends-refl need_more = tt
Extends-refl error = refl
Extends-refl (done f k) = refl

-- Either the short buffer asks for more, or neither does and the rest decides.
more-Extends :
    (n : ℕ) (p q : Bytes) (r s : Parse)
    → (n ≤ length p → Extends r s)
    → Extends
        (if ltb (length p) n then need_more else r)
        (if ltb (length (p ++ q)) n then need_more else s)
more-Extends n p q r s h = elim (Bool-cases (ltb (length p) n)) [
  | inl short ↦ rw short tt
  | inr enough ↦
      rw (enough, ge→ltb (length (p ++ q)) n (omega (arith, length-append p q, ltb→ge _ _ enough)))
        (h (ltb→ge _ _ enough))
]

if-Extends :
    (b : Bool) (r r' s s' : Parse)
    → Extends r r'
    → Extends s s'
    → Extends (if b then r else s) (if b then r' else s')
if-Extends b r r' s s' h k = elim (Bool-cases b) [ inl e ↦ rw e h | inr e ↦ rw e k ]

unmask-take :
    (p q : Bytes) (i len : ℕ)
    → i + 4 + len ≤ length p
    → unmask (drop i (p ++ q)) 0 (take len (drop (i + 4) (p ++ q)))
      ≡ unmask (drop i p) 0 (take len (drop (i + 4) p))
unmask-take p q i len h =
    let shorter : take len (drop (i + 4) (p ++ q)) ≡ take len (drop (i + 4) p) =
      ap (take len) (drop-append_of_le (i + 4) p q (omega (arith, h)))
      ∙ take-append_of_le len (drop (i + 4) p) q (omega (arith, h, length-drop (i + 4) p)) in
    ap₂ (λ m bs. unmask m 0 bs) (drop-append_of_le i p q (omega (arith, h))) shorter
    ∙ unmask-append (drop i p) q 0 (take len (drop (i + 4) p)) (omega (arith, h, length-drop i p))

decode_payload-Extends :
    (p q : Bytes) (opcode : ℕ) (fin masked : Bool) (len i : ℕ)
    → Extends
        (decode_payload p opcode fin masked len i)
        (decode_payload (p ++ q) opcode fin masked len i)
unfolding decode_payload
decode_payload-Extends p q opcode fin masked len i =
    if-Extends masked _ _ _ _
      (more-Extends (i + 4) p q _ _ (λ h. more-Extends (i + 4 + len) p q _ _ (λ k.
        ap (λ bs. done (record { opcode = opcode; fin = fin; payload = bs }) (i + 4 + len))
          (unmask-take p q i len k))))
      (more-Extends (i + len) p q _ _ (λ h.
        ap (λ bs. done (record { opcode = opcode; fin = fin; payload = bs }) (i + len))
          (ap (take len) (drop-append_of_le i p q (omega (arith, h)))
            ∙ take-append_of_le len (drop i p) q (omega (arith, h, length-drop i p)))))

decode_length-Extends :
    (limit : ℕ) (masks : Bool) (p q : Bytes) (opcode : ℕ) (fin masked : Bool) (len i : ℕ)
    → Extends
        (decode_length limit masks p opcode fin masked len i)
        (decode_length limit masks (p ++ q) opcode fin masked len i)
unfolding decode_length
decode_length-Extends limit masks p q opcode fin masked len i =
    if-Extends (ltb limit len) error error _ _ refl (
      if-Extends (leb 0x8 opcode && (not fin || ltb 125 len)) error error _ _ refl (
        if-Extends (masks && not masked) error error _ _ refl
          (decode_payload-Extends p q opcode fin masked len i)))

get_u64-append : (p q : Bytes) → 10 ≤ length p → get_u64 (drop 2 (p ++ q)) ≡ get_u64 (drop 2 p)
unfolding get_u64
get_u64-append (a ∷ b ∷ c ∷ d ∷ e ∷ f ∷ g ∷ i ∷ j ∷ k ∷ p) q h = refl
get_u64-append _ q h = absurd (omega arith)

-- Whatever comes behind it, a buffer that holds a whole frame or an error is parsed the same.
pub decode_frame-Extends :
    (limit : ℕ) (masks : Bool) (p q : Bytes)
    → Extends (decode_frame limit masks p) (decode_frame limit masks (p ++ q))
unfolding decode_frame
decode_frame-Extends limit masks [] q = tt
decode_frame-Extends limit masks (a ∷ []) q = tt
decode_frame-Extends limit masks (b0 ∷ b1 ∷ p) q =
    let whole = b0 ∷ b1 ∷ p in
    let check : (len i : ℕ)
        → Extends (decode_length limit masks whole (b0 % 16) (leb 0x80 b0) (leb 0x80 b1) len i)
            (decode_length limit masks (whole ++ q) (b0 % 16) (leb 0x80 b0) (leb 0x80 b1) len i) =
      λ len i.
        decode_length-Extends limit masks whole q (b0 % 16) (leb 0x80 b0) (leb 0x80 b1) len i in
    more-Extends 2 whole q _ _ (λ h.
      if-Extends (b1 % 128 == 126) _ _ _ _
        (more-Extends 4 whole q _ _ (λ k.
          rw
            (get_or-append whole q 2 (omega (arith, k)), get_or-append whole q 3 (omega (arith, k)))
            (check (get_or whole 2 0 * 2 ^ 8 + get_or whole 3 0) 4)))
        (if-Extends (b1 % 128 == 127) _ _ _ _
          (more-Extends 10 whole q _ _
            (λ k. rw (get_u64-append whole q k) (check (get_u64 (drop 2 whole)) 10)))
          (check (b1 % 128) 2)))

-- ===== src/Websocket/Conn/Settled.antt =====
-- terminal/src/net/WebSocketConn.cpp: the loop of `drainFrames` comes to its end.
use qt_s5p6818_face_tracking.Base.{
  ℕ, zero, suc, ◌+◌, ◌*◌, ◌^◌, ◌%◌, ap, ◌≤◌, ◌<◌, ◌≡◌, ◌⊎◌, refl, subst, inl, inr, Bool, true,
  Bytes, length, drop, length-drop, arith, if_lem, get_or, ltb, leb, not, ◌&&◌, ◌||◌, ◌==◌,
}
use qt_s5p6818_face_tracking.Protocol.{get_u64}
use qt_s5p6818_face_tracking.Websocket.{
  op_continuation, op_text, op_binary, op_ping, op_pong, op_close, Frame, Parse, done, need_more,
  error, decode_frame, decode_length, decode_payload,
}
use qt_s5p6818_face_tracking.Websocket.Conn.{Conn, max_payload, on_frame, drain_frames}

-- What a parse takes off the buffer: two bytes at least, and no more than there are.
abbrev pub Takes : Bytes → Parse → Type 0
Takes p (done f k) = (2 ≤ k) × (k ≤ length p)
Takes p need_more = Unit
Takes p error = Unit

decode_payload-Takes :
    (p : Bytes) (opcode : ℕ) (fin masked : Bool) (len i : ℕ)
    → 2 ≤ i
    → Takes p (decode_payload p opcode fin masked len i)
unfolding decode_payload
decode_payload-Takes p opcode fin masked len i h = ground arith

decode_length-Takes :
    (max_len : ℕ) (masks : Bool) (p : Bytes) (opcode : ℕ) (fin masked : Bool) (len i : ℕ)
    → 2 ≤ i
    → Takes p (decode_length max_len masks p opcode fin masked len i)
unfolding decode_length
decode_length-Takes max_len masks p opcode fin masked len i h =
    if_lem (Takes p) (ltb max_len len) error _ (λ e. tt)
      (λ e.
        if_lem (Takes p) (leb 0x8 opcode && (not fin || ltb 125 len)) error _ (λ f. tt)
          (λ f.
            if_lem (Takes p) (masks && not masked) error _ (λ g. tt)
              (λ g. decode_payload-Takes p opcode fin masked len i h)))

pub decode_frame-Takes :
    (max_len : ℕ) (masks : Bool) (p : Bytes) → Takes p (decode_frame max_len masks p)
unfolding decode_frame
decode_frame-Takes max_len masks p =
    let b0 = get_or p 0 0 in
    let b1 = get_or p 1 0 in
    let check : (len i : ℕ)
        → 2 ≤ i
        → Takes p (decode_length max_len masks p (b0 % 16) (leb 0x80 b0) (leb 0x80 b1) len i) =
      λ len i h.
        decode_length-Takes max_len masks p (b0 % 16) (leb 0x80 b0) (leb 0x80 b1) len i h in
    if_lem (Takes p) (ltb (length p) 2) need_more _ (λ e. tt)
      (λ e.
        if_lem (Takes p) (b1 % 128 == 126) _ _
          (λ f.
            if_lem (Takes p) (ltb (length p) 4) need_more _ (λ g. tt)
              (λ g. check (get_or p 2 0 * 2 ^ 8 + get_or p 3 0) 4 (omega arith)))
          (λ f.
            if_lem (Takes p) (b1 % 128 == 127) _ _
              (λ g.
                if_lem (Takes p) (ltb (length p) 10) need_more _ (λ i. tt)
                  (λ i. check (get_u64 (drop 2 p)) 10 (omega arith)))
              (λ g. check (b1 % 128) 2 (omega arith))))

pub Parse-cases :
    (r : Parse) → (r ≡ need_more) ⊎ (r ≡ error) ⊎ ((f : Frame) × ((k : ℕ) × (r ≡ done f k)))
Parse-cases need_more = inl refl
Parse-cases error = inr (inl refl)
Parse-cases (done f k) = inr (inr (f, (k, refl)))

-- The buffer is used up to the last whole frame, or the connection is closed.
abbrev pub IsDrained : Conn → Type 0
IsDrained c = (c.closed ≡ true) ⊎ (decode_frame max_payload true c.rx ≡ need_more)

on_frame-rx : (c : Conn) (f : Frame) → (on_frame c f).rx ≡ c.rx
unfolding on_frame
on_frame-rx c f =
    let same : Conn → Type 0 = λ d. d.rx ≡ c.rx in
    if_lem same (f.opcode == op_continuation || f.opcode == op_text || f.opcode == op_binary) _ _
      (λ e. refl)
      (λ e.
        if_lem same (f.opcode == op_ping) _ _ (λ g. refl)
          (λ g.
            if_lem same (f.opcode == op_pong) c _ (λ h. refl)
              (λ h. if_lem same (f.opcode == op_close) _ c (λ i. refl) (λ i. refl))))

drain_frames-IsDrained : (n : ℕ) (c : Conn) → length c.rx < n → IsDrained (drain_frames n c)
unfolding drain_frames
drain_frames-IsDrained zero c h = absurd (omega arith)
drain_frames-IsDrained (suc n) c h = elim (Parse-cases (decode_frame max_payload true c.rx)) [
  | inl e ↦ rw (e, drain_frames) (inr e)
  | inr (inl e) ↦ rw (e, drain_frames) (inl refl)
  | inr (inr (f, (k, e))) ↦
      let takes : Takes c.rx (done f k) =
        subst (Takes c.rx) e (decode_frame-Takes max_payload true c.rx) in
      let c' = on_frame (record c { rx = drop k c.rx }) f in
      let shorter : length c'.rx < n = omega (
        arith,
        takes.0,
        takes.1,
        length-drop k c.rx,
        ap length (on_frame-rx (record c { rx = drop k c.rx }) f),
      ) in
      rw (e, drain_frames)
        (if_lem IsDrained c'.closed c' (drain_frames n c') (λ closed. inl closed)
          (λ open_. drain_frames-IsDrained n c' shorter))
]

-- The frame loop has fuel enough: it ends with the connection closed, or with no whole frame and
-- no error at the front of the buffer.
pub drain_frames_settled : (c : Conn) → IsDrained (drain_frames (suc (length c.rx)) c)
drain_frames_settled c = drain_frames-IsDrained (suc (length c.rx)) c (omega arith)
